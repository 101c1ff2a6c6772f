-- ===== src/Protocol/Messages/Decisions.antt =====
-- protocol/messages.py: the payload of DECISION_RECEIPT.
use pilotfish.Base.{◌≡◌, ap, List, [], ◌∷◌, map}
use pilotfish.Base.Result.{Result, ok, ◌>>=◌, map_ok-inverse}
use pilotfish.Base.Text.{Bytes}
use pilotfish.Core.Rules.{Exclusion}
use pilotfish.Core.Decide.{ClassEligibility, EligibilityDecision}
use pilotfish.Platform.{Platform, Value, int, boolean, string, array_of}
use pilotfish.Protocol.Fields.{
  at, as_text, as_bool, as_time, as_texts, as_list, as_list-array, ts, whole, InCalendar, dt-ts,
  ts-whole,
}
use pilotfish.Protocol.Messages.Links.{texts_value, as_texts-texts_value}
use pilotfish.Protocol.Messages.Bundles.{read_all}

unfoldable pub exclusion_value : Exclusion → Value
exclusion_value e = array_of (string e.link_id ∷ string e.rule_id ∷ string e.reason ∷ [])

unfoldable pub eligibility_value : ClassEligibility → Value
unfolding exclusion_value
eligibility_value c =
    array_of (
      string c.class_id
      ∷ texts_value c.permitted
      ∷ array_of (map exclusion_value c.exclusions)
      ∷ [])

-- the array that `encode_decision` encodes
unfoldable pub decision_fields : EligibilityDecision → List Value
decision_fields d =
    string d.site_id
    ∷ int (ts d.decided_at)
    ∷ int (ts d.valid_until)
    ∷ string d.bundle_hash
    ∷ string d.evidence_hash
    ∷ boolean d.degraded
    ∷ array_of (map eligibility_value d.classes)
    ∷ []

unfoldable pub read_exclusion : Value → Result Exclusion
unfolding at as_text
read_exclusion v = do
  e ← as_list v
  link_id ← at e 0 >>= as_text
  rule_id ← at e 1 >>= as_text
  reason ← at e 2 >>= as_text
  ok (record { link_id = link_id; rule_id = rule_id; reason = reason })

unfoldable pub read_eligibility : Value → Result ClassEligibility
unfolding at as_text
read_eligibility v = do
  c ← as_list v
  class_id ← at c 0 >>= as_text
  permitted ← at c 1 >>= as_texts
  exclusions ← at c 2 >>= read_all read_exclusion
  ok (record { class_id = class_id; permitted = permitted; exclusions = exclusions })

-- `decode_decision` on the decoded array
unfoldable pub decision_of_fields : List Value → Result EligibilityDecision
unfolding at as_text as_bool as_time
decision_of_fields f = do
  site_id ← at f 0 >>= as_text
  decided_at ← at f 1 >>= as_time
  valid_until ← at f 2 >>= as_time
  bundle_hash ← at f 3 >>= as_text
  evidence_hash ← at f 4 >>= as_text
  degraded ← at f 5 >>= as_bool
  classes ← at f 6 >>= read_all read_eligibility
  ok (record {
    site_id = site_id;
    decided_at = decided_at;
    valid_until = valid_until;
    bundle_hash = bundle_hash;
    evidence_hash = evidence_hash;
    degraded = degraded;
    classes = classes;
  })

module _ ⦃p : Platform⦄ where
  unfoldable pub encode_decision : EligibilityDecision → Bytes
  unfolding decision_fields eligibility_value
  encode_decision d = p.dumps (array_of (decision_fields d))

  unfoldable pub decode_decision : Bytes → Result EligibilityDecision
  unfolding decision_of_fields read_eligibility read_exclusion
  decode_decision payload = do v ← p.loads payload; f ← as_list v; decision_of_fields f

-- The decision as the wire carries it: its times in whole seconds.
unfoldable pub whole_decision : EligibilityDecision → EligibilityDecision
whole_decision d = record d { decided_at = whole d.decided_at; valid_until = whole d.valid_until }

pub record HasCalendarTimes (d : EligibilityDecision) : Type 0 where
  pub decided : InCalendar d.decided_at
  pub until : InCalendar d.valid_until

read_exclusion-value : (e : Exclusion) → read_exclusion (exclusion_value e) ≡ ok e
unfolding read_exclusion exclusion_value
read_exclusion-value e =
    rw (as_list-array (string e.link_id ∷ string e.rule_id ∷ string e.reason ∷ []))

read_exclusions :
    (es : List Exclusion) → read_all read_exclusion (array_of (map exclusion_value es)) ≡ ok es
unfolding read_all
read_exclusions es = rw (
  as_list-array (map exclusion_value es),
  map_ok-inverse read_exclusion exclusion_value read_exclusion-value es,
)

read_eligibility-value : (c : ClassEligibility) → read_eligibility (eligibility_value c) ≡ ok c
unfolding read_eligibility eligibility_value
read_eligibility-value c = rw (
  as_list-array (
      string c.class_id
      ∷ texts_value c.permitted
      ∷ array_of (map exclusion_value c.exclusions)
      ∷ []),
  as_texts-texts_value c.permitted,
  read_exclusions c.exclusions,
)

read_eligibilities :
    (cs : List ClassEligibility)
    → read_all read_eligibility (array_of (map eligibility_value cs)) ≡ ok cs
unfolding read_all
read_eligibilities cs = rw (
  as_list-array (map eligibility_value cs),
  map_ok-inverse read_eligibility eligibility_value read_eligibility-value cs,
)

decision_fields-whole :
    (d : EligibilityDecision) → decision_fields (whole_decision d) ≡ decision_fields d
unfolding decision_fields whole_decision
decision_fields-whole d = rw (ts-whole d.decided_at, ts-whole d.valid_until)

module _ ⦃p : Platform⦄ where
  -- A decision whose times the calendar has is decoded as it was encoded, its times cut to whole
  -- seconds.
  pub decode_decision-encode_decision :
      (d : EligibilityDecision)
      → HasCalendarTimes d
      → decode_decision (encode_decision d) ≡ ok (whole_decision d)
  unfolding decode_decision encode_decision decision_of_fields decision_fields whole_decision
  decode_decision-encode_decision d h = rw (
    p.loads-dumps,
    as_list-array (decision_fields d),
    dt-ts d.decided_at h.decided,
    dt-ts d.valid_until h.until,
    read_eligibilities d.classes,
  )

  -- The encoding does not depend on fractions of a second.
  pub encode_decision-whole :
      (d : EligibilityDecision) → encode_decision (whole_decision d) ≡ encode_decision d
  unfolding encode_decision
  encode_decision-whole d = ap (λ f. p.dumps (array_of f)) (decision_fields-whole d)
