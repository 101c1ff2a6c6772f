-- ===== src/Tests/Data.antt =====
-- A site with two links, its observations, a class, a bundle and the keys, for the examples.
use pilotfish.Base.{◌*◌, ◌≡◌, refl, arith, true, false, some, List, [], ◌∷◌}
use pilotfish.Base.Int.{pos}
use pilotfish.Base.Text.{Text, Bytes, text}
use pilotfish.Core.Models.{Time, Link, Observation, TrafficClass, EvidenceSnapshot}
use pilotfish.Core.Rules.{Rule, down, metered, freshness}
use pilotfish.Core.Bundle.{PolicyBundle}
use pilotfish.Core.Decide.{ClassEligibility, EligibilityDecision}
use pilotfish.Base.Result.{ok}
use pilotfish.Base.Int.{trunc_div}
use pilotfish.Platform.{array_of}
use pilotfish.Protocol.Fields.{InCalendar, ts}
use pilotfish.Protocol.Envelope.{Envelope, sign, signing_input, signed_fields}
use pilotfish.Protocol.Messages.{msg_policy_bundle}
use pilotfish.Protocol.Messages.Bundles.{encode_bundle, IsWellFormed}
use pilotfish.Protocol.Messages.Decisions.{HasCalendarTimes}
use pilotfish.Authority.{default_nonce}
use pilotfish.Tests.Toy.{toy}
use pilotfish.Float.{Float, finite, one_point, unit}

abbrev pub noon : Time
noon = pos 1700000000000000

abbrev pub later : Time
later = pos 1700000060000000

abbrev pub fiber : Link
fiber = record {
  id = text "a";
  type = text "fiber";
  metered = false;
  encrypted_below = true;
  jurisdictions = text "NO" ∷ [];
  owner = text "site";
}

abbrev pub lte : Link
lte = record {
  id = text "b";
  type = text "lte";
  metered = true;
  encrypted_below = true;
  jurisdictions = text "NO" ∷ [];
  owner = text "carrier";
}

abbrev pub observed : Text → Text → Float → Time → Observation
observed l q x t = record { link_id = l; quantity = q; value = x; at = t; source = text "probe" }

abbrev pub fiber_up : Observation
fiber_up = observed (text "a") (text "up") one_point noon

abbrev pub lte_up : Observation
lte_up = observed (text "b") (text "up") one_point noon

abbrev pub fiber_rtt : Observation
fiber_rtt = observed (text "a") (text "rtt_ms") (finite (pos (20 * unit))) noon

abbrev pub evidence : EvidenceSnapshot
evidence = record { observations = fiber_up ∷ lte_up ∷ fiber_rtt ∷ [] }

abbrev pub ops : TrafficClass
ops = record {
  id = text "ops";
  max_rtt_ms = some (finite (pos (100 * unit)));
  allow_metered = false;
  allowed_jurisdictions = some (text "NO" ∷ []);
  requires_encryption = true;
}

abbrev pub ops_rules : List Rule
ops_rules =
    down (text "R1")
    ∷ metered (text "R2") (text "ops")
    ∷ freshness (text "R3") (text "fiber") (text "rtt_ms") (finite (pos (30 * unit)))
    ∷ []

abbrev pub issuer : Text
issuer = text "authority"

abbrev pub ops_bundle : PolicyBundle
ops_bundle = record {
  bundle_id = text "b1";
  authority_id = issuer;
  sequence = pos 7;
  issued_at = noon;
  not_after = pos 1700003600000000;
  decision_ttl_s = pos 60;
  links = fiber ∷ lte ∷ [];
  traffic_classes = ops ∷ [];
  rules = ops_rules;
}

abbrev pub key : Bytes
key = 1 ∷ 2 ∷ 3 ∷ []

abbrev pub eligible : ClassEligibility
eligible = record { class_id = text "ops"; permitted = text "a" ∷ []; exclusions = [] }

abbrev pub decision : EligibilityDecision
decision = record {
  site_id = text "site";
  decided_at = noon;
  valid_until = later;
  bundle_hash = text "00";
  evidence_hash = text "00";
  degraded = false;
  classes = eligible ∷ [];
}

pub noon-InCalendar : InCalendar noon
unfolding ts trunc_div
noon-InCalendar = record { after_first = omega arith; before_last = omega arith }

pub ops_bundle-IsWellFormed : IsWellFormed ops_bundle
unfolding ts trunc_div
ops_bundle-IsWellFormed = record {
  issued = noon-InCalendar;
  expires = record { after_first = omega arith; before_last = omega arith };
  classes = (refl, tt);
  rules = (tt, (tt, (refl, tt)));
}

pub decision-HasCalendarTimes : HasCalendarTimes decision
unfolding ts trunc_div
decision-HasCalendarTimes = record {
  decided = noon-InCalendar;
  until = record { after_first = omega arith; before_last = omega arith };
}

abbrev pub test_envelope : Envelope
test_envelope = record {
  msg_type = msg_policy_bundle;
  issuer = issuer;
  issued_at = noon;
  nonce = default_nonce;
  payload = encode_bundle ops_bundle;
  signature = toy.sign key (
      toy.dumps (
        array_of
          (signed_fields msg_policy_bundle issuer noon default_nonce (encode_bundle ops_bundle))));
}

pub signed_test :
    sign msg_policy_bundle issuer noon default_nonce (encode_bundle ops_bundle) key
    ≡ ok test_envelope
unfolding sign signing_input
signed_test = refl
