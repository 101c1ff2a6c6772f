-- ===== src/Core/Rules/Evidence.antt =====
-- What the rules do with evidence: they read one quantity of the link at most, and they exclude
-- where it is missing.
use pilotfish.Base.{◌≡◌, ◌≢◌, refl, Option, none, some, arith, if◌then◌else◌}
use pilotfish.Base.Text.{Text, text, text_eq}
use pilotfish.Core.Models.{Link, TrafficClass, EvidenceSnapshot, Time, latest, snapshot_age_s}
use pilotfish.Core.Rules.{Rule, down, max_rtt, quota, freshness, evaluate}
use pilotfish.Platform.{Platform}

-- The quantity that a rule reads of a link for a class, if it reads any.
unfoldable pub reads : Rule → Link → TrafficClass → Option Text
reads (down _) l c = some (text "up")
reads (max_rtt _ class_id) l c =
    if text_eq c.id class_id
    then elim c.max_rtt_ms [ none ↦ none | some _ ↦ some (text "rtt_ms") ]
    else none
reads (quota _ t _) l c = if text_eq l.type t then some (text "quota_used_pct") else none
reads (freshness _ t q _) l c = if text_eq l.type t then some q else none
reads _ l c = none

module _ ⦃p : Platform⦄ (l : Link) (c : TrafficClass) (ev : EvidenceSnapshot) (now : Time) where
  -- A rule that reads a quantity excludes the link when there is no observation of it.
  pub missing_evidence_excludes :
      (r : Rule) (q : Text)
      → reads r l c ≡ some q
      → latest ev l.id q ≡ none
      → evaluate r l c ev now ≢ none
  unfolding reads evaluate snapshot_age_s
  missing_evidence_excludes (down _) q h k = ground arith
  missing_evidence_excludes (max_rtt _ class_id) q h k = ground arith
  missing_evidence_excludes (quota _ t x) q h k = ground arith
  missing_evidence_excludes (freshness _ t q' x) q h k = ground arith
  missing_evidence_excludes _ q h k = cc

  -- A rule's answer depends on the evidence only through the latest observation of the quantity
  -- that it reads.
  pub evaluate_local :
      (r : Rule) (ev' : EvidenceSnapshot)
      → ((q : Text) → reads r l c ≡ some q → latest ev l.id q ≡ latest ev' l.id q)
      → evaluate r l c ev now ≡ evaluate r l c ev' now
  unfolding reads evaluate snapshot_age_s
  evaluate_local (down _) ev' h = rw (h _ refl)
  evaluate_local (max_rtt _ class_id) ev' h = ground (arith, h (text "rtt_ms"))
  evaluate_local (quota _ t x) ev' h = ground (arith, h (text "quota_used_pct"))
  evaluate_local (freshness _ t q x) ev' h = ground (arith, h q)
  evaluate_local _ ev' h = refl
