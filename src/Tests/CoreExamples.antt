-- ===== src/Tests/CoreExamples.antt =====
-- The examples of core/.
use pilotfish.Base.{
  ◌≡◌, ◌≢◌, refl, sym, subst, true, false, none, some, List, [], ◌∷◌, ◌++◌, map, arith,
}
use pilotfish.Base.Lists.{filter}
use pilotfish.Base.Sort.{sort_by, insert_by, sorted}
use pilotfish.Base.Int.{pos, ◌+ℤ◌, ◌-ℤ◌}
use pilotfish.Base.Text.{text, text_eq, text_le, contains}
use pilotfish.Core.Models.{
  EvidenceSnapshot, Link, Observation, latest, matches, newest, newest_of, snapshot_age_s, age_s,
}
use pilotfish.Core.Rules.{
  down, encryption, freshness, evaluate, down_reason, rtt_reason, metered_reason,
  jurisdiction_reason, encryption_reason,
}
use pilotfish.Core.Bundle.{
  with_rules, floor_bundle, floor_class_rules, floor_rules_of, rtt_rules, jurisdiction_rules,
  encryption_rules,
}
use pilotfish.Core.Decide.{decide, decide_class, sift, reasons, permitted_for, link_before}
use pilotfish.Float.{zero_point}
use pilotfish.Tests.Toy.{toy, toy_seconds}
use pilotfish.Tests.Data.{
  noon, later, fiber, lte, fiber_up, lte_up, evidence, ops, ops_rules, ops_bundle, issuer, observed,
}
use pilotfish.Core.Decide.Contraction.{permitted_contracts, IsDated}
use pilotfish.Core.Decide.Permitted.{
  permitted_exactly, exclusions_exactly, more_rules_permit_less, admits, said_of_all,
}
use pilotfish.Core.Decide.Horizon.{future_evidence_ignored, IsFuture}
use pilotfish.Core.Decide.Floor.{floor_permits, MeetsFloor}
use pilotfish.Core.Rules.Evidence.{missing_evidence_excludes, reads}
use pilotfish.Core.Rules.Ageing.{exclusion_persists}
use mathlib.Core.List.{Perm, Sublist, Mem, Memᴰ}

abbrev snapshot : List Observation → EvidenceSnapshot
snapshot os = record { observations = os }

all-IsDated : IsDated noon evidence
unfolding ◌+ℤ◌
all-IsDated = (omega arith, (omega arith, (omega arith, tt)))

permitted_contracts_example :
    Sublist
      (permitted_for (decide ops_bundle evidence later (text "site") false) (text "ops"))
      (permitted_for (decide ops_bundle evidence noon (text "site") false) (text "ops"))
permitted_contracts_example =
    permitted_contracts noon later (omega arith) evidence ops_bundle (text "site") false
      (text "ops") (λ e. e, (λ e. e, (λ e. e, tt))) all-IsDated

permitted_exactly_example :
    (decide_class ops_bundle evidence noon ops).permitted
    ≡ map
        (λ (l : Link). l.id)
        (filter (admits ops evidence noon ops_bundle.rules) (sort_by link_before ops_bundle.links))
permitted_exactly_example = permitted_exactly ops evidence noon ops_bundle

exclusions_exactly_example :
    Perm
      (decide_class ops_bundle evidence noon ops).exclusions
      (said_of_all ops evidence noon ops_bundle.rules (sort_by link_before ops_bundle.links))
exclusions_exactly_example = exclusions_exactly ops evidence noon ops_bundle

more_rules_permit_less_example :
    Sublist
      (decide_class
        (with_rules ops_bundle (ops_rules ++ encryption (text "R4") (text "ops") ∷ []))
        evidence
        noon
        ops).permitted
      (decide_class ops_bundle evidence noon ops).permitted
more_rules_permit_less_example =
    more_rules_permit_less ops evidence noon ops_bundle (encryption (text "R4") (text "ops") ∷ [])

abbrev tomorrow : Observation
tomorrow = observed (text "a") (text "up") (zero_point) (pos 1700086400000000)

not_yet : IsFuture noon (tomorrow ∷ [])
unfolding ◌+ℤ◌
not_yet = (omega arith, tt)

future_evidence_ignored_example :
    decide ops_bundle
      (record { observations = fiber_up ∷ tomorrow ∷ lte_up ∷ [] })
      noon
      (text "site")
      false
    ≡ decide ops_bundle (record { observations = fiber_up ∷ lte_up ∷ [] }) noon (text "site") false
future_evidence_ignored_example =
    future_evidence_ignored ops_bundle (fiber_up ∷ []) (tomorrow ∷ []) (lte_up ∷ []) noon
      (text "site") false not_yet

fiber_unseen : latest (snapshot (lte_up ∷ [])) (text "a") (text "up") ≡ none
unfolding latest filter matches newest_of newest text_eq
fiber_unseen = refl

down_reads : reads (down (text "R1")) fiber ops ≡ some (text "up")
unfolding reads
down_reads = refl

missing_evidence_excludes_example :
    evaluate (down (text "R1")) fiber ops (snapshot (lte_up ∷ [])) noon ≢ none
missing_evidence_excludes_example =
    missing_evidence_excludes fiber ops (snapshot (lte_up ∷ [])) noon (down (text "R1")) (text "up")
      down_reads fiber_unseen

stale_rtt :
    evaluate
      (freshness (text "R3") (text "fiber") (text "rtt_ms") zero_point)
      fiber
      ops
      evidence
      later
    ≢ none
unfolding evaluate snapshot_age_s age_s latest filter matches newest_of newest text_eq ◌-ℤ◌
    toy_seconds
stale_rtt h = cc

exclusion_persists_example :
    evaluate
      (freshness (text "R3") (text "fiber") (text "rtt_ms") zero_point)
      fiber
      ops
      evidence
      later
    ≢ none
exclusion_persists_example =
    exclusion_persists later later (omega arith)
      (freshness (text "R3") (text "fiber") (text "rtt_ms") zero_point) fiber ops evidence (λ e. e)
      stale_rtt

fiber_seen : latest evidence (text "a") (text "up") ≡ some fiber_up
unfolding latest filter matches newest_of newest text_eq
fiber_seen = refl

abbrev fiber_down : Observation
fiber_down = observed (text "a") (text "up") zero_point noon

matches_up : matches (text "a") (text "up") fiber_up ≡ true
unfolding matches text_eq
matches_up = refl

matches_down : matches (text "a") (text "up") fiber_down ≡ true
unfolding matches text_eq
matches_down = refl

floor_decides :
    (decide_class
      (floor_bundle (fiber ∷ lte ∷ []) none issuer (some (ops ∷ [])))
      evidence
      noon
      ops).permitted
    ≡ text "a" ∷ []
unfolding decide_class floor_bundle floor_class_rules floor_rules_of rtt_rules jurisdiction_rules
    encryption_rules sift reasons evaluate down_reason rtt_reason metered_reason jurisdiction_reason
    encryption_reason sort_by insert_by sorted contains latest filter matches newest_of newest
    text_eq text_le
floor_decides = refl

fiber_permitted :
    Memᴰ
      (text "a")
      (decide_class
        (floor_bundle (fiber ∷ lte ∷ []) none issuer (some (ops ∷ [])))
        evidence
        noon
        ops).permitted
fiber_permitted = subst (Memᴰ (text "a")) (sym floor_decides) (Memᴰ.head refl)

floor_permits_example :
    (l : Link) × Mem l (fiber ∷ lte ∷ []) × (l.id ≡ text "a") × MeetsFloor ops l evidence
floor_permits_example =
    floor_permits (fiber ∷ lte ∷ []) none issuer (some (ops ∷ [])) ops evidence noon (text "a")
      (Memᴰ.head refl) fiber_permitted
