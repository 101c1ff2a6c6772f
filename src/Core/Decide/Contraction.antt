-- ===== src/Core/Decide/Contraction.antt =====
-- The permitted set contracts on its own as the evidence ages.
use pilotfish.Base.{
  ◌≡◌, refl, Bool, true, List, [], ◌∷◌, map, arith, if◌then◌else◌, Bool-cases, Option-cases, inl,
  inr,
}
use pilotfish.Base.Int.{◌≤ℤ◌, ◌+ℤ◌, leb_ℤ, int_laws}
use pilotfish.Base.Lists.{All}
use pilotfish.Base.Sort.{sort_by}
use pilotfish.Base.Sublists.{filter_mono, filter-All, map-sublist, All-of}
use pilotfish.Base.Text.{Text, text_eq}
use pilotfish.Core.Models.{
  Link, TrafficClass, Observation, EvidenceSnapshot, Time, as_of, in_horizon, max_clock_skew,
}
use pilotfish.Core.Rules.{Rule, evaluate}
use pilotfish.Core.Rules.Ageing.{IsDirective, exclusion_persists}
use pilotfish.Core.Bundle.{PolicyBundle}
use pilotfish.Core.Decide.{
  ClassEligibility, decide_class, decide, permitted_in, permitted_for, link_before, class_before,
}
use pilotfish.Core.Decide.Permitted.{admits, permitted_exactly}
use pilotfish.Platform.{Platform}
use mathlib.Core.List.{Sublist}
use mathlib.Core.List.Sublist

-- All observations are dated within the skew allowance of `t`.
abbrev pub IsDated : Time → EvidenceSnapshot → Type 0
IsDated t ev = All (λ o. o.at ≤ℤ (t +ℤ max_clock_skew)) ev.observations

abbrev pub HasNoDirective : List Rule → Type 0
HasNoDirective rs = All (λ r. ¬ IsDirective r) rs

All-in_horizon :
    (t t' : Time) (os : List Observation)
    → t ≤ℤ t'
    → All (λ o. o.at ≤ℤ (t +ℤ max_clock_skew)) os
    → All (λ o. in_horizon t' o ≡ true) os
unfolding in_horizon
All-in_horizon t t' [] later h = tt
All-in_horizon t t' (o ∷ os) later h =
    (dated (omega (int_laws, h.0)), All-in_horizon t t' os later h.1)
  where
    dated : o.at ≤ℤ (t' +ℤ max_clock_skew) → leb_ℤ o.at (t' +ℤ max_clock_skew) ≡ true
    dated k = ground arith

as_of_dated : (t t' : Time) (ev : EvidenceSnapshot) → t ≤ℤ t' → IsDated t ev → as_of ev t' ≡ ev
unfolding as_of
as_of_dated t t' ev later h =
    rw (filter-All (in_horizon t') ev.observations (All-in_horizon t t' ev.observations later h))

permitted_in-cons :
    ⦃p : Platform⦄ (b : PolicyBundle) (ev : EvidenceSnapshot) (t : Time) (c : TrafficClass)
    (rest : List ClassEligibility) (class_id : Text)
    → permitted_in (decide_class b ev t c ∷ rest) class_id ≡ (
        if text_eq c.id class_id
        then (decide_class b ev t c).permitted
        else permitted_in rest class_id)
unfolding permitted_in decide_class
permitted_in-cons b ev t c rest class_id = refl

module _ ⦃p : Platform⦄ (t t' : Time) (later : t ≤ℤ t') (ev : EvidenceSnapshot) where
  still_admits :
      (c : TrafficClass) (rs : List Rule) (l : Link)
      → HasNoDirective rs
      → admits c ev t' rs l ≡ true
      → admits c ev t rs l ≡ true
  unfolding admits
  still_admits c [] l n h = refl
  still_admits c (r ∷ rs) l n h = elim (Option-cases (evaluate r l c ev t)) [
    | inl e ↦ ground (arith, still_admits c rs l n.1)
    | inr (x, e) ↦ elim (Option-cases (evaluate r l c ev t')) [
      | inl e' ↦ absurd (exclusion_persists t t' later r l c ev n.0 (λ k. cc) e')
      | inr (y, e') ↦ ground arith
    ]
  ]

  class_contracts :
      (b : PolicyBundle) (c : TrafficClass)
      → HasNoDirective b.rules
      → Sublist (decide_class b ev t' c).permitted (decide_class b ev t c).permitted
  class_contracts b c n =
      rw (permitted_exactly c ev t' b, permitted_exactly c ev t b)
        (map-sublist (λ l. l.id)
          (filter_mono (admits c ev t' b.rules) (admits c ev t b.rules)
            (sort_by link_before b.links) (All-of _ (λ l. still_admits c b.rules l n) _)))

  classes_contract :
      (b : PolicyBundle) (cs : List TrafficClass) (class_id : Text)
      → HasNoDirective b.rules
      → Sublist
          (permitted_in (map (decide_class b ev t') cs) class_id)
          (permitted_in (map (decide_class b ev t) cs) class_id)
  classes_contract b [] class_id n = Sublist.refl _
  classes_contract b (c ∷ cs) class_id n = elim (Bool-cases (text_eq c.id class_id)) [
    | inl e ↦ rw (permitted_in-cons, permitted_in-cons, e) (class_contracts b c n)
    | inr e ↦ rw (permitted_in-cons, permitted_in-cons, e) (classes_contract b cs class_id n)
  ]

  -- On the same evidence, dated within the skew allowance, and with no directive among the rules,
  -- what a class is permitted later it was permitted before.
  pub permitted_contracts :
      (b : PolicyBundle) (site_id : Text) (degraded : Bool) (class_id : Text)
      → HasNoDirective b.rules
      → IsDated t ev
      → Sublist
          (permitted_for (decide b ev t' site_id degraded) class_id)
          (permitted_for (decide b ev t site_id degraded) class_id)
  unfolding permitted_for decide
  permitted_contracts b site_id degraded class_id n dated =
      rw (as_of_dated t t' ev later dated, as_of_dated t t ev (omega arith) dated)
        (classes_contract b (sort_by class_before b.traffic_classes) class_id n)
