-- ===== src/Sim/Selectors/Governed/Choice.antt =====
-- What the governed path chooses, against what the decision permits and what the classes require:
-- sim/selectors.py and sim/metrics.py over core/decide.py.
use pilotfish.Base.{
  ◌≡◌, ◌≢◌, refl, sym, subst, Bool, true, Option, none, some, List, [], ◌∷◌, map, Bool-cases, inl,
  inr, ◌⊎◌,
}
use pilotfish.Base.Lists.{All}
use pilotfish.Base.Sort.{sort_by, sort_by-perm}
use pilotfish.Base.Text.{Text, text_eq, text_eq_iff, contains}
use pilotfish.Core.Models.{Link, TrafficClass, EvidenceSnapshot, Time, as_of}
use pilotfish.Core.Bundle.{PolicyBundle}
use pilotfish.Core.Decide.{
  ClassEligibility, EligibilityDecision, permitted_for, permitted_in, decide, decide_class,
  class_before,
}
use pilotfish.Core.Decide.Permitted.{permitted_link}
use mathlib.Core.Logic.{∥∥₁_elim}
use native.Mathlib.Decide.{ℕ_discrete}
use mathlib.Core.List.{Mem, Memᴰ}
use mathlib.Core.List.Perm
use pilotfish.Platform.{Platform}
use pilotfish.Sim.Metrics.{static_broken}
use pilotfish.Sim.Selectors.{best_by_rtt, observed_up}
use pilotfish.Sim.Selectors.Best.{IsBest, best_by_rtt-IsBest}
use pilotfish.Sim.Selectors.Governed.{choose, offered}
use pilotfish.Sim.Selectors.Governed.Guards.{IsGuarded, admits-static_broken}

contains-Memᴰ : (x : Text) (ls : List Text) → contains x ls ≡ true → Memᴰ x ls
unfolding contains
contains-Memᴰ x [] h = absurd (cc)
contains-Memᴰ x (l ∷ ls) h = elim (Bool-cases (text_eq x l)) [
  | inl e ↦ Memᴰ.head ((text_eq_iff x l).0 e)
  | inr e ↦ Memᴰ.tail (contains-Memᴰ x ls (rw e at h))
]

module _ ⦃p : Platform⦄ (b : PolicyBundle) (ev : EvidenceSnapshot) (now : Time) where
  decide_class-class_id : (c : TrafficClass) → (decide_class b ev now c).class_id ≡ c.id
  unfolding decide_class
  decide_class-class_id c = refl

  -- nothing, or what was decided for a class of an id
  abbrev Found : List TrafficClass → Text → List Text → Type 0
  Found cs k permitted =
      (permitted ≡ [])
      ⊎ ((c : TrafficClass) × Memᴰ c cs
          × (c.id ≡ k)
          × (permitted ≡ (decide_class b ev now c).permitted))

  later :
      (c : TrafficClass) (cs : List TrafficClass) (k : Text) (permitted : List Text)
      → Found cs k permitted
      → Found (c ∷ cs) k permitted
  later c cs k permitted (inl h) = inl h
  later c cs k permitted (inr (d, m, id, q)) = inr (d, Memᴰ.tail m, id, q)

  abbrev permitted_among : List TrafficClass → Text → List Text
  permitted_among cs k = permitted_in (map (decide_class b ev now) cs) k

  permitted_among-Found : (cs : List TrafficClass) (k : Text) → Found cs k (permitted_among cs k)
  unfolding permitted_in
  permitted_among-Found [] k = inl refl
  permitted_among-Found (c ∷ cs) k = elim (Bool-cases (text_eq c.id k)) [
    | inl e ↦ inr (c, Memᴰ.head refl, (text_eq_iff c.id k).0 e, rw (decide_class-class_id c, e))
    | inr e ↦
        let skipped : permitted_among (c ∷ cs) k ≡ permitted_among cs k =
          rw (decide_class-class_id c, e) in
        subst (Found (c ∷ cs) k) (sym skipped)
          (later c cs k (permitted_among cs k) (permitted_among-Found cs k))
  ]

Texts-set : IsSet (List Text)
Texts-set = hlevel ℕ_discrete

-- A class and a link of the bundle, by their ids: the link is observed up, and breaks no requirement
-- of the class that the links' state has no part in.
abbrev pub IsFit : PolicyBundle → EvidenceSnapshot → Text → Text → Type 0
IsFit b ev k l =
    (c : TrafficClass) × (link : Link) × Mem c b.traffic_classes
    × (c.id ≡ k)
    × Mem link b.links
    × (link.id ≡ l)
    × (observed_up ev l ≡ true)
    × (static_broken c link ≡ [])

-- A choice of the governed path fits, where the decision permits the class anything.
abbrev pub KeepsClass :
    PolicyBundle → EvidenceSnapshot → EligibilityDecision → Text × Option Text → Type 0
KeepsClass b ev d (k, none) = Unit
KeepsClass b ev d (k, some l) = (permitted_for d k ≡ []) ⊎ IsFit b ev k l

nil-or_not : (ls : List Text) → (ls ≡ []) ⊎ (ls ≢ [])
nil-or_not [] = inl refl
nil-or_not (l ∷ ls) = inr (λ e. cc)

offered_own :
    (cs : List ClassEligibility) (permitted : List Text)
    → permitted ≢ []
    → offered cs permitted ≡ permitted
unfolding offered
offered_own [] permitted h = refl
offered_own (c ∷ cs) [] h = absurd (h refl)
offered_own (c ∷ cs) (x ∷ xs) h = refl

module _ ⦃p : Platform⦄ (b : PolicyBundle) (ev seen : EvidenceSnapshot) (now : Time) (site : Text)
    (degraded : Bool)
    (guarded : (c : TrafficClass) → Memᴰ c b.traffic_classes → IsGuarded b.rules c) where
  abbrev made : EligibilityDecision
  made = decide b ev now site degraded

  found-kept :
      (k l : Text)
      → Found b (as_of ev now) now (sort_by class_before b.traffic_classes) k (permitted_for made k)
      → contains l (permitted_for made k) ≡ true
      → observed_up seen l ≡ true
      → permitted_for made k ≢ []
      → IsFit b seen k l
  found-kept k l (inl none_there) member up some_there = absurd (some_there none_there)
  found-kept k l (inr (c, m, id, e)) member up some_there =
      let (link, among, same, admitted) =
        permitted_link c (as_of ev now) now b l
          (subst (Memᴰ l) e (contains-Memᴰ l (permitted_for made k) member)) in
      let mine = Perm.subset (sort_by-perm class_before b.traffic_classes) c ∣ m ∣₁ in
      (
        c,
        link,
        mine,
        id,
        among,
        same,
        up,
        ∥∥₁_elim mine (Texts-set (static_broken c link) []) (λ here.
            admits-static_broken c (as_of ev now) now b.rules link (guarded c here) admitted),
      )

  permitted-Found :
      (k : Text)
      → Found b (as_of ev now) now (sort_by class_before b.traffic_classes) k (permitted_for made k)
  unfolding decide permitted_for
  permitted-Found k =
      permitted_among-Found b (as_of ev now) now (sort_by class_before b.traffic_classes) k

  choice-KeepsClass :
      (k : Text) (choice : Option Text)
      → IsBest seen (offered made.classes (permitted_for made k)) choice
      → KeepsClass b seen made (k, choice)
  choice-KeepsClass k none best = tt
  choice-KeepsClass k (some l) (member, up, _) = elim (nil-or_not (permitted_for made k)) [
    | inl nothing ↦ inl nothing
    | inr some_there ↦
        let own = offered_own made.classes (permitted_for made k) some_there in
        inr (
          found-kept k l (permitted-Found k) (subst (λ ls. contains l ls ≡ true) own member) up
            some_there)
  ]

  pub choose-KeepsClass : (ks : List Text) → All (KeepsClass b seen made) (choose seen made ks)
  unfolding choose
  choose-KeepsClass [] = tt
  choose-KeepsClass (k ∷ ks) = (
    choice-KeepsClass k (best_by_rtt seen (offered made.classes (permitted_for made k)))
        (best_by_rtt-IsBest seen (offered made.classes (permitted_for made k))),
    choose-KeepsClass ks,
  )
