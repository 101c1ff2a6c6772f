-- ===== src/Adapters/Noop/Enforces.antt =====
-- The dataplane without one enforces every decision whose classes are distinct.
use pilotfish.Base.{◌≡◌, refl, ap, ◌∙◌, true, false, List, [], ◌∷◌, arith, Bool-cases, inl, inr}
use pilotfish.Base.Lists.{All, is_empty}
use pilotfish.Base.Result.{ok}
use pilotfish.Base.Text.{Text, Bytes, text_eq, text_eq_refl, text_eq_iff, contains}
use pilotfish.Core.Models.{Time}
use pilotfish.Core.Decide.{ClassEligibility, EligibilityDecision}
use pilotfish.Platform.{Platform}
use pilotfish.Agent.Receipts.{PlaneState, ReadableSink}
use pilotfish.Agent.Cycle.{Site, in_force, complaint, carry_out}
use pilotfish.Agent.Cycle.Complaint.{IsEnforced, complaint_exactly}
use pilotfish.Agent.Cycle.Turn.{carry_out-verdict, verdict}
use pilotfish.Adapters.Noop.{NoopDataplane, put, held_from, apply, readback, noop}

-- no two classes of the list have the same id
abbrev pub AreDistinct : List ClassEligibility → Type 0
AreDistinct [] = Unit
AreDistinct (c ∷ cs) = All (λ d. text_eq d.class_id c.class_id ≡ false) cs × AreDistinct cs

same_key : (k : Text) (v : List Text) (d : PlaneState) → in_force k (put k v d) ≡ v
unfolding in_force put
same_key k v [] = rw (text_eq_refl k)
same_key k v ((j, w) ∷ d) = elim (Bool-cases (text_eq j k)) [
  | inl e ↦ rw (e, text_eq_refl k)
  | inr e ↦ rw (e, same_key k v d, e)
]

differs : (k i j : Text) → text_eq k i ≡ false → text_eq j k ≡ true → text_eq j i ≡ false
differs k i j n e = ap (λ x. text_eq x i) ((text_eq_iff j k).0 e) ∙ n

other_key :
    (k i : Text) (v : List Text) (d : PlaneState)
    → text_eq k i ≡ false
    → in_force i (put k v d) ≡ in_force i d
unfolding in_force put
other_key k i v [] n = rw n
other_key k i v ((j, w) ∷ d) n = elim (Bool-cases (text_eq j k)) [
  | inl e ↦ rw (e, n, differs k i j n e)
  | inr e ↦ elim (Bool-cases (text_eq j i)) [
    | inl f ↦ rw (e, f)
    | inr f ↦ rw (e, f) (other_key k i v d n)
  ]
]

kept_from :
    (i : Text) (d : PlaneState) (cs : List ClassEligibility)
    → All (λ c. text_eq c.class_id i ≡ false) cs
    → in_force i (held_from d cs) ≡ in_force i d
unfolding held_from
kept_from i d [] h = refl
kept_from i d (c ∷ cs) (n, h) =
    kept_from i (put c.class_id c.permitted d) cs h ∙ other_key c.class_id i c.permitted d n

contains-tail :
    (x : Text) (ys xs : List Text)
    → All (λ y. contains y xs ≡ true) ys
    → All (λ y. contains y (x ∷ xs) ≡ true) ys
unfolding contains
contains-tail x [] xs h = tt
contains-tail x (y ∷ ys) xs (e, h) = (ground arith, contains-tail x ys xs h)

contains_self : (xs : List Text) → All (λ x. contains x xs ≡ true) xs
unfolding contains
contains_self [] = tt
contains_self (x ∷ xs) = (rw (text_eq_refl x), contains-tail x xs xs (contains_self xs))

IsEnforced-held_from :
    (d : PlaneState) (cs : List ClassEligibility)
    → AreDistinct cs
    → All (λ c. IsEnforced c.permitted (in_force c.class_id (held_from d cs))) cs
unfolding held_from
IsEnforced-held_from d [] h = tt
IsEnforced-held_from d (c ∷ cs) (n, h) =
    let held : in_force c.class_id (held_from (put c.class_id c.permitted d) cs) ≡ c.permitted =
      kept_from c.class_id (put c.class_id c.permitted d) cs n
      ∙ same_key c.class_id c.permitted d in
    (
      rw held (record { within = contains_self c.permitted; served = λ e. e }),
      IsEnforced-held_from (put c.class_id c.permitted d) cs h,
    )

module _ ⦃p : Platform⦄ {K : Type 0} (sink : ReadableSink K) where
  no_complaint :
      (d : EligibilityDecision) (plane : NoopDataplane)
      → AreDistinct d.classes
      → is_empty (complaint d.classes (apply d plane).1.state) ≡ true
  unfolding apply
  no_complaint d plane h =
      (complaint_exactly d.classes (held_from [] d.classes)).1 (IsEnforced-held_from [] d.classes h)

  -- Over the dataplane without one and a sink that takes every line, the turn of a decision whose
  -- classes have distinct ids returns the decision.
  pub noop-enforces :
      (d : EligibilityDecision) (now : Time) (s : Site K NoopDataplane)
      → ((b : Bytes) (k : K) → (sink.append b k).0 ≡ ok tt)
      → AreDistinct d.classes
      → (carry_out sink noop d now s).0 ≡ ok d
  unfolding verdict readback apply
  noop-enforces d now s takes h =
      ap (λ r. r.0) (carry_out-verdict sink noop d now takes s) ∙ rw (no_complaint d s.plane h)
