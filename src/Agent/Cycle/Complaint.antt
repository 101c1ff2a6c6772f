-- ===== src/Agent/Cycle/Complaint.antt =====
-- The postcondition of a cycle, described without the loop.
use pilotfish.Base.{
  ◌≡◌, ◌↔◌, refl, ap, ◌∙◌, Bool, true, false, not, ◌&&◌, List, [], ◌∷◌, Bool-cases, inl, inr,
}
use pilotfish.Base.Lists.{filter, is_empty, All}
use pilotfish.Base.Text.{Text, contains, text_eq, text_eq_iff}
use pilotfish.Core.Decide.{ClassEligibility}
use pilotfish.Platform.{Platform}
use pilotfish.Agent.Receipts.{PlaneState}
use pilotfish.Agent.Cycle.{in_force, to_set, surplus, class_complaint, complaint}

-- The links in force for a class are among those permitted, and there is one if any is permitted.
pub record IsEnforced (permitted held : List Text) : Type 0 where
  pub within : All (λ x. contains x permitted ≡ true) held
  pub served : is_empty held ≡ true → is_empty permitted ≡ true

within-to_set :
    (p : Text → Bool) (xs : List Text)
    → All (λ x. p x ≡ true) xs
    → is_empty (filter (λ x. not (p x)) (to_set xs)) ≡ true
unfolding to_set filter
within-to_set p [] h = refl
within-to_set p (x ∷ xs) (e, h) = elim (Bool-cases (contains x (to_set xs))) [
  | inl f ↦ rw f (within-to_set p xs h)
  | inr f ↦ rw (f, e) (within-to_set p xs h)
]

within-filter :
    (p : Text → Bool) (x : Text) (ys : List Text)
    → is_empty (filter (λ y. not (p y)) ys) ≡ true
    → contains x ys ≡ true
    → p x ≡ true
unfolding filter contains
within-filter p x [] h c = cc
within-filter p x (y ∷ ys) h c = elim (Bool-cases (p y)) [
  | inl f ↦ elim (Bool-cases (text_eq x y)) [
    | inl e ↦ ap p ((text_eq_iff x y).0 e) ∙ f
    | inr e ↦ within-filter p x ys (rw f at h) (rw e at c)
  ]
  | inr f ↦ let k = rw f at h in cc
]

to_set-within :
    (p : Text → Bool) (xs : List Text)
    → is_empty (filter (λ x. not (p x)) (to_set xs)) ≡ true
    → All (λ x. p x ≡ true) xs
unfolding to_set filter
to_set-within p [] h = tt
to_set-within p (x ∷ xs) h = elim (Bool-cases (contains x (to_set xs))) [
  | inl f ↦ (within-filter p x (to_set xs) (rw f at h) f, to_set-within p xs (rw f at h))
  | inr f ↦ elim (Bool-cases (p x)) [
    | inl g ↦ (g, to_set-within p xs (rw (f, g) at h))
    | inr g ↦ let k = rw (f, g) at h in cc
  ]
]

none_permitted : (b : Bool) → not b ≡ false → b ≡ true
none_permitted true h = refl
none_permitted false h = cc

module _ ⦃p : Platform⦄ where
  class_complaint-empty :
      (c : ClassEligibility) (held : List Text)
      → is_empty (class_complaint c held) ≡ true
      → IsEnforced c.permitted held
  unfolding class_complaint surplus
  class_complaint-empty c held h = elim (Bool-cases (is_empty (surplus held c.permitted))) [
    | inl e ↦ elim (Bool-cases (is_empty held && not (is_empty c.permitted))) [
      | inl f ↦ let k = rw (e, f) at h in cc
      | inr f ↦ record {
        within = to_set-within (λ x. contains x c.permitted) held e;
        served = λ g. none_permitted _ (rw g at f);
      }
    ]
    | inr e ↦ let k = rw e at h in cc
  ]

  class_complaint-of :
      (c : ClassEligibility) (held : List Text)
      → IsEnforced c.permitted held
      → is_empty (class_complaint c held) ≡ true
  unfolding class_complaint surplus
  class_complaint-of c held h = elim (Bool-cases (is_empty held)) [
    | inl e ↦ rw (within-to_set (λ x. contains x c.permitted) held h.within, e, h.served e)
    | inr e ↦ rw (within-to_set (λ x. contains x c.permitted) held h.within, e)
  ]

  -- The cycle has no complaint exactly if the dataplane holds, for every class of the decision, only
  -- links that the decision permits, and at least one where it permits any.
  pub complaint_exactly :
      (cs : List ClassEligibility) (actual : PlaneState)
      → (is_empty (complaint cs actual) ≡ true)
        ↔ All (λ c. IsEnforced c.permitted (in_force c.class_id actual)) cs
  unfolding complaint
  complaint_exactly [] actual = (λ h. tt, λ h. refl)
  complaint_exactly (c ∷ cs) actual =
      let held = in_force c.class_id actual in
      let (to, from) = complaint_exactly cs actual in
      (
        λ h. elim (Bool-cases (is_empty (class_complaint c held))) [
          | inl e ↦ (class_complaint-empty c held e, to (rw e at h))
          | inr e ↦ absurd (let k = rw (e, e) at h in cc)
        ],
        λ (e, h). rw (class_complaint-of c held e) (from h),
      )
