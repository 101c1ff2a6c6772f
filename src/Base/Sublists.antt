-- ===== src/Base/Sublists.antt =====
-- What a filter keeps: sublists, and the library's permutations and membership over the Boolean
-- filter.
use pilotfish.Base.Tests.{Bool-cases}
use pilotfish.Base.Lists.{filter, All}
use mathlib.Core.Path.{◌≡◌, refl, ap}
use mathlib.Core.Logic.{inl, inr, ∥∥₁_map}
use mathlib.Core.Bool.{Bool, true}
use mathlib.Core.List.{List, [], ◌∷◌, map, Sublist, Sublistᴰ}

module _ {ℓ} {A : Type ℓ} where
  filter-sublistᴰ :
      (p q : A → Bool) (xs : List A)
      → All (λ x. p x ≡ true → q x ≡ true) xs
      → Sublistᴰ (filter p xs) (filter q xs)
  unfolding filter
  filter-sublistᴰ p q [] h = Sublistᴰ.slnil
  filter-sublistᴰ p q (x ∷ xs) h = elim (Bool-cases (p x)) [
    | inl e ↦ rw (e, h.0 e) (Sublistᴰ.cons-cons refl (filter-sublistᴰ p q xs h.1))
    | inr e ↦ elim (Bool-cases (q x)) [
      | inl f ↦ rw (e, f) (Sublistᴰ.cons (filter-sublistᴰ p q xs h.1))
      | inr f ↦ rw (e, f) (filter-sublistᴰ p q xs h.1)
    ]
  ]

  -- A stronger test keeps a sublist.
  pub filter_mono :
      (p q : A → Bool) (xs : List A)
      → All (λ x. p x ≡ true → q x ≡ true) xs
      → Sublist (filter p xs) (filter q xs)
  filter_mono p q xs h = ∣ filter-sublistᴰ p q xs h ∣₁

  pub All-of {κ} : (P : A → Type κ) → ((x : A) → P x) → (xs : List A) → All P xs
  All-of P h [] = tt
  All-of P h (x ∷ xs) = (h x, All-of P h xs)

  -- A filter that every item passes changes nothing.
  pub filter-All : (p : A → Bool) (xs : List A) → All (λ x. p x ≡ true) xs → filter p xs ≡ xs
  unfolding filter
  filter-All p [] h = refl
  filter-All p (x ∷ xs) h = rw (h.0, filter-All p xs h.1)

  pub filter-filter : (p : A → Bool) (xs : List A) → filter p (filter p xs) ≡ filter p xs
  unfolding filter
  filter-filter p [] = refl
  filter-filter p (x ∷ xs) = elim (Bool-cases (p x)) [
    | inl e ↦ rw (e, e, filter-filter p xs)
    | inr e ↦ rw (e, filter-filter p xs)
  ]

  pub All-filter {κ} :
      (P : A → Type κ) (p : A → Bool) (xs : List A) → All P xs → All P (filter p xs)
  unfolding filter
  All-filter P p [] h = tt
  All-filter P p (x ∷ xs) h = elim (Bool-cases (p x)) [
    | inl e ↦ rw e (h.0, All-filter P p xs h.1)
    | inr e ↦ rw e (All-filter P p xs h.1)
  ]

module _ {ℓ κ} {A : Type ℓ} {B : Type κ} where
  map-sublistᴰ : (f : A → B) {xs ys : List A} → Sublistᴰ xs ys → Sublistᴰ (map f xs) (map f ys)
  map-sublistᴰ f Sublistᴰ.slnil = Sublistᴰ.slnil
  map-sublistᴰ f (Sublistᴰ.cons s) = Sublistᴰ.cons (map-sublistᴰ f s)
  map-sublistᴰ f (Sublistᴰ.cons-cons e s) = Sublistᴰ.cons-cons (ap f e) (map-sublistᴰ f s)

  pub map-sublist : (f : A → B) {xs ys : List A} → Sublist xs ys → Sublist (map f xs) (map f ys)
  map-sublist f s = ∥∥₁_map s (map-sublistᴰ f)
