-- ===== src/Base/Sort.antt =====
-- Python's `sorted`: stable, by an order on the items or on a key.
use pilotfish.Base.Tests.{if◌then◌else◌, Bool-cases}
use mathlib.Core.Path.{◌≡◌, refl, ap, ◌∙◌}
use mathlib.Core.Logic.{inl, inr, ∥∥₁_elim}
use mathlib.Core.Bool.{Bool, true, false}
use mathlib.Core.List.{List, [], ◌∷◌, Perm, Permᴰ}
use mathlib.Core.List.Perm
use native.Mathlib.Omega.{arith}

-- A total order by its Boolean test.
pub record Ord {ℓ} (A : Type ℓ) : Type ℓ where
  pub le : A → A → Bool
  pub total : (a b : A) → le a b ≡ false → le b a ≡ true
  pub trans : (a b c : A) → le a b ≡ true → le b c ≡ true → le a c ≡ true
  pub antisym : (a b : A) → le a b ≡ true → le b a ≡ true → a ≡ b

module _ {ℓ} {A : Type ℓ} (le : A → A → Bool) where
  -- In front of the first item that is not smaller: with `sort_by` this keeps ties in order.
  unfoldable pub insert_by : A → List A → List A
  insert_by x [] = x ∷ []
  insert_by x (y ∷ ys) = if le x y then x ∷ y ∷ ys else y ∷ insert_by x ys

  unfoldable pub sort_by : List A → List A
  unfolding insert_by
  sort_by [] = []
  sort_by (x ∷ xs) = insert_by x (sort_by xs)

  insert_by-perm : (x : A) (xs : List A) → Perm (insert_by x xs) (x ∷ xs)
  unfolding insert_by
  insert_by-perm x [] = Perm.rfl
  insert_by-perm x (y ∷ ys) = elim (Bool-cases (le x y)) [
    | inl e ↦ rw (e, insert_by) Perm.rfl
    | inr e ↦ rw (e, insert_by) (Perm.trans (Perm.cons y (insert_by-perm x ys)) (Perm.swap x y ys))
  ]

  pub sort_by-perm : (xs : List A) → Perm (sort_by xs) xs
  unfolding sort_by
  sort_by-perm [] = Perm.rfl
  sort_by-perm (x ∷ xs) = Perm.trans (insert_by-perm x (sort_by xs)) (Perm.cons x (sort_by-perm xs))

-- `sorted(xs)`
unfoldable pub sorted {ℓ} : {A : Type ℓ} ⦃o : Ord A⦄ → List A → List A
unfolding sort_by
sorted ⦃o⦄ xs = sort_by o.le xs

module _ {ℓ} {A : Type ℓ} ⦃o : Ord A⦄ where
  insert_by_comm :
      (x y : A) (xs : List A)
      → insert_by o.le x (insert_by o.le y xs) ≡ insert_by o.le y (insert_by o.le x xs)
  unfolding insert_by
  insert_by_comm x y [] = ground (arith, o.total x y, o.antisym x y)
  insert_by_comm x y (z ∷ zs) = ground (
    arith,
    o.total x y,
    o.antisym x y,
    o.total x z,
    o.total y z,
    o.trans x y z,
    o.trans y x z,
    insert_by_comm x y zs,
  )

  sorted-permᴰ : {xs ys : List A} → Permᴰ xs ys → sorted xs ≡ sorted ys
  unfolding sorted
  sorted-permᴰ Permᴰ.nil = refl
  sorted-permᴰ (Permᴰ.cons e r) = rw (e, sorted-permᴰ r)
  sorted-permᴰ (Permᴰ.swap {a = a} {b = b} {l = l} p q) =
      rw (← p, ← q) (insert_by_comm a b (sort_by o.le l))
  sorted-permᴰ (Permᴰ.trans r s) = sorted-permᴰ r ∙ sorted-permᴰ s

  -- The order of the items does not matter to what is computed from the sorted list.
  pub sorted-perm {κ} :
      {B : Type κ} (B_set : IsSet B) (f : List A → B) {xs ys : List A}
      → Perm xs ys
      → f (sorted xs) ≡ f (sorted ys)
  sorted-perm B_set f r = ∥∥₁_elim r (B_set _ _) (λ d. ap f (sorted-permᴰ d))
