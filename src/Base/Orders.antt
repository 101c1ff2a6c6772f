-- ===== src/Base/Orders.antt =====
-- Python's order on tuples and lists, and on `bool`: lexicographic, by the items' orders.
use pilotfish.Base.Tests.{if◌then◌else◌}
use pilotfish.Base.Sort.{Ord}
use mathlib.Core.Path.{◌≡◌, refl}
use mathlib.Core.Bool.{Bool, true, false, ◌||◌, not}
use mathlib.Core.List.{List, [], ◌∷◌}
use native.Mathlib.Omega.{arith}

abbrev pub bool_le : Bool → Bool → Bool
bool_le a b = not a || b

pub bool_le_total : (a b : Bool) → bool_le a b ≡ false → bool_le b a ≡ true
bool_le_total a b h = ground arith

pub bool_le_trans : (a b c : Bool) → bool_le a b ≡ true → bool_le b c ≡ true → bool_le a c ≡ true
bool_le_trans a b c h k = ground arith

pub bool_le_antisym : (a b : Bool) → bool_le a b ≡ true → bool_le b a ≡ true → a ≡ b
bool_le_antisym a b h k = ground arith

instance abbrev pub bool_ord : Ord Bool
bool_ord = record {
  le = bool_le;
  total = bool_le_total;
  trans = bool_le_trans;
  antisym = bool_le_antisym;
}

module _ {ℓ κ} {A : Type ℓ} {B : Type κ} ⦃o : Ord A⦄ ⦃p : Ord B⦄ where
  -- The second items decide where the first are equal.
  unfoldable pub pair_le : A × B → A × B → Bool
  pair_le (a, b) (c, d) = if o.le a c then (if o.le c a then p.le b d else true) else false

  pub pair_le_total : (x y : A × B) → pair_le x y ≡ false → pair_le y x ≡ true
  unfolding pair_le
  pair_le_total (a, b) (c, d) h = ground (arith, o.total a c, p.total b d)

  pub pair_le_trans : (x y z : A × B) → pair_le x y ≡ true → pair_le y z ≡ true → pair_le x z ≡ true
  unfolding pair_le
  pair_le_trans (a, b) (c, d) (e, f) h k =
      ground (arith, o.trans a c e, o.trans e a c, o.trans c e a, p.trans b d f)

  pub pair_le_antisym : (x y : A × B) → pair_le x y ≡ true → pair_le y x ≡ true → x ≡ y
  unfolding pair_le
  pair_le_antisym (a, b) (c, d) h k = ground (arith, o.antisym a c, p.antisym b d)

instance abbrev pub pair_ord {ℓ κ} : {A : Type ℓ} {B : Type κ} ⦃o : Ord A⦄ ⦃p : Ord B⦄ → Ord (A × B)
pair_ord = record {
  le = pair_le;
  total = pair_le_total;
  trans = pair_le_trans;
  antisym = pair_le_antisym;
}

module _ {ℓ} {A : Type ℓ} ⦃o : Ord A⦄ where
  unfoldable pub list_le : List A → List A → Bool
  list_le [] ys = true
  list_le (x ∷ xs) [] = false
  list_le (x ∷ xs) (y ∷ ys) = if o.le x y then (if o.le y x then list_le xs ys else true) else false

  pub list_le_total : (xs ys : List A) → list_le xs ys ≡ false → list_le ys xs ≡ true
  unfolding list_le
  list_le_total [] ys h = cc
  list_le_total (x ∷ xs) [] h = refl
  list_le_total (x ∷ xs) (y ∷ ys) h = ground (arith, o.total x y, list_le_total xs ys)

  pub list_le_trans :
      (xs ys zs : List A) → list_le xs ys ≡ true → list_le ys zs ≡ true → list_le xs zs ≡ true
  unfolding list_le
  list_le_trans [] ys zs h k = refl
  list_le_trans (x ∷ xs) [] zs h k = cc
  list_le_trans (x ∷ xs) (y ∷ ys) [] h k = cc
  list_le_trans (x ∷ xs) (y ∷ ys) (z ∷ zs) h k =
      ground (arith, o.trans x y z, o.trans z x y, o.trans y z x, list_le_trans xs ys zs)

  pub list_le_antisym : (xs ys : List A) → list_le xs ys ≡ true → list_le ys xs ≡ true → xs ≡ ys
  unfolding list_le
  list_le_antisym [] [] h k = refl
  list_le_antisym [] (y ∷ ys) h k = cc
  list_le_antisym (x ∷ xs) [] h k = cc
  list_le_antisym (x ∷ xs) (y ∷ ys) h k = ground (arith, o.antisym x y, list_le_antisym xs ys)

instance abbrev pub list_ord {ℓ} : {A : Type ℓ} ⦃o : Ord A⦄ → Ord (List A)
list_ord = record {
  le = list_le;
  total = list_le_total;
  trans = list_le_trans;
  antisym = list_le_antisym;
}
