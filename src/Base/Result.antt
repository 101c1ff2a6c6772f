-- ===== src/Base/Result.antt =====
-- Python's exceptions as values: what a call returns, or the exception that it raises.
use pilotfish.Base.Tests.{if◌then◌else◌}
use pilotfish.Base.Lists.{All}
use mathlib.Core.Path.{◌≡◌, refl, ap}
use mathlib.Core.Bool.{Bool, true, false}
use mathlib.Core.List.{List, [], ◌∷◌, map}
use mathlib.Core.Logic.{◌⊎◌, inl, inr}
use Prim.Native.Nat.{ℕ}

-- The exception classes that the program raises or lets through. `os_error` is a failure of the
-- file system; `adapter_error` carries the text `{type(exc).__name__}: {exc}` of an exception that
-- an integration raised.
pub data Error : Type 0 where
  value_error type_error index_error unknown_rule_kind signature_invalid bundle_unverified : Error
  bundle_expired chain_broken epoch_unreadable postcondition_violation os_error : Error
  key_error attribute_error overflow_error zero_division_error : Error
  adapter_error : List ℕ → Error

pub data Result {ℓ} (A : Type ℓ) : Type ℓ where
  ok : A → Result A
  err : Error → Result A

module _ {ℓ κ} {A : Type ℓ} {B : Type κ} where
  infixl 5 ◌>>=◌
  -- an exception of the first call skips the second
  abbrev pub ◌>>=◌ : Result A → (A → Result B) → Result B
  err e >>= next = err e
  ok a >>= next = next a

module _ {ℓ} {B : Type ℓ} where
  infixl 5 ◌>>◌
  abbrev pub ◌>>◌ : Result (Unit {0}) → Result B → Result B
  first >> next = first >>= λ _. next

-- `if c: raise e`
abbrev pub raise_if : Bool → Error → Result (Unit {0})
raise_if c e = if c then err e else ok tt

-- `[f(x) for x in xs]`, where `f` may raise
unfoldable pub map_ok {ℓ κ} : {A : Type ℓ} {B : Type κ} → (A → Result B) → List A → Result (List B)
map_ok f [] = ok []
map_ok f (x ∷ xs) = do y ← f x; ys ← map_ok f xs; ok (y ∷ ys)

-- `except X as exc: raise e from exc`, for every exception
abbrev pub catch_all {ℓ} : {A : Type ℓ} → Result A → Error → Result A
catch_all (ok a) e = ok a
catch_all (err _) e = err e

-- `except SignatureInvalid as exc: raise e from exc`: any other exception passes through
abbrev pub catch_signature {ℓ} : {A : Type ℓ} → Result A → Error → Result A
catch_signature (ok a) e = ok a
catch_signature (err signature_invalid) e = err e
catch_signature (err f) e = err f

-- what a call returned, or another value where it raised
abbrev pub value_or {ℓ} : {A : Type ℓ} → A → Result A → A
value_or other (ok a) = a
value_or other (err e) = other

pub ok-injective {ℓ} : {A : Type ℓ} {a b : A} → ok a ≡ ok b → a ≡ b
ok-injective {a = a} h = ap (value_or a) h

abbrev pub map_result {ℓ κ} : {A : Type ℓ} {B : Type κ} → (A → B) → Result A → Result B
map_result f (ok a) = ok (f a)
map_result f (err e) = err e

pub Result-cases {ℓ} :
    {A : Type ℓ} (r : Result A) → ((a : A) × (r ≡ ok a)) ⊎ ((e : Error) × (r ≡ err e))
Result-cases (ok a) = inl (a, refl)
Result-cases (err e) = inr (e, refl)

module _ {ℓ κ} {A : Type ℓ} {B : Type κ} where
  -- A chain that returned: its first call returned, and so did the rest.
  pub >>=-eq-ok :
      (first : Result A) (next : A → Result B) {y : B}
      → (first >>= next) ≡ ok y
      → (x : A) × (first ≡ ok x) × (next x ≡ ok y)
  >>=-eq-ok (err e) next returned = cc
  >>=-eq-ok (ok x) next returned = (x, refl, returned)

-- A decoder that undoes an encoder undoes it on every list.
pub map_ok-map {ℓ κ ι ι'} :
    {A : Type ℓ} {B : Type κ} {C : Type ι} (P : B → Type ι') (f : A → Result C) (g : B → A)
    (h : B → C)
    → ((b : B) → P b → f (g b) ≡ ok (h b))
    → (xs : List B) → All P xs
    → map_ok f (map g xs) ≡ ok (map h xs)
unfolding map_ok
map_ok-map P f g h e [] ps = refl
map_ok-map P f g h e (x ∷ xs) ps = rw (e x ps.0, map_ok-map P f g h e xs ps.1)

pub map_ok-inverse {ℓ κ} :
    {A : Type ℓ} {B : Type κ} (f : A → Result B) (g : B → A)
    → ((b : B) → f (g b) ≡ ok b)
    → (xs : List B) → map_ok f (map g xs) ≡ ok xs
unfolding map_ok
map_ok-inverse f g e [] = refl
map_ok-inverse f g e (x ∷ xs) = rw (e x, map_ok-inverse f g e xs)

-- A test that passed, and what follows it.
pub passed {ℓ} :
    {A : Type ℓ} (c : Bool) (e : Error) (k : Result A) {a : A}
    → (raise_if c e >> k) ≡ ok a
    → (c ≡ false) × (k ≡ ok a)
passed true e k h = cc
passed false e k h = (refl, h)

pub passed_last : (c : Bool) (e : Error) → raise_if c e ≡ ok tt → c ≡ false
passed_last true e h = cc
passed_last false e h = refl

pub then-ok {ℓ} :
    {A : Type ℓ} (r : Result (Unit {0})) (k : Result A) {a : A}
    → (r >> k) ≡ ok a
    → (r ≡ ok tt) × (k ≡ ok a)
then-ok (ok _) k h = (refl, h)
then-ok (err x) k h = cc
