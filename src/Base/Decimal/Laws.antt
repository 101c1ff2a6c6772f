-- ===== src/Base/Decimal/Laws.antt =====
-- Reading a printed number back.
use pilotfish.Base.Tests.{ltb, Bool-cases}
use pilotfish.Base.Decimal.{
  is_digit, is_space, show_digits, show_ℕ, show_ℤ, number_from, strip_left, strip_right, strip,
  signed_number, parse_int, positive, negate,
}
use pilotfish.Base.Int.{ℤ, pos, negsuc}
use pilotfish.Base.Lists.{All}
use pilotfish.Base.Text.{Text}
use Prim.Native.Nat.{ℕ, zero, suc, ◌+◌, ◌/◌, ◌%◌, ◌<◌}
use mathlib.Core.Path.{◌≡◌, refl, ◌∙◌}
use mathlib.Core.Logic.{◌≢◌, inl, inr}
use mathlib.Core.Bool.{Bool, true, false}
use mathlib.Core.List.{[], ◌∷◌, ◌++◌, append_assoc, append-nil}
use mathlib.Core.Option.{some}
use native.Mathlib.Omega.{arith}

-- Printable characters of a number: digits and the minus sign.
abbrev pub IsPlain : ℕ → Type 0
IsPlain c = is_space c ≡ false

All-append : (s t : Text) → All IsPlain s → All IsPlain t → All IsPlain (s ++ t)
All-append [] t h k = k
All-append (c ∷ s) t h k = (h.0, All-append s t h.1 k)

show_digits-IsPlain : (f n : ℕ) → All IsPlain (show_digits f n)
unfolding show_digits
show_digits-IsPlain zero n = tt
show_digits-IsPlain (suc f) n = elim (Bool-cases (ltb n 10)) [
  | inl e ↦ rw e (ground arith, tt)
  | inr e ↦
      rw e
        (All-append (show_digits f (n / 10)) _ (show_digits-IsPlain f (n / 10)) (ground arith, tt))
]

-- The digits of `n`, read from nothing, leave `n` read.
number_from-show_digits :
    (f n : ℕ) (after : Bool) (rest : Text)
    → n < f
    → number_from after 0 (show_digits f n ++ rest) ≡ number_from true n rest
unfolding show_digits number_from
number_from-show_digits zero n after rest h = elim h [ ]
number_from-show_digits (suc f) n after rest h = elim (Bool-cases (ltb n 10)) [
  | inl e ↦ rw e (ground arith)
  | inr e ↦
      rw
        (
          e,
          append_assoc (show_digits f (n / 10)),
          number_from-show_digits f (n / 10) after ((48 + n % 10) ∷ rest) (ground arith),
        )
        (ground arith)
]

strip_right-newline : (t : Text) → All IsPlain t → strip_right (t ++ 10 ∷ []) ≡ t
unfolding strip_right
strip_right-newline [] h = refl
strip_right-newline (c ∷ []) h = rw h.0
strip_right-newline (c ∷ d ∷ t) h = rw (strip_right-newline (d ∷ t) h.1)

strip_right-plain : (t : Text) → All IsPlain t → strip_right t ≡ t
unfolding strip_right
strip_right-plain [] h = refl
strip_right-plain (c ∷ []) h = rw h.0
strip_right-plain (c ∷ d ∷ t) h = rw (strip_right-plain (d ∷ t) h.1)

strip_left-plain : (c : ℕ) (t : Text) → IsPlain c → strip_left (c ∷ t) ≡ c ∷ t
unfolding strip_left
strip_left-plain c t h = rw h

pub strip-newline : (t : Text) → All IsPlain t → t ≢ [] → strip (t ++ 10 ∷ []) ≡ t
unfolding strip
strip-newline [] h ne = absurd (ne refl)
strip-newline (c ∷ t) h ne =
    rw (strip_left-plain c (t ++ 10 ∷ []) h.0) (strip_right-newline (c ∷ t) h)

strip-plain : (t : Text) → All IsPlain t → strip t ≡ t
unfolding strip
strip-plain [] h = unfold strip_left strip_right in refl
strip-plain (c ∷ t) h = rw (strip_left-plain c t h.0) (strip_right-plain (c ∷ t) h)

-- A numeral begins with a digit.
show_digits-head :
    (f n : ℕ) → n < f → (c : ℕ) × (t : Text) × (show_digits f n ≡ c ∷ t) × (is_digit c ≡ true)
unfolding show_digits
show_digits-head zero n h = elim h [ ]
show_digits-head (suc f) n h = elim (Bool-cases (ltb n 10)) [
  | inl e ↦ rw e (48 + n, [], refl, ground arith)
  | inr e ↦
      let (c, t, shape, digit) = show_digits-head f (n / 10) (ground arith) in
      rw e (c, t ++ (48 + n % 10) ∷ [], rw shape, digit)
]

number_from-end : (n : ℕ) → number_from true n [] ≡ some n
unfolding number_from
number_from-end n = refl

number_from-show_ℕ : (n : ℕ) → number_from false 0 (show_ℕ n) ≡ some n
unfolding show_ℕ
number_from-show_ℕ n =
    let read : number_from false 0 (show_digits (suc n) n ++ []) ≡ number_from true n [] =
      number_from-show_digits (suc n) n false [] (omega arith) in
    rw append-nil at read ∙ number_from-end n

signed_number-digit :
    (c : ℕ) (t : Text)
    → is_digit c ≡ true
    → signed_number (c ∷ t) ≡ positive (number_from false 0 (c ∷ t))
unfolding signed_number
signed_number-digit c t h = ground arith

show_ℕ-head : (n : ℕ) → (c : ℕ) × (t : Text) × (show_ℕ n ≡ c ∷ t) × (is_digit c ≡ true)
unfolding show_ℕ
show_ℕ-head n = show_digits-head (suc n) n (omega arith)

show_ℕ-IsPlain : (n : ℕ) → All IsPlain (show_ℕ n)
unfolding show_ℕ
show_ℕ-IsPlain n = show_digits-IsPlain (suc n) n

signed_number-show_ℕ : (n : ℕ) → signed_number (show_ℕ n) ≡ some (pos n)
signed_number-show_ℕ n =
    let (c, t, shape, digit) = show_ℕ-head n in
    rw shape (signed_number-digit c t digit ∙ rw (← shape, number_from-show_ℕ n))

signed_number-minus : (t : Text) → signed_number (45 ∷ t) ≡ negate (number_from false 0 t)
unfolding signed_number
signed_number-minus t = refl

pub show_ℤ-IsPlain : (n : ℤ) → All IsPlain (show_ℤ n)
unfolding show_ℤ
show_ℤ-IsPlain (pos n) = show_ℕ-IsPlain n
show_ℤ-IsPlain (negsuc n) = (refl, show_ℕ-IsPlain (suc n))

pub show_ℤ-ne-nil : (n : ℤ) → show_ℤ n ≢ []
unfolding show_ℤ
show_ℤ-ne-nil (pos n) h = let (c, t, shape, digit) = show_ℕ-head n in cc
show_ℤ-ne-nil (negsuc n) h = cc

signed_number-show_ℤ : (n : ℤ) → signed_number (show_ℤ n) ≡ some n
unfolding show_ℤ
signed_number-show_ℤ (pos n) = signed_number-show_ℕ n
signed_number-show_ℤ (negsuc n) =
    rw (signed_number-minus (show_ℕ (suc n)), number_from-show_ℕ (suc n)) (ground arith)

-- A printed integer is read back.
pub parse_int-show_ℤ : (n : ℤ) → parse_int (show_ℤ n) ≡ some n
unfolding parse_int
parse_int-show_ℤ n = rw (strip-plain (show_ℤ n) (show_ℤ-IsPlain n)) (signed_number-show_ℤ n)
