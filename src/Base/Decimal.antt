-- ===== src/Base/Decimal.antt =====
-- Decimal numerals: `str` and `int` of Python on integers, the latter on ASCII.
pub mod Laws
use pilotfish.Base.Tests.{leb, ltb, ◌==◌, if◌then◌else◌}
use pilotfish.Base.Int.{ℤ, pos, negsuc, sub_ℕ}
use pilotfish.Base.Text.{Text}
use Prim.Native.Nat.{ℕ, zero, suc, ◌+◌, ◌-◌, ◌*◌, ◌/◌, ◌%◌}
use mathlib.Core.Bool.{Bool, true, false, ◌&&◌, ◌||◌}
use mathlib.Core.List.{[], ◌∷◌, ◌++◌}
use mathlib.Core.Option.{Option, none, some}

abbrev pub is_digit : ℕ → Bool
is_digit c = leb 48 c && leb c 57

-- the white space of ASCII
abbrev pub is_space : ℕ → Bool
is_space c = (leb 9 c && leb c 13) || ((leb 28 c && leb c 31) || c == 32)

-- With fuel: a numeral has at most as many digits as its number, and one.
unfoldable pub show_digits : ℕ → ℕ → Text
show_digits zero n = []
show_digits (suc f) n =
    let front = show_digits f (n / 10) in
    if ltb n 10 then (48 + n) ∷ [] else front ++ (48 + n % 10) ∷ []

unfoldable pub show_ℕ : ℕ → Text
show_ℕ n = show_digits (suc n) n

-- `str(n)`; 45 is the minus sign
unfoldable pub show_ℤ : ℤ → Text
show_ℤ (pos n) = show_ℕ n
show_ℤ (negsuc n) = 45 ∷ show_ℕ (suc n)

-- What the digits so far leave expected: at the start and after an underscore a digit, after a
-- digit anything that a numeral may hold.
unfoldable pub number_from : Bool → ℕ → Text → Option ℕ
number_from after_digit acc [] = if after_digit then some acc else none
number_from after_digit acc (c ∷ cs) =
    let next = number_from true (acc * 10 + (c - 48)) cs in
    let under = number_from false acc cs in
    if is_digit c then next else if after_digit && c == 95 then under else none

-- A text without the white space at its ends.
unfoldable pub strip_left : Text → Text
strip_left [] = []
strip_left (c ∷ cs) = let rest = strip_left cs in if is_space c then rest else c ∷ cs

unfoldable pub strip_right : Text → Text
strip_right [] = []
strip_right (c ∷ cs) = elim (strip_right cs) [
  | [] ↦ if is_space c then [] else c ∷ []
  | d ∷ ds ↦ c ∷ d ∷ ds
]

unfoldable pub strip : Text → Text
strip t = strip_right (strip_left t)

abbrev pub negate : Option ℕ → Option ℤ
negate none = none
negate (some n) = some (sub_ℕ 0 n)

abbrev pub positive : Option ℕ → Option ℤ
positive none = none
positive (some n) = some (pos n)

unfoldable pub signed_number : Text → Option ℤ
signed_number [] = none
signed_number (c ∷ cs) =
    if c == 45
    then negate (number_from false 0 cs)
    else if c == 43
    then positive (number_from false 0 cs)
    else positive (number_from false 0 (c ∷ cs))

-- `int(t)`, where `none` is a `ValueError`
unfoldable pub parse_int : Text → Option ℤ
parse_int t = signed_number (strip t)
