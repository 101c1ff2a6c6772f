-- ===== src/Float.antt =====
-- Python's `float`: the finite values, the two infinities and NaN, with the comparisons that the
-- program makes. Their arithmetic is in Arith.
pub mod Arith
use pilotfish.Base.{ℕ, ◌^◌, ◌≡◌, Bool, true, false, arith}
use pilotfish.Base.Int.{ℤ, pos, ltb_ℤ, leb_ℤ, scale, eq_of_parts}
use pilotfish.Base.Sort.{Ord}

-- `finite n` is n * 2 ^ -1074: every finite double is a whole multiple of the least one.
pub data Float : Type 0 where
  nan inf neg_inf : Float
  finite : ℤ → Float

abbrev pub unit : ℕ
unit = 2 ^ 1074

abbrev pub zero_point : Float
zero_point = finite (pos 0)

-- 1.0
abbrev pub one_point : Float
one_point = finite (pos unit)

-- `float(n)`, for an integer that a double holds exactly
unfoldable pub of_int : ℤ → Float
of_int n = finite (scale unit n)

-- `a < b`, false as soon as one of them is NaN
abbrev pub float_lt : Float → Float → Bool
float_lt nan b = false
float_lt inf b = false
float_lt neg_inf nan = false
float_lt neg_inf inf = true
float_lt neg_inf neg_inf = false
float_lt neg_inf (finite m) = true
float_lt (finite n) nan = false
float_lt (finite n) inf = true
float_lt (finite n) neg_inf = false
float_lt (finite n) (finite m) = ltb_ℤ n m

-- `a >= b`
abbrev pub float_ge : Float → Float → Bool
float_ge nan b = false
float_ge inf nan = false
float_ge inf inf = true
float_ge inf neg_inf = true
float_ge inf (finite m) = true
float_ge neg_inf nan = false
float_ge neg_inf inf = false
float_ge neg_inf neg_inf = true
float_ge neg_inf (finite m) = false
float_ge (finite n) nan = false
float_ge (finite n) inf = false
float_ge (finite n) neg_inf = true
float_ge (finite n) (finite m) = leb_ℤ m n

-- `math.isfinite`
abbrev pub is_finite : Float → Bool
is_finite (finite n) = true
is_finite _ = false

-- A total order that agrees with `<=` away from NaN. No NaN is ever sorted: an observation's value
-- is checked when it is built.
unfoldable pub float_le : Float → Float → Bool
float_le nan b = true
float_le neg_inf nan = false
float_le neg_inf b = true
float_le (finite n) (finite m) = leb_ℤ n m
float_le (finite n) inf = true
float_le (finite n) b = false
float_le inf inf = true
float_le inf b = false

pub float_le_total : (a b : Float) → float_le a b ≡ false → float_le b a ≡ true
unfolding float_le
float_le_total a b h = ground arith

pub float_le_trans :
    (a b c : Float) → float_le a b ≡ true → float_le b c ≡ true → float_le a c ≡ true
unfolding float_le
float_le_trans a b c h k = ground arith

pub float_le_antisym : (a b : Float) → float_le a b ≡ true → float_le b a ≡ true → a ≡ b
unfolding float_le
float_le_antisym (finite n) (finite m) h k = ground (arith, eq_of_parts n m)
float_le_antisym a b h k = ground arith

instance abbrev pub float_ord : Ord Float
float_ord = record {
  le = float_le;
  total = float_le_total;
  trans = float_le_trans;
  antisym = float_le_antisym;
}
