-- ===== src/Float/Arith.antt =====
-- The arithmetic of Python's `float`, rounded to the nearest double with ties to even, as far as
-- the simulator uses it: sums, products, quotients and the quotient of two `int`s.
use pilotfish.Base.{
  ℕ, zero, suc, ◌+◌, ◌-◌, ◌*◌, ◌/◌, ◌%◌, ◌^◌, ◌||◌, ◌&&◌, if◌then◌else◌, ltb, leb, ◌==◌,
}
use pilotfish.Base.Int.{ℤ, pos, negsuc, pos_part, neg_part, sub_ℕ, ◌+ℤ◌, ltb_ℤ, scale}
use pilotfish.Base.Result.{Result, ok, err, overflow_error, zero_division_error}
use pilotfish.Float.{Float, nan, inf, neg_inf, finite, unit, zero_point, is_finite, float_lt}

-- The number of binary digits; a number has no more digits than it counts units.
bits_within : ℕ → ℕ → ℕ
bits_within zero n = 0
bits_within (suc fuel) n = let more = suc (bits_within fuel (n / 2)) in if n == 0 then 0 else more

-- `n / d` rounded to a whole number, a tie to the even one.
unfoldable pub round_even : ℕ → ℕ → ℕ
round_even n d =
    let q = n / d in
    let twice = 2 * (n % d) in if ltb d twice || (twice == d && q % 2 == 1) then q + 1 else q

-- The place value of the last of the 53 digits of a double that is near `n` units.
unfoldable pub last_place : ℕ → ℕ
unfolding bits_within
last_place n = 2 ^ (bits_within n n - 53)

-- The double nearest to `n / d` units, for a positive `d`; from 2 ^ 1024 on it is infinite.
unfoldable pub nearest : ℕ → ℕ → Float
unfolding round_even last_place
nearest n d =
    let place = last_place (n / d) in
    let rounded = round_even n (d * place) * place in
    if leb (2 ^ 2098) rounded then inf else finite (pos rounded)

unfoldable pub float_neg : Float → Float
float_neg nan = nan
float_neg inf = neg_inf
float_neg neg_inf = inf
float_neg (finite n) = finite (sub_ℕ (neg_part n) (pos_part n))

unfoldable pub nearest_ℤ : ℤ → ℕ → Float
unfolding nearest float_neg
nearest_ℤ (pos n) d = nearest n d
nearest_ℤ (negsuc n) d = float_neg (nearest (suc n) d)

-- `a + b`
unfoldable pub float_add : Float → Float → Float
unfolding nearest_ℤ
float_add nan b = nan
float_add inf nan = nan
float_add inf inf = inf
float_add inf neg_inf = nan
float_add inf (finite m) = inf
float_add neg_inf nan = nan
float_add neg_inf inf = nan
float_add neg_inf neg_inf = neg_inf
float_add neg_inf (finite m) = neg_inf
float_add (finite n) nan = nan
float_add (finite n) inf = inf
float_add (finite n) neg_inf = neg_inf
float_add (finite n) (finite m) = nearest_ℤ (n +ℤ m) 1

-- an infinity times `b`
unfoldable pub inf_times : Float → Float
inf_times nan = nan
inf_times inf = inf
inf_times neg_inf = neg_inf
inf_times (finite n) = if ltb_ℤ (pos 0) n then inf else if ltb_ℤ n (pos 0) then neg_inf else nan

unfoldable pub mul_ℤ : ℤ → ℤ → ℤ
mul_ℤ a b =
    sub_ℕ (pos_part a * pos_part b + neg_part a * neg_part b)
      (pos_part a * neg_part b + neg_part a * pos_part b)

-- `a * b`
unfoldable pub float_mul : Float → Float → Float
unfolding inf_times mul_ℤ nearest_ℤ float_neg
float_mul nan b = nan
float_mul inf b = inf_times b
float_mul neg_inf b = float_neg (inf_times b)
float_mul (finite n) nan = nan
float_mul (finite n) inf = inf_times (finite n)
float_mul (finite n) neg_inf = float_neg (inf_times (finite n))
float_mul (finite n) (finite m) = nearest_ℤ (mul_ℤ n m) unit

-- `a / b` for a positive number of units `b`
unfoldable pub over_units : Float → ℕ → Float
unfolding nearest_ℤ
over_units nan d = nan
over_units inf d = inf
over_units neg_inf d = neg_inf
over_units (finite n) d = nearest_ℤ (scale unit n) d

-- `a / b`
unfoldable pub float_div : Float → Float → Result Float
unfolding over_units float_neg
float_div a nan = ok nan
float_div a (finite (pos zero)) = err zero_division_error
float_div a (finite (pos (suc m))) = ok (over_units a (suc m))
float_div a (finite (negsuc m)) = ok (float_neg (over_units a (suc m)))
float_div a inf = ok (if is_finite a then zero_point else nan)
float_div a neg_inf = ok (if is_finite a then zero_point else nan)

-- `n / d` on `int`s, for a positive `d`: what has no finite double raises
unfoldable pub int_div : ℤ → ℕ → Result Float
unfolding nearest_ℤ
int_div n d = let q = nearest_ℤ (scale unit n) d in if is_finite q then ok q else err overflow_error

-- `min(a, b)`
unfoldable pub float_min : Float → Float → Float
float_min a b = if float_lt b a then b else a
