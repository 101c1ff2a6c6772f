-- ===== src/Sim/Links/Quota.antt =====
-- The share of a quota that a link reports.
use pilotfish.Base.{
  ℕ, zero, suc, ◌*◌, ◌<◌, ◌≡◌, refl, sym, subst, true, false, Bool-cases, inl, inr, arith,
}
use pilotfish.Base.Int.{pos, negsuc, scale}
use pilotfish.Base.Result.{ok, >>=-eq-ok, ok-injective}
use pilotfish.Float.{Float, nan, inf, neg_inf, finite, float_lt, float_ge, zero_point, of_int, unit}
use pilotfish.Float.Arith.{
  nearest, nearest_ℤ, float_mul, float_div, over_units, int_div, float_min, mul_ℤ, inf_times,
}
use pilotfish.Sim.Links.{num, gb, quota_used}

-- A float that is not below zero: NaN is not.
abbrev NotBelow : Float → Type 0
NotBelow x = float_lt x zero_point ≡ false

nearest-NotBelow : (n d : ℕ) → NotBelow (nearest n d)
unfolding nearest
nearest-NotBelow n d = ground arith

num-finite : (n : ℕ) → num n ≡ finite (pos (unit * n))
unfolding of_int scale
num-finite n = ground arith

mul_pos : (a b : ℕ) → mul_ℤ (pos a) (pos b) ≡ pos (a * b)
unfolding mul_ℤ
mul_pos a b = grind arith

scale_pos : (k a : ℕ) → scale k (pos a) ≡ pos (k * a)
unfolding scale
scale_pos k a = grind arith

nearest_pos-NotBelow : (n d : ℕ) → NotBelow (nearest_ℤ (pos n) d)
unfolding nearest_ℤ
nearest_pos-NotBelow n d = nearest-NotBelow n d

inf_times-NotBelow : (n : ℕ) → 0 < n → NotBelow (inf_times (finite (pos n)))
unfolding inf_times
inf_times-NotBelow n h = ground arith

-- A positive number times one that is not below zero is not below zero.
mul-NotBelow : (n : ℕ) (x : Float) → 0 < n → NotBelow x → NotBelow (float_mul (finite (pos n)) x)
unfolding float_mul
mul-NotBelow n nan some h = refl
mul-NotBelow n inf some h = inf_times-NotBelow n some
mul-NotBelow n neg_inf some h = absurd (cc)
mul-NotBelow n (finite (pos m)) some h = rw (mul_pos n m) (nearest_pos-NotBelow (n * m) unit)
mul-NotBelow n (finite (negsuc m)) some h = absurd (ground arith)

over_units-NotBelow : (x : Float) (d : ℕ) → NotBelow x → NotBelow (over_units x d)
unfolding over_units
over_units-NotBelow nan d h = refl
over_units-NotBelow inf d h = refl
over_units-NotBelow neg_inf d h = absurd (cc)
over_units-NotBelow (finite (pos m)) d h = rw (scale_pos unit m) (nearest_pos-NotBelow (unit * m) d)
over_units-NotBelow (finite (negsuc m)) d h = absurd (ground arith)

-- A quotient by what is not at most zero.
div-NotBelow :
    (x q y : Float) → NotBelow x → float_ge zero_point q ≡ false → float_div x q ≡ ok y → NotBelow y
unfolding float_div
div-NotBelow x nan y h positive e = ground arith
div-NotBelow x inf y h positive e = ground arith
div-NotBelow x neg_inf y h positive e = absurd (cc)
div-NotBelow x (finite (pos zero)) y h positive e = absurd (ground arith)
div-NotBelow x (finite (pos (suc m))) y h positive e =
    subst NotBelow (ok-injective e) (over_units-NotBelow x (suc m) h)
div-NotBelow x (finite (negsuc m)) y h positive e = absurd (ground arith)

int_div-NotBelow : (n d : ℕ) (y : Float) → int_div (pos n) d ≡ ok y → NotBelow y
unfolding int_div
int_div-NotBelow n d y e =
    let kept : NotBelow (nearest_ℤ (scale unit (pos n)) d) =
      rw (scale_pos unit n) (nearest_pos-NotBelow (unit * n) d) in
    ground arith

-- What is below something is a number, so that it stands in the order.
below-ge : (x y : Float) → float_lt x y ≡ true → float_ge y x ≡ true
below-ge x y h = ground arith

below-ge_zero : (x y : Float) → float_lt x y ≡ true → NotBelow x → float_ge x zero_point ≡ true
below-ge_zero x y h k = ground arith

abbrev IsPercentage : Float → Type 0
IsPercentage pct = (float_ge pct zero_point ≡ true) × (float_ge (num 100) pct ≡ true)

hundred-IsPercentage : IsPercentage (num 100)
unfolding of_int scale
hundred-IsPercentage = (refl, refl)

min-IsPercentage : (x : Float) → NotBelow x → IsPercentage (float_min (num 100) x)
unfolding float_min
min-IsPercentage x h = elim (Bool-cases (float_lt x (num 100))) [
  | inl e ↦ rw e (below-ge_zero x (num 100) e h, below-ge x (num 100) e)
  | inr e ↦ rw e hundred-IsPercentage
]

-- The quota that a link reports is a percentage: a number, not NaN, of at least 0 and at most 100,
-- however much the link carried and whatever its quota, infinite and NaN included; where the
-- division does not overflow.
pub quota_used_bounds :
    (quota_gb : Float) (bytes : ℕ) (pct : Float)
    → quota_used quota_gb bytes ≡ ok pct
    → (float_ge pct zero_point ≡ true) × (float_ge (num 100) pct ≡ true)
unfolding quota_used
quota_used_bounds quota_gb bytes pct e = elim (Bool-cases (float_ge zero_point quota_gb)) [
  | inl q ↦ subst IsPercentage (ok-injective (rw q at e)) hundred-IsPercentage
  | inr q ↦
      let (carried, c, h1) = >>=-eq-ok (int_div (pos bytes) gb) _ (rw q at e) in
      let (share, d, h2) = >>=-eq-ok (float_div (float_mul (num 100) carried) quota_gb) _ h1 in
      let scaled =
        subst (λ x. NotBelow (float_mul x carried)) (sym (num-finite 100))
          (mul-NotBelow (unit * 100) carried (omega arith) (int_div-NotBelow bytes gb carried c)) in
      subst IsPercentage (ok-injective h2) (
        min-IsPercentage share
          (div-NotBelow (float_mul (num 100) carried) quota_gb share scaled q d))
]
