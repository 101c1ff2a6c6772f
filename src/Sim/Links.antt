-- ===== src/Sim/Links.antt =====
-- sim/links.py: the link models. A model is the fields of its base class and a tag with the fields
-- that its class adds; the seeded generator is passed along as a state.
pub mod Observe
pub mod Draws
pub mod Quota
pub mod Honest
use pilotfish.Base.{ℕ, ◌+◌, ◌^◌, Bool, ◌&&◌, Option, none, some, List, [], ◌∷◌, ◌++◌, if◌then◌else◌}
use pilotfish.Base.Dict.{Dict, lookup}
use pilotfish.Base.Int.{ℤ, pos, negsuc}
use pilotfish.Base.Result.{Result, ok, ◌>>=◌}
use pilotfish.Base.Text.{Text, text}
use pilotfish.Core.Models.{Observation, Time, new_observation}
use pilotfish.Float.{Float, zero_point, one_point, of_int, float_ge}
use pilotfish.Float.Arith.{float_add, float_mul, float_div, int_div, float_min}

-- GB
abbrev pub gb : ℕ
gb = 10 ^ 9

-- a whole number as a float literal
abbrev pub num : ℕ → Float
num n = of_int (pos n)

-- the float literal -n - 1
abbrev pub below_zero : ℕ → Float
below_zero n = of_int (negsuc n)

-- `random.Random`: what a seed starts, and `uniform(a, b)`, which draws the next number and moves the
-- generator on.
pub record Random (R : Type 0) : Type 0 where
  pub seeded : ℤ → R
  pub uniform : Float → Float → R → Float × R

-- FiberModel, LteModel, SatelliteModel and FsoModel: the fields that each adds to LinkModel
pub data Kind : Type 0 where
  fiber : (base_rtt_ms : Float) → Kind
  lte : (quota_gb base_rtt_ms congestion cost_per_gb_over : Float) → Kind
  satellite : (base_rtt_ms : Float) (obstructed : Bool) (quota_gb cost_per_gb_over : Float) → Kind
  fso : (visibility_m base_rtt_ms usable_visibility_m : Float) → Kind

pub record LinkModel : Type 0 where
  pub link_id : Text
  pub up : Bool
  pub sensor_failed : Bool
  pub bytes_carried : ℕ
  pub kind : Kind

-- `LinkModel.carry`
unfoldable pub carry : ℕ → LinkModel → LinkModel
carry bytes m = record m { bytes_carried = m.bytes_carried + bytes }

-- `1.0 if b else 0.0`
abbrev pub flag : Bool → Float
flag b = if b then one_point else zero_point

-- `quota_used_pct` of an LTE or satellite model, by its quota and the bytes that it carried
unfoldable pub quota_used : Float → ℕ → Result Float
quota_used quota_gb bytes = if float_ge zero_point quota_gb then ok (num 100) else do
  carried ← int_div (pos bytes) gb
  pct ← float_div (float_mul (num 100) carried) quota_gb
  ok (float_min (num 100) pct)

-- `quota_used_pct`, where the model's class has the method
unfoldable pub quota_used_pct : LinkModel → Option (Result Float)
unfolding quota_used
quota_used_pct m = elim m.kind [
  | lte q b c x ↦ some (quota_used q m.bytes_carried)
  | satellite b o q x ↦ some (quota_used q m.bytes_carried)
  | _ ↦ none
]

-- `cost_per_gb`
unfoldable pub cost_per_gb : LinkModel → Float
cost_per_gb m = elim m.kind [ lte q b c x ↦ x | satellite b o q x ↦ x | _ ↦ zero_point ]

-- `base_rtt_ms`
unfoldable pub base_rtt_ms : Kind → Float
base_rtt_ms (fiber b) = b
base_rtt_ms (lte q b c x) = b
base_rtt_ms (satellite b o q x) = b
base_rtt_ms (fso v b u) = b

-- whether an FSO model's visibility suffices
abbrev pub clears : Float → Float → Bool
clears visibility usable = float_ge visibility usable

-- whether one model is up, as `LinkFleet.is_up` tells
unfoldable pub model_up : LinkModel → Bool
model_up m = elim m.kind [ fso v b u ↦ m.up && clears v u | _ ↦ m.up ]

-- `LinkFleet.is_up`
unfoldable pub is_up : Dict LinkModel → Text → Result Bool
unfolding model_up lookup
is_up fleet link_id = do m ← lookup link_id fleet; ok (model_up m)
