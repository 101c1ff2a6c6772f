-- ===== src/Platform.antt =====
-- What the program calls and does not implement: cbor2, hashlib and the Ed25519 keys of
-- cryptography, and the rendering of numbers and lists in messages. Values on the wire are here too.
pub mod Wire
pub use Wire.{
  Value, Items, null, boolean, int, float, string, bytes, array, end, item, to_list-items, array_of,
}
unfoldable pub use Wire.{items, to_list}
use pilotfish.Base.{◌<◌, ◌≡◌, List, true, false, Bool}
use pilotfish.Base.Int.{ℤ, ◌≤ℤ◌}
use pilotfish.Base.Lists.{length, All}
use pilotfish.Base.Result.{Result, ok}
use pilotfish.Base.Text.{Text, Bytes}
use pilotfish.Float.{Float, float_lt, is_finite}

pub record Platform : Type 0 where
  -- `cbor2.dumps(_, canonical=True)` and `cbor2.loads`
  pub dumps : Value → Bytes
  pub loads : Bytes → Result Value
  pub loads-dumps : (v : Value) → loads (dumps v) ≡ ok v
  -- `hashlib.sha256(_).digest()`
  pub sha256 : Bytes → Bytes
  pub length-sha256 : (b : Bytes) → length (sha256 b) ≡ 32
  pub sha256_octets : (b : Bytes) → All (λ x. x < 256) (sha256 b)
  -- `private_key.sign`, `private_key.public_key()` and `public_key.verify`, on raw keys
  pub sign : Bytes → Bytes → Bytes
  pub public_key : Bytes → Bytes
  pub verify : Bytes → Bytes → Bytes → Bool
  pub verify-sign : (k m : Bytes) → verify (public_key k) (sign k m) m ≡ true
  -- the division in `timedelta.total_seconds`, on microseconds: finite, and correctly rounded, so
  -- monotone
  pub total_seconds : ℤ → Float
  pub total_seconds_finite : (a : ℤ) → is_finite (total_seconds a) ≡ true
  pub total_seconds_mono : (a b : ℤ) → a ≤ℤ b → float_lt (total_seconds b) (total_seconds a) ≡ false
  -- `f"{x}"` and `f"{x:.0f}"` of a float, and `f"{xs}"` of a list of texts
  pub show_float : Float → Text
  pub show_rounded : Float → Text
  pub show_list : List Text → Text
