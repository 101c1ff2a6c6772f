-- ===== src/Tests/Toy.antt =====
-- A platform on which the examples stand: the serialiser of Serial, a checksum in place of the hash,
-- and signatures that hold the key and the message.
use pilotfish.Base.{
  ℕ, zero, suc, ◌+◌, ◌/◌, ◌*◌, ◌%◌, ◌<◌, ◌^◌, ◌≡◌, refl, Bool, true, false, some, [], ◌∷◌, ◌++◌,
  append-nil, arith,
}
use pilotfish.Base.Int.{ℤ, pos, negsuc, ◌≤ℤ◌}
use pilotfish.Base.Lists.{length, replicate, length-replicate, All}
use pilotfish.Base.Result.{Result, ok, err, value_error}
use pilotfish.Base.Text.{Bytes, text_eq, text_eq_refl, text}
use pilotfish.Float.{Float, finite, float_lt, is_finite, unit}
use pilotfish.Platform.{Platform, Value}
use pilotfish.Tests.Serial.{Parsed, write, parse, parse-write, size-le}

all_read : Parsed Value → Result Value
all_read (some (v, [])) = ok v
all_read _ = err value_error

unfoldable pub toy_loads : Bytes → Result Value
unfolding all_read
toy_loads b = all_read (parse (length b) b)

pub toy_loads-write : (v : Value) → toy_loads (write v) ≡ ok v
unfolding toy_loads
toy_loads-write v =
    let read : parse (length (write v)) (write v ++ []) ≡ some (v, []) =
      parse-write v (length (write v)) [] (size-le v) in
    let whole : parse (length (write v)) (write v) ≡ some (v, []) = rw append-nil at read in
    rw whole

octets : (n x : ℕ) → x < 256 → All (λ y. y < 256) (replicate n x)
octets zero x h = tt
octets (suc n) x h = (h, octets n x h)

unfoldable pub checksum : Bytes → ℕ
checksum [] = 0
checksum (b ∷ bs) = (b + 31 * checksum bs) % 256

unfoldable pub toy_sha256 : Bytes → Bytes
unfolding checksum
toy_sha256 b = replicate 32 (checksum b)

pub length-toy_sha256 : (b : Bytes) → length (toy_sha256 b) ≡ 32
unfolding toy_sha256
length-toy_sha256 b = length-replicate 32 (checksum b)

pub toy_sha256-octets : (b : Bytes) → All (λ x. x < 256) (toy_sha256 b)
unfolding toy_sha256 checksum
toy_sha256-octets [] = omega arith
toy_sha256-octets (x ∷ b) = octets 32 _ (omega arith)

unfoldable pub toy_seconds : ℤ → Float
toy_seconds (pos n) = finite (pos (n * unit / 10 ^ 6))
toy_seconds (negsuc n) = finite (negsuc (n * unit / 10 ^ 6))

pub toy_seconds_finite : (a : ℤ) → is_finite (toy_seconds a) ≡ true
unfolding toy_seconds
toy_seconds_finite (pos n) = refl
toy_seconds_finite (negsuc n) = refl

pub toy_seconds_mono : (a b : ℤ) → a ≤ℤ b → float_lt (toy_seconds b) (toy_seconds a) ≡ false
unfolding toy_seconds
toy_seconds_mono (pos n) (pos m) h = ground arith
toy_seconds_mono (pos n) (negsuc m) h = absurd (omega arith)
toy_seconds_mono (negsuc n) (pos m) h = ground arith
toy_seconds_mono (negsuc n) (negsuc m) h = ground arith

unfoldable pub toy_verify : Bytes → Bytes → Bytes → Bool
toy_verify k s m = text_eq s (k ++ m)

pub toy_verify-sign : (k m : Bytes) → toy_verify k (k ++ m) m ≡ true
unfolding toy_verify
toy_verify-sign k m = text_eq_refl (k ++ m)

instance abbrev pub toy : Platform
toy = record {
  dumps = write;
  loads = toy_loads;
  loads-dumps = toy_loads-write;
  sha256 = toy_sha256;
  length-sha256 = length-toy_sha256;
  sha256_octets = toy_sha256-octets;
  sign = λ k m. k ++ m;
  public_key = λ k. k;
  verify = toy_verify;
  verify-sign = toy_verify-sign;
  total_seconds = toy_seconds;
  total_seconds_finite = toy_seconds_finite;
  total_seconds_mono = toy_seconds_mono;
  show_float = λ x. text "x";
  show_rounded = λ x. text "x";
  show_list = λ xs. text "[]";
}
