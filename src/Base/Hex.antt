-- ===== src/Base/Hex.antt =====
-- Lower-case hexadecimal: `bytes.hex` and `bytes.fromhex`.
use pilotfish.Base.Tests.{ltb, leb, if◌then◌else◌}
use pilotfish.Base.Lists.{All}
use pilotfish.Base.Result.{Result, ok, err, value_error, ◌>>=◌}
use pilotfish.Base.Text.{Text, Bytes}
use Prim.Native.Nat.{ℕ, ◌+◌, ◌-◌, ◌*◌, ◌/◌, ◌%◌, ◌<◌}
use mathlib.Core.Path.{◌≡◌, refl}
use mathlib.Core.Bool.{◌&&◌}
use mathlib.Core.List.{[], ◌∷◌}
use native.Mathlib.Omega.{arith}

unfoldable pub hex_digit : ℕ → ℕ
hex_digit d = if ltb d 10 then 48 + d else 87 + d

unfoldable pub hex : Bytes → Text
unfolding hex_digit
hex [] = []
hex (b ∷ bs) = hex_digit (b / 16) ∷ hex_digit (b % 16) ∷ hex bs

-- A digit in either case.
unfoldable pub of_hex_digit : ℕ → Result ℕ
of_hex_digit c =
    if leb 48 c && leb c 57
    then ok (c - 48)
    else if leb 97 c && leb c 102
    then ok (c - 87)
    else if leb 65 c && leb c 70
    then ok (c - 55)
    else err value_error

-- `bytes.fromhex`, on a text without white space
unfoldable pub from_hex : Text → Result Bytes
unfolding of_hex_digit
from_hex [] = ok []
from_hex (c ∷ []) = err value_error
from_hex (c ∷ d ∷ t) = do
  h ← of_hex_digit c
  l ← of_hex_digit d
  bs ← from_hex t
  ok ((h * 16 + l) ∷ bs)

of_hex_digit-hex_digit : (d : ℕ) → d < 16 → of_hex_digit (hex_digit d) ≡ ok d
unfolding hex_digit of_hex_digit
of_hex_digit-hex_digit d h = ground arith

pub from_hex-hex : (bs : Bytes) → All (λ b. b < 256) bs → from_hex (hex bs) ≡ ok bs
unfolding hex from_hex
from_hex-hex [] h = refl
from_hex-hex (b ∷ bs) h =
    ground
      (arith, of_hex_digit-hex_digit (b / 16), of_hex_digit-hex_digit (b % 16), from_hex-hex bs h.1)
