-- ===== src/Base/Base64.antt =====
-- `base64.b64encode` and `base64.b64decode` of Python, on octets. The decoder is the machine of
-- `binascii.a2b_base64`: it skips what is not a digit, and ends at a pad that fills a quantum.
use pilotfish.Base.Tests.{ltb, leb, if◌then◌else◌, ◌==◌}
use pilotfish.Base.Lists.{All, is_empty}
use pilotfish.Base.Result.{Result, ok, err, value_error}
use pilotfish.Base.Text.{Bytes}
use Prim.Native.Nat.{ℕ, ◌+◌, ◌-◌, ◌*◌, ◌/◌, ◌%◌, ◌<◌}
use mathlib.Core.Path.{◌≡◌, refl, ap}
use mathlib.Core.Bool.{Bool, true, false, ◌&&◌}
use mathlib.Core.Option.{Option, none, some}
use mathlib.Core.List.{[], ◌∷◌}
use native.Mathlib.Omega.{arith}

-- the digit for a number below 64
unfoldable pub digit : ℕ → ℕ
digit n =
    if ltb n 26
    then n + 65
    else if ltb n 52
    then n + 71
    else if ltb n 62
    then n - 52 + 48
    else if n == 62
    then 43
    else 47

-- the number that a digit stands for
unfoldable pub digit_value : ℕ → Option ℕ
digit_value c =
    if leb 65 c && leb c 90
    then some (c - 65)
    else if leb 97 c && leb c 122
    then some (c - 71)
    else if leb 48 c && leb c 57
    then some (c - 48 + 52)
    else if c == 43
    then some 62
    else if c == 47
    then some 63
    else none

-- the pad, `=`
abbrev pub pad : ℕ
pad = 61

unfoldable pub encode64 : Bytes → Bytes
unfolding digit
encode64 [] = []
encode64 (a ∷ []) = digit (a / 4) ∷ digit (a % 4 * 16) ∷ pad ∷ pad ∷ []
encode64 (a ∷ b ∷ []) = digit (a / 4) ∷ digit (a % 4 * 16 + b / 16) ∷ digit (b % 16 * 4) ∷ pad ∷ []
encode64 (a ∷ b ∷ c ∷ rest) =
    digit (a / 4)
    ∷ digit (a % 4 * 16 + b / 16)
    ∷ digit (b % 16 * 4 + c / 64)
    ∷ digit (c % 64)
    ∷ encode64 rest

-- how far a quantum is read, with the bits that are left over
pub data Quantum : Type 0 where
  none_read : Quantum
  one_read two_read three_read : ℕ → Quantum

-- the octet that a digit completes, and the quantum after it
unfoldable pub fed : Quantum → ℕ → Option ℕ × Quantum
fed none_read v = (none, one_read v)
fed (one_read l) v = (some (l * 4 + v / 16), two_read (v % 16))
fed (two_read l) v = (some (l * 16 + v / 4), three_read (v % 4))
fed (three_read l) v = (some (l * 64 + v), none_read)

-- whether a further pad ends the data
unfoldable pub is_filled : Quantum → ℕ → Bool
is_filled none_read pads = false
is_filled (one_read _) pads = false
is_filled (two_read _) pads = leb 1 pads
is_filled (three_read _) pads = true

abbrev pub with_octet : Option ℕ → Result Bytes → Result Bytes
with_octet none rest = rest
with_octet (some x) (ok xs) = ok (x ∷ xs)
with_octet (some x) (err e) = err e

abbrev pub at_end : Quantum → Result Bytes
at_end none_read = ok []
at_end _ = err value_error

-- `pads` is the number of pads since the last digit
unfoldable pub decode_from : Quantum → ℕ → Bytes → Result Bytes
unfolding digit_value fed is_filled
decode_from q pads [] = at_end q
decode_from q pads (c ∷ cs) =
    let padded = decode_from q (pads + 1) cs in
    let skipped = decode_from q pads cs in
    if c == pad then (if is_filled q pads then ok [] else padded) else elim (digit_value c) [
      | none ↦ skipped
      | some v ↦ let (octet, next) = fed q v in with_octet octet (decode_from next 0 cs)
    ]

unfoldable pub decode64 : Bytes → Result Bytes
decode64 cs = decode_from none_read 0 cs

pub digit_value-digit : (n : ℕ) → n < 64 → digit_value (digit n) ≡ some n
unfolding digit_value digit
digit_value-digit n h = ground arith

pub digit-not_pad : (n : ℕ) → n < 64 → (digit n == pad) ≡ false
unfolding digit
digit-not_pad n h = ground arith

-- A digit feeds the quantum.
read_digit :
    (q : Quantum) (pads n : ℕ) (cs : Bytes)
    → n < 64
    → decode_from q pads (digit n ∷ cs)
      ≡ let (octet, next) = fed q n in with_octet octet (decode_from next 0 cs)
unfolding decode_from
read_digit q pads n cs h = rw (digit-not_pad n h, digit_value-digit n h)

two_pads : (l : ℕ) → decode_from (two_read l) 0 (pad ∷ pad ∷ []) ≡ ok []
unfolding decode_from is_filled
two_pads l = refl

one_pad : (l : ℕ) → decode_from (three_read l) 0 (pad ∷ []) ≡ ok []
unfolding decode_from is_filled
one_pad l = refl

no_more : decode_from none_read 0 [] ≡ ok []
unfolding decode_from
no_more = refl

alone : (a : ℕ) → a / 4 * 4 + a % 4 * 16 / 16 ≡ a
alone a = omega arith

second_alone : (a b : ℕ) → b < 256 → (a % 4 * 16 + b / 16) % 16 * 16 + b % 16 * 4 / 4 ≡ b
second_alone a b h = omega arith

first_octet : (a b : ℕ) → b < 256 → a / 4 * 4 + (a % 4 * 16 + b / 16) / 16 ≡ a
first_octet a b h = omega arith

second_octet :
    (a b c : ℕ)
    → b < 256
    → c < 256
    → (a % 4 * 16 + b / 16) % 16 * 16 + (b % 16 * 4 + c / 64) / 4 ≡ b
second_octet a b c h k = omega arith

third_octet : (b c : ℕ) → c < 256 → (b % 16 * 4 + c / 64) % 4 * 64 + c % 64 ≡ c
third_octet b c h = omega arith

-- What is encoded decodes to itself.
pub decode64-encode64 :
    (bs : Bytes) → All (λ b. b < 256) bs → decode_from none_read 0 (encode64 bs) ≡ ok bs
unfolding encode64 fed
decode64-encode64 [] h = no_more
decode64-encode64 (a ∷ []) (h, _) =
    rw
      (
        read_digit none_read 0 (a / 4) (digit (a % 4 * 16) ∷ pad ∷ pad ∷ []) (omega arith),
        read_digit (one_read (a / 4)) 0 (a % 4 * 16) (pad ∷ pad ∷ []) (omega arith),
        two_pads (a % 4 * 16 % 16),
      )
      (ap (λ x. ok (x ∷ [])) (alone a))
decode64-encode64 (a ∷ b ∷ []) (h, (k, _)) =
    rw
      (
        read_digit none_read 0 (a / 4) (digit (a % 4 * 16 + b / 16) ∷ digit (b % 16 * 4) ∷ pad ∷ [])
            (omega arith),
        read_digit (one_read (a / 4)) 0 (a % 4 * 16 + b / 16) (digit (b % 16 * 4) ∷ pad ∷ [])
            (omega arith),
        read_digit (two_read ((a % 4 * 16 + b / 16) % 16)) 0 (b % 16 * 4) (pad ∷ []) (omega arith),
        one_pad (b % 16 * 4 % 4),
      )
      (rw (first_octet a b k, second_alone a b k))
decode64-encode64 (a ∷ b ∷ c ∷ rest) (h, (k, (l, m))) =
    rw
      (
        read_digit none_read 0 (a / 4)
            (digit (a % 4 * 16 + b / 16)
              ∷ digit (b % 16 * 4 + c / 64)
              ∷ digit (c % 64)
              ∷ encode64 rest)
            (omega arith),
        read_digit (one_read (a / 4)) 0 (a % 4 * 16 + b / 16)
            (digit (b % 16 * 4 + c / 64) ∷ digit (c % 64) ∷ encode64 rest) (omega arith),
        read_digit (two_read ((a % 4 * 16 + b / 16) % 16)) 0 (b % 16 * 4 + c / 64)
            (digit (c % 64) ∷ encode64 rest) (omega arith),
        read_digit (three_read ((b % 16 * 4 + c / 64) % 4)) 0 (c % 64) (encode64 rest)
            (omega arith),
        decode64-encode64 rest m,
      )
      (rw (first_octet a b k, second_octet a b c k l, third_octet b c l))

digit-not_newline : (n : ℕ) → (digit n == 10) ≡ false
unfolding digit
digit-not_newline n = ground arith

-- An encoding is on one line.
pub encode64-one_line : (bs : Bytes) → All (λ c. (c == 10) ≡ false) (encode64 bs)
unfolding encode64
encode64-one_line [] = tt
encode64-one_line (a ∷ []) =
    (digit-not_newline (a / 4), (digit-not_newline (a % 4 * 16), (refl, (refl, tt))))
encode64-one_line (a ∷ b ∷ []) = (
  digit-not_newline (a / 4),
  (digit-not_newline (a % 4 * 16 + b / 16), (digit-not_newline (b % 16 * 4), (refl, tt))),
)
encode64-one_line (a ∷ b ∷ c ∷ rest) = (
  digit-not_newline (a / 4),
  (
    digit-not_newline (a % 4 * 16 + b / 16),
    (digit-not_newline (b % 16 * 4 + c / 64), (digit-not_newline (c % 64), encode64-one_line rest)),
  ),
)

pub encode64-some : (bs : Bytes) → is_empty bs ≡ false → is_empty (encode64 bs) ≡ false
unfolding encode64
encode64-some [] h = cc
encode64-some (a ∷ []) h = refl
encode64-some (a ∷ b ∷ []) h = refl
encode64-some (a ∷ b ∷ c ∷ rest) h = refl
