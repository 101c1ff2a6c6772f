-- ===== src/Protocol/Fields.antt =====
-- How the decoders read a decoded CBOR array: by position, so that items past the last one read
-- are ignored. An item of another type than the field's is an error here; Python keeps it. Also
-- `_ts` and `_dt`: timestamps are whole seconds on the wire.
use pilotfish.Base.{
  ℕ, zero, suc, ◌≡◌, Bool, Option, none, some, List, [], ◌∷◌, ◌&&◌, arith, if◌then◌else◌,
}
use pilotfish.Base.Int.{ℤ, pos, negsuc, leb_ℤ, ◌≤ℤ◌, scale, trunc_div}
use pilotfish.Base.Result.{Result, ok, err, type_error, index_error, value_error, ◌>>=◌, map_ok}
use pilotfish.Base.Text.{Text, Bytes}
use pilotfish.Core.Models.{Time, second}
use pilotfish.Float.{Float, of_int}
use pilotfish.Platform.{
  Value, null, boolean, int, float, string, bytes, array, to_list, to_list-items, array_of,
}

-- `f[i]`
unfoldable pub at : List Value → ℕ → Result Value
at [] i = err index_error
at (v ∷ vs) zero = ok v
at (v ∷ vs) (suc i) = at vs i

unfoldable pub as_text : Value → Result Text
as_text (string s) = ok s
as_text _ = err type_error

unfoldable pub as_int : Value → Result ℤ
as_int (int n) = ok n
as_int _ = err type_error

unfoldable pub as_bool : Value → Result Bool
as_bool (boolean b) = ok b
as_bool _ = err type_error

unfoldable pub as_bytes : Value → Result Bytes
as_bytes (bytes b) = ok b
as_bytes _ = err type_error

-- An integer stands for the float of its value.
unfoldable pub as_float : Value → Result Float
as_float (float x) = ok x
as_float (int n) = ok (of_int n)
as_float _ = err type_error

unfoldable pub as_list : Value → Result (List Value)
unfolding to_list
as_list (array vs) = ok (to_list vs)
as_list _ = err type_error

-- `None if v is None else …`
unfoldable pub as_option {ℓ} : {A : Type ℓ} → (Value → Result A) → Value → Result (Option A)
as_option f null = ok none
as_option f v = do a ← f v; ok (some a)

unfoldable pub as_texts : Value → Result (List Text)
as_texts v = do vs ← as_list v; map_ok as_text vs

-- `_ts`
unfoldable pub ts : Time → ℤ
unfolding trunc_div
ts t = trunc_div t second

-- the timestamps of the first and of the last second that a `datetime` can hold
abbrev pub first_second : ℤ
first_second = negsuc 62135596799

abbrev pub last_second : ℤ
last_second = pos 253402300799

-- `_dt`: `datetime.fromtimestamp`, which refuses years outside 1 to 9999
unfoldable pub dt : ℤ → Result Time
dt s = if leb_ℤ first_second s && leb_ℤ s last_second then ok (scale second s) else err value_error

unfoldable pub as_time : Value → Result Time
unfolding as_int dt
as_time v = do n ← as_int v; dt n

-- The time without its fraction of a second.
unfoldable pub whole : Time → Time
unfolding ts
whole t = scale second (ts t)

-- What a `datetime` holds: its second is one of the calendar's.
pub record InCalendar (t : Time) : Type 0 where
  pub after_first : first_second ≤ℤ ts t
  pub before_last : ts t ≤ℤ last_second

pub dt-ts : (t : Time) → InCalendar t → dt (ts t) ≡ ok (whole t)
unfolding dt whole
dt-ts t h = ground arith

pub ts-whole : (t : Time) → ts (whole t) ≡ ts t
unfolding whole scale
ts-whole (pos n) = ground arith
ts-whole (negsuc n) = ground arith

pub as_list-array : (vs : List Value) → as_list (array_of vs) ≡ ok vs
unfolding as_list
as_list-array vs = rw to_list-items
