-- ===== src/Authority/Json.antt =====
-- The values that `json.loads` returns, and how Python reads them: an object is a dictionary, whose
-- later keys have replaced earlier ones.
use pilotfish.Base.{Bool, Option, none, some, List, [], ◌∷◌, if◌then◌else◌}
use pilotfish.Base.Int.{ℤ}
use pilotfish.Base.Result.{Result, ok, err, key_error, type_error, ◌>>=◌, map_ok}
use pilotfish.Base.Text.{Text, text_eq}
use pilotfish.Float.{Float, of_int}
use pilotfish.Platform.{Value, null, boolean, int, float, string}

mutual
  pub data Json : Type 0 where
    nothing : Json
    bool : Bool → Json
    whole : ℤ → Json
    real : Float → Json
    str : Text → Json
    list : Elements → Json
    object : Members → Json

  pub data Elements : Type 0 where
    end : Elements
    element : Json → Elements → Elements

  pub data Members : Type 0 where
    empty : Members
    member : Text → Json → Members → Members

unfoldable pub elements : Elements → List Json
elements end = []
elements (element j js) = j ∷ elements js

-- `d.get(k)` on the members of an object
unfoldable pub get_member : Text → Members → Option Json
get_member k empty = none
get_member k (member j v rest) = if text_eq j k then some v else get_member k rest

unfoldable pub present : Option Json → Result Json
present none = err key_error
present (some v) = ok v

-- `d[k]`
unfoldable pub field : Text → Json → Result Json
unfolding present get_member
field k (object members) = present (get_member k members)
field k _ = err type_error

-- what a reader makes of the value under a key, and a default where there is none
unfoldable pub read_or {ℓ} : {A : Type ℓ} → A → (Json → Result A) → Option Json → Result A
read_or default read none = ok default
read_or default read (some v) = read v

-- `d.get(k, default)`
unfoldable pub field_or {ℓ} : {A : Type ℓ} → Text → A → (Json → Result A) → Json → Result A
unfolding read_or get_member
field_or k default read (object members) = read_or default read (get_member k members)
field_or k default read _ = err type_error

-- the readers: a value of another type, which Python would keep, is an error of the model
unfoldable pub json_text : Json → Result Text
json_text (str s) = ok s
json_text _ = err type_error

unfoldable pub json_bool : Json → Result Bool
json_bool (bool b) = ok b
json_bool _ = err type_error

unfoldable pub json_int : Json → Result ℤ
json_int (whole n) = ok n
json_int _ = err type_error

unfoldable pub json_float : Json → Result Float
json_float (whole n) = ok (of_int n)
json_float (real x) = ok x
json_float _ = err type_error

unfoldable pub json_list : Json → Result (List Json)
unfolding elements
json_list (list js) = ok (elements js)
json_list _ = err type_error

unfoldable pub json_texts : Json → Result (List Text)
unfolding json_list json_text
json_texts j = do js ← json_list j; map_ok json_text js

-- `None` or a number
unfoldable pub json_bound : Json → Result (Option Float)
unfolding json_float
json_bound nothing = ok none
json_bound j = do x ← json_float j; ok (some x)

-- An item of a rule, as the decoder of rules reads it: no rule holds a list or an object.
unfoldable pub scalar : Json → Result Value
scalar nothing = ok null
scalar (bool b) = ok (boolean b)
scalar (whole n) = ok (int n)
scalar (real x) = ok (float x)
scalar (str s) = ok (string s)
scalar _ = err type_error
