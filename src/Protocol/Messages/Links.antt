-- ===== src/Protocol/Messages/Links.antt =====
-- protocol/messages.py: links and traffic classes.
use pilotfish.Base.{◌≡◌, refl, true, Option, none, some, List, [], ◌∷◌, map, arith}
use pilotfish.Base.Result.{Result, ok, ◌>>=◌, map_ok-inverse}
use pilotfish.Base.Text.{Text}
use pilotfish.Core.Models.{Link, TrafficClass, new_class}
use pilotfish.Float.{Float, is_finite}
use pilotfish.Platform.{Value, null, boolean, float, string, array_of}
use pilotfish.Protocol.Fields.{at, as_text, as_bool, as_float, as_option, as_texts, as_list-array}

-- `list(xs)` of texts, as a value
unfoldable pub texts_value : List Text → Value
texts_value xs = array_of (map string xs)

-- `_encode_link`
unfoldable pub encode_link : Link → List Value
unfolding texts_value
encode_link link =
    string link.id
    ∷ string link.type
    ∷ boolean link.metered
    ∷ boolean link.encrypted_below
    ∷ texts_value link.jurisdictions
    ∷ string link.owner
    ∷ []

-- `_decode_link`
unfoldable pub decode_link : List Value → Result Link
unfolding at as_text as_bool
decode_link f = do
  id ← at f 0 >>= as_text
  type ← at f 1 >>= as_text
  metered ← at f 2 >>= as_bool
  encrypted ← at f 3 >>= as_bool
  js ← at f 4 >>= as_texts
  owner ← at f 5 >>= as_text
  ok (record {
    id = id;
    type = type;
    metered = metered;
    encrypted_below = encrypted;
    jurisdictions = js;
    owner = owner;
  })

unfoldable pub rtt_value : Option Float → Value
rtt_value none = null
rtt_value (some x) = float x

unfoldable pub jurisdictions_value : Option (List Text) → Value
unfolding texts_value
jurisdictions_value none = null
jurisdictions_value (some js) = texts_value js

-- `_encode_class`
unfoldable pub encode_class : TrafficClass → List Value
unfolding rtt_value jurisdictions_value
encode_class c =
    string c.id
    ∷ rtt_value c.max_rtt_ms
    ∷ boolean c.allow_metered
    ∷ jurisdictions_value c.allowed_jurisdictions
    ∷ boolean c.requires_encryption
    ∷ []

-- `_decode_class`
unfoldable pub decode_class : List Value → Result TrafficClass
unfolding at as_text as_bool new_class
decode_class f = do
  id ← at f 0 >>= as_text
  rtt ← at f 1 >>= as_option as_float
  metered ← at f 2 >>= as_bool
  js ← at f 3 >>= as_option as_texts
  encryption ← at f 4 >>= as_bool
  new_class id rtt metered js encryption

-- What `TrafficClass.__post_init__` enforces.
abbrev pub IsFiniteOption : Option Float → Type 0
IsFiniteOption none = Unit
IsFiniteOption (some x) = is_finite x ≡ true

abbrev pub IsValidClass : TrafficClass → Type 0
IsValidClass c = IsFiniteOption c.max_rtt_ms

pub as_texts-texts_value : (xs : List Text) → as_texts (texts_value xs) ≡ ok xs
unfolding as_texts texts_value
as_texts-texts_value xs =
    rw (
      as_list-array (map string xs),
      map_ok-inverse as_text string (λ x. unfold as_text in refl) xs,
    )

pub decode_link-encode_link : (l : Link) → decode_link (encode_link l) ≡ ok l
unfolding decode_link encode_link
decode_link-encode_link l = rw (as_texts-texts_value l.jurisdictions)

option_texts : (o : Option (List Text)) → as_option as_texts (jurisdictions_value o) ≡ ok o
unfolding as_option jurisdictions_value
option_texts none = refl
option_texts (some js) = rw (as_texts-texts_value js)

option_float : (o : Option Float) → as_option as_float (rtt_value o) ≡ ok o
unfolding as_option rtt_value as_float
option_float none = refl
option_float (some x) = refl

pub decode_class-encode_class :
    (c : TrafficClass) → IsValidClass c → decode_class (encode_class c) ≡ ok c
unfolding decode_class encode_class
decode_class-encode_class c h =
    ground (arith, option_texts c.allowed_jurisdictions, option_float c.max_rtt_ms)
