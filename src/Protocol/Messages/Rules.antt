-- ===== src/Protocol/Messages/Rules.antt =====
-- protocol/messages.py: rules as tagged arrays. An unknown tag is fatal.
use pilotfish.Base.{◌≡◌, refl, true, Option, none, some, List, [], ◌∷◌, ◌++◌, arith, if◌then◌else◌}
use pilotfish.Base.Result.{Result, ok, err, value_error, type_error, unknown_rule_kind, ◌>>=◌}
use pilotfish.Base.Text.{Text, text, text_eq}
use pilotfish.Core.Rules.{
  Rule, down, max_rtt, metered, quota, freshness, jurisdiction, encryption, link_type, directive,
  new_quota, new_freshness,
}
use pilotfish.Float.{is_finite}
use pilotfish.Platform.{Value, int, float, string, array}
use pilotfish.Protocol.Fields.{at, as_text, as_float, as_time, ts, whole, InCalendar, dt-ts}

unfoldable pub encode_rule : Rule → List Value
encode_rule (down r) = string (text "down") ∷ string r ∷ []
encode_rule (max_rtt r c) = string (text "max_rtt") ∷ string r ∷ string c ∷ []
encode_rule (metered r c) = string (text "metered") ∷ string r ∷ string c ∷ []
encode_rule (quota r t x) = string (text "quota") ∷ string r ∷ string t ∷ float x ∷ []
encode_rule (freshness r t q x) =
    string (text "freshness") ∷ string r ∷ string t ∷ string q ∷ float x ∷ []
encode_rule (jurisdiction r c) = string (text "jurisdiction") ∷ string r ∷ string c ∷ []
encode_rule (encryption r c) = string (text "encryption") ∷ string r ∷ string c ∷ []
encode_rule (link_type r t s) = string (text "link_type") ∷ string r ∷ string t ∷ string s ∷ []
encode_rule (directive r l s t) =
    string (text "directive") ∷ string r ∷ string l ∷ string s ∷ int (ts t) ∷ []

-- the entries of `_RULE_DECODERS`
unfoldable pub decode_down : List Value → Result Rule
unfolding at as_text
decode_down f = do r ← at f 0 >>= as_text; ok (down r)

unfoldable pub decode_two : (Text → Text → Rule) → List Value → Result Rule
unfolding at as_text
decode_two rule f = do r ← at f 0 >>= as_text; c ← at f 1 >>= as_text; ok (rule r c)

unfoldable pub decode_quota : List Value → Result Rule
unfolding at as_text as_float new_quota
decode_quota f = do
  r ← at f 0 >>= as_text
  t ← at f 1 >>= as_text
  x ← at f 2 >>= as_float
  new_quota r t x

unfoldable pub decode_freshness : List Value → Result Rule
unfolding at as_text as_float new_freshness
decode_freshness f = do
  r ← at f 0 >>= as_text
  t ← at f 1 >>= as_text
  q ← at f 2 >>= as_text
  x ← at f 3 >>= as_float
  new_freshness r t q x

unfoldable pub decode_link_type : List Value → Result Rule
unfolding at as_text
decode_link_type f = do
  r ← at f 0 >>= as_text
  t ← at f 1 >>= as_text
  s ← at f 2 >>= as_text
  ok (link_type r t s)

unfoldable pub decode_directive_rule : List Value → Result Rule
unfolding at as_text as_time
decode_directive_rule f = do
  r ← at f 0 >>= as_text
  l ← at f 1 >>= as_text
  s ← at f 2 >>= as_text
  t ← at f 3 >>= as_time
  ok (directive r l s t)

-- `_RULE_DECODERS.get(kind)`
unfoldable pub rule_decoder : Text → Option (List Value → Result Rule)
unfolding decode_down decode_two decode_quota decode_freshness decode_link_type
    decode_directive_rule text_eq
rule_decoder kind =
    if text_eq kind (text "down")
    then some decode_down
    else if text_eq kind (text "max_rtt")
    then some (decode_two max_rtt)
    else if text_eq kind (text "metered")
    then some (decode_two metered)
    else if text_eq kind (text "quota")
    then some decode_quota
    else if text_eq kind (text "freshness")
    then some decode_freshness
    else if text_eq kind (text "jurisdiction")
    then some (decode_two jurisdiction)
    else if text_eq kind (text "encryption")
    then some (decode_two encryption)
    else if text_eq kind (text "link_type")
    then some decode_link_type
    else if text_eq kind (text "directive")
    then some decode_directive_rule
    else none

unfoldable pub run_decoder : Option (List Value → Result Rule) → List Value → Result Rule
run_decoder none rest = err unknown_rule_kind
run_decoder (some decoder) rest = decoder rest

-- A list is no key of a `dict`, and any other value that is not a known tag is unknown.
unfoldable pub decode_rule : List Value → Result Rule
unfolding rule_decoder run_decoder
decode_rule [] = err value_error
decode_rule (string kind ∷ rest) = run_decoder (rule_decoder kind) rest
decode_rule (array _ ∷ rest) = err type_error
decode_rule (_ ∷ rest) = err unknown_rule_kind

-- What the constructors of the source enforce, and a time that a `datetime` can hold.
abbrev pub IsEncodable : Rule → Type 0
IsEncodable (quota _ _ x) = is_finite x ≡ true
IsEncodable (freshness _ _ _ x) = is_finite x ≡ true
IsEncodable (directive _ _ _ t) = InCalendar t
IsEncodable _ = Unit

-- The rule as the wire carries it: its times in whole seconds.
unfoldable pub whole_rule : Rule → Rule
whole_rule (directive r l s t) = directive r l s (whole t)
whole_rule r = r

-- A rule with finite limits and a calendar end survives its encoding, but for the fraction of a
-- second of a directive's end; what follows the fields in the array is ignored.
pub decode_rule-encode_rule :
    (r : Rule) (extra : List Value)
    → IsEncodable r
    → decode_rule (encode_rule r ++ extra) ≡ ok (whole_rule r)
unfolding decode_rule encode_rule whole_rule
decode_rule-encode_rule (down r) extra h = refl
decode_rule-encode_rule (quota r t x) extra h = ground arith
decode_rule-encode_rule (freshness r t q x) extra h = ground arith
decode_rule-encode_rule (directive r l s t) extra h = ground (arith, dt-ts t h)
decode_rule-encode_rule _ extra h = refl
