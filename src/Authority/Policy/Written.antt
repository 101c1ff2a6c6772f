-- ===== src/Authority/Policy/Written.antt =====
-- A policy file that states a bundle, and what `load_bundle_json` makes of it.
use pilotfish.Base.{◌≡◌, refl, ap, Bool, Option, none, some, List, [], ◌∷◌, map, append-nil}
use pilotfish.Base.Int.{ℤ, ◌+ℤ◌, scale}
use pilotfish.Base.Lists.{All}
use pilotfish.Base.Result.{Result, ok, map_ok, map_ok-map, map_ok-inverse}
use pilotfish.Base.Text.{Text, text, text_eq}
use pilotfish.Core.Models.{Link, TrafficClass, Time, second, new_class, require_finite}
use pilotfish.Core.Rules.{
  Rule, down, max_rtt, metered, quota, freshness, jurisdiction, encryption, link_type, directive,
}
use pilotfish.Core.Bundle.{PolicyBundle}
use pilotfish.Float.{Float}
use pilotfish.Platform.{Value, null, boolean, int, float, string, bytes, array}
use pilotfish.Protocol.Messages.Rules.{
  encode_rule, IsEncodable, whole_rule, decode_rule-encode_rule,
}
use pilotfish.Authority.Json.{
  Json, Elements, Members, nothing, bool, whole, real, str, list, object, end, element, empty,
  member, elements, json_text, json_texts, scalar,
}
use pilotfish.Authority.Policy.{load_link, load_class, load_rule, load_bundle_json}

unfoldable pub to_elements : List Json → Elements
to_elements [] = end
to_elements (j ∷ js) = element j (to_elements js)

elements-to_elements : (js : List Json) → elements (to_elements js) ≡ js
unfolding elements to_elements
elements-to_elements [] = refl
elements-to_elements (j ∷ js) = ap (◌∷◌ j) (elements-to_elements js)

abbrev pub written_texts : List Text → Json
written_texts xs = list (to_elements (map str xs))

unfoldable pub written_link : Link → Json
written_link l = object (
    member (text "id") (str l.id) (
      member (text "type") (str l.type) (
        member (text "metered") (bool l.metered) (
          member (text "encrypted_below") (bool l.encrypted_below) (
            member (text "jurisdictions") (written_texts l.jurisdictions)
              (member (text "owner") (str l.owner) empty))))))

abbrev written_bound : Option Float → Json
written_bound none = nothing
written_bound (some x) = real x

-- a class's jurisdictions are left out where it has none
abbrev with_jurisdictions : Option (List Text) → Members → Members
with_jurisdictions none rest = rest
with_jurisdictions (some xs) rest = member (text "allowed_jurisdictions") (written_texts xs) rest

unfoldable pub written_class : TrafficClass → Json
written_class c = object (
    member (text "id") (str c.id) (
      member (text "max_rtt_ms") (written_bound c.max_rtt_ms) (
        member (text "allow_metered") (bool c.allow_metered) (
          with_jurisdictions c.allowed_jurisdictions
            (member (text "requires_encryption") (bool c.requires_encryption) empty)))))

-- an item of a rule's encoding
abbrev written_value : Value → Json
written_value null = nothing
written_value (boolean b) = bool b
written_value (int n) = whole n
written_value (float x) = real x
written_value (string s) = str s
written_value (bytes b) = nothing
written_value (array vs) = nothing

unfoldable pub written_rule : Rule → Json
written_rule r = list (to_elements (map written_value (encode_rule r)))

-- The file that states a bundle, with its validity in seconds.
unfoldable pub written_policy : PolicyBundle → ℤ → Json
unfolding written_link written_class written_rule
written_policy b validity_s = object (
    member (text "bundle_id") (str b.bundle_id) (
      member (text "authority_id") (str b.authority_id) (
        member (text "sequence") (whole b.sequence) (
          member (text "validity_s") (whole validity_s) (
            member (text "decision_ttl_s") (whole b.decision_ttl_s) (
              member (text "links") (list (to_elements (map written_link b.links))) (
                member (text "traffic_classes")
                  (list (to_elements (map written_class b.traffic_classes)))
                  (member (text "rules") (list (to_elements (map written_rule b.rules)))
                    empty))))))))

json_text-str : (s : Text) → json_text (str s) ≡ ok s
unfolding json_text
json_text-str s = refl

json_texts-written : (xs : List Text) → json_texts (written_texts xs) ≡ ok xs
unfolding json_texts
json_texts-written xs =
    rw (elements-to_elements (map str xs)) (map_ok-inverse json_text str json_text-str xs)

load_link-written : (l : Link) → load_link (written_link l) ≡ ok l
unfolding load_link written_link text_eq
load_link-written l = rw (json_texts-written l.jurisdictions)

-- what the constructor of a class checks
abbrev pub HasFiniteBound : TrafficClass → Type 0
HasFiniteBound c = require_finite c.max_rtt_ms ≡ ok tt

abbrev class_of : Text → Option Float → Bool → Option (List Text) → Bool → TrafficClass
class_of id rtt allow allowed required = record {
  id = id;
  max_rtt_ms = rtt;
  allow_metered = allow;
  allowed_jurisdictions = allowed;
  requires_encryption = required;
}

map_ok-written {ℓ} :
    {A B : Type 0} (f : A → Result B) (g : B → A) (P : B → Type ℓ)
    → ((b : B) → P b → f (g b) ≡ ok b)
    → (bs : List B) → All P bs
    → map_ok f (map g bs) ≡ ok bs
unfolding map_ok
map_ok-written f g P e [] ps = refl
map_ok-written f g P e (b ∷ bs) (p, ps) = rw (e b p, map_ok-written f g P e bs ps)

load_class-fields :
    (id : Text) (rtt : Option Float) (allow : Bool) (allowed : Option (List Text)) (required : Bool)
    → require_finite rtt ≡ ok tt
    → load_class (written_class (class_of id rtt allow allowed required))
      ≡ ok (class_of id rtt allow allowed required)
unfolding load_class written_class text_eq new_class
load_class-fields id none allow none required h = refl
load_class-fields id none allow (some xs) required h = rw (json_texts-written xs)
load_class-fields id (some x) allow none required h = rw h
load_class-fields id (some x) allow (some xs) required h = rw (json_texts-written xs, h)

load_class-written : (c : TrafficClass) → HasFiniteBound c → load_class (written_class c) ≡ ok c
load_class-written c h =
    load_class-fields c.id c.max_rtt_ms c.allow_metered c.allowed_jurisdictions
      c.requires_encryption h

abbrev IsScalar : Value → Type 0
IsScalar (bytes b) = ⊥
IsScalar (array vs) = ⊥
IsScalar _ = Unit

map_ok-scalar : (vs : List Value) → All IsScalar vs → map_ok scalar (map written_value vs) ≡ ok vs
unfolding map_ok scalar
map_ok-scalar [] s = refl
map_ok-scalar (null ∷ vs) (_, s) = rw (map_ok-scalar vs s)
map_ok-scalar (boolean b ∷ vs) (_, s) = rw (map_ok-scalar vs s)
map_ok-scalar (int n ∷ vs) (_, s) = rw (map_ok-scalar vs s)
map_ok-scalar (float x ∷ vs) (_, s) = rw (map_ok-scalar vs s)
map_ok-scalar (string t ∷ vs) (_, s) = rw (map_ok-scalar vs s)
map_ok-scalar (bytes b ∷ vs) (h, s) = absurd h
map_ok-scalar (array b ∷ vs) (h, s) = absurd h

encode_rule-IsScalar : (r : Rule) → All IsScalar (encode_rule r)
unfolding encode_rule
encode_rule-IsScalar (down r) = (tt, (tt, tt))
encode_rule-IsScalar (max_rtt r c) = (tt, (tt, (tt, tt)))
encode_rule-IsScalar (metered r c) = (tt, (tt, (tt, tt)))
encode_rule-IsScalar (quota r t x) = (tt, (tt, (tt, (tt, tt))))
encode_rule-IsScalar (freshness r t q x) = (tt, (tt, (tt, (tt, (tt, tt)))))
encode_rule-IsScalar (jurisdiction r c) = (tt, (tt, (tt, tt)))
encode_rule-IsScalar (encryption r c) = (tt, (tt, (tt, tt)))
encode_rule-IsScalar (link_type r t s) = (tt, (tt, (tt, (tt, tt))))
encode_rule-IsScalar (directive r l s t) = (tt, (tt, (tt, (tt, (tt, tt)))))

load_rule-written : (r : Rule) → IsEncodable r → load_rule (written_rule r) ≡ ok (whole_rule r)
unfolding load_rule written_rule
load_rule-written r h =
    rw
      (
        elements-to_elements (map written_value (encode_rule r)),
        map_ok-scalar (encode_rule r) (encode_rule-IsScalar r),
        ← append-nil (encode_rule r),
      )
      (decode_rule-encode_rule r [] h)

-- The bundle of a file that is loaded at a time.
unfoldable pub issued_at : Time → ℤ → PolicyBundle → PolicyBundle
issued_at now validity_s b = record b {
  issued_at = now;
  not_after = now +ℤ scale second validity_s;
  rules = map whole_rule b.rules;
}

-- A policy file that states a bundle loads as that bundle, issued now and valid for the stated
-- seconds, if the bounds of its classes are finite and its rules can be encoded; of the end of a
-- directive the fraction of a second is lost.
pub load_bundle_json-written_policy :
    (b : PolicyBundle) (validity_s : ℤ) (now : Time)
    → All HasFiniteBound b.traffic_classes
    → All IsEncodable b.rules
    → load_bundle_json (written_policy b validity_s) now ≡ ok (issued_at now validity_s b)
unfolding load_bundle_json written_policy text_eq issued_at
load_bundle_json-written_policy b validity_s now classes rules = rw (
  elements-to_elements (map written_link b.links),
  map_ok-inverse load_link written_link load_link-written b.links,
  elements-to_elements (map written_class b.traffic_classes),
  map_ok-written load_class written_class HasFiniteBound load_class-written b.traffic_classes
      classes,
  elements-to_elements (map written_rule b.rules),
  map_ok-map IsEncodable load_rule written_rule whole_rule load_rule-written b.rules rules,
)
