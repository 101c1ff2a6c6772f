-- ===== src/Protocol/Messages/Bundles.antt =====
-- protocol/messages.py: POLICY_BUNDLE and FLOOR_CONFIG, and `PolicyBundle.hash` of core/bundle.py.
use pilotfish.Base.{◌≡◌, refl, List, [], ◌∷◌, map, append-nil}
use pilotfish.Base.Result.{Result, ok, ◌>>=◌, map_ok, map_ok-map, map_ok-inverse}
use pilotfish.Base.Lists.{All}
use pilotfish.Base.Text.{Text, Bytes}
use pilotfish.Core.Models.{Link, TrafficClass, hexdigest}
use pilotfish.Core.Rules.{Rule}
use pilotfish.Core.Bundle.{PolicyBundle}
use pilotfish.Platform.{Platform, Value, int, string, bytes, array_of}
use pilotfish.Protocol.Fields.{
  at, as_text, as_int, as_bytes, as_time, as_list, as_list-array, ts, whole, InCalendar, dt-ts,
}
use pilotfish.Protocol.Messages.Rules.{
  encode_rule, decode_rule, IsEncodable, whole_rule, decode_rule-encode_rule,
}
use pilotfish.Protocol.Messages.Links.{
  encode_link, decode_link, encode_class, decode_class, IsValidClass, decode_link-encode_link,
  decode_class-encode_class,
}

unfoldable pub link_value : Link → Value
link_value l = array_of (encode_link l)

unfoldable pub class_value : TrafficClass → Value
class_value c = array_of (encode_class c)

unfoldable pub rule_value : Rule → Value
rule_value r = array_of (encode_rule r)

-- the array that `encode_bundle` encodes
unfoldable pub bundle_fields : PolicyBundle → List Value
bundle_fields b =
    string b.bundle_id
    ∷ string b.authority_id
    ∷ int b.sequence
    ∷ int (ts b.issued_at)
    ∷ int (ts b.not_after)
    ∷ int b.decision_ttl_s
    ∷ array_of (map link_value b.links)
    ∷ array_of (map class_value b.traffic_classes)
    ∷ array_of (map rule_value b.rules)
    ∷ []

unfoldable pub read_link : Value → Result Link
read_link v = do f ← as_list v; decode_link f

unfoldable pub read_class : Value → Result TrafficClass
read_class v = do f ← as_list v; decode_class f

unfoldable pub read_rule : Value → Result Rule
read_rule v = do f ← as_list v; decode_rule f

-- `tuple(decode(x) for x in v)`
unfoldable pub read_all {ℓ} : {A : Type ℓ} → (Value → Result A) → Value → Result (List A)
read_all read v = do vs ← as_list v; map_ok read vs

-- `decode_bundle` on the decoded array
unfoldable pub bundle_of_fields : List Value → Result PolicyBundle
unfolding at as_text as_int as_time
bundle_of_fields f = do
  bundle_id ← at f 0 >>= as_text
  authority_id ← at f 1 >>= as_text
  sequence ← at f 2 >>= as_int
  issued_at ← at f 3 >>= as_time
  not_after ← at f 4 >>= as_time
  ttl ← at f 5 >>= as_int
  links ← at f 6 >>= read_all read_link
  classes ← at f 7 >>= read_all read_class
  rules ← at f 8 >>= read_all read_rule
  ok (record {
    bundle_id = bundle_id;
    authority_id = authority_id;
    sequence = sequence;
    issued_at = issued_at;
    not_after = not_after;
    decision_ttl_s = ttl;
    links = links;
    traffic_classes = classes;
    rules = rules;
  })

-- What a bundle that the program built satisfies.
pub record IsWellFormed (b : PolicyBundle) : Type 0 where
  pub issued : InCalendar b.issued_at
  pub expires : InCalendar b.not_after
  pub classes : All IsValidClass b.traffic_classes
  pub rules : All IsEncodable b.rules

-- The bundle as the wire carries it: its times in whole seconds.
unfoldable pub whole_bundle : PolicyBundle → PolicyBundle
whole_bundle b = record b {
  issued_at = whole b.issued_at;
  not_after = whole b.not_after;
  rules = map whole_rule b.rules;
}

module _ ⦃p : Platform⦄ where
  unfoldable pub encode_bundle : PolicyBundle → Bytes
  unfolding bundle_fields link_value class_value rule_value
  encode_bundle b = p.dumps (array_of (bundle_fields b))

  unfoldable pub decode_bundle : Bytes → Result PolicyBundle
  unfolding bundle_of_fields read_link read_class read_rule read_all
  decode_bundle payload = do v ← p.loads payload; f ← as_list v; bundle_of_fields f

  -- `PolicyBundle.hash`
  unfoldable pub bundle_hash : PolicyBundle → Text
  bundle_hash b = hexdigest (encode_bundle b)

  unfoldable pub encode_floor_config : Text → Text → PolicyBundle → Bytes
  encode_floor_config site_id inventory_hash floor =
      p.dumps (array_of (string site_id ∷ string inventory_hash ∷ bytes (encode_bundle floor) ∷ []))

  unfoldable pub decode_floor_config : Bytes → Result (Text × Text × PolicyBundle)
  unfolding at as_text as_bytes
  decode_floor_config payload = do
    v ← p.loads payload
    f ← as_list v
    site_id ← at f 0 >>= as_text
    inventory_hash ← at f 1 >>= as_text
    inner ← at f 2 >>= as_bytes
    floor ← decode_bundle inner
    ok (site_id, inventory_hash, floor)

read_link-link_value : (l : Link) → read_link (link_value l) ≡ ok l
unfolding read_link link_value
read_link-link_value l = rw (as_list-array (encode_link l)) (decode_link-encode_link l)

read_links : (ls : List Link) → read_all read_link (array_of (map link_value ls)) ≡ ok ls
unfolding read_all
read_links ls =
    rw (
      as_list-array (map link_value ls),
      map_ok-inverse read_link link_value read_link-link_value ls,
    )

read_class-class_value : (c : TrafficClass) → IsValidClass c → read_class (class_value c) ≡ ok c
unfolding read_class class_value
read_class-class_value c h = rw (as_list-array (encode_class c)) (decode_class-encode_class c h)

map_same_class : (cs : List TrafficClass) → map (λ c. c) cs ≡ cs
map_same_class [] = refl
map_same_class (c ∷ cs) = rw (map_same_class cs)

read_classes :
    (cs : List TrafficClass)
    → All IsValidClass cs
    → read_all read_class (array_of (map class_value cs)) ≡ ok cs
unfolding read_all
read_classes cs h =
    rw
      (
        as_list-array (map class_value cs),
        map_ok-map IsValidClass read_class class_value (λ c. c) read_class-class_value cs h,
      )
      (rw (map_same_class cs))

read_rule-rule_value : (r : Rule) → IsEncodable r → read_rule (rule_value r) ≡ ok (whole_rule r)
unfolding read_rule rule_value
read_rule-rule_value r h =
    rw (as_list-array (encode_rule r)) (rw append-nil at (decode_rule-encode_rule r [] h))

read_rules :
    (rs : List Rule)
    → All IsEncodable rs
    → read_all read_rule (array_of (map rule_value rs)) ≡ ok (map whole_rule rs)
unfolding read_all
read_rules rs h = rw (
  as_list-array (map rule_value rs),
  map_ok-map IsEncodable read_rule rule_value whole_rule read_rule-rule_value rs h,
)

bundle_of_fields-bundle_fields :
    (b : PolicyBundle) → IsWellFormed b → bundle_of_fields (bundle_fields b) ≡ ok (whole_bundle b)
unfolding bundle_of_fields bundle_fields whole_bundle
bundle_of_fields-bundle_fields b h = rw (
  dt-ts b.issued_at h.issued,
  dt-ts b.not_after h.expires,
  read_links b.links,
  read_classes b.traffic_classes h.classes,
  read_rules b.rules h.rules,
)

module _ ⦃p : Platform⦄ where
  -- A well-formed bundle is decoded as it was encoded, its times cut to whole seconds.
  pub decode_bundle-encode_bundle :
      (b : PolicyBundle) → IsWellFormed b → decode_bundle (encode_bundle b) ≡ ok (whole_bundle b)
  unfolding decode_bundle encode_bundle
  decode_bundle-encode_bundle b h =
      rw (p.loads-dumps, as_list-array (bundle_fields b), bundle_of_fields-bundle_fields b h)
