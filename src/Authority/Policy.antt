-- ===== src/Authority/Policy.antt =====
-- authority/signer.py: `load_bundle_json`, from the value that `json.loads` makes of the file.
pub mod Written
use pilotfish.Base.{Bool, true, false, Option, none, some, List, [], ◌∷◌}
use pilotfish.Base.Int.{ℤ, ◌+ℤ◌, scale}
use pilotfish.Base.Result.{Result, ok, err, ◌>>=◌, map_ok}
use pilotfish.Base.Text.{Text, text}
use pilotfish.Core.Models.{Link, TrafficClass, Time, second, new_class}
use pilotfish.Core.Rules.{Rule}
use pilotfish.Core.Bundle.{PolicyBundle}
use pilotfish.Protocol.Messages.Rules.{decode_rule}
use pilotfish.Authority.Json.{
  Json, field, field_or, json_text, json_bool, json_int, json_list, json_texts, json_bound, scalar,
}

unfoldable pub load_link : Json → Result Link
unfolding field field_or json_text json_bool json_texts
load_link j = do
  id ← field (text "id") j >>= json_text
  type ← field (text "type") j >>= json_text
  metered ← field_or (text "metered") false json_bool j
  encrypted ← field_or (text "encrypted_below") false json_bool j
  js ← field_or (text "jurisdictions") [] json_texts j
  owner ← field_or (text "owner") [] json_text j
  ok (record {
    id = id;
    type = type;
    metered = metered;
    encrypted_below = encrypted;
    jurisdictions = js;
    owner = owner;
  })

-- a list that is there
unfoldable pub some_texts : Json → Result (Option (List Text))
unfolding json_texts
some_texts j = do xs ← json_texts j; ok (some xs)

unfoldable pub load_class : Json → Result TrafficClass
unfolding field field_or json_text json_bool json_bound some_texts
load_class j = do
  id ← field (text "id") j >>= json_text
  rtt ← field_or (text "max_rtt_ms") none json_bound j
  allow ← field_or (text "allow_metered") true json_bool j
  allowed ← field_or (text "allowed_jurisdictions") none some_texts j
  required ← field_or (text "requires_encryption") false json_bool j
  new_class id rtt allow allowed required

unfoldable pub load_rule : Json → Result Rule
unfolding json_list scalar
load_rule j = do js ← json_list j; vs ← map_ok scalar js; decode_rule vs

-- `load_bundle_json`, at the time `now`
unfoldable pub load_bundle_json : Json → Time → Result PolicyBundle
unfolding load_link load_class load_rule json_int
load_bundle_json j now = do
  bundle_id ← field (text "bundle_id") j >>= json_text
  authority_id ← field (text "authority_id") j >>= json_text
  sequence ← field (text "sequence") j >>= json_int
  validity ← field (text "validity_s") j >>= json_int
  ttl ← field (text "decision_ttl_s") j >>= json_int
  links ← field (text "links") j >>= json_list >>= map_ok load_link
  classes ← field (text "traffic_classes") j >>= json_list >>= map_ok load_class
  rules ← field (text "rules") j >>= json_list >>= map_ok load_rule
  ok (record {
    bundle_id = bundle_id;
    authority_id = authority_id;
    sequence = sequence;
    issued_at = now;
    not_after = now +ℤ scale second validity;
    decision_ttl_s = ttl;
    links = links;
    traffic_classes = classes;
    rules = rules;
  })
