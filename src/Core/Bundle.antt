-- ===== src/Core/Bundle.antt =====
-- core/bundle.py: policy bundles, the link inventory hash and the floor policy. The hash of a
-- bundle is in Protocol/Messages/Bundles, beside the encoding that it is a hash of.
use pilotfish.Base.{
  ℕ, ◌*◌, Bool, false, Option, none, some, List, [], ◌∷◌, ◌++◌, map, if◌then◌else◌,
}
use pilotfish.Base.Int.{ℤ, pos, ◌+ℤ◌}
use pilotfish.Base.Orders.{bool_ord, pair_ord, list_ord}
use pilotfish.Base.Sort.{sorted}
use pilotfish.Base.Text.{Text, text, text_ord}
use pilotfish.Core.Models.{Link, TrafficClass, Time, second, hexdigest}
use pilotfish.Core.Rules.{Rule, down, max_rtt, metered, jurisdiction, encryption, link_type}
use pilotfish.Float.{Float}
use pilotfish.Platform.{Platform, Value, boolean, string, array_of}

pub record PolicyBundle : Type 0 where
  pub bundle_id : Text
  pub authority_id : Text
  pub sequence : ℤ
  pub issued_at : Time
  pub not_after : Time
  pub decision_ttl_s : ℤ
  pub links : List Link
  pub traffic_classes : List TrafficClass
  pub rules : List Rule

-- `PolicyBundle.with_rules`
unfoldable pub with_rules : PolicyBundle → List Rule → PolicyBundle
with_rules bundle rules = record bundle { rules = rules }

abbrev pub floor_bundle_id : Text
floor_bundle_id = text "floor"

-- One row of the inventory, in the order of its fields.
abbrev pub InventoryRow : Type 0
InventoryRow = Text × (Text × (Bool × (Bool × List Text)))

unfoldable pub inventory_row : Link → InventoryRow
inventory_row link =
    (link.id, (link.type, (link.metered, (link.encrypted_below, link.jurisdictions))))

unfoldable pub inventory_value : InventoryRow → Value
inventory_value (i, (t, (m, (e, js)))) =
    array_of (string i ∷ string t ∷ boolean m ∷ boolean e ∷ array_of (map string js) ∷ [])

module _ ⦃p : Platform⦄ where
  unfoldable pub link_inventory_hash : List Link → Text
  unfolding inventory_row inventory_value hexdigest
  link_inventory_hash links =
      hexdigest (p.dumps (array_of (map inventory_value (sorted (map inventory_row links)))))

-- the three conditional appends of `_floor_class_rules`
unfoldable pub rtt_rules : Option Float → Text → List Rule
rtt_rules none id = []
rtt_rules (some _) id = max_rtt (text "FLOOR-RTT-" ++ id) id ∷ []

unfoldable pub jurisdiction_rules : Option (List Text) → Text → List Rule
jurisdiction_rules none id = []
jurisdiction_rules (some _) id = jurisdiction (text "FLOOR-JUR-" ++ id) id ∷ []

unfoldable pub encryption_rules : Bool → Text → List Rule
encryption_rules required id = if required then encryption (text "FLOOR-ENC-" ++ id) id ∷ [] else []

-- The rules that one class adds to the floor.
unfoldable pub floor_rules_of : TrafficClass → List Rule
floor_rules_of c =
    metered (text "FLOOR-METER-" ++ c.id) c.id
    ∷ (rtt_rules c.max_rtt_ms c.id
        ++ (jurisdiction_rules c.allowed_jurisdictions c.id
            ++ encryption_rules c.requires_encryption c.id))

-- `_floor_class_rules`
unfoldable pub floor_class_rules : List TrafficClass → List Rule
floor_class_rules [] = []
floor_class_rules (c ∷ cs) = floor_rules_of c ++ floor_class_rules cs

-- `TrafficClass(id="default", allow_metered=False)`
abbrev pub default_class : TrafficClass
default_class = record {
  id = text "default";
  max_rtt_ms = none;
  allow_metered = false;
  allowed_jurisdictions = none;
  requires_encryption = false;
}

-- `traffic_classes or (default,)`: an empty tuple is false too
abbrev pub classes_or_default : Option (List TrafficClass) → List TrafficClass
classes_or_default none = default_class ∷ []
classes_or_default (some []) = default_class ∷ []
classes_or_default (some (c ∷ cs)) = c ∷ cs

-- `now or datetime.fromtimestamp(0)`
abbrev pub time_or_epoch : Option Time → Time
time_or_epoch none = pos 0
time_or_epoch (some t) = t

abbrev pub days : ℕ → ℤ
days n = pos (n * (86400 * second))

unfoldable pub floor_bundle :
    List Link → Option Time → Text → Option (List TrafficClass) → PolicyBundle
floor_bundle links now authority_id traffic_classes =
    let issued = time_or_epoch now in
    let classes = classes_or_default traffic_classes in
    record {
      bundle_id = floor_bundle_id;
      authority_id = authority_id;
      sequence = pos 0;
      issued_at = issued;
      not_after = issued +ℤ days 3650;
      decision_ttl_s = pos 60;
      links = links;
      traffic_classes = classes;
      rules =
          down (text "FLOOR-DOWN")
          ∷ link_type (text "FLOOR-FSO") (text "fso")
              (text "floor policy refuses free-space optics without an authority")
          ∷ floor_class_rules classes;
    }
