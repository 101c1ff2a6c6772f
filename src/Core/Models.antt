-- ===== src/Core/Models.antt =====
-- core/models.py: links, observations, traffic classes and evidence snapshots. A `datetime` is
-- aware, and is the whole number of microseconds since the Unix epoch.
pub mod Newest
use pilotfish.Base.{
  ℕ, ◌*◌, ◌^◌, Bool, not, ◌&&◌, Option, none, some, List, [], ◌∷◌, map, if◌then◌else◌,
}
use pilotfish.Base.Int.{ℤ, pos, ◌+ℤ◌, ◌-ℤ◌, ltb_ℤ, leb_ℤ}
use pilotfish.Base.Lists.{filter}
use pilotfish.Base.Result.{Result, ok, value_error, raise_if, ◌>>◌}
use pilotfish.Base.Sort.{sorted}
use pilotfish.Base.Text.{Text, Bytes, text_eq, text_ord}
use pilotfish.Base.Orders.{pair_ord}
use pilotfish.Base.Hex.{hex}
use pilotfish.Float.{Float, zero_point, float_lt, is_finite, float_ord}
use pilotfish.Platform.{Platform, Value, float, string, array_of}

abbrev pub Time : Type 0
Time = ℤ

abbrev pub second : ℕ
second = 10 ^ 6

-- MAX_CLOCK_SKEW_S, in microseconds
abbrev pub max_clock_skew : ℤ
max_clock_skew = pos (120 * second)

-- A link type is a `Literal` in the source, which nothing checks at run time.
abbrev pub LinkType : Type 0
LinkType = Text

pub record Link : Type 0 where
  pub id : Text
  pub type : LinkType
  pub metered : Bool
  pub encrypted_below : Bool
  pub jurisdictions : List Text
  pub owner : Text

pub record Observation : Type 0 where
  pub link_id : Text
  pub quantity : Text
  pub value : Float
  pub at : Time
  pub source : Text

pub record TrafficClass : Type 0 where
  pub id : Text
  pub max_rtt_ms : Option Float
  pub allow_metered : Bool
  pub allowed_jurisdictions : Option (List Text)
  pub requires_encryption : Bool

pub record EvidenceSnapshot : Type 0 where
  pub observations : List Observation

-- `_require_finite`
unfoldable pub require_finite : Option Float → Result (Unit {0})
require_finite none = ok tt
require_finite (some x) = raise_if (not (is_finite x)) value_error

-- `Observation(...)`, with its `__post_init__`
unfoldable pub new_observation : Text → Text → Float → Time → Text → Result Observation
unfolding require_finite
new_observation link_id quantity value at source = do
  require_finite (some value)
  ok (record { link_id = link_id; quantity = quantity; value = value; at = at; source = source })

-- `TrafficClass(...)`, with its `__post_init__`
unfoldable pub new_class :
    Text → Option Float → Bool → Option (List Text) → Bool → Result TrafficClass
unfolding require_finite
new_class id max_rtt_ms allow_metered allowed_jurisdictions requires_encryption = do
  require_finite max_rtt_ms
  ok (record {
    id = id;
    max_rtt_ms = max_rtt_ms;
    allow_metered = allow_metered;
    allowed_jurisdictions = allowed_jurisdictions;
    requires_encryption = requires_encryption;
  })

-- `max(0.0, x)`
abbrev pub floor_zero : Float → Float
floor_zero x = if float_lt zero_point x then x else zero_point

-- Whether an observation is dated within the skew allowance.
unfoldable pub in_horizon : Time → Observation → Bool
in_horizon now o = leb_ℤ o.at (now +ℤ max_clock_skew)

-- `EvidenceSnapshot.as_of`
unfoldable pub as_of : EvidenceSnapshot → Time → EvidenceSnapshot
unfolding in_horizon
as_of evidence now = record { observations = filter (in_horizon now) evidence.observations }

-- Whether an observation is a candidate of `latest`.
unfoldable pub matches : Text → Text → Observation → Bool
matches link_id quantity o = text_eq o.link_id link_id && text_eq o.quantity quantity

-- Python's `max(candidates, key=lambda o: o.at)` from a first candidate: the earliest maximum.
unfoldable pub newest : Observation → List Observation → Observation
newest best [] = best
newest best (o ∷ os) = newest (if ltb_ℤ best.at o.at then o else best) os

unfoldable pub newest_of : List Observation → Option Observation
unfolding newest
newest_of [] = none
newest_of (o ∷ os) = some (newest o os)

-- `EvidenceSnapshot.latest`
unfoldable pub latest : EvidenceSnapshot → Text → Text → Option Observation
unfolding newest_of matches
latest evidence link_id quantity =
    newest_of (filter (matches link_id quantity) evidence.observations)

module _ ⦃p : Platform⦄ where
  -- `Observation.age_s`
  unfoldable pub age_s : Observation → Time → Float
  age_s o now = floor_zero (p.total_seconds (now -ℤ o.at))

  -- `EvidenceSnapshot.age_s`
  unfoldable pub snapshot_age_s : EvidenceSnapshot → Text → Text → Time → Option Float
  snapshot_age_s evidence link_id quantity now = elim (latest evidence link_id quantity) [
    | none ↦ none
    | some o ↦ some (age_s o now)
  ]

  -- one row of the hashed list, in the order of its fields
  abbrev pub Row : Type 0
  Row = Text × (Text × (Float × (Text × Float)))

  unfoldable pub hash_row : Observation → Row
  hash_row o = (o.link_id, (o.quantity, (p.total_seconds o.at, (o.source, o.value))))

  unfoldable pub row_value : Row → Value
  row_value (l, (q, (t, (s, v)))) =
      array_of (string l ∷ string q ∷ float t ∷ string s ∷ float v ∷ [])

  -- `hashlib.sha256(_).hexdigest()`
  unfoldable pub hexdigest : Bytes → Text
  unfolding hex
  hexdigest b = hex (p.sha256 b)

  -- `EvidenceSnapshot.hash`
  unfoldable pub evidence_hash : EvidenceSnapshot → Text
  unfolding hash_row row_value hexdigest
  evidence_hash evidence =
      hexdigest (p.dumps (array_of (map row_value (sorted (map hash_row evidence.observations)))))
