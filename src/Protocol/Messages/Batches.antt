-- ===== src/Protocol/Messages/Batches.antt =====
-- protocol/messages.py: OBSERVATION_BATCH and AUTHORITY_DIRECTIVE.
use pilotfish.Base.{◌≡◌, true, List, [], ◌∷◌, map, arith}
use pilotfish.Base.Result.{Result, ok, ◌>>=◌, map_ok-map}
use pilotfish.Base.Lists.{All}
use pilotfish.Base.Text.{Text, Bytes}
use pilotfish.Core.Models.{Observation, EvidenceSnapshot, Time, new_observation}
use pilotfish.Core.Rules.{Rule, directive}
use pilotfish.Float.{is_finite}
use pilotfish.Platform.{Platform, Value, int, float, string, array_of}
use pilotfish.Protocol.Fields.{
  at, as_text, as_float, as_time, as_list, as_list-array, ts, whole, InCalendar, dt-ts,
}
use pilotfish.Protocol.Messages.Bundles.{read_all}

pub record ObservationBatch : Type 0 where
  pub site_id : Text
  pub observations : List Observation

-- `ObservationBatch.as_snapshot`
unfoldable pub as_snapshot : ObservationBatch → EvidenceSnapshot
as_snapshot batch = record { observations = batch.observations }

unfoldable pub observation_value : Observation → Value
observation_value o =
    array_of
      (string o.link_id ∷ string o.quantity ∷ float o.value ∷ int (ts o.at) ∷ string o.source ∷ [])

unfoldable pub read_observation : Value → Result Observation
unfolding at as_text as_float as_time new_observation
read_observation v = do
  o ← as_list v
  link_id ← at o 0 >>= as_text
  quantity ← at o 1 >>= as_text
  value ← at o 2 >>= as_float
  time ← at o 3 >>= as_time
  source ← at o 4 >>= as_text
  new_observation link_id quantity value time source

pub record AuthorityDirective : Type 0 where
  pub directive_id : Text
  pub site_id : Text
  pub link_id : Text
  pub reason : Text
  pub not_after : Time

-- `AuthorityDirective.to_rule`
unfoldable pub to_rule : AuthorityDirective → Rule
to_rule d = directive d.directive_id d.link_id d.reason d.not_after

unfoldable pub directive_fields : AuthorityDirective → List Value
directive_fields d =
    string d.directive_id
    ∷ string d.site_id
    ∷ string d.link_id
    ∷ string d.reason
    ∷ int (ts d.not_after)
    ∷ []

unfoldable pub directive_of_fields : List Value → Result AuthorityDirective
unfolding at as_text as_time
directive_of_fields f = do
  directive_id ← at f 0 >>= as_text
  site_id ← at f 1 >>= as_text
  link_id ← at f 2 >>= as_text
  reason ← at f 3 >>= as_text
  not_after ← at f 4 >>= as_time
  ok (record {
    directive_id = directive_id;
    site_id = site_id;
    link_id = link_id;
    reason = reason;
    not_after = not_after;
  })

module _ ⦃p : Platform⦄ where
  unfoldable pub encode_observation_batch : ObservationBatch → Bytes
  unfolding observation_value
  encode_observation_batch batch =
      p.dumps
        (array_of (string batch.site_id ∷ array_of (map observation_value batch.observations) ∷ []))

  unfoldable pub decode_observation_batch : Bytes → Result ObservationBatch
  unfolding at as_text read_observation
  decode_observation_batch payload = do
    v ← p.loads payload
    f ← as_list v
    site_id ← at f 0 >>= as_text
    observations ← at f 1 >>= read_all read_observation
    ok (record { site_id = site_id; observations = observations })

  unfoldable pub encode_directive : AuthorityDirective → Bytes
  unfolding directive_fields
  encode_directive d = p.dumps (array_of (directive_fields d))

  unfoldable pub decode_directive : Bytes → Result AuthorityDirective
  unfolding directive_of_fields
  decode_directive payload = do v ← p.loads payload; f ← as_list v; directive_of_fields f

-- What `Observation.__post_init__` enforces, and a time that a `datetime` can hold.
pub record IsValidObservation (o : Observation) : Type 0 where
  pub finite_value : is_finite o.value ≡ true
  pub dated : InCalendar o.at

unfoldable pub whole_observation : Observation → Observation
whole_observation o = record o { at = whole o.at }

read_observation-value :
    (o : Observation)
    → IsValidObservation o
    → read_observation (observation_value o) ≡ ok (whole_observation o)
unfolding read_observation observation_value whole_observation
read_observation-value o h =
    rw
      (
        as_list-array (
            string o.link_id
            ∷ string o.quantity
            ∷ float o.value
            ∷ int (ts o.at)
            ∷ string o.source
            ∷ []),
        dt-ts o.at h.dated,
      )
      (ground (arith, h.finite_value))

read_observations :
    (os : List Observation)
    → All IsValidObservation os
    → read_all read_observation (array_of (map observation_value os))
      ≡ ok (map whole_observation os)
unfolding read_all
read_observations os h = rw (
  as_list-array (map observation_value os),
  map_ok-map IsValidObservation read_observation observation_value whole_observation
      read_observation-value os h,
)

module _ ⦃p : Platform⦄ where
  -- A batch of observations with finite values and calendar times is decoded as it was encoded, its times cut to whole seconds.
  pub decode_observation_batch-encode :
      (b : ObservationBatch)
      → All IsValidObservation b.observations
      → decode_observation_batch (encode_observation_batch b)
        ≡ ok (record b { observations = map whole_observation b.observations })
  unfolding decode_observation_batch encode_observation_batch
  decode_observation_batch-encode b h = rw (
    p.loads-dumps,
    as_list-array (string b.site_id ∷ array_of (map observation_value b.observations) ∷ []),
    read_observations b.observations h,
  )

  -- A directive whose end the calendar has is decoded as it was encoded, its end cut to a whole
  -- second.
  pub decode_directive-encode_directive :
      (d : AuthorityDirective)
      → InCalendar d.not_after
      → decode_directive (encode_directive d) ≡ ok (record d { not_after = whole d.not_after })
  unfolding decode_directive encode_directive
  decode_directive-encode_directive d h =
      rw (p.loads-dumps, as_list-array (directive_fields d), dt-ts d.not_after h)
