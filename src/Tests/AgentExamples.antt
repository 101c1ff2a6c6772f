-- ===== src/Tests/AgentExamples.antt =====
-- The examples of agent/, authority/ and adapters/.
use pilotfish.Base.{◌≡◌, refl, true, false, none, some, [], ◌∷◌, arith, ◌⊎◌}
use pilotfish.Base.Int.{ℤ, pos, ◌+ℤ◌, ◌<ℤ◌, ◌≤ℤ◌, scale, trunc_div}
use pilotfish.Base.Result.{Error, ok, err}
use pilotfish.Base.Text.{text, Bytes, contains}
use pilotfish.Core.Bundle.{
  PolicyBundle, floor_bundle, floor_class_rules, floor_rules_of, rtt_rules, jurisdiction_rules,
  encryption_rules, link_inventory_hash,
}
use pilotfish.Protocol.Fields.{whole, ts}
use pilotfish.Protocol.Envelope.{Envelope, sign, signing_input, signed_fields, encode_envelope}
use pilotfish.Protocol.Messages.Bundles.{IsWellFormed, whole_bundle, encode_floor_config}
use pilotfish.Protocol.Messages.{msg_floor_config}
use pilotfish.Platform.{array_of}
use pilotfish.Authority.{BundleSigner, publish, sign_floor, default_nonce}
use pilotfish.Agent.Epoch.Memory.{memory_store, commit, read}
use pilotfish.Agent.BundleStore.{Store, accept, current, install_floor}
use pilotfish.Agent.BundleStore.Accept.{Passed}
use pilotfish.Agent.BundleStore.Life.{
  accept_sound, accept_refused, holding, IsSynced, Life, Event, Life-monotone, replay_refused,
}
use pilotfish.Agent.BundleStore.Delivery.{Holds, publish_accepted}
use pilotfish.Agent.BundleStore.Degraded.{current_exactly, sign_floor_installs}
use pilotfish.Tests.Toy.{toy}
use pilotfish.Tests.Data.{
  noon, later, fiber, lte, ops, ops_bundle, issuer, key, noon-InCalendar, ops_bundle-IsWellFormed,
  test_envelope,
}

abbrev signer : BundleSigner
signer = record { private_key = key; issuer = issuer }

abbrev floor : PolicyBundle
floor = floor_bundle (fiber ∷ lte ∷ []) (some noon) issuer (some (ops ∷ []))

-- a store that was started over the mark 3
abbrev started : Store ℤ
started = record {
  trusted_key = key;
  expected_issuer = issuer;
  site_id = text "site";
  floor = floor;
  bundle = none;
  epochs = pos 3;
  sequence = pos 3;
  seen_nonces = [];
}

abbrev line : Bytes
line = encode_envelope test_envelope

published : publish signer ops_bundle noon default_nonce ≡ ok line
unfolding publish sign signing_input
published = refl

on_time : whole noon ≤ℤ (later +ℤ pos 120000000)
unfolding whole ts trunc_div scale ◌+ℤ◌
on_time = omega arith

in_force_yet : later <ℤ whole ops_bundle.not_after
unfolding whole ts trunc_div scale
in_force_yet = omega arith

committed : (memory_store.commit (pos 7) (pos 3)).0 ≡ ok tt
unfolding commit
committed = refl

unseen : contains default_nonce [] ≡ false
unfolding contains
unseen = refl

publish_accepted_example :
    Holds memory_store (whole_bundle ops_bundle) (accept memory_store line later started)
publish_accepted_example =
    publish_accepted memory_store signer ops_bundle noon later default_nonce line started published
      ops_bundle-IsWellFormed noon-InCalendar refl refl refl unseen (omega arith) on_time
      in_force_yet committed

delivered : (accept memory_store line later started).0 ≡ ok (whole_bundle ops_bundle)
delivered =
    (publish_accepted memory_store signer ops_bundle noon later default_nonce line started published
      ops_bundle-IsWellFormed noon-InCalendar refl refl refl unseen (omega arith) on_time
      in_force_yet committed).0

accept_sound_example :
    (envelope : Envelope) × Passed started line later envelope (whole_bundle ops_bundle)
    × ((memory_store.commit (whole_bundle ops_bundle).sequence started.epochs).0 ≡ ok tt)
    × ((accept memory_store line later started).1
        ≡ holding memory_store started
            (memory_store.commit (whole_bundle ops_bundle).sequence started.epochs).1
            envelope
            (whole_bundle ops_bundle))
accept_sound_example =
    accept_sound memory_store started line later (whole_bundle ops_bundle) delivered

synced : memory_store.read started.epochs ≡ ok started.sequence
unfolding read
synced = refl

Life-monotone_example :
    IsSynced memory_store (accept memory_store line later started).1
    × (started.sequence ≤ℤ (accept memory_store line later started).1.sequence)
Life-monotone_example =
    Life-monotone memory_store (Life.next (Life.start started) (Event.offer started line later))
      synced

replay_refused_example :
    (x : Error) × ((accept memory_store line noon (accept memory_store line later started).1).0
      ≡ err x)
replay_refused_example =
    replay_refused memory_store started line later (whole_bundle ops_bundle)
      (accept memory_store line later started).1 noon synced delivered
      (Life.start (accept memory_store line later started).1)

abbrev second_store : Store ℤ
second_store = (accept memory_store line later started).1

replayed : (x : Error) × ((accept memory_store line noon second_store).0 ≡ err x)
replayed =
    replay_refused memory_store started line later (whole_bundle ops_bundle) second_store noon
      synced delivered (Life.start second_store)

accept_refused_example :
    ((accept memory_store line noon second_store).1
      ≡ record second_store { epochs = (accept memory_store line noon second_store).1.epochs })
    × (memory_store.read (accept memory_store line noon second_store).1.epochs
        ≡ memory_store.read second_store.epochs)
accept_refused_example = accept_refused memory_store second_store line noon replayed.0 replayed.1

current_exactly_example :
    ((b : PolicyBundle) × (started.bundle ≡ some b)
      × (later <ℤ b.not_after)
      × (current started later ≡ (b, false)))
    ⊎ ((current started later ≡ (started.floor, true))
        × ((b : PolicyBundle) → started.bundle ≡ some b → b.not_after ≤ℤ later))
current_exactly_example = current_exactly started later

floor-IsWellFormed : IsWellFormed floor
unfolding ts trunc_div floor_bundle floor_class_rules floor_rules_of rtt_rules jurisdiction_rules
    encryption_rules ◌+ℤ◌
floor-IsWellFormed = record {
  issued = record { after_first = omega arith; before_last = omega arith };
  expires = record { after_first = omega arith; before_last = omega arith };
  classes = (refl, tt);
  rules = (tt, (tt, (tt, (tt, (tt, (tt, tt))))));
}

abbrev floor_payload : Bytes
floor_payload = encode_floor_config (text "site") (link_inventory_hash (fiber ∷ lte ∷ [])) floor

abbrev floor_envelope : Envelope
floor_envelope = record {
  msg_type = msg_floor_config;
  issuer = issuer;
  issued_at = noon;
  nonce = default_nonce;
  payload = floor_payload;
  signature = toy.sign key (
      toy.dumps
        (array_of (signed_fields msg_floor_config issuer noon default_nonce floor_payload)));
}

floor_signed :
    sign_floor signer (text "site") (fiber ∷ lte ∷ []) (ops ∷ []) noon default_nonce
    ≡ ok (encode_envelope floor_envelope)
unfolding sign_floor sign signing_input
floor_signed = refl

sign_floor_installs_example :
    install_floor key issuer
      (text "site")
      (encode_envelope floor_envelope)
      (some (fiber ∷ lte ∷ []))
    ≡ ok (whole_bundle floor)
sign_floor_installs_example =
    sign_floor_installs signer (text "site") (fiber ∷ lte ∷ []) (ops ∷ []) noon default_nonce
      (encode_envelope floor_envelope) floor_signed floor-IsWellFormed noon-InCalendar
