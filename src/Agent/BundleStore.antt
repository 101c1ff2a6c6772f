-- ===== src/Agent/BundleStore.antt =====
-- agent/bundle_store.py: the policy that a site is under. The epoch store is the store's own
-- object, held in its state; every method returns that state with its result.
pub mod Accept
pub mod Life
pub mod Delivery
pub mod Degraded
use pilotfish.Base.{Bool, true, false, not, Option, none, some, List, [], ◌∷◌, if◌then◌else◌}
use pilotfish.Base.Int.{ℤ, ◌+ℤ◌, leb_ℤ, ltb_ℤ}
use pilotfish.Base.Result.{
  Result, ok, err, bundle_unverified, bundle_expired, epoch_unreadable, raise_if, catch_all,
  catch_signature, ◌>>=◌, ◌>>◌,
}
use pilotfish.Base.Text.{Text, Bytes, text_eq, contains}
use pilotfish.Core.Models.{Link, Time, max_clock_skew}
use pilotfish.Core.Bundle.{PolicyBundle, link_inventory_hash}
use pilotfish.Platform.{Platform}
use pilotfish.Protocol.Envelope.{Envelope, decode_envelope, verify}
use pilotfish.Protocol.Messages.{msg_policy_bundle, msg_floor_config}
use pilotfish.Protocol.Messages.Bundles.{decode_bundle, decode_floor_config}
use pilotfish.Agent.Epoch.{EpochStore}

-- a `BundleStore` whose epoch store holds `S`
pub record Store (S : Type 0) : Type 0 where
  pub trusted_key : Bytes
  pub expected_issuer : Text
  pub site_id : Text
  pub floor : PolicyBundle
  pub bundle : Option PolicyBundle
  pub epochs : S
  pub sequence : ℤ
  pub seen_nonces : List Bytes

-- `floor_links if floor_links is not None else floor.links`
abbrev pub actual_links : Option (List Link) → PolicyBundle → List Link
actual_links none floor = floor.links
actual_links (some links) floor = links

-- `except EpochUnreadable`: any other exception passes through
abbrev pub catch_unreadable : Result ℤ → Result ℤ
catch_unreadable (ok n) = ok n
catch_unreadable (err epoch_unreadable) = err bundle_unverified
catch_unreadable (err e) = err e

-- `now >= bundle.not_after`
unfoldable pub expired : PolicyBundle → Time → Bool
expired bundle now = leb_ℤ bundle.not_after now

module _ ⦃p : Platform⦄ where
  -- `_install_floor`
  unfoldable pub install_floor :
      Bytes → Text → Text → Bytes → Option (List Link) → Result PolicyBundle
  install_floor trusted_key expected_issuer site_id signed_floor floor_links = do
    envelope ← catch_all (decode_envelope signed_floor) bundle_unverified
    raise_if (not (text_eq envelope.msg_type msg_floor_config)) bundle_unverified
    raise_if (not (text_eq envelope.issuer expected_issuer)) bundle_unverified
    catch_signature (verify envelope trusted_key) bundle_unverified
    (floor_site, inventory_hash, floor) ← decode_floor_config envelope.payload
    raise_if (not (text_eq floor_site site_id)) bundle_unverified
    raise_if (not (text_eq (link_inventory_hash (actual_links floor_links floor)) inventory_hash))
        bundle_unverified
    ok floor

  -- the tests of `accept` down to the one of the nonce, on the decoded envelope
  unfoldable pub check_envelope : {S : Type 0} → Store S → Envelope → Time → Result (Unit {0})
  check_envelope s envelope now = do
    raise_if (not (text_eq envelope.msg_type msg_policy_bundle)) bundle_unverified
    raise_if (not (text_eq envelope.issuer s.expected_issuer)) bundle_unverified
    raise_if (ltb_ℤ (now +ℤ max_clock_skew) envelope.issued_at) bundle_unverified
    catch_signature (verify envelope s.trusted_key) bundle_unverified
    raise_if (contains envelope.nonce s.seen_nonces) bundle_unverified

  -- the tests of `accept` on the decoded bundle
  unfoldable pub check_bundle : {S : Type 0} → Store S → PolicyBundle → Time → Result (Unit {0})
  unfolding expired
  check_bundle s bundle now = do
    raise_if (not (text_eq bundle.authority_id s.expected_issuer)) bundle_unverified
    raise_if (leb_ℤ bundle.sequence s.sequence) bundle_unverified
    raise_if (expired bundle now) bundle_expired

  -- `accept` down to the commit: the envelope and the bundle that passed every test
  unfoldable pub checked : {S : Type 0} → Store S → Bytes → Time → Result (Envelope × PolicyBundle)
  checked s envelope_bytes now = do
    envelope ← decode_envelope envelope_bytes
    check_envelope s envelope now
    bundle ← decode_bundle envelope.payload
    check_bundle s bundle now
    ok (envelope, bundle)

  module _ {S : Type 0} (store : EpochStore S) where
    -- `BundleStore(...)`
    unfoldable pub new_store :
        Bytes → Text → Text → Bytes → S → Option (List Link) → Result (Store S)
    unfolding install_floor
    new_store trusted_key expected_issuer site_id signed_floor epochs floor_links = do
      floor ← install_floor trusted_key expected_issuer site_id signed_floor floor_links
      sequence ← catch_unreadable (store.read epochs)
      ok (record {
        trusted_key = trusted_key;
        expected_issuer = expected_issuer;
        site_id = site_id;
        floor = floor;
        bundle = none;
        epochs = epochs;
        sequence = sequence;
        seen_nonces = [];
      })

    -- the end of `accept`, after the commit of the mark
    abbrev pub installed :
        Store S → Envelope → PolicyBundle → Result (Unit {0}) × S → Result PolicyBundle × Store S
    installed s envelope bundle (err e, epochs) = (err e, record s { epochs = epochs })
    installed s envelope bundle (ok _, epochs) = (
      ok bundle,
      record s {
        epochs = epochs;
        seen_nonces = envelope.nonce ∷ s.seen_nonces;
        bundle = some bundle;
        sequence = bundle.sequence;
      },
    )

    abbrev pub commit_checked :
        Store S → Result (Envelope × PolicyBundle) → Result PolicyBundle × Store S
    commit_checked s (err e) = (err e, s)
    commit_checked s (ok (envelope, bundle)) =
        installed s envelope bundle (store.commit bundle.sequence s.epochs)

    -- `BundleStore.accept`
    unfoldable pub accept : Bytes → Time → Store S → Result PolicyBundle × Store S
    accept envelope_bytes now s = commit_checked s (checked s envelope_bytes now)

-- `BundleStore.current`: the bundle in force, and whether the site runs degraded
unfoldable pub current : {S : Type 0} → Store S → Time → PolicyBundle × Bool
unfolding expired
current s now = elim s.bundle [
  | none ↦ (s.floor, true)
  | some bundle ↦ if expired bundle now then (s.floor, true) else (bundle, false)
]
