-- ===== src/Authority.antt =====
-- authority/signer.py: publishing a bundle and signing the floor policy of a site.
pub mod Json
pub mod Policy
use pilotfish.Base.{some, List}
use pilotfish.Base.Lists.{replicate}
use pilotfish.Base.Result.{Result, ok, ◌>>=◌}
use pilotfish.Base.Text.{Text, Bytes}
use pilotfish.Core.Models.{Link, TrafficClass, Time}
use pilotfish.Core.Bundle.{PolicyBundle, floor_bundle, link_inventory_hash}
use pilotfish.Platform.{Platform}
use pilotfish.Protocol.Envelope.{sign, encode_envelope}
use pilotfish.Protocol.Messages.{msg_policy_bundle, msg_floor_config}
use pilotfish.Protocol.Messages.Bundles.{encode_bundle, encode_floor_config}

pub record BundleSigner : Type 0 where
  pub private_key : Bytes
  pub issuer : Text

-- DEFAULT_NONCE
abbrev pub default_nonce : Bytes
default_nonce = replicate 16 0

module _ ⦃p : Platform⦄ where
  -- `BundleSigner.publish`
  unfoldable pub publish : BundleSigner → PolicyBundle → Time → Bytes → Result Bytes
  publish signer bundle now nonce = do
    envelope ←
        sign msg_policy_bundle signer.issuer now nonce (encode_bundle bundle) signer.private_key
    ok (encode_envelope envelope)

  unfoldable pub sign_floor :
      BundleSigner → Text → List Link → List TrafficClass → Time → Bytes → Result Bytes
  sign_floor signer site_id links classes now nonce =
      let floor = floor_bundle links (some now) signer.issuer (some classes) in
      do
        envelope ←
            sign msg_floor_config signer.issuer now nonce
              (encode_floor_config site_id (link_inventory_hash links) floor) signer.private_key
        ok (encode_envelope envelope)
