-- ===== src/Cli/Signed.antt =====
-- What one command writes, the next one reads: keygen, sign-bundle and verify-bundle together.
use pilotfish.Base.{ℕ, subst, ◌≡◌, ◌≢◌, ◌<◌, ◌/◌, ◌%◌, [], ◌∷◌, arith}
use pilotfish.Base.Decimal.Laws.{IsPlain, strip-newline}
use pilotfish.Base.Hex.{hex, hex_digit, from_hex-hex}
use pilotfish.Base.Lists.{All, length}
use pilotfish.Base.Result.{ok}
use pilotfish.Base.Text.{Text, Bytes}
use pilotfish.Core.Models.{Time}
use pilotfish.Core.Bundle.{PolicyBundle}
use pilotfish.Platform.{Platform}
use pilotfish.Protocol.Envelope.{Envelope, verify, decode_envelope, encode_envelope, whole_envelope}
use pilotfish.Protocol.Fields.{InCalendar}
use pilotfish.Protocol.Messages.{msg_policy_bundle}
use pilotfish.Protocol.Messages.Bundles.{
  IsWellFormed, whole_bundle, encode_bundle, decode_bundle, decode_bundle-encode_bundle,
}
use pilotfish.Agent.BundleStore.Delivery.{
  publish-signs, signed-whole, encoded-decoded, whole-fields,
}
use pilotfish.Authority.{BundleSigner, default_nonce}
use pilotfish.Authority.Json.{Json}
use pilotfish.Authority.Policy.{load_bundle_json}
use pilotfish.Cli.{
  read_key, key_file, keygen, sign_bundle, verify_bundle, verified, describe, judged, described,
}

-- The octets of a raw key.
pub record IsKey (key : Bytes) : Type 0 where
  pub octets : All (λ b. b < 256) key
  pub size : length key ≡ 32

hex_digit-IsPlain : (d : ℕ) → d < 16 → IsPlain (hex_digit d)
unfolding hex_digit
hex_digit-IsPlain d h = ground arith

hex-IsPlain : (bs : Bytes) → All (λ b. b < 256) bs → All IsPlain (hex bs)
unfolding hex
hex-IsPlain [] h = tt
hex-IsPlain (b ∷ bs) (first, h) = (
  hex_digit-IsPlain (b / 16) (omega arith),
  (hex_digit-IsPlain (b % 16) (omega arith), hex-IsPlain bs h),
)

hex-ne-nil : (bs : Bytes) → length bs ≡ 32 → hex bs ≢ []
unfolding hex
hex-ne-nil [] h e = absurd (omega arith)
hex-ne-nil (b ∷ bs) h e = cc

-- A key is read back from the file that it was written to.
pub read_key-key_file : (key : Bytes) → IsKey key → read_key (key_file key) ≡ ok key
unfolding read_key key_file
read_key-key_file key k = rw (
  strip-newline (hex key) (hex-IsPlain key k.octets) (hex-ne-nil key k.size),
  from_hex-hex key k.octets,
  k.size,
)

module _ ⦃p : Platform⦄ where
  verify_bundle-verified :
      (file : Bytes) (envelope : Envelope) (content : Text) (key : Bytes) (bundle : PolicyBundle)
      → decode_envelope file ≡ ok envelope
      → read_key content ≡ ok key
      → verify envelope key ≡ ok tt
      → decode_bundle envelope.payload ≡ ok bundle
      → verify_bundle file content ≡ ok (verified (describe bundle envelope.issuer))
  unfolding verify_bundle judged described
  verify_bundle-verified file envelope content key bundle d k v b = rw (d, k, v, b)

  -- What sign-bundle writes with the private key that keygen wrote, verify-bundle accepts with the
  -- public key that keygen wrote, and it describes the bundle that the policy file states, its times
  -- cut to whole seconds; if that bundle is well-formed and its times are the calendar's.
  pub verify_bundle-sign_bundle :
      (key : Bytes) (policy : Json) (issuer : Text) (loaded signed : Time) (bundle : PolicyBundle)
      (file : Bytes)
      → IsKey key
      → IsKey (p.public_key key)
      → load_bundle_json policy loaded ≡ ok bundle
      → IsWellFormed bundle
      → InCalendar signed
      → sign_bundle policy (keygen key).0 issuer loaded signed ≡ ok file
      → verify_bundle file (keygen key).1 ≡ ok (verified (describe (whole_bundle bundle) issuer))
  unfolding sign_bundle keygen
  verify_bundle-sign_bundle key policy issuer loaded signed bundle file k k' stated good cal h =
      let h1 = rw (stated, read_key-key_file key k) at h in
      let signer : BundleSigner = record { private_key = key; issuer = issuer } in
      let (e, signs, enc) = publish-signs signer bundle signed default_nonce file h1 in
      let (m, i, at, n, pl) =
        whole-fields msg_policy_bundle issuer signed default_nonce (encode_bundle bundle) key e
          signs in
      subst
        (λ name.
          verify_bundle file (key_file (p.public_key key))
          ≡ ok (verified (describe (whole_bundle bundle) name)))
        i
        (rw enc (
          verify_bundle-verified (encode_envelope e) (whole_envelope e)
            (key_file (p.public_key key)) (p.public_key key) (whole_bundle bundle)
            (encoded-decoded msg_policy_bundle issuer signed default_nonce (encode_bundle bundle)
              key e signs cal)
            (read_key-key_file (p.public_key key) k')
            (signed-whole msg_policy_bundle issuer signed default_nonce (encode_bundle bundle) key e
              signs)
            (rw pl (decode_bundle-encode_bundle bundle good))))
