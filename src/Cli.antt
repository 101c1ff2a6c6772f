-- ===== src/Cli.antt =====
-- pilotfish/cli.py: the three commands. The content of files, the keys and the times are arguments;
-- what a command writes or prints is its result. The parsing of the arguments is left out.
pub mod Signed
use pilotfish.Base.{◌≡◌, ℕ, not, ◌==◌, List, [], ◌∷◌, ◌++◌, map}
use pilotfish.Base.Decimal.{strip}
use pilotfish.Base.Hex.{hex, from_hex}
use pilotfish.Base.Lists.{length}
use pilotfish.Base.Result.{Result, ok, err, signature_invalid, value_error, raise_if, ◌>>=◌, ◌>>◌}
use pilotfish.Base.Text.{Text, Bytes}
use pilotfish.Core.Models.{Time}
use pilotfish.Core.Bundle.{PolicyBundle}
use pilotfish.Platform.{Platform}
use pilotfish.Protocol.Envelope.{Envelope, decode_envelope, verify}
use pilotfish.Protocol.Messages.Bundles.{decode_bundle, bundle_hash}
use pilotfish.Authority.{publish, default_nonce}
use pilotfish.Authority.Json.{Json}
use pilotfish.Authority.Policy.{load_bundle_json}

-- `_read_private_key` and `_read_public_key`: a raw Ed25519 key has 32 octets
unfoldable pub read_key : Text → Result Bytes
read_key content = do
  key ← from_hex (strip content)
  raise_if (not (length key == 32)) value_error
  ok key

-- what `_keygen` writes to a key file
unfoldable pub key_file : Bytes → Text
key_file key = hex key ++ 10 ∷ []

-- what `_verify_bundle` prints of a bundle that it verified
pub record Description : Type 0 where
  pub bundle_id : Text
  pub issuer : Text
  pub hash : Text
  pub valid_until : Time
  pub links : List Text
  pub classes : List Text
  pub rules : ℕ

-- the end of `_verify_bundle`: exit code 1, or 0 with a description
pub data Verdict : Type 0 where
  refused : Verdict
  verified : Description → Verdict

-- the exit code of a verdict
unfoldable pub exit_code : Verdict → ℕ
exit_code refused = 1
exit_code (verified d) = 0

module _ ⦃p : Platform⦄ where
  -- `_keygen` of a private key: the two files
  unfoldable pub keygen : Bytes → Text × Text
  unfolding key_file
  keygen key = (key_file key, key_file (p.public_key key))

  -- `_sign_bundle`, at the times of its two calls of `now`: what it writes
  unfoldable pub sign_bundle : Json → Text → Text → Time → Time → Result Bytes
  unfolding read_key load_bundle_json
  sign_bundle policy key_content issuer loaded signed = do
    bundle ← load_bundle_json policy loaded
    key ← read_key key_content
    publish (record { private_key = key; issuer = issuer }) bundle signed default_nonce

  abbrev pub describe : PolicyBundle → Text → Description
  describe bundle issuer = record {
    bundle_id = bundle.bundle_id;
    issuer = issuer;
    hash = bundle_hash bundle;
    valid_until = bundle.not_after;
    links = map (λ l. l.id) bundle.links;
    classes = map (λ c. c.id) bundle.traffic_classes;
    rules = length bundle.rules;
  }

  -- the description of the bundle of an envelope that verified
  unfoldable pub described : Envelope → Result Verdict
  described envelope = do
    bundle ← decode_bundle envelope.payload
    ok (verified (describe bundle envelope.issuer))

  -- the `try` around `verify`: only an invalid signature is caught
  unfoldable pub judged : Result (Unit {0}) → Envelope → Result Verdict
  unfolding described
  judged (ok _) envelope = described envelope
  judged (err signature_invalid) envelope = ok refused
  judged (err e) envelope = err e

  -- `_verify_bundle`; the key file is read in the `try`
  unfoldable pub verify_bundle : Bytes → Text → Result Verdict
  unfolding read_key judged
  verify_bundle file key_content = do
    envelope ← decode_envelope file
    key ← read_key key_content
    judged (verify envelope key) envelope
