-- ===== src/Protocol/Envelope.antt =====
-- protocol/envelope.py: what is signed, the signature, and the encoding of an envelope.
use pilotfish.Base.{ℕ, ◌≡◌, not, List, [], ◌∷◌, arith, ◌==◌}
use pilotfish.Base.Lists.{length}
use pilotfish.Base.Result.{Result, ok, err, value_error, signature_invalid, raise_if, ◌>>=◌, ◌>>◌}
use pilotfish.Base.Text.{Text, Bytes}
use pilotfish.Core.Models.{Time}
use pilotfish.Platform.{
  Platform, Value, array, int, string, bytes, to_list, array_of, to_list-items,
}
use pilotfish.Protocol.Fields.{as_text, as_time, as_bytes, ts, whole, InCalendar, dt-ts, ts-whole}

abbrev pub nonce_bytes : ℕ
nonce_bytes = 16

pub record Envelope : Type 0 where
  pub msg_type : Text
  pub issuer : Text
  pub issued_at : Time
  pub nonce : Bytes
  pub payload : Bytes
  pub signature : Bytes

unfoldable pub signed_fields : Text → Text → Time → Bytes → Bytes → List Value
signed_fields msg_type issuer issued_at nonce payload =
    string msg_type ∷ string issuer ∷ int (ts issued_at) ∷ bytes nonce ∷ bytes payload ∷ []

unfoldable pub envelope_fields : Envelope → List Value
envelope_fields e =
    string e.msg_type
    ∷ string e.issuer
    ∷ int (ts e.issued_at)
    ∷ bytes e.nonce
    ∷ bytes e.payload
    ∷ bytes e.signature
    ∷ []

-- the unpacking of six fields, after the test of their number
unfoldable pub envelope_of_fields : List Value → Result Envelope
unfolding as_text as_time as_bytes
envelope_of_fields (a ∷ b ∷ c ∷ d ∷ e ∷ f ∷ []) = do
  msg_type ← as_text a
  issuer ← as_text b
  issued_at ← as_time c
  nonce ← as_bytes d
  payload ← as_bytes e
  signature ← as_bytes f
  ok (record {
    msg_type = msg_type;
    issuer = issuer;
    issued_at = issued_at;
    nonce = nonce;
    payload = payload;
    signature = signature;
  })
envelope_of_fields _ = err value_error

-- `isinstance(fields, list)`
unfoldable pub list_or_malformed : Value → Result (List Value)
list_or_malformed (array vs) = ok (to_list vs)
list_or_malformed _ = err value_error

module _ ⦃p : Platform⦄ where
  unfoldable pub signing_input : Text → Text → Time → Bytes → Bytes → Result Bytes
  unfolding signed_fields
  signing_input msg_type issuer issued_at nonce payload = do
    raise_if (not (length nonce == nonce_bytes)) value_error
    ok (p.dumps (array_of (signed_fields msg_type issuer issued_at nonce payload)))

  unfoldable pub sign : Text → Text → Time → Bytes → Bytes → Bytes → Result Envelope
  unfolding signing_input
  sign msg_type issuer issued_at nonce payload private_key = do
    material ← signing_input msg_type issuer issued_at nonce payload
    ok (record {
      msg_type = msg_type;
      issuer = issuer;
      issued_at = issued_at;
      nonce = nonce;
      payload = payload;
      signature = p.sign private_key material;
    })

  unfoldable pub verify : Envelope → Bytes → Result (Unit {0})
  unfolding signing_input
  verify e public_key = do
    material ← signing_input e.msg_type e.issuer e.issued_at e.nonce e.payload
    raise_if (not (p.verify public_key e.signature material)) signature_invalid

  unfoldable pub encode_envelope : Envelope → Bytes
  unfolding envelope_fields
  encode_envelope e = p.dumps (array_of (envelope_fields e))

  unfoldable pub decode_envelope : Bytes → Result Envelope
  unfolding envelope_of_fields list_or_malformed
  decode_envelope b = do v ← p.loads b; fields ← list_or_malformed v; envelope_of_fields fields

-- The envelope as the wire carries it: its time in whole seconds.
unfoldable pub whole_envelope : Envelope → Envelope
whole_envelope e = record e { issued_at = whole e.issued_at }

envelope_of_fields-envelope_fields :
    (e : Envelope)
    → InCalendar e.issued_at
    → envelope_of_fields (envelope_fields e) ≡ ok (whole_envelope e)
unfolding envelope_of_fields envelope_fields whole_envelope
envelope_of_fields-envelope_fields e h = rw (dt-ts e.issued_at h)

module _ ⦃p : Platform⦄ where
  -- An envelope whose time the calendar has is decoded as it was encoded, its time cut to whole
  -- seconds.
  pub decode_envelope-encode_envelope :
      (e : Envelope)
      → InCalendar e.issued_at
      → decode_envelope (encode_envelope e) ≡ ok (whole_envelope e)
  unfolding decode_envelope encode_envelope list_or_malformed
  decode_envelope-encode_envelope e h =
      rw (p.loads-dumps, to_list-items (envelope_fields e), envelope_of_fields-envelope_fields e h)

  signing_input-whole :
      (m i : Text) (t : Time) (n pl : Bytes)
      → signing_input m i (whole t) n pl ≡ signing_input m i t n pl
  unfolding signing_input
  signing_input-whole m i t n pl = rw (ts-whole t)

  -- An envelope verifies as well after a trip over the wire as before it, under every key.
  pub verify-whole : (e : Envelope) (k : Bytes) → verify (whole_envelope e) k ≡ verify e k
  unfolding verify whole_envelope
  verify-whole e k = rw (signing_input-whole e.msg_type e.issuer e.issued_at e.nonce e.payload)

  -- What a key signed verifies under its public key.
  pub sign_verifies :
      (m i : Text) (t : Time) (n pl k : Bytes) (e : Envelope)
      → sign m i t n pl k ≡ ok e
      → verify e (p.public_key k) ≡ ok tt
  unfolding sign verify
  sign_verifies m i t n pl k e h =
      ground (arith, p.verify-sign k (p.dumps (array_of (signed_fields m i t n pl))))
