-- ===== src/Agent/BundleStore/Delivery.antt =====
-- A bundle that the authority publishes reaches the store: authority/signer.py and
-- agent/bundle_store.py together.
use pilotfish.Base.{some, ◌≡◌, refl, sym, ap, subst, ◌∙◌, false, arith}
use pilotfish.Base.Int.{ℤ, ◌+ℤ◌, leb_ℤ, ltb_ℤ, ◌<ℤ◌, ◌≤ℤ◌}
use pilotfish.Base.Result.{Result, ok, err, >>=-eq-ok}
use pilotfish.Base.Text.{Text, Bytes, text_eq_refl, contains}
use pilotfish.Core.Models.{Time, max_clock_skew}
use pilotfish.Core.Bundle.{PolicyBundle}
use pilotfish.Platform.{Platform}
use pilotfish.Protocol.Fields.{whole, InCalendar}
use pilotfish.Protocol.Envelope.{
  Envelope, sign, signing_input, verify, encode_envelope, decode_envelope, whole_envelope,
  decode_envelope-encode_envelope, verify-whole, sign_verifies,
}
use pilotfish.Protocol.Messages.{msg_policy_bundle}
use pilotfish.Protocol.Messages.Bundles.{
  decode_bundle, encode_bundle, IsWellFormed, whole_bundle, decode_bundle-encode_bundle,
}
use pilotfish.Authority.{BundleSigner, publish}
use pilotfish.Agent.Epoch.{EpochStore}
use pilotfish.Agent.BundleStore.{
  Store, check_envelope, check_bundle, checked, accept, installed, expired,
}

not_lt-ltb : (a b : ℤ) → b ≤ℤ a → ltb_ℤ a b ≡ false
not_lt-ltb a b h = ground arith

not_le-leb : (a b : ℤ) → b <ℤ a → leb_ℤ a b ≡ false
not_le-leb a b h = ground arith

module _ ⦃p : Platform⦄ where
  signed_envelope : Text → Text → Time → Bytes → Bytes → Bytes → Bytes → Envelope
  signed_envelope m i t n pl k material = record {
    msg_type = m;
    issuer = i;
    issued_at = t;
    nonce = n;
    payload = pl;
    signature = p.sign k material;
  }

  sign-fields :
      (m i : Text) (t : Time) (n pl k : Bytes) (e : Envelope)
      → sign m i t n pl k ≡ ok e
      → (material : Bytes) × (e ≡ signed_envelope m i t n pl k material)
  unfolding sign signed_envelope
  sign-fields m i t n pl k e h =
      let (material, done, h1) = >>=-eq-ok (signing_input m i t n pl) _ h in (material, cc)

  module _ {S : Type 0} (s : Store S) (e : Envelope) (b : PolicyBundle) (now : Time) where
    check_envelope-passes :
        e.msg_type ≡ msg_policy_bundle
        → e.issuer ≡ s.expected_issuer
        → e.issued_at ≤ℤ (now +ℤ max_clock_skew)
        → verify e s.trusted_key ≡ ok tt
        → contains e.nonce s.seen_nonces ≡ false
        → check_envelope s e now ≡ ok tt
    unfolding check_envelope
    check_envelope-passes kind issuer time signed fresh = rw (
      signed,
      fresh,
      kind,
      issuer,
      text_eq_refl msg_policy_bundle,
      text_eq_refl s.expected_issuer,
      not_lt-ltb (now +ℤ max_clock_skew) e.issued_at time,
    )

    check_bundle-passes :
        b.authority_id ≡ s.expected_issuer
        → s.sequence <ℤ b.sequence
        → now <ℤ whole b.not_after
        → check_bundle s (whole_bundle b) now ≡ ok tt
    unfolding check_bundle whole_bundle expired
    check_bundle-passes authority newer alive = rw (
      authority,
      text_eq_refl s.expected_issuer,
      not_le-leb b.sequence s.sequence newer,
      not_le-leb (whole b.not_after) now alive,
    )

  pub signed-whole :
      (m i : Text) (t : Time) (n pl k : Bytes) (e : Envelope)
      → sign m i t n pl k ≡ ok e
      → verify (whole_envelope e) (p.public_key k) ≡ ok tt
  signed-whole m i t n pl k e h = verify-whole e (p.public_key k) ∙ sign_verifies m i t n pl k e h

  pub encoded-decoded :
      (m i : Text) (t : Time) (n pl k : Bytes) (e : Envelope)
      → sign m i t n pl k ≡ ok e
      → InCalendar t
      → decode_envelope (encode_envelope e) ≡ ok (whole_envelope e)
  unfolding signed_envelope
  encoded-decoded m i t n pl k e h cal =
      let (material, same) = sign-fields m i t n pl k e h in
      decode_envelope-encode_envelope e (subst InCalendar (sym (ap (λ x. x.issued_at) same)) cal)

  pub publish-signs :
      (signer : BundleSigner) (bundle : PolicyBundle) (t : Time) (nonce out : Bytes)
      → publish signer bundle t nonce ≡ ok out
      → (e : Envelope) × (sign msg_policy_bundle signer.issuer t nonce
            (encode_bundle bundle)
            signer.private_key
          ≡ ok e)
        × (out ≡ encode_envelope e)
  unfolding publish
  publish-signs signer bundle t nonce out h =
      let (e, done, h1) =
        >>=-eq-ok
          (sign msg_policy_bundle signer.issuer t nonce (encode_bundle bundle) signer.private_key) _
          h in
      (e, done, cc)

  pub whole-fields :
      (m i : Text) (t : Time) (n pl k : Bytes) (e : Envelope)
      → sign m i t n pl k ≡ ok e
      → ((whole_envelope e).msg_type ≡ m)
        × ((whole_envelope e).issuer ≡ i)
        × ((whole_envelope e).issued_at ≡ whole t)
        × ((whole_envelope e).nonce ≡ n)
        × ((whole_envelope e).payload ≡ pl)
  unfolding signed_envelope whole_envelope
  whole-fields m i t n pl k e h =
      let (material, same) = sign-fields m i t n pl k e h in
      (
        ap (λ x. x.msg_type) same,
        ap (λ x. x.issuer) same,
        ap (λ x. whole x.issued_at) same,
        ap (λ x. x.nonce) same,
        ap (λ x. x.payload) same,
      )

  module _ {S : Type 0} (store : EpochStore S) where
    -- Accept returned the bundle, and the store holds it as its bundle and its mark.
    abbrev pub Holds : PolicyBundle → Result PolicyBundle × Store S → Type 0
    Holds b c = (c.0 ≡ ok b) × (c.1.bundle ≡ some b) × (c.1.sequence ≡ b.sequence)

    installed-done :
        (s : Store S) (e : Envelope) (b : PolicyBundle) (c : Result (Unit {0}) × S)
        → c.0 ≡ ok tt
        → Holds b (installed store s e b c)
    installed-done s e b (ok _, epochs) h = (refl, refl, refl)
    installed-done s e b (err x, epochs) h = absurd (cc)

    accept-from :
        (s : Store S) (bytes : Bytes) (e : Envelope) (b : PolicyBundle) (now : Time)
        → decode_envelope bytes ≡ ok e
        → check_envelope s e now ≡ ok tt
        → decode_bundle e.payload ≡ ok b
        → check_bundle s b now ≡ ok tt
        → (store.commit b.sequence s.epochs).0 ≡ ok tt
        → Holds b (accept store bytes now s)
    unfolding accept checked
    accept-from s bytes e b now d c d' c' k = rw (d, c, d', c') (installed-done s e b _ k)

    -- A store that trusts the signer's key and issuer accepts what the signer publishes, and then
    -- holds it, to the second, as its bundle and its mark: if the bundle is well-formed, names the
    -- issuer as its authority, is newer than the mark and has not expired, if the envelope was not
    -- stamped further ahead than the clock skew, its nonce is new and its time is the calendar's,
    -- and if the epoch store takes the mark. The time at which the bundle itself says that it was
    -- issued plays no part.
    pub publish_accepted :
        (signer : BundleSigner) (bundle : PolicyBundle) (t now : Time) (nonce out : Bytes)
        (s : Store S)
        → publish signer bundle t nonce ≡ ok out
        → IsWellFormed bundle
        → InCalendar t
        → s.trusted_key ≡ p.public_key signer.private_key
        → s.expected_issuer ≡ signer.issuer
        → bundle.authority_id ≡ signer.issuer
        → contains nonce s.seen_nonces ≡ false
        → s.sequence <ℤ bundle.sequence
        → whole t ≤ℤ (now +ℤ max_clock_skew)
        → now <ℤ whole bundle.not_after
        → (store.commit bundle.sequence s.epochs).0 ≡ ok tt
        → Holds (whole_bundle bundle) (accept store out now s)
    unfolding whole_bundle
    publish_accepted signer bundle t now nonce out s h good cal key issuer authority fresh newer
          time alive done =
        let (e, signs, enc) = publish-signs signer bundle t nonce out h in
        let (m, i, at, n, pl) =
          whole-fields msg_policy_bundle signer.issuer t nonce (encode_bundle bundle)
            signer.private_key e signs in
        rw enc (
          accept-from s (encode_envelope e) (whole_envelope e) (whole_bundle bundle) now
            (encoded-decoded msg_policy_bundle signer.issuer t nonce (encode_bundle bundle)
              signer.private_key e signs cal)
            (check_envelope-passes s (whole_envelope e) (whole_bundle bundle) now m (i ∙ sym issuer)
              (subst (λ x. x ≤ℤ (now +ℤ max_clock_skew)) (sym at) time)
              (rw key (
                signed-whole msg_policy_bundle signer.issuer t nonce (encode_bundle bundle)
                  signer.private_key e signs))
              (subst (λ x. contains x s.seen_nonces ≡ false) (sym n) fresh))
            (rw pl (decode_bundle-encode_bundle bundle good))
            (check_bundle-passes s e bundle now (authority ∙ sym issuer) newer alive) done)
