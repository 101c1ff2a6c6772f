-- ===== src/Agent/BundleStore/Accept.antt =====
-- What `accept` lets in, and what it leaves alone.
use pilotfish.Base.{◌≡◌, refl, Bool, true, false, not, arith, subst}
use pilotfish.Base.Int.{ℤ, ◌+ℤ◌, leb_ℤ, ltb_ℤ, ◌<ℤ◌, ◌≤ℤ◌}
use pilotfish.Base.Result.{
  passed, passed_last, then-ok, Result, Error, ok, err, bundle_unverified, bundle_expired, ◌>>◌,
  catch_signature, >>=-eq-ok,
}
use pilotfish.Base.Text.{Bytes, text_eq, contains}
use pilotfish.Core.Models.{Time, max_clock_skew}
use pilotfish.Core.Bundle.{PolicyBundle}
use pilotfish.Platform.{Platform}
use pilotfish.Protocol.Envelope.{Envelope, decode_envelope, verify}
use pilotfish.Protocol.Messages.{msg_policy_bundle}
use pilotfish.Protocol.Messages.Bundles.{decode_bundle}
use pilotfish.Agent.BundleStore.{Store, check_envelope, check_bundle, checked, expired}

not_lt : (a b : ℤ) → ltb_ℤ a b ≡ false → b ≤ℤ a
not_lt a b h = ground arith

not_le : (a b : ℤ) → leb_ℤ a b ≡ false → b <ℤ a
not_le a b h = ground arith

signed-ok {ℓ} :
    {A : Type ℓ} (r : Result (Unit {0})) (e : Error) (k : Result A) {a : A}
    → (catch_signature r e >> k) ≡ ok a
    → (r ≡ ok tt) × (k ≡ ok a)
signed-ok (ok _) e k h = (refl, h)
signed-ok (err x) e k h = ground arith

not-false : (c : Bool) → not c ≡ false → c ≡ true
not-false true h = cc
not-false false h = cc

module _ ⦃p : Platform⦄ {S : Type 0} where
  -- What an envelope and the bundle in it satisfy where every test of `accept` passed.
  pub record Passed (s : Store S) (b : Bytes) (now : Time) (envelope : Envelope)
      (bundle : PolicyBundle) : Type 0 where
    pub carried : decode_envelope b ≡ ok envelope
    pub payload : decode_bundle envelope.payload ≡ ok bundle
    pub kind : text_eq envelope.msg_type msg_policy_bundle ≡ true
    pub issuer : text_eq envelope.issuer s.expected_issuer ≡ true
    pub authority : text_eq bundle.authority_id s.expected_issuer ≡ true
    pub signed : verify envelope s.trusted_key ≡ ok tt
    pub fresh_nonce : contains envelope.nonce s.seen_nonces ≡ false
    pub newer : s.sequence <ℤ bundle.sequence
    pub not_future : envelope.issued_at ≤ℤ (now +ℤ max_clock_skew)
    pub unexpired : now <ℤ bundle.not_after

  check_envelope-ok :
      (s : Store S) (e : Envelope) (now : Time)
      → check_envelope s e now ≡ ok tt
      → (text_eq e.msg_type msg_policy_bundle ≡ true)
        × (text_eq e.issuer s.expected_issuer ≡ true)
        × (e.issued_at ≤ℤ (now +ℤ max_clock_skew))
        × (verify e s.trusted_key ≡ ok tt)
        × (contains e.nonce s.seen_nonces ≡ false)
  unfolding check_envelope
  check_envelope-ok s e now h =
      let (kind, h1) = passed (not (text_eq e.msg_type msg_policy_bundle)) bundle_unverified _ h in
      let (issuer, h2) = passed (not (text_eq e.issuer s.expected_issuer)) bundle_unverified _ h1 in
      let (time, h3) = passed (ltb_ℤ (now +ℤ max_clock_skew) e.issued_at) bundle_unverified _ h2 in
      let (signed, h4) = signed-ok (verify e s.trusted_key) bundle_unverified _ h3 in
      (
        not-false _ kind,
        not-false _ issuer,
        not_lt (now +ℤ max_clock_skew) e.issued_at time,
        signed,
        passed_last (contains e.nonce s.seen_nonces) bundle_unverified h4,
      )

  check_bundle-ok :
      (s : Store S) (b : PolicyBundle) (now : Time)
      → check_bundle s b now ≡ ok tt
      → (text_eq b.authority_id s.expected_issuer ≡ true)
        × (s.sequence <ℤ b.sequence)
        × (now <ℤ b.not_after)
  unfolding check_bundle expired
  check_bundle-ok s b now h =
      let (authority, h1) =
        passed (not (text_eq b.authority_id s.expected_issuer)) bundle_unverified _ h in
      let (newer, h2) = passed (leb_ℤ b.sequence s.sequence) bundle_unverified _ h1 in
      (
        not-false _ authority,
        not_le b.sequence s.sequence newer,
        not_le b.not_after now (passed_last (leb_ℤ b.not_after now) bundle_expired h2),
      )

  pub checked-Passed :
      (s : Store S) (b : Bytes) (now : Time) (envelope : Envelope) (bundle : PolicyBundle)
      → checked s b now ≡ ok (envelope, bundle)
      → Passed s b now envelope bundle
  unfolding checked
  checked-Passed s b now envelope bundle h =
      let (envelope', carried, h1) = >>=-eq-ok (decode_envelope b) _ h in
      let (tested, h2) = then-ok (check_envelope s envelope' now) _ h1 in
      let (bundle', payload, h3) = >>=-eq-ok (decode_bundle envelope'.payload) _ h2 in
      let (tested', h4) = then-ok (check_bundle s bundle' now) (ok (envelope', bundle')) h3 in
      let (kind, issuer, time, signed, nonce) = check_envelope-ok s envelope' now tested in
      let (authority, newer, alive) = check_bundle-ok s bundle' now tested' in
      let same : ◌≡◌ {A = Envelope × PolicyBundle} (envelope', bundle') (envelope, bundle) = cc in
      subst (λ w. Passed s b now w.0 w.1) same
        (record {
          carried = carried;
          payload = payload;
          kind = kind;
          issuer = issuer;
          authority = authority;
          signed = signed;
          fresh_nonce = nonce;
          newer = newer;
          not_future = time;
          unexpired = alive;
        })
