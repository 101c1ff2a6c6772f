-- ===== src/Agent/BundleStore/Degraded.antt =====
-- What policy a site is under: the floor that the authority signed for it, where no bundle is in force.
use pilotfish.Base.{
  ◌≡◌, sym, subst, ◌∙◌, true, false, Option, some, List, [], ◌∷◌, arith, Bool-cases, Option-cases,
  inl, inr, ◌⊎◌,
}
use pilotfish.Base.Int.{ℤ, leb_ℤ, ◌<ℤ◌, ◌≤ℤ◌}
use pilotfish.Base.Result.{ok, >>=-eq-ok}
use pilotfish.Base.Text.{Text, Bytes, text_eq_refl}
use pilotfish.Core.Models.{Link, TrafficClass, Time}
use pilotfish.Core.Bundle.{PolicyBundle, floor_bundle, link_inventory_hash}
use pilotfish.Platform.{Platform, string, bytes}
use pilotfish.Protocol.Fields.{at, InCalendar, as_list-array}
use pilotfish.Protocol.Envelope.{
  Envelope, sign, verify, encode_envelope, decode_envelope, whole_envelope,
}
use pilotfish.Protocol.Messages.{msg_floor_config}
use pilotfish.Protocol.Messages.Bundles.{
  encode_bundle, IsWellFormed, whole_bundle, decode_bundle-encode_bundle, encode_floor_config,
  decode_floor_config,
}
use pilotfish.Authority.{BundleSigner, sign_floor}
use pilotfish.Agent.BundleStore.{Store, install_floor, current, expired}
use pilotfish.Agent.BundleStore.Delivery.{signed-whole, encoded-decoded, whole-fields}

is_le : (a b : ℤ) → leb_ℤ a b ≡ true → a ≤ℤ b
is_le a b h = ground arith

not_le : (a b : ℤ) → leb_ℤ a b ≡ false → b <ℤ a
not_le a b h = ground arith

-- The policy in force is the accepted bundle up to its expiry, and otherwise, with the flag that
-- says so, the floor.
pub current_exactly :
    {S : Type 0} (s : Store S) (now : Time)
    → ((b : PolicyBundle) × (s.bundle ≡ some b)
        × (now <ℤ b.not_after)
        × (current s now ≡ (b, false)))
      ⊎ ((current s now ≡ (s.floor, true))
          × ((b : PolicyBundle) → s.bundle ≡ some b → b.not_after ≤ℤ now))
unfolding current expired
current_exactly s now = elim (Option-cases s.bundle) [
  | inl e ↦ inr (rw e, λ b h. absurd (cc))
  | inr (b, e) ↦ elim (Bool-cases (leb_ℤ b.not_after now)) [
    | inl late ↦ inr (
      rw (e, late),
      λ b' h.
          let same : ◌≡◌ {A = Option PolicyBundle} (some b) (some b') = sym e ∙ h in
          let same' : b ≡ b' = cc in
          subst (λ x. x.not_after ≤ℤ now) same' (is_le b.not_after now late),
    )
    | inr early ↦ inl (b, e, not_le b.not_after now early, rw (e, early))
  ]
]

module _ ⦃p : Platform⦄ where
  decode_floor_config-encode :
      (site hash : Text) (b : PolicyBundle)
      → IsWellFormed b
      → decode_floor_config (encode_floor_config site hash b) ≡ ok (site, hash, whole_bundle b)
  unfolding decode_floor_config encode_floor_config
  decode_floor_config-encode site hash b good = rw (
    p.loads-dumps,
    as_list-array (string site ∷ string hash ∷ bytes (encode_bundle b) ∷ []),
    decode_bundle-encode_bundle b good,
  )

  floor_of : BundleSigner → List Link → List TrafficClass → Time → PolicyBundle
  floor_of signer links classes now = floor_bundle links (some now) signer.issuer (some classes)

  sign_floor-signs :
      (signer : BundleSigner) (site : Text) (links : List Link) (classes : List TrafficClass)
      (t : Time) (nonce out : Bytes)
      → sign_floor signer site links classes t nonce ≡ ok out
      → (e : Envelope) × (sign msg_floor_config signer.issuer t nonce
            (encode_floor_config site (link_inventory_hash links) (floor_of signer links classes t))
            signer.private_key
          ≡ ok e)
        × (out ≡ encode_envelope e)
  unfolding sign_floor floor_of
  sign_floor-signs signer site links classes t nonce out h =
      let (e, done, h1) =
        >>=-eq-ok
          (sign msg_floor_config signer.issuer t nonce
            (encode_floor_config site (link_inventory_hash links) (floor_of signer links classes t))
            signer.private_key)
          _ h in
      (e, done, cc)

  install_floor-from :
      (key : Bytes) (issuer site : Text) (out : Bytes) (links : List Link) (e : Envelope)
      (floor : PolicyBundle)
      → decode_envelope out ≡ ok e
      → e.msg_type ≡ msg_floor_config
      → e.issuer ≡ issuer
      → verify e key ≡ ok tt
      → decode_floor_config e.payload ≡ ok (site, link_inventory_hash links, floor)
      → install_floor key issuer site out (some links) ≡ ok floor
  unfolding install_floor
  install_floor-from key issuer site out links e floor d m i v c = rw (
    d,
    v,
    c,
    m,
    i,
    text_eq_refl msg_floor_config,
    text_eq_refl issuer,
    text_eq_refl site,
    text_eq_refl (link_inventory_hash links),
  )

  -- A floor policy that the authority signs for a site and its links is installed there, if it is
  -- well-formed, its time is the calendar's and the site trusts the signer's key and issuer.
  pub sign_floor_installs :
      (signer : BundleSigner) (site : Text) (links : List Link) (classes : List TrafficClass)
      (t : Time) (nonce out : Bytes)
      → sign_floor signer site links classes t nonce ≡ ok out
      → IsWellFormed (floor_bundle links (some t) signer.issuer (some classes))
      → InCalendar t
      → install_floor (p.public_key signer.private_key) signer.issuer site out (some links)
        ≡ ok (whole_bundle (floor_bundle links (some t) signer.issuer (some classes)))
  unfolding floor_of
  sign_floor_installs signer site links classes t nonce out h good cal =
      let floor = floor_of signer links classes t in
      let hash = link_inventory_hash links in
      let payload = encode_floor_config site hash floor in
      let (e, signs, enc) = sign_floor-signs signer site links classes t nonce out h in
      let (m, i, at, n, pl) =
        whole-fields msg_floor_config signer.issuer t nonce payload signer.private_key e signs in
      rw enc (
        install_floor-from (p.public_key signer.private_key) signer.issuer site (encode_envelope e)
          links (whole_envelope e) (whole_bundle floor)
          (encoded-decoded msg_floor_config signer.issuer t nonce payload signer.private_key e signs
            cal)
          m i
          (signed-whole msg_floor_config signer.issuer t nonce payload signer.private_key e signs)
          (rw pl (decode_floor_config-encode site hash floor good)))
