-- ===== src/Sim/Selectors/Governed/Guards.antt =====
-- Rules that guard a class: a link that they admit keeps what the oracle of sim/metrics.py asks of
-- the link itself.
use pilotfish.Base.{
  ◌≡◌, refl, true, false, not, ◌&&◌, Option, none, some, List, [], ◌∷◌, Option-cases, inl, inr, ◌⊎◌,
  arith,
}
use pilotfish.Base.Text.{Text, text_eq_iff}
use pilotfish.Core.Models.{Link, TrafficClass, EvidenceSnapshot, Time}
use pilotfish.Core.Rules.{
  Rule, evaluate, metered, jurisdiction, encryption, metered_reason, jurisdiction_reason,
  encryption_reason,
}
use pilotfish.Core.Decide.Permitted.{admits, is_none}
use pilotfish.Platform.{Platform}
use pilotfish.Sim.Metrics.{static_broken, leaves}

-- A rule of the list, by recursion.
abbrev pub Has : Rule → List Rule → Type 0
Has r [] = ⊥
Has r (x ∷ xs) = (r ≡ x) ⊎ Has r xs

-- The rules guard a class: what it requires, one of them checks.
pub record IsGuarded (rules : List Rule) (c : TrafficClass) : Type 0 where
  pub metering : (c.allow_metered ≡ true) ⊎ ((id : Text) × Has (metered id c.id) rules)
  pub borders : (c.allowed_jurisdictions ≡ none) ⊎ ((id : Text) × Has (jurisdiction id c.id) rules)
  pub secrecy : (c.requires_encryption ≡ false) ⊎ ((id : Text) × Has (encryption id c.id) rules)

no_reason : (o : Option Text) → is_none o ≡ true → o ≡ none
no_reason none h = refl
no_reason (some r) h = cc

module _ ⦃p : Platform⦄ (c : TrafficClass) (ev : EvidenceSnapshot) (now : Time) where
  admits-Has :
      (rs : List Rule) (r : Rule) (l : Link)
      → admits c ev now rs l ≡ true
      → Has r rs
      → evaluate r l c ev now ≡ none
  unfolding admits
  admits-Has [] r l h has = absurd has
  admits-Has (x ∷ xs) r l h (inl e) = rw e (no_reason (evaluate x l c ev now) (ground arith))
  admits-Has (x ∷ xs) r l h (inr has) = admits-Has xs r l (ground arith) has

  metered_met :
      (id : Text) (l : Link)
      → evaluate (metered id c.id) l c ev now ≡ none
      → c.allow_metered ≡ false
      → l.metered ≡ false
  unfolding evaluate metered_reason
  metered_met id l h no_metered = ground (arith, text_eq_iff c.id c.id)

  jurisdiction_met :
      (id : Text) (l : Link) (allowed : List Text)
      → evaluate (jurisdiction id c.id) l c ev now ≡ none
      → c.allowed_jurisdictions ≡ some allowed
      → leaves (some allowed) l.jurisdictions ≡ false
  unfolding evaluate jurisdiction_reason leaves
  jurisdiction_met id l allowed h limited = ground (arith, text_eq_iff c.id c.id)

  encryption_met :
      (id : Text) (l : Link)
      → evaluate (encryption id c.id) l c ev now ≡ none
      → c.requires_encryption ≡ true
      → l.encrypted_below ≡ true
  unfolding evaluate encryption_reason
  encryption_met id l h required = ground (arith, text_eq_iff c.id c.id)

  module _ (rs : List Rule) (l : Link) (guarded : IsGuarded rs c)
      (admitted : admits c ev now rs l ≡ true) where
    metering_kept : (not c.allow_metered && l.metered) ≡ false
    metering_kept = elim guarded.metering [
      | inl e ↦ ground arith
      | inr (id, has) ↦
          let met = metered_met id l (admits-Has rs (metered id c.id) l admitted has) in
          ground (arith, met)
    ]

    borders_kept : leaves c.allowed_jurisdictions l.jurisdictions ≡ false
    borders_kept = elim (Option-cases c.allowed_jurisdictions) [
      | inl e ↦ unfold leaves in rw e
      | inr (allowed, e) ↦ elim guarded.borders [
        | inl nowhere ↦ absurd (cc)
        | inr (id, has) ↦
            rw e (
              jurisdiction_met id l allowed (admits-Has rs (jurisdiction id c.id) l admitted has) e)
      ]
    ]

    secrecy_kept : (c.requires_encryption && not l.encrypted_below) ≡ false
    secrecy_kept = elim guarded.secrecy [
      | inl e ↦ ground arith
      | inr (id, has) ↦
          let met = encryption_met id l (admits-Has rs (encryption id c.id) l admitted has) in
          ground (arith, met)
    ]

    -- A link that no rule excludes breaks no static requirement of a guarded class.
    pub admits-static_broken : static_broken c l ≡ []
    unfolding static_broken
    admits-static_broken = rw (metering_kept, borders_kept, secrecy_kept)
