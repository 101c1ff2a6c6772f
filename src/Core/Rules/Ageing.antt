-- ===== src/Core/Rules/Ageing.antt =====
-- Time alone takes links out: what a rule other than a directive excludes, it excludes for as long
-- as the evidence stays as it is.
use pilotfish.Base.{◌≡◌, ◌≢◌, refl, true, false, none, arith, Bool-cases, Option-cases, inl, inr}
use pilotfish.Base.Int.{ℤ, ◌≤ℤ◌, ◌-ℤ◌, int_laws}
use pilotfish.Base.Text.{Text, text_eq}
use pilotfish.Core.Models.{
  Link, TrafficClass, Observation, EvidenceSnapshot, Time, latest, age_s, snapshot_age_s,
  floor_zero,
}
use pilotfish.Core.Rules.{Rule, freshness, directive, evaluate, freshness_reason}
use pilotfish.Float.{Float, float_lt, is_finite}
use pilotfish.Platform.{Platform}

abbrev pub IsDirective : Rule → Type 0
IsDirective (directive _ _ _ _) = Unit
IsDirective _ = ⊥

-- A limit below one age is below a greater one.
over_limit :
    (limit x y : Float)
    → is_finite x ≡ true
    → is_finite y ≡ true
    → float_lt y x ≡ false
    → float_lt limit (floor_zero x) ≡ true
    → float_lt limit (floor_zero y) ≡ true
over_limit limit x y fx fy h k = ground arith

minus_mono : (t t' a : ℤ) → t ≤ℤ t' → (t -ℤ a) ≤ℤ (t' -ℤ a)
minus_mono t t' a h = omega int_laws

module _ ⦃p : Platform⦄ (t t' : Time) (later : t ≤ℤ t') where
  age_over :
      (limit : Float) (o : Observation)
      → float_lt limit (age_s o t) ≡ true
      → float_lt limit (age_s o t') ≡ true
  unfolding age_s
  age_over limit o h =
      over_limit limit (p.total_seconds (t -ℤ o.at)) (p.total_seconds (t' -ℤ o.at))
        (p.total_seconds_finite _) (p.total_seconds_finite _)
        (p.total_seconds_mono (t -ℤ o.at) (t' -ℤ o.at) (minus_mono t t' o.at later)) h

  freshness_later :
      (ev : EvidenceSnapshot) (l q : Text) (limit : Float)
      → freshness_reason q limit (snapshot_age_s ev l q t) ≢ none
      → freshness_reason q limit (snapshot_age_s ev l q t') ≢ none
  unfolding freshness_reason snapshot_age_s
  freshness_later ev l q limit h k = elim (Option-cases (latest ev l q)) [
    | inl e ↦ ground arith
    | inr (o, e) ↦ ground (arith, age_over limit o)
  ]

  -- A rule other than a directive that excludes a link excludes it at every later time, on the
  -- same evidence.
  pub exclusion_persists :
      (r : Rule) (l : Link) (c : TrafficClass) (ev : EvidenceSnapshot)
      → ¬ IsDirective r
      → evaluate r l c ev t ≢ none
      → evaluate r l c ev t' ≢ none
  unfolding evaluate
  exclusion_persists (freshness _ ty q limit) l c ev n h k = elim (Bool-cases (text_eq l.type ty)) [
    | inl e ↦ freshness_later ev l.id q limit (rw e at h) (rw e at k)
    | inr e ↦ (rw e at h) refl
  ]
  exclusion_persists (directive _ _ _ _) l c ev n h k = absurd (n tt)
  exclusion_persists _ l c ev n h k = h k
