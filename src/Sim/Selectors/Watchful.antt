-- ===== src/Sim/Selectors/Watchful.antt =====
-- The four selectors choose only links that they observe up.
use pilotfish.Base.{
  ◌≡◌, refl, ap, subst, Bool, true, false, not, Option, none, some, List, [], ◌∷◌, if◌then◌else◌,
  Option-cases, inl, inr,
}
use pilotfish.Base.Dict.{Dict, keys}
use pilotfish.Base.Lists.{All}
use pilotfish.Base.Result.{Result, ok, ok-injective, >>=-eq-ok}
use pilotfish.Base.Text.{Text, text_ord}
use pilotfish.Core.Models.{EvidenceSnapshot, TrafficClass}
use pilotfish.Core.Bundle.{PolicyBundle}
use pilotfish.Core.Decide.{EligibilityDecision, permitted_for}
use pilotfish.Float.{Float, float_ge}
use pilotfish.Platform.{Platform}
use pilotfish.Agent.Cycle.{run_once}
use pilotfish.Adapters.MemorySink.{memory_sink}
use pilotfish.Adapters.Noop.{noop}
use pilotfish.Sim.Metrics.{Choices}
use pilotfish.Sim.Selectors.{
  SelectorContext, Held, best_by_rtt, first_up, for_every, greedy, greedy_call, static_priority,
  static_call, hold, held_is_live, hysteresis, hysteresis_call, choice_eq, elapsed,
}
use pilotfish.Sim.Selectors.Best.{IsBest, best_by_rtt-IsBest, first_up-observed_up}
use pilotfish.Sim.Selectors.Governed.{offered, choose, refresh_if, governed_call, governed}
use pilotfish.Sim.Selectors.Observed.{IsWatchful, ChosenUp}

module _ (ev : EvidenceSnapshot) where
  IsBest-ChosenUp :
      (candidates : List Text) (choice : Option Text)
      → IsBest ev candidates choice
      → ChosenUp ev choice
  IsBest-ChosenUp candidates none best = tt
  IsBest-ChosenUp candidates (some l) (_, up, _) = up

  pub best_by_rtt-ChosenUp : (candidates : List Text) → ChosenUp ev (best_by_rtt ev candidates)
  best_by_rtt-ChosenUp candidates =
      IsBest-ChosenUp candidates (best_by_rtt ev candidates) (best_by_rtt-IsBest ev candidates)

  for_every-ChosenUp :
      (choice : Option Text) (classes : Dict TrafficClass)
      → ChosenUp ev choice
      → All (λ kc. ChosenUp ev kc.1) (for_every choice classes)
  for_every-ChosenUp choice [] up = tt
  for_every-ChosenUp choice (c ∷ cs) up = (up, for_every-ChosenUp choice cs up)

  first_up-ChosenUp : (order : List Text) → ChosenUp ev (first_up ev order)
  first_up-ChosenUp order = elim (Option-cases (first_up ev order)) [
    | inl e ↦ rw e tt
    | inr (l, e) ↦ rw e (first_up-observed_up ev order l e)
  ]

  choose-ChosenUp :
      (decision : EligibilityDecision) (classes : List Text)
      → All (λ kc. ChosenUp ev kc.1) (choose ev decision classes)
  unfolding choose
  choose-ChosenUp decision [] = tt
  choose-ChosenUp decision (c ∷ cs) = (
    best_by_rtt-ChosenUp (offered decision.classes (permitted_for decision c)),
    choose-ChosenUp decision cs,
  )

chosen :
    {S : Type 0} (made choices : Choices) (s s' : S)
    → ◌≡◌ {A = Result (Choices × S)} (ok (made, s)) (ok (choices, s'))
    → made ≡ choices
chosen made choices s s' h = ap (λ cs. cs.0) (ok-injective h)

pub greedy-IsWatchful : IsWatchful greedy
unfolding greedy_call
greedy-IsWatchful ctx s s' choices h =
    subst (All λ kc. ChosenUp ctx.evidence kc.1) (chosen _ choices _ s' h)
      (for_every-ChosenUp ctx.evidence _ ctx.classes (best_by_rtt-ChosenUp ctx.evidence _))

pub static_priority-IsWatchful : (order : List Text) → IsWatchful (static_priority order)
unfolding static_call
static_priority-IsWatchful order ctx s s' choices h =
    subst (All λ kc. ChosenUp ctx.evidence kc.1) (chosen _ choices _ s' h)
      (for_every-ChosenUp ctx.evidence _ ctx.classes (first_up-ChosenUp ctx.evidence order))

live-ChosenUp :
    (ev : EvidenceSnapshot) (choice : Option Text)
    → held_is_live ev choice ≡ true
    → ChosenUp ev choice
live-ChosenUp ev none h = tt
live-ChosenUp ev (some l) h = h

if-ChosenUp :
    (ev : EvidenceSnapshot) (b : Bool) (x y : Held)
    → ChosenUp ev x.current
    → ChosenUp ev y.current
    → ChosenUp ev (if b then x else y).current
if-ChosenUp ev true x y up up' = up
if-ChosenUp ev false x y up up' = up'

if_not-ChosenUp :
    (ev : EvidenceSnapshot) (b : Bool) (x y : Held)
    → ChosenUp ev x.current
    → (b ≡ true → ChosenUp ev y.current)
    → ChosenUp ev (if not b then x else y).current
if_not-ChosenUp ev true x y up up' = up' refl
if_not-ChosenUp ev false x y up up' = up

module _ ⦃p : Platform⦄ where
  -- Hysteresis holds the best link, or the one that it held, if that is live.
  hold-ChosenUp :
      (dwell_s : Float) (ctx : SelectorContext) (best : Option Text) (held : Held)
      → ChosenUp ctx.evidence best
      → ChosenUp ctx.evidence (hold dwell_s ctx best held).current
  unfolding hold
  hold-ChosenUp dwell_s ctx best held up =
      let moved : Held = record { current = best; since = some ctx.now } in
      let waited = float_ge (elapsed dwell_s ctx.now held.since) dwell_s in
      if_not-ChosenUp ctx.evidence (held_is_live ctx.evidence held.current) moved
        (if choice_eq best held.current then held else if waited then moved else held) up
        λ live.
          let still = live-ChosenUp ctx.evidence held.current live in
          if-ChosenUp ctx.evidence (choice_eq best held.current) held
            (if waited then moved else held) still
            (if-ChosenUp ctx.evidence waited moved held up still)

  pub hysteresis-IsWatchful : (dwell_s : Float) → IsWatchful (hysteresis dwell_s)
  unfolding hysteresis_call
  hysteresis-IsWatchful dwell_s ctx s s' choices h =
      subst (All λ kc. ChosenUp ctx.evidence kc.1) (chosen _ choices _ s' h) (
        for_every-ChosenUp ctx.evidence _ ctx.classes
          (hold-ChosenUp dwell_s ctx _ s (best_by_rtt-ChosenUp ctx.evidence _)))

  pub governed-IsWatchful :
      (bundle : PolicyBundle) (site_id : Text) → IsWatchful (governed bundle site_id)
  unfolding governed_call
  governed-IsWatchful bundle site_id ctx s s' choices h =
      let (fresh, _, h1) =
        >>=-eq-ok (refresh_if bundle site_id ctx.authority_reachable ctx.now s) _ h in
      let (decision, _, h2) =
        >>=-eq-ok
          (run_once memory_sink noop site_id fresh.store (ok ctx.evidence.observations) ctx.now
            fresh.site).0
          _ h1 in
      subst (All λ kc. ChosenUp ctx.evidence kc.1) (chosen _ choices _ s' h2)
        (choose-ChosenUp ctx.evidence decision (keys ctx.classes))
