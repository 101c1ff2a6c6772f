-- ===== src/Sim/Selectors/Governed/Called.antt =====
-- A call of the governed path, taken apart, and what it keeps: sim/selectors.py over the agent's own
-- cycle.
use pilotfish.Base.{◌≡◌, sym, ap, subst, ◌∙◌}
use pilotfish.Base.Dict.{keys}
use pilotfish.Base.Lists.{All}
use pilotfish.Base.Text.{Text}
use mathlib.Core.List.{Memᴰ}
use pilotfish.Core.Models.{TrafficClass}
use pilotfish.Core.Bundle.{PolicyBundle}
use pilotfish.Core.Decide.{EligibilityDecision}
use pilotfish.Platform.{Platform}
use pilotfish.Adapters.MemorySink.{memory_sink}
use pilotfish.Adapters.Noop.{noop}
use pilotfish.Agent.BundleStore.{current}
use pilotfish.Agent.Cycle.{run_once}
use pilotfish.Agent.Cycle.Run.{decided, run_once-IsEnforced}
use pilotfish.Base.Result.{ok, >>=-eq-ok, ok-injective}
use pilotfish.Sim.Metrics.{Choices}
use pilotfish.Sim.Selectors.{SelectorContext}
use pilotfish.Sim.Selectors.Governed.{Governed, choose, refresh_if, governed_call}
use pilotfish.Sim.Selectors.Governed.Guards.{IsGuarded}
use pilotfish.Sim.Selectors.Governed.Choice.{KeepsClass, choose-KeepsClass}

module _ ⦃p : Platform⦄ (bundle : PolicyBundle) (site_id : Text) (ctx : SelectorContext)
    (g g' : Governed) (choices : Choices) where
  abbrev turn_decision : Governed → EligibilityDecision
  turn_decision h = decided memory_sink noop site_id h.store ctx.now ctx.evidence.observations

  -- what a call made of its turn
  record Called : Type 0 where
    fresh : Governed
    refreshed : refresh_if bundle site_id ctx.authority_reachable ctx.now g ≡ ok fresh
    stored : g'.store ≡ fresh.store
    chose : choices ≡ choose ctx.evidence (turn_decision fresh) (keys ctx.classes)

  ran-decided :
      (fresh : Governed) (d : EligibilityDecision)
      → (run_once memory_sink noop site_id fresh.store
          (ok ctx.evidence.observations)
          ctx.now
          fresh.site).0
        ≡ ok d
      → turn_decision fresh ≡ d
  ran-decided fresh d ran =
      let (os, same, e, _) =
        run_once-IsEnforced memory_sink noop site_id fresh.store ctx.now
          (ok ctx.evidence.observations) fresh.site d ran in
      rw (ok-injective same) e

  governed_call-Called : governed_call bundle site_id ctx g ≡ ok (choices, g') → Called
  unfolding governed_call
  governed_call-Called h =
      let (fresh, refreshed, h1) =
        >>=-eq-ok (refresh_if bundle site_id ctx.authority_reachable ctx.now g) _ h in
      let (d, ran, h2) =
        >>=-eq-ok
          (run_once memory_sink noop site_id fresh.store (ok ctx.evidence.observations) ctx.now
            fresh.site).0
          _ h1 in
      let made = ok-injective h2 in
      record {
        fresh = fresh;
        refreshed = refreshed;
        stored = ap (λ c. c.1.store) (sym made);
        chose =
            ap (λ c. c.0) (sym made)
            ∙ ap (λ x. choose ctx.evidence x (keys ctx.classes)) (sym (ran-decided fresh d ran));
      }

  -- The governed path, called: each link that it chooses for a class is one of the bundle in force,
  -- observed up, on which the oracle finds no metered, jurisdiction or encryption violation for that
  -- class, or the decision of this turn permits the class no link at all; if the rules of the bundle
  -- in force guard each of its classes.
  pub governed_call-KeepsClass :
      governed_call bundle site_id ctx g ≡ ok (choices, g')
      → ((c : TrafficClass)
          → Memᴰ c (current g'.store ctx.now).0.traffic_classes
          → IsGuarded (current g'.store ctx.now).0.rules c)
      → All (KeepsClass (current g'.store ctx.now).0 ctx.evidence (turn_decision g')) choices
  unfolding decided
  governed_call-KeepsClass h guarded =
      let called = governed_call-Called h in
      let (b, degraded) = current g'.store ctx.now in
      let kept =
        choose-KeepsClass b ctx.evidence ctx.evidence ctx.now site_id degraded guarded
          (keys ctx.classes) in
      let chose =
        called.chose
        ∙ ap
            (λ x.
              choose ctx.evidence
                (decided memory_sink noop site_id x ctx.now ctx.evidence.observations)
                (keys ctx.classes))
            (sym called.stored) in
      subst (All (KeepsClass b ctx.evidence (turn_decision g'))) (sym chose) kept
