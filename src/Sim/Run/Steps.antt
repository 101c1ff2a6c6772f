-- ===== src/Sim/Run/Steps.antt =====
-- A step of a run that returned, taken apart into the calls that it made.
use pilotfish.Base.{arith, ℕ, ◌+◌, ◌*◌, ◌≡◌, subst, Bool, List, zero, suc}
use pilotfish.Base.Dict.{Dict}
use pilotfish.Base.Int.{ℤ, pos, ◌+ℤ◌}
use pilotfish.Base.Result.{ok, ok-injective, >>=-eq-ok}
use pilotfish.Core.Models.{Observation, second}
use pilotfish.Sim.Links.{Random, LinkModel}
use pilotfish.Sim.Links.Observe.{fleet_step}
use pilotfish.Sim.Metrics.{Choices, Violation, RunResult}
use pilotfish.Sim.Traffic.{Totals, serve}
use pilotfish.Sim.Events.{apply_events}
use pilotfish.Sim.Run.{
  Loop, t0, context, violations_at, totals_before, after_step, record_step, run_step, run_steps,
  run, start,
}
use pilotfish.Sim.Scenario
use pilotfish.Sim.Scenario.{Scenario}
use pilotfish.Sim.Selectors.{Selector}

module _ {R S : Type 0} (random : Random R) (scenario : Scenario) (selector : Selector S) where
  -- what the calls of a step returned
  pub record Stepped (index : ℕ) (loop loop' : Loop R S) : Type 0 where
    pub fleet : Dict LinkModel
    pub authority : Bool
    pub seen : List Observation
    pub choices : Choices
    pub held : S
    pub violations : List Violation
    pub totals : Totals
    pub happened :
        apply_events (index * scenario.step_s) scenario.events loop.fleet loop.authority_reachable
        ≡ ok (fleet, authority)
    pub observed :
        (fleet_step random fleet (t0 +ℤ pos (index * scenario.step_s * second)) loop.rng).0
        ≡ ok seen
    pub chose :
        selector.call
          (context random scenario selector (index * scenario.step_s) seen authority)
          loop.selector
        ≡ ok (choices, held)
    pub checked :
        violations_at random scenario selector (index * scenario.step_s) fleet choices
        ≡ ok violations
    pub served :
        serve scenario.step_s scenario.traffic_bytes_per_s choices
          (totals_before random scenario selector fleet loop)
        ≡ ok totals
    pub after :
        loop'
        ≡ after_step random scenario selector
            (index * scenario.step_s)
            choices
            (fleet_step random fleet (t0 +ℤ pos (index * scenario.step_s * second)) loop.rng).1
            held
            authority
            violations
            totals
            loop

  pub run_step-Stepped :
      (index : ℕ) (loop loop' : Loop R S)
      → run_step random scenario selector index loop ≡ ok loop'
      → Stepped index loop loop'
  unfolding run_step record_step
  run_step-Stepped index loop loop' h =
      let ((fleet, authority), happened, h1) =
        >>=-eq-ok
          (apply_events (index * scenario.step_s) scenario.events loop.fleet
            loop.authority_reachable)
          _ h in
      let (seen, observed, h2) =
        >>=-eq-ok
          (fleet_step random fleet (t0 +ℤ pos (index * scenario.step_s * second)) loop.rng).0 _
          h1 in
      let ((choices, held), chose, h3) =
        >>=-eq-ok
          (selector.call (context random scenario selector (index * scenario.step_s) seen authority)
            loop.selector)
          _ h2 in
      let (violations, checked, h4) =
        >>=-eq-ok (violations_at random scenario selector (index * scenario.step_s) fleet choices) _
          h3 in
      let (totals, served, h5) =
        >>=-eq-ok
          (serve scenario.step_s scenario.traffic_bytes_per_s choices
            (totals_before random scenario selector fleet loop))
          _ h4 in
      record {
        fleet = fleet;
        authority = authority;
        seen = seen;
        choices = choices;
        held = held;
        violations = violations;
        totals = totals;
        happened = happened;
        observed = observed;
        chose = chose;
        checked = checked;
        served = served;
        after = cc;
      }

  -- A property of the variables that every step keeps, the index counted on, holds at the end.
  pub run_steps-keeps {ℓ} :
      (P : ℕ → Loop R S → Type ℓ)
      → ((index : ℕ) (loop loop' : Loop R S)
          → Stepped index loop loop'
          → P index loop
          → P (index + 1) loop')
      → (n index : ℕ) (loop loop' : Loop R S)
      → run_steps random scenario selector n index loop ≡ ok loop'
      → P index loop
      → P (index + n) loop'
  unfolding run_steps
  run_steps-keeps P keep zero index loop loop' h begun =
      let same : index ≡ index + 0 = omega arith in
      subst (λ i. P i loop') same (subst (P index) (ok-injective h) begun)
  run_steps-keeps P keep (suc n) index loop loop' h begun =
      let (mid, first, rest) = >>=-eq-ok (run_step random scenario selector index loop) _ h in
      let later : index + 1 + n ≡ index + suc n = omega arith in
      subst (λ i. P i loop') later
        (run_steps-keeps P keep n (index + 1) mid loop' rest
          (keep index loop mid (run_step-Stepped index loop mid first) begun))

  -- what the calls of a run returned
  pub record Ran (seed : ℤ) (held : S) (result : RunResult) : Type 0 where
    pub fresh : S
    pub n : ℕ
    pub loop : Loop R S
    pub reset : selector.reset held ≡ ok fresh
    pub counted : Scenario.steps scenario ≡ ok n
    pub looped :
        run_steps random scenario selector n 0 (start random scenario selector seed fresh) ≡ ok loop
    pub ended : loop.result ≡ result

  pub run-Ran :
      (seed : ℤ) (held held' : S) (result : RunResult)
      → run random scenario selector seed held ≡ ok (result, held')
      → Ran seed held result
  unfolding run
  run-Ran seed held held' result h =
      let (fresh, reset, h1) = >>=-eq-ok (selector.reset held) _ h in
      let (n, counted, h2) = >>=-eq-ok (Scenario.steps scenario) _ h1 in
      let (loop, looped, h3) =
        >>=-eq-ok
          (run_steps random scenario selector n 0 (start random scenario selector seed fresh)) _
          h2 in
      record {
        fresh = fresh;
        n = n;
        loop = loop;
        reset = reset;
        counted = counted;
        looped = looped;
        ended = cc;
      }
