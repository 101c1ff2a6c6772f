-- ===== src/Sim/Run.antt =====
-- sim/run.py: the event loop. An exception ends the run, and what the objects hold then is not
-- looked at, so a step returns the new state or the exception.
pub mod Steps
pub mod Idle
pub mod Downtime
pub mod World
pub mod Frames
pub mod Counts
use pilotfish.Base.{
  ℕ, zero, suc, ◌+◌, ◌*◌, ◌^◌, Bool, true, false, not, ◌&&◌, Option, none, some, List, [], ◌∷◌,
  ◌++◌, map, if◌then◌else◌, ◌==◌,
}
use pilotfish.Base.Dict.{Dict, get, lookup, change, put_all}
use pilotfish.Base.Int.{ℤ, pos, ◌+ℤ◌}
use pilotfish.Base.Result.{Result, ok, err, attribute_error, ◌>>=◌}
use pilotfish.Base.Text.{Text, text}
use pilotfish.Core.Models.{Link, TrafficClass, Observation, Time, second}
use pilotfish.Core.Bundle.{PolicyBundle}
use pilotfish.Float.{Float, zero_point, float_ge}
use pilotfish.Float.Arith.{float_add, float_mul, int_div}
use pilotfish.Sim.Links.{
  Random, LinkModel, Kind, fiber, lte, satellite, fso, num, carry, cost_per_gb, quota_used_pct,
  base_rtt_ms, model_up, is_up,
}
use pilotfish.Sim.Links.Observe.{fleet_step}
use pilotfish.Sim.Metrics.{Choices, Violation, Frame, RunResult, check_violations, timeline_at}
use pilotfish.Sim.Scenario.{
  Event, EventKind, Scenario, link_down, link_up, fog, clear, obstruct, unobstruct, sensor_fail,
  sensor_recover, authority_unreachable, authority_reachable,
}
use pilotfish.Sim.Scenario
use pilotfish.Sim.Events.{change_of, change_target, change_fleet, reachable_after, apply_events}
use pilotfish.Sim.Traffic.{Totals, carry_over, send_over, serve}
use pilotfish.Sim.Selectors.{Selector, SelectorContext, choice_eq}

-- T0, 2026-08-28 12:00 UTC
abbrev pub t0 : Time
t0 = pos (1787918400 * second)

-- the true latency of a model
unfoldable pub true_rtt : LinkModel → Float
true_rtt m = elim m.kind [
  | satellite b o q c ↦ if o then float_add b (num 400) else b
  | k ↦ base_rtt_ms k
]

abbrev pub true_rtts : Dict LinkModel → Dict Float
true_rtts fleet = map (λ km. (km.0, true_rtt km.1)) fleet

-- whether a choice differs from the one before, if there was one
unfoldable pub flapped : Option (Option Text) → Option Text → Bool
flapped none choice = false
flapped (some before) choice = not (choice_eq before choice)

-- the loop over the choices that counts the changes
unfoldable pub count_flaps : Choices → Choices → ℕ
unfolding flapped
count_flaps previous [] = 0
count_flaps previous ((class_id, choice) ∷ rest) =
    (if flapped (get class_id previous) choice then 1 else 0) + count_flaps previous rest

abbrev pub up_now : Dict LinkModel → Dict Bool
up_now fleet = map (λ km. (km.0, model_up km.1)) fleet

-- the variables of `run`
pub record Loop (R S : Type 0) : Type 0 where
  pub rng : R
  pub fleet : Dict LinkModel
  pub selector : S
  pub result : RunResult
  pub previous : Choices
  pub authority_reachable : Bool

abbrev pub link_table : PolicyBundle → Dict Link
link_table bundle = put_all [] (map (λ l. (l.id, l)) bundle.links)

abbrev pub class_table : PolicyBundle → Dict TrafficClass
class_table bundle = put_all [] (map (λ c. (c.id, c)) bundle.traffic_classes)

module _ {R S : Type 0} (random : Random R) (scenario : Scenario) (selector : Selector S) where
  abbrev pub context : ℕ → List Observation → Bool → SelectorContext
  context at_s seen authority = record {
    now = t0 +ℤ pos (at_s * second);
    evidence = record { observations = seen };
    links = link_table scenario.bundle;
    classes = class_table scenario.bundle;
    authority_reachable = authority;
  }

  abbrev pub frame_of : ℕ → Choices → Dict LinkModel → Bool → Frame
  frame_of at_s choices fleet authority = record {
    at_s = at_s;
    choices = choices;
    up = up_now fleet;
    authority_reachable = authority;
  }

  -- the variables at the end of a step
  unfoldable pub after_step :
      ℕ → Choices → R → S → Bool → List Violation → Totals → Loop R S → Loop R S
  unfolding count_flaps
  after_step at_s choices rng s authority violations totals loop =
      let r = loop.result in
      record {
        rng = rng;
        fleet = totals.fleet;
        selector = s;
        result = record r {
          steps = r.steps + 1;
          violations = r.violations ++ violations;
          downtime_s = totals.downtime_s;
          refused_s = totals.refused_s;
          degraded_s = r.degraded_s + (if selector.last_degraded s then scenario.step_s else 0);
          flaps = r.flaps + count_flaps loop.previous choices;
          cost = totals.cost;
          frames = r.frames ++ frame_of at_s choices totals.fleet authority ∷ [];
        };
        previous = choices;
        authority_reachable = authority;
      }

  abbrev pub totals_before : Dict LinkModel → Loop R S → Totals
  totals_before fleet loop = record {
    fleet = fleet;
    downtime_s = loop.result.downtime_s;
    refused_s = loop.result.refused_s;
    cost = loop.result.cost;
  }

  abbrev pub violations_at : ℕ → Dict LinkModel → Choices → Result (List Violation)
  violations_at at_s fleet choices =
      check_violations at_s (link_table scenario.bundle) (class_table scenario.bundle) fleet
        (true_rtts fleet) choices

  -- the rest of the body of the loop, once the selector has chosen
  unfoldable pub record_step :
      ℕ → Choices → R → Dict LinkModel → S → Bool → Loop R S → Result (Loop R S)
  unfolding serve after_step true_rtt
  record_step at_s choices rng fleet s authority loop = do
    violations ← violations_at at_s fleet choices
    totals ← serve scenario.step_s scenario.traffic_bytes_per_s choices (totals_before fleet loop)
    ok (after_step at_s choices rng s authority violations totals loop)

  -- the body of the loop of `run`
  unfoldable pub run_step : ℕ → Loop R S → Result (Loop R S)
  unfolding apply_events record_step
  run_step index loop = do
    let at_s = index * scenario.step_s
    (fleet, authority) ← apply_events at_s scenario.events loop.fleet loop.authority_reachable
    let (seen, rng) = fleet_step random fleet (t0 +ℤ pos (at_s * second)) loop.rng
    observations ← seen
    (choices, s) ← selector.call (context at_s observations authority) loop.selector
    record_step at_s choices rng fleet s authority loop

  -- `for index in range(n)`, from an index on
  unfoldable pub run_steps : ℕ → ℕ → Loop R S → Result (Loop R S)
  unfolding run_step
  run_steps zero index loop = ok loop
  run_steps (suc n) index loop = run_step index loop >>= run_steps n (index + 1)

  -- the variables before the loop
  unfoldable pub start : ℤ → S → Loop R S
  start seed s = record {
    rng = random.seeded seed;
    fleet = scenario.fleet;
    selector = s;
    result = record {
      scenario = scenario.name;
      selector = selector.name;
      seed = seed;
      steps = 0;
      step_s = scenario.step_s;
      violations = [];
      downtime_s = 0;
      refused_s = 0;
      degraded_s = 0;
      flaps = 0;
      cost = zero_point;
      frames = [];
    };
    previous = [];
    authority_reachable = true;
  }

  -- `run`, with the selector's state after it
  unfoldable pub run : ℤ → S → Result (RunResult × S)
  unfolding run_steps start
  run seed s = do
    fresh ← selector.reset s
    n ← Scenario.steps scenario
    loop ← run_steps n 0 (start seed fresh)
    ok (loop.result, loop.selector)

-- `link_up_at`
unfoldable pub link_up_at : RunResult → ℕ → Text → Result Bool
unfolding lookup
link_up_at result second link_id = timeline_at result second >>= λ frame. lookup link_id frame.up
