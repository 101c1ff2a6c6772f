-- ===== src/Tests/SimExamples.antt =====
-- The examples of the simulator, over a generator that answers with the lower bound.
use pilotfish.Base.{ℕ, ◌+◌, ◌*◌, ◌≡◌, refl, true, none, some, List, [], ◌∷◌, map}
use pilotfish.Base.Dict.{Dict, get, put_all}
use pilotfish.Base.Int.{pos, ◌+ℤ◌, scale}
use pilotfish.Base.Lists.{All, filter}
use pilotfish.Base.Sort.{sorted}
use pilotfish.Base.Result.{Result, ok, value_or}
use pilotfish.Base.Text.{text, text_eq, text_le}
use mathlib.Core.List.{Memᴰ}
use pilotfish.Core.Models.{Observation, new_observation, latest}
use pilotfish.Core.Bundle.{floor_bundle}
use pilotfish.Float.{float_ge, float_le, zero_point, of_int}
use pilotfish.Float.Arith.{float_add, float_mul, float_div, float_min, int_div}
use pilotfish.Sim.Links.{Random, LinkModel, fiber, lte, num, quota_used, gb, quota_used_pct, carry}
use pilotfish.Sim.Links.Observe.{fleet_step}
use pilotfish.Sim.Links.Quota.{quota_used_bounds}
use pilotfish.Sim.Metrics.{RunResult, check_violations}
use pilotfish.Sim.Report.{Builtins, cell, scenarios, violations, downtime, refused, degraded, flaps}
use pilotfish.Sim.Report.Cells.{cells-totals, sum_over}
use pilotfish.Sim.Run.Downtime.{IsServedIn, run-downtime}
use pilotfish.Sim.Run.Frames.{refused_over}
use pilotfish.Sim.Selectors.Watchful.{greedy-IsWatchful}
use pilotfish.Sim.Run.{run}
use pilotfish.Sim.Run.Counts.{IsAudited, run-IsAudited}
use pilotfish.Sim.Run.World.{scene_of, same_world}
use pilotfish.Sim.Scenario
use pilotfish.Sim.Scenario.{Scenario, Event, link_down}
use pilotfish.Sim.Scenarios.{fresh_model, sim_bundle, sim_links, sim_classes, event, bulk}
use pilotfish.Sim.Scenarios.Guarded.{floor_bundle-IsGuarded}
use pilotfish.Sim.Selectors.{
  greedy, static_priority, observed_up, best_by_rtt, greedy_call, static_call,
}
use pilotfish.Sim.Selectors.Best.{IsBest, best_by_rtt-IsBest}
use pilotfish.Sim.Selectors.Observed.{IsNamed, observed_up-reported_up, reported_up}
use pilotfish.Sim.Selectors.Governed.Guards.{IsGuarded}
use pilotfish.Tests.Toy.{toy}
use pilotfish.Tests.Data.{evidence, noon}

abbrev lowest : Random ℕ
lowest = record { seeded = λ seed. 0; uniform = λ a b r. (a, r + 1) }

two_gb_used : quota_used (num 4) (2 * gb) ≡ ok (num 50)
unfolding quota_used of_int scale int_div float_div float_min float_mul
two_gb_used = refl

quota_used_bounds_example :
    (float_ge (num 50) zero_point ≡ true) × (float_ge (num 100) (num 50) ≡ true)
quota_used_bounds_example = quota_used_bounds (num 4) (2 * gb) (num 50) two_gb_used

best_by_rtt-IsBest_example :
    IsBest evidence (text "a" ∷ text "b" ∷ []) (best_by_rtt evidence (text "a" ∷ text "b" ∷ []))
best_by_rtt-IsBest_example = best_by_rtt-IsBest evidence (text "a" ∷ text "b" ∷ [])

abbrev small_fleet : Dict LinkModel
small_fleet =
    (text "fiber0", fresh_model (text "fiber0") (fiber (num 8)))
    ∷ (text "lte0", fresh_model (text "lte0") (lte (num 2) (num 45) zero_point (num 8)))
    ∷ []

abbrev small : Scenario
small = record {
  name = text "small";
  site_id = text "sim-site";
  bundle = sim_bundle (pos 1800) (pos 120);
  fleet = small_fleet;
  traffic_bytes_per_s = (text "bulk", 1000) ∷ [];
  events = event 30 link_down (text "fiber0") ∷ [];
  duration_s = 60;
  step_s = 30;
}

small-IsNamed : IsNamed small_fleet
unfolding get text_eq
small-IsNamed = (refl, refl, (refl, refl, tt))

abbrev seen_at_noon : Result (List Observation)
seen_at_noon = (fleet_step lowest small_fleet noon 0).0

abbrev no_result : RunResult
no_result = record {
  scenario = [];
  selector = [];
  seed = pos 0;
  steps = 0;
  step_s = 0;
  violations = [];
  downtime_s = 0;
  refused_s = 0;
  degraded_s = 0;
  flaps = 0;
  cost = zero_point;
  frames = [];
}

abbrev first_result : RunResult
first_result = (value_or (no_result, tt) (run lowest small greedy (pos 1) tt)).0

first_ran : run lowest small greedy (pos 1) tt ≡ ok (first_result, tt)
unfolding run Scenario.steps fleet_step new_observation float_add of_int ◌+ℤ◌ scale float_mul
    quota_used int_div float_div float_min greedy_call check_violations put_all sim_bundle text_eq
    filter sorted text_le latest float_le quota_used_pct carry
first_ran = refl

abbrev second_result : RunResult
second_result =
    (value_or (no_result, tt)
      (run lowest small (static_priority (text "fiber0" ∷ text "lte0" ∷ [])) (pos 1) tt)).0

second_ran :
    run lowest small (static_priority (text "fiber0" ∷ text "lte0" ∷ [])) (pos 1) tt
    ≡ ok (second_result, tt)
unfolding run Scenario.steps fleet_step new_observation float_add of_int ◌+ℤ◌ scale float_mul
    quota_used int_div float_div float_min static_call check_violations put_all sim_bundle text_eq
    filter sorted text_le latest float_le quota_used_pct carry
second_ran = refl

same_world_example : map scene_of first_result.frames ≡ map scene_of second_result.frames
same_world_example =
    same_world lowest small greedy (static_priority (text "fiber0" ∷ text "lte0" ∷ [])) (pos 1) tt
      tt tt tt first_result second_result first_ran second_ran

run-IsAudited_example :
    (n : ℕ) × (Scenario.steps small ≡ ok n) × IsAudited lowest small greedy n first_result
run-IsAudited_example = run-IsAudited lowest small greedy (pos 1) tt tt first_result first_ran

run-downtime_example :
    All IsServedIn first_result.frames
    × (first_result.downtime_s ≡ 0)
    × (first_result.refused_s ≡ small.step_s * refused_over first_result.frames)
run-downtime_example =
    run-downtime lowest small greedy greedy-IsWatchful (pos 1) tt tt first_result small-IsNamed
      first_ran

abbrev noon_reports : List Observation
noon_reports = value_or [] seen_at_noon

noon_reported : seen_at_noon ≡ ok noon_reports
unfolding fleet_step new_observation float_add of_int ◌+ℤ◌ scale float_mul quota_used int_div
    float_div float_min
noon_reported = refl

observed_up-reported_up_example :
    observed_up (record { observations = noon_reports }) (text "lte0")
    ≡ reported_up (get (text "lte0") small_fleet)
observed_up-reported_up_example =
    observed_up-reported_up lowest noon small_fleet 0 noon_reports (text "lte0") small-IsNamed
      noon_reported

abbrev py : Builtins
py = record { sum_floats = λ xs. zero_point; show_2dp = λ x. text "0.00" }

abbrev two_rows : List RunResult
two_rows =
    record first_result { selector = text "greedy" }
    ∷ record second_result { selector = text "static" }
    ∷ []

cells-totals_example :
    (sum_over (scenarios two_rows) (λ s. (cell py s (text "greedy") two_rows).violations)
      ≡ violations (text "greedy") two_rows)
    × (sum_over (scenarios two_rows) (λ s. (cell py s (text "greedy") two_rows).downtime_s)
        ≡ downtime (text "greedy") two_rows)
    × (sum_over (scenarios two_rows) (λ s. (cell py s (text "greedy") two_rows).refused_s)
        ≡ refused (text "greedy") two_rows)
    × (sum_over (scenarios two_rows) (λ s. (cell py s (text "greedy") two_rows).degraded_s)
        ≡ degraded (text "greedy") two_rows)
    × (sum_over (scenarios two_rows) (λ s. (cell py s (text "greedy") two_rows).flaps)
        ≡ flaps (text "greedy") two_rows)
cells-totals_example = cells-totals py (text "greedy") two_rows

bulk_there :
    Memᴰ bulk (floor_bundle sim_links none (text "authority-1") (some sim_classes)).traffic_classes
unfolding floor_bundle
bulk_there = Memᴰ.head refl

floor_bundle-IsGuarded_example :
    IsGuarded (floor_bundle sim_links none (text "authority-1") (some sim_classes)).rules bulk
floor_bundle-IsGuarded_example =
    floor_bundle-IsGuarded sim_links none (text "authority-1") (some sim_classes) bulk bulk_there
