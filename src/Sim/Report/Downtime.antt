-- ===== src/Sim/Report/Downtime.antt =====
-- The downtime column of the comparison: sim/report.py over sim/run.py and sim/selectors.py.
use pilotfish.Base.{◌≡◌, subst, List, [], ◌∷◌}
use pilotfish.Base.Int.{ℤ}
use pilotfish.Base.Lists.{All, All-append}
use pilotfish.Base.Result.{ok, ok-injective, >>=-eq-ok}
use pilotfish.Base.Text.{Text}
use pilotfish.Platform.{Platform}
use pilotfish.Sim.Links.{Random}
use pilotfish.Sim.Metrics.{RunResult}
use pilotfish.Sim.Report.{Built, over_seeds, over_selectors, compare, default_selectors}
use pilotfish.Sim.Run.{run}
use pilotfish.Sim.Run.Downtime.{run-downtime}
use pilotfish.Sim.Scenario.{Scenario}
use pilotfish.Sim.Selectors.{Selector}
use pilotfish.Sim.Selectors.Governed.{Governed, governed}
use pilotfish.Sim.Selectors.Observed.{IsWatchful, IsNamed}
use pilotfish.Sim.Selectors.Watchful.{
  greedy-IsWatchful, static_priority-IsWatchful, hysteresis-IsWatchful, governed-IsWatchful,
}

abbrev HasNoDowntime : RunResult → Type 0
HasNoDowntime r = r.downtime_s ≡ 0

module _ {R : Type 0} (random : Random R) where
  over_seeds-downtime :
      {S : Type 0} (scenario : Scenario) (name : Text) (selector : Selector S) (seeds : List ℤ)
      (s : S) (rows : List RunResult)
      → IsNamed scenario.fleet
      → IsWatchful selector
      → over_seeds random scenario name selector seeds s ≡ ok rows
      → All HasNoDowntime rows
  unfolding over_seeds
  over_seeds-downtime scenario name selector [] s rows named watchful h =
      subst (All HasNoDowntime) (ok-injective h) tt
  over_seeds-downtime scenario name selector (seed ∷ seeds) s rows named watchful h =
      let ((result, s'), ran, h1) = >>=-eq-ok (run random scenario selector seed s) _ h in
      let (rest, later, h2) = >>=-eq-ok (over_seeds random scenario name selector seeds s') _ h1 in
      subst (All HasNoDowntime) (ok-injective h2) (
        (run-downtime random scenario selector watchful seed s s' result named ran).1,
        over_seeds-downtime scenario name selector seeds s' rest named watchful later,
      )

  over_selectors-downtime :
      (scenario : Scenario) (seeds : List ℤ) (built : List (Text × Built)) (rows : List RunResult)
      → IsNamed scenario.fleet
      → All (λ nb. IsWatchful nb.1.selector) built
      → over_selectors random scenario seeds built ≡ ok rows
      → All HasNoDowntime rows
  unfolding over_selectors
  over_selectors-downtime scenario seeds [] rows named watchful h =
      subst (All HasNoDowntime) (ok-injective h) tt
  over_selectors-downtime scenario seeds ((name, b) ∷ rest) rows named (first, watchful) h =
      let (here, ran, h1) =
        >>=-eq-ok (over_seeds random scenario name b.selector seeds b.held) _ h in
      let (more, later, h2) = >>=-eq-ok (over_selectors random scenario seeds rest) _ h1 in
      subst (All HasNoDowntime) (ok-injective h2) (
        All-append HasNoDowntime here more
          (over_seeds-downtime scenario name b.selector seeds b.held here named first ran)
          (over_selectors-downtime scenario seeds rest more named watchful later))

  module _ ⦃p : Platform⦄ where
    default_selectors-IsWatchful :
        (blank : Governed) (scenario : Scenario) (built : List (Text × Built))
        → default_selectors blank scenario ≡ ok built
        → All (λ nb. IsWatchful nb.1.selector) built
    unfolding default_selectors
    default_selectors-IsWatchful blank scenario built h =
        let (g, _, h1) = >>=-eq-ok ((governed scenario.bundle scenario.site_id).reset blank) _ h in
        subst (All λ nb. IsWatchful nb.1.selector) (ok-injective h1) (
          greedy-IsWatchful,
          (
            static_priority-IsWatchful _,
            (hysteresis-IsWatchful _, (governed-IsWatchful scenario.bundle scenario.site_id, tt)),
          ),
        )

    -- In the comparison of the four selectors no row counts any downtime, whatever goes wrong with
    -- the links, if every model stands in its fleet under its own id: where nothing is up, the
    -- seconds count as refused.
    pub compare-downtime :
        (blank : Governed) (scenarios : List Scenario) (seeds : List ℤ) (rows : List RunResult)
        → All (λ scenario. IsNamed scenario.fleet) scenarios
        → compare random scenarios seeds (default_selectors blank) ≡ ok rows
        → All (λ row. row.downtime_s ≡ 0) rows
    unfolding compare
    compare-downtime blank [] seeds rows named h = subst (All HasNoDowntime) (ok-injective h) tt
    compare-downtime blank (scenario ∷ rest) seeds rows (first, named) h =
        let (built, building, h1) = >>=-eq-ok (default_selectors blank scenario) _ h in
        let (here, ran, h2) = >>=-eq-ok (over_selectors random scenario seeds built) _ h1 in
        let (more, later, h3) =
          >>=-eq-ok (compare random rest seeds (default_selectors blank)) _ h2 in
        subst (All HasNoDowntime) (ok-injective h3) (
          All-append HasNoDowntime here more
            (over_selectors-downtime scenario seeds built here first
              (default_selectors-IsWatchful blank scenario built building) ran)
            (compare-downtime blank rest seeds more named later))
