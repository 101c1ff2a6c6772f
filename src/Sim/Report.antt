-- ===== src/Sim/Report.antt =====
-- sim/report.py: running the comparison and rendering it.
pub mod Downtime
pub mod Cells
use pilotfish.Base.{Option, ℕ, ◌+◌, Bool, not, ◌&&◌, List, [], ◌∷◌, ◌++◌, map, if◌then◌else◌}
use pilotfish.Base.Decimal.{show_ℕ}
use pilotfish.Base.Int.{ℤ}
use pilotfish.Base.Lists.{filter}
use pilotfish.Base.Result.{Result, ok, ◌>>=◌}
use pilotfish.Base.Text.{Text, text, text_eq, contains, join}
use pilotfish.Float.{Float}
use pilotfish.Platform.{Platform}
use pilotfish.Sim.Links.{Random, num}
use pilotfish.Sim.Metrics.{RunResult, violation_count}
use pilotfish.Sim.Run.{run}
use pilotfish.Sim.Scenario.{Scenario}
use pilotfish.Sim.Selectors.{Selector, greedy, static_priority, hysteresis, Held}
use pilotfish.Sim.Selectors.Governed.{governed, Governed}

-- ComparisonTable is its rows. `sum(f(r) for r in rows)`:
unfoldable pub sum_of : (RunResult → ℕ) → List RunResult → ℕ
sum_of f [] = 0
sum_of f (r ∷ rs) = f r + sum_of f rs

-- Of the language: `sum` on floats, which compensates for rounding, and the format `:.2f`.
pub record Builtins : Type 0 where
  pub sum_floats : List Float → Float
  pub show_2dp : Float → Text

-- `_for`
unfoldable pub rows_for : Text → List RunResult → List RunResult
unfolding filter
rows_for selector rows = filter (λ r. text_eq r.selector selector) rows

unfoldable pub violations : Text → List RunResult → ℕ
violations selector rows = sum_of violation_count (rows_for selector rows)

unfoldable pub downtime : Text → List RunResult → ℕ
downtime selector rows = sum_of (λ r. r.downtime_s) (rows_for selector rows)

unfoldable pub refused : Text → List RunResult → ℕ
refused selector rows = sum_of (λ r. r.refused_s) (rows_for selector rows)

unfoldable pub flaps : Text → List RunResult → ℕ
flaps selector rows = sum_of (λ r. r.flaps) (rows_for selector rows)

unfoldable pub cost : Builtins → Text → List RunResult → Float
cost py selector rows = py.sum_floats (map (λ r. r.cost) (rows_for selector rows))

unfoldable pub degraded : Text → List RunResult → ℕ
degraded selector rows = sum_of (λ r. r.degraded_s) (rows_for selector rows)

-- the loop of `selectors` and of `scenarios`, on the names seen so far
unfoldable pub names_from : (RunResult → Text) → List Text → List RunResult → List Text
unfolding contains
names_from f seen [] = seen
names_from f seen (r ∷ rs) =
    names_from f (if contains (f r) seen then seen else seen ++ f r ∷ []) rs

unfoldable pub selectors : List RunResult → List Text
unfolding names_from
selectors rows = names_from (λ r. r.selector) [] rows

unfoldable pub scenarios : List RunResult → List Text
unfolding names_from
scenarios rows = names_from (λ r. r.scenario) [] rows

pub record Cell : Type 0 where
  pub violations : ℕ
  pub downtime_s : ℕ
  pub refused_s : ℕ
  pub flaps : ℕ
  pub cost : Float
  pub degraded_s : ℕ

unfoldable pub cell_rows : Text → Text → List RunResult → List RunResult
unfolding filter
cell_rows scenario selector rows =
    filter (λ r. text_eq r.scenario scenario && text_eq r.selector selector) rows

-- `cell`
unfoldable pub cell : Builtins → Text → Text → List RunResult → Cell
unfolding cell_rows sum_of
cell py scenario selector rows =
    let chosen = cell_rows scenario selector rows in
    record {
      violations = sum_of violation_count chosen;
      downtime_s = sum_of (λ r. r.downtime_s) chosen;
      refused_s = sum_of (λ r. r.refused_s) chosen;
      flaps = sum_of (λ r. r.flaps) chosen;
      cost = py.sum_floats (map (λ r. r.cost) chosen);
      degraded_s = sum_of (λ r. r.degraded_s) chosen;
    }

-- a selector object: its methods and what it holds
pub record Built : Type 1 where
  pub Held : Type 0
  pub selector : Selector Held
  pub held : Held

module _ {R : Type 0} (random : Random R) where
  -- the innermost loop of `compare`, over the seeds
  unfoldable pub over_seeds :
      {S : Type 0} → Scenario → Text → Selector S → List ℤ → S → Result (List RunResult)
  over_seeds scenario name selector [] s = ok []
  over_seeds scenario name selector (seed ∷ seeds) s = do
    (result, s') ← run random scenario selector seed s
    rest ← over_seeds scenario name selector seeds s'
    ok (record result { selector = name } ∷ rest)

  -- the loop over the selectors that are built for a scenario
  unfoldable pub over_selectors : Scenario → List ℤ → List (Text × Built) → Result (List RunResult)
  unfolding over_seeds
  over_selectors scenario seeds [] = ok []
  over_selectors scenario seeds ((name, b) ∷ rest) = do
    rows ← over_seeds scenario name b.selector seeds b.held
    more ← over_selectors scenario seeds rest
    ok (rows ++ more)

  -- `compare`
  unfoldable pub compare :
      List Scenario → List ℤ → (Scenario → Result (List (Text × Built))) → Result (List RunResult)
  unfolding over_selectors
  compare [] seeds build = ok []
  compare (scenario ∷ rest) seeds build = do
    built ← build scenario
    rows ← over_selectors scenario seeds built
    more ← compare rest seeds build
    ok (rows ++ more)

-- one row of the rendered table
unfoldable pub render_row : Builtins → Text → Cell → Text
render_row py selector c =
    text "| "
    ++ (selector
        ++ (text " | "
            ++ (join (text " | ") (
                  show_ℕ c.violations
                  ∷ show_ℕ c.downtime_s
                  ∷ show_ℕ c.refused_s
                  ∷ show_ℕ c.flaps
                  ∷ py.show_2dp c.cost
                  ∷ show_ℕ c.degraded_s
                  ∷ [])
                ++ text " |")))

unfoldable pub render_rows : Builtins → Text → List Text → List RunResult → List Text
unfolding cell render_row
render_rows py scenario names rows =
    map (λ selector. render_row py selector (cell py scenario selector rows)) names

-- the lines of one scenario
unfoldable pub render_scenario : Builtins → List RunResult → Text → List Text
unfolding render_rows selectors
render_scenario py rows scenario =
    (text "### " ++ (scenario ++ 10 ∷ []))
    ∷ (text "| selector | violations | link down (s) | refused (s) | flaps | "
        ++ text "overage cost | degraded (s) |")
    ∷ text "|---|---:|---:|---:|---:|---:|---:|"
    ∷ (render_rows py scenario (selectors rows) rows ++ [] ∷ [])

unfoldable pub render_lines : Builtins → List RunResult → List Text → List Text
unfolding render_scenario
render_lines py rows [] = []
render_lines py rows (s ∷ ss) = render_scenario py rows s ++ render_lines py rows ss

-- `render_markdown`
unfoldable pub render_markdown : Builtins → List RunResult → Text
unfolding scenarios render_lines
render_markdown py rows = join (10 ∷ []) (render_lines py rows (scenarios rows))

module _ ⦃p : Platform⦄ where
  -- `default_selectors`; building the governed one resets it
  unfoldable pub default_selectors : Governed → Scenario → Result (List (Text × Built))
  default_selectors blank scenario = do
    g ← (governed scenario.bundle scenario.site_id).reset blank
    ok (
        (text "greedy", record { Held = Unit {0}; selector = greedy; held = tt })
        ∷ (
          text "static_priority",
          record {
            Held = Unit {0};
            selector =
                static_priority (text "fiber0" ∷ text "lte0" ∷ text "sat0" ∷ text "fso0" ∷ []);
            held = tt;
          },
        )
        ∷ (
          text "hysteresis",
          record {
            Held = Held;
            selector = hysteresis (num 300);
            held = record { current = Option.none; since = Option.none };
          },
        )
        ∷ (
          text "governed",
          record {
            Held = Governed;
            selector = governed scenario.bundle scenario.site_id;
            held = g;
          },
        )
        ∷ [])
