-- ===== src/Sim/Report/Cells.antt =====
-- The cells of a table add up to the totals of its selectors: sim/report.py.
use pilotfish.Base.{
  ℕ, ◌+◌, ◌≡◌, refl, true, false, ◌||◌, List, [], ◌∷◌, ◌++◌, if◌then◌else◌, Bool-cases, inl, inr,
  arith,
}
use pilotfish.Base.Lists.{filter, All}
use pilotfish.Base.Text.{Text, text_eq, text_eq_iff, contains}
use pilotfish.Sim.Metrics.{RunResult, violation_count}
use pilotfish.Sim.Report.{
  Builtins, sum_of, rows_for, cell_rows, cell, names_from, scenarios, violations, downtime, refused,
  flaps, degraded,
}

-- `sum(g(x) for x in names)`
unfoldable pub sum_over : List Text → (Text → ℕ) → ℕ
sum_over [] g = 0
sum_over (n ∷ ns) g = g n + sum_over ns g

abbrev AllDistinct : List Text → Type 0
AllDistinct [] = Unit
AllDistinct (n ∷ ns) = (contains n ns ≡ false) × AllDistinct ns

contains-append_one :
    (x n : Text) (ns : List Text) → contains x (ns ++ n ∷ []) ≡ (contains x ns || text_eq x n)
unfolding contains
contains-append_one x n [] = ground arith
contains-append_one x n (m ∷ ns) = ground (arith, contains-append_one x n ns)

AllDistinct-append_one :
    (n : Text) (ns : List Text)
    → AllDistinct ns
    → contains n ns ≡ false
    → AllDistinct (ns ++ n ∷ [])
unfolding contains
AllDistinct-append_one n [] d fresh = (refl, tt)
AllDistinct-append_one n (m ∷ ns) (first, d) fresh = (
  ground (arith, contains-append_one m n ns, text_eq_iff m n, text_eq_iff n m),
  AllDistinct-append_one n ns d (ground arith),
)

module _ (name : RunResult → Text) where
  names_from-AllDistinct :
      (seen : List Text) (rows : List RunResult)
      → AllDistinct seen
      → AllDistinct (names_from name seen rows)
  unfolding names_from
  names_from-AllDistinct seen [] d = d
  names_from-AllDistinct seen (r ∷ rs) d = elim (Bool-cases (contains (name r) seen)) [
    | inl e ↦ rw e (names_from-AllDistinct seen rs d)
    | inr e ↦
        rw e (
          names_from-AllDistinct (seen ++ name r ∷ []) rs
            (AllDistinct-append_one (name r) seen d e))
  ]

  names_from-seen :
      (x : Text) (seen : List Text) (rows : List RunResult)
      → contains x seen ≡ true
      → contains x (names_from name seen rows) ≡ true
  unfolding names_from
  names_from-seen x seen [] h = h
  names_from-seen x seen (r ∷ rs) h = elim (Bool-cases (contains (name r) seen)) [
    | inl e ↦ rw e (names_from-seen x seen rs h)
    | inr e ↦ rw e (
        names_from-seen x (seen ++ name r ∷ []) rs
          (ground (arith, contains-append_one x (name r) seen)))
  ]

  names_from-named :
      (seen : List Text) (rows : List RunResult)
      → All (λ r. contains (name r) (names_from name seen rows) ≡ true) rows
  unfolding names_from
  names_from-named seen [] = tt
  names_from-named seen (r ∷ rs) =
      let seen' = if contains (name r) seen then seen else seen ++ name r ∷ [] in
      let there : contains (name r) seen' ≡ true =
        ground (arith, contains-append_one (name r) (name r) seen, text_eq_iff (name r) (name r)) in
      (names_from-seen (name r) seen' rs there, names_from-named seen' rs)

-- A number that stands at one name only.
abbrev at_name : Text → ℕ → Text → ℕ
at_name x k n = if text_eq x n then k else 0

sum_over-absent :
    (x : Text) (k : ℕ) (ns : List Text) → contains x ns ≡ false → sum_over ns (at_name x k) ≡ 0
unfolding sum_over contains
sum_over-absent x k [] h = refl
sum_over-absent x k (n ∷ ns) h = ground (arith, sum_over-absent x k ns)

sum_over-at_name :
    (x : Text) (k : ℕ) (ns : List Text)
    → AllDistinct ns
    → contains x ns ≡ true
    → sum_over ns (at_name x k) ≡ k
unfolding sum_over contains
sum_over-at_name x k [] d h = cc
sum_over-at_name x k (n ∷ ns) (fresh, d) h = elim (Bool-cases (text_eq x n)) [
  | inl e ↦
      let same = (text_eq_iff x n).0 e in
      rw e (omega (arith, sum_over-absent x k ns (rw (← same) at fresh)))
  | inr e ↦ rw e (ground (arith, sum_over-at_name x k ns d))
]

sum_over-add :
    (g h : Text → ℕ) (ns : List Text) → sum_over ns (λ n. g n + h n) ≡ sum_over ns g + sum_over ns h
unfolding sum_over
sum_over-add g h [] = omega arith
sum_over-add g h (n ∷ ns) = omega (arith, sum_over-add g h ns)

sum_over-zero : (ns : List Text) → sum_over ns (λ n. 0) ≡ 0
unfolding sum_over
sum_over-zero [] = refl
sum_over-zero (n ∷ ns) = omega (arith, sum_over-zero ns)

sum_over-same :
    (g h : Text → ℕ) (ns : List Text) → ((n : Text) → g n ≡ h n) → sum_over ns g ≡ sum_over ns h
unfolding sum_over
sum_over-same g h [] e = refl
sum_over-same g h (n ∷ ns) e = omega (arith, e n, sum_over-same g h ns e)

module _ (f : RunResult → ℕ) (selector : Text) where
  abbrev in_cells : List RunResult → Text → ℕ
  in_cells rows s = sum_of f (cell_rows s selector rows)

  -- what one row adds to the cell of a scenario
  abbrev row_in : RunResult → Text → ℕ
  row_in r s = at_name r.scenario (if text_eq r.selector selector then f r else 0) s

  in_cells-cons :
      (r : RunResult) (rs : List RunResult) (s : Text)
      → in_cells (r ∷ rs) s ≡ row_in r s + in_cells rs s
  unfolding cell_rows sum_of filter
  in_cells-cons r rs s = ground arith

  cells-total :
      (ns : List Text) (rows : List RunResult)
      → AllDistinct ns
      → All (λ r. contains r.scenario ns ≡ true) rows
      → sum_over ns (in_cells rows) ≡ sum_of f (rows_for selector rows)
  unfolding rows_for sum_of cell_rows filter
  cells-total ns [] d named = sum_over-zero ns
  cells-total ns (r ∷ rs) d (first, named) =
      let split =
        sum_over-same (in_cells (r ∷ rs)) (λ s. row_in r s + in_cells rs s) ns
          (in_cells-cons r rs) in
      let here =
        sum_over-at_name r.scenario (if text_eq r.selector selector then f r else 0) ns d first in
      let rest = cells-total ns rs d named in
      ground (arith, split, here, rest, sum_over-add (row_in r) (in_cells rs) ns)

-- For each selector the cells of the scenarios of the table add up to the table's totals: its
-- violations, downtime, refused and degraded seconds, and flaps.
pub cells-totals :
    (py : Builtins) (selector : Text) (rows : List RunResult)
    → (sum_over (scenarios rows) (λ s. (cell py s selector rows).violations)
        ≡ violations selector rows)
      × (sum_over (scenarios rows) (λ s. (cell py s selector rows).downtime_s)
          ≡ downtime selector rows)
      × (sum_over (scenarios rows) (λ s. (cell py s selector rows).refused_s)
          ≡ refused selector rows)
      × (sum_over (scenarios rows) (λ s. (cell py s selector rows).degraded_s)
          ≡ degraded selector rows)
      × (sum_over (scenarios rows) (λ s. (cell py s selector rows).flaps) ≡ flaps selector rows)
unfolding scenarios cell violations downtime refused degraded flaps
cells-totals py selector rows =
    let d = names_from-AllDistinct (λ r. r.scenario) [] rows tt in
    let named = names_from-named (λ r. r.scenario) [] rows in
    let ns = names_from (λ r. r.scenario) [] rows in
    (
      cells-total violation_count selector ns rows d named,
      cells-total (λ r. r.downtime_s) selector ns rows d named,
      cells-total (λ r. r.refused_s) selector ns rows d named,
      cells-total (λ r. r.degraded_s) selector ns rows d named,
      cells-total (λ r. r.flaps) selector ns rows d named,
    )
