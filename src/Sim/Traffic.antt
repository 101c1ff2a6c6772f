-- ===== src/Sim/Traffic.antt =====
-- sim/run.py: the traffic of a step, carried over the links that were chosen.
use pilotfish.Base.{ℕ, ◌+◌, ◌*◌, ◌^◌, Bool, false, Option, none, some, [], ◌∷◌, if◌then◌else◌}
use pilotfish.Base.Dict.{Dict, get, lookup, change}
use pilotfish.Base.Int.{pos}
use pilotfish.Base.Result.{Result, ok, err, ◌>>=◌}
use pilotfish.Base.Text.{Text}
use pilotfish.Float.{Float, float_ge}
use pilotfish.Float.Arith.{float_add, float_mul, int_div}
use pilotfish.Sim.Links.{LinkModel, num, carry, cost_per_gb, quota_used_pct, is_up}
use pilotfish.Sim.Metrics.{Choices}

-- what a step adds up
pub record Totals : Type 0 where
  pub fleet : Dict LinkModel
  pub downtime_s : ℕ
  pub refused_s : ℕ
  pub cost : Float

-- `model.quota_used_pct() >= 100.0` before the traffic, where the model has a quota
unfoldable pub exhausted : Option (Result Float) → Result Bool
exhausted none = ok false
exhausted (some (err e)) = err e
exhausted (some (ok pct)) = ok (float_ge pct (num 100))

-- the cost of an overage
unfoldable pub overage : Bool → ℕ → LinkModel → Float → Result Float
overage over carried m cost =
    if over
    then (int_div (pos carried) (10 ^ 9) >>= λ gbs.
        ok (float_add cost (float_mul gbs (cost_per_gb m))))
    else ok cost

-- the traffic of one class over a link that is up
unfoldable pub carry_over : Text → ℕ → LinkModel → Totals → Result Totals
unfolding exhausted overage
carry_over link_id carried m t = do
  over ← exhausted (quota_used_pct m)
  cost ← overage over carried m t.cost
  ok (record t { fleet = change link_id (carry carried) t.fleet; cost = cost })

-- the traffic of one class over the link that it was given
unfoldable pub send_over : ℕ → ℕ → Text → Totals → Result Totals
unfolding carry_over is_up lookup
send_over step_s carried link_id t = do
  up ← is_up t.fleet link_id
  m ← lookup link_id t.fleet
  if up
      then carry_over link_id carried m t
      else ok (record t { downtime_s = t.downtime_s + step_s })

-- `d.get(k, 0)`
abbrev pub or_zero : Option ℕ → ℕ
or_zero none = 0
or_zero (some n) = n

-- the loop over the choices that carries the traffic
unfoldable pub serve : ℕ → Dict ℕ → Choices → Totals → Result Totals
unfolding send_over
serve step_s traffic [] t = ok t
serve step_s traffic ((class_id, none) ∷ rest) t =
    serve step_s traffic rest (record t { refused_s = t.refused_s + step_s })
serve step_s traffic ((class_id, some link_id) ∷ rest) t = do
  t' ← send_over step_s (or_zero (get class_id traffic) * step_s) link_id t
  serve step_s traffic rest t'
