-- ===== src/Sim/Links/Observe.antt =====
-- sim/links.py: what the models report at a step.
use pilotfish.Base.{ℕ, Bool, ◌&&◌, List, [], ◌∷◌, ◌++◌, if◌then◌else◌}
use pilotfish.Base.Dict.{Dict}
use pilotfish.Base.Exec.{Exec, pure, lift, ◌>>=◌}
use pilotfish.Base.Result.{Result, ok}
use pilotfish.Base.Text.{text}
use pilotfish.Core.Models.{Observation, Time, new_observation}
use pilotfish.Float.{Float, zero_point, one_point}
use pilotfish.Float.Arith.{float_add, float_mul}
use pilotfish.Sim.Links.{
  Random, Kind, LinkModel, fiber, lte, satellite, fso, num, below_zero, flag, quota_used, clears,
}

-- `_liveness`
unfoldable pub liveness : LinkModel → Time → Result Observation
liveness m t = new_observation m.link_id (text "up") (flag m.up) t (text "agent")

module _ {R : Type 0} (random : Random R) where
  abbrev pub draw : Float → Float → Exec R Float
  draw a b r = let (x, r') = random.uniform a b r in (ok x, r')

  -- the observations of a model with a latency and a quota: LTE or satellite
  unfoldable pub metered_observations :
      LinkModel → Time → Float → ℕ → Float → Exec R (List Observation)
  unfolding liveness
  metered_observations m t fixed spread quota_gb = do
    drawn ← draw (below_zero 4) (num spread)
    alive ← lift (liveness m t)
    latency ←
        lift (new_observation m.link_id (text "rtt_ms") (float_add fixed drawn) t (text "agent"))
    used ← lift (quota_used quota_gb m.bytes_carried)
    quota ← lift (new_observation m.link_id (text "quota_used_pct") used t (text "operator"))
    pure (alive ∷ latency ∷ quota ∷ [])

  unfoldable pub only_liveness : LinkModel → Time → Exec R (List Observation)
  only_liveness m t = do alive ← lift (liveness m t); pure (alive ∷ [])

  -- `FiberModel._observe`, when up
  unfoldable pub fiber_observations : LinkModel → Time → Float → Exec R (List Observation)
  fiber_observations m t base = do
    drawn ← draw (below_zero 0) (num 2)
    alive ← lift (liveness m t)
    latency ←
        lift (new_observation m.link_id (text "rtt_ms") (float_add base drawn) t (text "agent"))
    pure (alive ∷ latency ∷ [])

  -- the latency that a usable FSO model reports
  unfoldable pub fso_latency : LinkModel → Time → Float → Exec R (List Observation)
  fso_latency m t base = do
    drawn ← draw zero_point one_point
    latency ←
        lift (new_observation m.link_id (text "rtt_ms") (float_add base drawn) t (text "agent"))
    pure (latency ∷ [])

  -- `FsoModel._observe`
  unfoldable pub fso_observations :
      Bool → LinkModel → Time → Float → Float → Exec R (List Observation)
  unfolding fso_latency
  fso_observations usable m t visibility base = do
    alive ← lift (new_observation m.link_id (text "up") (flag usable) t (text "agent"))
    seen ← lift (new_observation m.link_id (text "visibility_m") visibility t (text "model"))
    latency ← if usable then fso_latency m t base else pure []
    pure (alive ∷ seen ∷ latency)

  -- `_observe`, of each class
  unfoldable pub observe_kind : Kind → LinkModel → Time → Exec R (List Observation)
  unfolding metered_observations only_liveness fiber_observations fso_observations
  observe_kind (fiber base) m t = if m.up then fiber_observations m t base else only_liveness m t
  observe_kind (lte quota base congestion cost) m t =
      if m.up
      then metered_observations m t (float_mul base (float_add one_point congestion)) 15 quota
      else only_liveness m t
  observe_kind (satellite base obstructed quota cost) m t =
      if m.up
      then metered_observations m t (float_add base (if obstructed then num 400 else zero_point)) 25
          quota
      else only_liveness m t
  observe_kind (fso visibility base usable) m t =
      fso_observations (m.up && clears visibility usable) m t visibility base

  -- `LinkModel.step`
  unfoldable pub step : LinkModel → Time → Exec R (List Observation)
  unfolding observe_kind
  step m t = if m.sensor_failed then pure [] else observe_kind m.kind m t

  -- `LinkFleet.step`
  unfoldable pub fleet_step : Dict LinkModel → Time → Exec R (List Observation)
  unfolding step
  fleet_step [] t = pure []
  fleet_step ((k, m) ∷ rest) t = do seen ← step m t; more ← fleet_step rest t; pure (seen ++ more)
