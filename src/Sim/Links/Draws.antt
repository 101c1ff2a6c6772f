-- ===== src/Sim/Links/Draws.antt =====
-- How far a step moves the generator: one draw for each model that reports and is up.
use pilotfish.Base.{ℕ, ◌≡◌, refl, Bool, ◌&&◌, List, [], ◌∷◌, ◌++◌, if◌then◌else◌, arith}
use pilotfish.Base.Dict.{Dict}
use pilotfish.Base.Exec.{pure, ◌>>=◌, >>=-returned}
use pilotfish.Base.Result.{ok}
use pilotfish.Core.Models.{Observation, Time}
use pilotfish.Float.Arith.{float_add, float_mul}
use pilotfish.Float.{Float, zero_point, one_point}
use pilotfish.Sim.Links.{
  Random, Kind, LinkModel, fiber, lte, satellite, fso, num, below_zero, model_up, clears,
}
use pilotfish.Sim.Links.Observe.{
  step, fleet_step, observe_kind, metered_observations, only_liveness, fiber_observations,
  fso_observations, fso_latency,
}

-- the range from which a class draws
unfoldable pub range_of : Kind → Float × Float
range_of (fiber b) = (below_zero 0, num 2)
range_of (lte q b c x) = (below_zero 4, num 15)
range_of (satellite b o q x) = (below_zero 4, num 25)
range_of (fso v b u) = (zero_point, one_point)

module _ {R : Type 0} (random : Random R) where
  unfoldable pub rng_after : LinkModel → R → R
  unfolding range_of
  rng_after m r =
      let (lo, hi) = range_of m.kind in
      if m.sensor_failed then r else if model_up m then (random.uniform lo hi r).1 else r

  unfoldable pub rng_after_all : Dict LinkModel → R → R
  rng_after_all [] r = r
  rng_after_all ((k, m) ∷ rest) r = rng_after_all rest (rng_after m r)

  metered-rng :
      (m : LinkModel) (t : Time) (fixed : Float) (spread : ℕ) (quota : Float) (r : R)
      → (metered_observations random m t fixed spread quota r).1
        ≡ (random.uniform (below_zero 4) (num spread) r).1
  unfolding metered_observations
  metered-rng m t fixed spread quota r = ground arith

  fiber-rng :
      (m : LinkModel) (t : Time) (base : Float) (r : R)
      → (fiber_observations random m t base r).1 ≡ (random.uniform (below_zero 0) (num 2) r).1
  unfolding fiber_observations
  fiber-rng m t base r = ground arith

  only_liveness-rng : (m : LinkModel) (t : Time) (r : R) → (only_liveness random m t r).1 ≡ r
  unfolding only_liveness
  only_liveness-rng m t r = ground arith

  latency-rng :
      (m : LinkModel) (t : Time) (base : Float) (r : R)
      → (fso_latency random m t base r).1 ≡ (random.uniform zero_point one_point r).1
  unfolding fso_latency
  latency-rng m t base r = ground arith

  fso-rng :
      (usable : Bool) (m : LinkModel) (t : Time) (visibility base : Float) (r : R)
      (os : List Observation)
      → (fso_observations random usable m t visibility base r).0 ≡ ok os
      → (fso_observations random usable m t visibility base r).1
        ≡ (if usable then (random.uniform zero_point one_point r).1 else r)
  unfolding fso_observations
  fso-rng usable m t visibility base r os h = ground (arith, latency-rng m t base r)

  observe_kind-rng :
      (k : Kind) (m : LinkModel) (t : Time) (r : R) (os : List Observation)
      → m.kind ≡ k
      → (observe_kind random k m t r).0 ≡ ok os
      → (observe_kind random k m t r).1
        ≡ (if model_up m then (random.uniform (range_of k).0 (range_of k).1 r).1 else r)
  unfolding observe_kind range_of model_up
  observe_kind-rng (fiber b) m t r os e h =
      rw e (ground (arith, fiber-rng m t b r, only_liveness-rng m t r))
  observe_kind-rng (lte q b c x) m t r os e h = rw e (
      ground (
        arith,
        metered-rng m t (float_mul b (float_add one_point c)) 15 q r,
        only_liveness-rng m t r,
      ))
  observe_kind-rng (satellite b o q x) m t r os e h = rw e (
      ground (
        arith,
        metered-rng m t (float_add b (if o then num 400 else zero_point)) 25 q r,
        only_liveness-rng m t r,
      ))
  observe_kind-rng (fso v b u) m t r os e h = rw e (fso-rng (m.up && clears v u) m t v b r os h)

  -- A step that returned has drawn once for each model that reports and is up.
  pub step-rng :
      (m : LinkModel) (t : Time) (r : R) (os : List Observation)
      → (step random m t r).0 ≡ ok os
      → (step random m t r).1 ≡ rng_after m r
  unfolding step rng_after
  step-rng m t r os h = ground (arith, observe_kind-rng m.kind m t r os refl)

  pub fleet_step-rng :
      (fleet : Dict LinkModel) (t : Time) (r : R) (os : List Observation)
      → (fleet_step random fleet t r).0 ≡ ok os
      → (fleet_step random fleet t r).1 ≡ rng_after_all fleet r
  unfolding fleet_step rng_after_all
  fleet_step-rng [] t r os h = refl
  fleet_step-rng ((k, m) ∷ rest) t r os h =
      let (seen, first, h1) =
        >>=-returned (step random m t)
          (λ seen. fleet_step random rest t >>= λ more. pure (seen ++ more)) r os h in
      let (more, later, h2) =
        >>=-returned (fleet_step random rest t) (λ more. pure (seen ++ more)) (step random m t r).1
          os h1 in
      let moved = step-rng m t r seen first in
      ground (arith, moved, fleet_step-rng rest t (rng_after m r) more (rw moved at later))
