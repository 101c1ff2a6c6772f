-- ===== src/Sim/Run/World.antt =====
-- What of a run does not depend on the selector: events, generator, the state of the links and of
-- the authority. Only the bytes that the links carried do, and with them the quotas.
use pilotfish.Base.{
  ℕ, zero, suc, ◌+◌, ◌*◌, ◌≡◌, refl, sym, ap, ◌∙◌, Bool, true, List, [], ◌∷◌, ◌++◌, map, map-append,
}
use pilotfish.Base.Dict.{Dict}
use pilotfish.Base.Int.{ℤ}
use pilotfish.Base.Result.{Result, ok, >>=-eq-ok, map_result, ◌>>=◌}
use pilotfish.Core.Models.{second}
use pilotfish.Sim.Links.{Random, LinkModel, model_up}
use pilotfish.Sim.Links.Draws.{rng_after, rng_after_all, fleet_step-rng}
use pilotfish.Sim.Metrics.{Frame, RunResult}
use pilotfish.Sim.Events.{apply_events}
use pilotfish.Sim.Run.{Loop, up_now, after_step, run_step, run_steps, run, start, totals_before}
use pilotfish.Sim.Run.Steps.{Stepped, run_step-Stepped, run-Ran}
use pilotfish.Sim.Scenario
use pilotfish.Sim.Scenario.{
  Event, EventKind, Scenario, link_down, link_up, fog, clear, obstruct, unobstruct, sensor_fail,
  sensor_recover, authority_unreachable, authority_reachable,
}
use pilotfish.Sim.Selectors.{Selector}
use pilotfish.Sim.Run.Idle.{idle_fleet, serve-idle, up_now-idle, apply_events-idle}

-- what a frame shows of the world
pub record Scene : Type 0 where
  pub at_s : ℕ
  pub up : Dict Bool
  pub authority_reachable : Bool

abbrev pub scene_of : Frame → Scene
scene_of f = record { at_s = f.at_s; up = f.up; authority_reachable = f.authority_reachable }

module _ {R : Type 0} (random : Random R) (scenario : Scenario) where
  -- The world of a run: the generator, the links without their traffic, and the authority.
  pub record World : Type 0 where
    pub rng : R
    pub fleet : Dict LinkModel
    pub authority_reachable : Bool
    pub scenes : List Scene

  unfoldable pub world_after : ℕ → List Scene → R → Dict LinkModel × Bool → World
  world_after at_s scenes rng (fleet, authority) = record {
    rng = rng_after_all random fleet rng;
    fleet = fleet;
    authority_reachable = authority;
    scenes =
        scenes ++ record { at_s = at_s; up = up_now fleet; authority_reachable = authority } ∷ [];
  }

  -- One step of the world: the events of its time, and one draw for each link that reports and is
  -- up. No selector has a part in it.
  unfoldable pub world_step : ℕ → World → Result World
  unfolding world_after
  world_step index w =
      apply_events (index * scenario.step_s) scenario.events w.fleet w.authority_reachable
      >>= λ changed. ok (world_after (index * scenario.step_s) w.scenes w.rng changed)

  unfoldable pub world_steps : ℕ → ℕ → World → Result World
  unfolding world_step
  world_steps zero index w = ok w
  world_steps (suc n) index w = world_step index w >>= world_steps n (index + 1)

  rng-idle :
      (fleet : Dict LinkModel) (r : R)
      → rng_after_all random (idle_fleet fleet) r ≡ rng_after_all random fleet r
  unfolding idle_fleet rng_after_all rng_after model_up
  rng-idle [] r = refl
  rng-idle ((k, m) ∷ rest) r = rng-idle rest (rng_after random m r)

  abbrev world_before : ℤ → World
  world_before seed = record {
    rng = random.seeded seed;
    fleet = idle_fleet scenario.fleet;
    authority_reachable = true;
    scenes = [];
  }

  -- The world of a whole run from a seed.
  unfoldable pub world : ℤ → Result World
  unfolding world_steps
  world seed = do n ← Scenario.steps scenario; world_steps n 0 (world_before seed)

  module _ {S : Type 0} (selector : Selector S) where
    unfoldable pub world_of : Loop R S → World
    world_of loop = record {
      rng = loop.rng;
      fleet = idle_fleet loop.fleet;
      authority_reachable = loop.authority_reachable;
      scenes = map scene_of loop.result.frames;
    }

    Stepped-after :
        (index : ℕ) (loop loop' : Loop R S)
        → (s : Stepped random scenario selector index loop loop')
        → world_after
            (index * scenario.step_s)
            (map scene_of loop.result.frames)
            loop.rng
            (idle_fleet s.fleet, s.authority)
          ≡ world_of loop'
    unfolding world_after world_of after_step
    Stepped-after index loop loop' s =
        let served =
          serve-idle scenario.step_s scenario.traffic_bytes_per_s s.choices
            (totals_before random scenario selector s.fleet loop) s.totals s.served in
        let shown : up_now (idle_fleet s.fleet) ≡ up_now s.totals.fleet =
          ap up_now (sym served) ∙ up_now-idle s.totals.fleet in
        let drawn =
          rng-idle s.fleet loop.rng
          ∙ sym (fleet_step-rng random s.fleet _ loop.rng s.seen s.observed) in
        let framed = map-append scene_of loop.result.frames in
        rw (s.after, drawn, shown, served, framed)

    -- A step of a run is a step of its world.
    Stepped-world :
        (index : ℕ) (loop loop' : Loop R S)
        → Stepped random scenario selector index loop loop'
        → world_step index (world_of loop) ≡ ok (world_of loop')
    unfolding world_step
    Stepped-world index loop loop' s =
        let changed =
          apply_events-idle (index * scenario.step_s) scenario.events loop.fleet s.fleet
            loop.authority_reachable s.authority s.happened in
        unfold world_of in rw changed (ap ok (Stepped-after index loop loop' s))

    run_steps-world :
        (n index : ℕ) (loop loop' : Loop R S)
        → run_steps random scenario selector n index loop ≡ ok loop'
        → world_steps n index (world_of loop) ≡ ok (world_of loop')
    unfolding run_steps world_steps
    run_steps-world zero index loop loop' h = ap (map_result world_of) h
    run_steps-world (suc n) index loop loop' h =
        let (mid, first, rest) = >>=-eq-ok (run_step random scenario selector index loop) _ h in
        rw
          (Stepped-world index loop mid
            (run_step-Stepped random scenario selector index loop mid first))
          (run_steps-world n (index + 1) mid loop' rest)

    world_of-scenes : (loop : Loop R S) → (world_of loop).scenes ≡ map scene_of loop.result.frames
    unfolding world_of
    world_of-scenes loop = refl

    world_of-start :
        (seed : ℤ) (s : S) → world_of (start random scenario selector seed s) ≡ world_before seed
    unfolding world_of start
    world_of-start seed s = refl

    -- What the frames of a run show of the links and the authority is the world of its scenario and
    -- seed.
    pub run-world :
        (seed : ℤ) (held held' : S) (result : RunResult)
        → run random scenario selector seed held ≡ ok (result, held')
        → (w : World) × (world seed ≡ ok w) × (map scene_of result.frames ≡ w.scenes)
    unfolding world
    run-world seed held held' result h =
        let r = run-Ran random scenario selector seed held held' result h in
        let followed =
          run_steps-world r.n 0 (start random scenario selector seed r.fresh) r.loop r.looped in
        (
          world_of r.loop,
          rw r.counted (rw (world_of-start seed r.fresh) at followed),
          ap (λ x. map scene_of x.frames) (sym r.ended) ∙ sym (world_of-scenes r.loop),
        )

-- Two selectors face the same world: whatever they choose, the frames of their runs from one seed
-- show the same times, the same links up, and the same contact with the authority.
pub same_world :
    {R S T : Type 0} (random : Random R) (scenario : Scenario) (one : Selector S)
    (other : Selector T) (seed : ℤ) (s s' : S) (t t' : T) (first second : RunResult)
    → run random scenario one seed s ≡ ok (first, s')
    → run random scenario other seed t ≡ ok (second, t')
    → map scene_of first.frames ≡ map scene_of second.frames
same_world random scenario one other seed s s' t t' first second h k =
    let (w, whole, shows) = run-world random scenario one seed s s' first h in
    let (w', whole', shows') = run-world random scenario other seed t t' second k in cc
