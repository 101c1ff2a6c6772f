-- ===== src/Sim/Run/Counts.antt =====
-- The measures of a run, counted again from its frames.
use pilotfish.Base.{
  ℕ, ◌+◌, ◌*◌, ◌≡◌, refl, sym, subst, ap, ◌∙◌, Bool, true, false, none, some, [], ◌∷◌, ◌++◌, map,
  if◌then◌else◌, map-append, arith,
}
use pilotfish.Base.Dict.{Dict, get, lookup, found}
use pilotfish.Base.Int.{ℤ}
use pilotfish.Base.Result.{ok, >>=-eq-ok}
use pilotfish.Base.Text.{Text}
use pilotfish.Sim.Links.{Random, LinkModel, is_up}
use pilotfish.Sim.Metrics.{Choices, RunResult}
use pilotfish.Sim.Traffic.{Totals, serve, send_over, carry_over}
use pilotfish.Sim.Run.{Loop, up_now, after_step, run, start, totals_before, frame_of}
use pilotfish.Sim.Run.Idle.{serve-idle, send_over-idle, up_now-idle}
use pilotfish.Sim.Run.Steps.{Stepped, run_steps-keeps, run-Ran}
use pilotfish.Sim.Scenario
use pilotfish.Sim.Scenario.{Scenario}
use pilotfish.Sim.Selectors.{Selector}
use pilotfish.Sim.Run.Frames.{
  refused_in, shows_down, down_in, refused_over, down_over, flaps_over, last_choices, times,
  times-next, add_scaled, refused_over-next, down_over-next, flaps_over-next, last_choices-next,
}

-- `is_up` tells what the frame shows.
pub is_up-up_now :
    (fleet : Dict LinkModel) (l : Text) (b : Bool)
    → is_up fleet l ≡ ok b
    → get l (up_now fleet) ≡ some b
unfolding is_up lookup get found
is_up-up_now [] l b h = ground arith
is_up-up_now ((k, m) ∷ rest) l b h = ground (arith, is_up-up_now rest l b)

carry_over-keeps :
    (l : Text) (bytes : ℕ) (m : LinkModel) (t t' : Totals)
    → carry_over l bytes m t ≡ ok t'
    → (t'.refused_s ≡ t.refused_s) × (t'.downtime_s ≡ t.downtime_s)
unfolding carry_over
carry_over-keeps l bytes m t t' h = ground arith

sent-counts :
    (up : Bool) (step_s bytes : ℕ) (l : Text) (m : LinkModel) (t t' : Totals)
    → (if up then carry_over l bytes m t else ok (record t { downtime_s = t.downtime_s + step_s }))
      ≡ ok t'
    → (t'.refused_s ≡ t.refused_s) × (t'.downtime_s ≡ t.downtime_s + step_s * shows_down (some up))
sent-counts true step_s bytes l m t t' h =
    let (same, kept) = carry_over-keeps l bytes m t t' h in (same, grind arith)
sent-counts false step_s bytes l m t t' h = (ground arith, grind arith)

send_over-counts :
    (step_s bytes : ℕ) (l : Text) (t t' : Totals)
    → send_over step_s bytes l t ≡ ok t'
    → (t'.refused_s ≡ t.refused_s)
      × (t'.downtime_s ≡ t.downtime_s + step_s * shows_down (get l (up_now t.fleet)))
unfolding send_over
send_over-counts step_s bytes l t t' h =
    let (up, asked, h1) = >>=-eq-ok (is_up t.fleet l) _ h in
    let (m, _, h2) = >>=-eq-ok (lookup l t.fleet) _ h1 in
    let shown = is_up-up_now t.fleet l up asked in
    let (same, more) = sent-counts up step_s bytes l m t t' h2 in (same, rw shown more)

-- Serving the choices adds a step for each refusal, and one for each link that is down.
pub serve-counts :
    (step_s : ℕ) (traffic : Dict ℕ) (choices : Choices) (t t' : Totals)
    → serve step_s traffic choices t ≡ ok t'
    → (t'.refused_s ≡ t.refused_s + step_s * refused_in choices)
      × (t'.downtime_s ≡ t.downtime_s + step_s * down_in (up_now t.fleet) choices)
unfolding serve refused_in down_in
serve-counts step_s traffic [] t t' h = (grind arith, grind arith)
serve-counts step_s traffic ((c, none) ∷ rest) t t' h =
    let (refused, down) = serve-counts step_s traffic rest _ t' h in (grind arith, down)
serve-counts step_s traffic ((c, some l) ∷ rest) t t' h =
    let (mid, first, later) = >>=-eq-ok (send_over step_s _ l t) _ h in
    let (same, more) = send_over-counts step_s _ l t mid first in
    let (refused, down) = serve-counts step_s traffic rest mid t' later in
    let idle = send_over-idle step_s _ l t mid first in
    let shows : up_now mid.fleet ≡ up_now t.fleet =
      sym (up_now-idle mid.fleet) ∙ (ap up_now idle ∙ up_now-idle t.fleet) in
    let down' = rw shows at down in (grind arith, grind arith)

module _ {R S : Type 0} (random : Random R) (scenario : Scenario) (selector : Selector S) where
  -- The measures agree with the frames of a run that has made `n` steps.
  pub record IsAudited (n : ℕ) (result : RunResult) : Type 0 where
    pub steps : result.steps ≡ n
    pub timed : map (λ f. f.at_s) result.frames ≡ times scenario.step_s n
    pub refused : result.refused_s ≡ scenario.step_s * refused_over result.frames
    pub down : result.downtime_s ≡ scenario.step_s * down_over result.frames
    pub flaps : result.flaps ≡ flaps_over [] result.frames
    pub spaced : result.step_s ≡ scenario.step_s

  abbrev Audit : ℕ → Loop R S → Type 0
  Audit n loop = IsAudited n loop.result × (loop.previous ≡ last_choices [] loop.result.frames)

  Stepped-Audit :
      (index : ℕ) (loop loop' : Loop R S)
      → Stepped random scenario selector index loop loop'
      → Audit index loop
      → Audit (index + 1) loop'
  unfolding after_step
  Stepped-Audit index loop loop' s (a, last) =
      let before = totals_before random scenario selector s.fleet loop in
      let (refused, down) =
        serve-counts scenario.step_s scenario.traffic_bytes_per_s s.choices before s.totals
          s.served in
      let idle =
        serve-idle scenario.step_s scenario.traffic_bytes_per_s s.choices before s.totals
          s.served in
      let shows : up_now s.fleet ≡ up_now s.totals.fleet =
        sym (up_now-idle s.fleet) ∙ (ap up_now (sym idle) ∙ up_now-idle s.totals.fleet) in
      let fs = loop.result.frames in
      let f =
        frame_of random scenario selector (index * scenario.step_s) s.choices s.totals.fleet
          s.authority in
      subst (Audit (index + 1)) (sym s.after) (
        record {
          steps = omega (arith, a.steps);
          timed =
              map-append (λ g. g.at_s) fs (f ∷ [])
              ∙ (ap (λ ts. ts ++ index * scenario.step_s ∷ []) a.timed
                  ∙ sym (times-next scenario.step_s index));
          refused = rw (refused_over-next fs f) (
              add_scaled scenario.step_s (refused_over fs) (refused_in s.choices) _ _ a.refused
                refused);
          down = rw (down_over-next fs f) (
              add_scaled scenario.step_s (down_over fs) (down_in (up_now s.totals.fleet) s.choices)
                _ _ a.down (rw shows at down));
          flaps = rw (flaps_over-next fs f loop.previous last, a.flaps);
          spaced = a.spaced;
        },
        last_choices-next fs f,
      )

  start-Audit : (seed : ℤ) (s : S) → Audit 0 (start random scenario selector seed s)
  unfolding start last_choices times refused_over down_over flaps_over
  start-Audit seed s = (
    record {
      steps = refl;
      timed = refl;
      refused = omega arith;
      down = omega arith;
      flaps = refl;
      spaced = refl;
    },
    refl,
  )

  -- The measures of a run that returns are those of its frames: it has made as many steps as the
  -- scenario has, with one frame at each multiple of the step; the refused and the down seconds are
  -- a step for each choice of nothing and for each choice of a link that its frame shows down, and
  -- the flaps are the choices that differ from the frame before.
  pub run-IsAudited :
      (seed : ℤ) (held held' : S) (result : RunResult)
      → run random scenario selector seed held ≡ ok (result, held')
      → (n : ℕ) × (Scenario.steps scenario ≡ ok n) × IsAudited n result
  run-IsAudited seed held held' result h =
      let r = run-Ran random scenario selector seed held held' result h in
      let (audited, _) =
        run_steps-keeps random scenario selector Audit Stepped-Audit r.n 0 _ r.loop r.looped
          (start-Audit seed r.fresh) in
      (
        r.n,
        r.counted,
        subst (IsAudited r.n) r.ended
            (subst (λ k. IsAudited k r.loop.result) (omega arith) audited),
      )
