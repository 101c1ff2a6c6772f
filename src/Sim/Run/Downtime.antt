-- ===== src/Sim/Run/Downtime.antt =====
-- Selectors that choose by what they observe are never put down by a link: run.py and selectors.py
-- together.
use pilotfish.Base.{
  ℕ, ◌+◌, ◌*◌, ◌≡◌, refl, sym, subst, ap, ◌∙◌, Bool, true, Option, none, some, List, [], ◌∷◌,
  Bool-cases, Option-cases, inl, inr, ◌==◌, arith,
}
use pilotfish.Base.Dict.{Dict, get, change, get-change}
use pilotfish.Base.Int.{ℤ, pos, ◌+ℤ◌}
use pilotfish.Base.Lists.{All, All-append}
use pilotfish.Base.Result.{ok, >>=-eq-ok}
use pilotfish.Base.Text.{Text, text_eq}
use pilotfish.Core.Models.{EvidenceSnapshot, second}
use pilotfish.Sim.Links.{Random, LinkModel}
use pilotfish.Sim.Metrics.{Frame, Choices, RunResult}
use pilotfish.Sim.Events.{change_of, change_target, change_fleet, reachable_after, apply_events}
use pilotfish.Sim.Run.{Loop, up_now, after_step, run, start, totals_before, t0}
use pilotfish.Sim.Run.Frames.{refused_over, down_in}
use pilotfish.Sim.Run.Counts.{run-IsAudited, is_up-up_now, serve-counts}
use pilotfish.Sim.Run.Idle.{up_now-idle, idle_fleet, idle_some, get-idle, serve-idle}
use pilotfish.Sim.Run.Steps.{Stepped, run_steps-keeps, run-Ran}
use pilotfish.Sim.Scenario.{
  Event, EventKind, Scenario, link_down, link_up, fog, clear, obstruct, unobstruct, sensor_fail,
  sensor_recover, authority_unreachable, authority_reachable,
}
use pilotfish.Sim.Selectors.{Selector, observed_up}
use pilotfish.Sim.Selectors.Observed.{
  IsWatchful, ChosenUp, IsNamed, reported_up, observed_up-reported_up, reported_up-is_up,
}

-- A change of models that keeps their ids keeps them named.
get-change-none :
    (k j : Text) (f : LinkModel → LinkModel) (fleet : Dict LinkModel)
    → get j fleet ≡ none
    → get j (change k f fleet) ≡ none
get-change-none k j f fleet h = ground (arith, get-change k j f fleet)

change-IsNamed :
    (k : Text) (f : LinkModel → LinkModel) (fleet : Dict LinkModel)
    → ((m : LinkModel) → (f m).link_id ≡ m.link_id)
    → IsNamed fleet
    → IsNamed (change k f fleet)
unfolding change
change-IsNamed k f [] keeps named = tt
change-IsNamed k f ((j, m) ∷ rest) keeps (own, fresh, named) = elim (Bool-cases (text_eq j k)) [
  | inl e ↦ rw e (keeps m ∙ own, fresh, named)
  | inr e ↦ rw e (own, get-change-none k j f rest fresh, change-IsNamed k f rest keeps named)
]

abbrev KeepsId : Option (LinkModel → LinkModel) → Type 0
KeepsId none = Unit
KeepsId (some f) = (m : LinkModel) → (f m).link_id ≡ m.link_id

change_of-KeepsId : (e : EventKind) → KeepsId (change_of e)
unfolding change_of
change_of-KeepsId link_down = λ m. refl
change_of-KeepsId link_up = λ m. refl
change_of-KeepsId fog = λ m. refl
change_of-KeepsId clear = λ m. refl
change_of-KeepsId obstruct = λ m. refl
change_of-KeepsId unobstruct = λ m. refl
change_of-KeepsId sensor_fail = λ m. refl
change_of-KeepsId sensor_recover = λ m. refl
change_of-KeepsId authority_unreachable = tt
change_of-KeepsId authority_reachable = tt

change_target-eq :
    (k : Text) (f : LinkModel → LinkModel) (fleet fleet' : Dict LinkModel)
    → change_target k f fleet ≡ ok fleet'
    → change k f fleet ≡ fleet'
unfolding change_target
change_target-eq k f fleet fleet' h = ground arith

change_fleet-IsNamed :
    (e : Event) (fleet fleet' : Dict LinkModel)
    → change_fleet e fleet ≡ ok fleet'
    → IsNamed fleet
    → IsNamed fleet'
unfolding change_fleet
change_fleet-IsNamed e fleet fleet' h named = elim (Option-cases (change_of e.kind)) [
  | inl q ↦ let h' : ok fleet ≡ ok fleet' = rw (q, change_fleet) at h in subst IsNamed (cc) named
  | inr (f, q) ↦
      let h' = rw (q, change_fleet) at h in
      let keeps = rw q at (change_of-KeepsId e.kind) in
      subst IsNamed (change_target-eq e.target f fleet fleet' h')
        (change-IsNamed e.target f fleet keeps named)
]

apply_events-IsNamed :
    (at_s : ℕ) (es : List Event) (fleet fleet' : Dict LinkModel) (a a' : Bool)
    → apply_events at_s es fleet a ≡ ok (fleet', a')
    → IsNamed fleet
    → IsNamed fleet'
unfolding apply_events
apply_events-IsNamed at_s [] fleet fleet' a a' h named = subst IsNamed (cc) named
apply_events-IsNamed at_s (e ∷ es) fleet fleet' a a' h named = elim (Bool-cases (e.at_s == at_s)) [
  | inl q ↦
      let (changed, first, rest) =
        >>=-eq-ok (change_fleet e fleet)
          (λ changed. apply_events at_s es changed (reachable_after e.kind a)) (rw q at h) in
      apply_events-IsNamed at_s es changed fleet' (reachable_after e.kind a) a' rest
        (change_fleet-IsNamed e fleet changed first named)
  | inr q ↦ apply_events-IsNamed at_s es fleet fleet' a a' (rw q at h) named
]

-- Names do not depend on the traffic.
idle_none : (o : Option LinkModel) → idle_some o ≡ none → o ≡ none
idle_none none h = refl
idle_none (some m) h = cc

idle-IsNamed : (fleet : Dict LinkModel) → IsNamed fleet → IsNamed (idle_fleet fleet)
unfolding idle_fleet
idle-IsNamed [] named = tt
idle-IsNamed ((k, m) ∷ rest) (own, fresh, named) =
    (own, get-idle k rest ∙ ap idle_some fresh, idle-IsNamed rest named)

IsNamed-idle : (fleet : Dict LinkModel) → IsNamed (idle_fleet fleet) → IsNamed fleet
unfolding idle_fleet
IsNamed-idle [] named = tt
IsNamed-idle ((k, m) ∷ rest) (own, fresh, named) =
    (own, idle_none (get k rest) (sym (get-idle k rest) ∙ fresh), IsNamed-idle rest named)

-- A class gets nothing, or a link that the frame shows up.
abbrev pub IsServed : Dict Bool → Text × Option Text → Type 0
IsServed up (k, none) = Unit
IsServed up (k, some l) = get l up ≡ some true

abbrev pub IsServedIn : Frame → Type 0
IsServedIn f = All (IsServed f.up) f.choices

-- Choices that are observed up, on what the fleet reported, are up.
chosen-IsServed :
    (fleet : Dict LinkModel) (evidence : EvidenceSnapshot)
    → ((l : Text) → observed_up evidence l ≡ reported_up (get l fleet))
    → (choices : Choices) → All (λ kc. ChosenUp evidence kc.1) choices
    → All (IsServed (up_now fleet)) choices
chosen-IsServed fleet evidence sees [] up = tt
chosen-IsServed fleet evidence sees ((c, none) ∷ rest) (_, up) =
    (tt, chosen-IsServed fleet evidence sees rest up)
chosen-IsServed fleet evidence sees ((c, some l) ∷ rest) (first, up) = (
  is_up-up_now fleet l true (reported_up-is_up fleet l (sym (sees l) ∙ first)),
  chosen-IsServed fleet evidence sees rest up,
)

served-not_down :
    (up : Dict Bool) (choices : Choices) → All (IsServed up) choices → down_in up choices ≡ 0
unfolding down_in
served-not_down up [] served = refl
served-not_down up ((c, none) ∷ rest) (_, served) = served-not_down up rest served
served-not_down up ((c, some l) ∷ rest) (first, served) = rw (first, served-not_down up rest served)

module _ {R S : Type 0} (random : Random R) (scenario : Scenario) (selector : Selector S)
    (watchful : IsWatchful selector) where
  abbrev Untouched : ℕ → Loop R S → Type 0
  Untouched index loop =
      IsNamed loop.fleet × (loop.result.downtime_s ≡ 0) × All IsServedIn loop.result.frames

  Stepped-Untouched :
      (index : ℕ) (loop loop' : Loop R S)
      → Stepped random scenario selector index loop loop'
      → Untouched index loop
      → Untouched (index + 1) loop'
  unfolding after_step
  Stepped-Untouched index loop loop' s (named, none_yet, served) =
      let before = totals_before random scenario selector s.fleet loop in
      let now_named =
        apply_events-IsNamed (index * scenario.step_s) scenario.events loop.fleet s.fleet
          loop.authority_reachable s.authority s.happened named in
      let idle =
        serve-idle scenario.step_s scenario.traffic_bytes_per_s s.choices before s.totals
          s.served in
      let (_, down) =
        serve-counts scenario.step_s scenario.traffic_bytes_per_s s.choices before s.totals
          s.served in
      let up = watchful _ loop.selector s.held s.choices s.chose in
      let sees = λ (l : Text).
        observed_up-reported_up random (t0 +ℤ pos (index * scenario.step_s * second)) s.fleet
          loop.rng s.seen l now_named s.observed in
      let now_served =
        chosen-IsServed s.fleet (record { observations = s.seen }) sees s.choices up in
      let none_down = served-not_down (up_now s.fleet) s.choices now_served in
      let shows : up_now s.fleet ≡ up_now s.totals.fleet =
        sym (up_now-idle s.fleet) ∙ (ap up_now (sym idle) ∙ up_now-idle s.totals.fleet) in
      subst (Untouched (index + 1)) (sym s.after) (
        IsNamed-idle s.totals.fleet (subst IsNamed (sym idle) (idle-IsNamed s.fleet now_named)),
        grind arith,
        All-append IsServedIn loop.result.frames _ served
            (subst (λ u. All (IsServed u) s.choices) shows now_served, tt),
      )

  start-Untouched :
      (seed : ℤ) (s : S)
      → IsNamed scenario.fleet
      → Untouched 0 (start random scenario selector seed s)
  unfolding start
  start-Untouched seed s named = (named, refl, tt)

  -- In a run whose selector chooses only what it observes up, and whose models stand in the fleet
  -- under their own ids, every link that a class gets is up in its frame, whatever goes wrong with
  -- the links: no downtime is counted, and each choice of nothing counts a step as refused.
  pub run-downtime :
      (seed : ℤ) (held held' : S) (result : RunResult)
      → IsNamed scenario.fleet
      → run random scenario selector seed held ≡ ok (result, held')
      → All IsServedIn result.frames
        × (result.downtime_s ≡ 0)
        × (result.refused_s ≡ scenario.step_s * refused_over result.frames)
  run-downtime seed held held' result named h =
      let r = run-Ran random scenario selector seed held held' result h in
      let (_, none_down, served) =
        run_steps-keeps random scenario selector Untouched Stepped-Untouched r.n 0 _ r.loop r.looped
          (start-Untouched seed r.fresh named) in
      let (n, _, audited) = run-IsAudited random scenario selector seed held held' result h in
      (
        subst (λ x. All IsServedIn x.frames) r.ended served,
        ap (λ x. x.downtime_s) (sym r.ended) ∙ none_down,
        audited.refused,
      )
