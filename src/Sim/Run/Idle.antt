-- ===== src/Sim/Run/Idle.antt =====
-- The fleet of a run without its traffic: events commute with forgetting it, and carrying is forgotten.
use pilotfish.Base.{
  ℕ, ◌≡◌, refl, ap, ◌∙◌, Bool, Option, none, some, List, [], ◌∷◌, ◌==◌, Bool-cases, Option-cases,
  inl, inr, arith,
}
use pilotfish.Base.Dict.{Dict, get, change, lookup}
use pilotfish.Base.Result.{ok, >>=-eq-ok, map_result}
use pilotfish.Base.Text.{Text, text_eq}
use pilotfish.Sim.Links.{LinkModel, carry, model_up, is_up}
use pilotfish.Sim.Metrics.{Choices}
use pilotfish.Sim.Traffic.{Totals, serve, send_over, carry_over}
use pilotfish.Sim.Events.{change_of, change_target, change_fleet, reachable_after, apply_events}
use pilotfish.Sim.Run.{up_now}
use pilotfish.Sim.Scenario.{
  Event, EventKind, link_down, link_up, fog, clear, obstruct, unobstruct, sensor_fail,
  sensor_recover, authority_unreachable, authority_reachable,
}

-- A model without its traffic.
abbrev pub idle : LinkModel → LinkModel
idle m = record m { bytes_carried = 0 }

unfoldable pub idle_fleet : Dict LinkModel → Dict LinkModel
idle_fleet [] = []
idle_fleet ((k, m) ∷ rest) = (k, idle m) ∷ idle_fleet rest

abbrev pub idle_some : Option LinkModel → Option LinkModel
idle_some none = none
idle_some (some m) = some (idle m)

pub get-idle :
    (k : Text) (fleet : Dict LinkModel) → get k (idle_fleet fleet) ≡ idle_some (get k fleet)
unfolding get idle_fleet
get-idle k [] = refl
get-idle k ((j, m) ∷ rest) = ground (arith, get-idle k rest)

-- A change that commutes with forgetting the traffic does so on the fleet.
change-idle :
    (k : Text) (f : LinkModel → LinkModel) (fleet : Dict LinkModel)
    → ((m : LinkModel) → idle (f m) ≡ f (idle m))
    → change k f (idle_fleet fleet) ≡ idle_fleet (change k f fleet)
unfolding change idle_fleet
change-idle k f [] h = refl
change-idle k f ((j, m) ∷ rest) h = elim (Bool-cases (text_eq j k)) [
  | inl e ↦ rw (e, h m)
  | inr e ↦ rw (e, change-idle k f rest h)
]

-- A change of the traffic alone is forgotten.
change-forgotten :
    (k : Text) (f : LinkModel → LinkModel) (fleet : Dict LinkModel)
    → ((m : LinkModel) → idle (f m) ≡ idle m)
    → idle_fleet (change k f fleet) ≡ idle_fleet fleet
unfolding change idle_fleet
change-forgotten k f [] h = refl
change-forgotten k f ((j, m) ∷ rest) h = elim (Bool-cases (text_eq j k)) [
  | inl e ↦ rw (e, h m)
  | inr e ↦ rw (e, change-forgotten k f rest h)
]

-- What an event does to its target commutes with forgetting the traffic.
abbrev Commutes : Option (LinkModel → LinkModel) → Type 0
Commutes none = Unit
Commutes (some f) = (m : LinkModel) → idle (f m) ≡ f (idle m)

change_of-Commutes : (e : EventKind) → Commutes (change_of e)
unfolding change_of
change_of-Commutes link_down = λ m. refl
change_of-Commutes link_up = λ m. refl
change_of-Commutes fog = λ m. refl
change_of-Commutes clear = λ m. refl
change_of-Commutes obstruct = λ m. refl
change_of-Commutes unobstruct = λ m. refl
change_of-Commutes sensor_fail = λ m. refl
change_of-Commutes sensor_recover = λ m. refl
change_of-Commutes authority_unreachable = tt
change_of-Commutes authority_reachable = tt

change_target-idle :
    (k : Text) (f : LinkModel → LinkModel) (fleet fleet' : Dict LinkModel)
    → ((m : LinkModel) → idle (f m) ≡ f (idle m))
    → change_target k f fleet ≡ ok fleet'
    → change_target k f (idle_fleet fleet) ≡ ok (idle_fleet fleet')
unfolding change_target
change_target-idle k f fleet fleet' commutes h =
    ground (arith, get-idle k fleet, change-idle k f fleet commutes)

change_fleet-idle :
    (e : Event) (fleet fleet' : Dict LinkModel)
    → change_fleet e fleet ≡ ok fleet'
    → change_fleet e (idle_fleet fleet) ≡ ok (idle_fleet fleet')
unfolding change_fleet
change_fleet-idle e fleet fleet' h = elim (Option-cases (change_of e.kind)) [
  | inl q ↦
      let h' = rw (q, change_fleet) at h in rw (q, change_fleet) (ap (map_result idle_fleet) h')
  | inr (f, q) ↦
      let h' = rw (q, change_fleet) at h in
      let commutes = rw q at (change_of-Commutes e.kind) in
      rw (q, change_fleet) (change_target-idle e.target f fleet fleet' commutes h')
]

pub apply_events-idle :
    (at_s : ℕ) (es : List Event) (fleet fleet' : Dict LinkModel) (a a' : Bool)
    → apply_events at_s es fleet a ≡ ok (fleet', a')
    → apply_events at_s es (idle_fleet fleet) a ≡ ok (idle_fleet fleet', a')
unfolding apply_events
apply_events-idle at_s [] fleet fleet' a a' h = ground arith
apply_events-idle at_s (e ∷ es) fleet fleet' a a' h = elim (Bool-cases (e.at_s == at_s)) [
  | inl q ↦
      let (changed, first, rest) =
        >>=-eq-ok (change_fleet e fleet)
          (λ changed. apply_events at_s es changed (reachable_after e.kind a)) (rw q at h) in
      rw (q, change_fleet-idle e fleet changed first)
        (apply_events-idle at_s es changed fleet' (reachable_after e.kind a) a' rest)
  | inr q ↦ let h' = rw q at h in rw q (apply_events-idle at_s es fleet fleet' a a' h')
]

-- Carrying traffic changes nothing else of the fleet.
carry-idle : (bytes : ℕ) (m : LinkModel) → idle (carry bytes m) ≡ idle m
unfolding carry
carry-idle bytes m = refl

carry_over-idle :
    (link_id : Text) (bytes : ℕ) (m : LinkModel) (t t' : Totals)
    → carry_over link_id bytes m t ≡ ok t'
    → idle_fleet t'.fleet ≡ idle_fleet t.fleet
unfolding carry_over
carry_over-idle link_id bytes m t t' h =
    ground (arith, change-forgotten link_id (carry bytes) t.fleet (carry-idle bytes))

pub send_over-idle :
    (step_s bytes : ℕ) (link_id : Text) (t t' : Totals)
    → send_over step_s bytes link_id t ≡ ok t'
    → idle_fleet t'.fleet ≡ idle_fleet t.fleet
unfolding send_over
send_over-idle step_s bytes link_id t t' h =
    let (up, _, h1) = >>=-eq-ok (is_up t.fleet link_id) _ h in
    let (m, _, h2) = >>=-eq-ok (lookup link_id t.fleet) _ h1 in
    ground (arith, carry_over-idle link_id bytes m t t')

pub serve-idle :
    (step_s : ℕ) (traffic : Dict ℕ) (choices : Choices) (t t' : Totals)
    → serve step_s traffic choices t ≡ ok t'
    → idle_fleet t'.fleet ≡ idle_fleet t.fleet
unfolding serve
serve-idle step_s traffic [] t t' h = ground arith
serve-idle step_s traffic ((c, none) ∷ rest) t t' h = serve-idle step_s traffic rest _ t' h
serve-idle step_s traffic ((c, some l) ∷ rest) t t' h =
    let (mid, first, later) = >>=-eq-ok (send_over step_s _ l t) _ h in
    serve-idle step_s traffic rest mid t' later ∙ send_over-idle step_s _ l t mid first

pub up_now-idle : (fleet : Dict LinkModel) → up_now (idle_fleet fleet) ≡ up_now fleet
unfolding idle_fleet model_up
up_now-idle [] = refl
up_now-idle ((k, m) ∷ rest) = ap (◌∷◌ (k, model_up m)) (up_now-idle rest)
