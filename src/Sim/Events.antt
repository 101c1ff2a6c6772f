-- ===== src/Sim/Events.antt =====
-- sim/run.py: what an event of a scenario does to the links and to the authority.
use pilotfish.Base.{ℕ, Bool, true, false, Option, none, some, List, [], ◌∷◌, if◌then◌else◌, ◌==◌}
use pilotfish.Base.Dict.{Dict, get, change}
use pilotfish.Base.Result.{Result, ok, err, attribute_error, ◌>>=◌}
use pilotfish.Base.Text.{Text}
use pilotfish.Float.{Float}
use pilotfish.Sim.Links.{LinkModel, Kind, satellite, fso, num}
use pilotfish.Sim.Scenario.{
  Event, EventKind, link_down, link_up, fog, clear, obstruct, unobstruct, sensor_fail,
  sensor_recover, authority_unreachable, authority_reachable,
}

-- the assignments of `_apply_event` to the model of the target; an attribute that a class does not
-- read has no effect on it
abbrev pub set_visibility : Float → Kind → Kind
set_visibility x (fso v b u) = fso x b u
set_visibility x k = k

abbrev pub set_obstructed : Bool → Kind → Kind
set_obstructed x (satellite b o q c) = satellite b x q c
set_obstructed x k = k

abbrev pub on_kind : (Kind → Kind) → LinkModel → LinkModel
on_kind f m = record m { kind = f m.kind }

-- the change that an event makes to its target, if it is about a link
unfoldable pub change_of : EventKind → Option (LinkModel → LinkModel)
change_of link_down = some (λ m. record m { up = false })
change_of link_up = some (λ m. record m { up = true })
change_of fog = some (on_kind (set_visibility (num 80)))
change_of clear = some (on_kind (set_visibility (num 8000)))
change_of obstruct = some (on_kind (set_obstructed true))
change_of unobstruct = some (on_kind (set_obstructed false))
change_of sensor_fail = some (λ m. record m { sensor_failed = true })
change_of sensor_recover = some (λ m. record m { sensor_failed = false })
change_of authority_unreachable = none
change_of authority_reachable = none

-- what `_apply_event` returns
unfoldable pub reachable_after : EventKind → Bool → Bool
reachable_after authority_unreachable authority = false
reachable_after authority_reachable authority = true
reachable_after _ authority = authority

-- an assignment to an attribute of `fleet.models.get(target)`, which raises on None
unfoldable pub change_target :
    Text → (LinkModel → LinkModel) → Dict LinkModel → Result (Dict LinkModel)
unfolding get change
change_target target f fleet = elim (get target fleet) [
  | none ↦ err attribute_error
  | some m ↦ ok (change target f fleet)
]

unfoldable pub change_fleet : Event → Dict LinkModel → Result (Dict LinkModel)
unfolding change_of change_target
change_fleet event fleet = elim (change_of event.kind) [
  | none ↦ ok fleet
  | some f ↦ change_target event.target f fleet
]

-- `_apply_event` on the events of one time, in their order
unfoldable pub apply_events :
    ℕ → List Event → Dict LinkModel → Bool → Result (Dict LinkModel × Bool)
unfolding change_fleet reachable_after
apply_events at_s [] fleet authority = ok (fleet, authority)
apply_events at_s (e ∷ es) fleet authority =
    let skipped = apply_events at_s es fleet authority in
    let applied = change_fleet e fleet >>= λ changed.
    apply_events at_s es changed (reachable_after e.kind authority) in
    if e.at_s == at_s then applied else skipped
