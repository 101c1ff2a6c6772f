-- ===== src/Sim/Scenario.antt =====
-- sim/scenario.py: a site, its links, its traffic, and what goes wrong. Seconds and bytes are whole
-- numbers from 0 on. `fleet` is what the factory builds anew for every run.
use pilotfish.Base.{ℕ, zero, suc, ◌/◌, none, some, List, [], ◌∷◌}
use pilotfish.Base.Dict.{Dict, get}
use pilotfish.Base.Result.{Result, ok, err, value_error, zero_division_error}
use pilotfish.Base.Text.{Text, text}
use pilotfish.Core.Bundle.{PolicyBundle}
use pilotfish.Sim.Links.{LinkModel}

pub data EventKind : Type 0 where
  link_down link_up fog clear obstruct unobstruct sensor_fail sensor_recover : EventKind
  authority_unreachable authority_reachable : EventKind

-- EVENT_KINDS, with the texts that stand for the kinds
abbrev pub event_kinds : Dict EventKind
event_kinds =
    (text "link_down", link_down)
    ∷ (text "link_up", link_up)
    ∷ (text "fog", fog)
    ∷ (text "clear", clear)
    ∷ (text "obstruct", obstruct)
    ∷ (text "unobstruct", unobstruct)
    ∷ (text "sensor_fail", sensor_fail)
    ∷ (text "sensor_recover", sensor_recover)
    ∷ (text "authority_unreachable", authority_unreachable)
    ∷ (text "authority_reachable", authority_reachable)
    ∷ []

pub record Event : Type 0 where
  pub at_s : ℕ
  pub kind : EventKind
  pub target : Text

-- `Event(...)`, with its `__post_init__`
unfoldable pub new_event : ℕ → Text → Text → Result Event
unfolding get
new_event at_s kind target = elim (get kind event_kinds) [
  | none ↦ err value_error
  | some k ↦ ok (record { at_s = at_s; kind = k; target = target })
]

pub record Scenario : Type 0 where
  pub name : Text
  pub site_id : Text
  pub bundle : PolicyBundle
  pub fleet : Dict LinkModel
  pub traffic_bytes_per_s : Dict ℕ
  pub events : List Event
  pub duration_s : ℕ
  pub step_s : ℕ

-- `a // b`
unfoldable pub floor_div : ℕ → ℕ → Result ℕ
floor_div a zero = err zero_division_error
floor_div a (suc b) = ok (a / suc b)

-- `Scenario.steps`
unfoldable pub steps : Scenario → Result ℕ
unfolding floor_div
steps scenario = floor_div scenario.duration_s scenario.step_s
