-- ===== src/Adapters/Noop.antt =====
-- adapters/noop.py: a dataplane that reports what it accepted.
pub mod Enforces
use pilotfish.Base.{Option, none, List, [], ◌∷◌, ◌++◌, if◌then◌else◌}
use pilotfish.Base.Result.{Result, ok}
use pilotfish.Base.Text.{Text, text_eq}
use pilotfish.Core.Decide.{ClassEligibility, EligibilityDecision}
use pilotfish.Agent.Receipts.{PlaneState}
use pilotfish.Agent.Cycle.{DataplaneAdapter}

pub record NoopDataplane : Type 0 where
  pub state : PlaneState
  pub applied : List EligibilityDecision

-- `d[k] = v`, on a `dict` in insertion order
unfoldable pub put : Text → List Text → PlaneState → PlaneState
put k v [] = (k, v) ∷ []
put k v ((j, w) ∷ d) = if text_eq j k then (k, v) ∷ d else (j, w) ∷ put k v d

-- the comprehension of `apply`, on the classes that are left
unfoldable pub held_from : PlaneState → List ClassEligibility → PlaneState
unfolding put
held_from d [] = d
held_from d (c ∷ cs) = held_from (put c.class_id c.permitted d) cs

unfoldable pub apply : EligibilityDecision → NoopDataplane → Option Text × NoopDataplane
unfolding held_from
apply decision plane = (
  none,
  record { state = held_from [] decision.classes; applied = plane.applied ++ decision ∷ [] },
)

unfoldable pub readback : NoopDataplane → Result PlaneState
readback plane = ok plane.state

abbrev pub noop : DataplaneAdapter NoopDataplane
noop = record { apply = apply; readback = readback }
