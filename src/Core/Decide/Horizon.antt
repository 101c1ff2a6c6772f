-- ===== src/Core/Decide/Horizon.antt =====
-- Evidence dated past the skew allowance changes nothing.
use pilotfish.Base.{◌≡◌, refl, List, [], ◌∷◌, ◌++◌, arith, Bool}
use pilotfish.Base.Int.{◌<ℤ◌, ◌+ℤ◌}
use pilotfish.Base.Lists.{filter, All}
use pilotfish.Base.Text.{Text}
use pilotfish.Core.Models.{Observation, Time, as_of, in_horizon, max_clock_skew}
use pilotfish.Core.Bundle.{PolicyBundle}
use pilotfish.Core.Decide.{decide}
use pilotfish.Platform.{Platform}

abbrev pub IsFuture : Time → List Observation → Type 0
IsFuture now os = All (λ o. (now +ℤ max_clock_skew) <ℤ o.at) os

filter_future :
    (now : Time) (xs future ys : List Observation)
    → IsFuture now future
    → filter (in_horizon now) (xs ++ (future ++ ys)) ≡ filter (in_horizon now) (xs ++ ys)
unfolding filter in_horizon
filter_future now [] [] ys h = refl
filter_future now [] (o ∷ os) ys h = ground (arith, filter_future now [] os ys h.1)
filter_future now (x ∷ xs) future ys h = rw (filter_future now xs future ys h)

-- A decision on a snapshot into which observations from the future were slipped, anywhere, is the
-- decision without them: the permitted sets, the reasons and the evidence hash.
pub future_evidence_ignored :
    ⦃p : Platform⦄ (b : PolicyBundle) (xs future ys : List Observation) (now : Time)
    (site_id : Text) (degraded : Bool)
    → IsFuture now future
    → decide b (record { observations = xs ++ (future ++ ys) }) now site_id degraded
      ≡ decide b (record { observations = xs ++ ys }) now site_id degraded
unfolding decide as_of
future_evidence_ignored b xs future ys now site_id degraded h =
    rw (filter_future now xs future ys h)
