-- ===== src/Sim/Selectors/Observed.antt =====
-- What a selector sees of the links' state, against what the fleet knows at the same time.
use pilotfish.Base.{
  ◌≡◌, refl, Bool, true, false, not, ◌&&◌, Option, none, some, List, [], ◌∷◌, if◌then◌else◌, arith,
}
use pilotfish.Base.Dict.{Dict, get, lookup, found}
use pilotfish.Base.Lists.{All}
use pilotfish.Base.Result.{ok}
use pilotfish.Sim.Metrics.{Choices}
use pilotfish.Base.Text.{Text, text_eq_iff}
use pilotfish.Core.Models.{Observation, EvidenceSnapshot, Time, latest, newest_of, newest}
use pilotfish.Sim.Links.{Random, LinkModel, model_up, is_up}
use pilotfish.Sim.Links.Honest.{tells, told, told_by, fleet_step-told}
use pilotfish.Sim.Links.Observe.{fleet_step}
use pilotfish.Sim.Selectors.{observed_up, tells_up, Selector, SelectorContext}

-- a choice of nothing, or of a link that is observed up
abbrev pub ChosenUp : EvidenceSnapshot → Option Text → Type 0
ChosenUp evidence none = Unit
ChosenUp evidence (some l) = observed_up evidence l ≡ true

-- The selector chooses only links that it observes up.
abbrev pub IsWatchful : {S : Type 0} → Selector S → Type 0
IsWatchful {S} selector =
    (ctx : SelectorContext) (s s' : S) (choices : Choices)
    → selector.call ctx s ≡ ok (choices, s')
    → All (λ kc. ChosenUp ctx.evidence kc.1) choices

-- Every model stands in the fleet under its own link's id, and under no other key.
abbrev pub IsNamed : Dict LinkModel → Type 0
IsNamed [] = Unit
IsNamed ((k, m) ∷ rest) = (m.link_id ≡ k) × (get k rest ≡ none) × IsNamed rest

-- whether a link is reported up: it is in the fleet, its sensor works, and it is up
unfoldable pub reported_up : Option LinkModel → Bool
reported_up none = false
reported_up (some m) = not m.sensor_failed && model_up m

abbrev told_once : Option LinkModel → Time → List Observation
told_once none t = []
told_once (some m) t = if m.sensor_failed then [] else tells m t ∷ []

module _ {R : Type 0} (random : Random R) (t : Time) where
  told-told_once :
      (l : Text) (fleet : Dict LinkModel)
      → IsNamed fleet
      → told random fleet t l ≡ told_once (get l fleet) t
  unfolding told told_by get
  told-told_once l [] named = refl
  told-told_once l ((k, m) ∷ rest) (own, fresh, named) =
      ground (arith, told-told_once l rest named, text_eq_iff k l, text_eq_iff m.link_id l)

  told_once-up : (m : Option LinkModel) → tells_up (newest_of (told_once m t)) ≡ reported_up m
  unfolding newest_of newest tells reported_up
  told_once-up none = refl
  told_once-up (some m) = ground arith

  -- What the fleet reports at a time, a selector sees: it observes a link up exactly if the fleet
  -- has the link, its sensor works, and it is up, if every model is in the fleet under its own id.
  pub observed_up-reported_up :
      (fleet : Dict LinkModel) (r : R) (os : List Observation) (l : Text)
      → IsNamed fleet
      → (fleet_step random fleet t r).0 ≡ ok os
      → observed_up (record { observations = os }) l ≡ reported_up (get l fleet)
  unfolding observed_up latest
  observed_up-reported_up fleet r os l named h =
      rw (fleet_step-told random fleet t r l os h, told-told_once l fleet named)
        (told_once-up (get l fleet))

-- A link that is reported up is up.
pub reported_up-is_up :
    (fleet : Dict LinkModel) (l : Text) → reported_up (get l fleet) ≡ true → is_up fleet l ≡ ok true
unfolding is_up lookup found reported_up
reported_up-is_up fleet l h = ground arith
