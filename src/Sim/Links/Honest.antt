-- ===== src/Sim/Links/Honest.antt =====
-- What the link models report of their state, against what the fleet knows of it.
use pilotfish.Base.{
  ℕ, ◌≡◌, refl, Bool, true, false, ◌&&◌, List, [], ◌∷◌, ◌++◌, if◌then◌else◌, arith,
}
use pilotfish.Base.Dict.{Dict}
use pilotfish.Base.Exec.{Exec, pure, ◌>>=◌, >>=-returned}
use pilotfish.Base.Lists.{filter}
use pilotfish.Base.Result.{ok}
use pilotfish.Base.Text.{Text, text, text_eq}
use pilotfish.Core.Models.{Observation, Time, new_observation, matches}
use pilotfish.Float.{Float}
use pilotfish.Sim.Links.{
  Random, Kind, LinkModel, fiber, lte, satellite, fso, flag, model_up, clears,
}
use pilotfish.Sim.Links.Observe.{
  liveness, step, fleet_step, observe_kind, metered_observations, only_liveness, fiber_observations,
  fso_observations, fso_latency,
}

abbrev pub about_up : Text → List Observation → List Observation
about_up l os = filter (matches l (text "up")) os

-- the observation by which a model tells whether it is up
unfoldable pub tells : LinkModel → Time → Observation
tells m t = record {
  link_id = m.link_id;
  quantity = text "up";
  value = flag (model_up m);
  at = t;
  source = text "agent";
}

module _ {R : Type 0} (random : Random R) where
  metered-told :
      (m : LinkModel) (t : Time) (fixed : Float) (spread : ℕ) (quota : Float) (r : R) (l : Text)
      (os : List Observation)
      → m.up ≡ model_up m
      → (metered_observations random m t fixed spread quota r).0 ≡ ok os
      → about_up l os ≡ (if text_eq m.link_id l then tells m t ∷ [] else [])
  unfolding metered_observations liveness new_observation filter matches tells text_eq
  metered-told m t fixed spread quota r l os up h = ground arith

  only_liveness-told :
      (m : LinkModel) (t : Time) (r : R) (l : Text) (os : List Observation)
      → m.up ≡ model_up m
      → (only_liveness random m t r).0 ≡ ok os
      → about_up l os ≡ (if text_eq m.link_id l then tells m t ∷ [] else [])
  unfolding only_liveness liveness new_observation filter matches tells text_eq
  only_liveness-told m t r l os up h = ground arith

  fiber-told :
      (m : LinkModel) (t : Time) (base : Float) (r : R) (l : Text) (os : List Observation)
      → m.up ≡ model_up m
      → (fiber_observations random m t base r).0 ≡ ok os
      → about_up l os ≡ (if text_eq m.link_id l then tells m t ∷ [] else [])
  unfolding fiber_observations liveness new_observation filter matches tells text_eq
  fiber-told m t base r l os up h = ground arith

  fso-told :
      (m : LinkModel) (t : Time) (usable : Bool) (visibility base : Float) (r : R) (l : Text)
      (os : List Observation)
      → usable ≡ model_up m
      → (fso_observations random usable m t visibility base r).0 ≡ ok os
      → about_up l os ≡ (if text_eq m.link_id l then tells m t ∷ [] else [])
  unfolding fso_observations fso_latency new_observation filter matches tells text_eq
  fso-told m t usable visibility base r l os up h = ground arith

  branch :
      {A P : Type 0} (b : Bool) (x y : A) (Q : A → Type 0)
      → Q (if b then x else y)
      → (Q x → P)
      → (Q y → P)
      → P
  branch true x y Q h f g = f h
  branch false x y Q h f g = g h

  observe_kind-told :
      (k : Kind) (m : LinkModel) (t : Time) (r : R) (l : Text) (os : List Observation)
      → m.kind ≡ k
      → (observe_kind random k m t r).0 ≡ ok os
      → about_up l os ≡ (if text_eq m.link_id l then tells m t ∷ [] else [])
  unfolding observe_kind
  observe_kind-told (fiber b) m t r l os e h =
      let up : m.up ≡ model_up m = unfold model_up in rw e in
      branch m.up _ _ (λ (e : Exec R (List Observation)). (e r).0 ≡ ok os) h
        (fiber-told m t b r l os up) (only_liveness-told m t r l os up)
  observe_kind-told (lte q b c x) m t r l os e h =
      let up : m.up ≡ model_up m = unfold model_up in rw e in
      branch m.up _ _ (λ (e : Exec R (List Observation)). (e r).0 ≡ ok os) h
        (metered-told m t _ 15 q r l os up) (only_liveness-told m t r l os up)
  observe_kind-told (satellite b o q x) m t r l os e h =
      let up : m.up ≡ model_up m = unfold model_up in rw e in
      branch m.up _ _ (λ (e : Exec R (List Observation)). (e r).0 ≡ ok os) h
        (metered-told m t _ 25 q r l os up) (only_liveness-told m t r l os up)
  observe_kind-told (fso v b u) m t r l os e h =
      let up : (m.up && clears v u) ≡ model_up m = unfold model_up in rw e in
      fso-told m t (m.up && clears v u) v b r l os up h

  -- what one model adds to the observations about a link's liveness
  unfoldable pub told_by : LinkModel → Time → Text → List Observation
  told_by m t l = if m.sensor_failed then [] else if text_eq m.link_id l then tells m t ∷ [] else []

  step-told :
      (m : LinkModel) (t : Time) (r : R) (l : Text) (os : List Observation)
      → (step random m t r).0 ≡ ok os
      → about_up l os ≡ told_by m t l
  unfolding step told_by filter
  step-told m t r l os h = ground (arith, observe_kind-told m.kind m t r l os refl)

  unfoldable pub told : Dict LinkModel → Time → Text → List Observation
  told [] t l = []
  told ((k, m) ∷ rest) t l = told_by m t l ++ told rest t l

  filter-append :
      (p : Observation → Bool) (os more : List Observation)
      → filter p (os ++ more) ≡ filter p os ++ filter p more
  unfolding filter
  filter-append p [] more = refl
  filter-append p (o ∷ os) more = ground (arith, filter-append p os more)

  pub fleet_step-told :
      (fleet : Dict LinkModel) (t : Time) (r : R) (l : Text) (os : List Observation)
      → (fleet_step random fleet t r).0 ≡ ok os
      → about_up l os ≡ told fleet t l
  unfolding fleet_step told filter
  fleet_step-told [] t r l os h = ground arith
  fleet_step-told ((k, m) ∷ rest) t r l os h =
      let (seen, first, h1) =
        >>=-returned (step random m t)
          (λ seen. fleet_step random rest t >>= λ more. pure (seen ++ more)) r os h in
      let (more, later, h2) =
        >>=-returned (fleet_step random rest t) (λ more. pure (seen ++ more)) (step random m t r).1
          os h1 in
      let mine = step-told m t r l seen first in
      let rest_told = fleet_step-told rest t (step random m t r).1 l more later in
      let split = filter-append (matches l (text "up")) seen more in ground arith
