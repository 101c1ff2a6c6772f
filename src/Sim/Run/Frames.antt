-- ===== src/Sim/Run/Frames.antt =====
-- What the frames of a run show, added up: an audit of the measures that run.py keeps.
use pilotfish.Base.{
  ℕ, zero, suc, ◌+◌, ◌*◌, ◌≡◌, refl, sym, Bool, false, if◌then◌else◌, Option, none, some, List, [],
  ◌∷◌, ◌++◌, arith,
}
use pilotfish.Base.Dict.{Dict, get}
use pilotfish.Sim.Metrics.{Choices, Frame}
use pilotfish.Base.Text.{Text, text_eq}
use pilotfish.Sim.Run.{count_flaps, flapped}

-- The choices of nothing.
unfoldable pub refused_in : Choices → ℕ
refused_in [] = 0
refused_in ((c, none) ∷ rest) = 1 + refused_in rest
refused_in ((c, some l) ∷ rest) = refused_in rest

-- whether a frame shows a link that is down
abbrev pub shows_down : Option Bool → ℕ
shows_down (some false) = 1
shows_down _ = 0

-- The choices of a link that is down.
unfoldable pub down_in : Dict Bool → Choices → ℕ
down_in up [] = 0
down_in up ((c, none) ∷ rest) = down_in up rest
down_in up ((c, some l) ∷ rest) = shows_down (get l up) + down_in up rest

unfoldable pub refused_over : List Frame → ℕ
refused_over [] = 0
refused_over (f ∷ fs) = refused_in f.choices + refused_over fs

unfoldable pub down_over : List Frame → ℕ
down_over [] = 0
down_over (f ∷ fs) = down_in f.up f.choices + down_over fs

-- whether a class that had a choice has another one now
abbrev pub changed : Option (Option Text) → Option Text → ℕ
changed none now = 0
changed (some none) none = 0
changed (some none) (some l) = 1
changed (some (some k)) none = 1
changed (some (some k)) (some l) = if text_eq k l then 0 else 1

-- The classes whose choice is not the one of the frame before.
unfoldable pub changes_in : Choices → Choices → ℕ
changes_in previous [] = 0
changes_in previous ((c, now) ∷ rest) = changed (get c previous) now + changes_in previous rest

flapped-changed :
    (before : Option (Option Text)) (now : Option Text)
    → (if flapped before now then 1 else 0) ≡ changed before now
unfolding flapped
flapped-changed none now = refl
flapped-changed (some none) none = refl
flapped-changed (some none) (some l) = refl
flapped-changed (some (some k)) none = refl
flapped-changed (some (some k)) (some l) = ground arith

count_flaps-changes_in :
    (previous choices : Choices) → count_flaps previous choices ≡ changes_in previous choices
unfolding count_flaps changes_in
count_flaps-changes_in previous [] = refl
count_flaps-changes_in previous ((c, now) ∷ rest) =
    omega (arith, flapped-changed (get c previous) now, count_flaps-changes_in previous rest)

-- The changes from one frame to the next, from the choices before the first.
unfoldable pub flaps_over : Choices → List Frame → ℕ
flaps_over previous [] = 0
flaps_over previous (f ∷ fs) = changes_in previous f.choices + flaps_over f.choices fs

-- the choices of the last frame
unfoldable pub last_choices : Choices → List Frame → Choices
last_choices previous [] = previous
last_choices previous (f ∷ fs) = last_choices f.choices fs

-- 0, step_s, 2 * step_s and so on: the times of `n` steps
unfoldable pub times : ℕ → ℕ → List ℕ
times step_s zero = []
times step_s (suc n) = times step_s n ++ n * step_s ∷ []

pub refused_over-append :
    (fs gs : List Frame) → refused_over (fs ++ gs) ≡ refused_over fs + refused_over gs
unfolding refused_over
refused_over-append [] gs = omega arith
refused_over-append (f ∷ fs) gs = omega (arith, refused_over-append fs gs)

pub down_over-append : (fs gs : List Frame) → down_over (fs ++ gs) ≡ down_over fs + down_over gs
unfolding down_over
down_over-append [] gs = omega arith
down_over-append (f ∷ fs) gs = omega (arith, down_over-append fs gs)

pub flaps_over-append :
    (previous : Choices) (fs gs : List Frame)
    → flaps_over previous (fs ++ gs)
      ≡ flaps_over previous fs + flaps_over (last_choices previous fs) gs
unfolding flaps_over last_choices
flaps_over-append previous [] gs = omega arith
flaps_over-append previous (f ∷ fs) gs = omega (arith, flaps_over-append f.choices fs gs)

pub last_choices-append :
    (previous : Choices) (fs gs : List Frame)
    → last_choices previous (fs ++ gs) ≡ last_choices (last_choices previous fs) gs
unfolding last_choices
last_choices-append previous [] gs = refl
last_choices-append previous (f ∷ fs) gs = last_choices-append f.choices fs gs

pub times-next : (step_s n : ℕ) → times step_s (n + 1) ≡ times step_s n ++ n * step_s ∷ []
unfolding times
times-next step_s n = ground arith

-- A total over the frames and its part of one frame more.
pub add_scaled :
    (step_s total part old more : ℕ)
    → old ≡ step_s * total
    → more ≡ old + step_s * part
    → more ≡ step_s * (total + (part + 0))
add_scaled step_s total part old more h k = grind arith

pub refused_over-next :
    (fs : List Frame) (f : Frame)
    → refused_over (fs ++ f ∷ []) ≡ refused_over fs + (refused_in f.choices + 0)
unfolding refused_over
refused_over-next fs f = refused_over-append fs (f ∷ [])

pub down_over-next :
    (fs : List Frame) (f : Frame)
    → down_over (fs ++ f ∷ []) ≡ down_over fs + (down_in f.up f.choices + 0)
unfolding down_over
down_over-next fs f = down_over-append fs (f ∷ [])

pub flaps_over-next :
    (fs : List Frame) (f : Frame) (previous : Choices)
    → previous ≡ last_choices [] fs
    → flaps_over [] (fs ++ f ∷ []) ≡ flaps_over [] fs + count_flaps previous f.choices
unfolding flaps_over
flaps_over-next fs f previous last = rw last (
    omega (
      arith,
      flaps_over-append [] fs (f ∷ []),
      count_flaps-changes_in (last_choices [] fs) f.choices,
    ))

pub last_choices-next : (fs : List Frame) (f : Frame) → f.choices ≡ last_choices [] (fs ++ f ∷ [])
unfolding last_choices
last_choices-next fs f = sym (last_choices-append [] fs (f ∷ []))
