-- ===== src/Base/Dict.antt =====
-- Python's `dict` with text keys: the pairs in the order of insertion.
use pilotfish.Base.Tests.{if◌then◌else◌}
use pilotfish.Base.Result.{Result, ok, err, key_error}
use pilotfish.Base.Text.{Text, text_eq, text_eq_iff}
use mathlib.Core.Path.{◌≡◌, refl}
use mathlib.Core.Option.{Option, none, some}
use mathlib.Core.List.{List, [], ◌∷◌, map}
use native.Mathlib.Omega.{arith}

abbrev pub Dict {ℓ} : Type ℓ → Type ℓ
Dict V = List (Text × V)

module _ {ℓ} {V : Type ℓ} where
  -- `d.get(k)`
  unfoldable pub get : Text → Dict V → Option V
  get k [] = none
  get k ((j, v) ∷ d) = if text_eq j k then some v else get k d

  -- `d[k]`
  unfoldable pub found : Option V → Result V
  found none = err key_error
  found (some v) = ok v

  unfoldable pub lookup : Text → Dict V → Result V
  unfolding found get
  lookup k d = found (get k d)

  -- `d[k] = v`
  unfoldable pub put : Text → V → Dict V → Dict V
  put k v [] = (k, v) ∷ []
  put k v ((j, w) ∷ d) = if text_eq j k then (j, v) ∷ d else (j, w) ∷ put k v d

  -- a dictionary comprehension over what is left, on the pairs so far
  unfoldable pub put_all : Dict V → List (Text × V) → Dict V
  unfolding put
  put_all d [] = d
  put_all d ((k, v) ∷ kvs) = put_all (put k v d) kvs

  -- `list(d)`
  abbrev pub keys : Dict V → List Text
  keys d = map (λ kv. kv.0) d

  -- `d[k] = f(d[k])`, where `k` is a key: a change of the object that `d` holds under `k`
  abbrev pub map_some : (V → V) → Option V → Option V
  map_some f none = none
  map_some f (some v) = some (f v)

  unfoldable pub change : Text → (V → V) → Dict V → Dict V
  change k f [] = []
  change k f ((j, v) ∷ d) = if text_eq j k then (j, f v) ∷ d else (j, v) ∷ change k f d

  pub get-put :
      (k j : Text) (v : V) (d : Dict V)
      → get j (put k v d) ≡ (if text_eq k j then some v else get j d)
  unfolding get put
  get-put k j v [] = refl
  get-put k j v ((i, w) ∷ d) =
      ground (arith, text_eq_iff k j, text_eq_iff i k, text_eq_iff i j, get-put k j v d)

  pub get-change :
      (k j : Text) (f : V → V) (d : Dict V)
      → get j (change k f d) ≡ (if text_eq k j then map_some f (get j d) else get j d)
  unfolding get change
  get-change k j f [] = ground arith
  get-change k j f ((i, w) ∷ d) =
      ground (arith, text_eq_iff k j, text_eq_iff i k, text_eq_iff i j, get-change k j f d)
