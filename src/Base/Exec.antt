-- ===== src/Base/Exec.antt =====
-- Methods that change an object and may raise: what was written before a raise stays written.
use pilotfish.Base.Result.{Result, Error, ok, err}
use mathlib.Core.Path.{◌≡◌, refl}

abbrev pub Exec {ℓ} : Type ℓ → Type ℓ → Type ℓ
Exec S A = S → Result A × S

module _ {ℓ} {S A : Type ℓ} where
  abbrev pub pure : A → Exec S A
  pure a s = (ok a, s)

  abbrev pub lift : Result A → Exec S A
  lift r s = (r, s)

module _ {ℓ} {S A B : Type ℓ} where
  infixl 5 ◌>>=◌ ◌>>◌
  -- what comes after a call that ended in `s`
  abbrev after_call : (A → Exec S B) → Result A → S → Result B × S
  after_call next (err e) s = (err e, s)
  after_call next (ok a) s = next a s

  abbrev pub ◌>>=◌ : Exec S A → (A → Exec S B) → Exec S B
  ◌>>=◌ call next s = let (returned, t) = call s in after_call next returned t

  abbrev pub ◌>>◌ : Exec S A → Exec S B → Exec S B
  call >> rest = call >>= λ _. rest

module _ {ℓ} {S A B : Type ℓ} where
  after-returned :
      (k : A → Exec S B) (r : Result A) (t : S) (b : B)
      → (after_call k r t).0 ≡ ok b
      → (a : A) × (r ≡ ok a) × ((k a t).0 ≡ ok b)
  after-returned k (ok a) t b h = (a, refl, h)
  after-returned k (err e) t b h = cc

  -- What follows a call that returned, and one that raised.
  pub >>=-ran :
      (m : Exec S A) (k : A → Exec S B) (s s' : S) (a : A) → m s ≡ (ok a, s') → (m >>= k) s ≡ k a s'
  >>=-ran m k s s' a h = rw h

  pub >>=-raised :
      (m : Exec S A) (k : A → Exec S B) (s s' : S) (e : Error)
      → m s ≡ (err e, s')
      → (m >>= k) s ≡ (err e, s')
  >>=-raised m k s s' e h = rw h

  -- A chain that returned: its first call returned, and so did the rest, from where it left off.
  pub >>=-returned :
      (m : Exec S A) (k : A → Exec S B) (s : S) (b : B)
      → ((m >>= k) s).0 ≡ ok b
      → (a : A) × ((m s).0 ≡ ok a) × ((k a (m s).1).0 ≡ ok b)
  >>=-returned m k s b h = after-returned k (m s).0 (m s).1 b h
