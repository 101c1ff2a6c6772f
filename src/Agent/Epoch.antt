-- ===== src/Agent/Epoch.antt =====
-- agent/epoch.py: the high-water mark. `EpochStore` is the protocol with what its clients rely on;
-- the two implementations are in Memory and in File.
pub mod Memory
pub mod File
use pilotfish.Base.{◌≡◌, Bool}
use pilotfish.Base.Int.{ℤ, negsuc, max_ℤ}
use pilotfish.Base.Result.{Result, Error, ok, err}

-- NO_EPOCH
abbrev pub no_epoch : ℤ
no_epoch = negsuc 0

-- A store that holds `S`. A commit that returns leaves the greater of the two marks, and one that
-- raises leaves the mark as it was.
pub record EpochStore (S : Type 0) : Type 0 where
  pub read : S → Result ℤ
  pub commit : ℤ → S → Result (Unit {0}) × S
  pub read-commit :
      (n m : ℤ) (s : S)
      → read s ≡ ok m
      → (commit n s).0 ≡ ok tt
      → read (commit n s).1 ≡ ok (max_ℤ m n)
  pub read-commit_error :
      (n : ℤ) (s : S) (e : Error) → (commit n s).0 ≡ err e → read (commit n s).1 ≡ read s
