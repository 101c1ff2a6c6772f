-- ===== src/Agent/Epoch/Memory.antt =====
-- agent/epoch.py: MemoryEpochStore, whose state is its `_sequence`.
use pilotfish.Base.{◌≡◌, arith}
use pilotfish.Base.Int.{ℤ, max_ℤ}
use pilotfish.Agent.Epoch.{EpochStore}
use pilotfish.Base.Result.{Result, Error, ok, err}

unfoldable pub read : ℤ → Result ℤ
read sequence = ok sequence

unfoldable pub commit : ℤ → ℤ → Result (Unit {0}) × ℤ
commit sequence s = (ok tt, max_ℤ s sequence)

pub read-commit :
    (n m s : ℤ) → read s ≡ ok m → (commit n s).0 ≡ ok tt → read (commit n s).1 ≡ ok (max_ℤ m n)
unfolding read commit
read-commit n m s h k = ground arith

pub read-commit_error :
    (n s : ℤ) (e : Error) → (commit n s).0 ≡ err e → read (commit n s).1 ≡ read s
unfolding read commit
read-commit_error n s e h = cc

abbrev pub memory_store : EpochStore ℤ
memory_store = record {
  read = read;
  commit = commit;
  read-commit = read-commit;
  read-commit_error = read-commit_error;
}
