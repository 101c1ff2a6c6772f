-- ===== src/Agent/Epoch/File/Laws.antt =====
-- The file's mark: what is written is read back, a refused call and a power cut leave the old mark
-- or the new one.
use pilotfish.Base.{
  Bool, true, false, Option, none, ◌≡◌, refl, ap, ◌⊎◌, inl, inr, some, arith, Bool-cases,
}
use pilotfish.Base.Decimal.Laws.{parse_int-show_ℤ, strip-newline, show_ℤ-IsPlain, show_ℤ-ne-nil}
use pilotfish.Base.Decimal.{show_ℤ}
use pilotfish.Base.Int.{ℤ, leb_ℤ, max_ℤ, eq_of_parts}
use pilotfish.Base.Lists.{take}
use pilotfish.Base.Result.{Result, Error, ok, err}
use pilotfish.Base.Text.{Text}
use Prim.Native.Nat.{ℕ, zero, suc}
use pilotfish.Agent.Epoch.{EpochStore}
use pilotfish.Agent.Epoch.File.{
  Content, Disk, survives, performed, stages, mark_text, read_mark, read, commit, commit_past,
  replace_from, crash,
}

-- What `commit` writes, `read` reads.
pub read_mark-mark_text :
    (n : ℤ) (b : Bool) → read_mark (some (record { text = mark_text n; synced = b })) ≡ ok n
unfolding read_mark mark_text
read_mark-mark_text n b =
    rw (strip-newline (show_ℤ n) (show_ℤ-IsPlain n) (show_ℤ-ne-nil n), parse_int-show_ℤ n)

-- The four calls end with the new mark, or are refused and leave the old one.
replace_done :
    (t : Text) (d : Disk)
    → (replace_from t stages d).0 ≡ ok tt
    → (replace_from t stages d).1.mark ≡ some (record { text = t; synced = true })
unfolding replace_from
replace_done t d h = ground arith

replace_refused :
    (t : Text) (d : Disk) (e : Error)
    → (replace_from t stages d).0 ≡ err e
    → (replace_from t stages d).1.mark ≡ d.mark
unfolding replace_from
replace_refused t d e h = ground arith

read_after_replace :
    (n : ℤ) (d : Disk)
    → (replace_from (mark_text n) stages d).0 ≡ ok tt
    → read (replace_from (mark_text n) stages d).1 ≡ ok n
unfolding read
read_after_replace n d h = rw (replace_done (mark_text n) d h) (read_mark-mark_text n true)

commit_past-max :
    (n m : ℤ) (d : Disk)
    → read d ≡ ok m
    → (commit_past n (ok m) d).0 ≡ ok tt
    → read (commit_past n (ok m) d).1 ≡ ok (max_ℤ m n)
unfolding commit_past
commit_past-max n m d h k = elim (Bool-cases (leb_ℤ n m)) [
  | inl e ↦ ground (arith, eq_of_parts n m)
  | inr e ↦ ground (arith, read_after_replace n d)
]

-- Where the mark reads, a commit that returns leaves the greater of that mark and the new one.
pub commit-max :
    (n m : ℤ) (d : Disk)
    → read d ≡ ok m
    → (commit n d).0 ≡ ok tt
    → read (commit n d).1 ≡ ok (max_ℤ m n)
unfolding commit
commit-max n m d h k = rw h (commit_past-max n m d h (rw h at k))

read-mark : (c d : Disk) → c.mark ≡ d.mark → read c ≡ read d
unfolding read
read-mark c d h = ap read_mark h

commit_past_error :
    (n : ℤ) (r : Result ℤ) (d : Disk) (e : Error)
    → (commit_past n r d).0 ≡ err e
    → (commit_past n r d).1.mark ≡ d.mark
unfolding commit_past
commit_past_error n (err f) d e h = refl
commit_past_error n (ok m) d e h = ground (arith, replace_refused (mark_text n) d e)

-- A commit that raises leaves the mark as it was.
pub commit-refused :
    (n : ℤ) (d : Disk) (e : Error) → (commit n d).0 ≡ err e → read (commit n d).1 ≡ read d
unfolding commit
commit-refused n d e h = read-mark _ d (commit_past_error n (read d) d e h)

-- the mark's file is on the device
abbrev pub IsOnDevice : Option Content → Type 0
IsOnDevice none = Unit
IsOnDevice (some file) = file.synced ≡ true

-- What is on the device survives.
survives-IsOnDevice :
    (garbled : Text → Text) (file : Option Content) → IsOnDevice file → survives garbled file ≡ file
survives-IsOnDevice garbled none h = refl
survives-IsOnDevice garbled (some file) h = rw h

-- The calls up to the rename leave the mark, and all of them together leave the new one, synced.
performed-mark :
    (t : Text) (k : ℕ) (d : Disk)
    → ((performed t (take k stages) d).mark ≡ d.mark)
      ⊎ ((performed t (take k stages) d).mark ≡ some (record { text = t; synced = true }))
unfolding performed
performed-mark t zero d = inl refl
performed-mark t (suc zero) d = inl refl
performed-mark t (suc (suc zero)) d = inl refl
performed-mark t (suc (suc (suc zero))) d = inl refl
performed-mark t (suc (suc (suc (suc zero)))) d = inr refl
performed-mark t (suc (suc (suc (suc (suc k))))) d = inr refl

-- A power cut after any number of the calls of a commit leaves the old mark or the whole new one,
-- whatever it does to what was not synced and whether or not the rename had reached the device, if
-- the old mark was there on the device.
pub crash_atomic :
    (n : ℤ) (k : ℕ) (garbled : Text → Text) (rename_lost : Bool) (d : Disk)
    → IsOnDevice d.mark
    → (read (crash garbled rename_lost (mark_text n) (take k stages) d) ≡ read d)
      ⊎ (read (crash garbled rename_lost (mark_text n) (take k stages) d) ≡ ok n)
unfolding crash read
crash_atomic n k garbled true d kept = inl (ap read_mark (survives-IsOnDevice garbled d.mark kept))
crash_atomic n k garbled false d kept = elim (performed-mark (mark_text n) k d) [
  | inl same ↦ inl (rw same (ap read_mark (survives-IsOnDevice garbled d.mark kept)))
  | inr new ↦ inr (rw new (read_mark-mark_text n true))
]

replace_from-IsOnDevice :
    (t : Text) (d : Disk) → IsOnDevice d.mark → IsOnDevice (replace_from t stages d).1.mark
unfolding replace_from
replace_from-IsOnDevice t d kept = ground arith

commit_past-IsOnDevice :
    (n : ℤ) (r : Result ℤ) (d : Disk) → IsOnDevice d.mark → IsOnDevice (commit_past n r d).1.mark
unfolding commit_past
commit_past-IsOnDevice n (err e) d kept = kept
commit_past-IsOnDevice n (ok m) d kept = elim (Bool-cases (leb_ℤ n m)) [
  | inl e ↦ rw e kept
  | inr e ↦ rw e (replace_from-IsOnDevice (mark_text n) d kept)
]

-- A commit, refused or not, leaves a mark that is on the device, so that the next one starts from it.
pub commit-IsOnDevice : (n : ℤ) (d : Disk) → IsOnDevice d.mark → IsOnDevice (commit n d).1.mark
unfolding commit
commit-IsOnDevice n d kept = commit_past-IsOnDevice n (read d) d kept

abbrev pub file_store : EpochStore Disk
file_store = record {
  read = read;
  commit = commit;
  read-commit = commit-max;
  read-commit_error = commit-refused;
}
