-- ===== src/Agent/Epoch/File.antt =====
-- agent/epoch.py: FileEpochStore on a disk with the mark's file, a temporary file, and the step at
-- which the operating system will refuse, if it will. What is written to a file is in the cache of
-- the operating system until the file is synced, and a power cut may do anything to it.
pub mod Laws
use pilotfish.Base.{Bool, true, false, Option, none, some, List, [], ◌∷◌, ◌++◌, if◌then◌else◌}
use pilotfish.Base.Decimal.{parse_int, show_ℤ, strip}
use pilotfish.Base.Int.{ℤ, negsuc, leb_ℤ}
use pilotfish.Base.Result.{Result, ok, err, epoch_unreadable, os_error}
use pilotfish.Base.Text.{Text}

-- the calls of `commit` into the operating system, in their order
pub data Stage : Type 0 where
  create write sync rename : Stage

-- a file: what a reader sees of it, and whether that is on the device
pub record Content : Type 0 where
  pub text : Text
  pub synced : Bool

pub record Disk : Type 0 where
  pub mark : Option Content
  pub temp : Option Content
  pub refuses : Option Stage

-- NO_EPOCH is -1
abbrev pub parsed : Option ℤ → Result ℤ
parsed none = err epoch_unreadable
parsed (some n) = ok n

-- `int(raw)` of the stripped file, if there is one
unfoldable pub read_mark : Option Content → Result ℤ
read_mark none = ok (negsuc 0)
read_mark (some file) = parsed (parse_int (strip file.text))

unfoldable pub read : Disk → Result ℤ
read d = read_mark d.mark

-- f"{sequence}\n"
unfoldable pub mark_text : ℤ → Text
mark_text sequence = show_ℤ sequence ++ 10 ∷ []

-- `write` and `fsync` on an open file
abbrev pub written : Text → Option Content → Option Content
written t none = none
written t (some file) = some (record { text = file.text ++ t; synced = false })

abbrev pub flushed : Option Content → Option Content
flushed none = none
flushed (some file) = some (record file { synced = true })

-- the effect of one call that succeeds: the cache changes, and `fsync` brings a file to the device
unfoldable pub effect : Text → Stage → Disk → Disk
effect t create d = record d { temp = some (record { text = []; synced = false }) }
effect t write d = record d { temp = written t d.temp }
effect t sync d = record d { temp = flushed d.temp }
effect t rename d = record d { mark = d.temp; temp = none }

abbrev pub stages : List Stage
stages = create ∷ write ∷ sync ∷ rename ∷ []

-- whether the operating system refuses a call
unfoldable pub is_refused : Option Stage → Stage → Bool
is_refused (some create) create = true
is_refused (some write) write = true
is_refused (some sync) sync = true
is_refused (some rename) rename = true
is_refused _ _ = false

-- the handler: `mkstemp` stands above the `try`
unfoldable pub unlinked : Stage → Disk → Disk
unlinked create d = d
unlinked _ d = record d { temp = none }

-- The calls in turn. Where one is refused the handler removes the temporary file, and the
-- exception goes on.
unfoldable pub replace_from : Text → List Stage → Disk → Result (Unit {0}) × Disk
unfolding effect is_refused unlinked
replace_from t [] d = (ok tt, d)
replace_from t (s ∷ rest) d =
    let done = replace_from t rest (effect t s d) in
    if is_refused d.refuses s then (err os_error, unlinked s d) else done

unfoldable pub commit_past : ℤ → Result ℤ → Disk → Result (Unit {0}) × Disk
commit_past sequence (err e) d = (err e, d)
commit_past sequence (ok old) d =
    if leb_ℤ sequence old then (ok tt, d) else replace_from (mark_text sequence) stages d

unfoldable pub commit : ℤ → Disk → Result (Unit {0}) × Disk
commit sequence d = commit_past sequence (read d) d

-- The calls in turn, none refused.
unfoldable pub performed : Text → List Stage → Disk → Disk
unfolding effect
performed t [] d = d
performed t (s ∷ rest) d = performed t rest (effect t s d)

-- What a power cut leaves of a file: of one that is not synced, whatever `garbled` makes of it.
abbrev pub survives : (Text → Text) → Option Content → Option Content
survives garbled none = none
survives garbled (some file) =
    if file.synced then some file else some (record { text = garbled file.text; synced = true })

abbrev pub power_cut : (Text → Text) → Disk → Disk
power_cut garbled d = record d { mark = survives garbled d.mark; temp = survives garbled d.temp }

-- The disk that a power cut leaves, after some of the calls. The directory is not synced: where the
-- rename is lost, the name still stands for the file of before.
unfoldable pub crash : (Text → Text) → Bool → Text → List Stage → Disk → Disk
unfolding performed
crash garbled rename_lost t calls d =
    let cached = performed t calls d in
    power_cut garbled (if rename_lost then record cached { mark = d.mark } else cached)
