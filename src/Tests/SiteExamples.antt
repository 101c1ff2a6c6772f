-- ===== src/Tests/SiteExamples.antt =====
-- The examples of the epoch file, the receipts, the cycle and the adapters.
use pilotfish.Base.{
  false, ◌++◌, ◌≡◌, refl, sym, ap, arith, true, none, some, List, [], ◌∷◌, map, ◌⊎◌, ◌↔◌,
}
use pilotfish.Base.Int.{max_ℤ, ℤ, pos, ◌+ℤ◌}
use pilotfish.Base.Lists.{is_empty, All, take}
use pilotfish.Base.Result.{ok, map_ok}
use pilotfish.Base.Text.{text, text_eq, Bytes}
use pilotfish.Agent.Epoch.File.{
  Disk, stages, read, commit, crash, mark_text, replace_from, is_refused, commit_past,
}
use pilotfish.Agent.Epoch.File.Laws.{commit-max, crash_atomic, read_mark-mark_text}
use pilotfish.Agent.Receipts.{
  PlaneState, Receipt, Chain, new_chain, next_receipt, record_receipt, body, read_line, read_chain,
  read_lines, recover, resume, signed_line, verify_chain, verify_from, genesis_hash, kind_decision,
}
use pilotfish.Agent.Receipts.Reading.{
  whole_receipt, receipt_hash-whole, read_line-signed_line, end_of,
}
use pilotfish.Agent.Receipts.Resume.{IsResumable, record-resumes}
use pilotfish.Agent.Receipts.Tamper.{Collide, same_head}
use pilotfish.Agent.Receipts.Total.{record-total, signed_line-total}
use pilotfish.Agent.Cycle.{Site, run_once, in_force, complaint}
use pilotfish.Agent.Cycle.Complaint.{IsEnforced, complaint_exactly}
use pilotfish.Adapters.Noop.{NoopDataplane, noop}
use pilotfish.Adapters.Noop.Enforces.{AreDistinct, noop-enforces}
use pilotfish.Adapters.MemorySink.{memory_sink, append, read_all}
use pilotfish.Adapters.FileSink
use pilotfish.Adapters.FileSink.Laws.{IsReceipt, IsOneLine, file_of, append_all, read_all-torn}
use pilotfish.Adapters.FileSink.Torn.{append-torn}
use pilotfish.Base.Base64.{encode64, decode64}
use pilotfish.Core.Models.{Observation}
use pilotfish.Core.Decide.{EligibilityDecision, decide}
use pilotfish.Agent.Cycle.Run.{decided, turn, run_once-turn, run_once-IsEnforced}
use pilotfish.Agent.BundleStore.{Store, current}
use pilotfish.Base.Sort.{sort_by, insert_by}
use pilotfish.Tests.Toy.{toy}
use pilotfish.Tests.Data.{
  noon, decision, eligible, key, issuer, evidence, ops_bundle, noon-InCalendar,
  decision-HasCalendarTimes,
}

abbrev disk : Disk
disk = record {
  mark = some (record { text = mark_text (pos 3); synced = true });
  temp = none;
  refuses = none;
}

reads_three : read disk ≡ ok (pos 3)
unfolding read
reads_three = read_mark-mark_text (pos 3) true

commits : (commit (pos 7) disk).0 ≡ ok tt
unfolding commit commit_past replace_from is_refused
commits = rw reads_three

commit-max_example : read (commit (pos 7) disk).1 ≡ ok (max_ℤ (pos 3) (pos 7))
commit-max_example = commit-max (pos 7) (pos 3) disk reads_three commits

crash_atomic_example :
    (read (crash (take 1) false (mark_text (pos 7)) (take 3 stages) disk) ≡ read disk)
    ⊎ (read (crash (take 1) false (mark_text (pos 7)) (take 3 stages) disk) ≡ ok (pos 7))
crash_atomic_example = crash_atomic (pos 7) 3 (take 1) false disk refl

abbrev fresh : Chain (List Bytes)
fresh = new_chain (text "site") [] key

abbrev first_receipt : Receipt
first_receipt = next_receipt fresh decision kind_decision [] [] []

takes : (b : Bytes) (k : List Bytes) → (memory_sink.append b k).0 ≡ ok tt
unfolding append
takes b k = refl

resumable : IsResumable memory_sink fresh
unfolding recover read_chain read_all read_lines map_ok resume
resumable = refl

recorded_first :
    (record_receipt memory_sink decision noon kind_decision [] [] [] fresh).0 ≡ ok first_receipt
recorded_first = record-total memory_sink decision noon kind_decision [] [] [] fresh takes

record-resumes_example :
    IsResumable memory_sink
      (record_receipt memory_sink decision noon kind_decision [] [] [] fresh).1
record-resumes_example =
    record-resumes memory_sink fresh decision noon kind_decision [] [] [] first_receipt resumable
      recorded_first noon-InCalendar decision-HasCalendarTimes

abbrev line_of_first : (line : Bytes) × (signed_line (text "site") key noon first_receipt ≡ ok line)
line_of_first = signed_line-total (text "site") key noon first_receipt

read_line-signed_line_example : read_line key line_of_first.0 ≡ ok (whole_receipt first_receipt)
read_line-signed_line_example =
    read_line-signed_line (text "site") key noon first_receipt line_of_first.0 line_of_first.1
      noon-InCalendar decision-HasCalendarTimes

one_linked : verify_chain (first_receipt ∷ []) ≡ ok tt
unfolding verify_chain verify_from text_eq ◌+ℤ◌
one_linked = refl

other_linked : verify_chain (whole_receipt first_receipt ∷ []) ≡ ok tt
unfolding verify_chain verify_from text_eq whole_receipt ◌+ℤ◌
other_linked = refl

one_head :
    end_of genesis_hash (pos 1) (first_receipt ∷ [])
    ≡ end_of genesis_hash (pos 1) (whole_receipt first_receipt ∷ [])
unfolding end_of
one_head = ap (λ h. (h, pos 1 +ℤ pos 1)) (sym (receipt_hash-whole first_receipt))

same_head_example :
    Collide (first_receipt ∷ []) (whole_receipt first_receipt ∷ [])
    ⊎ (map body (first_receipt ∷ []) ≡ map body (whole_receipt first_receipt ∷ []))
same_head_example =
    same_head (first_receipt ∷ []) (whole_receipt first_receipt ∷ []) one_linked other_linked
      one_head

abbrev idle : Site (List Bytes) NoopDataplane
idle = record { chain = fresh; plane = record { state = []; applied = [] } }

abbrev plain_store : Store ℤ
plain_store = record {
  trusted_key = key;
  expected_issuer = issuer;
  site_id = text "site";
  floor = ops_bundle;
  bundle = none;
  epochs = pos 3;
  sequence = pos 3;
  seen_nonces = [];
}

abbrev seen : List Observation
seen = evidence.observations

run_once-turn_example :
    run_once memory_sink noop (text "site") plain_store (ok seen) noon idle
    ≡ turn memory_sink noop (text "site") plain_store noon (ok seen) idle
run_once-turn_example =
    run_once-turn memory_sink noop (text "site") plain_store noon (ok seen) idle takes

abbrev floor_decision : EligibilityDecision
floor_decision = decided memory_sink noop (text "site") plain_store noon seen

one_class : AreDistinct floor_decision.classes
unfolding decided current decide sort_by insert_by
one_class = (tt, tt)

ran :
    (run_once memory_sink noop (text "site") plain_store (ok seen) noon idle).0 ≡ ok floor_decision
unfolding run_once decided
ran = noop-enforces memory_sink floor_decision noon idle takes one_class

run_once-IsEnforced_example :
    (os : List Observation) × (ok seen ≡ ok os)
    × (decided memory_sink noop (text "site") plain_store noon os ≡ floor_decision)
    × ((actual : PlaneState) × (noop.readback (noop.apply floor_decision idle.plane).1 ≡ ok actual)
        × All (λ c. IsEnforced c.permitted (in_force c.class_id actual)) floor_decision.classes)
run_once-IsEnforced_example =
    run_once-IsEnforced memory_sink noop (text "site") plain_store noon (ok seen) idle
      floor_decision ran

complaint_exactly_example :
    (is_empty (complaint (eligible ∷ []) ((text "ops", text "b" ∷ []) ∷ [])) ≡ true)
    ↔ All
        (λ c. IsEnforced c.permitted (in_force c.class_id ((text "ops", text "b" ∷ []) ∷ [])))
        (eligible ∷ [])
complaint_exactly_example = complaint_exactly (eligible ∷ []) ((text "ops", text "b" ∷ []) ∷ [])

abbrev some_receipts : List Bytes
some_receipts = (1 ∷ 2 ∷ 3 ∷ []) ∷ (4 ∷ []) ∷ []

some_receipts-IsReceipt : All IsReceipt some_receipts
some_receipts-IsReceipt = (
  record { octets = (omega arith, (omega arith, (omega arith, tt))); some_octet = refl },
  (record { octets = (omega arith, tt); some_octet = refl }, tt),
)

torn_tail-IsOneLine : IsOneLine (text "AQ")
torn_tail-IsOneLine = (refl, (refl, tt))

read_all-torn_example :
    FileSink.read_all (some (FileSink.content (append_all some_receipts none) ++ text "AQ"))
    ≡ ok some_receipts
read_all-torn_example =
    read_all-torn some_receipts (text "AQ") some_receipts-IsReceipt torn_tail-IsOneLine

append-torn_example :
    FileSink.read_all (FileSink.append (9 ∷ []) (some (file_of some_receipts ++ text "AQ"))).1
    ≡ map_ok decode64 (map encode64 some_receipts ++ ((text "AQ" ++ encode64 (9 ∷ [])) ∷ []))
append-torn_example =
    append-torn (9 ∷ []) some_receipts 65 (text "Q") some_receipts-IsReceipt torn_tail-IsOneLine
