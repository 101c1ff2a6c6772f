-- ===== src/Adapters/MemorySink.antt =====
-- adapters/file_sink.py: MemoryReceiptSink, whose state is its `lines`.
use pilotfish.Base.{◌≡◌, List, [], ◌∷◌, ◌++◌, arith}
use pilotfish.Base.Result.{Result, ok}
use pilotfish.Base.Text.{Bytes}
use pilotfish.Agent.Receipts.{ReadableSink}

unfoldable pub append : Bytes → List Bytes → Result (Unit {0}) × List Bytes
append receipt_bytes lines = (ok tt, lines ++ receipt_bytes ∷ [])

unfoldable pub read_all : List Bytes → Result (List Bytes)
read_all lines = ok lines

pub read_all-append :
    (b : Bytes) (lines old : List Bytes)
    → read_all lines ≡ ok old
    → (append b lines).0 ≡ ok tt
    → read_all (append b lines).1 ≡ ok (old ++ b ∷ [])
unfolding append read_all
read_all-append b lines old h k = ground arith

abbrev pub memory_sink : ReadableSink (List Bytes)
memory_sink = record { append = append; read_all = read_all; read_all-append = read_all-append }
