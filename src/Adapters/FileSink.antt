-- ===== src/Adapters/FileSink.antt =====
-- adapters/file_sink.py: FileReceiptSink, whose state is the content of its file, if there is one.
-- A write that is cut short leaves the beginning of its line.
pub mod Laws
pub mod Torn
use pilotfish.Base.{
  ℕ, Bool, true, false, not, ◌&&◌, Option, none, some, List, [], ◌∷◌, ◌++◌, if◌then◌else◌, ◌==◌,
}
use pilotfish.Base.Base64.{encode64, decode64}
use pilotfish.Base.Lists.{filter, is_empty}
use pilotfish.Base.Result.{Result, ok, map_ok}
use pilotfish.Base.Text.{Bytes}

abbrev pub newline : ℕ
newline = 10

-- `raw.split(sep)`
abbrev pub onto_first : ℕ → List Bytes → List Bytes
onto_first x [] = (x ∷ []) ∷ []
onto_first x (l ∷ ls) = (x ∷ l) ∷ ls

unfoldable pub split : ℕ → Bytes → List Bytes
split sep [] = [] ∷ []
split sep (x ∷ xs) = let rest = split sep xs in if x == sep then [] ∷ rest else onto_first x rest

-- `raw.endswith(b"\n")`
unfoldable pub ends_in : ℕ → Bytes → Bool
ends_in c [] = false
ends_in c (x ∷ []) = x == c
ends_in c (x ∷ y ∷ xs) = ends_in c (y ∷ xs)

-- `lines[:-1]`
unfoldable pub but_last : List Bytes → List Bytes
but_last [] = []
but_last (l ∷ []) = []
but_last (l ∷ m ∷ ls) = l ∷ but_last (m ∷ ls)

-- `open("ab")` makes the file if there is none
abbrev pub content : Option Bytes → Bytes
content none = []
content (some raw) = raw

-- the line of a receipt
unfoldable pub file_line : Bytes → Bytes
file_line receipt_bytes = encode64 receipt_bytes ++ newline ∷ []

unfoldable pub append : Bytes → Option Bytes → Result (Unit {0}) × Option Bytes
unfolding file_line
append receipt_bytes file = (ok tt, some (content file ++ file_line receipt_bytes))

-- the lines of `read_all` that it decodes
unfoldable pub complete_lines : Bytes → List Bytes
unfolding split ends_in but_last
complete_lines raw =
    let lines = split newline raw in
    filter (λ l. not (is_empty l))
      (if not (is_empty raw) && not (ends_in newline raw) then but_last lines else lines)

unfoldable pub read_all : Option Bytes → Result (List Bytes)
unfolding complete_lines
read_all none = ok []
read_all (some raw) = map_ok decode64 (complete_lines raw)
