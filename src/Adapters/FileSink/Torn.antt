-- ===== src/Adapters/FileSink/Torn.antt =====
-- What becomes of a receipt that is appended after a torn line.
use pilotfish.Base.{
  ℕ, ◌≡◌, refl, sym, ap, ◌∙◌, true, not, some, List, [], ◌∷◌, ◌++◌, map, append_assoc,
}
use pilotfish.Base.Base64.{encode64, decode64, encode64-one_line}
use pilotfish.Base.Lists.{filter, is_empty, All}
use pilotfish.Base.Result.{map_ok}
use pilotfish.Base.Text.{Bytes}
use pilotfish.Adapters.FileSink.{
  newline, split, ends_in, file_line, append, complete_lines, read_all,
}
use pilotfish.Adapters.FileSink.Laws.{
  IsReceipt, IsOneLine, file_of, joined, split-line, kept_lines, ends_in-append, not_empty,
}

split-after :
    (bs : List Bytes) (rest : Bytes)
    → split newline (file_of bs ++ rest) ≡ map encode64 bs ++ split newline rest
unfolding file_of
split-after [] rest = refl
split-after (b ∷ bs) rest =
    ap (split newline) (joined (encode64 b) (file_of bs) rest)
    ∙ split-line (encode64 b) (file_of bs ++ rest) (encode64-one_line b)
    ∙ ap (◌∷◌ (encode64 b)) (split-after bs rest)

IsOneLine-append : (l m : Bytes) → IsOneLine l → IsOneLine m → IsOneLine (l ++ m)
IsOneLine-append [] m h k = k
IsOneLine-append (x ∷ l) m (e, h) k = (e, IsOneLine-append l m h k)

split-last : (l : Bytes) → IsOneLine l → split newline (l ++ (newline ∷ [])) ≡ l ∷ [] ∷ []
unfolding split
split-last l h = split-line l [] h

kept_last : (x : ℕ) (l : Bytes) → filter (λ m. not (is_empty m)) ((x ∷ l) ∷ [] ∷ []) ≡ (x ∷ l) ∷ []
unfolding filter
kept_last x l = refl

ends_in-last : (xs : Bytes) → ends_in newline (xs ++ (newline ∷ [])) ≡ true
unfolding ends_in
ends_in-last xs = ends_in-append xs newline []

merged_lines :
    (bs : List Bytes) (x : ℕ) (l : Bytes)
    → All IsReceipt bs
    → IsOneLine (x ∷ l)
    → complete_lines (file_of bs ++ ((x ∷ l) ++ (newline ∷ []))) ≡ map encode64 bs ++ ((x ∷ l) ∷ [])
unfolding complete_lines
merged_lines bs x l rs h =
    let ends : ends_in newline (file_of bs ++ ((x ∷ l) ++ (newline ∷ []))) ≡ true =
      ap (ends_in newline) (sym (append_assoc (file_of bs) (x ∷ l) (newline ∷ [])))
      ∙ ends_in-last (file_of bs ++ (x ∷ l)) in
    rw
      (
        not_empty (file_of bs) x (l ++ (newline ∷ [])),
        ends,
        split-after bs ((x ∷ l) ++ (newline ∷ [])),
        split-last (x ∷ l) h,
      )
      (kept_lines bs ((x ∷ l) ∷ [] ∷ []) rs ∙ ap (λ m. map encode64 bs ++ m) (kept_last x l))

-- A receipt that is appended after a torn line, which is not empty and holds no newline, is merged
-- with it: the two are decoded as one line.
pub append-torn :
    (b : Bytes) (bs : List Bytes) (x : ℕ) (t : Bytes)
    → All IsReceipt bs
    → IsOneLine (x ∷ t)
    → read_all (append b (some (file_of bs ++ (x ∷ t)))).1
      ≡ map_ok decode64 (map encode64 bs ++ (((x ∷ t) ++ encode64 b) ∷ []))
unfolding append read_all file_line
append-torn b bs x t rs h =
    let regroup : (file_of bs ++ (x ∷ t)) ++ (encode64 b ++ (newline ∷ []))
        ≡ file_of bs ++ (((x ∷ t) ++ encode64 b) ++ (newline ∷ [])) =
      append_assoc (file_of bs) (x ∷ t) (encode64 b ++ (newline ∷ []))
      ∙ ap (λ u. file_of bs ++ u) (sym (append_assoc (x ∷ t) (encode64 b) (newline ∷ []))) in
    ap (map_ok decode64) (
      ap complete_lines regroup
      ∙ merged_lines bs x (t ++ encode64 b) rs
          (IsOneLine-append (x ∷ t) (encode64 b) h (encode64-one_line b)))
