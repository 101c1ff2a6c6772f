-- ===== src/Adapters/FileSink/Laws.antt =====
-- What was appended is read back, and a torn last line is dropped.
use pilotfish.Base.{
  ℕ, ◌<◌, ◌≡◌, refl, sym, ap, ◌∙◌, Bool, true, false, not, Option, none, some, List, [], ◌∷◌, ◌++◌,
  map, ◌==◌, append_assoc, append-nil,
}
use pilotfish.Base.Base64.{encode64, decode64, decode64-encode64, encode64-one_line, encode64-some}
use pilotfish.Base.Lists.{filter, is_empty, All}
use pilotfish.Base.Result.{ok, map_ok}
use pilotfish.Base.Text.{Bytes}
use pilotfish.Adapters.FileSink.{
  content, newline, split, ends_in, but_last, file_line, append, complete_lines, read_all,
}

-- A receipt: octets, and at least one.
pub record IsReceipt (b : Bytes) : Type 0 where
  pub octets : All (λ x. x < 256) b
  pub some_octet : is_empty b ≡ false

abbrev pub IsOneLine : Bytes → Type 0
IsOneLine l = All (λ c. (c == newline) ≡ false) l

-- the file after the receipts were appended to an empty one
unfoldable pub file_of : List Bytes → Bytes
file_of [] = []
file_of (b ∷ bs) = encode64 b ++ (newline ∷ file_of bs)

pub split-line :
    (l rest : Bytes) → IsOneLine l → split newline (l ++ (newline ∷ rest)) ≡ l ∷ split newline rest
unfolding split
split-line [] rest h = refl
split-line (x ∷ l) rest (e, h) = rw (e, split-line l rest h)

split-torn : (t : Bytes) → IsOneLine t → split newline t ≡ t ∷ []
unfolding split
split-torn [] h = refl
split-torn (x ∷ t) (e, h) = rw (e, split-torn t h)

pub joined : (l rest t : Bytes) → (l ++ (newline ∷ rest)) ++ t ≡ l ++ (newline ∷ (rest ++ t))
joined l rest t = append_assoc l (newline ∷ rest) t

split-file_of :
    (bs : List Bytes) (t : Bytes)
    → All IsReceipt bs
    → IsOneLine t
    → split newline (file_of bs ++ t) ≡ map encode64 bs ++ (t ∷ [])
unfolding file_of
split-file_of [] t rs h = split-torn t h
split-file_of (b ∷ bs) t (r, rs) h =
    ap (split newline) (joined (encode64 b) (file_of bs) t)
    ∙ split-line (encode64 b) (file_of bs ++ t) (encode64-one_line b)
    ∙ ap (◌∷◌ (encode64 b)) (split-file_of bs t rs h)

filled : Bytes → Bool
filled l = not (is_empty l)

pub kept_lines :
    (bs rest : List Bytes)
    → All IsReceipt bs
    → filter (λ l. not (is_empty l)) (map encode64 bs ++ rest)
      ≡ map encode64 bs ++ filter (λ l. not (is_empty l)) rest
unfolding filter
kept_lines [] rest rs = refl
kept_lines (b ∷ bs) rest (r, rs) = rw (encode64-some b r.some_octet, kept_lines bs rest rs)

but_last-snoc : (ls : List Bytes) (t : Bytes) → but_last (ls ++ t ∷ []) ≡ ls
unfolding but_last
but_last-snoc [] t = refl
but_last-snoc (l ∷ []) t = refl
but_last-snoc (l ∷ m ∷ ls) t = ap (◌∷◌ l) (but_last-snoc (m ∷ ls) t)

pub ends_in-append :
    (xs : Bytes) (y : ℕ) (ys : Bytes) → ends_in newline (xs ++ (y ∷ ys)) ≡ ends_in newline (y ∷ ys)
unfolding ends_in
ends_in-append [] y ys = refl
ends_in-append (x ∷ []) y ys = refl
ends_in-append (x ∷ z ∷ xs) y ys = ends_in-append (z ∷ xs) y ys

torn-ends_in : (x : ℕ) (t : Bytes) → IsOneLine (x ∷ t) → ends_in newline (x ∷ t) ≡ false
unfolding ends_in
torn-ends_in x [] (e, h) = e
torn-ends_in x (y ∷ t) (e, h) = torn-ends_in y t h

some_line : (l rest : Bytes) → is_empty (l ++ (newline ∷ rest)) ≡ false
some_line [] rest = refl
some_line (x ∷ l) rest = refl

ends_in-cons :
    (x : ℕ) (ys : Bytes) → is_empty ys ≡ false → ends_in newline (x ∷ ys) ≡ ends_in newline ys
unfolding ends_in
ends_in-cons x [] h = cc
ends_in-cons x (y ∷ ys) h = refl

some_file : (b : Bytes) (bs : List Bytes) → is_empty (file_of (b ∷ bs)) ≡ false
unfolding file_of
some_file b bs = some_line (encode64 b) (file_of bs)

file_of-ends_in : (b : Bytes) (bs : List Bytes) → ends_in newline (file_of (b ∷ bs)) ≡ true
unfolding file_of ends_in
file_of-ends_in b [] = ends_in-append (encode64 b) newline []
file_of-ends_in b (c ∷ bs) =
    ends_in-append (encode64 b) newline (file_of (c ∷ bs))
    ∙ ends_in-cons newline (file_of (c ∷ bs)) (some_file c bs)
    ∙ file_of-ends_in c bs

file_of-nil : file_of [] ≡ []
unfolding file_of
file_of-nil = refl

none_left : (ls : List Bytes) → ls ++ filter (λ l. not (is_empty l)) [] ≡ ls
unfolding filter
none_left ls = append-nil ls

decoded : (bs : List Bytes) → All IsReceipt bs → map_ok decode64 (map encode64 bs) ≡ ok bs
unfolding map_ok decode64
decoded [] rs = refl
decoded (b ∷ bs) (r, rs) = rw (decode64-encode64 b r.octets, decoded bs rs)

no_lines : complete_lines [] ≡ []
unfolding complete_lines split filter
no_lines = refl

dropped : (ls : List Bytes) → ls ++ filter (λ l. not (is_empty l)) ([] ∷ []) ≡ ls
unfolding filter
dropped ls = append-nil ls

pub not_empty : (xs : Bytes) (y : ℕ) (ys : Bytes) → is_empty (xs ++ (y ∷ ys)) ≡ false
not_empty [] y ys = refl
not_empty (x ∷ xs) y ys = refl

complete_lines-file_of :
    (bs : List Bytes) (t : Bytes)
    → All IsReceipt bs
    → IsOneLine t
    → complete_lines (file_of bs ++ t) ≡ map encode64 bs
unfolding complete_lines
complete_lines-file_of [] [] rs h = ap (λ f. complete_lines (f ++ [])) file_of-nil ∙ no_lines
complete_lines-file_of (b ∷ bs) [] rs h =
    let raw = file_of (b ∷ bs) in
    let ends : ends_in newline (raw ++ []) ≡ true =
      ap (ends_in newline) (append-nil raw) ∙ file_of-ends_in b bs in
    let more : is_empty (raw ++ []) ≡ false = ap is_empty (append-nil raw) ∙ some_file b bs in
    rw (more, ends, split-file_of (b ∷ bs) [] rs tt)
      (kept_lines (b ∷ bs) ([] ∷ []) rs ∙ dropped (map encode64 (b ∷ bs)))
complete_lines-file_of bs (x ∷ t) rs h =
    rw
      (
        not_empty (file_of bs) x t,
        ends_in-append (file_of bs) x t,
        torn-ends_in x t h,
        split-file_of bs (x ∷ t) rs h,
        but_last-snoc (map encode64 bs) (x ∷ t),
      )
      (ap (filter (λ l. not (is_empty l))) (sym (append-nil (map encode64 bs)))
        ∙ kept_lines bs [] rs
        ∙ none_left (map encode64 bs))

read_all-file_of :
    (bs : List Bytes) (t : Bytes)
    → All IsReceipt bs
    → IsOneLine t
    → read_all (some (file_of bs ++ t)) ≡ ok bs
unfolding read_all
read_all-file_of bs t rs h = rw (complete_lines-file_of bs t rs h) (decoded bs rs)

-- the file after the receipts were appended in turn
unfoldable pub append_all : List Bytes → Option Bytes → Option Bytes
unfolding append
append_all [] file = file
append_all (b ∷ bs) file = append_all bs (append b file).1

content-append_all :
    (bs : List Bytes) (file : Option Bytes)
    → content (append_all bs file) ≡ content file ++ file_of bs
unfolding append_all append file_of file_line
content-append_all [] file = sym (append-nil (content file))
content-append_all (b ∷ bs) file =
    content-append_all bs (some (content file ++ file_line b))
    ∙ (append_assoc (content file) (file_line b) (file_of bs)
        ∙ ap (λ f. content file ++ f) (joined (encode64 b) [] (file_of bs)))

-- What the file sink reads back are the receipts that `append` wrote in turn to a file that was not
-- there, each of them octets and at least one, in their order, whatever part of a line without its
-- end a cut write left after them.
pub read_all-torn :
    (bs : List Bytes) (t : Bytes)
    → All IsReceipt bs
    → IsOneLine t
    → read_all (some (content (append_all bs none) ++ t)) ≡ ok bs
read_all-torn bs t rs h =
    ap (λ f. read_all (some (f ++ t))) (content-append_all bs none) ∙ read_all-file_of bs t rs h

All-snoc :
    (b : Bytes) (bs : List Bytes) → IsReceipt b → All IsReceipt bs → All IsReceipt (bs ++ b ∷ [])
All-snoc b [] r rs = (r, tt)
All-snoc b (c ∷ bs) r (q, rs) = (q, All-snoc b bs r rs)

file_of-snoc : (b : Bytes) (bs : List Bytes) → file_of bs ++ file_line b ≡ file_of (bs ++ b ∷ [])
unfolding file_of file_line
file_of-snoc b [] = refl
file_of-snoc b (c ∷ bs) =
    joined (encode64 c) (file_of bs) (file_line b)
    ∙ ap (λ f. encode64 c ++ (newline ∷ f)) (file_of-snoc b bs)

-- A receipt, octets and at least one, that is appended to the file of other receipts is read back
-- after them.
pub read_all-append-file_of :
    (b : Bytes) (bs : List Bytes)
    → IsReceipt b
    → All IsReceipt bs
    → read_all (append b (some (file_of bs))).1 ≡ ok (bs ++ b ∷ [])
unfolding append
read_all-append-file_of b bs r rs =
    ap (λ f. read_all (some f)) (file_of-snoc b bs ∙ sym (append-nil (file_of (bs ++ b ∷ []))))
    ∙ read_all-file_of (bs ++ b ∷ []) [] (All-snoc b bs r rs) tt
