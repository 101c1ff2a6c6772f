-- ===== src/Agent/Receipts/Reading.antt =====
-- How receipts are read back from their lines, and what links one to the next.
use pilotfish.Base.{◌≡◌, refl, sym, true, List, [], ◌∷◌, ◌++◌, arith, Bool-cases, inl, inr}
use pilotfish.Base.Int.{ℤ, pos, ◌+ℤ◌, int_eq, eq_of_parts}
use pilotfish.Base.Lists.{take}
use pilotfish.Base.Hex.{from_hex}
use pilotfish.Base.Result.{ok, map_ok, >>=-eq-ok}
use pilotfish.Base.Text.{Text, Bytes, text_eq, text_eq_refl, text_eq_iff}
use pilotfish.Core.Models.{Time}
use pilotfish.Platform.{Platform, array_of}
use pilotfish.Protocol.Fields.{at, InCalendar, as_list-array}
use pilotfish.Protocol.Envelope.{
  Envelope, nonce_bytes, sign, verify, encode_envelope, decode_envelope, whole_envelope,
}
use pilotfish.Protocol.Messages.{msg_decision_receipt}
use pilotfish.Protocol.Messages.Decisions.{
  whole_decision, HasCalendarTimes, decode_decision-encode_decision, encode_decision-whole,
}
use pilotfish.Agent.BundleStore.Delivery.{signed-whole, encoded-decoded, whole-fields}
use pilotfish.Agent.Receipts.{
  Receipt, body, receipt_hash, receipt_of_body, read_line, read_lines, verify_from, signed_line,
  last_of,
}

-- The receipt as the sink gives it back: the times of its decision in whole seconds.
unfoldable pub whole_receipt : Receipt → Receipt
whole_receipt r = record r { decision = whole_decision r.decision }

int_eq-eq : (a b : ℤ) → int_eq a b ≡ true → a ≡ b
int_eq-eq a b h = ground (arith, eq_of_parts a b)

int_eq_refl : (a : ℤ) → int_eq a a ≡ true
int_eq_refl a = ground arith

module _ ⦃p : Platform⦄ where
  pub receipt_hash-whole : (r : Receipt) → receipt_hash (whole_receipt r) ≡ receipt_hash r
  unfolding receipt_hash body whole_receipt
  receipt_hash-whole r = rw (encode_decision-whole r.decision)

  receipt_of_body-body :
      (r : Receipt) → HasCalendarTimes r.decision → receipt_of_body (body r) ≡ ok (whole_receipt r)
  unfolding receipt_of_body body whole_receipt
  receipt_of_body-body r h = rw (decode_decision-encode_decision r.decision h)

  signed_line-signs :
      (site : Text) (key : Bytes) (now : Time) (r : Receipt) (line : Bytes)
      → signed_line site key now r ≡ ok line
      → (n : Bytes) × (e : Envelope) × (sign msg_decision_receipt site now n
            (p.dumps (array_of (body r)))
            key
          ≡ ok e)
        × (line ≡ encode_envelope e)
  unfolding signed_line
  signed_line-signs site key now r line h =
      let (digest, d, h1) = >>=-eq-ok (from_hex (receipt_hash r)) _ h in
      let (e, done, h2) =
        >>=-eq-ok
          (sign msg_decision_receipt site now (take nonce_bytes digest)
            (p.dumps (array_of (body r))) key)
          _ h1 in
      (take nonce_bytes digest, e, done, cc)

  read_line-from :
      (key line : Bytes) (e : Envelope) (r r' : Receipt)
      → decode_envelope line ≡ ok e
      → verify e key ≡ ok tt
      → e.payload ≡ p.dumps (array_of (body r))
      → receipt_of_body (body r) ≡ ok r'
      → read_line key line ≡ ok r'
  unfolding read_line
  read_line-from key line e r r' d v pl b = rw (d, v, pl, p.loads-dumps, as_list-array (body r), b)

  -- A line that was signed is read back under the public key as the receipt that it holds, the times
  -- of its decision cut to whole seconds, if those and the time of the line are the calendar's.
  pub read_line-signed_line :
      (site : Text) (key : Bytes) (now : Time) (r : Receipt) (line : Bytes)
      → signed_line site key now r ≡ ok line
      → InCalendar now
      → HasCalendarTimes r.decision
      → read_line (p.public_key key) line ≡ ok (whole_receipt r)
  read_line-signed_line site key now r line h cal times =
      let pl = p.dumps (array_of (body r)) in
      let (n, e, signs, enc) = signed_line-signs site key now r line h in
      let (m, i, at, nn, payload) = whole-fields msg_decision_receipt site now n pl key e signs in
      rw enc (
        read_line-from (p.public_key key) (encode_envelope e) (whole_envelope e) r (whole_receipt r)
          (encoded-decoded msg_decision_receipt site now n pl key e signs cal)
          (signed-whole msg_decision_receipt site now n pl key e signs) payload
          (receipt_of_body-body r times))

  pub read_lines-append :
      (key : Bytes) (lines : List Bytes) (line : Bytes) (rs : List Receipt) (r : Receipt)
      → read_lines key lines ≡ ok rs
      → read_line key line ≡ ok r
      → read_lines key (lines ++ line ∷ []) ≡ ok (rs ++ r ∷ [])
  unfolding read_lines map_ok
  read_lines-append key [] line rs r h k = let e : [] ≡ rs = cc in rw (k, sym e)
  read_lines-append key (l ∷ lines) line rs r h k =
      let (q, first, h1) = >>=-eq-ok (read_line key l) _ h in
      let (qs, rest, h2) = >>=-eq-ok (read_lines key lines) _ h1 in
      let e : q ∷ qs ≡ rs = cc in rw (first, read_lines-append key lines line qs r rest k, sym e)

  -- Where a verified list of receipts ends: the hash and the number that the next one must carry.
  unfoldable pub end_of : Text → ℤ → List Receipt → Text × ℤ
  end_of prev seq [] = (prev, seq)
  end_of prev seq (r ∷ rs) = end_of (receipt_hash r) (seq +ℤ pos 1) rs

  verify_from-nil : (prev : Text) (seq : ℤ) → verify_from prev seq [] ≡ ok tt
  unfolding verify_from
  verify_from-nil prev seq = refl

  -- What one round of `verify_chain` finds out.
  pub verify_from-step :
      (prev : Text) (seq : ℤ) (r : Receipt) (rs : List Receipt)
      → verify_from prev seq (r ∷ rs) ≡ ok tt
      → (r.seq ≡ seq)
        × (r.prev_hash ≡ prev)
        × (verify_from (receipt_hash r) (seq +ℤ pos 1) rs ≡ ok tt)
  unfolding verify_from
  verify_from-step prev seq r rs h = elim (Bool-cases (int_eq r.seq seq)) [
    | inl e ↦ elim (Bool-cases (text_eq r.prev_hash prev)) [
      | inl f ↦ (int_eq-eq r.seq seq e, (text_eq_iff r.prev_hash prev).0 f, rw (e, f) at h)
      | inr f ↦ let g = rw (e, f) at h in cc
    ]
    | inr e ↦ let g = rw e at h in cc
  ]

  verify_from-cons :
      (prev : Text) (seq : ℤ) (r : Receipt) (rs : List Receipt)
      → r.seq ≡ seq
      → r.prev_hash ≡ prev
      → verify_from (receipt_hash r) (seq +ℤ pos 1) rs ≡ ok tt
      → verify_from prev seq (r ∷ rs) ≡ ok tt
  unfolding verify_from
  verify_from-cons prev seq r rs e f h = rw (h, e, f, int_eq_refl seq, text_eq_refl prev)

  pub verify_from-snoc :
      (prev : Text) (seq : ℤ) (rs : List Receipt) (r : Receipt)
      → verify_from prev seq rs ≡ ok tt
      → r.prev_hash ≡ (end_of prev seq rs).0
      → r.seq ≡ (end_of prev seq rs).1
      → verify_from prev seq (rs ++ r ∷ []) ≡ ok tt
  unfolding end_of
  verify_from-snoc prev seq [] r h e f = verify_from-cons prev seq r [] f e (verify_from-nil _ _)
  verify_from-snoc prev seq (q ∷ rs) r h e f =
      let (n, l, rest) = verify_from-step prev seq q rs h in
      verify_from-cons prev seq q (rs ++ r ∷ []) n l
        (verify_from-snoc (receipt_hash q) (seq +ℤ pos 1) rs r rest e f)

  pub end_of-last_of :
      (prev : Text) (seq : ℤ) (r : Receipt) (rs : List Receipt)
      → verify_from prev seq (r ∷ rs) ≡ ok tt
      → end_of prev seq (r ∷ rs) ≡ (receipt_hash (last_of r rs), (last_of r rs).seq +ℤ pos 1)
  unfolding end_of last_of
  end_of-last_of prev seq r [] h = let (n, l, rest) = verify_from-step prev seq r [] h in rw n
  end_of-last_of prev seq r (s ∷ rs) h =
      let (n, l, rest) = verify_from-step prev seq r (s ∷ rs) h in
      end_of-last_of (receipt_hash r) (seq +ℤ pos 1) s rs rest
