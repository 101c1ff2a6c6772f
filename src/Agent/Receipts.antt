-- ===== src/Agent/Receipts.antt =====
-- agent/receipts.py: the receipts of a site's decisions, numbered and chained by hash, in a sink
-- that can be read back.
pub mod Reading
pub mod Resume
pub mod Tamper
pub mod Total
use pilotfish.Base.{◌≡◌, not, List, [], ◌∷◌, ◌++◌, map, if◌then◌else◌}
use pilotfish.Base.Hex.{from_hex}
use pilotfish.Base.Int.{ℤ, pos, ◌+ℤ◌, int_eq}
use pilotfish.Base.Lists.{take, replicate, any}
use pilotfish.Base.Orders.{pair_ord, list_ord}
use pilotfish.Base.Result.{
  Result, ok, err, chain_broken, raise_if, catch_signature, map_ok, ◌>>=◌, ◌>>◌,
}
use pilotfish.Base.Sort.{sorted}
use pilotfish.Base.Text.{Text, Bytes, text, text_eq, text_ord}
use pilotfish.Core.Models.{Time, hexdigest}
use pilotfish.Core.Decide.{EligibilityDecision}
use pilotfish.Platform.{Platform, Value, int, string, bytes, array_of}
use pilotfish.Protocol.Envelope.{nonce_bytes, sign, verify, encode_envelope, decode_envelope}
use pilotfish.Protocol.Fields.{at, as_text, as_int, as_bytes, as_list}
use pilotfish.Protocol.Messages.{msg_decision_receipt}
use pilotfish.Protocol.Messages.Decisions.{encode_decision, decode_decision}
use pilotfish.Protocol.Messages.Links.{texts_value}

-- GENESIS_HASH: 64 times the digit 0
abbrev pub genesis_hash : Text
genesis_hash = replicate 64 48

abbrev pub kind_decision : Text
kind_decision = text "DECISION"

abbrev pub kind_execution : Text
kind_execution = text "EXECUTION"

abbrev pub kind_effect : Text
kind_effect = text "EFFECT"

abbrev pub outcome_enforced : Text
outcome_enforced = text "ENFORCED"

abbrev pub outcome_postcondition_failed : Text
outcome_postcondition_failed = text "POSTCONDITION_FAILED"

abbrev pub outcome_enforcement_error : Text
outcome_enforcement_error = text "ENFORCEMENT_ERROR"

-- `ReadableSink` over the state `K`. An append that returns adds one entry at the end.
pub record ReadableSink (K : Type 0) : Type 0 where
  pub append : Bytes → K → Result (Unit {0}) × K
  pub read_all : K → Result (List Bytes)
  pub read_all-append :
      (b : Bytes) (k : K) (old : List Bytes)
      → read_all k ≡ ok old
      → (append b k).0 ≡ ok tt
      → read_all (append b k).1 ≡ ok (old ++ b ∷ [])

pub record Receipt : Type 0 where
  pub site_id : Text
  pub seq : ℤ
  pub prev_hash : Text
  pub kind : Text
  pub decision : EligibilityDecision
  pub outcome : Text
  pub observed_state_hash : Text
  pub detail : Text

-- the observed state of a dataplane: the links in force for each class
abbrev pub PlaneState : Type 0
PlaneState = List (Text × List Text)

unfoldable pub state_row : Text × List Text → Text × List Text
state_row (class_id, links) = (class_id, sorted links)

unfoldable pub state_value : Text × List Text → Value
state_value (class_id, links) = array_of (string class_id ∷ texts_value links ∷ [])

module _ ⦃p : Platform⦄ where
  unfoldable pub state_hash : PlaneState → Text
  unfolding state_row state_value
  state_hash state = hexdigest (p.dumps (array_of (map state_value (sorted (map state_row state)))))

  -- `Receipt.body`
  unfoldable pub body : Receipt → List Value
  body r =
      string r.site_id
      ∷ int r.seq
      ∷ string r.prev_hash
      ∷ string r.kind
      ∷ bytes (encode_decision r.decision)
      ∷ string r.outcome
      ∷ string r.observed_state_hash
      ∷ string r.detail
      ∷ []

  -- `Receipt.hash`
  unfoldable pub receipt_hash : Receipt → Text
  receipt_hash r = hexdigest (p.dumps (array_of (body r)))

  -- `_receipt_from_body`
  unfoldable pub receipt_of_body : List Value → Result Receipt
  unfolding at as_text as_int as_bytes
  receipt_of_body f = do
    site_id ← at f 0 >>= as_text
    seq ← at f 1 >>= as_int
    prev_hash ← at f 2 >>= as_text
    kind ← at f 3 >>= as_text
    encoded ← at f 4 >>= as_bytes
    decision ← decode_decision encoded
    outcome ← at f 5 >>= as_text
    observed ← at f 6 >>= as_text
    detail ← at f 7 >>= as_text
    ok (record {
      site_id = site_id;
      seq = seq;
      prev_hash = prev_hash;
      kind = kind;
      decision = decision;
      outcome = outcome;
      observed_state_hash = observed;
      detail = detail;
    })

  -- one round of the loop of `read_chain`
  unfoldable pub read_line : Bytes → Bytes → Result Receipt
  read_line public_key line = do
    envelope ← decode_envelope line
    catch_signature (verify envelope public_key) chain_broken
    v ← p.loads envelope.payload
    f ← as_list v
    receipt_of_body f

  -- `read_chain`, on the lines of the sink
  unfoldable pub read_lines : Bytes → List Bytes → Result (List Receipt)
  unfolding read_line map_ok
  read_lines public_key lines = map_ok (read_line public_key) lines

  unfoldable pub verify_from : Text → ℤ → List Receipt → Result (Unit {0})
  verify_from prev seq [] = ok tt
  verify_from prev seq (r ∷ rs) =
      let rest = verify_from (receipt_hash r) (seq +ℤ pos 1) rs in
      if not (int_eq r.seq seq)
      then err chain_broken
      else if not (text_eq r.prev_hash prev)
      then err chain_broken
      else rest

  -- `verify_chain`
  unfoldable pub verify_chain : List Receipt → Result (Unit {0})
  unfolding verify_from
  verify_chain rs = verify_from genesis_hash (pos 1) rs

  -- the envelope of a receipt, encoded: the nonce is the beginning of the receipt's hash
  unfoldable pub signed_line : Text → Bytes → Time → Receipt → Result Bytes
  signed_line site_id key now r = do
    digest ← from_hex (receipt_hash r)
    envelope ←
        sign msg_decision_receipt site_id now (take nonce_bytes digest)
          (p.dumps (array_of (body r))) key
    ok (encode_envelope envelope)

-- a `ReceiptChain` over a sink that holds `K`
pub record Chain (K : Type 0) : Type 0 where
  pub site_id : Text
  pub key : Bytes
  pub seq : ℤ
  pub prev_hash : Text
  pub sink : K

-- `ReceiptChain.head`
unfoldable pub head : {K : Type 0} → Chain K → ℤ × Text
head c = (c.seq, c.prev_hash)

-- `ReceiptChain(site_id, sink, private_key)`
abbrev pub new_chain : {K : Type 0} → Text → K → Bytes → Chain K
new_chain site_id sink key = record {
  site_id = site_id;
  key = key;
  seq = pos 0;
  prev_hash = genesis_hash;
  sink = sink;
}

-- `receipts[-1]`, from its first item on
unfoldable pub last_of : Receipt → List Receipt → Receipt
last_of r [] = r
last_of r (s ∷ rs) = last_of s rs

-- the receipt that `record` builds
abbrev pub next_receipt :
    {K : Type 0} → Chain K → EligibilityDecision → (kind outcome observed detail : Text) → Receipt
next_receipt c decision kind outcome observed detail = record {
  site_id = c.site_id;
  seq = c.seq +ℤ pos 1;
  prev_hash = c.prev_hash;
  kind = kind;
  decision = decision;
  outcome = outcome;
  observed_state_hash = observed;
  detail = detail;
}

module _ ⦃p : Platform⦄ {K : Type 0} where
  -- `recover` on the receipts that were read
  unfoldable pub resume : List Receipt → K → Bytes → Text → Result (Chain K)
  unfolding last_of
  resume [] k key site_id = ok (new_chain site_id k key)
  resume (r ∷ rs) k key site_id = do
    raise_if (any (λ s. not (text_eq s.site_id site_id)) (r ∷ rs)) chain_broken
    verify_chain (r ∷ rs)
    ok (record {
      site_id = site_id;
      key = key;
      seq = (last_of r rs).seq;
      prev_hash = receipt_hash (last_of r rs);
      sink = k;
    })

module _ ⦃p : Platform⦄ {K : Type 0} (sink : ReadableSink K) where
  unfoldable pub read_chain : Bytes → K → Result (List Receipt)
  unfolding read_lines
  read_chain public_key k = do lines ← sink.read_all k; read_lines public_key lines

  -- `ReceiptChain.recover`
  unfoldable pub recover : K → Bytes → Text → Result (Chain K)
  unfolding read_chain
  recover k key site_id = do
    receipts ← read_chain (p.public_key key) k
    resume receipts k key site_id

  -- the end of `record`: the head moves only after the sink has taken the line
  abbrev pub advanced : Chain K → Receipt → Result (Unit {0}) × K → Result Receipt × Chain K
  advanced c r (err e, k) = (err e, record c { sink = k })
  advanced c r (ok _, k) = (ok r, record c { sink = k; seq = r.seq; prev_hash = receipt_hash r })

  abbrev pub append_line : Chain K → Receipt → Result Bytes → Result Receipt × Chain K
  append_line c r (err e) = (err e, c)
  append_line c r (ok line) = advanced c r (sink.append line c.sink)

  -- `ReceiptChain.record`
  unfoldable pub record_receipt :
      EligibilityDecision
      → Time
      → (kind outcome observed detail : Text) → Chain K
      → Result Receipt × Chain K
  record_receipt decision now kind outcome observed detail c =
      let r = next_receipt c decision kind outcome observed detail in
      append_line c r (signed_line c.site_id c.key now r)
