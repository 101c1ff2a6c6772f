-- ===== src/Agent/Receipts/Total.antt =====
-- Recording a receipt fails only where the sink does.
use pilotfish.Base.{◌≡◌, arith}
use pilotfish.Base.Hex.{hex, from_hex, from_hex-hex}
use pilotfish.Base.Lists.{length, take, length-take}
use pilotfish.Base.Result.{ok}
use pilotfish.Base.Text.{Text, Bytes}
use pilotfish.Core.Models.{Time, hexdigest}
use pilotfish.Core.Decide.{EligibilityDecision}
use pilotfish.Platform.{Platform, array_of}
use pilotfish.Protocol.Envelope.{
  Envelope, signed_fields, nonce_bytes, sign, signing_input, encode_envelope,
}
use pilotfish.Protocol.Messages.{msg_decision_receipt}
use pilotfish.Agent.Receipts.{
  Receipt, body, receipt_hash, signed_line, ReadableSink, Chain, next_receipt, record_receipt,
  append_line,
}

module _ ⦃p : Platform⦄ where
  sign-total :
      (m i : Text) (t : Time) (n pl k : Bytes)
      → length n ≡ 16
      → (e : Envelope) × (sign m i t n pl k ≡ ok e)
  unfolding sign signing_input
  sign-total m i t n pl k h = (
    record {
      msg_type = m;
      issuer = i;
      issued_at = t;
      nonce = n;
      payload = pl;
      signature = p.sign k (p.dumps (array_of (signed_fields m i t n pl)));
    },
    rw h,
  )

  pub signed_line-total :
      (site : Text) (key : Bytes) (now : Time) (r : Receipt)
      → (line : Bytes) × (signed_line site key now r ≡ ok line)
  unfolding signed_line receipt_hash hexdigest
  signed_line-total site key now r =
      let pl = p.dumps (array_of (body r)) in
      let digest = p.sha256 pl in
      let read : from_hex (hex digest) ≡ ok digest = from_hex-hex digest (p.sha256_octets pl) in
      let long : length (take nonce_bytes digest) ≡ 16 =
        omega (arith, length-take 16 digest, p.length-sha256 pl) in
      let (e, done) =
        sign-total msg_decision_receipt site now (take nonce_bytes digest) pl key long in
      (encode_envelope e, rw (read, done))

  module _ {K : Type 0} (sink : ReadableSink K) where
    append_line-total :
        (c : Chain K) (r : Receipt) (line : Bytes)
        → (sink.append line c.sink).0 ≡ ok tt
        → (append_line sink c r (ok line)).0 ≡ ok r
    append_line-total c r line h = rw h

    -- If the sink takes every line, `record` returns the next receipt.
    pub record-total :
        (d : EligibilityDecision) (now : Time) (kind outcome observed detail : Text) (c : Chain K)
        → ((b : Bytes) (k : K) → (sink.append b k).0 ≡ ok tt)
        → (record_receipt sink d now kind outcome observed detail c).0
          ≡ ok (next_receipt c d kind outcome observed detail)
    unfolding record_receipt
    record-total d now kind outcome observed detail c takes =
        let r = next_receipt c d kind outcome observed detail in
        let (line, done) = signed_line-total c.site_id c.key now r in
        rw done (append_line-total c r line (takes line c.sink))
