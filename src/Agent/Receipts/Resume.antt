-- ===== src/Agent/Receipts/Resume.antt =====
-- A restarted agent resumes the chain where it stood.
use pilotfish.Base.{
  ◌≡◌, refl, sym, ap, subst, ◌∙◌, Bool, false, not, ◌||◌, List, [], ◌∷◌, ◌++◌, arith, Bool-cases,
  inl, inr,
}
use pilotfish.Base.Int.{ℤ, pos, ◌+ℤ◌}
use pilotfish.Base.Lists.{any}
use pilotfish.Base.Result.{Result, ok, err, chain_broken, passed, then-ok, >>=-eq-ok}
use pilotfish.Base.Text.{Text, Bytes, text_eq, text_eq_refl}
use pilotfish.Core.Models.{Time}
use pilotfish.Core.Decide.{EligibilityDecision}
use pilotfish.Platform.{Platform}
use pilotfish.Protocol.Fields.{InCalendar}
use pilotfish.Protocol.Messages.Decisions.{HasCalendarTimes}
use pilotfish.Agent.Receipts.{
  Receipt, receipt_hash, read_lines, verify_chain, signed_line, genesis_hash, ReadableSink, Chain,
  new_chain, read_chain, last_of, resume, recover, next_receipt, advanced, append_line,
  record_receipt,
}
use pilotfish.Agent.Receipts.Reading.{
  whole_receipt, receipt_hash-whole, read_line-signed_line, read_lines-append, end_of,
  verify_from-snoc, end_of-last_of,
}

any-snoc {ℓ} :
    {A : Type ℓ} (q : A → Bool) (xs : List A) (x : A) → any q (xs ++ x ∷ []) ≡ any q xs || q x
unfolding any
any-snoc q [] x = ground arith
any-snoc q (y ∷ xs) x = elim (Bool-cases (q y)) [ inl e ↦ rw e | inr e ↦ rw e (any-snoc q xs x) ]

last_of-snoc : (q : Receipt) (rs : List Receipt) (r : Receipt) → last_of q (rs ++ r ∷ []) ≡ r
unfolding last_of
last_of-snoc q [] r = refl
last_of-snoc q (s ∷ rs) r = last_of-snoc s rs r

-- whether a receipt is another site's
abbrev foreign : Text → Receipt → Bool
foreign site r = not (text_eq r.site_id site)

abbrev resumed : {K : Type 0} → K → Bytes → Text → ℤ → Text → Chain K
resumed k key site seq prev = record {
  site_id = site;
  key = key;
  seq = seq;
  prev_hash = prev;
  sink = k;
}

module _ ⦃p : Platform⦄ {K : Type 0} where
  resume-parts :
      (rs : List Receipt) (k : K) (key : Bytes) (site : Text) (c : Chain K)
      → resume rs k key site ≡ ok c
      → (any (foreign site) rs ≡ false)
        × (verify_chain rs ≡ ok tt)
        × (end_of genesis_hash (pos 1) rs ≡ (c.prev_hash, c.seq +ℤ pos 1))
  unfolding resume verify_chain end_of any ◌+ℤ◌
  resume-parts [] k key site c h =
      let e : new_chain site k key ≡ c = cc in
      (refl, refl, rw (sym (ap (λ x. x.prev_hash) e), sym (ap (λ x. x.seq) e)))
  resume-parts (r ∷ rs) k key site c h =
      let (own, h1) = passed (any (foreign site) (r ∷ rs)) chain_broken _ h in
      let (linked, h2) = then-ok (verify_chain (r ∷ rs)) _ h1 in
      let e : resumed k key site (last_of r rs).seq (receipt_hash (last_of r rs)) ≡ c = cc in
      (
        own,
        linked,
        rw (sym (ap (λ x. x.prev_hash) e), sym (ap (λ x. x.seq) e))
            (end_of-last_of genesis_hash (pos 1) r rs linked),
      )

  resume-snoc :
      (rs : List Receipt) (r : Receipt) (k : K) (key : Bytes) (site : Text)
      → any (foreign site) (rs ++ r ∷ []) ≡ false
      → verify_chain (rs ++ r ∷ []) ≡ ok tt
      → resume (rs ++ r ∷ []) k key site ≡ ok (resumed k key site r.seq (receipt_hash r))
  unfolding resume
  resume-snoc [] r k key site h v = rw (h, v) (refl)
  resume-snoc (q ∷ rs) r k key site h v = rw (h, v, last_of-snoc q rs r)

  advanced-ok :
      (sink : ReadableSink K) (c : Chain K) (r r' : Receipt) (a : Result (Unit {0}) × K)
      → (advanced sink c r a).0 ≡ ok r'
      → (a.0 ≡ ok tt)
        × (r ≡ r')
        × ((advanced sink c r a).1 ≡ resumed a.1 c.key c.site_id r.seq (receipt_hash r))
  advanced-ok sink c r r' (ok _, k) h = (refl, cc, refl)
  advanced-ok sink c r r' (err e, k) h = cc

  -- what `record` did, where it returned
  append_line-ok :
      (sink : ReadableSink K) (c : Chain K) (r r' : Receipt) (b : Result Bytes)
      → (append_line sink c r b).0 ≡ ok r'
      → (line : Bytes) × (b ≡ ok line)
        × ((sink.append line c.sink).0 ≡ ok tt)
        × (r ≡ r')
        × ((append_line sink c r b).1
            ≡ resumed (sink.append line c.sink).1 c.key c.site_id r.seq (receipt_hash r))
  append_line-ok sink c r r' (err e) h = cc
  append_line-ok sink c r r' (ok line) h =
      let (done, same, after) = advanced-ok sink c r r' (sink.append line c.sink) h in
      (line, refl, done, same, after)

  -- The chain is the one that `recover` would build from its sink.
  abbrev pub IsResumable : ReadableSink K → Chain K → Type 0
  IsResumable sink c = recover sink c.sink c.key c.site_id ≡ ok c

  recover-parts :
      (sink : ReadableSink K) (c : Chain K)
      → IsResumable sink c
      → (lines : List Bytes) × (rs : List Receipt) × (sink.read_all c.sink ≡ ok lines)
        × (read_lines (p.public_key c.key) lines ≡ ok rs)
        × (resume rs c.sink c.key c.site_id ≡ ok c)
  unfolding recover read_chain
  recover-parts sink c h =
      let (rs, read, h1) = >>=-eq-ok (read_chain sink (p.public_key c.key) c.sink) _ h in
      let (lines, all, h2) = >>=-eq-ok (sink.read_all c.sink) _ read in (lines, rs, all, h2, h1)

  recover-from :
      (sink : ReadableSink K) (k : K) (key : Bytes) (site : Text) (lines : List Bytes)
      (rs : List Receipt)
      → sink.read_all k ≡ ok lines
      → read_lines (p.public_key key) lines ≡ ok rs
      → recover sink k key site ≡ resume rs k key site
  unfolding recover read_chain
  recover-from sink k key site lines rs all read = rw (all, read)

  resume-next :
      (rs : List Receipt) (k k' : K) (c : Chain K) (d : EligibilityDecision)
      (kind outcome observed detail : Text)
      → resume rs k c.key c.site_id ≡ ok c
      → let r = next_receipt c d kind outcome observed detail in
        resume (rs ++ whole_receipt r ∷ []) k' c.key c.site_id
        ≡ ok (resumed k' c.key c.site_id r.seq (receipt_hash r))
  unfolding whole_receipt verify_chain
  resume-next rs k k' c d kind outcome observed detail h =
      let r = next_receipt c d kind outcome observed detail in
      let (own, linked, at_end) = resume-parts rs k c.key c.site_id c h in
      let own' : any (foreign c.site_id) (rs ++ whole_receipt r ∷ []) ≡ false =
        any-snoc (foreign c.site_id) rs (whole_receipt r) ∙ rw (own, text_eq_refl c.site_id) in
      let linked' =
        verify_from-snoc genesis_hash (pos 1) rs (whole_receipt r) linked
          (sym (ap (λ e. e.0) at_end)) (sym (ap (λ e. e.1) at_end)) in
      resume-snoc rs (whole_receipt r) k' c.key c.site_id own' linked'
      ∙ ap (λ h. ok (resumed k' c.key c.site_id r.seq h)) (receipt_hash-whole r)

  -- A chain that `recover` would build from its sink stays so when a receipt is recorded: an agent
  -- that restarts after it goes on with the same number and the same hash. The time of the record
  -- and the times of the decision are the calendar's.
  pub record-resumes :
      (sink : ReadableSink K) (c : Chain K) (d : EligibilityDecision) (now : Time)
      (kind outcome observed detail : Text) (r : Receipt)
      → IsResumable sink c
      → (record_receipt sink d now kind outcome observed detail c).0 ≡ ok r
      → InCalendar now
      → HasCalendarTimes d
      → IsResumable sink (record_receipt sink d now kind outcome observed detail c).1
  unfolding record_receipt
  record-resumes sink c d now kind outcome observed detail r sound h cal times =
      let n = next_receipt c d kind outcome observed detail in
      let (lines, rs, all, read, res) = recover-parts sink c sound in
      let (line, signs, done, same, after) =
        append_line-ok sink c n r (signed_line c.site_id c.key now n) h in
      let k = (sink.append line c.sink).1 in
      subst (IsResumable sink) (sym after) (
        recover-from sink k c.key c.site_id (lines ++ line ∷ []) (rs ++ whole_receipt n ∷ [])
          (sink.read_all-append line c.sink lines all done)
          (read_lines-append (p.public_key c.key) lines line rs (whole_receipt n) read
            (read_line-signed_line c.site_id c.key now n line signs cal times))
        ∙ resume-next rs c.sink k c d kind outcome observed detail res)
