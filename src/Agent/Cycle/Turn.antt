-- ===== src/Agent/Cycle/Turn.antt =====
-- What a turn records and how it ends, as a table.
use pilotfish.Base.{
  ◌≡◌, ◌∙◌, true, false, Option, none, some, List, [], ◌∷◌, if◌then◌else◌, Bool-cases, Option-cases,
  inl, inr,
}
use pilotfish.Base.Lists.{is_empty}
use pilotfish.Base.Exec.{Exec, pure, lift, ◌>>=◌, ◌>>◌, >>=-ran, >>=-raised}
use pilotfish.Base.Result.{
  Result, Error, ok, err, adapter_error, postcondition_violation, Result-cases,
}
use pilotfish.Base.Text.{Text, Bytes}
use pilotfish.Core.Models.{Time}
use pilotfish.Core.Decide.{EligibilityDecision}
use pilotfish.Platform.{Platform}
use pilotfish.Agent.Receipts.{
  ReadableSink, Chain, PlaneState, Receipt, record_receipt, next_receipt, state_hash, kind_decision,
  kind_execution, kind_effect, outcome_enforced, outcome_postcondition_failed,
  outcome_enforcement_error,
}
use pilotfish.Agent.Receipts.Total.{record-total}
use pilotfish.Agent.Cycle.{
  DataplaneAdapter, Site, complaint, carry_out, enforce, enforcement_failed, observe_effect,
  on_chain,
}

-- what a receipt says besides the decision
pub record Entry : Type 0 where
  pub kind : Text
  pub outcome : Text
  pub observed : Text
  pub detail : Text

abbrev pub plain : Text → Entry
plain kind = record { kind = kind; outcome = []; observed = []; detail = [] }

abbrev pub effect_entry : Text → Text → Text → Entry
effect_entry outcome observed detail = record {
  kind = kind_effect;
  outcome = outcome;
  observed = observed;
  detail = detail;
}

module _ ⦃p : Platform⦄ where
  -- The end of a turn and its receipts, by what the dataplane did: an exception of `apply`, or else
  -- what the readback returned.
  unfoldable pub verdict :
      EligibilityDecision
      → Option Text
      → Result PlaneState
      → Result EligibilityDecision × List Entry
  verdict d (some detail) back = (
    err (adapter_error detail),
    plain kind_decision
        ∷ plain kind_execution
        ∷ effect_entry outcome_enforcement_error [] detail
        ∷ [],
  )
  verdict d none (err e) = (err e, plain kind_decision ∷ plain kind_execution ∷ [])
  verdict d none (ok actual) =
      let found = complaint d.classes actual in
      if is_empty found
      then (
        ok d,
        plain kind_decision
            ∷ plain kind_execution
            ∷ effect_entry outcome_enforced (state_hash actual) found
            ∷ [],
      )
      else (
        err postcondition_violation,
        plain kind_decision
            ∷ plain kind_execution
            ∷ effect_entry outcome_postcondition_failed (state_hash actual) found
            ∷ [],
      )

  module _ {K D : Type 0} (sink : ReadableSink K) (adapter : DataplaneAdapter D)
      (d : EligibilityDecision) (now : Time) where
    abbrev pub record_entry : Entry → Chain K → Result Receipt × Chain K
    record_entry e = record_receipt sink d now e.kind e.outcome e.observed e.detail

    -- the chain after the entries, in their order
    abbrev pub recorded : List Entry → Chain K → Chain K
    recorded [] c = c
    recorded (e ∷ es) c = recorded es (record_entry e c).1

    module _ (takes : (b : Bytes) (k : K) → (sink.append b k).0 ≡ ok tt) where
      entry-ok :
          (e : Entry) (c : Chain K)
          → (record_entry e c).0 ≡ ok (next_receipt c d e.kind e.outcome e.observed e.detail)
      entry-ok e c = record-total sink d now e.kind e.outcome e.observed e.detail c takes

      then_record :
          (e : Entry) (s : Site K D) (k : Exec (Site K D) EligibilityDecision)
          → (on_chain (record_entry e) >> k) s ≡ k (record s { chain = (record_entry e s.chain).1 })
      then_record e s k = rw (entry-ok e s.chain)

      -- the readback, and the receipt of what it found
      abbrev looked : Exec (Site K D) EligibilityDecision
      looked = do
        actual ← λ s. (adapter.readback s.plane, s)
        observe_effect sink adapter d now actual

      -- what is left of a turn after the two receipts at its beginning
      abbrev finish : Exec (Site K D) EligibilityDecision
      finish = enforce sink adapter d now >> looked

      abbrev ended :
          Result EligibilityDecision
          → List Entry
          → Chain K
          → D
          → Result EligibilityDecision × Site K D
      ended r es c plane = (r, record { chain = recorded es c; plane = plane })

      enforce-applied :
          (s : Site K D)
          → (adapter.apply d s.plane).0 ≡ none
          → enforce sink adapter d now s ≡ (ok tt, record s { plane = (adapter.apply d s.plane).1 })
      unfolding enforce
      enforce-applied s e = rw (e, enforce)

      enforce-raised :
          (s : Site K D) (detail : Text)
          → (adapter.apply d s.plane).0 ≡ some detail
          → enforce sink adapter d now s ≡ (
            err (adapter_error detail),
            record {
              chain = recorded (effect_entry outcome_enforcement_error [] detail ∷ []) s.chain;
              plane = (adapter.apply d s.plane).1;
            },
          )
      unfolding enforce enforcement_failed
      enforce-raised s detail e =
          rw (e, enforce) (rw (entry-ok (effect_entry outcome_enforcement_error [] detail) s.chain))

      finish-raised :
          (s : Site K D) (detail : Text)
          → (adapter.apply d s.plane).0 ≡ some detail
          → finish s
            ≡ ended
                (err (adapter_error detail))
                (effect_entry outcome_enforcement_error [] detail ∷ [])
                s.chain
                (adapter.apply d s.plane).1
      finish-raised s detail e =
          >>=-raised (enforce sink adapter d now) (λ _. looked) s _ (adapter_error detail)
            (enforce-raised s detail e)

      finish-applied :
          (s : Site K D)
          → (adapter.apply d s.plane).0 ≡ none
          → finish s ≡ looked (record s { plane = (adapter.apply d s.plane).1 })
      finish-applied s e =
          >>=-ran (enforce sink adapter d now) (λ _. looked) s _ tt (enforce-applied s e)

      looked-unread :
          (s : Site K D) (x : Error)
          → adapter.readback s.plane ≡ err x
          → looked s ≡ ended (err x) [] s.chain s.plane
      looked-unread s x back = rw back

      looked-read :
          (s : Site K D) (actual : PlaneState)
          → adapter.readback s.plane ≡ ok actual
          → looked s ≡ observe_effect sink adapter d now actual s
      looked-read s actual back = rw back

      observe_effect-ok :
          (s : Site K D) (actual : PlaneState)
          → is_empty (complaint d.classes actual) ≡ true
          → observe_effect sink adapter d now actual s
            ≡ ended
                (ok d)
                (effect_entry outcome_enforced (state_hash actual) (complaint d.classes actual)
                  ∷ [])
                s.chain
                s.plane
      unfolding observe_effect
      observe_effect-ok s actual f = rw f (
          then_record
            (effect_entry outcome_enforced (state_hash actual) (complaint d.classes actual)) s
            (pure d))

      observe_effect-violated :
          (s : Site K D) (actual : PlaneState)
          → is_empty (complaint d.classes actual) ≡ false
          → observe_effect sink adapter d now actual s
            ≡ ended
                (err postcondition_violation)
                (effect_entry outcome_postcondition_failed
                    (state_hash actual)
                    (complaint d.classes actual)
                  ∷ [])
                s.chain
                s.plane
      unfolding observe_effect
      observe_effect-violated s actual f = rw f (
          then_record
            (effect_entry outcome_postcondition_failed (state_hash actual)
              (complaint d.classes actual))
            s (lift (err postcondition_violation)))

      carry_out-start :
          (s : Site K D)
          → carry_out sink adapter d now s
            ≡ finish (record s {
              chain = recorded (plain kind_decision ∷ plain kind_execution ∷ []) s.chain;
            })
      unfolding carry_out
      carry_out-start s =
          then_record (plain kind_decision) s
            (on_chain (record_entry (plain kind_execution)) >> finish)
          ∙ then_record (plain kind_execution)
              (record s { chain = (record_entry (plain kind_decision) s.chain).1 }) finish

      -- If the sink takes every line, a turn ends and records as the table says, with the dataplane
      -- as `apply` left it.
      pub carry_out-verdict :
          (s : Site K D)
          → carry_out sink adapter d now s
            ≡ let (raised, plane) = adapter.apply d s.plane in
              let (end, entries) = verdict d raised (adapter.readback plane) in
              (end, record { chain = recorded entries s.chain; plane = plane })
      unfolding verdict
      carry_out-verdict s =
          let t : Site K D = record s {
            chain = recorded (plain kind_decision ∷ plain kind_execution ∷ []) s.chain;
          } in
          let plane = (adapter.apply d s.plane).1 in
          carry_out-start s ∙ elim (Option-cases (adapter.apply d s.plane).0) [
            | inl e ↦ elim (Result-cases (adapter.readback plane)) [
              | inl (actual, back) ↦ elim (Bool-cases (is_empty (complaint d.classes actual))) [
                | inl f ↦
                    rw (e, back, f)
                      (finish-applied t e
                        ∙ looked-read (record { chain = t.chain; plane = plane }) actual back
                        ∙ observe_effect-ok (record { chain = t.chain; plane = plane }) actual f)
                | inr f ↦
                    rw (e, back, f)
                      (finish-applied t e
                        ∙ looked-read (record { chain = t.chain; plane = plane }) actual back
                        ∙ observe_effect-violated (record { chain = t.chain; plane = plane }) actual
                            f)
              ]
              | inr (x, back) ↦
                  rw (e, back)
                    (finish-applied t e
                      ∙ looked-unread (record { chain = t.chain; plane = plane }) x back)
            ]
            | inr (detail, e) ↦ rw e (finish-raised t detail e)
          ]
