-- ===== src/Agent/Cycle/Run.antt =====
-- A whole turn, from the bundle in force to the receipts and the dataplane.
use pilotfish.Base.{
  ◌≢◌, [], ◌≡◌, refl, subst, true, List, if◌then◌else◌, Bool-cases, Option-cases, inl, inr,
}
use pilotfish.Base.Exec.{Exec, pure, lift, ◌>>=◌, ◌>>◌, >>=-returned}
use pilotfish.Base.Lists.{is_empty, All}
use pilotfish.Base.Result.{Result, ok, err, adapter_error, postcondition_violation}
use pilotfish.Base.Text.{Text, Bytes}
use pilotfish.Core.Models.{Observation, Time}
use pilotfish.Core.Decide.{EligibilityDecision, decide}
use pilotfish.Platform.{Platform}
use pilotfish.Agent.BundleStore.{Store, current}
use pilotfish.Agent.Receipts.{
  ReadableSink, PlaneState, Receipt, record_receipt, kind_decision, kind_execution, kind_effect,
  outcome_enforced, outcome_postcondition_failed, outcome_enforcement_error, state_hash,
}
use pilotfish.Agent.Cycle.{
  DataplaneAdapter, Site, on_chain, in_force, complaint, enforce, enforcement_failed,
  observe_effect, carry_out, run_once,
}
use pilotfish.Agent.Cycle.Complaint.{IsEnforced, complaint_exactly}
use pilotfish.Agent.Cycle.Turn.{verdict, recorded, carry_out-verdict}

module _ ⦃p : Platform⦄ {K D S : Type 0} (sink : ReadableSink K) (adapter : DataplaneAdapter D)
    (site_id : Text) (store : Store S) (now : Time) where
  -- what a turn decides on the observations
  unfoldable pub decided : List Observation → EligibilityDecision
  decided os =
      let (bundle, degraded) = current store now in
      decide bundle (record { observations = os }) now site_id degraded

  -- A turn by what the source and the dataplane did: an exception of the source ends it before
  -- anything is recorded.
  unfoldable pub turn : Result (List Observation) → Exec (Site K D) EligibilityDecision
  turn (err e) s = (err e, s)
  turn (ok os) s =
      let d = decided os in
      let (raised, plane) = adapter.apply d s.plane in
      let (end, entries) = verdict d raised (adapter.readback plane) in
      (end, record { chain = recorded sink adapter d now entries s.chain; plane = plane })

  -- If the sink takes every line, a turn is as the table says: it decides with the bundle in force
  -- on what the source observed, applies the decision, and ends and records by what the dataplane
  -- did; where the source raises, it changes nothing.
  pub run_once-turn :
      (observed : Result (List Observation)) (s : Site K D)
      → ((b : Bytes) (k : K) → (sink.append b k).0 ≡ ok tt)
      → run_once sink adapter site_id store observed now s ≡ turn observed s
  unfolding run_once turn decided
  run_once-turn (err e) s takes = refl
  run_once-turn (ok os) s takes = carry_out-verdict sink adapter (decided os) now takes s

  raised-again :
      (d : EligibilityDecision) (detail : Text) (s : Site K D)
      → (enforcement_failed sink adapter d now detail s).0 ≢ ok tt
  unfolding enforcement_failed
  raised-again d detail s h =
      let (r, _, k) =
        >>=-returned
          (on_chain (record_receipt sink d now kind_effect outcome_enforcement_error [] detail))
          (λ _. lift (err (adapter_error detail))) s tt h in
      cc

  enforce-returned :
      (d : EligibilityDecision) (s : Site K D)
      → (enforce sink adapter d now s).0 ≡ ok tt
      → (enforce sink adapter d now s).1.plane ≡ (adapter.apply d s.plane).1
  unfolding enforce
  enforce-returned d s h = elim (Option-cases (adapter.apply d s.plane).0) [
    | inl e ↦ rw (e, enforce)
    | inr (detail, e) ↦ absurd (raised-again d detail _ (rw (e, enforce) at h))
  ]

  judged :
      (d d' : EligibilityDecision) (found : Text) (s : Site K D)
      → ((if is_empty found then pure d else lift (err postcondition_violation)) s).0 ≡ ok d'
      → (d ≡ d') × (is_empty found ≡ true)
  judged d d' found s h = elim (Bool-cases (is_empty found)) [
    | inl e ↦ let k = rw e at h in (cc, e)
    | inr e ↦ let k = rw e at h in absurd (cc)
  ]

  observe_effect-returned :
      (d d' : EligibilityDecision) (actual : PlaneState) (s : Site K D)
      → (observe_effect sink adapter d now actual s).0 ≡ ok d'
      → (d ≡ d') × (is_empty (complaint d.classes actual) ≡ true)
  unfolding observe_effect
  observe_effect-returned d d' actual s h =
      let found = complaint d.classes actual in
      let effect = on_chain (
        record_receipt sink d now kind_effect
          (if is_empty found then outcome_enforced else outcome_postcondition_failed)
          (state_hash actual) found) in
      let (r, _, k) =
        >>=-returned effect
          (λ _. if is_empty found then pure d else lift (err postcondition_violation)) s d' h in
      judged d d' found (effect s).1 k

  abbrev noted : EligibilityDecision → Text → Exec (Site K D) Receipt
  noted d kind = on_chain (record_receipt sink d now kind [] [] [])

  abbrev looked : EligibilityDecision → Exec (Site K D) EligibilityDecision
  looked d = (λ s. (adapter.readback s.plane, s)) >>= observe_effect sink adapter d now

  carry_out-returned :
      (d d' : EligibilityDecision) (s : Site K D)
      → (carry_out sink adapter d now s).0 ≡ ok d'
      → (d ≡ d')
        × ((actual : PlaneState) × (adapter.readback (adapter.apply d s.plane).1 ≡ ok actual)
            × (is_empty (complaint d.classes actual) ≡ true))
  unfolding carry_out
  carry_out-returned d d' s h =
      let (r, _, h1) =
        >>=-returned (noted d kind_decision)
          (λ _. noted d kind_execution >> (enforce sink adapter d now >> looked d)) s d' h in
      let s1 = (noted d kind_decision s).1 in
      let (r', _, h2) =
        >>=-returned (noted d kind_execution) (λ _. enforce sink adapter d now >> looked d) s1 d'
          h1 in
      let s2 = (noted d kind_execution s1).1 in
      let (u, applied, h3) = >>=-returned (enforce sink adapter d now) (λ _. looked d) s2 d' h2 in
      let s3 = (enforce sink adapter d now s2).1 in
      let (actual, back, h4) =
        >>=-returned (λ t. (adapter.readback t.plane, t)) (observe_effect sink adapter d now) s3 d'
          h3 in
      let (same, good) = observe_effect-returned d d' actual s3 h4 in
      (same, (actual, rw (enforce-returned d s2 applied) at back, good))

  -- A turn that returns has decided, with the bundle in force, on what the source observed, and read
  -- back from the dataplane to which it applied the decision that, for every class, only permitted
  -- links are held, and one at least where any is permitted.
  pub run_once-IsEnforced :
      (observed : Result (List Observation)) (s : Site K D) (d : EligibilityDecision)
      → (run_once sink adapter site_id store observed now s).0 ≡ ok d
      → (os : List Observation) × (observed ≡ ok os)
        × (decided os ≡ d)
        × ((actual : PlaneState) × (adapter.readback (adapter.apply d s.plane).1 ≡ ok actual)
            × All (λ c. IsEnforced c.permitted (in_force c.class_id actual)) d.classes)
  unfolding run_once decided
  run_once-IsEnforced (err e) s d h = cc
  run_once-IsEnforced (ok os) s d h =
      let (same, (actual, back, good)) = carry_out-returned (decided os) d s h in
      (
        os,
        refl,
        same,
        subst
            (λ x.
              (a : PlaneState) × (adapter.readback (adapter.apply x s.plane).1 ≡ ok a)
              × All (λ c. IsEnforced c.permitted (in_force c.class_id a)) x.classes)
            same (actual, back, (complaint_exactly (decided os).classes actual).0 good),
      )
