-- ===== src/Agent/Cycle.antt =====
-- agent/cycle.py: one turn of the agent. What the source observes is an argument; the chain and
-- the dataplane are the state.
pub mod Complaint
pub mod Turn
pub mod Run
use pilotfish.Base.{Option, none, some, not, ◌&&◌, List, [], ◌∷◌, ◌++◌, if◌then◌else◌}
use pilotfish.Base.Exec.{Exec, pure, lift, ◌>>=◌, ◌>>◌}
use pilotfish.Base.Lists.{filter, is_empty}
use pilotfish.Base.Result.{Result, ok, err, postcondition_violation, adapter_error}
use pilotfish.Base.Sort.{sorted}
use pilotfish.Base.Text.{Text, text, text_eq, text_ord, contains}
use pilotfish.Core.Models.{Observation, Time}
use pilotfish.Core.Decide.{ClassEligibility, EligibilityDecision, decide}
use pilotfish.Platform.{Platform}
use pilotfish.Agent.BundleStore.{Store, current}
use pilotfish.Agent.Receipts.{
  ReadableSink, Chain, PlaneState, record_receipt, state_hash, kind_decision, kind_execution,
  kind_effect, outcome_enforced, outcome_postcondition_failed, outcome_enforcement_error,
}

-- `DataplaneAdapter` over the state `D`. Either call may raise; of an exception of `apply` the
-- cycle records the text `f"{type(exc).__name__}: {exc}"`, which stands for it here.
pub record DataplaneAdapter (D : Type 0) : Type 0 where
  pub apply : EligibilityDecision → D → Option Text × D
  pub readback : D → Result PlaneState

-- `actual.get(class_id, ())`
unfoldable pub in_force : Text → PlaneState → List Text
in_force class_id [] = []
in_force class_id ((c, links) ∷ rest) = if text_eq c class_id then links else in_force class_id rest

-- the items of a list, each once: a `set`
unfoldable pub to_set : List Text → List Text
to_set [] = []
to_set (x ∷ xs) = let rest = to_set xs in if contains x rest then rest else x ∷ rest

-- `set(in_force) - set(permitted)`
unfoldable pub surplus : List Text → List Text → List Text
unfolding to_set
surplus held permitted = filter (λ x. not (contains x permitted)) (to_set held)

module _ ⦃p : Platform⦄ where
  -- the complaint about one class, empty if there is none
  unfoldable pub class_complaint : ClassEligibility → List Text → Text
  unfolding surplus
  class_complaint c held =
      let extra = surplus held c.permitted in
      if not (is_empty extra)
      then text "class "
        ++ (c.class_id
            ++ (text ": dataplane holds "
                ++ (p.show_list (sorted extra) ++ text ", which policy excluded")))
      else if is_empty held && not (is_empty c.permitted)
      then text "class "
        ++ (c.class_id
            ++ (text ": decision permitted "
                ++ (p.show_list c.permitted ++ text " but the dataplane holds nothing")))
      else []

  -- `_postcondition_complaint`: the first complaint
  unfoldable pub complaint : List ClassEligibility → PlaneState → Text
  unfolding class_complaint in_force
  complaint [] actual = []
  complaint (c ∷ cs) actual =
      let first = class_complaint c (in_force c.class_id actual) in
      let later = complaint cs actual in if is_empty first then later else first

-- what a cycle changes
pub record Site (K D : Type 0) : Type 0 where
  pub chain : Chain K
  pub plane : D

-- an action on the chain, and one on the dataplane
abbrev pub on_chain : {K D A : Type 0} → (Chain K → Result A × Chain K) → Exec (Site K D) A
on_chain m s = let (r, c) = m s.chain in (r, record s { chain = c })

abbrev pub on_plane : {K D A : Type 0} → (D → Result A × D) → Exec (Site K D) A
on_plane m s = let (r, d) = m s.plane in (r, record s { plane = d })

module _ ⦃p : Platform⦄ {K D : Type 0} (sink : ReadableSink K) (adapter : DataplaneAdapter D) where
  -- the effect receipt of an exception that `apply` raised, and the exception again
  unfoldable pub enforcement_failed : EligibilityDecision → Time → Text → Exec (Site K D) (Unit {0})
  enforcement_failed decision now detail = do
    on_chain (record_receipt sink decision now kind_effect outcome_enforcement_error [] detail)
    lift (err (adapter_error detail))

  -- the `try` around `apply`
  unfoldable pub enforce : EligibilityDecision → Time → Exec (Site K D) (Unit {0})
  enforce decision now s =
      let (raised, d) = adapter.apply decision s.plane in
      let after = record s { plane = d } in
      elim raised [
        | none ↦ (ok tt, after)
        | some detail ↦ enforcement_failed decision now detail after
      ]

  -- the receipt of what was observed, and the violation if there is a complaint
  unfoldable pub observe_effect :
      EligibilityDecision → Time → PlaneState → Exec (Site K D) EligibilityDecision
  observe_effect decision now actual =
      let found = complaint decision.classes actual in
      do
        on_chain (
            record_receipt sink decision now kind_effect
              (if is_empty found then outcome_enforced else outcome_postcondition_failed)
              (state_hash actual) found)
        if is_empty found then pure decision else lift (err postcondition_violation)

  -- `run_once` from the decision on
  unfoldable pub carry_out : EligibilityDecision → Time → Exec (Site K D) EligibilityDecision
  unfolding enforce enforcement_failed observe_effect
  carry_out decision now = do
    on_chain (record_receipt sink decision now kind_decision [] [] [])
    on_chain (record_receipt sink decision now kind_execution [] [] [])
    enforce decision now
    actual ← λ s. (adapter.readback s.plane, s)
    observe_effect decision now actual

  -- `AgentCycle.run_once`
  unfoldable pub run_once :
      {S : Type 0}
      → Text
      → Store S
      → Result (List Observation)
      → Time
      → Exec (Site K D) EligibilityDecision
  unfolding carry_out
  run_once site_id store observed now =
      let (bundle, degraded) = current store now in
      do
        observations ← lift observed
        carry_out (decide bundle (record { observations = observations }) now site_id degraded) now
