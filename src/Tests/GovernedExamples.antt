-- ===== src/Tests/GovernedExamples.antt =====
-- The examples of the governed path.
use pilotfish.Base.{◌≡◌, refl, true, false, none, List, [], ◌∷◌}
use pilotfish.Base.Dict.{keys}
use pilotfish.Base.Int.{ℤ, pos}
use pilotfish.Base.Lists.{All}
use pilotfish.Base.Result.{ok}
use pilotfish.Base.Sort.{sort_by, insert_by}
use pilotfish.Base.Text.{Bytes, text, text_le, text_eq}
use mathlib.Core.List.{Memᴰ}
use pilotfish.Adapters.MemorySink.{memory_sink, append}
use pilotfish.Adapters.Noop.{noop}
use pilotfish.Adapters.Noop.Enforces.{AreDistinct, noop-enforces}
use pilotfish.Agent.BundleStore.{Store, current}
use pilotfish.Agent.Cycle.{run_once}
use pilotfish.Agent.Cycle.Run.{decided}
use pilotfish.Agent.Receipts.{new_chain}
use pilotfish.Core.Decide.{EligibilityDecision, decide, decide_class}
use pilotfish.Core.Models.{TrafficClass}
use pilotfish.Sim.Metrics.{Choices}
use pilotfish.Sim.Run.{t0}
use pilotfish.Sim.Scenarios.{sim_bundle, bulk, health}
use pilotfish.Sim.Scenarios.Guarded.{sim_bundle-IsGuarded}
use pilotfish.Sim.Selectors.{SelectorContext}
use pilotfish.Sim.Selectors.Governed.{
  Governed, governed_call, choose, site_key, authority_key, authority_1,
}
use pilotfish.Sim.Selectors.Governed.Guards.{IsGuarded}
use pilotfish.Sim.Selectors.Governed.Choice.{KeepsClass}
use pilotfish.Sim.Selectors.Governed.Called.{governed_call-KeepsClass}
use pilotfish.Tests.Toy.{toy}
use pilotfish.Tests.Data.{observed}
use pilotfish.Float.{one_point}

abbrev governed_store : Store ℤ
governed_store = record {
  trusted_key = authority_key;
  expected_issuer = authority_1;
  site_id = text "sim-site";
  floor = sim_bundle (pos 1800) (pos 120);
  bundle = none;
  epochs = pos 0;
  sequence = pos 0;
  seen_nonces = [];
}

abbrev before : Governed
before = record {
  store = governed_store;
  site = record {
    chain = new_chain (text "sim-site") [] site_key;
    plane = record { state = []; applied = [] };
  };
  epoch = 0;
  last_degraded = true;
}

-- the authority is out of reach, and the fiber is up
abbrev ctx : SelectorContext
ctx = record {
  now = t0;
  evidence = record { observations = observed (text "fiber0") (text "up") one_point t0 ∷ [] };
  links = [];
  classes = (text "bulk", bulk) ∷ (text "health", health) ∷ [];
  authority_reachable = false;
}

abbrev decision_now : EligibilityDecision
decision_now =
    decided memory_sink noop (text "sim-site") governed_store t0 ctx.evidence.observations

three_classes : AreDistinct decision_now.classes
unfolding decided current decide sort_by insert_by sim_bundle decide_class text_le text_eq
three_classes = ((refl, (refl, tt)), ((refl, tt), (tt, tt)))

takes : (b : Bytes) (k : List Bytes) → (memory_sink.append b k).0 ≡ ok tt
unfolding append
takes b k = refl

abbrev turned : Governed
turned = record before {
  site =
      (run_once memory_sink noop (text "sim-site") governed_store (ok ctx.evidence.observations) t0
        before.site).1;
  last_degraded = decision_now.degraded;
}

abbrev chosen : Choices
chosen = choose ctx.evidence decision_now (keys ctx.classes)

turn_ran :
    (run_once memory_sink noop
      (text "sim-site")
      governed_store
      (ok ctx.evidence.observations)
      t0
      before.site).0
    ≡ ok decision_now
unfolding run_once decided
turn_ran = noop-enforces memory_sink decision_now t0 before.site takes three_classes

called :
    governed_call (sim_bundle (pos 1800) (pos 120)) (text "sim-site") ctx before
    ≡ ok (chosen, turned)
unfolding governed_call
called = rw turn_ran refl

guarded :
    (c : TrafficClass)
    → Memᴰ c (current turned.store ctx.now).0.traffic_classes
    → IsGuarded (current turned.store ctx.now).0.rules c
unfolding current
guarded c m = sim_bundle-IsGuarded (pos 1800) (pos 120) c m

governed_call-KeepsClass_example :
    All
      (KeepsClass
        (current turned.store ctx.now).0
        ctx.evidence
        (decided memory_sink noop (text "sim-site") turned.store ctx.now ctx.evidence.observations))
      chosen
governed_call-KeepsClass_example =
    governed_call-KeepsClass (sim_bundle (pos 1800) (pos 120)) (text "sim-site") ctx before turned
      chosen called guarded
