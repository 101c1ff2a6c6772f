-- ===== src/Sim/Selectors/Governed.antt =====
-- sim/selectors.py: the governed path, which runs the agent itself over a memory sink, the no-op
-- dataplane and a memory epoch store, and chooses by latency within what is permitted. The bundle
-- and the site are those of its constructor.
pub mod Guards
pub mod Choice
pub mod Called
use pilotfish.Base.{
  ℕ, zero, suc, ◌+◌, ◌/◌, ◌%◌, ◌^◌, Bool, true, not, none, some, List, [], ◌∷◌, ◌++◌, if◌then◌else◌,
  leb, map,
}
use pilotfish.Base.Dict.{Dict, keys}
use pilotfish.Base.Int.{ℤ, pos, ◌+ℤ◌, ◌-ℤ◌}
use pilotfish.Base.Lists.{is_empty}
use pilotfish.Base.Result.{Result, ok, err, overflow_error, ◌>>=◌}
use pilotfish.Base.Text.{Text, Bytes, text}
use pilotfish.Core.Models.{EvidenceSnapshot, Time}
use pilotfish.Core.Bundle.{PolicyBundle}
use pilotfish.Core.Decide.{ClassEligibility, EligibilityDecision, permitted_for}
use pilotfish.Platform.{Platform}
use pilotfish.Authority.{BundleSigner, publish, sign_floor, default_nonce}
use pilotfish.Agent.Epoch.{no_epoch}
use pilotfish.Agent.Epoch.Memory.{memory_store}
use pilotfish.Agent.BundleStore.{Store, new_store, accept}
use pilotfish.Agent.Receipts.{Chain, new_chain}
use pilotfish.Agent.Cycle.{Site, run_once}
use pilotfish.Adapters.MemorySink.{memory_sink}
use pilotfish.Adapters.Noop.{NoopDataplane, noop}
use pilotfish.Sim.Metrics.{Choices}
use pilotfish.Sim.Selectors.{SelectorContext, Selector, best_by_rtt}

-- `bytes(range(a, a + n))`
abbrev pub count_up : ℕ → ℕ → Bytes
count_up zero a = []
count_up (suc n) a = a ∷ count_up n (a + 1)

-- SITE_KEY and AUTHORITY_KEY
abbrev pub site_key : Bytes
site_key = count_up 32 128

abbrev pub authority_key : Bytes
authority_key = count_up 32 160

-- the last `k` octets of a number, the greatest first
unfoldable pub octets_of : ℕ → ℕ → Bytes
octets_of zero n = []
octets_of (suc k) n = octets_of k (n / 256) ++ n % 256 ∷ []

-- `n.to_bytes(16, "big")`
unfoldable pub to_bytes : ℕ → Result Bytes
unfolding octets_of
to_bytes n = if leb (256 ^ 16) n then err overflow_error else ok (octets_of 16 n)

abbrev pub authority_1 : Text
authority_1 = text "authority-1"

pub record Governed : Type 0 where
  pub store : Store ℤ
  pub site : Site (List Bytes) NoopDataplane
  pub epoch : ℕ
  pub last_degraded : Bool

-- the bundle that is published at a time: `validity_s` is the bundle's own span, which a float of
-- seconds holds to the microsecond over 270 years
unfoldable pub fresh_bundle : PolicyBundle → ℕ → Time → PolicyBundle
fresh_bundle bundle epoch now = record bundle {
  sequence = pos epoch;
  issued_at = now;
  not_after = now +ℤ (bundle.not_after -ℤ bundle.issued_at);
}

-- the links among which a class's traffic is put: `permitted` in `Governed.__call__`
unfoldable pub offered : List ClassEligibility → List Text → List Text
offered [] permitted = permitted
offered (c ∷ cs) permitted = if is_empty permitted then c.permitted else permitted

-- the loop of `Governed.__call__`
unfoldable pub choose : EvidenceSnapshot → EligibilityDecision → List Text → Choices
unfolding offered best_by_rtt permitted_for
choose evidence decision [] = []
choose evidence decision (class_id ∷ rest) =
    (class_id, best_by_rtt evidence (offered decision.classes (permitted_for decision class_id)))
    ∷ choose evidence decision rest

module _ ⦃p : Platform⦄ where
  abbrev pub authority : BundleSigner
  authority = record { private_key = authority_key; issuer = authority_1 }

  -- `_publish`, for the epoch that it counts up to
  unfoldable pub publish_fresh : PolicyBundle → ℕ → Time → Result Bytes
  unfolding to_bytes fresh_bundle
  publish_fresh bundle epoch now = do
    nonce ← to_bytes epoch
    publish authority (fresh_bundle bundle epoch now) now nonce

  module _ (bundle : PolicyBundle) (site_id : Text) where
    -- `reset`
    unfoldable pub reset : Governed → Result Governed
    reset g = do
      floor ←
          sign_floor authority site_id bundle.links bundle.traffic_classes bundle.issued_at
            default_nonce
      store ←
          new_store memory_store (p.public_key authority_key) authority_1 site_id floor no_epoch
            none
      ok (record {
        store = store;
        site = record {
          chain = new_chain site_id [] site_key;
          plane = record { state = []; applied = [] };
        };
        epoch = 0;
        last_degraded = true;
      })

    -- `self._store.accept(self._publish(ctx.now), now=ctx.now)`
    unfoldable pub refresh : Time → Governed → Result Governed
    unfolding publish_fresh
    refresh now g = do
      let epoch = g.epoch + 1
      envelope ← publish_fresh bundle epoch now
      let (accepted, store) = accept memory_store envelope now g.store
      installed ← accepted
      ok (record g { store = store; epoch = epoch })

    unfoldable pub refresh_if : Bool → Time → Governed → Result Governed
    unfolding refresh
    refresh_if reachable now g = if reachable then refresh now g else ok g

    -- `Governed.__call__`
    unfoldable pub governed_call : SelectorContext → Governed → Result (Choices × Governed)
    unfolding refresh_if choose
    governed_call ctx g = do
      fresh ← refresh_if ctx.authority_reachable ctx.now g
      let (decided, site) =
          run_once memory_sink noop site_id fresh.store (ok ctx.evidence.observations) ctx.now
            fresh.site
      decision ← decided
      ok (
        choose ctx.evidence decision (keys ctx.classes),
        record fresh { site = site; last_degraded = decision.degraded },
      )

    abbrev pub governed : Selector Governed
    governed = record {
      name = text "governed";
      reset = reset;
      call = governed_call;
      last_degraded = λ g. g.last_degraded;
    }
