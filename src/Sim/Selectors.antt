-- ===== src/Sim/Selectors.antt =====
-- sim/selectors.py: the baselines, and the interface that a run uses. The governed path is in
-- Governed.
pub mod Observed
pub mod Best
pub mod Governed
pub mod Watchful
use pilotfish.Base.{
  Bool, true, false, not, ◌&&◌, Option, none, some, List, [], ◌∷◌, map, if◌then◌else◌,
}
use pilotfish.Base.Dict.{Dict, keys}
use pilotfish.Base.Int.{◌-ℤ◌}
use pilotfish.Base.Lists.{filter}
use pilotfish.Base.Orders.{pair_ord, pair_le}
use pilotfish.Base.Result.{Result, ok}
use pilotfish.Base.Sort.{sorted}
use pilotfish.Base.Text.{Text, text, text_eq, text_ord}
use pilotfish.Core.Models.{Link, TrafficClass, EvidenceSnapshot, Observation, Time, latest}
use pilotfish.Float.{Float, inf, one_point, float_ge, float_ord}
use pilotfish.Platform.{Platform}
use pilotfish.Sim.Metrics.{Choices}

pub record SelectorContext : Type 0 where
  pub now : Time
  pub evidence : EvidenceSnapshot
  pub links : Dict Link
  pub classes : Dict TrafficClass
  pub authority_reachable : Bool

-- What `run` uses of a selector that holds `S`: `reset` and the call may raise.
pub record Selector (S : Type 0) : Type 0 where
  pub name : Text
  pub reset : S → Result S
  pub call : SelectorContext → S → Result (Choices × S)
  pub last_degraded : S → Bool

-- whether an observation tells that a link is up
abbrev pub tells_up : Option Observation → Bool
tells_up none = false
tells_up (some o) = float_ge o.value one_point

-- `_observed_up`
unfoldable pub observed_up : EvidenceSnapshot → Text → Bool
observed_up evidence link_id = tells_up (latest evidence link_id (text "up"))

abbrev pub rtt_or_inf : Option Observation → Float
rtt_or_inf none = inf
rtt_or_inf (some o) = o.value

-- `_observed_rtt`
unfoldable pub observed_rtt : EvidenceSnapshot → Text → Float
observed_rtt evidence link_id = rtt_or_inf (latest evidence link_id (text "rtt_ms"))

-- the key of `min`, by which a link comes before another
unfoldable pub comes_before : EvidenceSnapshot → Text → Text → Bool
unfolding observed_rtt pair_le
comes_before evidence l m = pair_le (observed_rtt evidence l, l) (observed_rtt evidence m, m)

-- `min` from a first candidate: the earliest minimum
unfoldable pub least : EvidenceSnapshot → Text → List Text → Text
unfolding comes_before
least evidence best [] = best
least evidence best (l ∷ ls) = least evidence (if comes_before evidence best l then best else l) ls

unfoldable pub least_of : EvidenceSnapshot → List Text → Option Text
unfolding least
least_of evidence [] = none
least_of evidence (l ∷ ls) = some (least evidence l ls)

-- `_best_by_rtt`
unfoldable pub best_by_rtt : EvidenceSnapshot → List Text → Option Text
unfolding observed_up least_of
best_by_rtt evidence candidates = least_of evidence (filter (observed_up evidence) candidates)

-- the same choice for every class
abbrev pub for_every : Option Text → Dict TrafficClass → Choices
for_every choice classes = map (λ kc. (kc.0, choice)) classes

-- Greedy: it has no state.
unfoldable pub greedy_call : SelectorContext → Unit {0} → Result (Choices × Unit {0})
unfolding best_by_rtt
greedy_call ctx s =
    ok (for_every (best_by_rtt ctx.evidence (sorted (keys ctx.links))) ctx.classes, s)

abbrev pub greedy : Selector (Unit {0})
greedy = record {
  name = text "greedy";
  reset = λ s. ok s;
  call = greedy_call;
  last_degraded = λ s. false;
}

-- `next((x for x in xs if p(x)), None)`
unfoldable pub first_up : EvidenceSnapshot → List Text → Option Text
unfolding observed_up
first_up evidence [] = none
first_up evidence (l ∷ ls) = if observed_up evidence l then some l else first_up evidence ls

-- StaticPriority, over its order
unfoldable pub static_call : List Text → SelectorContext → Unit {0} → Result (Choices × Unit {0})
unfolding first_up
static_call order ctx s = ok (for_every (first_up ctx.evidence order) ctx.classes, s)

abbrev pub static_priority : List Text → Selector (Unit {0})
static_priority order = record {
  name = text "static_priority";
  reset = λ s. ok s;
  call = static_call order;
  last_degraded = λ s. false;
}

-- what Hysteresis keeps
pub record Held : Type 0 where
  pub current : Option Text
  pub since : Option Time

-- `a == b`, on links that may be missing
abbrev pub choice_eq : Option Text → Option Text → Bool
choice_eq none none = true
choice_eq none (some b) = false
choice_eq (some a) none = false
choice_eq (some a) (some b) = text_eq a b

-- `self._current is not None and _observed_up(...)`
abbrev pub held_is_live : EvidenceSnapshot → Option Text → Bool
held_is_live evidence none = false
held_is_live evidence (some l) = observed_up evidence l

module _ ⦃p : Platform⦄ (dwell_s : Float) where
  -- `elapsed`
  abbrev pub elapsed : Time → Option Time → Float
  elapsed now none = inf
  elapsed now (some since) = p.total_seconds (now -ℤ since)

  -- the two tests of `Hysteresis.__call__`, on the best link
  unfoldable pub hold : SelectorContext → Option Text → Held → Held
  hold ctx best held =
      let moved : Held = record { current = best; since = some ctx.now } in
      if not (held_is_live ctx.evidence held.current)
      then moved
      else if choice_eq best held.current
      then held
      else if float_ge (elapsed ctx.now held.since) dwell_s
      then moved
      else held

  -- `Hysteresis.__call__`
  unfoldable pub hysteresis_call : SelectorContext → Held → Result (Choices × Held)
  unfolding hold best_by_rtt
  hysteresis_call ctx held =
      let after = hold ctx (best_by_rtt ctx.evidence (sorted (keys ctx.links))) held in
      ok (for_every after.current ctx.classes, after)

  abbrev pub hysteresis : Selector Held
  hysteresis = record {
    name = text "hysteresis";
    reset = λ s. ok (record { current = none; since = none });
    call = hysteresis_call;
    last_degraded = λ s. false;
  }
