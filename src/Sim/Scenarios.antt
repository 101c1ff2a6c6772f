-- ===== src/Sim/Scenarios.antt =====
-- sim/scenarios.py: the site, its policy, its traffic and the five scenarios of the comparison.
pub mod Guarded
use pilotfish.Base.{
  ℕ, zero, suc, ◌+◌, ◌*◌, ◌/◌, ◌%◌, ◌^◌, Bool, true, false, Option, none, some, List, [], ◌∷◌, map,
  if◌then◌else◌, ◌==◌,
}
use pilotfish.Base.Dict.{Dict}
use pilotfish.Base.Int.{ℤ, pos, ◌+ℤ◌, scale}
use pilotfish.Base.Text.{Text, text}
use pilotfish.Core.Models.{Link, TrafficClass, second}
use pilotfish.Core.Rules.{Rule, down, max_rtt, metered, quota, freshness, jurisdiction, encryption}
use pilotfish.Core.Bundle.{PolicyBundle}
use pilotfish.Float.{Float, zero_point}
use pilotfish.Sim.Links.{LinkModel, Kind, fiber, lte, satellite, fso, num}
use pilotfish.Sim.Run.{t0}
use pilotfish.Sim.Scenario.{
  Event, EventKind, Scenario, link_down, link_up, fog, clear, authority_unreachable,
  authority_reachable,
}

-- MB
abbrev pub mb : ℕ
mb = 10 ^ 6

-- LINKS
abbrev pub sim_links : List Link
sim_links =
    record {
      id = text "fiber0";
      type = text "fiber";
      metered = false;
      encrypted_below = true;
      jurisdictions = text "NO" ∷ [];
      owner = text "local-isp";
    }
    ∷ record {
      id = text "lte0";
      type = text "lte";
      metered = true;
      encrypted_below = false;
      jurisdictions = text "NO" ∷ [];
      owner = text "mno-a";
    }
    ∷ record {
      id = text "sat0";
      type = text "satellite";
      metered = true;
      encrypted_below = false;
      jurisdictions = text "NO" ∷ text "US" ∷ [];
      owner = text "leo";
    }
    ∷ record {
      id = text "fso0";
      type = text "fso";
      metered = false;
      encrypted_below = true;
      jurisdictions = text "NO" ∷ [];
      owner = text "self";
    }
    ∷ []

-- the three members of CLASSES
abbrev pub bulk : TrafficClass
bulk = record {
  id = text "bulk";
  max_rtt_ms = none;
  allow_metered = false;
  allowed_jurisdictions = none;
  requires_encryption = false;
}

abbrev pub realtime : TrafficClass
realtime = record {
  id = text "realtime";
  max_rtt_ms = some (num 120);
  allow_metered = true;
  allowed_jurisdictions = none;
  requires_encryption = false;
}

abbrev pub health : TrafficClass
health = record {
  id = text "health";
  max_rtt_ms = some (num 250);
  allow_metered = true;
  allowed_jurisdictions = some (text "NO" ∷ []);
  requires_encryption = true;
}

-- CLASSES
abbrev pub sim_classes : List TrafficClass
sim_classes = bulk ∷ realtime ∷ health ∷ []

-- RULES
abbrev pub sim_rules : List Rule
sim_rules =
    down (text "R-DOWN")
    ∷ max_rtt (text "R-RTT-REALTIME") (text "realtime")
    ∷ max_rtt (text "R-RTT-HEALTH") (text "health")
    ∷ metered (text "R-METER-BULK") (text "bulk")
    ∷ quota (text "R-QUOTA-LTE") (text "lte") (num 90)
    ∷ quota (text "R-QUOTA-SAT") (text "satellite") (num 95)
    ∷ freshness (text "R-FSO-WEATHER") (text "fso") (text "visibility_m") (num 600)
    ∷ jurisdiction (text "R-JUR-HEALTH") (text "health")
    ∷ encryption (text "R-ENC-HEALTH") (text "health")
    ∷ []

-- `bundle`
unfoldable pub sim_bundle : ℤ → ℤ → PolicyBundle
sim_bundle validity_s decision_ttl_s = record {
  bundle_id = text "sim-policy";
  authority_id = text "authority-1";
  sequence = pos 1;
  issued_at = t0;
  not_after = t0 +ℤ scale second validity_s;
  decision_ttl_s = decision_ttl_s;
  links = sim_links;
  traffic_classes = sim_classes;
  rules = sim_rules;
}

-- a model as its constructor leaves it, with the defaults of LinkModel
abbrev pub fresh_model : Text → Kind → LinkModel
fresh_model id kind = record {
  link_id = id;
  up = true;
  sensor_failed = false;
  bytes_carried = 0;
  kind = kind;
}

-- `fleet`, with the defaults of the four classes
unfoldable pub sim_fleet : Float → Dict LinkModel
sim_fleet quota_gb =
    (text "fiber0", fresh_model (text "fiber0") (fiber (num 8)))
    ∷ (text "lte0", fresh_model (text "lte0") (lte quota_gb (num 45) zero_point (num 8)))
    ∷ (text "sat0", fresh_model (text "sat0") (satellite (num 90) false (num 50) (num 3)))
    ∷ (text "fso0", fresh_model (text "fso0") (fso (num 8000) (num 3) (num 500)))
    ∷ []

-- TRAFFIC
abbrev pub traffic : Dict ℕ
traffic = (text "bulk", 2 * mb) ∷ (text "realtime", 200000) ∷ (text "health", 100000) ∷ []

abbrev pub event : ℕ → EventKind → Text → Event
event at_s kind target = record { at_s = at_s; kind = kind; target = target }

-- what the five scenarios have in common
abbrev pub sim_scenario : Text → PolicyBundle → Float → List Event → Scenario
sim_scenario name policy quota_gb events = record {
  name = name;
  site_id = text "sim-site";
  bundle = policy;
  fleet = sim_fleet quota_gb;
  traffic_bytes_per_s = traffic;
  events = events;
  duration_s = 3600;
  step_s = 30;
}

-- `bundle()`
abbrev pub default_bundle : PolicyBundle
default_bundle = sim_bundle (pos 1800) (pos 120)

-- PLAIN_FAILOVER
abbrev pub plain_failover : Scenario
plain_failover =
    sim_scenario (text "plain-failover") default_bundle (num 1000)
      (event 600 link_down (text "fiber0") ∷ event 1800 link_up (text "fiber0") ∷ [])

-- QUOTA_SQUEEZE
abbrev pub quota_squeeze : Scenario
quota_squeeze = sim_scenario (text "quota-squeeze") default_bundle (num 2) (
    event 300 link_down (text "fiber0")
    ∷ event 900 fog (text "fso0")
    ∷ event 3000 link_up (text "fiber0")
    ∷ [])

-- REGULATED
abbrev pub regulated : Scenario
regulated = sim_scenario (text "regulated-health-traffic") default_bundle (num 1000) (
    event 600 link_down (text "fiber0")
    ∷ event 600 fog (text "fso0")
    ∷ event 2400 clear (text "fso0")
    ∷ event 3000 link_up (text "fiber0")
    ∷ [])

-- the comprehension in FLAPPY, over the `n` times from `at` on, 120 apart
unfoldable pub flaps_from : ℕ → ℕ → List Event
flaps_from zero at = []
flaps_from (suc n) at =
    event at (if (at / 120) % 2 == 0 then fog else clear) (text "fso0") ∷ flaps_from n (at + 120)

-- FLAPPY: `range(120, 3600, 120)` has 29 members
abbrev pub flappy : Scenario
flappy = sim_scenario (text "flapping-fso") default_bundle (num 1000) (flaps_from 29 120)

-- AUTHORITY_BLACKOUT
abbrev pub authority_blackout : Scenario
authority_blackout =
    sim_scenario (text "authority-blackout") (sim_bundle (pos 900) (pos 120)) (num 1000) (
      event 600 authority_unreachable []
      ∷ event 1200 link_down (text "fiber0")
      ∷ event 2400 link_up (text "fiber0")
      ∷ event 3000 authority_reachable []
      ∷ [])

-- ALL_SCENARIOS
abbrev pub all_scenarios : List Scenario
all_scenarios = plain_failover ∷ quota_squeeze ∷ regulated ∷ flappy ∷ authority_blackout ∷ []
