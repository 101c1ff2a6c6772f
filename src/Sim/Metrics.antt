-- ===== src/Sim/Metrics.antt =====
-- sim/metrics.py: the violation oracle, which reads the true state of the links and the stated
-- requirements, and the measures of a run.
use pilotfish.Base.{
  ℕ, ◌+◌, ◌-◌, ◌*◌, Bool, not, ◌&&◌, ◌||◌, Option, none, some, List, [], ◌∷◌, ◌++◌, if◌then◌else◌,
  ◌==◌,
}
use Prim.Native.Nat.{min}
use pilotfish.Base.Dict.{Dict, get, lookup}
use pilotfish.Base.Int.{ℤ, pos, ◌-ℤ◌}
use pilotfish.Base.Lists.{filter, is_empty, length}
use pilotfish.Base.Result.{Result, ok, err, index_error, ◌>>=◌}
use pilotfish.Base.Text.{Text, text, contains}
use pilotfish.Core.Models.{Link, TrafficClass}
use pilotfish.Float.{Float, float_lt, float_ge}
use pilotfish.Float.Arith.{float_mul, float_div, int_div}
use pilotfish.Sim.Links.{LinkModel, num, quota_used_pct}
use pilotfish.Sim.Scenario.{floor_div}

-- what a selector chooses for each class
abbrev pub Choices : Type 0
Choices = Dict (Option Text)

pub record Violation : Type 0 where
  pub at_s : ℕ
  pub class_id : Text
  pub link_id : Text
  pub requirement : Text

abbrev pub requirement_metered : Text
requirement_metered = text "metered path used by a class that forbids it"

abbrev pub requirement_jurisdiction : Text
requirement_jurisdiction = text "traffic left the permitted jurisdiction"

abbrev pub requirement_encryption : Text
requirement_encryption = text "unencrypted path used by a class that requires encryption"

abbrev pub requirement_latency : Text
requirement_latency = text "latency requirement missed"

abbrev pub requirement_allowance : Text
requirement_allowance = text "carried over a spent allowance"

-- one `if` of the oracle: the requirement, if it is broken
abbrev pub broken : Bool → Text → List Text
broken b requirement = if b then requirement ∷ [] else []

-- `outside or not link.jurisdictions`
unfoldable pub leaves : Option (List Text) → List Text → Bool
leaves none crossed = Bool.false
leaves (some allowed) crossed =
    not (is_empty (filter (λ j. not (contains j allowed)) crossed)) || is_empty crossed

-- `actual is not None and actual > tclass.max_rtt_ms`
unfoldable pub too_slow : Option Float → Option Float → Bool
too_slow none actual = Bool.false
too_slow (some bound) none = Bool.false
too_slow (some bound) (some actual) = float_lt bound actual

-- `model.quota_used_pct() >= 100.0`, where the model is of a class with a quota
unfoldable pub spent : Option (Result Float) → Result Bool
spent none = ok Bool.false
spent (some (err e)) = err e
spent (some (ok pct)) = ok (float_ge pct (num 100))

-- the quota of a model that the fleet may not have
unfoldable pub quota_of : Option LinkModel → Option (Result Float)
quota_of none = none
quota_of (some m) = quota_used_pct m

-- the requirements that a choice breaks whatever the state of the links
unfoldable pub static_broken : TrafficClass → Link → List Text
unfolding leaves
static_broken tclass link =
    broken (not tclass.allow_metered && link.metered) requirement_metered
    ++ (broken (leaves tclass.allowed_jurisdictions link.jurisdictions) requirement_jurisdiction
        ++ broken (tclass.requires_encryption && not link.encrypted_below) requirement_encryption)

-- the body of the loop of `check_violations`, on a choice of a link: the broken requirements
unfoldable pub requirements_broken :
    TrafficClass → Link → Option LinkModel → Option Float → Result (List Text)
unfolding static_broken too_slow spent quota_of
requirements_broken tclass link model true_rtt = do
  over ← spent (quota_of model)
  ok (
      static_broken tclass link
      ++ (broken (too_slow tclass.max_rtt_ms true_rtt) requirement_latency
          ++ broken over requirement_allowance))

abbrev pub violations_of : ℕ → Text → Text → List Text → List Violation
violations_of at_s class_id link_id [] = []
violations_of at_s class_id link_id (r ∷ rs) =
    record { at_s = at_s; class_id = class_id; link_id = link_id; requirement = r }
    ∷ violations_of at_s class_id link_id rs

module _ (at_s : ℕ) (links : Dict Link) (classes : Dict TrafficClass) (fleet : Dict LinkModel)
    (true_rtt : Dict Float) where
  unfoldable pub check_choice : Text → Option Text → Result (List Violation)
  unfolding requirements_broken lookup get
  check_choice class_id none = ok []
  check_choice class_id (some link_id) = do
    link ← lookup link_id links
    tclass ← lookup class_id classes
    rs ← requirements_broken tclass link (get link_id fleet) (get link_id true_rtt)
    ok (violations_of at_s class_id link_id rs)

  unfoldable pub check_violations : Choices → Result (List Violation)
  unfolding check_choice
  check_violations [] = ok []
  check_violations ((class_id, choice) ∷ rest) = do
    here ← check_choice class_id choice
    later ← check_violations rest
    ok (here ++ later)

-- one entry of `frames`
pub record Frame : Type 0 where
  pub at_s : ℕ
  pub choices : Choices
  pub up : Dict Bool
  pub authority_reachable : Bool

pub record RunResult : Type 0 where
  pub scenario : Text
  pub selector : Text
  pub seed : ℤ
  pub steps : ℕ
  pub step_s : ℕ
  pub violations : List Violation
  pub downtime_s : ℕ
  pub refused_s : ℕ
  pub degraded_s : ℕ
  pub flaps : ℕ
  pub cost : Float
  pub frames : List Frame

-- `violation_count`
unfoldable pub violation_count : RunResult → ℕ
violation_count r = length r.violations

-- `unserved_s`
unfoldable pub unserved_s : RunResult → ℕ
unserved_s r = r.downtime_s + r.refused_s

-- `100.0 * (total - downtime) / total`, with the conversions of the two `int`s
abbrev pub percentage : ℕ → ℕ → Result Float
percentage total downtime = do
  served ← int_div (pos total -ℤ pos downtime) 1
  whole ← int_div (pos total) 1
  float_div (float_mul (num 100) served) whole

-- `uptime_pct`
unfoldable pub uptime_pct : RunResult → Result Float
uptime_pct r =
    let total = r.steps * r.step_s in
    if total == 0 then ok (num 100) else percentage total r.downtime_s

-- `frames[i]`, where `i` is not negative
abbrev pub frame_at : List Frame → ℕ → Result Frame
frame_at [] i = err index_error
frame_at (f ∷ fs) ℕ.zero = ok f
frame_at (f ∷ fs) (ℕ.suc i) = frame_at fs i

-- `timeline_at`: with no frames at all the index is -1, which is out of range too
unfoldable pub timeline_at : RunResult → ℕ → Result Frame
unfolding floor_div
timeline_at r second = do
  index ← floor_div second r.step_s
  frame_at r.frames (min index (length r.frames - 1))
