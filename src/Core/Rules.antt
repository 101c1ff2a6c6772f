-- ===== src/Core/Rules.antt =====
-- core/rules.py: one constructor for each rule class, and `evaluate` on each of them. A rule
-- answers with the reason why the link is excluded, or with nothing.
pub mod Evidence
pub mod Ageing
use pilotfish.Base.{Bool, not, ◌&&◌, ◌||◌, Option, none, some, List, ◌++◌, if◌then◌else◌}
use pilotfish.Base.Int.{leb_ℤ}
use pilotfish.Base.Lists.{filter, is_empty}
use pilotfish.Base.Result.{Result, ok, ◌>>◌}
use pilotfish.Base.Sort.{sorted}
use pilotfish.Base.Text.{Text, text, text_eq, contains, text_ord, join}
use pilotfish.Core.Models.{
  Link, LinkType, Observation, TrafficClass, EvidenceSnapshot, Time, latest, snapshot_age_s,
  require_finite,
}
use pilotfish.Float.{Float, one_point, float_lt, float_ge}
use pilotfish.Platform.{Platform}

pub record Exclusion : Type 0 where
  pub link_id : Text
  pub rule_id : Text
  pub reason : Text

pub data Rule : Type 0 where
  down : (rule_id : Text) → Rule
  max_rtt : (rule_id class_id : Text) → Rule
  metered : (rule_id class_id : Text) → Rule
  quota : (rule_id : Text) (link_type : LinkType) (threshold_pct : Float) → Rule
  freshness : (rule_id : Text) (link_type : LinkType) (quantity : Text) (max_age_s : Float) → Rule
  jurisdiction : (rule_id class_id : Text) → Rule
  encryption : (rule_id class_id : Text) → Rule
  link_type : (rule_id : Text) (link_type : LinkType) (reason_text : Text) → Rule
  directive : (rule_id link_id reason_text : Text) (not_after : Time) → Rule

-- `QuotaRule(...)` and `EvidenceFreshnessRule(...)`, with their `__post_init__`
unfoldable pub new_quota : Text → LinkType → Float → Result Rule
unfolding require_finite
new_quota id t threshold = do require_finite (some threshold); ok (quota id t threshold)

unfoldable pub new_freshness : Text → LinkType → Text → Float → Result Rule
unfolding require_finite
new_freshness id t q max_age = do require_finite (some max_age); ok (freshness id t q max_age)

-- `rule.rule_id`
unfoldable pub rule_id : Rule → Text
rule_id (down r) = r
rule_id (max_rtt r _) = r
rule_id (metered r _) = r
rule_id (quota r _ _) = r
rule_id (freshness r _ _ _) = r
rule_id (jurisdiction r _) = r
rule_id (encryption r _) = r
rule_id (link_type r _ _) = r
rule_id (directive r _ _ _) = r

-- `LinkDownRule.evaluate` on the observation that it looks up
unfoldable pub down_reason : Option Observation → Option Text
down_reason none = some (text "no liveness observation")
down_reason (some o) = if float_lt o.value one_point then some (text "observed down") else none

-- `JurisdictionRule.evaluate` on the jurisdictions of the link and of the class
unfoldable pub jurisdiction_reason : List Text → List Text → Option Text
jurisdiction_reason crossed allowed =
    let disallowed = filter (λ j. not (contains j allowed)) crossed in
    if is_empty crossed
    then some (text "link jurisdiction is undeclared")
    else if is_empty disallowed
    then none
    else some (text "crosses disallowed jurisdiction " ++ join (text ", ") (sorted disallowed))

-- `EncryptionRule.evaluate`
unfoldable pub encryption_reason : Bool → Bool → Option Text
encryption_reason required provided =
    if not required || provided
    then none
    else some (text "class requires encryption below and the link does not provide it")

-- `MeteredRule.evaluate`
unfoldable pub metered_reason : Bool → Bool → Option Text
metered_reason allowed is_metered =
    if allowed || not is_metered
    then none
    else some (text "link is metered and the class does not permit metered paths")

module _ ⦃p : Platform⦄ where
  -- `MaxRttRule.evaluate` on the bound and the observation
  unfoldable pub rtt_reason : Float → Option Observation → Option Text
  rtt_reason bound none =
      some (text "no latency measurement, class requires <= " ++ (p.show_float bound ++ text " ms"))
  rtt_reason bound (some o) =
      if float_lt bound o.value
      then some (
          text "rtt "
          ++ (p.show_float o.value ++ (text " ms exceeds " ++ (p.show_float bound ++ text " ms"))))
      else none

  -- `QuotaRule.evaluate` on the threshold and the observation
  unfoldable pub quota_reason : Float → Option Observation → Option Text
  quota_reason threshold none = some (text "quota consumption unknown")
  quota_reason threshold (some o) =
      if float_ge o.value threshold
      then some (text "quota at " ++ (p.show_float o.value ++ text "% of allowance"))
      else none

  -- `EvidenceFreshnessRule.evaluate` on the quantity, the limit and the age
  unfoldable pub freshness_reason : Text → Float → Option Float → Option Text
  freshness_reason q limit none = some (text "no " ++ (q ++ text " observation at all"))
  freshness_reason q limit (some age) =
      if float_lt limit age
      then some (
          q
          ++ (text " evidence is stale: "
              ++ (p.show_rounded age
                  ++ (text "s old, limit " ++ (p.show_rounded limit ++ text "s")))))
      else none

  -- `rule.evaluate(link, tclass, evidence, now)`
  unfoldable pub evaluate : Rule → Link → TrafficClass → EvidenceSnapshot → Time → Option Text
  unfolding down_reason jurisdiction_reason encryption_reason metered_reason rtt_reason quota_reason
      freshness_reason
  evaluate (down _) link tclass evidence now = down_reason (latest evidence link.id (text "up"))
  evaluate (max_rtt _ class_id) link tclass evidence now =
      if text_eq tclass.id class_id
      then elim tclass.max_rtt_ms [
        | none ↦ none
        | some bound ↦ rtt_reason bound (latest evidence link.id (text "rtt_ms"))
      ]
      else none
  evaluate (metered _ class_id) link tclass evidence now =
      if text_eq tclass.id class_id then metered_reason tclass.allow_metered link.metered else none
  evaluate (quota _ t threshold) link tclass evidence now =
      if text_eq link.type t
      then quota_reason threshold (latest evidence link.id (text "quota_used_pct"))
      else none
  evaluate (freshness _ t q limit) link tclass evidence now =
      if text_eq link.type t
      then freshness_reason q limit (snapshot_age_s evidence link.id q now)
      else none
  evaluate (jurisdiction _ class_id) link tclass evidence now =
      if text_eq tclass.id class_id
      then elim tclass.allowed_jurisdictions [
        | none ↦ none
        | some allowed ↦ jurisdiction_reason link.jurisdictions allowed
      ]
      else none
  evaluate (encryption _ class_id) link tclass evidence now =
      if text_eq tclass.id class_id
      then encryption_reason tclass.requires_encryption link.encrypted_below
      else none
  evaluate (link_type _ t reason_text) link tclass evidence now =
      if text_eq link.type t then some reason_text else none
  evaluate (directive _ link_id reason_text not_after) link tclass evidence now =
      if text_eq link.id link_id && not (leb_ℤ not_after now)
      then some (text "authority directive: " ++ reason_text)
      else none
