-- ===== src/Core/Decide.antt =====
-- core/decide.py: the decision function. Every link starts as a candidate, and rules take links out.
pub mod Permitted
pub mod Contraction
pub mod Horizon
pub mod Floor
use pilotfish.Base.{Bool, true, false, Option, none, some, List, [], ◌∷◌, ◌++◌, map, if◌then◌else◌}
use pilotfish.Base.Int.{◌+ℤ◌, scale}
use pilotfish.Base.Lists.{is_empty}
use pilotfish.Base.Sort.{sort_by}
use pilotfish.Base.Text.{Text, text_eq, text_le}
use pilotfish.Core.Models.{Link, TrafficClass, EvidenceSnapshot, Time, second, as_of, evidence_hash}
use pilotfish.Core.Rules.{Rule, Exclusion, rule_id, evaluate}
use pilotfish.Core.Bundle.{PolicyBundle}
use pilotfish.Platform.{Platform}
use pilotfish.Protocol.Messages.Bundles.{bundle_hash}

pub record ClassEligibility : Type 0 where
  pub class_id : Text
  pub permitted : List Text
  pub exclusions : List Exclusion

pub record EligibilityDecision : Type 0 where
  pub site_id : Text
  pub decided_at : Time
  pub valid_until : Time
  pub bundle_hash : Text
  pub evidence_hash : Text
  pub degraded : Bool
  pub classes : List ClassEligibility

-- the search of `EligibilityDecision.permitted_for`
unfoldable pub permitted_in : List ClassEligibility → Text → List Text
permitted_in [] class_id = []
permitted_in (c ∷ cs) class_id =
    if text_eq c.class_id class_id then c.permitted else permitted_in cs class_id

-- `EligibilityDecision.permitted_for`
unfoldable pub permitted_for : EligibilityDecision → Text → List Text
unfolding permitted_in
permitted_for decision class_id = permitted_in decision.classes class_id

-- the keys by which `decide` sorts classes, links and exclusions
abbrev pub class_before : TrafficClass → TrafficClass → Bool
class_before c d = text_le c.id d.id

abbrev pub link_before : Link → Link → Bool
link_before l m = text_le l.id m.id

abbrev pub exclusion_before : Exclusion → Exclusion → Bool
exclusion_before e f =
    if text_le e.link_id f.link_id
    then (if text_le f.link_id e.link_id then text_le e.rule_id f.rule_id else true)
    else false

abbrev pub exclusion_of : Link → Rule → Text → Exclusion
exclusion_of link rule reason = record {
  link_id = link.id;
  rule_id = rule_id rule;
  reason = reason;
}

module _ ⦃p : Platform⦄ where
  -- one rule's contribution to `reasons`
  abbrev pub exclude : Link → Rule → Option Text → List Exclusion → List Exclusion
  exclude link rule none rest = rest
  exclude link rule (some reason) rest = exclusion_of link rule reason ∷ rest

  -- the comprehension `reasons`
  unfoldable pub reasons :
      List Rule → Link → TrafficClass → EvidenceSnapshot → Time → List Exclusion
  reasons [] link tclass evidence now = []
  reasons (rule ∷ rules) link tclass evidence now =
      exclude link rule (evaluate rule link tclass evidence now)
        (reasons rules link tclass evidence now)

  -- the inner loop, over the links: the permitted ids and the exclusions, in the order of the links
  unfoldable pub sift :
      List Rule → List Link → TrafficClass → EvidenceSnapshot → Time → List Text × List Exclusion
  sift rules [] tclass evidence now = ([], [])
  sift rules (link ∷ links) tclass evidence now =
      let found = reasons rules link tclass evidence now in
      let (permitted, exclusions) = sift rules links tclass evidence now in
      if is_empty found then (link.id ∷ permitted, exclusions) else (permitted, found ++ exclusions)

  -- the body of the outer loop
  unfoldable pub decide_class :
      PolicyBundle → EvidenceSnapshot → Time → TrafficClass → ClassEligibility
  unfolding reasons sift sort_by
  decide_class bundle evidence now tclass =
      let (permitted, exclusions) =
        sift bundle.rules (sort_by link_before bundle.links) tclass evidence now in
      record {
        class_id = tclass.id;
        permitted = permitted;
        exclusions = sort_by exclusion_before exclusions;
      }

  unfoldable pub decide : PolicyBundle → EvidenceSnapshot → Time → Text → Bool → EligibilityDecision
  unfolding decide_class
  decide bundle evidence now site_id degraded =
      let used = as_of evidence now in
      record {
        site_id = site_id;
        decided_at = now;
        valid_until = now +ℤ scale second bundle.decision_ttl_s;
        bundle_hash = bundle_hash bundle;
        evidence_hash = evidence_hash used;
        degraded = degraded;
        classes = map (decide_class bundle used now) (sort_by class_before bundle.traffic_classes);
      }
