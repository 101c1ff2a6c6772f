-- ===== src/Core/Decide/Permitted.antt =====
-- The permitted set, described without the loop: the links that no rule excludes, in their order.
use pilotfish.Base.{
  ◌≡◌, refl, sym, ◌∙◌, Bool, true, false, ◌&&◌, Option, none, some, List, [], ◌∷◌, ◌++◌, map, arith,
  Bool-cases, Option-cases, inl, inr, ◌⊎◌, subst,
}
use pilotfish.Base.Lists.{filter, is_empty}
use pilotfish.Base.Sort.{sort_by, sort_by-perm}
use pilotfish.Base.Sublists.{filter_mono, map-sublist, All-of}
use pilotfish.Base.Text.{Text}
use pilotfish.Core.Models.{Link, TrafficClass, EvidenceSnapshot, Time}
use pilotfish.Core.Rules.{Rule, Exclusion, rule_id, evaluate}
use pilotfish.Core.Bundle.{PolicyBundle, with_rules}
use pilotfish.Core.Decide.{reasons, sift, decide_class, link_before, exclusion_before}
use pilotfish.Platform.{Platform}
use mathlib.Core.List.{Perm, Sublist, Mem, Memᴰ}
use mathlib.Core.List.Memᴰ
use mathlib.Core.List.Perm

abbrev pub is_none : Option Text → Bool
is_none none = true
is_none (some _) = false

Memᴰ-head :
    {l x : Link} {xs : List Link} {P : Type 0} → (Memᴰ l xs → P) → Memᴰ l (x ∷ xs) → (l ≡ x) ⊎ P
Memᴰ-head f (Memᴰ.head e) = inl e
Memᴰ-head f (Memᴰ.tail m) = inr (f m)

filter_head :
    (q : Link → Bool) {l : Link} (x : Link) (ls : List Link)
    → q x ≡ true
    → (l ≡ x) ⊎ (Memᴰ l ls × (q l ≡ true))
    → Memᴰ l (x ∷ ls) × (q l ≡ true)
filter_head q x ls e (inl f) = (Memᴰ.head f, rw f e)
filter_head q x ls e (inr (m, f)) = (Memᴰ.tail m, f)

pub Memᴰ-filter :
    (q : Link → Bool) {l : Link} (ls : List Link) → Memᴰ l (filter q ls) → Memᴰ l ls × (q l ≡ true)
unfolding filter
Memᴰ-filter q [] m = elim m [ ]
Memᴰ-filter q (x ∷ ls) m = elim (Bool-cases (q x)) [
  | inl e ↦ filter_head q x ls e (Memᴰ-head (Memᴰ-filter q ls) (rw e at m))
  | inr e ↦ let (n, k) = Memᴰ-filter q ls (rw e at m) in (Memᴰ.tail n, k)
]

module _ ⦃p : Platform⦄ (c : TrafficClass) (ev : EvidenceSnapshot) (now : Time) where
  -- Whether no rule of the list excludes the link.
  unfoldable pub admits : List Rule → Link → Bool
  admits [] l = true
  admits (r ∷ rs) l = is_none (evaluate r l c ev now) && admits rs l

  reasons-admits : (rs : List Rule) (l : Link) → is_empty (reasons rs l c ev now) ≡ admits rs l
  unfolding admits reasons
  reasons-admits [] l = refl
  reasons-admits (r ∷ rs) l = elim (Option-cases (evaluate r l c ev now)) [
    | inl e ↦ rw e (reasons-admits rs l)
    | inr (x, e) ↦ rw e
  ]

  sift-admits :
      (rs : List Rule) (ls : List Link)
      → (sift rs ls c ev now).0 ≡ map (λ l. l.id) (filter (admits rs) ls)
  unfolding sift filter
  sift-admits rs [] = refl
  sift-admits rs (l ∷ ls) = elim (Bool-cases (admits rs l)) [
    | inl e ↦ rw (reasons-admits rs l, e, sift-admits rs ls)
    | inr e ↦ rw (reasons-admits rs l, e, sift-admits rs ls)
  ]

  -- A class's permitted links are the ids of the links of the bundle that no rule excludes, in the
  -- order of their ids.
  pub permitted_exactly :
      (b : PolicyBundle)
      → (decide_class b ev now c).permitted
        ≡ map (λ l. l.id) (filter (admits b.rules) (sort_by link_before b.links))
  unfolding decide_class
  permitted_exactly b = sift-admits b.rules (sort_by link_before b.links)

  -- what a rule says against a link, if anything, as an exclusion
  abbrev pub noted : Link → Rule → Option Text → List Exclusion
  noted l r none = []
  noted l r (some why) = record { link_id = l.id; rule_id = rule_id r; reason = why } ∷ []

  -- All that the rules say against a link, rule by rule.
  unfoldable pub said_by_all : List Rule → Link → List Exclusion
  said_by_all [] l = []
  said_by_all (r ∷ rs) l = noted l r (evaluate r l c ev now) ++ said_by_all rs l

  -- All that the rules say against the links, link by link.
  unfoldable pub said_of_all : List Rule → List Link → List Exclusion
  unfolding said_by_all
  said_of_all rs [] = []
  said_of_all rs (l ∷ ls) = said_by_all rs l ++ said_of_all rs ls

  reasons-said_by_all : (rs : List Rule) (l : Link) → reasons rs l c ev now ≡ said_by_all rs l
  unfolding reasons said_by_all
  reasons-said_by_all [] l = refl
  reasons-said_by_all (r ∷ rs) l = elim (Option-cases (evaluate r l c ev now)) [
    | inl e ↦ rw e (reasons-said_by_all rs l)
    | inr (x, e) ↦ rw (e, reasons-said_by_all rs l)
  ]

  empty_reasons : (es : List Exclusion) → is_empty es ≡ true → es ≡ []
  empty_reasons [] h = refl
  empty_reasons (e ∷ es) h = cc

  sift-exclusions : (rs : List Rule) (ls : List Link) → (sift rs ls c ev now).1 ≡ said_of_all rs ls
  unfolding sift said_of_all
  sift-exclusions rs [] = refl
  sift-exclusions rs (l ∷ ls) =
      let same = reasons-said_by_all rs l in
      elim (Bool-cases (is_empty (reasons rs l c ev now))) [
        | inl e ↦
            let nothing : said_by_all rs l ≡ [] = sym same ∙ empty_reasons _ e in
            rw (e, nothing) (sift-exclusions rs ls)
        | inr e ↦ rw (e, same, sift-exclusions rs ls)
      ]

  -- A class's exclusions are, up to their order, all that every rule says against every link of the
  -- bundle, each with the ids of the link and of the rule; also where several rules exclude one
  -- link.
  pub exclusions_exactly :
      (b : PolicyBundle)
      → Perm
          (decide_class b ev now c).exclusions
          (said_of_all b.rules (sort_by link_before b.links))
  unfolding decide_class
  exclusions_exactly b =
      rw (sift-exclusions b.rules (sort_by link_before b.links)) (sort_by-perm exclusion_before _)

  admits-append :
      (rs extra : List Rule) (l : Link) → admits (rs ++ extra) l ≡ true → admits rs l ≡ true
  unfolding admits
  admits-append [] extra l h = refl
  admits-append (r ∷ rs) extra l h = ground (arith, admits-append rs extra l)

  -- Adding rules to a bundle only takes links out of the permitted set of every class.
  pub more_rules_permit_less :
      (b : PolicyBundle) (extra : List Rule)
      → Sublist
          (decide_class (with_rules b (b.rules ++ extra)) ev now c).permitted
          (decide_class b ev now c).permitted
  unfolding with_rules
  more_rules_permit_less b extra =
      rw (permitted_exactly (with_rules b (b.rules ++ extra)), permitted_exactly b)
        (map-sublist (λ l. l.id)
          (filter_mono (admits (b.rules ++ extra)) (admits b.rules) (sort_by link_before b.links)
            (All-of _ (λ l. admits-append b.rules extra l) _)))

  -- A permitted id is the id of a link of the bundle that no rule excludes.
  pub permitted_link :
      (b : PolicyBundle) (x : Text)
      → Memᴰ x (decide_class b ev now c).permitted
      → (l : Link) × Mem l b.links × (l.id ≡ x) × (admits b.rules l ≡ true)
  permitted_link b x m =
      let (l, ml, e) =
        Memᴰ.of_map (λ (l : Link). l.id) (filter (admits b.rules) (sort_by link_before b.links))
          (subst (Memᴰ x) (permitted_exactly b) m) in
      let (mem, pass) = Memᴰ-filter (admits b.rules) (sort_by link_before b.links) ml in
      (l, Perm.subset (sort_by-perm link_before b.links) l ∣ mem ∣₁, e, pass)
