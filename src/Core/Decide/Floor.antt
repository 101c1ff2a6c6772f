-- ===== src/Core/Decide/Floor.antt =====
-- What the floor policy permits.
use pilotfish.Base.{
  ◌≡◌, ◌≢◌, refl, subst, sym, true, false, not, Option, none, some, List, [], ◌∷◌, ◌++◌, arith,
  Bool-cases, inl, inr,
}
use pilotfish.Base.Lists.{filter, All, is_empty}
use pilotfish.Base.Text.{Text, text, text_eq, text_eq_refl, contains}
use pilotfish.Core.Models.{Link, TrafficClass, Observation, EvidenceSnapshot, Time, latest}
use pilotfish.Core.Rules.{
  Rule, down, metered, link_type, evaluate, down_reason, rtt_reason, jurisdiction_reason,
}
use pilotfish.Core.Bundle.{
  floor_bundle, floor_class_rules, floor_rules_of, rtt_rules, jurisdiction_rules, encryption_rules,
  classes_or_default,
}
use pilotfish.Core.Decide.{decide_class}
use pilotfish.Core.Decide.Permitted.{admits, is_none, permitted_link}
use pilotfish.Float.{Float, float_lt, one_point}
use pilotfish.Platform.{Platform}
use mathlib.Core.List.{Memᴰ, Mem}

-- the class's latency bound is met by the latest measurement
abbrev pub MeetsRtt : Option Float → Option Observation → Type 0
MeetsRtt none o = Unit
MeetsRtt (some bound) none = ⊥
MeetsRtt (some bound) (some o) = float_lt bound o.value ≡ false

-- every jurisdiction of the link is allowed, and there is one
abbrev pub StaysInside : Option (List Text) → List Text → Type 0
StaysInside none js = Unit
StaysInside (some allowed) js = (js ≢ []) × All (λ j. contains j allowed ≡ true) js

abbrev pub IsUp : Option Observation → Type 0
IsUp none = ⊥
IsUp (some o) = float_lt o.value one_point ≡ false

-- What a link that the floor permits to a class satisfies.
pub record MeetsFloor (c : TrafficClass) (l : Link) (ev : EvidenceSnapshot) : Type 0 where
  pub is_up : IsUp (latest ev l.id (text "up"))
  pub not_fso : text_eq l.type (text "fso") ≡ false
  pub unmetered : l.metered ≡ true → c.allow_metered ≡ true
  pub in_time : MeetsRtt c.max_rtt_ms (latest ev l.id (text "rtt_ms"))
  pub inside : StaysInside c.allowed_jurisdictions l.jurisdictions
  pub encrypted : c.requires_encryption ≡ true → l.encrypted_below ≡ true

IsUp-of : (o : Option Observation) → is_none (down_reason o) ≡ true → IsUp o
unfolding down_reason
IsUp-of none h = cc
IsUp-of (some o) h = ground arith

All-contained :
    (allowed js : List Text)
    → is_empty (filter (λ j. not (contains j allowed)) js) ≡ true
    → All (λ j. contains j allowed ≡ true) js
unfolding filter
All-contained allowed [] h = tt
All-contained allowed (j ∷ js) h = elim (Bool-cases (contains j allowed)) [
  | inl e ↦ (e, All-contained allowed js (rw e at h))
  | inr e ↦ let k = rw e at h in cc k
]

inside_of :
    (allowed js : List Text)
    → is_none (jurisdiction_reason js allowed) ≡ true
    → StaysInside (some allowed) js
unfolding jurisdiction_reason
inside_of allowed [] h = cc
inside_of allowed (j ∷ js) h = (λ e. cc, All-contained allowed (j ∷ js) (ground arith))

module _ ⦃p : Platform⦄ (c : TrafficClass) (l : Link) (ev : EvidenceSnapshot) (now : Time) where
  in_time_of :
      (bound : Float) (o : Option Observation)
      → is_none (rtt_reason bound o) ≡ true
      → MeetsRtt (some bound) o
  unfolding rtt_reason
  in_time_of bound none h = cc
  in_time_of bound (some o) h = ground arith

  admits-append_left :
      (rs ss : List Rule) → admits c ev now (rs ++ ss) l ≡ true → admits c ev now rs l ≡ true
  unfolding admits
  admits-append_left [] ss h = refl
  admits-append_left (r ∷ rs) ss h = ground (arith, admits-append_left rs ss)

  admits-append_right :
      (rs ss : List Rule) → admits c ev now (rs ++ ss) l ≡ true → admits c ev now ss l ≡ true
  unfolding admits
  admits-append_right [] ss h = h
  admits-append_right (r ∷ rs) ss h = ground (arith, admits-append_right rs ss)

  -- the rules that a class adds are among the floor's
  class_rules_admit :
      (cs : List TrafficClass)
      → Memᴰ c cs
      → admits c ev now (floor_class_rules cs) l ≡ true
      → admits c ev now (floor_rules_of c) l ≡ true
  unfolding floor_class_rules
  class_rules_admit [] m h = elim m [ ]
  class_rules_admit (d ∷ cs) (Memᴰ.head e) h =
      subst (λ x. admits c ev now (floor_rules_of x) l ≡ true) (sym e)
        (admits-append_left (floor_rules_of d) (floor_class_rules cs) h)
  class_rules_admit (d ∷ cs) (Memᴰ.tail m) h =
      class_rules_admit cs m (admits-append_right (floor_rules_of d) (floor_class_rules cs) h)

  rtt_part :
      (o : Option Float)
      → c.max_rtt_ms ≡ o
      → admits c ev now (rtt_rules o c.id) l ≡ true
      → MeetsRtt o (latest ev l.id (text "rtt_ms"))
  unfolding rtt_rules admits evaluate
  rtt_part none e h = tt
  rtt_part (some bound) e h = in_time_of bound _ (ground (arith, text_eq_refl c.id))

  jurisdiction_part :
      (o : Option (List Text))
      → c.allowed_jurisdictions ≡ o
      → admits c ev now (jurisdiction_rules o c.id) l ≡ true
      → StaysInside o l.jurisdictions
  unfolding jurisdiction_rules admits evaluate
  jurisdiction_part none e h = tt
  jurisdiction_part (some allowed) e h =
      inside_of allowed l.jurisdictions (ground (arith, text_eq_refl c.id))

  encryption_part :
      admits c ev now (encryption_rules c.requires_encryption c.id) l ≡ true
      → c.requires_encryption ≡ true
      → l.encrypted_below ≡ true
  unfolding encryption_rules admits evaluate
  encryption_part h e = ground (arith, text_eq_refl c.id)

  metered_part :
      (rs : List Rule) (id : Text)
      → admits c ev now (metered id c.id ∷ rs) l ≡ true
      → (l.metered ≡ true → c.allow_metered ≡ true) × (admits c ev now rs l ≡ true)
  unfolding admits evaluate
  metered_part rs id h = (λ m. ground (arith, text_eq_refl c.id), ground (arith, text_eq_refl c.id))

  floor_head :
      (rs : List Rule) (i j reason : Text)
      → admits c ev now (down i ∷ link_type j (text "fso") reason ∷ rs) l ≡ true
      → IsUp (latest ev l.id (text "up"))
        × (text_eq l.type (text "fso") ≡ false)
        × (admits c ev now rs l ≡ true)
  unfolding admits evaluate
  floor_head rs i j reason h =
      (IsUp-of (latest ev l.id (text "up")) (ground arith), ground arith, ground arith)

  class_part :
      admits c ev now (floor_rules_of c) l ≡ true
      → (l.metered ≡ true → c.allow_metered ≡ true)
        × MeetsRtt c.max_rtt_ms (latest ev l.id (text "rtt_ms"))
        × StaysInside c.allowed_jurisdictions l.jurisdictions
        × (c.requires_encryption ≡ true → l.encrypted_below ≡ true)
  unfolding floor_rules_of
  class_part h =
      let (m, rest) = metered_part _ _ h in
      let a = rtt_rules c.max_rtt_ms c.id in
      let b = jurisdiction_rules c.allowed_jurisdictions c.id in
      let e = encryption_rules c.requires_encryption c.id in
      let later = admits-append_right a (b ++ e) rest in
      (
        m,
        rtt_part c.max_rtt_ms refl (admits-append_left a (b ++ e) rest),
        jurisdiction_part c.allowed_jurisdictions refl (admits-append_left b e later),
        encryption_part (admits-append_right b e later),
      )

  floor_admits-MeetsFloor :
      (links : List Link) (issued : Option Time) (authority : Text)
      (classes : Option (List TrafficClass))
      → Memᴰ c (classes_or_default classes)
      → admits c ev now (floor_bundle links issued authority classes).rules l ≡ true
      → MeetsFloor c l ev
  unfolding floor_bundle
  floor_admits-MeetsFloor links issued authority classes m h =
      let (up, fso, rest) = floor_head _ _ _ _ h in
      let (metered_ok, rtt, inside, enc) =
        class_part (class_rules_admit (classes_or_default classes) m rest) in
      record {
        is_up = up;
        not_fso = fso;
        unmetered = metered_ok;
        in_time = rtt;
        inside = inside;
        encrypted = enc;
      }

links-floor_bundle :
    (links : List Link) (issued : Option Time) (authority : Text)
    (classes : Option (List TrafficClass)) (l : Link)
    → Mem l (floor_bundle links issued authority classes).links
    → Mem l links
unfolding floor_bundle
links-floor_bundle links issued authority classes l m = m

-- Whatever the floor policy permits to one of its classes is a link of the site that is observed
-- up, is not free-space optics, and meets every constraint that the class declares: its latency
-- bound, its jurisdictions, its encryption, and, if the class refuses metered paths, it is not
-- metered.
pub floor_permits :
    ⦃p : Platform⦄ (links : List Link) (issued : Option Time) (authority : Text)
    (classes : Option (List TrafficClass)) (c : TrafficClass) (ev : EvidenceSnapshot) (now : Time)
    (x : Text)
    → Memᴰ c (classes_or_default classes)
    → Memᴰ x (decide_class (floor_bundle links issued authority classes) ev now c).permitted
    → (l : Link) × Mem l links × (l.id ≡ x) × MeetsFloor c l ev
floor_permits links issued authority classes c ev now x mc mx =
    let (l, ml, e, ok_rules) =
      permitted_link c ev now (floor_bundle links issued authority classes) x mx in
    (
      l,
      links-floor_bundle links issued authority classes l ml,
      e,
      floor_admits-MeetsFloor c l ev now links issued authority classes mc ok_rules,
    )
