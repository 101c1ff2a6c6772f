-- ===== src/Sim/Scenarios/Guarded.antt =====
-- The policies that the governed path runs under guard their classes: the simulator's own, and the
-- floor of any site.
use pilotfish.Base.{
  Option-cases, Bool-cases, ◌⊎◌, refl, sym, subst, Option, List, [], ◌∷◌, ◌++◌, inl, inr,
}
use pilotfish.Base.Int.{ℤ}
use pilotfish.Base.Text.{Text, text}
use mathlib.Core.List.{Memᴰ}
use pilotfish.Core.Models.{Link, TrafficClass, Time}
use pilotfish.Core.Rules.{Rule, metered, jurisdiction, encryption}
use pilotfish.Core.Bundle.{
  floor_bundle, floor_class_rules, floor_rules_of, rtt_rules, jurisdiction_rules, encryption_rules,
  classes_or_default,
}
use pilotfish.Sim.Scenarios.{sim_bundle, bulk, realtime, health}
use pilotfish.Sim.Selectors.Governed.Guards.{IsGuarded, Has}

Has-left : (r : Rule) (rs more : List Rule) → Has r rs → Has r (rs ++ more)
Has-left r [] more h = absurd h
Has-left r (x ∷ xs) more (inl e) = inl e
Has-left r (x ∷ xs) more (inr h) = inr (Has-left r xs more h)

Has-right : (r : Rule) (rs more : List Rule) → Has r more → Has r (rs ++ more)
Has-right r [] more h = h
Has-right r (x ∷ xs) more h = inr (Has-right r xs more h)

-- The floor's rules for a class guard it.
own-IsGuarded : (c : TrafficClass) → IsGuarded (floor_rules_of c) c
unfolding floor_rules_of
own-IsGuarded c = record {
  metering = inr (text "FLOOR-METER-" ++ c.id, inl refl);
  borders = elim (Option-cases c.allowed_jurisdictions) [
    | inl e ↦ inl e
    | inr (allowed, e) ↦ inr (
      text "FLOOR-JUR-" ++ c.id,
      inr (
          Has-right _ (rtt_rules c.max_rtt_ms c.id) _ (
            Has-left (jurisdiction (text "FLOOR-JUR-" ++ c.id) c.id)
              (jurisdiction_rules c.allowed_jurisdictions c.id) _
              (unfold jurisdiction_rules in rw e (inl refl)))),
    )
  ];
  secrecy = elim (Bool-cases c.requires_encryption) [
    | inl e ↦ inr (
      text "FLOOR-ENC-" ++ c.id,
      inr (
          Has-right _ (rtt_rules c.max_rtt_ms c.id) _ (
            Has-right (encryption (text "FLOOR-ENC-" ++ c.id) c.id)
              (jurisdiction_rules c.allowed_jurisdictions c.id)
              (encryption_rules c.requires_encryption c.id)
              (unfold encryption_rules in rw e (inl refl)))),
    )
    | inr e ↦ inl e
  ];
}

-- A guard stays one in more rules.
more_guard {ℓ} :
    {A : Type ℓ} (P : Text → Rule) (rs more : List Rule)
    → ((r : Rule) → Has r rs → Has r more)
    → A ⊎ ((id : Text) × Has (P id) rs)
    → A ⊎ ((id : Text) × Has (P id) more)
more_guard P rs more sub (inl a) = inl a
more_guard P rs more sub (inr (id, h)) = inr (id, sub (P id) h)

IsGuarded-more :
    (rs more : List Rule) (c : TrafficClass)
    → ((r : Rule) → Has r rs → Has r more)
    → IsGuarded rs c
    → IsGuarded more c
IsGuarded-more rs more c sub g = record {
  metering = more_guard (λ id. metered id c.id) rs more sub g.metering;
  borders = more_guard (λ id. jurisdiction id c.id) rs more sub g.borders;
  secrecy = more_guard (λ id. encryption id c.id) rs more sub g.secrecy;
}

class_rules-IsGuarded :
    (cs : List TrafficClass) (c : TrafficClass) → Memᴰ c cs → IsGuarded (floor_class_rules cs) c
unfolding floor_class_rules
class_rules-IsGuarded [] c m = elim m [ ]
class_rules-IsGuarded (d ∷ cs) c (Memᴰ.head e) =
    IsGuarded-more (floor_rules_of c) (floor_rules_of d ++ floor_class_rules cs) c
      (λ r h. Has-left r (floor_rules_of d) _ (rw e at h)) (own-IsGuarded c)
class_rules-IsGuarded (d ∷ cs) c (Memᴰ.tail m) =
    IsGuarded-more (floor_class_rules cs) (floor_rules_of d ++ floor_class_rules cs) c
      (λ r h. Has-right r (floor_rules_of d) _ h) (class_rules-IsGuarded cs c m)

-- The floor policy of any site guards each of its classes: what a class requires of metering,
-- jurisdiction or encryption, a rule of the floor checks for it.
pub floor_bundle-IsGuarded :
    (links : List Link) (now : Option Time) (authority : Text)
    (classes : Option (List TrafficClass)) (c : TrafficClass)
    → Memᴰ c (floor_bundle links now authority classes).traffic_classes
    → IsGuarded (floor_bundle links now authority classes).rules c
unfolding floor_bundle
floor_bundle-IsGuarded links now authority classes c m =
    IsGuarded-more (floor_class_rules (classes_or_default classes)) _ c (λ r h. inr (inr h))
      (class_rules-IsGuarded (classes_or_default classes) c m)

bulk-IsGuarded : (v ttl : ℤ) → IsGuarded (sim_bundle v ttl).rules bulk
unfolding sim_bundle
bulk-IsGuarded v ttl = record {
  metering = inr (text "R-METER-BULK", inr (inr (inr (inl refl))));
  borders = inl refl;
  secrecy = inl refl;
}

realtime-IsGuarded : (v ttl : ℤ) → IsGuarded (sim_bundle v ttl).rules realtime
unfolding sim_bundle
realtime-IsGuarded v ttl = record { metering = inl refl; borders = inl refl; secrecy = inl refl }

health-IsGuarded : (v ttl : ℤ) → IsGuarded (sim_bundle v ttl).rules health
unfolding sim_bundle
health-IsGuarded v ttl = record {
  metering = inl refl;
  borders = inr (text "R-JUR-HEALTH", inr (inr (inr (inr (inr (inr (inr (inl refl))))))));
  secrecy = inr (text "R-ENC-HEALTH", inr (inr (inr (inr (inr (inr (inr (inr (inl refl)))))))));
}

-- The simulator's policy guards each of its classes, whatever its validity.
pub sim_bundle-IsGuarded :
    (validity_s decision_ttl_s : ℤ) (c : TrafficClass)
    → Memᴰ c (sim_bundle validity_s decision_ttl_s).traffic_classes
    → IsGuarded (sim_bundle validity_s decision_ttl_s).rules c
unfolding sim_bundle
sim_bundle-IsGuarded v ttl c (Memᴰ.head e) =
    subst (IsGuarded (sim_bundle v ttl).rules) (sym e) (bulk-IsGuarded v ttl)
sim_bundle-IsGuarded v ttl c (Memᴰ.tail (Memᴰ.head e)) =
    subst (IsGuarded (sim_bundle v ttl).rules) (sym e) (realtime-IsGuarded v ttl)
sim_bundle-IsGuarded v ttl c (Memᴰ.tail (Memᴰ.tail (Memᴰ.head e))) =
    subst (IsGuarded (sim_bundle v ttl).rules) (sym e) (health-IsGuarded v ttl)
sim_bundle-IsGuarded v ttl c (Memᴰ.tail (Memᴰ.tail (Memᴰ.tail m))) = elim m [ ]
