-- ===== src/Core/Models/Newest.antt =====
-- `latest` answers with a newest candidate, and with nothing exactly when there is none.
use pilotfish.Base.{
  ◌≡◌, subst, true, some, List, [], ◌∷◌, arith, if◌then◌else◌, Bool-cases, inl, inr,
}
use pilotfish.Base.Int.{◌≤ℤ◌, ltb_ℤ}
use pilotfish.Base.Lists.{filter, All}
use pilotfish.Base.Text.{Text}
use pilotfish.Core.Models.{Observation, EvidenceSnapshot, latest, matches, newest, newest_of, Time}

-- no candidate in the list is newer than `t`
abbrev pub NoneNewer : Text → Text → Time → List Observation → Type 0
NoneNewer l q t os = All (λ c. matches l q c ≡ true → c.at ≤ℤ t) os

abbrev NotAfter : Time → List Observation → Type 0
NotAfter t os = All (λ c. c.at ≤ℤ t) os

newest_grows : (best : Observation) (os : List Observation) → best.at ≤ℤ (newest best os).at
unfolding newest
newest_grows best [] = omega arith
newest_grows best (o ∷ os) = elim (Bool-cases (ltb_ℤ best.at o.at)) [
  | inl e ↦ rw (e, newest) (ground (arith, newest_grows o os))
  | inr e ↦ rw (e, newest) (newest_grows best os)
]

abbrev later_of : Observation → Observation → Observation
later_of best o = if ltb_ℤ best.at o.at then o else best

newest-NotAfter :
    (best : Observation) (os : List Observation) (t : Time)
    → (newest best os).at ≤ℤ t
    → NotAfter t os
unfolding newest
newest-NotAfter best [] t h = tt
newest-NotAfter best (o ∷ os) t h =
    (ground (arith, newest_grows (later_of best o) os), newest-NotAfter (later_of best o) os t h)

filter-NoneNewer :
    (l q : Text) (t : Time) (os : List Observation)
    → NotAfter t (filter (matches l q) os)
    → NoneNewer l q t os
unfolding filter
filter-NoneNewer l q t [] h = tt
filter-NoneNewer l q t (o ∷ os) h = elim (Bool-cases (matches l q o)) [
  | inl e ↦ let k = rw e at h in (λ m. k.0, filter-NoneNewer l q t os k.1)
  | inr e ↦ (λ m. cc, filter-NoneNewer l q t os (rw e at h))
]

newest_of-NotAfter :
    (os : List Observation) (o : Observation) → newest_of os ≡ some o → NotAfter o.at os
unfolding newest_of
newest_of-NotAfter [] o h = tt
newest_of-NotAfter (c ∷ os) o h =
    let e : newest c os ≡ o = cc in
    subst (λ n. NotAfter n.at (c ∷ os)) e
      (newest_grows c os, newest-NotAfter c os (newest c os).at (omega arith))

-- Whatever `latest` answers, no observation of that quantity on that link is newer.
pub latest_newest :
    (evidence : EvidenceSnapshot) (l q : Text) (o : Observation)
    → latest evidence l q ≡ some o
    → NoneNewer l q o.at evidence.observations
unfolding latest
latest_newest evidence l q o h =
    filter-NoneNewer l q o.at evidence.observations
      (newest_of-NotAfter (filter (matches l q) evidence.observations) o h)
