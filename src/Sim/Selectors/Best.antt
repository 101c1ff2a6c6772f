-- ===== src/Sim/Selectors/Best.antt =====
-- What `_best_by_rtt` and the walk over a list pick.
use pilotfish.Base.{
  ◌⊎◌, ◌≡◌, refl, sym, subst, true, false, Option, none, some, List, [], ◌∷◌, if◌then◌else◌,
  Bool-cases, inl, inr, arith,
}
use pilotfish.Base.Lists.{filter, All}
use pilotfish.Base.Orders.{pair_ord, pair_le, pair_le_total, pair_le_trans}
use pilotfish.Base.Text.{text, text_le, Text, contains, text_eq_iff, text_ord}
use pilotfish.Core.Models.{Observation, EvidenceSnapshot, latest}
use pilotfish.Float.{Float, inf, float_le, float_le_antisym, float_ord}
use pilotfish.Sim.Selectors.{
  rtt_or_inf, observed_up, observed_rtt, comes_before, least, least_of, best_by_rtt, first_up,
}

abbrev pub value_or_inf : Option Observation → Float
value_or_inf none = inf
value_or_inf (some o) = o.value

same_value : (o : Option Observation) → rtt_or_inf o ≡ value_or_inf o
same_value none = refl
same_value (some o) = refl

module _ (ev : EvidenceSnapshot) where
  comes_before_total : (l m : Text) → comes_before ev l m ≡ false → comes_before ev m l ≡ true
  unfolding comes_before
  comes_before_total l m h = pair_le_total (observed_rtt ev l, l) (observed_rtt ev m, m) h

  comes_before_trans :
      (l m n : Text)
      → comes_before ev l m ≡ true
      → comes_before ev m n ≡ true
      → comes_before ev l n ≡ true
  unfolding comes_before
  comes_before_trans l m n h k =
      pair_le_trans (observed_rtt ev l, l) (observed_rtt ev m, m) (observed_rtt ev n, n) h k

  comes_before_refl : (l : Text) → comes_before ev l l ≡ true
  comes_before_refl l = elim (Bool-cases (comes_before ev l l)) [
    | inl e ↦ e
    | inr e ↦ comes_before_total l l e
  ]

  -- the better of the best so far and a new candidate
  abbrev better : Text → Text → Text
  better best l = if comes_before ev best l then best else l

  better-left : (best l : Text) → comes_before ev (better best l) best ≡ true
  better-left best l = ground (arith, comes_before_refl best, comes_before_total best l)

  better-right : (best l : Text) → comes_before ev (better best l) l ≡ true
  better-right best l = ground (arith, comes_before_refl l)

  least-before_first :
      (best : Text) (ls : List Text) → comes_before ev (least ev best ls) best ≡ true
  unfolding least
  least-before_first best [] = comes_before_refl best
  least-before_first best (l ∷ ls) =
      comes_before_trans (least ev (better best l) ls) (better best l) best
        (least-before_first (better best l) ls) (better-left best l)

  least-before :
      (best : Text) (ls : List Text) → All (λ l. comes_before ev (least ev best ls) l ≡ true) ls
  unfolding least
  least-before best [] = tt
  least-before best (l ∷ ls) = (
    comes_before_trans (least ev (better best l) ls) (better best l) l
        (least-before_first (better best l) ls) (better-right best l),
    least-before (better best l) ls,
  )

  -- The least candidate is one of them.
  least-one_of :
      (P : Text → Type 0) (best : Text) (ls : List Text) → P best → All P ls → P (least ev best ls)
  unfolding least
  least-one_of P best [] p ps = p
  least-one_of P best (l ∷ ls) p (q, ps) =
      let chosen : P (better best l) = elim (Bool-cases (comes_before ev best l)) [
        | inl e ↦ rw e p
        | inr e ↦ rw e q
      ] in
      least-one_of P (better best l) ls chosen ps

  All-live :
      (P : Text → Type 0) (ls : List Text)
      → All P ls
      → All (λ l. P l × (observed_up ev l ≡ true)) (filter (observed_up ev) ls)
  unfolding filter
  All-live P [] ps = tt
  All-live P (l ∷ ls) (p, ps) = elim (Bool-cases (observed_up ev l)) [
    | inl e ↦ rw e ((p, e), All-live P ls ps)
    | inr e ↦ rw e (All-live P ls ps)
  ]

  -- What holds of every live candidate, of every candidate that is live.
  live-All :
      (P : Text → Type 0) (ls : List Text)
      → All P (filter (observed_up ev) ls)
      → All (λ l. (observed_up ev l ≡ false) ⊎ P l) ls
  unfolding filter
  live-All P [] ps = tt
  live-All P (l ∷ ls) ps = elim (Bool-cases (observed_up ev l)) [
    | inl e ↦ let (p, rest) = rw e at ps in (inr p, live-All P ls rest)
    | inr e ↦ (inl e, live-All P ls (rw e at ps))
  ]

  -- the latency that a link last reported; infinite where it reported none
  unfoldable pub latency : Text → Float
  latency l = value_or_inf (latest ev l (text "rtt_ms"))

  -- A latency is below another, or the two are equal and the names stand in this order.
  abbrev pub IsAhead : Text → Text → Type 0
  IsAhead l c =
      (float_le (latency c) (latency l) ≡ false) ⊎ ((latency l ≡ latency c) × (text_le l c ≡ true))

  -- A link to choose, or none, is the best of the candidates: it is one of them, it is observed up,
  -- and of those that are observed up it has the lowest latency, and the first name among equals;
  -- there is none where no candidate is observed up.
  abbrev pub IsBest : List Text → Option Text → Type 0
  IsBest candidates none = All (λ c. observed_up ev c ≡ false) candidates
  IsBest candidates (some l) =
      (contains l candidates ≡ true)
      × (observed_up ev l ≡ true)
      × All (λ c. (observed_up ev c ≡ false) ⊎ IsAhead l c) candidates

  observed_rtt-latency : (l : Text) → observed_rtt ev l ≡ latency l
  unfolding observed_rtt latency
  observed_rtt-latency l = same_value (latest ev l (text "rtt_ms"))

  comes_before-IsAhead : (l c : Text) → comes_before ev l c ≡ true → IsAhead l c
  unfolding comes_before pair_le
  comes_before-IsAhead l c h =
      let h' = rw (observed_rtt-latency l, observed_rtt-latency c) at h in
      elim (Bool-cases (float_le (latency c) (latency l))) [
        | inl e ↦ elim (Bool-cases (float_le (latency l) (latency c))) [
          | inl f ↦ inr (float_le_antisym (latency l) (latency c) f e, rw (e, f) at h')
          | inr f ↦ absurd (cc (rw f at h'))
        ]
        | inr e ↦ inl e
      ]

  All-IsAhead :
      (l : Text) (cs : List Text)
      → All (λ c. (observed_up ev c ≡ false) ⊎ (comes_before ev l c ≡ true)) cs
      → All (λ c. (observed_up ev c ≡ false) ⊎ IsAhead l c) cs
  All-IsAhead l [] hs = tt
  All-IsAhead l (c ∷ cs) (inl down, hs) = (inl down, All-IsAhead l cs hs)
  All-IsAhead l (c ∷ cs) (inr h, hs) = (inr (comes_before-IsAhead l c h), All-IsAhead l cs hs)

  none-live :
      (ls : List Text) → filter (observed_up ev) ls ≡ [] → All (λ c. observed_up ev c ≡ false) ls
  unfolding filter
  none-live [] h = tt
  none-live (l ∷ ls) h = elim (Bool-cases (observed_up ev l)) [
    | inl e ↦ absurd (cc (rw e at h))
    | inr e ↦ (e, none-live ls (rw e at h))
  ]

  All-contained :
      (ls all : List Text)
      → ((l : Text) → contains l ls ≡ true → contains l all ≡ true)
      → All (λ l. contains l all ≡ true) ls
  unfolding contains
  All-contained [] all sub = tt
  All-contained (l ∷ ls) all sub =
      (sub l (ground (arith, text_eq_iff l l)), All-contained ls all (λ m h. sub m (ground arith)))

  abbrev IsLive : List Text → Text → Type 0
  IsLive candidates c = (contains c candidates ≡ true) × (observed_up ev c ≡ true)

  least_of-IsBest :
      (candidates live : List Text)
      → filter (observed_up ev) candidates ≡ live
      → IsBest candidates (least_of ev live)
  unfolding least_of
  least_of-IsBest candidates [] e = none-live candidates e
  least_of-IsBest candidates (l ∷ ls) e =
      let all_in = All-contained candidates candidates (λ m h. h) in
      let (member, up) =
        let kinds = rw e at (All-live (λ c. contains c candidates ≡ true) candidates all_in) in
        least-one_of (IsLive candidates) l ls kinds.0 kinds.1 in
      let before : All (λ c. comes_before ev (least ev l ls) c ≡ true) (l ∷ ls) =
        (least-before_first l ls, least-before l ls) in
      (
        member,
        up,
        All-IsAhead (least ev l ls) candidates (
            live-All (λ c. comes_before ev (least ev l ls) c ≡ true) candidates
              (subst (All λ c. comes_before ev (least ev l ls) c ≡ true) (sym e) before)),
      )

  -- `_best_by_rtt` picks, of the candidates that are observed up, one with the lowest latency, the
  -- first by name among equals, and nothing where none is observed up.
  pub best_by_rtt-IsBest : (candidates : List Text) → IsBest candidates (best_by_rtt ev candidates)
  unfolding best_by_rtt
  best_by_rtt-IsBest candidates =
      least_of-IsBest candidates (filter (observed_up ev) candidates) refl

  -- The walk over a list picks a link that is observed up.
  pub first_up-observed_up :
      (order : List Text) (l : Text) → first_up ev order ≡ some l → observed_up ev l ≡ true
  unfolding first_up
  first_up-observed_up [] l h = cc
  first_up-observed_up (m ∷ ms) l h = elim (Bool-cases (observed_up ev m)) [
    | inl e ↦ let same : some m ≡ some l = rw e at h in ground (arith, e)
    | inr e ↦ first_up-observed_up ms l (rw e at h)
  ]
