-- ===== src/Agent/Receipts/Tamper.antt =====
-- What a verified chain's head says about the receipts behind it.
use pilotfish.Base.{
  ◌≡◌, refl, sym, ap, ◌∙◌, true, List, [], ◌∷◌, map, arith, Bool-cases, inl, inr, ◌⊎◌, ◌≢◌, ℕ,
}
use pilotfish.Base.Int.{ℤ, pos, ◌+ℤ◌, int_laws, eq_of_parts}
use pilotfish.Base.Lists.{length}
use pilotfish.Base.Result.{ok}
use pilotfish.Base.Text.{Text, text_eq, text_eq_iff}
use pilotfish.Platform.{Platform, Value, string, array_of, items, to_list, to_list-items}
use pilotfish.Agent.Receipts.{Receipt, body, receipt_hash, verify_from, verify_chain, genesis_hash}
use pilotfish.Agent.Receipts.Reading.{end_of, verify_from-step}

second_text : List Value → Text
second_text (_ ∷ _ ∷ string t ∷ _) = t
second_text _ = []

module _ ⦃p : Platform⦄ where
  -- Two chains hold, at one place, receipts that are hashed to one hash and differ in what is hashed.
  abbrev pub Collide : List Receipt → List Receipt → Type 0
  Collide [] ss = ⊥
  Collide (r ∷ rs) [] = ⊥
  Collide (r ∷ rs) (s ∷ ss) =
      ((body r ≢ body s) × (receipt_hash r ≡ receipt_hash s)) ⊎ Collide rs ss

  same-dumps : (v w : Value) → p.dumps v ≡ p.dumps w → v ≡ w
  same-dumps v w e =
      let f : ok v ≡ ok w = sym (p.loads-dumps v) ∙ (ap p.loads e ∙ p.loads-dumps w) in cc

  same-array : (vs ws : List Value) → array_of vs ≡ array_of ws → vs ≡ ws
  same-array vs ws e =
      let f : items vs ≡ items ws = cc in sym (to_list-items vs) ∙ (ap to_list f ∙ to_list-items ws)

  same-hash :
      (r s : Receipt)
      → receipt_hash r ≡ receipt_hash s
      → ((body r ≢ body s) × (receipt_hash r ≡ receipt_hash s)) ⊎ (body r ≡ body s)
  same-hash r s h =
      let a = p.dumps (array_of (body r)) in
      let b = p.dumps (array_of (body s)) in
      elim (Bool-cases (text_eq a b)) [
        | inl e ↦ inr (
            same-array (body r) (body s)
              (same-dumps (array_of (body r)) (array_of (body s)) ((text_eq_iff a b).0 e)))
        | inr e ↦ inl (
          λ f.
              let g : text_eq a b ≡ true =
                (text_eq_iff a b).1 (ap (λ vs. p.dumps (array_of vs)) f) in
              cc,
          h,
        )
      ]

  same-prev : (r s : Receipt) → body r ≡ body s → r.prev_hash ≡ s.prev_hash
  unfolding second_text body
  same-prev r s e = ap second_text e

  same-bodies :
      (rs ss : List Receipt) (h h' : Text) (n n' : ℤ)
      → length rs ≡ length ss
      → verify_from h n rs ≡ ok tt
      → verify_from h' n' ss ≡ ok tt
      → (end_of h n rs).0 ≡ (end_of h' n' ss).0
      → Collide rs ss ⊎ ((map body rs ≡ map body ss) × (h ≡ h'))
  unfolding end_of
  same-bodies [] [] h h' n n' l v w e = inr (refl, e)
  same-bodies [] (s ∷ ss) h h' n n' l v w e = absurd (omega arith)
  same-bodies (r ∷ rs) [] h h' n n' l v w e = absurd (omega arith)
  same-bodies (r ∷ rs) (s ∷ ss) h h' n n' l v w e =
      let (_, prev, rest) = verify_from-step h n r rs v in
      let (_, prev', rest') = verify_from-step h' n' s ss w in
      elim (same-bodies rs ss (receipt_hash r) (receipt_hash s) (n +ℤ pos 1) (n' +ℤ pos 1)
        (omega arith) rest rest' e) [
          | inl c ↦ inl (inr c)
          | inr (bodies, hashes) ↦ elim (same-hash r s hashes) [
            | inl c ↦ inl (inl c)
            | inr b ↦ inr (rw (b, bodies), sym prev ∙ (same-prev r s b ∙ prev'))
          ]
        ]

  end_of-number : (h : Text) (n : ℤ) (rs : List Receipt) → (end_of h n rs).1 ≡ n +ℤ pos (length rs)
  unfolding end_of
  end_of-number h n [] = eq_of_parts _ _ (omega int_laws)
  end_of-number h n (r ∷ rs) =
      end_of-number (receipt_hash r) (n +ℤ pos 1) rs ∙ eq_of_parts _ _ (omega int_laws)

  same-number : (a b : ℕ) → pos 1 +ℤ pos a ≡ pos 1 +ℤ pos b → a ≡ b
  unfolding ◌+ℤ◌
  same-number a b h = ground arith

  -- Two verified chains that end in the same number and the same hash hold the same receipts, field
  -- by field as they are hashed; or two receipts at the same place of the two chains differ and
  -- collide.
  pub same_head :
      (rs ss : List Receipt)
      → verify_chain rs ≡ ok tt
      → verify_chain ss ≡ ok tt
      → end_of genesis_hash (pos 1) rs ≡ end_of genesis_hash (pos 1) ss
      → Collide rs ss ⊎ (map body rs ≡ map body ss)
  unfolding verify_chain
  same_head rs ss v w e =
      let numbers =
        sym (end_of-number genesis_hash (pos 1) rs)
        ∙ (ap (λ x. x.1) e ∙ end_of-number genesis_hash (pos 1) ss) in
      elim (same-bodies rs ss genesis_hash genesis_hash (pos 1) (pos 1) (same-number _ _ numbers) v
        w (ap (λ x. x.0) e)) [ inl c ↦ inl c | inr (bodies, _) ↦ inr bodies ]
