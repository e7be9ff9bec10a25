-- ===== src/Tests/Slot.antt =====
-- A collection of one document, with the laws that the outbox repository counts on.
use ai_go.Common.{
  ℕ, List, Bool, true, false, ◌≡◌, refl, sym, ap, ◌∙◌, ◌≢◌, inl, inr, Option, none, some, arith,
  Bool-cases, [], ◌∷◌,
}
use ai_go.Common.Text.{Text, eq_text, eq_text_sound, eq_text_refl, text_before}
use ai_go.Mongo.{Collection, FindAndUpdate, Reply, reply, no_reply}

text_before_irrefl : (a : Text) → text_before a a ≡ false
unfolding text_before
text_before_irrefl [] = refl
text_before_irrefl (x ∷ xs) = ground (arith, text_before_irrefl xs)

module _ {D : Type 0} (key : Text) where
  abbrev lookup_at : Bool → Option D → Option D
  lookup_at true s = s
  lookup_at false s = none

  abbrev lookup : Option D → Text → Option D
  lookup s k = lookup_at (eq_text k key) s

  pub lookup-some :
      (s : Option D) (k : Text) (d : D) → lookup s k ≡ some d → (k ≡ key) × (s ≡ some d)
  lookup-some s k d h = elim (Bool-cases (eq_text k key)) [
    | inl e ↦ (eq_text_sound k key e, ap (λ b. lookup_at b s) (sym e) ∙ h)
    | inr e ↦ absurd (cc (ap (λ b. lookup_at b s) (sym e) ∙ h))
  ]

  lookup-key : (s : Option D) → lookup s key ≡ s
  lookup-key s = ap (λ b. lookup_at b s) (eq_text_refl key)

  lookup-other : (s : Option D) (k : Text) → k ≢ key → lookup s k ≡ none
  lookup-other s k ne = elim (Bool-cases (eq_text k key)) [
    | inl e ↦ absurd (ne (eq_text_sound k key e))
    | inr e ↦ ap (λ b. lookup_at b s) e
  ]

  abbrev insert_slot : Bool → D → Option D → Reply Bool × Option D
  insert_slot true d none = (reply true, some d)
  insert_slot true d (some x) = (reply false, some x)
  insert_slot false d s = (no_reply, s)

  pub insert_slot-law :
      (b : Bool) (k : Text) (d : D) (s s' : Option D)
      → eq_text k key ≡ b
      → insert_slot b d s ≡ (reply true, s')
      → (lookup s k ≡ none)
        × (lookup s' k ≡ some d)
        × ((j : Text) → j ≢ k → lookup s' j ≡ lookup s j)
  insert_slot-law false k d s s' e h = absurd (cc)
  insert_slot-law true k d (some x) s' e h = absurd (cc)
  insert_slot-law true k d none s' e h =
      let new : some d ≡ s' = ap (λ x. x.1) h in
      let same = eq_text_sound k key e in
      (
        ap (λ b. lookup_at b none) e,
        ap (lookup s') same ∙ lookup-key s' ∙ sym new,
        λ j ne.
            lookup-other s' j (λ p. ne (p ∙ sym same))
            ∙ sym (lookup-other none j (λ p. ne (p ∙ sym same))),
      )

  abbrev replace_if : Bool → D → Option D → Reply Bool × Option D
  replace_if true d s = (reply true, some d)
  replace_if false d s = (reply false, s)

  abbrev update_slot : Bool → (D → Bool) → (D → D) → Option D → Reply Bool × Option D
  update_slot true p u (some d) = replace_if (p d) (u d) (some d)
  update_slot true p u none = (reply false, none)
  update_slot false p u s = (reply false, s)

  abbrev pub Matches : Text → (D → Bool) → (D → D) → Option D → Option D → Type 0
  Matches k p u s s' =
      (d : D) × (lookup s k ≡ some d)
      × (p d ≡ true)
      × (lookup s' k ≡ some (u d))
      × ((j : Text) → j ≢ k → lookup s' j ≡ lookup s j)

  replaced-Matches :
      (k : Text) (d : D) (p : D → Bool) (u : D → D) (s' : Option D)
      → k ≡ key
      → p d ≡ true
      → some (u d) ≡ s'
      → Matches k p u (some d) s'
  replaced-Matches k d p u s' same passed new = (
    d,
    ap (lookup (some d)) same ∙ lookup-key (some d),
    passed,
    ap (lookup s') same ∙ lookup-key s' ∙ sym new,
    λ j ne.
        lookup-other s' j (λ q. ne (q ∙ sym same))
        ∙ sym (lookup-other (some d) j (λ q. ne (q ∙ sym same))),
  )

  pub update_slot-matched :
      (b : Bool) (k : Text) (p : D → Bool) (u : D → D) (s s' : Option D)
      → eq_text k key ≡ b
      → update_slot b p u s ≡ (reply true, s')
      → Matches k p u s s'
  update_slot-matched false k p u s s' e h = absurd (cc)
  update_slot-matched true k p u none s' e h = absurd (cc)
  update_slot-matched true k p u (some d) s' e h = elim (Bool-cases (p d)) [
    | inl passed ↦
        replaced-Matches k d p u s' (eq_text_sound k key e) passed
          (ap (λ x. x.1) (ap (λ b. replace_if b (u d) (some d)) (sym passed) ∙ h))
    | inr missed ↦ absurd (cc (ap (λ b. replace_if b (u d) (some d)) (sym missed) ∙ h))
  ]

  pub update_slot-unmatched :
      (b : Bool) (k : Text) (p : D → Bool) (u : D → D) (s s' : Option D)
      → eq_text k key ≡ b
      → update_slot b p u s ≡ (reply false, s')
      → (s' ≡ s) × ((d : D) → lookup s k ≡ some d → p d ≡ false)
  update_slot-unmatched false k p u s s' e h =
      (sym (ap (λ x. x.1) h), λ d f. absurd (cc (sym f ∙ ap (λ b. lookup_at b s) e)))
  update_slot-unmatched true k p u none s' e h =
      (sym (ap (λ x. x.1) h), λ d f. absurd (cc (sym f ∙ ap (λ b. lookup_at b none) e)))
  update_slot-unmatched true k p u (some x) s' e h = elim (Bool-cases (p x)) [
    | inl passed ↦ absurd (cc (ap (λ b. replace_if b (u x) (some x)) (sym passed) ∙ h))
    | inr missed ↦ (
      sym (ap (λ y. y.1) (ap (λ b. replace_if b (u x) (some x)) (sym missed) ∙ h)),
      λ d f.
          let same : x ≡ d = ground (arith, (lookup-some (some x) k d f).1) in rw (← same) missed,
    )
  ]

  pub find_slot-law :
      (k : Text) (s : Option D) (o : Option D) → Reply.reply (lookup s k) ≡ reply o → o ≡ lookup s k
  find_slot-law k s o h = ground arith

  abbrev pub slot : Collection Text D
  slot = record {
    Store = Option D;
    get = λ s k. lookup s k;
    find_one = λ k s. reply (lookup s k);
    find_one_law = find_slot-law;
    insert_one = λ k d s. insert_slot (eq_text k key) d s;
    insert_one_law = λ k d s s' h. insert_slot-law (eq_text k key) k d s s' refl h;
    update_one = λ k p u s. update_slot (eq_text k key) p u s;
    update_one_matched = λ k p u s s' h. update_slot-matched (eq_text k key) k p u s s' refl h;
    update_one_unmatched = λ k p u s s' h. update_slot-unmatched (eq_text k key) k p u s s' refl h;
  }

  abbrev swap_if : Bool → D → Option D → Reply (Option D) × Option D
  swap_if true d s = (reply (some d), some d)
  swap_if false d s = (reply none, s)

  abbrev swap : (Text → D → Bool) → (D → D) → Option D → Reply (Option D) × Option D
  swap p u none = (reply none, none)
  swap p u (some d) = swap_if (p key d) (u d) (some d)

  pub swap-found :
      (p : Text → D → Bool) (rank : D → List ℕ) (u : D → D) (s s' : Option D) (d' : D)
      → swap p u s ≡ (reply (some d'), s')
      → (k : Text) × (d : D) × (lookup s k ≡ some d)
        × (p k d ≡ true)
        × (d' ≡ u d)
        × (lookup s' k ≡ some d')
        × ((j : Text) → j ≢ k → lookup s' j ≡ lookup s j)
        × ((j : Text) (e : D)
            → lookup s j ≡ some e
            → p j e ≡ true
            → text_before (rank e) (rank d) ≡ false)
  swap-found p rank u none s' d' h = absurd (cc)
  swap-found p rank u (some d) s' d' h = elim (Bool-cases (p key d)) [
    | inr missed ↦ absurd (cc (ap (λ b. swap_if b (u d) (some d)) (sym missed) ∙ h))
    | inl passed ↦
        let k = ap (λ b. swap_if b (u d) (some d)) (sym passed) ∙ h in
        let new : some (u d) ≡ s' = ap (λ x. x.1) k in
        let same : u d ≡ d' =
          let r : Reply.reply (some (u d)) ≡ reply (some d') = ap (λ x. x.0) k in ground arith in
        (
          key,
          d,
          lookup-key (some d),
          passed,
          sym same,
          lookup-key s' ∙ sym new ∙ ap some same,
          λ j ne. lookup-other s' j ne ∙ sym (lookup-other (some d) j ne),
          λ j e f g.
              let one : d ≡ e = ground (arith, (lookup-some (some d) j e f).1) in
              ap (λ x. text_before (rank x) (rank d)) (sym one) ∙ text_before_irrefl (rank d),
        )
  ]

  pub swap-none :
      (p : Text → D → Bool) (rank : D → List ℕ) (u : D → D) (s s' : Option D)
      → swap p u s ≡ (reply none, s')
      → (s' ≡ s) × ((j : Text) (e : D) → lookup s j ≡ some e → p j e ≡ false)
  swap-none p rank u none s' h =
      (sym (ap (λ x. x.1) h), λ j e f. absurd (cc ((lookup-some none j e f).1)))
  swap-none p rank u (some d) s' h = elim (Bool-cases (p key d)) [
    | inl passed ↦ absurd (cc (ap (λ b. swap_if b (u d) (some d)) (sym passed) ∙ h))
    | inr missed ↦ (
      sym (ap (λ x. x.1) (ap (λ b. swap_if b (u d) (some d)) (sym missed) ∙ h)),
      λ j e f.
          let (at, is_d) = lookup-some (some d) j e f in
          let same : d ≡ e = ground arith in (λ i. p (at i) (sym same i)) ∙ missed,
    )
  ]

  abbrev pub slot_claims : FindAndUpdate slot
  slot_claims = record {
    find_one_and_update = λ p rank u s. swap p u s;
    find_one_and_update_found = swap-found;
    find_one_and_update_none = swap-none;
  }
