-- ===== src/Tests/Cell.antt =====
-- A collection with room for one document, under any key, and with a second index.
use ai_go.Common.{
  Bool, true, false, ◌&&◌, ◌≡◌, refl, sym, ap, ◌∙◌, ◌≢◌, inl, inr, Option, none, some, arith,
  Bool-cases,
}
use ai_go.Mongo.{Collection, Indexed, Reply, reply, no_reply}

module _ {K D : Type 0} (same : K → K → Bool) (sound : (a b : K) → same a b ≡ true → a ≡ b)
    (same_refl : (a : K) → same a a ≡ true) where
  abbrev choose : Bool → D → Option D
  choose true d = some d
  choose false d = none

  abbrev lookup : Option (K × D) → K → Option D
  lookup none k = none
  lookup (some (j, d)) k = choose (same j k) d

  lookup_self : (k : K) (d : D) → lookup (some (k, d)) k ≡ some d
  lookup_self k d = ap (λ b. choose b d) (same_refl k)

  lookup-some : (j k : K) (d e : D) → lookup (some (j, d)) k ≡ some e → (j ≡ k) × (d ≡ e)
  lookup-some j k d e h = elim (Bool-cases (same j k)) [
    | inl is ↦
        (sound j k is, let h' : some d ≡ some e = ap (λ b. choose b d) (sym is) ∙ h in ground arith)
    | inr other ↦ absurd (cc (ap (λ b. choose b d) (sym other) ∙ h))
  ]

  lookup-other : (j k : K) (d : D) → k ≢ j → lookup (some (j, d)) k ≡ none
  lookup-other j k d ne = elim (Bool-cases (same j k)) [
    | inl is ↦ absurd (ne (sym (sound j k is)))
    | inr other ↦ ap (λ b. choose b d) other
  ]

  abbrev insert : K → D → Option (K × D) → Reply Bool × Option (K × D)
  insert k d none = (reply true, some (k, d))
  insert k d (some x) = (no_reply, some x)

  pub insert-law :
      (k : K) (d : D) (s s' : Option (K × D))
      → insert k d s ≡ (reply true, s')
      → (lookup s k ≡ none) × (lookup s' k ≡ some d) × ((j : K) → j ≢ k → lookup s' j ≡ lookup s j)
  insert-law k d (some x) s' h = absurd (cc)
  insert-law k d none s' h =
      let new : some (k, d) ≡ s' = ap (λ x. x.1) h in
      (
        refl,
        (λ i. lookup (sym new i) k) ∙ lookup_self k d,
        λ j ne. (λ i. lookup (sym new i) j) ∙ lookup-other k j d ne,
      )

  abbrev replace : Bool → K → D → D → Reply Bool × Option (K × D)
  replace true j old new = (reply true, some (j, new))
  replace false j old new = (reply false, some (j, old))

  abbrev update : K → (D → Bool) → (D → D) → Option (K × D) → Reply Bool × Option (K × D)
  update k p u none = (reply false, none)
  update k p u (some (j, d)) = replace (same j k && p d) j d (u d)

  pub update-matched :
      (k : K) (p : D → Bool) (u : D → D) (s s' : Option (K × D))
      → update k p u s ≡ (reply true, s')
      → (d : D) × (lookup s k ≡ some d)
        × (p d ≡ true)
        × (lookup s' k ≡ some (u d))
        × ((j : K) → j ≢ k → lookup s' j ≡ lookup s j)
  update-matched k p u none s' h = absurd (cc)
  update-matched k p u (some (j, d)) s' h = elim (Bool-cases (same j k && p d)) [
    | inr missed ↦ absurd (cc (ap (λ b. replace b j d (u d)) (sym missed) ∙ h))
    | inl hit ↦
        let h' = ap (λ b. replace b j d (u d)) (sym hit) ∙ h in
        let new : some (j, u d) ≡ s' = ap (λ x. x.1) h' in
        let is : j ≡ k = sound j k (ground arith) in
        (
          d,
          (λ i. lookup (some (is i, d)) k) ∙ lookup_self k d,
          ground arith,
          (λ i. lookup (sym new i) k) ∙ (λ i. lookup (some (is i, u d)) k) ∙ lookup_self k (u d),
          λ i ne.
              (λ x. lookup (sym new x) i)
              ∙ lookup-other j i (u d) (λ e. ne (e ∙ is))
              ∙ sym (lookup-other j i d (λ e. ne (e ∙ is))),
        )
  ]

  pub update-unmatched :
      (k : K) (p : D → Bool) (u : D → D) (s s' : Option (K × D))
      → update k p u s ≡ (reply false, s')
      → (s' ≡ s) × ((d : D) → lookup s k ≡ some d → p d ≡ false)
  update-unmatched k p u none s' h = (sym (ap (λ x. x.1) h), λ d e. absurd (cc))
  update-unmatched k p u (some (j, d)) s' h = elim (Bool-cases (same j k && p d)) [
    | inl hit ↦ absurd (cc (ap (λ b. replace b j d (u d)) (sym hit) ∙ h))
    | inr missed ↦ (
      sym (ap (λ x. x.1) (ap (λ b. replace b j d (u d)) (sym missed) ∙ h)),
      λ e found.
          let (is, one) = lookup-some j k d e found in
          let at : same j k ≡ true = ap (λ x. same x k) is ∙ same_refl k in
          ap p (sym one) ∙ ground arith,
    )
  ]

  pub find_one-law :
      (k : K) (s : Option (K × D)) (o : Option D)
      → Reply.reply (lookup s k) ≡ reply o
      → o ≡ lookup s k
  find_one-law k s o h = ground arith

  abbrev pub cell : Collection K D
  cell = record {
    Store = Option (K × D);
    get = λ s k. lookup s k;
    find_one = λ k s. reply (lookup s k);
    find_one_law = find_one-law;
    insert_one = λ k d s. insert k d s;
    insert_one_law = insert-law;
    update_one = λ k p u s. update k p u s;
    update_one_matched = update-matched;
    update_one_unmatched = update-unmatched;
  }

  -- A sort that puts a key before itself is refused.
  abbrev answer : Bool → Bool → K → D → Reply (Option (K × D))
  answer true false k d = reply (some (k, d))
  answer true true k d = no_reply
  answer false b k d = reply none

  abbrev find : (K → D → Bool) → (K → K → Bool) → Option (K × D) → Reply (Option (K × D))
  find p before none = reply none
  find p before (some (k, d)) = answer (p k d) (before k k) k d

  answer-found :
      (a b : Bool) (j k : K) (d e : D)
      → answer a b j d ≡ reply (some (k, e))
      → (a ≡ true) × (b ≡ false) × (j ≡ k) × (d ≡ e)
  answer-found true false j k d e h =
      let h' : Path (K × D) (j, d) (k, e) = ground arith in
      (refl, refl, ap (λ x. x.0) h', ap (λ x. x.1) h')
  answer-found true true j k d e h = absurd (cc)
  answer-found false true j k d e h = absurd (cc)
  answer-found false false j k d e h = absurd (cc)

  answer-none : (a b : Bool) (j : K) (d : D) → answer a b j d ≡ reply none → a ≡ false
  answer-none true false j d h = absurd (cc)
  answer-none true true j d h = absurd (cc)
  answer-none false true j d h = refl
  answer-none false false j d h = refl

  pub find-found :
      (p : K → D → Bool) (before : K → K → Bool) (s : Option (K × D)) (k : K) (d : D)
      → find p before s ≡ reply (some (k, d))
      → (lookup s k ≡ some d)
        × (p k d ≡ true)
        × ((j : K) (e : D) → lookup s j ≡ some e → p j e ≡ true → before j k ≡ false)
  find-found p before none k d h = absurd (cc)
  find-found p before (some (j, x)) k d h =
      let (passed, last, at, is) = answer-found (p j x) (before j j) j k x d h in
      (
        (λ i. lookup (some (at i, is i)) k) ∙ lookup_self k d,
        (λ i. p (sym at i) (sym is i)) ∙ passed,
        λ l e found passes.
            let (one, same_document) = lookup-some j l x e found in
            (λ i. before (sym one i) (sym at i)) ∙ last,
      )

  pub find-none :
      (p : K → D → Bool) (before : K → K → Bool) (s : Option (K × D))
      → find p before s ≡ reply none
      → (k : K) (d : D) → lookup s k ≡ some d
      → p k d ≡ false
  find-none p before none h k d e = absurd (cc)
  find-none p before (some (j, x)) h k d e =
      let (at, is) = lookup-some j k x d e in
      (λ i. p (sym at i) (sym is i)) ∙ answer-none (p j x) (before j j) j x h

  abbrev unique : Reply Bool × Option (K × D) → Reply (Option Bool) × Option (K × D)
  unique (reply b, s) = (reply (some b), s)
  unique (no_reply, s) = (no_reply, s)

  pub unique-reply :
      (x : Reply Bool × Option (K × D)) (b : Bool) (s : Option (K × D))
      → unique x ≡ (reply (some b), s)
      → x ≡ (reply b, s)
  unique-reply (reply c, t) b s h = ground arith
  unique-reply (no_reply, t) b s h = absurd (cc)

  abbrev pub cell_index : Indexed cell
  cell_index = record {
    find_where = find;
    find_where_found = find-found;
    find_where_none = find-none;
    update_unique = λ k p u s. unique (update k p u s);
    update_unique_matched =
        λ k p u s s' h. update-matched k p u s s' (unique-reply (update k p u s) true s' h);
    update_unique_unmatched =
        λ k p u s s' h. (update-unmatched k p u s s' (unique-reply (update k p u s) false s' h)).0;
  }
