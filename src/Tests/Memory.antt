-- ===== src/Tests/Memory.antt =====
-- A collection in memory, and a transaction that takes back what an error leaves: both keep the
-- laws that the repositories count on.
use ai_go.Common.{
  Bool, true, false, ◌≡◌, refl, sym, ap, ◌∙◌, ◌≢◌, inl, inr, Option, none, some, arith, Bool-cases,
}
use ai_go.Common.Result.{Result, ok, err}
use ai_go.Mongo.{Responds, Collection, Upsert, Indexed, Reply, reply, no_reply, Transaction}

pub no_answer : {A : Type 0} (a : A) → ¬ (Reply.reply a ≡ no_reply)
no_answer a h = absurd (cc)

module _ {K D : Type 0} (same : K → K → Bool) (sound : (a b : K) → same a b ≡ true → a ≡ b)
    (same_refl : (a : K) → same a a ≡ true) where
  abbrev choose : Bool → Option D → Option D → Option D
  choose true a b = a
  choose false a b = b

  abbrev put : K → D → (K → Option D) → K → Option D
  put k d s j = choose (same k j) (some d) (s j)

  put-same : (k : K) (d : D) (s : K → Option D) → put k d s k ≡ some d
  put-same k d s = ap (λ b. choose b (some d) (s k)) (same_refl k)

  put-other : (k j : K) (d : D) (s : K → Option D) → j ≢ k → put k d s j ≡ s j
  put-other k j d s ne = elim (Bool-cases (same k j)) [
    | inl e ↦ absurd (ne (sym (sound k j e)))
    | inr e ↦ ap (λ b. choose b (some d) (s j)) e
  ]

  abbrev insert_at : Option D → K → D → (K → Option D) → Reply Bool × (K → Option D)
  insert_at none k d s = (reply true, put k d s)
  insert_at (some x) k d s = (reply false, s)

  pub insert_at-law :
      (o : Option D) (k : K) (d : D) (s s' : K → Option D)
      → s k ≡ o
      → insert_at o k d s ≡ (reply true, s')
      → (s k ≡ none) × (s' k ≡ some d) × ((j : K) → j ≢ k → s' j ≡ s j)
  insert_at-law (some x) k d s s' e h = absurd (cc)
  insert_at-law none k d s s' e h =
      let same_store : put k d s ≡ s' = ap (λ x. x.1) h in
      (
        e,
        sym (λ i. same_store i k) ∙ put-same k d s,
        λ j ne. sym (λ i. same_store i j) ∙ put-other k j d s ne,
      )

  abbrev update_if : Bool → K → D → (K → Option D) → Reply Bool × (K → Option D)
  update_if true k d s = (reply true, put k d s)
  update_if false k d s = (reply false, s)

  abbrev update_at :
      Option D → K → (D → Bool) → (D → D) → (K → Option D) → Reply Bool × (K → Option D)
  update_at none k p u s = (reply false, s)
  update_at (some d) k p u s = update_if (p d) k (u d) s

  abbrev Matched : K → (D → Bool) → (D → D) → (K → Option D) → (K → Option D) → Type 0
  Matched k p u s s' =
      (d : D) × (s k ≡ some d) × (p d ≡ true) × (s' k ≡ some (u d)) × ((j : K) → j ≢ k → s' j ≡ s j)

  update_if-Matched :
      (b : Bool) (k : K) (d : D) (p : D → Bool) (u : D → D) (s s' : K → Option D)
      → s k ≡ some d
      → p d ≡ b
      → update_if b k (u d) s ≡ (reply true, s')
      → Matched k p u s s'
  update_if-Matched false k d p u s s' e g h = absurd (cc)
  update_if-Matched true k d p u s s' e g h =
      let same_store : put k (u d) s ≡ s' = ap (λ x. x.1) h in
      (
        d,
        e,
        g,
        sym (λ i. same_store i k) ∙ put-same k (u d) s,
        λ j ne. sym (λ i. same_store i j) ∙ put-other k j (u d) s ne,
      )

  pub update_at-Matched :
      (o : Option D) (k : K) (p : D → Bool) (u : D → D) (s s' : K → Option D)
      → s k ≡ o
      → update_at o k p u s ≡ (reply true, s')
      → Matched k p u s s'
  update_at-Matched none k p u s s' e h = absurd (cc)
  update_at-Matched (some d) k p u s s' e h = update_if-Matched (p d) k d p u s s' e refl h

  update_if-unmatched :
      (b : Bool) (k : K) (d x : D) (p : D → Bool) (s s' : K → Option D)
      → s k ≡ some x
      → p x ≡ b
      → update_if b k d s ≡ (reply false, s')
      → (s' ≡ s) × ((y : D) → s k ≡ some y → p y ≡ false)
  update_if-unmatched true k d x p s s' e g h = absurd (cc)
  update_if-unmatched false k d x p s s' e g h = (
    sym (ap (λ z. z.1) h),
    λ y f. let same_document : y ≡ x = ground (arith, sym f ∙ e) in rw same_document g,
  )

  pub update_at-unmatched :
      (o : Option D) (k : K) (p : D → Bool) (u : D → D) (s s' : K → Option D)
      → s k ≡ o
      → update_at o k p u s ≡ (reply false, s')
      → (s' ≡ s) × ((y : D) → s k ≡ some y → p y ≡ false)
  update_at-unmatched none k p u s s' e h = (sym (ap (λ z. z.1) h), λ y f. absurd (cc))
  update_at-unmatched (some d) k p u s s' e h = update_if-unmatched (p d) k (u d) d p s s' e refl h

  pub find_one-law :
      (k : K) (s : K → Option D) (o : Option D) → Reply.reply (s k) ≡ reply o → o ≡ s k
  find_one-law k s o h = ground arith

  abbrev pub memory : Collection K D
  memory = record {
    Store = K → Option D;
    get = λ s k. s k;
    find_one = λ k s. reply (s k);
    find_one_law = find_one-law;
    insert_one = λ k d s. insert_at (s k) k d s;
    insert_one_law = λ k d s s' h. insert_at-law (s k) k d s s' refl h;
    update_one = λ k p u s. update_at (s k) k p u s;
    update_one_matched = λ k p u s s' h. update_at-Matched (s k) k p u s s' refl h;
    update_one_unmatched = λ k p u s s' h. update_at-unmatched (s k) k p u s s' refl h;
  }

  insert_at-none :
      (o : Option D) (k : K) (d : D) (s : K → Option D)
      → o ≡ none
      → (insert_at o k d s).0 ≡ reply true
  insert_at-none none k d s e = refl
  insert_at-none (some x) k d s e = absurd (cc)

  update_if-answer : (b : Bool) (k : K) (d : D) (s : K → Option D) → (update_if b k d s).0 ≡ reply b
  update_if-answer true k d s = refl
  update_if-answer false k d s = refl

  update_at-some :
      (o : Option D) (k : K) (p : D → Bool) (u : D → D) (s : K → Option D) (d : D)
      → o ≡ some d
      → (update_at o k p u s).0 ≡ reply (p d)
  update_at-some none k p u s d e = absurd (cc)
  update_at-some (some x) k p u s d e =
      let same : x ≡ d = ground arith in
      update_if-answer (p x) k (u x) s ∙ ap (λ y. Reply.reply (p y)) same

  update_at-none :
      (o : Option D) (k : K) (p : D → Bool) (u : D → D) (s : K → Option D)
      → o ≡ none
      → (update_at o k p u s).0 ≡ reply false
  update_at-none none k p u s e = refl
  update_at-none (some x) k p u s e = absurd (cc)

  pub memory-Responds : Responds memory
  memory-Responds = record {
    finds = λ k s. refl;
    inserts = λ k d s e. insert_at-none (s k) k d s e;
    updates = λ k p u s d e. update_at-some (s k) k p u s d e;
    misses = λ k p u s e. update_at-none (s k) k p u s e;
  }

  pub upsert-law :
      (k : K) (u : Option D → D) (s s' : K → Option D) (d : D)
      → Path (Reply D × (K → Option D)) (reply (u (s k)), put k (u (s k)) s) (reply d, s')
      → (d ≡ u (s k)) × (s' k ≡ some d) × ((j : K) → j ≢ k → s' j ≡ s j)
  upsert-law k u s s' d h =
      let same_store : put k (u (s k)) s ≡ s' = ap (λ x. x.1) h in
      let replied : Reply.reply (u (s k)) ≡ reply d = ap (λ x. x.0) h in
      let same : d ≡ u (s k) = ground arith in
      (
        same,
        sym (λ i. same_store i k) ∙ put-same k (u (s k)) s ∙ ap some (sym same),
        λ j ne. sym (λ i. same_store i j) ∙ put-other k j (u (s k)) s ne,
      )

  abbrev pub memory_upsert : Upsert memory
  memory_upsert = record {
    find_one_and_upsert = λ k u s. (reply (u (s k)), put k (u (s k)) s);
    find_one_and_upsert_law = upsert-law;
  }

  -- A second index that never answers.
  abbrev pub memory_index : Indexed memory
  memory_index = record {
    find_where = λ p before s. no_reply;
    find_where_found = λ p before s k d h. absurd (no_answer (some (k, d)) (sym h));
    find_where_none = λ p before s h. absurd (no_answer none (sym h));
    update_unique = λ k p u s. (no_reply, s);
    update_unique_matched = λ k p u s s' h. absurd (no_answer (some true) (sym (ap (λ x. x.0) h)));
    update_unique_unmatched =
        λ k p u s s' h. absurd (no_answer (some false) (sym (ap (λ x. x.0) h)));
  }

module _ {S E A : Type 0} where
  abbrev settle : Result E A × S → S → Result E A × S
  settle (ok a, t) s = (ok a, t)
  settle (err e, t) s = (err e, s)

  pub settle-ok : (x : Result E A × S) (s t : S) (a : A) → settle x s ≡ (ok a, t) → x ≡ (ok a, t)
  settle-ok (ok b, u) s t a h = h
  settle-ok (err e, u) s t a h = absurd (cc)

  pub settle-err : (x : Result E A × S) (s t : S) (e : E) → settle x s ≡ (err e, t) → t ≡ s
  settle-err (ok b, u) s t e h = absurd (cc)
  settle-err (err f, u) s t e h = sym (ap (λ z. z.1) h)

  abbrev pub transaction : {lost : E} → Transaction S E lost A
  transaction = record {
    run = λ op s. settle (op s) s;
    commits = λ op s t a h. settle-ok (op s) s t a h;
    aborts = λ op s t e h. inl (settle-err (op s) s t e h);
  }
