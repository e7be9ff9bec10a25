-- ===== src/Payments/Storage/Refinement.antt =====
-- The repository of internal/data/payment_repository.go against the contract of the services.
use mathlib.Core.Option
use mathlib.Core.Path.{subst}
use ai_go.Common.{
  Bool, true, false, ◌≡◌, refl, sym, ap, ◌∙◌, inl, inr, Option, none, some, arith, Bool-cases,
}
use ai_go.Common.Int.{ℤ, eqb_ℤ, eqb_ℤ_sound}
use ai_go.Common.Text.{Text, eq_text, eq_text_sound}
use ai_go.Common.Result.{ok}
use ai_go.Common.Clock.{Time}
use ai_go.Mongo.{Collection, Indexed, Reply, reply, no_reply}
use ai_go.Payments.Model.{
  Provider, pay_cores, PaymentProduct, PaymentOrder, pending, ProductPublishStatus, published,
  Receipt,
}
use ai_go.Payments.Rules.{is_published, invalid_pending}
use ai_go.Payments.Effects.{is_pending_sound}
use ai_go.Payments.Contract.{ReceiptKey, View, Orders, Laws}
use ai_go.Payments.Documents.{
  ProductKey, PaymentProductDocument, PaymentOrderDocument, to_product, to_order, to_receipt,
  order_document, bind_order,
}
use ai_go.Payments.Storage.{
  Database, Tables, payment_repository, read_as, read_balance, balance_of, is_provider_order,
  is_published_version, newer_version, no_sort, is_unbound, find_order, find_product, find_receipt,
  find_diamond_balance, find_order_by_provider_order, find_latest_published_product, create_order,
  create_order_reply, bind_pay_cores_provider_order,
}
use ai_go.Payments.Storage.Effects.{view, Orders-effect, mark_law, create_receipt_law, credit_law}
use ai_go.Payments.Storage.Products.{create_product_law, latest_newest, latest_none}
use ai_go.Payments.Storage.Credits.{append_law}

read_as-eq-ok :
    {A B : Type 0} (f : A → B) (r : Reply (Option A)) (o : Option B)
    → read_as f r ≡ ok o
    → (d : Option A) × (r ≡ reply d) × (o ≡ Option.map f d)
read_as-eq-ok f (reply none) o h = (none, refl, cc)
read_as-eq-ok f (reply (some d)) o h = (some d, refl, cc)
read_as-eq-ok f no_reply o h = absurd (cc)

is_published_sound : (p : ProductPublishStatus) → is_published p ≡ true → p ≡ published
is_published_sound ProductPublishStatus.draft h = absurd (cc)
is_published_sound published h = refl
is_published_sound (ProductPublishStatus.other_publish_status t) h = absurd (cc)

module _ (digest : Text → Text) (db : Database) where
  order_id :
      (s : Tables db) (id : Text) (o : PaymentOrder)
      → View.order (view digest db) s id ≡ some o
      → o.id ≡ id
  order_id s id o h = go (Collection.get db.orders s.orders id) h
    where
      go : (d : Option PaymentOrderDocument) → Option.map (to_order id) d ≡ some o → o.id ≡ id
      go none e = absurd (cc)
      go (some d) e = let same : to_order id d ≡ o = ground arith in ap PaymentOrder.id (sym same)

  find_order_law :
      (id : Text) (s t : Tables db) (o : Option PaymentOrder)
      → find_order digest true db id s ≡ (ok o, t)
      → (t ≡ s) × (o ≡ View.order (view digest db) s id)
  unfolding find_order
  find_order_law id s t o h =
      let (d, e, k) =
        read_as-eq-ok (to_order id) (Collection.find_one db.orders id s.orders) o
          (ap (λ r. r.0) h) in
      (
        sym (ap (λ r. r.1) h),
        k ∙ ap (Option.map (to_order id)) (Collection.find_one_law db.orders id s.orders d e),
      )

  find_product_law :
      (id : Text) (version : ℤ) (s t : Tables db) (o : Option PaymentProduct)
      → find_product digest true db id version s ≡ (ok o, t)
      → (t ≡ s) × (o ≡ View.product (view digest db) s id version)
  unfolding find_product
  find_product_law id version s t o h =
      let k : ProductKey = record { product_id = id; version = version } in
      let (d, e, m) =
        read_as-eq-ok (to_product k) (Collection.find_one db.products k s.products) o
          (ap (λ r. r.0) h) in
      (
        sym (ap (λ r. r.1) h),
        m ∙ ap (Option.map (to_product k)) (Collection.find_one_law db.products k s.products d e),
      )

  find_receipt_law :
      (p : Provider) (x : Text) (s t : Tables db) (o : Option Receipt)
      → find_receipt digest true db p x s ≡ (ok o, t)
      → (t ≡ s)
        × (o
            ≡ View.receipt
                (view digest db)
                s
                (record { provider = p; external_transaction_id = x }))
  unfolding find_receipt
  find_receipt_law p x s t o h =
      let k : ReceiptKey = record { provider = p; external_transaction_id = x } in
      let (d, e, m) =
        read_as-eq-ok (to_receipt k) (Collection.find_one db.receipts k s.receipts) o
          (ap (λ r. r.0) h) in
      (
        sym (ap (λ r. r.1) h),
        m ∙ ap (Option.map (to_receipt k)) (Collection.find_one_law db.receipts k s.receipts d e),
      )

  balance_law :
      (u : Text) (s t : Tables db) (b : ℤ)
      → find_diamond_balance digest true db u s ≡ (ok b, t)
      → (t ≡ s) × (b ≡ View.balance (view digest db) s u)
  unfolding find_diamond_balance
  balance_law u s t b h = (
    sym (ap (λ r. r.1) h),
    go (Collection.find_one db.accounts u s.accounts) refl (ap (λ r. r.0) h),
  )
    where
      go :
          (y : Reply (Option _))
          → Collection.find_one db.accounts u s.accounts ≡ y
          → read_balance y ≡ ok b
          → b ≡ View.balance (view digest db) s u
      go no_reply e k = absurd (cc)
      go (reply o) e k =
          let read : b ≡ balance_of o = cc in
          read ∙ ap balance_of (Collection.find_one_law db.accounts u s.accounts o e)

  locate_law :
      (p : Provider) (id : Text) (s t : Tables db) (o : PaymentOrder)
      → find_order_by_provider_order digest true db p id s ≡ (ok (some o), t)
      → (View.order (view digest db) s o.id ≡ some o)
        × (o.provider ≡ p)
        × (o.provider_order_id ≡ id)
  unfolding find_order_by_provider_order
  locate_law p id s t o h =
      go (Indexed.find_where db.order_index (is_provider_order p id) no_sort s.orders) refl
        (ap (λ r. r.0) h)
    where
      go :
          (y : Reply (Option (Text × PaymentOrderDocument)))
          → Indexed.find_where db.order_index (is_provider_order p id) no_sort s.orders ≡ y
          → read_as (λ (x : Text × PaymentOrderDocument). to_order x.0 x.1) y ≡ ok (some o)
          → (View.order (view digest db) s o.id ≡ some o)
            × (o.provider ≡ p)
            × (o.provider_order_id ≡ id)
      go no_reply e k = absurd (cc)
      go (reply none) e k = absurd (cc)
      go (reply (some (key, d))) e k =
          let same : o ≡ to_order key d = ground arith in
          let (there, matched, least) =
            Indexed.find_where_found db.order_index (is_provider_order p id) no_sort s.orders key d
              e in
          let provider : d.provider ≡ p = eq_text_sound d.provider p (ground arith) in
          let provider_order : d.provider_order_id ≡ id =
            eq_text_sound d.provider_order_id id (ground arith) in
          (
            (λ i. View.order (view digest db) s (PaymentOrder.id (same i)))
                ∙ ap (Option.map (to_order key)) there
                ∙ ap some (sym same),
            ap PaymentOrder.provider same ∙ provider,
            ap PaymentOrder.provider_order_id same ∙ provider_order,
          )

  latest_found :
      (id : Text) (s t : Tables db) (o : PaymentProduct)
      → find_latest_published_product digest true db id s ≡ (ok (some o), t)
      → (o.id ≡ id)
        × (o.publish_status ≡ published)
        × (View.product (view digest db) s id o.version ≡ some o)
  unfolding find_latest_published_product
  latest_found id s t o h =
      go (Indexed.find_where db.product_index (is_published_version id) newer_version s.products)
        refl (ap (λ r. r.0) h)
    where
      go :
          (y : Reply (Option (ProductKey × PaymentProductDocument)))
          → Indexed.find_where db.product_index (is_published_version id) newer_version s.products
            ≡ y
          → read_as (λ (x : ProductKey × PaymentProductDocument). to_product x.0 x.1) y
            ≡ ok (some o)
          → (o.id ≡ id)
            × (o.publish_status ≡ published)
            × (View.product (view digest db) s id o.version ≡ some o)
      go no_reply e k = absurd (cc)
      go (reply none) e k = absurd (cc)
      go (reply (some (key, d))) e k =
          let same : o ≡ to_product key d = ground arith in
          let (there, matched, least) =
            Indexed.find_where_found db.product_index (is_published_version id) newer_version
              s.products key d e in
          let named : key.product_id ≡ id = eq_text_sound key.product_id id (ground arith) in
          let out : d.publish_status ≡ published =
            is_published_sound d.publish_status (ground arith) in
          (
            ap PaymentProduct.id same ∙ named,
            ap PaymentProduct.publish_status same ∙ out,
            (λ i. View.product (view digest db) s (sym named i) (PaymentProduct.version (same i)))
                ∙ ap (Option.map (to_product key)) there
                ∙ ap some (sym same),
          )

  create_order_reply-Orders :
      (o : PaymentOrder) (s t : Tables db) (y : Reply (Option PaymentProductDocument))
      → Collection.find_one db.products
          (record { product_id = o.product_id; version = o.product_version })
          s.products
        ≡ y
      → create_order_reply digest true db o y s ≡ (ok tt, t)
      → (p : PaymentProduct) × (View.product (view digest db) s o.product_id o.product_version
          ≡ some p)
        × (p.publish_status ≡ published)
        × (p.diamond_amount ≡ o.diamond_amount)
        × (p.amount_cents ≡ o.amount_cents)
        × (p.currency ≡ o.currency)
        × Orders (view digest db) s t o.id none o
  unfolding create_order_reply
  create_order_reply-Orders o s t no_reply e h = absurd (cc)
  create_order_reply-Orders o s t (reply none) e h = absurd (cc)
  create_order_reply-Orders o s t (reply (some d)) e h =
      let k : ProductKey = record { product_id = o.product_id; version = o.product_version } in
      let x = Collection.insert_one db.orders o.id (order_document o) s.orders in
      let facts : (is_published d.publish_status ≡ true)
          × (eqb_ℤ d.diamond_amount o.diamond_amount ≡ true)
          × (eqb_ℤ d.amount_cents o.amount_cents ≡ true)
          × (eq_text d.currency o.currency ≡ true)
          × (x.0 ≡ reply true)
          × (t ≡ record s { orders = x.1 }) =
        ground arith in
      let (old, new, others) =
        Collection.insert_one_law db.orders o.id (order_document o) s.orders x.1
          (λ i. (facts.4 i, x.1)) in
      (
        to_product k d,
        ap (Option.map (to_product k))
            (sym (Collection.find_one_law db.products k s.products (some d) e)),
        is_published_sound d.publish_status facts.0,
        eqb_ℤ_sound d.diamond_amount o.diamond_amount facts.1,
        eqb_ℤ_sound d.amount_cents o.amount_cents facts.2,
        eq_text_sound d.currency o.currency facts.3,
        subst (λ t'. Orders (view digest db) s t' o.id none o) (sym facts.5)
            (Orders-effect digest db o.id s x.1 none (order_document o) old new others),
      )

  create_order_law :
      (o : PaymentOrder) (s t : Tables db)
      → create_order digest true db o s ≡ (ok tt, t)
      → (p : PaymentProduct) × (View.product (view digest db) s o.product_id o.product_version
          ≡ some p)
        × (p.publish_status ≡ published)
        × (p.diamond_amount ≡ o.diamond_amount)
        × (p.amount_cents ≡ o.amount_cents)
        × (p.currency ≡ o.currency)
        × Orders (view digest db) s t o.id none o
  unfolding create_order
  create_order_law o s t h = elim (Bool-cases (invalid_pending o)) [
    | inl bad ↦ absurd (ground arith)
    | inr good ↦
        create_order_reply-Orders o s t
          (Collection.find_one db.products
            (record { product_id = o.product_id; version = o.product_version }) s.products)
          refl (rw good at h)
  ]

  bind_facts :
      (id provisional provider_order_id : Text) (at : Time) (s t : Tables db) (b : Bool)
      → bind_pay_cores_provider_order digest true db id provisional provider_order_id at s
        ≡ (ok b, t)
      → ((Indexed.update_unique db.order_index id
            (is_unbound provisional)
            (bind_order provider_order_id at)
            s.orders).0
          ≡ reply (some b))
        × (t ≡ record s {
          orders =
              (Indexed.update_unique db.order_index id
                (is_unbound provisional)
                (bind_order provider_order_id at)
                s.orders).1;
        })
  unfolding bind_pay_cores_provider_order
  bind_facts id provisional provider_order_id at s t b h = ground arith

  bind_law :
      (id provisional provider_order_id : Text) (at : Time) (s t : Tables db)
      → bind_pay_cores_provider_order digest true db id provisional provider_order_id at s
        ≡ (ok true, t)
      → (o : PaymentOrder) × (o.status ≡ pending)
        × (o.provider ≡ pay_cores)
        × (o.provider_order_id ≡ provisional)
        × Orders
            (view digest db)
            s
            t
            id
            (some o)
            (record o { provider_order_id = provider_order_id; updated_at = at })
  bind_law id provisional provider_order_id at s t h =
      let p = is_unbound provisional in
      let u = bind_order provider_order_id at in
      let x = Indexed.update_unique db.order_index id p u s.orders in
      let (matched, moved) = bind_facts id provisional provider_order_id at s t true h in
      let (d, old, meets, new, others) =
        Indexed.update_unique_matched db.order_index id p u s.orders x.1 (λ i. (matched i, x.1)) in
      (
        to_order id d,
        is_pending_sound d.status (ground arith),
        eq_text_sound d.provider pay_cores (ground arith),
        eq_text_sound d.provider_order_id provisional (ground arith),
        subst
            (λ t'.
              Orders (view digest db) s t' id (some (to_order id d))
                (record (to_order id d) { provider_order_id = provider_order_id; updated_at = at }))
            (sym moved) (Orders-effect digest db id s x.1 (some d) (u d) old new others),
      )

  bind_miss :
      (id provisional provider_order_id : Text) (at : Time) (s t : Tables db)
      → bind_pay_cores_provider_order digest true db id provisional provider_order_id at s
        ≡ (ok false, t)
      → t ≡ s
  bind_miss id provisional provider_order_id at s t h =
      let p = is_unbound provisional in
      let u = bind_order provider_order_id at in
      let x = Indexed.update_unique db.order_index id p u s.orders in
      let (missed, moved) = bind_facts id provisional provider_order_id at s t false h in
      moved
      ∙ ap (λ (a : Collection.Store db.orders). record s { orders = a })
          (Indexed.update_unique_unmatched db.order_index id p u s.orders x.1
            (λ i. (missed i, x.1)))

  -- Over MongoDB, every operation of the payment repository that succeeds in a transaction has the
  -- effect on the stored facts that its callers count on, and no other, its six reads leave the
  -- store alone whether they succeed or not, and the current product is the published one of the
  -- highest version.
  pub payment_repository-Laws : Laws (view digest db) (payment_repository digest true db)
  unfolding find_order find_receipt find_diamond_balance find_order_by_provider_order
      find_latest_published_product find_product
  payment_repository-Laws = record {
    order_id = order_id;
    find_order_Keeps = λ id s. refl;
    find_receipt_Keeps = λ p x s. refl;
    balance_Keeps = λ u s. refl;
    find_product_Keeps = λ id version s. refl;
    latest_Keeps = λ id s. refl;
    locate_Keeps = λ p id s. refl;
    create_product_law = create_product_law digest db;
    find_order_law = find_order_law;
    locate_law = locate_law;
    locate_same = λ p id s t o h. sym (ap (λ r. r.1) h);
    find_receipt_law = find_receipt_law;
    balance_law = balance_law;
    mark_law = mark_law digest db;
    create_receipt_law = create_receipt_law digest db;
    credit_law = credit_law digest db;
    append_law = append_law digest db;
    create_order_law = create_order_law;
    find_product_law = find_product_law;
    latest_law = λ id s t o h. sym (ap (λ r. r.1) h);
    latest_found = latest_found;
    latest_newest = latest_newest digest db;
    latest_none = latest_none digest db;
    bind_law = bind_law;
    bind_miss = bind_miss;
  }
