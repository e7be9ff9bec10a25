-- ===== src/Payments/Storage/Products.antt =====
-- The products of internal/data/payment_repository.go: what is stored, and which version is current.
use mathlib.Core.Option
use mathlib.Core.Path.{subst}
use ai_go.Common.{
  true, false, ◌≡◌, ◌≢◌, ◌⊎◌, refl, sym, ap, ◌∙◌, inl, inr, Option, none, some, arith, not, ◌&&◌,
}
use ai_go.Common.Int.{ℤ, ◌≤ℤ◌}
use ai_go.Common.Text.{Text, eq_text_refl}
use ai_go.Common.Result.{ok}
use ai_go.Mongo.{Collection, Indexed, Reply, reply, no_reply}
use ai_go.Payments.Model.{PaymentProduct, ProductPublishStatus, draft, published}
use ai_go.Payments.Rules.{is_draft, is_published, invalid_product}
use ai_go.Payments.Contract.{View, Products, IsSellable}
use ai_go.Payments.Documents.{
  ProductKey, PaymentProductDocument, product_key, product_document, to_product,
}
use ai_go.Payments.Storage.{
  Database, Tables, read_as, is_published_version, newer_version, create_product,
  find_latest_published_product,
}
use ai_go.Payments.Storage.Effects.{view}

status_known :
    (p : ProductPublishStatus)
    → (not (is_draft p) && not (is_published p)) ≡ false
    → (p ≡ draft) ⊎ (p ≡ published)
status_known draft h = inl refl
status_known published h = inr refl
status_known (ProductPublishStatus.other_publish_status t) h = absurd (cc)

invalid_product-IsSellable : (p : PaymentProduct) → invalid_product p ≡ false → IsSellable p
unfolding invalid_product
invalid_product-IsSellable p h = record {
  named = ground arith;
  versioned = ground arith;
  grants = ground arith;
  status = status_known p.publish_status (ground arith);
}

module _ (digest : Text → Text) (db : Database) where
  pub create_product_law :
      (p : PaymentProduct) (s t : Tables db)
      → create_product digest true db p s ≡ (ok tt, t)
      → IsSellable p × Products (view digest db) s t p
  unfolding create_product
  create_product_law p s t h =
      let k = product_key p in
      let x = Collection.insert_one db.products k (product_document p) s.products in
      let facts : (invalid_product p ≡ false)
          × (x.0 ≡ reply true)
          × (t ≡ record s { products = x.1 }) =
        ground arith in
      let (old, new, others) =
        Collection.insert_one_law db.products k (product_document p) s.products x.1
          (λ i. (facts.1 i, x.1)) in
      (
        invalid_product-IsSellable p facts.0,
        subst (λ t'. Products (view digest db) s t' p) (sym facts.2)
            (record {
              no_product = ap (Option.map (to_product k)) old;
              new_product = ap (Option.map (to_product k)) new;
              other_products = λ id version ne.
                  ap (Option.map (to_product (record { product_id = id; version = version }))) (
                    others (record { product_id = id; version = version })
                      (λ e. ne (ap ProductKey.product_id e, ap ProductKey.version e)));
              same_orders = refl;
              same_receipts = refl;
              same_balances = refl;
              same_entries = refl;
            }),
      )

  abbrev read_latest : Tables db → Text → Reply (Option (ProductKey × PaymentProductDocument))
  read_latest s id =
      Indexed.find_where db.product_index (is_published_version id) newer_version s.products

  is_published_version-true :
      (id : Text) (version : ℤ) (d : PaymentProductDocument)
      → d.publish_status ≡ published
      → is_published_version id (record { product_id = id; version = version }) d ≡ true
  is_published_version-true id version d out = rw (eq_text_refl id) (ap is_published out)

  pub latest_newest :
      (id : Text) (s t : Tables db) (o : PaymentProduct)
      → find_latest_published_product digest true db id s ≡ (ok (some o), t)
      → (version : ℤ) (q : PaymentProduct) → View.product (view digest db) s id version ≡ some q
      → q.publish_status ≡ published
      → version ≤ℤ o.version
  unfolding find_latest_published_product
  latest_newest id s t o h version q there out =
      go (read_latest s id) refl (ap (λ r. r.0) h)
        (Collection.get db.products s.products (record { product_id = id; version = version })) refl
        there
    where
      go :
          (y : Reply (Option (ProductKey × PaymentProductDocument)))
          → read_latest s id ≡ y
          → read_as (λ (x : ProductKey × PaymentProductDocument). to_product x.0 x.1) y
            ≡ ok (some o)
          → (z : Option PaymentProductDocument)
          → Collection.get db.products s.products (record { product_id = id; version = version })
            ≡ z
          → Option.map (to_product (record { product_id = id; version = version })) z ≡ some q
          → version ≤ℤ o.version
      go no_reply e k z f m = absurd (cc)
      go (reply none) e k z f m = absurd (cc)
      go (reply (some (key, d))) e k none f m = absurd (cc)
      go (reply (some (key, d))) e k (some d') f m =
          let same : o ≡ to_product key d = ground arith in
          let same' : q ≡ to_product (record { product_id = id; version = version }) d' =
            ground arith in
          let (found, matched, least) =
            Indexed.find_where_found db.product_index (is_published_version id) newer_version
              s.products key d e in
          let older =
            least (record { product_id = id; version = version }) d' f
              (is_published_version-true id version d'
                (sym (ap PaymentProduct.publish_status same') ∙ out)) in
          let versions : o.version ≡ key.version = ap PaymentProduct.version same in
          rw versions (ground arith)

  pub latest_none :
      (id : Text) (s t : Tables db)
      → find_latest_published_product digest true db id s ≡ (ok none, t)
      → (version : ℤ) (q : PaymentProduct) → View.product (view digest db) s id version ≡ some q
      → q.publish_status ≢ published
  unfolding find_latest_published_product
  latest_none id s t h version q there out =
      go (read_latest s id) refl (ap (λ r. r.0) h)
        (Collection.get db.products s.products (record { product_id = id; version = version })) refl
        there
    where
      go :
          (y : Reply (Option (ProductKey × PaymentProductDocument)))
          → read_latest s id ≡ y
          → read_as (λ (x : ProductKey × PaymentProductDocument). to_product x.0 x.1) y ≡ ok none
          → (z : Option PaymentProductDocument)
          → Collection.get db.products s.products (record { product_id = id; version = version })
            ≡ z
          → Option.map (to_product (record { product_id = id; version = version })) z ≡ some q
          → ⊥
      go no_reply e k z f m = absurd (cc)
      go (reply (some x)) e k z f m = absurd (cc)
      go (reply none) e k none f m = absurd (cc)
      go (reply none) e k (some d') f m =
          let same' : q ≡ to_product (record { product_id = id; version = version }) d' =
            ground arith in
          let no =
            Indexed.find_where_none db.product_index (is_published_version id) newer_version
              s.products e (record { product_id = id; version = version }) d' f in
          let yes_ =
            is_published_version-true id version d'
              (sym (ap PaymentProduct.publish_status same') ∙ out) in
          absurd (cc)
