-- ===== src/Payments/Freeze.antt =====
-- The orders that internal/biz/payments/order.go freezes, and those that checkout.go stores.
use mathlib.Core.Path.{subst}
use ai_go.Common.{true, false, ◌≡◌, refl, sym, ap, ◌∙◌, inl, inr, none, some, arith}
use ai_go.Common.Int.{ℤ, ◌≤ℤ◌}
use ai_go.Common.Text.{Text}
use ai_go.Common.Case.{UnicodeCase}
use ai_go.Common.Result.{Result, ok, err, Result-cases}
use ai_go.Common.Clock.{Time}
use ai_go.Payments.Model.{
  PaymentProduct, CreateOrderInput, PaymentOrder, pending, published, Error, Repository,
}
use ai_go.Payments.Rules.{
  is_published, invalid_input, invalid_product, invalid_pending, invalid_settlement_order,
  PaymentChannelSelection, freeze_channel, frozen, freeze_order,
}
use ai_go.Payments.Contract.{View, Orders, Laws}
use ai_go.Payments.Checkout.{available, create_frozen}

-- An order that a product is frozen into.
pub record Frozen (i : CreateOrderInput) (p : PaymentProduct) (at : Time) (o : PaymentOrder)
    : Type 0 where
  pub channel : PaymentChannelSelection
  pub copies : o ≡ record {
    id = i.order_id;
    user_id = i.user_id;
    provider = i.provider;
    provider_order_id = i.provider_order_id;
    channel_provider = channel.provider;
    channel_account = channel.account;
    channel_device_platform = channel.client_device_platform;
    product_id = p.id;
    product_version = p.version;
    diamond_amount = p.diamond_amount;
    amount_cents = p.amount_cents;
    currency = p.currency;
    status = pending;
    created_at = at;
    updated_at = at;
  }
  pub from_published : is_published p.publish_status ≡ true
  pub valid : invalid_pending o ≡ false
  pub settleable : invalid_settlement_order o ≡ false

frozen-valid :
    (i : CreateOrderInput) (c : PaymentChannelSelection) (p : PaymentProduct) (at : Time)
    → invalid_input i at ≡ false
    → invalid_product p ≡ false
    → (invalid_pending (frozen i c p at) ≡ false)
      × (invalid_settlement_order (frozen i c p at) ≡ false)
unfolding invalid_input invalid_product invalid_pending invalid_settlement_order
frozen-valid i c p at h k = (ground arith, ground arith)

-- Freezing a product into an order succeeds for a published product only, and copies its id,
-- version, diamonds and price; the order is pending, valid to be stored and valid to be settled.
pub freeze_order-Frozen :
    (u : UnicodeCase) (i : CreateOrderInput) (p : PaymentProduct) (at : Time) (o : PaymentOrder)
    → freeze_order u i p at ≡ ok o
    → Frozen i p at o
unfolding freeze_order
freeze_order-Frozen u i p at o h = go (freeze_channel u i) refl
  where
    go : (c : Result Error PaymentChannelSelection) → freeze_channel u i ≡ c → Frozen i p at o
    go (err e) k = absurd (ground arith)
    go (ok c) k =
        let facts : (invalid_input i at ≡ false)
            × (invalid_product p ≡ false)
            × (is_published p.publish_status ≡ true)
            × (o ≡ frozen i c p at) =
          ground arith in
        let (valid, settleable) = frozen-valid i c p at facts.0 facts.1 in
        record {
          channel = c;
          copies = facts.3;
          from_published = facts.2;
          valid = rw facts.3 valid;
          settleable = rw facts.3 settleable;
        }

-- An order that a checkout makes, of the product that is current in `s`.
pub record Created {S : Type 0} (v : View S) (product_id : Text) (input : Text → CreateOrderInput)
    (at : Time) (o : PaymentOrder) (s t : S) : Type 0 where
  pub product : PaymentProduct
  pub is_product : View.product v s product_id product.version ≡ some product
  pub named : product.id ≡ product_id
  pub is_published_ : product.publish_status ≡ published
  pub newest :
      (version : ℤ) (q : PaymentProduct)
      → View.product v s product_id version ≡ some q
      → q.publish_status ≡ published
      → version ≤ℤ product.version
  pub is_frozen : Frozen (input o.id) product at o
  pub stored : Orders v s t o.id none o

module _ {S : Type 0} (v : View S) (r : Repository S) (laws : Laws v r) (u : UnicodeCase)
    (digest : Text → Text) (now : Time) (new_order_id : Result Error Text) where
  pub create_frozen-Created :
      (product_id : Text) (drawn : Result Error Text) (input : Text → CreateOrderInput) (at : Time)
      → ((id : Text) → (input id).order_id ≡ id)
      → (s t : S) (o : PaymentOrder)
      → create_frozen u digest r now new_order_id product_id drawn input at s ≡ (ok o, t)
      → Created v product_id input at o s t
  unfolding create_frozen available
  create_frozen-Created product_id drawn input at keeps s t o h =
      let find = r.find_latest_published_product product_id in
      let x = find s in
      elim (Result-cases x.0) [
        | inr (e, failed) ↦ absurd (ground arith)
        | inl (none, found) ↦ absurd (ground arith)
        | inl (some p, found) ↦ elim (Result-cases drawn) [
          | inr (e, failed) ↦ absurd (ground arith)
          | inl (id, drew) ↦ elim (Result-cases (freeze_order u (input id) p at)) [
            | inr (e, failed) ↦ absurd (ground arith)
            | inl (q, froze) ↦
                let y = r.create_order q x.1 in
                let facts : (y.0 ≡ ok tt) × (o ≡ q) × (t ≡ y.1) = ground arith in
                let read : find s ≡ (ok (some p), x.1) = λ i. (found i, x.1) in
                let same = laws.latest_law product_id s x.1 (some p) read in
                let (named, out, is) = laws.latest_found product_id s x.1 p read in
                let f = freeze_order-Frozen u (input id) p at q froze in
                let id_is : q.id ≡ id = ap PaymentOrder.id f.copies ∙ keeps id in
                let (p', stored, rest0, rest1, rest2, rest3, put) =
                  laws.create_order_law q x.1 t (λ i. (facts.0 i, sym facts.2 i)) in
                rw facts.1 (record {
                  product = p;
                  is_product = is;
                  named = named;
                  is_published_ = out;
                  newest = laws.latest_newest product_id s x.1 p read;
                  is_frozen = subst (λ j. Frozen (input j) p at q) (sym id_is) f;
                  stored = rw same at put;
                })
          ]
        ]
      ]
