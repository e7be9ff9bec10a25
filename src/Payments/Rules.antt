-- ===== src/Payments/Rules.antt =====
-- internal/biz/payments/order.go and receipt.go, and the channel of checkout.go: what makes a
-- product, an order, a receipt and a channel valid, and the order that a product is frozen into.
-- A method that returns its one error or `nil` is the Boolean test for that error.
use ai_go.Common.{Bool, true, false, not, ◌&&◌, ◌||◌, ltb, leb, ◌==◌, if◌then◌else◌, [], ◌∷◌}
use ai_go.Common.Int.{pos, leb_ℤ, eqb_ℤ}
use ai_go.Common.Text.{Text, codes, is_blank, is_empty, eq_text, length}
use ai_go.Common.Case.{UnicodeCase, trim_space, has_suffix, to_lower, to_upper}
use ai_go.Common.Clock.{Time, is_zero}
use ai_go.Common.Result.{Result, ok, guard, ◌>>=◌, ◌>>◌}
use ai_go.Payments.Model.{
  Provider, pay_cores, app_store, apple, google, ProductPublishStatus, draft, published,
  PaymentOrderStatus, pending, paid, PaymentProduct, CreateOrderInput, PaymentOrder, Receipt, Error,
  invalid_payment_order, product_not_published, invalid_receipt,
}

unfoldable pub is_valid_provider : Provider → Bool
is_valid_provider p =
    eq_text p pay_cores || eq_text p app_store || eq_text p apple || eq_text p google

abbrev pub is_published : ProductPublishStatus → Bool
is_published published = true
is_published _ = false

abbrev pub is_draft : ProductPublishStatus → Bool
is_draft draft = true
is_draft _ = false

abbrev pub is_pending : PaymentOrderStatus → Bool
is_pending pending = true
is_pending _ = false

abbrev pub is_paid : PaymentOrderStatus → Bool
is_paid paid = true
is_paid _ = false

-- `PaymentProduct.Validate`.
unfoldable pub invalid_product : PaymentProduct → Bool
invalid_product p =
    is_blank p.id
    || leb_ℤ p.version (pos 0)
    || leb_ℤ p.diamond_amount (pos 0)
    || (not (is_draft p.publish_status) && not (is_published p.publish_status))

-- `PaymentOrder.ValidatePending`.
unfoldable pub invalid_pending : PaymentOrder → Bool
invalid_pending o =
    is_blank o.id
    || is_blank o.user_id
    || not (is_valid_provider o.provider)
    || is_blank o.provider_order_id
    || is_blank o.product_id
    || leb_ℤ o.product_version (pos 0)
    || leb_ℤ o.diamond_amount (pos 0)
    || is_zero o.created_at
    || is_zero o.updated_at
    || not (is_pending o.status)

-- `validateSettlementOrder`.
unfoldable pub invalid_settlement_order : PaymentOrder → Bool
invalid_settlement_order o =
    (not (is_pending o.status) && not (is_paid o.status))
    || invalid_pending (record o { status = pending })

unfoldable pub normalize_receipt : Receipt → Time → Result Error Receipt
normalize_receipt r fallback =
    let at = if is_zero r.business_at then fallback else r.business_at in
    do
      guard
          (not (
            not (is_valid_provider r.provider)
            || is_blank r.external_transaction_id
            || is_blank r.payment_order_id
            || is_blank r.user_id
            || leb_ℤ r.diamond_amount (pos 0)))
          invalid_receipt
      guard (not (is_zero at)) invalid_receipt
      ok (record r { business_at = at })

unfoldable pub same_fact : Receipt → Receipt → Bool
same_fact a b =
    eq_text a.provider b.provider
    && eq_text a.external_transaction_id b.external_transaction_id
    && eq_text a.payment_order_id b.payment_order_id
    && eq_text a.user_id b.user_id
    && eqb_ℤ a.diamond_amount b.diamond_amount

pub record PaymentChannelSelection : Type 0 where
  pub provider : Text
  pub account : Text
  pub client_device_platform : Text
  pub client_request_id : Text

-- `r < 0x21 || r > 0x7e` for no rune, which for bytes says the same: every byte of a longer encoding
-- is above 0x7e, and so is its rune.
unfoldable pub is_graphic : Text → Bool
is_graphic [] = true
is_graphic (b ∷ bs) = leb 0x21 b && leb b 0x7e && is_graphic bs

abbrev pub frozen :
    CreateOrderInput → PaymentChannelSelection → PaymentProduct → Time → PaymentOrder
frozen i c p at = record {
  id = i.order_id;
  user_id = i.user_id;
  provider = i.provider;
  provider_order_id = i.provider_order_id;
  channel_provider = c.provider;
  channel_account = c.account;
  channel_device_platform = c.client_device_platform;
  product_id = p.id;
  product_version = p.version;
  diamond_amount = p.diamond_amount;
  amount_cents = p.amount_cents;
  currency = p.currency;
  status = pending;
  created_at = at;
  updated_at = at;
}

unfoldable pub invalid_input : CreateOrderInput → Time → Bool
invalid_input i at =
    is_blank i.order_id
    || is_blank i.user_id
    || not (is_valid_provider i.provider)
    || is_blank i.provider_order_id
    || is_zero at

module _ (unicode : UnicodeCase) where
  -- `ValidatePayCoresPricing`.
  unfoldable pub invalid_pay_cores_pricing : PaymentOrder → Bool
  invalid_pay_cores_pricing o =
      leb_ℤ o.amount_cents (pos 0)
      || not (length o.currency == 3)
      || not (eq_text (trim_space o.currency) o.currency)
      || not (eq_text o.currency (to_upper unicode o.currency))

  unfoldable pub normalized : PaymentChannelSelection → PaymentChannelSelection
  normalized c =
      let platform = to_lower unicode (trim_space c.client_device_platform) in
      record {
        provider = trim_space c.provider;
        account = to_lower unicode (trim_space c.account);
        client_device_platform = if is_empty platform then codes "web" else platform;
        client_request_id = trim_space c.client_request_id;
      }

  -- `PaymentChannelSelection.Validate`, behind its `normalized`.
  unfoldable pub invalid_normalized : PaymentChannelSelection → Bool
  invalid_normalized c =
      let request = trim_space c.client_request_id in
      if is_empty c.provider
      then not (is_empty c.account)
      else (has_suffix (codes "_googlepay") c.account
          && not (eq_text c.client_device_platform (codes "web"))
          && not (eq_text c.client_device_platform (codes "android")))
        || (has_suffix (codes "_applepay") c.account
            && not (eq_text c.client_device_platform (codes "ios")))
        || (not (is_empty request) && (ltb 128 (length request) || not (is_graphic request)))

  unfoldable pub invalid_channel : PaymentChannelSelection → Bool
  invalid_channel c = invalid_normalized (normalized c)

  -- The channel of an order: normalised for PayCores, and none for a store.
  unfoldable pub freeze_channel : CreateOrderInput → Result Error PaymentChannelSelection
  freeze_channel i =
      let given : PaymentChannelSelection = record {
        provider = i.channel_provider;
        account = i.channel_account;
        client_device_platform = i.channel_device_platform;
        client_request_id = [];
      } in
      if eq_text i.provider pay_cores
      then (guard (not (invalid_channel (normalized given))) invalid_payment_order
          >> ok (normalized given))
      else (guard
            (is_blank i.channel_provider
              && is_blank i.channel_account
              && is_blank i.channel_device_platform)
            invalid_payment_order
          >> ok given)

  unfoldable pub freeze_order : CreateOrderInput → PaymentProduct → Time → Result Error PaymentOrder
  freeze_order i p at = do
    guard (not (invalid_input i at)) invalid_payment_order
    c ← freeze_channel i
    guard (not (invalid_product p)) invalid_payment_order
    guard (is_published p.publish_status) product_not_published
    ok (frozen i c p at)
