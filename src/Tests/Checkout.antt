-- ===== src/Tests/Checkout.antt =====
-- The callback and the checkouts of the payments over collections in memory, where an order and a
-- product are found by more than their key.
use ai_go.Common.{true, false, ◌≡◌, refl, Option, none, some, [], ◌⊎◌}
use ai_go.Common.Int.{pos, ◌+ℤ◌, ◌<ℤ◌}
use ai_go.Common.Text.{
  Text, codes, eq_text, eq_text_sound, eq_text_refl, is_blank, is_space1, is_space2, is_space3,
  has_prefix,
}
use ai_go.Common.Case.{
  UnicodeCase, trim_space, drop_space, drop_space_end, to_lower, to_upper, is_ascii, has_suffix,
}
use ai_go.Common.Result.{Result, ok, err}
use ai_go.Common.Action.{Action, pure}
use ai_go.Mongo.{Collection}
use ai_go.Payments.Model.{
  Repository, PaymentOrder, PaymentProduct, pay_cores, pending, published, ApplyResult, Error,
  VerifiedOrderSettlement,
}
use ai_go.Payments.Rules.{
  PaymentChannelSelection, is_valid_provider, invalid_input, invalid_product, invalid_pending,
  invalid_settlement_order, normalize_receipt, freeze_order, freeze_channel, normalized,
  invalid_channel, invalid_normalized, invalid_pay_cores_pricing,
}
use ai_go.Payments.Service.{
  invalid_settlement, mismatched, found_order, record_receipt_within_tx, associated, settle_new,
  settle_found, settle_order, settle_within_tx, settle_verified_order,
}
use ai_go.Payments.Contract.{View}
use ai_go.Payments.Effects.{Settles}
use ai_go.Payments.Documents.{
  PaymentProductDocument, payment_transaction_digest, payment_receipt_id,
  payment_credit_ledger_entry_id,
}
use ai_go.Payments.Storage.{
  Database, Tables, payment_repository, find_order, find_receipt, find_order_by_provider_order,
  find_product, find_latest_published_product, create_order, create_order_reply, mark_order_paid,
  create_receipt, credit_diamonds, append_payment_credit, bind_pay_cores_provider_order,
}
use ai_go.Payments.Storage.Effects.{view}
use ai_go.Payments.Storage.Refinement.{payment_repository-Laws}
use ai_go.Payments.Callback.{
  PayCoresCallbackNonceDocument, VerifiedPaymentConfirmation, is_valid_confirmation,
  is_valid_nonce_hash, are_lower_hex, is_confirmed_callback_path, located, consume, look_again,
  settle_confirmation, handle,
}
use ai_go.Payments.Callback.Once.{handle_once}
use ai_go.Payments.Checkout.{
  VerifiedStorePurchase, is_valid_store_provider, payment_provider, normalize_purchase, available,
  create_frozen, freeze_store_order, store_settlement, settle_verified_store_purchase,
  pending_order_id, create_pending_pay_cores_order,
}
use ai_go.Payments.StorePurchase.{Ordered, settle_verified_store_purchase-Settles}
use ai_go.Payments.Checkout.PayCores.{
  PayCoresCheckoutRequest, PayCoresCheckoutResult, PayCoresCheckout, matches_channel,
  checkout_request, available_label, bind_answer, bind_order_of, bind_checkout, checkout_order,
  create_pay_cores_checkout_for_channel,
}
use ai_go.Payments.Checkout.Pending.{PendingOrder}
use ai_go.Payments.Checkout.Bound.{OfChannel, Bound, create_pay_cores_checkout-Bound}
use ai_go.Tests.Memory.{memory, memory_upsert, transaction}
use ai_go.Tests.Cell.{cell, cell_index}
use ai_go.Tests.Payments.{
  same_receipt, same_receipt_sound, same_receipt_refl, same_product, same_product_sound,
  same_product_refl, plain, order_row, account,
}

abbrev in_cells : Database
in_cells = record {
  accounts = memory eq_text eq_text_sound eq_text_refl;
  products = cell same_product same_product_sound same_product_refl;
  orders = cell eq_text eq_text_sound eq_text_refl;
  receipts = memory same_receipt same_receipt_sound same_receipt_refl;
  ledger_entries = memory eq_text eq_text_sound eq_text_refl;
  upserts = memory_upsert eq_text eq_text_sound eq_text_refl;
  product_index = cell_index same_product same_product_sound same_product_refl;
  order_index = cell_index eq_text eq_text_sound eq_text_refl;
}

abbrev repository : Repository (Tables in_cells)
repository = payment_repository plain true in_cells

abbrev product_row : PaymentProductDocument
product_row = record {
  diamond_amount = pos 50;
  amount_cents = pos 499;
  currency = codes "USD";
  label = codes "50 diamonds";
  publish_status = published;
}

-- A product and no order; and the same with the order of the callback.
abbrev empty : Tables in_cells
empty = record {
  accounts = λ k. elim (eq_text k (codes "ann")) [ true ↦ some account | _ ↦ none ];
  products = some (record { product_id = codes "p"; version = pos 1 }, product_row);
  orders = none;
  receipts = λ k. none;
  ledger_entries = λ k. none;
}

abbrev ordered : Tables in_cells
ordered = record empty { orders = some (codes "o1", order_row) }

abbrev nonces : Collection Text PayCoresCallbackNonceDocument
nonces = memory eq_text eq_text_sound eq_text_refl

abbrev unused : Text → Option PayCoresCallbackNonceDocument
unused k = none

abbrev confirmation : VerifiedPaymentConfirmation
confirmation = record {
  user_id = codes "ann";
  order_id = codes "po1";
  provider_txn_id = codes "t1";
  nonce_hash = codes "0123456789abcdef0123456789abcdef0123456789abcdef0123456789abcdef";
}

abbrev settle : VerifiedOrderSettlement → Action (Tables in_cells) Error ApplyResult
settle = settle_verified_order repository 9 transaction (λ s. s)

abbrev path : Text
path = codes "/api/internal/payment-confirmed"

abbrev handled : Result Error ApplyResult × (Collection.Store nonces × Tables in_cells)
handled = handle nonces repository settle (pure tt) path 9 confirmation (unused, ordered)

abbrev paid_result : ApplyResult
paid_result = record { applied = true; diamond_balance = pos 80 }

handles : handled.0 ≡ ok paid_result
unfolding handle is_confirmed_callback_path is_valid_confirmation is_valid_nonce_hash are_lower_hex
    consume settle_confirmation look_again located find_order_by_provider_order
    settle_verified_order settle_within_tx associated found_order settle_order settle_found
    settle_new record_receipt_within_tx invalid_settlement mismatched invalid_settlement_order
    invalid_pending is_valid_provider normalize_receipt find_order find_receipt mark_order_paid
    create_receipt credit_diamonds append_payment_credit payment_receipt_id
    payment_credit_ledger_entry_id payment_transaction_digest eq_text is_blank ◌+ℤ◌
handles = refl

handle_once_example :
    (Collection.get nonces unused confirmation.nonce_hash ≡ none)
    × ((d : PayCoresCallbackNonceDocument) × (Collection.get nonces handled.1.0
            confirmation.nonce_hash
          ≡ some d))
    × ((path' : Text) (now' : _) (c' : VerifiedPaymentConfirmation) (m : Collection.Store nonces)
          (u : Tables in_cells) (d : PayCoresCallbackNonceDocument)
        → c'.nonce_hash ≡ confirmation.nonce_hash
        → Collection.get nonces m confirmation.nonce_hash ≡ some d
        → (e : Error) × ((handle nonces repository settle (pure tt) path' now' c' (m, u)).0 ≡ err e)
          × ((handle nonces repository settle (pure tt) path' now' c' (m, u)).1.1 ≡ u))
handle_once_example =
    handle_once nonces repository settle (pure tt) path 9 confirmation unused handled.1.0 ordered
      handled.1.1 paid_result (λ i. (handles i, handled.1))

abbrev unicode : UnicodeCase
unicode = record { map_lower = plain; map_upper = plain }

abbrev purchase : VerifiedStorePurchase
purchase = record {
  provider = codes "apple";
  external_transaction_id = codes "t1";
  store_product_id = codes "sp";
  product_id = codes "p";
  user_id = codes "ann";
  business_at = 7;
}

abbrev drawn : Result Error Text
drawn = ok (codes "o9")

abbrev bought : Result Error ApplyResult × Tables in_cells
bought =
    settle_verified_store_purchase unicode plain repository 9 drawn transaction transaction (λ s. s)
      purchase empty

buys : bought.0 ≡ ok paid_result
unfolding settle_verified_store_purchase normalize_purchase is_valid_store_provider payment_provider
    freeze_store_order create_frozen find_latest_published_product available freeze_order
    freeze_channel invalid_input invalid_product create_order create_order_reply
    settle_verified_order settle_within_tx associated found_order settle_order settle_found
    settle_new record_receipt_within_tx invalid_settlement mismatched invalid_settlement_order
    invalid_pending is_valid_provider normalize_receipt find_order find_receipt mark_order_paid
    create_receipt credit_diamonds append_payment_credit payment_receipt_id
    payment_credit_ledger_entry_id payment_transaction_digest eq_text is_blank ◌+ℤ◌
buys = refl

settle_verified_store_purchase-Settles_example :
    (p : VerifiedStorePurchase) × (o : PaymentOrder) × (m : Tables in_cells) × (normalize_purchase
        purchase 9
      ≡ ok p)
    × Ordered (view plain in_cells) p (payment_provider p.provider) o empty empty m
    × (Settles
          (view plain in_cells)
          (store_settlement p (payment_provider p.provider) o)
          m
          bought.1
          paid_result
        ⊎ (Settles
              (view plain in_cells)
              (store_settlement p (payment_provider p.provider) o)
              m
              bought.1
              paid_result
            × (true ≡ false)
            × (bought.1 ≡ m)))
settle_verified_store_purchase-Settles_example =
    settle_verified_store_purchase-Settles (view plain in_cells) repository
      (payment_repository-Laws plain in_cells) unicode plain 9 drawn transaction transaction
      (λ s. s) purchase empty bought.1 paid_result (λ i. (buys i, bought.1))

abbrev selection : PaymentChannelSelection
selection = record {
  provider = codes "stripe";
  account = codes "main";
  client_device_platform = [];
  client_request_id = [];
}

abbrev answered : PayCoresCheckoutResult
answered = record { provider_order_id = codes "po7"; checkout_url = codes "https://pay" }

abbrev pay_cores_order :
    PayCoresCheckoutRequest → Action (Tables in_cells) Error PayCoresCheckoutResult
pay_cores_order request = pure answered

abbrev checked_out : Result Error PayCoresCheckout × Tables in_cells
checked_out =
    create_pay_cores_checkout_for_channel unicode plain repository 9 drawn pay_cores_order
      transaction (λ s. s) (codes "ann") (codes "p") selection empty

abbrev checkout : PayCoresCheckout
checkout = record {
  order = record {
    id = codes "o9";
    user_id = codes "ann";
    provider = pay_cores;
    provider_order_id = codes "po7";
    channel_provider = codes "stripe";
    channel_account = codes "main";
    channel_device_platform = codes "web";
    product_id = codes "p";
    product_version = pos 1;
    diamond_amount = pos 50;
    amount_cents = pos 499;
    currency = codes "USD";
    status = pending;
    created_at = 9;
    updated_at = 9;
  };
  checkout_url = codes "https://pay";
}

checks_out : checked_out.0 ≡ ok checkout
unfolding create_pay_cores_checkout_for_channel create_pending_pay_cores_order pending_order_id
    create_frozen find_latest_published_product available freeze_order freeze_channel normalized
    invalid_channel invalid_normalized has_suffix has_prefix trim_space drop_space drop_space_end
    to_lower to_upper is_ascii is_space1 is_space2 is_space3 invalid_input invalid_product
    create_order create_order_reply checkout_order matches_channel invalid_pay_cores_pricing
    find_product available_label bind_checkout bind_order_of bind_answer
    bind_pay_cores_provider_order invalid_pending is_valid_provider eq_text is_blank
checks_out = refl

create_pay_cores_checkout-Bound_example :
    let c = normalized unicode selection in
    (o : PaymentOrder) × (p : PaymentProduct) × (response : PayCoresCheckoutResult) × (u : Tables
      in_cells)
    × (x : Tables in_cells) × PendingOrder
        (view plain in_cells)
        plain
        (codes "ann")
        (codes "p")
        c
        9
        o
        empty
        empty
        u
    × (o.user_id ≡ codes "ann")
    × (o.product_id ≡ codes "p")
    × (o.provider ≡ pay_cores)
    × OfChannel c o
    × (pos 0 <ℤ o.amount_cents)
    × (invalid_pay_cores_pricing unicode o ≡ false)
    × (View.product (view plain in_cells) u o.product_id o.product_version ≡ some p)
    × (pay_cores_order (checkout_request (codes "ann") c o p) u ≡ (ok response, x))
    × Bound o c response checkout
create_pay_cores_checkout-Bound_example =
    create_pay_cores_checkout-Bound (view plain in_cells) repository
      (payment_repository-Laws plain in_cells) unicode plain 9 drawn pay_cores_order transaction
      (λ s. s) (codes "ann") (codes "p") selection empty checked_out.1 checkout
      (λ i. (checks_out i, checked_out.1))
