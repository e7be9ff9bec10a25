-- ===== src/Payments/Checkout.antt =====
-- internal/biz/payments/checkout.go over a wired service: pending orders for PayCores, the checkout
-- that binds them, and purchases that a store verified. `new_order_id` is what
-- `randomCheckoutOrderID` returns and `digest` is the hexadecimal SHA-256; `meanwhile` is what other
-- processes commit between a transaction that failed and the read after it.
pub mod PayCores
pub mod Pending
pub mod Bound
use ai_go.Common.{
  Bool, true, false, not, ◌&&◌, ◌||◌, Option, none, some, [], ◌∷◌, ◌++◌, if◌then◌else◌,
}
use ai_go.Common.Int.{ℤ, eqb_ℤ}
use ai_go.Common.Text.{Text, codes, is_blank, is_empty, eq_text}
use ai_go.Common.Case.{UnicodeCase, trim_space}
use ai_go.Common.Result.{Result, ok, err}
use ai_go.Common.Action.{Action, pure, raise, raise_if, lift, rescue, ◌>>=◌, ◌>>◌}
use ai_go.Common.Clock.{Time, is_zero}
use ai_go.Mongo.{Transaction}
use ai_go.Payments.Model.{
  repository_error, Provider, pay_cores, apple, google, PaymentProduct, CreateOrderInput,
  PaymentOrder, ApplyResult, VerifiedOrderSettlement, Error, invalid_payment_order,
  product_not_published, payment_order_already_exists, payment_order_mismatch,
  invalid_store_purchase, Repository,
}
use ai_go.Payments.Rules.{
  is_valid_provider, is_pending, is_paid, PaymentChannelSelection, freeze_order, normalized,
  invalid_channel, invalid_pay_cores_pricing,
}
use ai_go.Payments.Service.{settle_verified_order}

pub record VerifiedStorePurchase : Type 0 where
  pub provider : Text
  pub external_transaction_id : Text
  pub store_product_id : Text
  pub product_id : Text
  pub user_id : Text
  pub business_at : Time

unfoldable pub is_valid_store_provider : Text → Bool
is_valid_store_provider p = eq_text p (codes "apple") || eq_text p (codes "google")

unfoldable pub payment_provider : Text → Provider
payment_provider p =
    if eq_text p (codes "apple") then apple else if eq_text p (codes "google") then google else []

unfoldable pub normalize_purchase :
    VerifiedStorePurchase → Time → Result Error VerifiedStorePurchase
normalize_purchase p fallback =
    let at = if is_zero p.business_at then fallback else p.business_at in
    if not (is_valid_store_provider p.provider)
      || is_blank p.external_transaction_id
      || is_blank p.store_product_id
      || is_blank p.product_id
      || is_blank p.user_id
      || is_zero at
    then err invalid_store_purchase
    else ok (record p { business_at = at })

-- `errors.Is(err, ErrPaymentOrderAlreadyExists)`.
abbrev pub is_order_already_exists : Error → Bool
is_order_already_exists payment_order_already_exists = true
is_order_already_exists _ = false

unfoldable pub available : Option PaymentProduct → Result Error PaymentProduct
available none = err product_not_published
available (some p) = ok p

abbrev pub local_prefix : Text
local_prefix = codes "local-paycores-"

unfoldable pub client_payment_order_id : (Text → Text) → Text → Text → Text → Text
client_payment_order_id digest user_id product_id request_id =
    codes "client-payment-" ++ digest (user_id ++ (0 ∷ (product_id ++ (0 ∷ trim_space request_id))))

abbrev pub store_input : VerifiedStorePurchase → Provider → Text → CreateOrderInput
store_input p provider id = record {
  order_id = id;
  user_id = p.user_id;
  provider = provider;
  provider_order_id = p.external_transaction_id;
  channel_provider = [];
  channel_account = [];
  channel_device_platform = [];
}

abbrev pub pay_cores_input : Text → PaymentChannelSelection → Text → CreateOrderInput
pay_cores_input user_id channel id = record {
  order_id = id;
  user_id = user_id;
  provider = pay_cores;
  provider_order_id = local_prefix ++ id;
  channel_provider = channel.provider;
  channel_account = channel.account;
  channel_device_platform = channel.client_device_platform;
}

-- The store's order for a transaction that has one.
unfoldable pub is_same_purchase : VerifiedStorePurchase → Provider → PaymentOrder → Bool
is_same_purchase p provider o =
    eq_text o.user_id p.user_id
    && eq_text o.product_id p.product_id
    && eq_text o.provider provider
    && eq_text o.provider_order_id p.external_transaction_id

unfoldable pub same_purchase :
    VerifiedStorePurchase → Provider → Option PaymentOrder → Result Error PaymentOrder
same_purchase p provider none = err payment_order_mismatch
same_purchase p provider (some o) =
    if is_same_purchase p provider o then ok o else err payment_order_mismatch

-- The order of an idempotent checkout that has one.
unfoldable pub is_same_request : Text → Text → PaymentOrder → Bool
is_same_request user_id product_id o =
    eq_text o.user_id user_id && eq_text o.product_id product_id && eq_text o.provider pay_cores

unfoldable pub same_request : Text → Text → Option PaymentOrder → Result Error PaymentOrder
same_request user_id product_id none = err payment_order_already_exists
same_request user_id product_id (some o) =
    if is_same_request user_id product_id o then ok o else err payment_order_already_exists

abbrev pub store_settlement :
    VerifiedStorePurchase → Provider → PaymentOrder → VerifiedOrderSettlement
store_settlement p provider o = record {
  payment_order_id = o.id;
  user_id = p.user_id;
  provider = provider;
  provider_order_id = p.external_transaction_id;
  external_transaction_id = p.external_transaction_id;
  business_at = p.business_at;
}

module _ {S : Type 0} (unicode : UnicodeCase) (digest : Text → Text) (repository : Repository S)
    (now : Time) (new_order_id : Result Error Text) where
  -- Both kinds of order: the product's current version, frozen and stored. The id is drawn after the
  -- product is read.
  unfoldable pub create_frozen :
      Text → Result Error Text → (Text → CreateOrderInput) → Time → Action S Error PaymentOrder
  create_frozen product_id drawn input at = do
    found ← repository.find_latest_published_product product_id
    product ← lift (available found)
    id ← lift drawn
    o ← lift (freeze_order unicode (input id) product at)
    repository.create_order o
    pure o

  -- `freezeStoreOrder`.
  unfoldable pub freeze_store_order :
      Transaction S Error repository_error PaymentOrder
      → (S → S)
      → VerifiedStorePurchase
      → Provider
      → Action S Error PaymentOrder
  freeze_store_order tx meanwhile p provider s =
      rescue is_order_already_exists
        (λ t.
          (repository.find_order_by_provider_order provider p.external_transaction_id >>= λ found.
          lift (same_purchase p provider found))
            (meanwhile t))
        (tx.run (create_frozen p.product_id new_order_id (store_input p provider) p.business_at) s)

  -- `SettleVerifiedStorePurchase`.
  unfoldable pub settle_verified_store_purchase :
      Transaction S Error repository_error PaymentOrder
      → Transaction S Error repository_error ApplyResult
      → (S → S)
      → VerifiedStorePurchase
      → Action S Error ApplyResult
  settle_verified_store_purchase orders results meanwhile purchase = do
    p ← lift (normalize_purchase purchase now)
    raise_if (not (is_valid_provider (payment_provider p.provider))) invalid_store_purchase
    o ← freeze_store_order orders meanwhile p (payment_provider p.provider)
    settle_verified_order repository now results meanwhile
        (store_settlement p (payment_provider p.provider) o)

  -- The id of a pending order: made of the client's request if it has an id.
  unfoldable pub pending_order_id : Text → Text → PaymentChannelSelection → Result Error Text
  pending_order_id user_id product_id channel =
      if is_blank channel.client_request_id
      then new_order_id
      else ok (client_payment_order_id digest user_id product_id channel.client_request_id)

  unfoldable pub create_pending_pay_cores_order :
      Transaction S Error repository_error PaymentOrder
      → (S → S)
      → Text
      → Text
      → PaymentChannelSelection
      → Action S Error PaymentOrder
  create_pending_pay_cores_order tx meanwhile user_id product_id channel = do
    raise_if (is_blank user_id || is_blank product_id) invalid_payment_order
    λ s.
        rescue (λ e. is_order_already_exists e && not (is_blank channel.client_request_id))
          (λ t.
            (repository.find_order
                  (client_payment_order_id digest user_id product_id channel.client_request_id)
                >>= λ found. lift (same_request user_id product_id found))
              (meanwhile t))
          (tx.run
            (create_frozen product_id (pending_order_id user_id product_id channel)
              (pay_cores_input user_id channel) now)
            s)
