-- ===== src/Payments/Checkout/PayCores.antt =====
-- `CreatePayCoresCheckoutForChannel` of internal/biz/payments/checkout.go. `pay_cores_order` is the
-- call of PayCores: other processes may write while it is under way.
use ai_go.Common.{Bool, true, false, not, ◌&&◌, ◌||◌, Option, none, some, ◌++◌, if◌then◌else◌}
use ai_go.Common.Int.{ℤ, eqb_ℤ}
use ai_go.Common.Text.{Text, is_blank, is_empty, eq_text}
use ai_go.Common.Case.{UnicodeCase}
use ai_go.Common.Result.{Result, ok, err}
use ai_go.Common.Action.{Action, pure, raise_if, lift, ◌>>=◌, ◌>>◌}
use ai_go.Common.Clock.{Time}
use ai_go.Mongo.{Transaction}
use ai_go.Payments.Model.{
  repository_error, PaymentProduct, PaymentOrder, Error, invalid_payment_order,
  payment_order_mismatch, Repository,
}
use ai_go.Payments.Rules.{
  is_pending, is_paid, PaymentChannelSelection, normalized, invalid_channel,
  invalid_pay_cores_pricing,
}
use ai_go.Payments.Checkout.{local_prefix, create_pending_pay_cores_order}

pub record PayCoresCheckoutRequest : Type 0 where
  pub user_id : Text
  pub product_id : Text
  pub amount_cents : ℤ
  pub currency : Text
  pub credits : ℤ
  pub label : Text
  pub client_request_id : Text
  pub provider : Text
  pub account : Text
  pub client_device_platform : Text

pub record PayCoresCheckoutResult : Type 0 where
  pub provider_order_id : Text
  pub checkout_url : Text

pub record PayCoresCheckout : Type 0 where
  pub order : PaymentOrder
  pub checkout_url : Text

unfoldable pub matches_channel : PaymentOrder → PaymentChannelSelection → Bool
matches_channel o c =
    eq_text o.channel_provider c.provider
    && eq_text o.channel_account c.account
    && eq_text o.channel_device_platform c.client_device_platform

abbrev pub checkout_request :
    Text → PaymentChannelSelection → PaymentOrder → PaymentProduct → PayCoresCheckoutRequest
checkout_request user_id c o p = record {
  user_id = user_id;
  product_id = o.product_id;
  amount_cents = o.amount_cents;
  currency = o.currency;
  credits = o.diamond_amount;
  label = p.label;
  client_request_id = if is_empty c.client_request_id then o.id else c.client_request_id;
  provider = c.provider;
  account = c.account;
  client_device_platform = c.client_device_platform;
}

-- What a checkout may find that was bound by another.
unfoldable pub is_same_checkout :
    PaymentOrder → PaymentChannelSelection → PayCoresCheckoutResult → PaymentOrder → Bool
is_same_checkout o c response current =
    eq_text current.id o.id
    && eq_text current.user_id o.user_id
    && eq_text current.provider o.provider
    && matches_channel current c
    && eq_text current.provider_order_id response.provider_order_id
    && eq_text current.product_id o.product_id
    && eqb_ℤ current.product_version o.product_version
    && eqb_ℤ current.diamond_amount o.diamond_amount
    && eqb_ℤ current.amount_cents o.amount_cents
    && eq_text current.currency o.currency
    && (is_pending current.status || is_paid current.status)

unfoldable pub same_checkout :
    PaymentOrder
    → PaymentChannelSelection
    → PayCoresCheckoutResult
    → Option PaymentOrder
    → Result Error PayCoresCheckout
same_checkout o c response none = err payment_order_mismatch
same_checkout o c response (some current) =
    if is_same_checkout o c response current
    then ok (record { order = current; checkout_url = response.checkout_url })
    else err payment_order_mismatch

unfoldable pub available_label : Option PaymentProduct → Result Error PaymentProduct
available_label none = err invalid_payment_order
available_label (some p) = ok p

module _ {S : Type 0} (repository : Repository S) (now : Time) where
  -- After the update that binds a fresh order: whether it matched, or a concurrent one did.
  unfoldable pub bind_answer :
      PaymentOrder
      → PaymentChannelSelection
      → PayCoresCheckoutResult
      → Bool
      → Action S Error PayCoresCheckout
  bind_answer o c response true = pure (record {
    order = record o { provider_order_id = response.provider_order_id; updated_at = now };
    checkout_url = response.checkout_url;
  })
  bind_answer o c response false = do
    current ← repository.find_order o.id
    lift (same_checkout o c response current)

  -- Whether the order still has its local channel order.
  unfoldable pub bind_order_of :
      PaymentOrder
      → PaymentChannelSelection
      → PayCoresCheckoutResult
      → Bool
      → Action S Error PayCoresCheckout
  bind_order_of o c response true = do
    bound ←
        repository.bind_pay_cores_provider_order o.id o.provider_order_id response.provider_order_id
          now
    bind_answer o c response bound
  bind_order_of o c response false = do
    raise_if (not (eq_text o.provider_order_id response.provider_order_id)) payment_order_mismatch
    pure (record { order = record o { updated_at = now }; checkout_url = response.checkout_url })

  -- What follows the answer of PayCores.
  unfoldable pub bind_checkout :
      PaymentOrder
      → PaymentChannelSelection
      → PayCoresCheckoutResult
      → Action S Error PayCoresCheckout
  bind_checkout o c response = do
    raise_if (is_blank response.provider_order_id || is_blank response.checkout_url)
        invalid_payment_order
    bind_order_of o c response (eq_text o.provider_order_id (local_prefix ++ o.id))

module _ {S : Type 0} (unicode : UnicodeCase) (digest : Text → Text) (repository : Repository S)
    (now : Time) (new_order_id : Result Error Text)
    (pay_cores_order : PayCoresCheckoutRequest → Action S Error PayCoresCheckoutResult) where
  -- What follows the pending order.
  unfoldable pub checkout_order :
      Text → PaymentChannelSelection → PaymentOrder → Action S Error PayCoresCheckout
  checkout_order user_id c o = do
    raise_if (not (matches_channel o c)) payment_order_mismatch
    raise_if (invalid_pay_cores_pricing unicode o) invalid_payment_order
    found ← repository.find_product o.product_id o.product_version
    p ← lift (available_label found)
    response ← pay_cores_order (checkout_request user_id c o p)
    bind_checkout repository now o c response

  unfoldable pub create_pay_cores_checkout_for_channel :
      Transaction S Error repository_error PaymentOrder
      → (S → S)
      → Text
      → Text
      → PaymentChannelSelection
      → Action S Error PayCoresCheckout
  create_pay_cores_checkout_for_channel tx meanwhile user_id product_id selection = do
    raise_if (invalid_channel unicode (normalized unicode selection)) invalid_payment_order
    o ←
        create_pending_pay_cores_order unicode digest repository now new_order_id tx meanwhile
          user_id product_id (normalized unicode selection)
    checkout_order user_id (normalized unicode selection) o
