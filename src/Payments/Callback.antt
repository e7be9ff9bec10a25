-- ===== src/Payments/Callback.antt =====
-- internal/biz/payments/callback.go and callback_nonce.go, and
-- internal/data/paycores_callback_nonce_repository.go: a verified callback consumes its nonce, finds
-- its order and settles it. The nonces are a collection of their own, `N`, beside the payment store
-- `S`. A nonce's hash is the text of its hexadecimal digits. The use case is wired.
pub mod Steps
pub mod Once
use ai_go.Common.{
  Bool, true, false, not, ◌&&◌, ◌||◌, ◌≡◌, refl, sym, ap, ◌∙◌, ◌≢◌, inl, inr, Option, none, some,
  arith, [], ◌∷◌, leb, ◌==◌, ◌+◌, ◌*◌, Bool-cases, ◌⊎◌,
}
use ai_go.Common.Text.{Text, codes, is_blank, eq_text, length}
use ai_go.Common.Result.{Result, Result-cases, ok, err}
use ai_go.Common.Action.{Action, pure, raise_if, lift, >>=-eq-ok, guard-eq-ok, ◌>>=◌, ◌>>◌}
use ai_go.Common.Clock.{Time, is_zero, minute}
use ai_go.Mongo.{Collection, Reply, reply, no_reply}
use ai_go.Payments.Model.{
  pay_cores, PaymentOrder, ApplyResult, VerifiedOrderSettlement, Error, Repository,
  payment_order_not_found, invalid_verified_payment_confirmation,
  confirmed_callback_dependencies_unavailable, payment_callback_replayed,
  invalid_payment_callback_nonce,
}
use ai_go.Payments.Contract.{View, Laws}
use ai_go.Payments.Storage.{answer_or}

unfoldable pub are_lower_hex : Text → Bool
are_lower_hex [] = true
are_lower_hex (b ∷ bs) = ((leb 48 b && leb b 57) || (leb 97 b && leb b 102)) && are_lower_hex bs

-- `PaymentCallbackNonceHash.Valid`: 64 digits that decode and encode to themselves.
unfoldable pub is_valid_nonce_hash : Text → Bool
is_valid_nonce_hash h = length h == 64 && are_lower_hex h

pub record PayCoresCallbackNonceDocument : Type 0 where
  pub method : Text
  pub path : Text
  pub expires_at : Time

pub record VerifiedPaymentConfirmation : Type 0 where
  pub user_id : Text
  pub order_id : Text
  pub provider_txn_id : Text
  pub nonce_hash : Text

unfoldable pub is_valid_confirmation : VerifiedPaymentConfirmation → Bool
is_valid_confirmation c =
    not (is_blank c.user_id)
    && not (is_blank c.order_id)
    && not (is_blank c.provider_txn_id)
    && is_valid_nonce_hash c.nonce_hash

unfoldable pub is_confirmed_callback_path : Text → Bool
is_confirmed_callback_path path =
    eq_text path (codes "/api/internal/payment-confirmed")
    || eq_text path (codes "/api/v1/internal/payment-confirmed")

abbrev pub payment_callback_nonce_ttl : Time
payment_callback_nonce_ttl = 2 * minute

abbrev pub verified_order_settlement :
    VerifiedPaymentConfirmation → Text → Time → VerifiedOrderSettlement
verified_order_settlement c id at = record {
  payment_order_id = id;
  user_id = c.user_id;
  provider = pay_cores;
  provider_order_id = c.order_id;
  external_transaction_id = c.provider_txn_id;
  business_at = at;
}

-- `order == nil || blank(order.ID)`.
unfoldable pub located : Option PaymentOrder → Result Error PaymentOrder
located none = err payment_order_not_found
located (some o) = elim (is_blank o.id) [ true ↦ err payment_order_not_found | false ↦ ok o ]

-- An operation on the nonces, and one on the payments.
abbrev pub on_nonces : {N S E A : Type 0} → Action N E A → Action (N × S) E A
on_nonces m (n, s) = ((m n).0, ((m n).1, s))

abbrev pub on_payments : {N S E A : Type 0} → Action S E A → Action (N × S) E A
on_payments m (n, s) = ((m s).0, (n, (m s).1))

module _ (nonces : Collection Text PayCoresCallbackNonceDocument) where
  unfoldable pub consume :
      Text → Text → Text → Time → Action (Collection.Store nonces) Error (Unit {0})
  consume hash method path at = do
    raise_if (not (is_valid_nonce_hash hash) || is_blank method || is_blank path || is_zero at)
        invalid_payment_callback_nonce
    λ n.
        let d : PayCoresCallbackNonceDocument = record {
          method = method;
          path = path;
          expires_at = at;
        } in
        let x = Collection.insert_one nonces hash d n in
        (answer_or payment_callback_replayed x.0, x.1)

  -- `settle` is `SettleVerifiedOrder`, and `wait` the pause for an order that is not bound yet: it
  -- may be cancelled, and other processes may write in it.
  module _ {S : Type 0} (repository : Repository S)
      (settle : VerifiedOrderSettlement → Action S Error ApplyResult)
      (wait : Action S Error (Unit {0})) where
    unfoldable pub look_again :
        VerifiedPaymentConfirmation → Option PaymentOrder → Action S Error (Option PaymentOrder)
    look_again c (some o) = pure (some o)
    look_again c none = do wait; repository.find_order_by_provider_order pay_cores c.order_id

    -- What follows the nonce.
    unfoldable pub settle_confirmation :
        Time → VerifiedPaymentConfirmation → Action S Error ApplyResult
    settle_confirmation at c = do
      first ← repository.find_order_by_provider_order pay_cores c.order_id
      found ← look_again c first
      o ← lift (located found)
      settle (verified_order_settlement c o.id at)

    -- `Handle`, at `now`.
    unfoldable pub handle :
        Text
        → Time
        → VerifiedPaymentConfirmation
        → Action (Collection.Store nonces × S) Error ApplyResult
    handle callback_path now c = do
      raise_if (not (is_confirmed_callback_path callback_path))
          confirmed_callback_dependencies_unavailable
      raise_if (not (is_valid_confirmation c)) invalid_verified_payment_confirmation
      raise_if (is_zero now) confirmed_callback_dependencies_unavailable
      on_nonces
          (consume c.nonce_hash (codes "POST") callback_path (now + payment_callback_nonce_ttl))
      on_payments (settle_confirmation now c)
