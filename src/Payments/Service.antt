-- ===== src/Payments/Service.antt =====
-- internal/biz/payments/service.go. `now` is the service's clock, which a receipt with a time of its
-- own does not read. What other processes commit between a transaction that failed and the reads
-- after it is an argument, `meanwhile`.
use ai_go.Common.{Bool, true, false, not, ◌||◌, Option, none, some, if◌then◌else◌}
use ai_go.Common.Text.{Text, codes, is_blank, eq_text}
use ai_go.Common.Result.{Result, ok, err}
use ai_go.Common.Action.{Action, pure, raise, raise_if, lift, rescue, ◌>>=◌, ◌>>◌}
use ai_go.Common.Clock.{Time, is_zero}
use ai_go.Mongo.{Transaction}
use ai_go.Payments.Model.{
  repository_error, PaymentOrder, Receipt, PaymentCredit, ApplyResult, VerifiedOrderSettlement,
  Error, invalid_payment_order, invalid_receipt, receipt_conflict, receipt_already_exists,
  payment_order_not_found, payment_order_mismatch, payment_settlement_inconsistent, Repository,
}
use ai_go.Payments.Rules.{
  is_valid_provider, is_pending, is_paid, invalid_settlement_order, normalize_receipt, same_fact,
}

abbrev pub payment_credit_reason : Text
payment_credit_reason = codes "payment_credit"

abbrev pub credit_of : Receipt → PaymentCredit
credit_of r = record { receipt = r; reason = payment_credit_reason; created_at = r.business_at }

-- `errors.Is(err, ErrReceiptAlreadyExists)`.
abbrev pub is_receipt_already_exists : Error → Bool
is_receipt_already_exists receipt_already_exists = true
is_receipt_already_exists _ = false

unfoldable pub invalid_settlement : VerifiedOrderSettlement → Bool
invalid_settlement v =
    is_blank v.payment_order_id
    || is_blank v.user_id
    || not (is_valid_provider v.provider)
    || is_blank v.provider_order_id
    || is_blank v.external_transaction_id
    || is_zero v.business_at

unfoldable pub mismatched : PaymentOrder → VerifiedOrderSettlement → Bool
mismatched o v =
    not (eq_text o.user_id v.user_id)
    || not (eq_text o.provider v.provider)
    || not (eq_text o.provider_order_id v.provider_order_id)

abbrev pub receipt_of : PaymentOrder → VerifiedOrderSettlement → Receipt
receipt_of o v = record {
  provider = o.provider;
  external_transaction_id = v.external_transaction_id;
  payment_order_id = o.id;
  user_id = o.user_id;
  diamond_amount = o.diamond_amount;
  business_at = v.business_at;
}

unfoldable pub found_order : Option PaymentOrder → Result Error PaymentOrder
found_order none = err payment_order_not_found
found_order (some o) = ok o

module _ {S : Type 0} (repository : Repository S) (now : Time) where
  open repository use {
    find_receipt, find_diamond_balance, create_receipt, credit_diamonds, append_payment_credit,
    find_order, mark_order_paid,
  }

  -- The answer to a replay: the balance, with nothing applied.
  unfoldable pub replay : Text → Action S Error ApplyResult
  replay user_id = do
    balance ← find_diamond_balance user_id
    pure (record { applied = false; diamond_balance = balance })

  unfoldable pub record_receipt_within_tx : Receipt → Action S Error ApplyResult
  record_receipt_within_tx r = do
    create_receipt r
    balance ← credit_diamonds r.user_id r.diamond_amount r.business_at
    append_payment_credit (credit_of r)
    pure (record { applied = true; diamond_balance = balance })

  -- `applyReceiptWithinTx` on the receipt that it finds.
  unfoldable pub apply_existing : Receipt → Option Receipt → Action S Error ApplyResult
  apply_existing r none = record_receipt_within_tx r
  apply_existing r (some existing) = do
    raise_if (not (same_fact r existing)) receipt_conflict
    replay r.user_id

  unfoldable pub apply_receipt_within_tx : Receipt → Action S Error ApplyResult
  apply_receipt_within_tx r = do
    existing ← find_receipt r.provider r.external_transaction_id
    apply_existing r existing

  unfoldable pub resolve_existing : Receipt → Option Receipt → Action S Error ApplyResult
  resolve_existing r none = raise receipt_already_exists
  resolve_existing r (some existing) = do
    raise_if (not (same_fact r existing)) receipt_conflict
    replay r.user_id

  unfoldable pub resolve_existing_receipt : Receipt → Action S Error ApplyResult
  resolve_existing_receipt r = do
    existing ← find_receipt r.provider r.external_transaction_id
    resolve_existing r existing

  unfoldable pub apply_receipt :
      Transaction S Error repository_error ApplyResult
      → (S → S)
      → Receipt
      → Action S Error ApplyResult
  apply_receipt tx meanwhile receipt = do
    normalized ← lift (normalize_receipt receipt now)
    λ s.
        rescue is_receipt_already_exists (λ t. resolve_existing_receipt normalized (meanwhile t))
          (tx.run (apply_receipt_within_tx normalized) s)

  -- The order of a settlement, and the receipt that it makes of it: the checks that open both the
  -- transaction and the resolution behind it.
  unfoldable pub associated : VerifiedOrderSettlement → Action S Error PaymentOrder
  associated v = do
    found ← find_order v.payment_order_id
    o ← lift (found_order found)
    raise_if (invalid_settlement_order o) invalid_payment_order
    raise_if (mismatched o v) payment_order_mismatch
    pure o

  -- A receipt that is there: a paid order's own is a replay.
  unfoldable pub settle_existing : PaymentOrder → Receipt → Receipt → Action S Error ApplyResult
  settle_existing o r existing =
      if is_paid o.status
      then (raise_if (not (same_fact r existing)) payment_settlement_inconsistent
          >> replay r.user_id)
      else (raise_if (not (same_fact r existing)) receipt_conflict
          >> raise payment_settlement_inconsistent)

  unfoldable pub settle_new : PaymentOrder → Receipt → Action S Error ApplyResult
  settle_new o r = do
    raise_if (not (is_pending o.status)) payment_settlement_inconsistent
    transitioned ← mark_order_paid o.id r.business_at
    raise_if (not transitioned) payment_settlement_inconsistent
    record_receipt_within_tx r

  unfoldable pub settle_found : PaymentOrder → Receipt → Option Receipt → Action S Error ApplyResult
  settle_found o r none = settle_new o r
  settle_found o r (some existing) = settle_existing o r existing

  unfoldable pub settle_order : VerifiedOrderSettlement → PaymentOrder → Action S Error ApplyResult
  settle_order v o = do
    r ← lift (normalize_receipt (receipt_of o v) now)
    existing ← find_receipt r.provider r.external_transaction_id
    settle_found o r existing

  -- The callback of `SettleVerifiedOrder`.
  unfoldable pub settle_within_tx : VerifiedOrderSettlement → Action S Error ApplyResult
  settle_within_tx v = do o ← associated v; settle_order v o

  unfoldable pub resolve_found :
      PaymentOrder → Receipt → Option Receipt → Action S Error ApplyResult
  resolve_found o r none = raise receipt_already_exists
  resolve_found o r (some existing) = settle_existing o r existing

  unfoldable pub resolve_order : VerifiedOrderSettlement → PaymentOrder → Action S Error ApplyResult
  resolve_order v o = do
    r ← lift (normalize_receipt (receipt_of o v) now)
    existing ← find_receipt r.provider r.external_transaction_id
    resolve_found o r existing

  unfoldable pub resolve_verified_order_settlement :
      VerifiedOrderSettlement → Action S Error ApplyResult
  resolve_verified_order_settlement v = do o ← associated v; resolve_order v o

  unfoldable pub settle_verified_order :
      Transaction S Error repository_error ApplyResult
      → (S → S)
      → VerifiedOrderSettlement
      → Action S Error ApplyResult
  settle_verified_order tx meanwhile v = do
    raise_if (invalid_settlement v) invalid_receipt
    λ s.
        rescue is_receipt_already_exists (λ t. resolve_verified_order_settlement v (meanwhile t))
          (tx.run (settle_within_tx v) s)
