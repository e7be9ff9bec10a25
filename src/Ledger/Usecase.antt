-- ===== src/Ledger/Usecase.antt =====
-- internal/biz/ledger/usecase.go. A use case whose repository or transaction runner is `nil` is
-- `none` there; a store `S` and the current time are arguments.
use ai_go.Common.{Bool, true, false, not, ◌&&◌, ◌||◌, Option, none, some, ◌++◌, if◌then◌else◌}
use ai_go.Common.Int.{ℤ, pos, ◌-ℤ◌, leb_ℤ, ltb_ℤ, eqb_ℤ}
use ai_go.Common.Text.{Text, codes, is_empty, eq_text}
use ai_go.Common.Action.{Action, pure, raise, raise_if, ◌>>=◌, ◌>>◌}
use ai_go.Common.Clock.{Time, is_zero}
use ai_go.Mongo.{Transaction}
use ai_go.Ledger.Model.{
  repository_error, BenefitSource, daily_quota, diamonds, other_source, ReservationStatus, reserved,
  reversed, confiscated, ReversalReason, generation_failed, submission_rejected, QuotaReservation,
  ReserveRequest, Reservation, LedgerEntry, Error, reservation_command_conflict,
  reservation_state_conflict, invalid_reservation_command, reservation_not_found,
  ledger_dependencies_unavailable, insufficient_funds, Repository,
}

abbrev pub reservation_reason : Text
reservation_reason = codes "generation_reserved"

unfoldable pub quota_disabled : QuotaReservation → Bool
quota_disabled q = eqb_ℤ q.limit (pos 0) && eqb_ℤ q.units (pos 0)

unfoldable pub invalid_reserve_request : ReserveRequest → Bool
unfolding quota_disabled
invalid_reserve_request r =
    is_empty r.creation_id
    || is_empty r.user_id
    || leb_ℤ r.price_diamonds (pos 0)
    || is_zero r.business_at
    || is_empty r.quota.kind
    || is_empty r.quota.local_date
    || (not (quota_disabled r.quota)
        && (leb_ℤ r.quota.limit (pos 0)
            || leb_ℤ r.quota.units (pos 0)
            || ltb_ℤ r.quota.limit r.quota.units))

unfoldable pub same_reservation_command : Reservation → ReserveRequest → Bool
same_reservation_command v r =
    eq_text v.user_id r.user_id
    && eqb_ℤ v.price_diamonds r.price_diamonds
    && eq_text v.quota.kind r.quota.kind
    && eq_text v.quota.local_date r.quota.local_date
    && eqb_ℤ v.quota.limit r.quota.limit
    && eqb_ℤ v.quota.units r.quota.units

unfoldable pub reservation_id : Text → Text
reservation_id creation_id = codes "reservation:" ++ creation_id

unfoldable pub reserve_ledger_key : Text → Text
reserve_ledger_key creation_id = codes "reserve:" ++ creation_id

unfoldable pub reverse_ledger_key : Text → Text
reverse_ledger_key creation_id = codes "reverse:" ++ creation_id

unfoldable pub is_allowed_reversal_reason : ReversalReason → Bool
is_allowed_reversal_reason generation_failed = true
is_allowed_reversal_reason submission_rejected = true
is_allowed_reversal_reason _ = false

-- `string(reason)`.
unfoldable pub reversal_text : ReversalReason → Text
reversal_text generation_failed = codes "generation_failed"
reversal_text submission_rejected = codes "submission_rejected"
reversal_text (ReversalReason.other_reason t) = t

abbrev pub is_reserved : ReservationStatus → Bool
is_reserved reserved = true
is_reserved _ = false

abbrev pub negate : ℤ → ℤ
negate d = pos 0 -ℤ d

abbrev pub new_reservation : ReserveRequest → BenefitSource × ℤ → Reservation
new_reservation r (source, charged) = record {
  id = reservation_id r.creation_id;
  creation_id = r.creation_id;
  user_id = r.user_id;
  price_diamonds = r.price_diamonds;
  source = source;
  charged_diamonds = charged;
  quota = r.quota;
  status = reserved;
  created_at = r.business_at;
  updated_at = r.business_at;
}

abbrev pub reserve_entry : ReserveRequest → ℤ → LedgerEntry
reserve_entry r charged = record {
  idempotency_key = reserve_ledger_key r.creation_id;
  creation_id = r.creation_id;
  delta_diamonds = negate charged;
  reason = reservation_reason;
  created_at = r.business_at;
}

abbrev pub reverse_entry : Text → ReversalReason → Time → ℤ → LedgerEntry
reverse_entry creation_id reason at delta = record {
  idempotency_key = reverse_ledger_key creation_id;
  creation_id = creation_id;
  delta_diamonds = delta;
  reason = reversal_text reason;
  created_at = at;
}

module _ {S : Type 0} (repository : Repository S) where
  open repository use {
    find_reservation, find_diamond_balance, try_consume_quota, restore_quota, try_debit_diamonds,
    credit_diamonds, create_reservation, transition_reservation, append_ledger_entry,
  }

  -- Whether the daily quota pays.
  unfoldable pub consume_quota : ReserveRequest → Action S Error Bool
  consume_quota r =
      if quota_disabled r.quota
      then pure false
      else try_consume_quota r.user_id r.quota r.business_at

  unfoldable pub debit_price : ReserveRequest → Action S Error (BenefitSource × ℤ)
  debit_price r = do
    debited ← try_debit_diamonds r.user_id r.price_diamonds r.business_at
    raise_if (not debited) insufficient_funds
    pure (diamonds, r.price_diamonds)

  -- What the reservation is charged to, and how much: the quota first, else the diamonds.
  unfoldable pub charge : ReserveRequest → Action S Error (BenefitSource × ℤ)
  charge r = do
    consumed ← consume_quota r
    if consumed then pure (daily_quota, pos 0) else debit_price r

  -- The writes of `reserveInTx` behind the charge.
  unfoldable pub write_reservation : ReserveRequest → BenefitSource × ℤ → Action S Error Reservation
  write_reservation r charged = do
    create_reservation (new_reservation r charged)
    append_ledger_entry (reserve_entry r charged.1)
    pure (new_reservation r charged)

  unfoldable pub reserve_new : ReserveRequest → Action S Error Reservation
  reserve_new r = do
    raise_if (invalid_reserve_request r) invalid_reservation_command
    charged ← charge r
    write_reservation r charged

  -- The private `reserveInTx`, on the reservation that it finds.
  unfoldable pub reserve_found : ReserveRequest → Option Reservation → Action S Error Reservation
  reserve_found r none = reserve_new r
  reserve_found r (some existing) =
      if same_reservation_command existing r
      then pure existing
      else raise reservation_command_conflict

  -- `ReverseInTx` gives back what the reservation took: how many diamonds.
  unfoldable pub refund : Reservation → Time → BenefitSource → Action S Error ℤ
  refund found at diamonds = do
    credit_diamonds found.user_id found.charged_diamonds at
    pure found.charged_diamonds
  refund found at daily_quota = do restore_quota found.user_id found.quota at; pure (pos 0)
  refund found at (other_source t) = raise reservation_state_conflict

  -- The writes of `ReverseInTx` behind the refund.
  unfoldable pub write_reversal :
      Text → ReversalReason → Time → Reservation → ℤ → Action S Error Reservation
  write_reversal creation_id reason at found delta = do
    append_ledger_entry (reverse_entry creation_id reason at delta)
    pure (record found { status = reversed })

  unfoldable pub refund_and_write :
      Text → ReversalReason → Time → Reservation → Action S Error Reservation
  refund_and_write creation_id reason at found = do
    delta ← refund found at found.source
    write_reversal creation_id reason at found delta

  -- `ReverseInTx` on a reserved reservation.
  unfoldable pub reverse_reserved :
      Text → ReversalReason → Time → Reservation → Action S Error Reservation
  reverse_reserved creation_id reason at found = do
    transitioned ← transition_reservation creation_id reserved reversed at
    raise_if (not transitioned) reservation_state_conflict
    refund_and_write creation_id reason at found

  -- The `switch` on the status of the reservation that `ReverseInTx` finds.
  unfoldable pub reverse_status :
      Text → ReversalReason → Time → Reservation → ReservationStatus → Action S Error Reservation
  reverse_status creation_id reason at found reversed = pure found
  reverse_status creation_id reason at found confiscated = raise reservation_state_conflict
  reverse_status creation_id reason at found reserved = reverse_reserved creation_id reason at found
  reverse_status creation_id reason at found (ReservationStatus.other_status t) =
      raise reservation_state_conflict

  unfoldable pub reverse_found :
      Text → ReversalReason → Time → Option Reservation → Action S Error Reservation
  reverse_found creation_id reason at none = raise reservation_not_found
  reverse_found creation_id reason at (some found) =
      reverse_status creation_id reason at found found.status

  unfoldable pub confiscate_found : Text → Time → Option Reservation → Action S Error Reservation
  confiscate_found creation_id at none = raise reservation_not_found
  confiscate_found creation_id at (some found) = do
    raise_if (not (is_reserved found.status)) reservation_state_conflict
    transitioned ← transition_reservation creation_id reserved confiscated at
    raise_if (not transitioned) reservation_state_conflict
    pure (record found { status = confiscated })

-- The receiver: without a repository it is `nil` or not yet wired, and so without a transaction
-- runner.
pub record Usecase (S : Type 0) : Type 0 where
  pub repository : Option (Repository S)
  pub tx : Option (Transaction S Error repository_error Reservation)

module _ {S : Type 0} where
  unfoldable pub reserve_in_tx : Option (Repository S) → ReserveRequest → Action S Error Reservation
  reserve_in_tx none r = raise ledger_dependencies_unavailable
  reserve_in_tx (some repository) r = do
    raise_if (is_empty r.creation_id || is_zero r.business_at) invalid_reservation_command
    existing ← repository.find_reservation r.creation_id
    reserve_found repository r existing

  unfoldable pub find_reservation_of :
      Option (Repository S) → Text → Action S Error (Option Reservation)
  find_reservation_of none creation_id = raise invalid_reservation_command
  find_reservation_of (some repository) creation_id = do
    raise_if (is_empty creation_id) invalid_reservation_command
    repository.find_reservation creation_id

  unfoldable pub current_diamond_balance : Option (Repository S) → Text → Action S Error ℤ
  current_diamond_balance none user_id = raise invalid_reservation_command
  current_diamond_balance (some repository) user_id = do
    raise_if (is_empty user_id) invalid_reservation_command
    repository.find_diamond_balance user_id

  unfoldable pub reverse_in_tx :
      Option (Repository S) → Text → ReversalReason → Time → Action S Error Reservation
  reverse_in_tx none creation_id reason at = raise ledger_dependencies_unavailable
  reverse_in_tx (some repository) creation_id reason at = do
    raise_if (is_empty creation_id || not (is_allowed_reversal_reason reason) || is_zero at)
        invalid_reservation_command
    found ← repository.find_reservation creation_id
    reverse_found repository creation_id reason at found

  unfoldable pub confiscate_in_tx :
      Option (Repository S) → Text → Text → Time → Action S Error Reservation
  confiscate_in_tx none creation_id reason at = raise ledger_dependencies_unavailable
  confiscate_in_tx (some repository) creation_id reason at = do
    raise_if (is_empty creation_id || is_empty reason || is_zero at) invalid_reservation_command
    found ← repository.find_reservation creation_id
    confiscate_found repository creation_id at found

  -- `ready`, the checks before the transaction, and `WithinTx` of the callback.
  unfoldable pub within :
      Option (Repository S)
      → Option (Transaction S Error repository_error Reservation)
      → Bool
      → (Repository S → Action S Error Reservation)
      → Action S Error Reservation
  within none tx invalid callback = raise ledger_dependencies_unavailable
  within (some repository) none invalid callback = raise ledger_dependencies_unavailable
  within (some repository) (some tx) invalid callback = do
    raise_if invalid invalid_reservation_command
    tx.run (callback repository)

  unfoldable pub reserve : Usecase S → Time → ReserveRequest → Action S Error Reservation
  unfolding within
  reserve u now r = within u.repository u.tx (is_empty r.creation_id) λ repository.
      reserve_in_tx (some repository)
        (record r { business_at = if is_zero r.business_at then now else r.business_at })

  unfoldable pub reverse : Usecase S → Time → Text → ReversalReason → Action S Error Reservation
  unfolding within
  reverse u now creation_id reason =
      within u.repository u.tx (is_empty creation_id || not (is_allowed_reversal_reason reason))
        λ repository. reverse_in_tx (some repository) creation_id reason now

  unfoldable pub confiscate : Usecase S → Time → Text → Text → Action S Error Reservation
  unfolding within
  confiscate u now creation_id reason =
      within u.repository u.tx (is_empty creation_id || is_empty reason)
        λ repository. confiscate_in_tx (some repository) creation_id reason now
