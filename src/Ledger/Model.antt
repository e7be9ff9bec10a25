-- ===== src/Ledger/Model.antt =====
-- internal/biz/ledger/model.go, repository.go and errors.go: the facts of a reservation and the
-- storage operations that the use case is written against.
use ai_go.Common.{Bool, Option}
use ai_go.Common.Int.{ℤ}
use ai_go.Common.Text.{Text}
use ai_go.Common.Action.{Action}
use ai_go.Common.Clock.{Time}

-- `BenefitSource`; every other string is `other_source`.
pub data BenefitSource : Type 0 where
  daily_quota diamonds : BenefitSource
  other_source : Text → BenefitSource

pub data ReservationStatus : Type 0 where
  reserved reversed confiscated : ReservationStatus
  other_status : Text → ReservationStatus

pub data ReversalReason : Type 0 where
  generation_failed submission_rejected : ReversalReason
  other_reason : Text → ReversalReason

pub record QuotaReservation : Type 0 where
  pub kind : Text
  pub local_date : Text
  pub limit : ℤ  -- int32
  pub units : ℤ  -- int32

pub record ReserveRequest : Type 0 where
  pub creation_id : Text
  pub user_id : Text
  pub price_diamonds : ℤ  -- int64
  pub quota : QuotaReservation
  pub business_at : Time

pub record Reservation : Type 0 where
  pub id : Text
  pub creation_id : Text
  pub user_id : Text
  pub price_diamonds : ℤ
  pub source : BenefitSource
  pub charged_diamonds : ℤ
  pub quota : QuotaReservation
  pub status : ReservationStatus
  pub created_at : Time
  pub updated_at : Time

pub record LedgerEntry : Type 0 where
  pub idempotency_key : Text
  pub creation_id : Text
  pub delta_diamonds : ℤ
  pub reason : Text
  pub created_at : Time

-- The errors of the package, `shared.ErrInsufficientFunds`, and all other errors of a repository.
pub data Error : Type 0 where
  reservation_command_conflict reservation_state_conflict : Error
  invalid_reservation_command reservation_not_found : Error
  ledger_dependencies_unavailable insufficient_funds repository_error : Error

-- `Repository`, over a store `S`.
pub record Repository (S : Type 0) : Type 0 where
  pub find_reservation : Text → Action S Error (Option Reservation)
  pub find_diamond_balance : Text → Action S Error ℤ
  pub try_consume_quota : Text → QuotaReservation → Time → Action S Error Bool
  pub restore_quota : Text → QuotaReservation → Time → Action S Error (Unit {0})
  pub try_debit_diamonds : Text → ℤ → Time → Action S Error Bool
  pub credit_diamonds : Text → ℤ → Time → Action S Error (Unit {0})
  pub create_reservation : Reservation → Action S Error (Unit {0})
  pub transition_reservation :
      Text → ReservationStatus → ReservationStatus → Time → Action S Error Bool
  pub append_ledger_entry : LedgerEntry → Action S Error (Unit {0})
