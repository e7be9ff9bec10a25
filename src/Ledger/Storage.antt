-- ===== src/Ledger/Storage.antt =====
-- internal/data/ledger_repository.go: the repository over four MongoDB collections. Every filter of
-- the source fixes a unique index: `_id` of an account and of a ledger entry, the creation of a
-- reservation, and the user, kind and local date of a quota. The repository is wired, so that
-- `ready` passes.
pub mod Effects
pub mod Accounts
pub mod Writes
pub mod Refinement
pub mod Answers
pub mod Progress
pub mod Reversible
use ai_go.Common.{Bool, true, false, not, ◌&&◌, ◌||◌, Option, none, some, if◌then◌else◌}
use ai_go.Common.Int.{ℤ, pos, ◌+ℤ◌, ◌-ℤ◌, leb_ℤ, ltb_ℤ, eqb_ℤ}
use ai_go.Common.Text.{Text}
use ai_go.Common.Result.{Result, ok, err}
use ai_go.Common.Action.{Action, pure, raise, raise_if, lift, continue, ◌>>=◌, ◌>>◌}
use ai_go.Common.Clock.{Time, is_zero}
use ai_go.Mongo.{Collection, Reply, reply, no_reply}
use ai_go.Ledger.Model.{
  ReservationStatus, reserved, QuotaReservation, Reservation, LedgerEntry, Error,
  reservation_command_conflict, repository_error, Repository,
}
use ai_go.Ledger.Documents.{
  AccountDocument, QuotaKey, QuotaDocument, ReservationDocument, LedgerEntryDocument,
  new_reservation_document, to_biz_reservation, has_status, is_open_gate, closed_gate,
  settle_document,
}

pub record Database : Type 1 where
  pub accounts : Collection Text AccountDocument
  pub daily_quotas : Collection QuotaKey QuotaDocument
  pub reservations : Collection Text ReservationDocument
  pub ledger_entries : Collection Text LedgerEntryDocument

pub record Tables (db : Database) : Type 0 where
  pub accounts : Collection.Store db.accounts
  pub daily_quotas : Collection.Store db.daily_quotas
  pub reservations : Collection.Store db.reservations
  pub ledger_entries : Collection.Store db.ledger_entries

-- What the driver answered, as the method returns it.
abbrev pub answer : {A : Type 0} → Reply A → Result Error A
answer (reply a) = ok a
answer no_reply = err repository_error

-- `MatchedCount != 1` where it is an error, and a duplicate key.
abbrev pub answer_or : Error → Reply Bool → Result Error (Unit {0})
answer_or e (reply true) = ok tt
answer_or e (reply false) = err e
answer_or e no_reply = err repository_error

abbrev pub quota_key : Text → QuotaReservation → QuotaKey
quota_key user q = record { user_id = user; quota_kind = q.kind; local_date = q.local_date }

-- The conditions of the filters beside the key, and the updates.
abbrev pub can_consume : QuotaReservation → QuotaDocument → Bool
can_consume q d = eqb_ℤ d.limit q.limit && leb_ℤ d.used_count (q.limit -ℤ q.units)

abbrev pub consume : QuotaReservation → Time → QuotaDocument → QuotaDocument
consume q at d = record d { used_count = d.used_count +ℤ q.units; updated_at = at }

abbrev pub can_restore : QuotaReservation → QuotaDocument → Bool
can_restore q d = leb_ℤ q.units d.used_count

abbrev pub restore : QuotaReservation → Time → QuotaDocument → QuotaDocument
restore q at d = record d { used_count = d.used_count -ℤ q.units; updated_at = at }

abbrev pub can_debit : ℤ → AccountDocument → Bool
can_debit amount d = leb_ℤ amount d.diamond_balance

abbrev pub debit : ℤ → Time → AccountDocument → AccountDocument
debit amount at d = record d { diamond_balance = d.diamond_balance -ℤ amount; updated_at = at }

abbrev pub credit : ℤ → Time → AccountDocument → AccountDocument
credit amount at d = record d { diamond_balance = d.diamond_balance +ℤ amount; updated_at = at }

-- From `reserved` the gate has to be open too; from any other status only the status counts.
abbrev pub can_transition : ReservationStatus → ReservationDocument → Bool
can_transition reserved d = has_status d.status reserved && is_open_gate d.publication_state
can_transition from d = has_status d.status from

abbrev pub transition :
    ReservationStatus → ReservationStatus → Time → ReservationDocument → ReservationDocument
transition reserved to at d = settle_document to at (closed_gate to) d
transition from to at d = record d { status = to; updated_at = at }

abbrev pub entry_document : LedgerEntry → ReservationDocument → LedgerEntryDocument
entry_document e d = record {
  idempotency_key = e.idempotency_key;
  account_id = d.user_id;
  creation_id = e.creation_id;
  delta_diamonds = e.delta_diamonds;
  reason = e.reason;
  reservation_id = d.id;
  created_at = e.created_at;
}

abbrev pub balance_of : Option AccountDocument → ℤ
balance_of none = pos 0
balance_of (some d) = d.diamond_balance

unfoldable pub read_document :
    Reply (Option ReservationDocument) → Result Error (Option Reservation)
read_document (reply none) = ok none
read_document (reply (some d)) = ok (some (to_biz_reservation d))
read_document no_reply = err repository_error

unfoldable pub read_balance : Reply (Option AccountDocument) → Result Error ℤ
read_balance (reply o) = ok (balance_of o)
read_balance no_reply = err repository_error

module _ (db : Database) where
  -- A call of each collection, on the tables.
  abbrev pub on_accounts :
      {A : Type 0}
      → (Collection.Store (Database.accounts db)
          → Reply Bool × Collection.Store (Database.accounts db))
      → (Reply Bool → Result Error A)
      → Action (Tables db) Error A
  on_accounts call read s = (read (call s.accounts).0, record s { accounts = (call s.accounts).1 })

  abbrev pub on_quotas :
      {A : Type 0}
      → (Collection.Store (Database.daily_quotas db)
          → Reply Bool × Collection.Store (Database.daily_quotas db))
      → (Reply Bool → Result Error A)
      → Action (Tables db) Error A
  on_quotas call read s =
      (read (call s.daily_quotas).0, record s { daily_quotas = (call s.daily_quotas).1 })

  abbrev pub on_reservations :
      {A : Type 0}
      → (Collection.Store (Database.reservations db)
          → Reply Bool × Collection.Store (Database.reservations db))
      → (Reply Bool → Result Error A)
      → Action (Tables db) Error A
  on_reservations call read s =
      (read (call s.reservations).0, record s { reservations = (call s.reservations).1 })

  abbrev pub on_entries :
      {A : Type 0}
      → (Collection.Store (Database.ledger_entries db)
          → Reply Bool × Collection.Store (Database.ledger_entries db))
      → (Reply Bool → Result Error A)
      → Action (Tables db) Error A
  on_entries call read s =
      (read (call s.ledger_entries).0, record s { ledger_entries = (call s.ledger_entries).1 })

  unfoldable pub find_reservation : Text → Action (Tables db) Error (Option Reservation)
  find_reservation creation_id s =
      (read_document (Collection.find_one db.reservations creation_id s.reservations), s)

  unfoldable pub find_diamond_balance : Text → Action (Tables db) Error ℤ
  find_diamond_balance user_id s =
      (read_balance (Collection.find_one db.accounts user_id s.accounts), s)

  unfoldable pub try_consume_quota : Text → QuotaReservation → Time → Action (Tables db) Error Bool
  try_consume_quota user_id q at = do
    raise_if (leb_ℤ q.limit (pos 0) || leb_ℤ q.units (pos 0) || ltb_ℤ q.limit q.units)
        repository_error
    raise_if (is_zero at) repository_error
    on_quotas
        (Collection.update_one db.daily_quotas (quota_key user_id q) (can_consume q) (consume q at))
        answer

  unfoldable pub restore_quota :
      Text → QuotaReservation → Time → Action (Tables db) Error (Unit {0})
  restore_quota user_id q at = do
    raise_if (leb_ℤ q.units (pos 0)) repository_error
    raise_if (is_zero at) repository_error
    on_quotas
        (Collection.update_one db.daily_quotas (quota_key user_id q) (can_restore q) (restore q at))
        (answer_or repository_error)

  unfoldable pub try_debit_diamonds : Text → ℤ → Time → Action (Tables db) Error Bool
  try_debit_diamonds user_id amount at = do
    raise_if (leb_ℤ amount (pos 0)) repository_error
    raise_if (is_zero at) repository_error
    on_accounts (Collection.update_one db.accounts user_id (can_debit amount) (debit amount at))
        answer

  unfoldable pub credit_diamonds : Text → ℤ → Time → Action (Tables db) Error (Unit {0})
  credit_diamonds user_id amount at = do
    raise_if (leb_ℤ amount (pos 0)) repository_error
    raise_if (is_zero at) repository_error
    on_accounts (Collection.update_one db.accounts user_id (λ d. true) (credit amount at))
        (answer_or repository_error)

  unfoldable pub create_reservation : Reservation → Action (Tables db) Error (Unit {0})
  create_reservation v =
      on_reservations
        (Collection.insert_one db.reservations v.creation_id (new_reservation_document v))
        (answer_or reservation_command_conflict)

  unfoldable pub transition_reservation :
      Text → ReservationStatus → ReservationStatus → Time → Action (Tables db) Error Bool
  transition_reservation creation_id from to at = do
    raise_if (is_zero at) repository_error
    on_reservations
        (Collection.update_one db.reservations creation_id (can_transition from)
          (transition from to at))
        answer

  -- What follows the read of the entry's reservation.
  unfoldable pub append_reply :
      LedgerEntry → Reply (Option ReservationDocument) → Action (Tables db) Error (Unit {0})
  append_reply e no_reply = raise repository_error
  append_reply e (reply none) = raise repository_error
  append_reply e (reply (some d)) =
      on_entries (Collection.insert_one db.ledger_entries e.idempotency_key (entry_document e d))
        (answer_or repository_error)

  unfoldable pub append_ledger_entry : LedgerEntry → Action (Tables db) Error (Unit {0})
  append_ledger_entry e s =
      append_reply e (Collection.find_one db.reservations e.creation_id s.reservations) s

  abbrev pub ledger_repository : Repository (Tables db)
  ledger_repository = record {
    find_reservation = find_reservation;
    find_diamond_balance = find_diamond_balance;
    try_consume_quota = try_consume_quota;
    restore_quota = restore_quota;
    try_debit_diamonds = try_debit_diamonds;
    credit_diamonds = credit_diamonds;
    create_reservation = create_reservation;
    transition_reservation = transition_reservation;
    append_ledger_entry = append_ledger_entry;
  }
