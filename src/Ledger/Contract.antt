-- ===== src/Ledger/Contract.antt =====
-- What the use case relies on of its repository: the facts that a store shows, and the effect of
-- each operation that succeeds. An operation that fails promises nothing of the store, which its
-- transaction takes back.
use ai_go.Common.{Bool, true, false, ◌≡◌, ◌≢◌, ◌⊎◌, Option, none, some}
use ai_go.Common.Int.{ℤ, pos, ◌+ℤ◌, ◌-ℤ◌, ◌≤ℤ◌, ◌<ℤ◌}
use ai_go.Common.Text.{Text}
use ai_go.Common.Result.{ok}
use ai_go.Common.Clock.{Time}
use ai_go.Ledger.Model.{
  Repository, Reservation, ReservationStatus, reserved, reversed, confiscated, QuotaReservation,
  LedgerEntry,
}

pub record QuotaUse : Type 0 where
  pub limit : ℤ
  pub used : ℤ

-- The facts of a store: reservations by creation, balances by user, quotas by user, kind and local
-- date, ledger entries by idempotency key, and whether a creation's reservation may still be
-- settled, that is, its result has not been published.
pub record View (S : Type 0) : Type 0 where
  pub reservation : S → Text → Option Reservation
  pub may_settle : S → Text → Bool
  pub balance : S → Text → Option ℤ
  pub quota : S → Text → Text → Text → Option QuotaUse
  pub entry : S → Text → Option LedgerEntry

module _ {S : Type 0} (v : View S) where
  open v use {reservation, may_settle, balance, quota, entry}

  -- The operation touches nothing but the balance of `user`, which becomes `new`.
  pub record Balances (s t : S) (user : Text) (old new : ℤ) : Type 0 where
    pub old_balance : balance s user ≡ some old
    pub new_balance : balance t user ≡ some new
    pub other_balances : (w : Text) → w ≢ user → balance t w ≡ balance s w
    pub same_quotas : quota t ≡ quota s
    pub same_reservations : reservation t ≡ reservation s
    pub same_gates : may_settle t ≡ may_settle s
    pub same_entries : entry t ≡ entry s

  -- It touches nothing but the use of one quota, which becomes `new`.
  pub record Quotas (s t : S) (user : Text) (q : QuotaReservation) (old new : QuotaUse)
      : Type 0 where
    pub old_use : quota s user q.kind q.local_date ≡ some old
    pub new_use : quota t user q.kind q.local_date ≡ some new
    pub other_users : (w k d : Text) → w ≢ user → quota t w k d ≡ quota s w k d
    pub other_kinds : (w k d : Text) → k ≢ q.kind → quota t w k d ≡ quota s w k d
    pub other_dates : (w k d : Text) → d ≢ q.local_date → quota t w k d ≡ quota s w k d
    pub same_balances : balance t ≡ balance s
    pub same_reservations : reservation t ≡ reservation s
    pub same_gates : may_settle t ≡ may_settle s
    pub same_entries : entry t ≡ entry s

  -- It touches nothing but the reservation of one creation, which becomes `new`.
  pub record Reservations (s t : S) (creation : Text) (old : Option Reservation) (new : Reservation)
      : Type 0 where
    pub old_reservation : reservation s creation ≡ old
    pub new_reservation : reservation t creation ≡ some new
    pub other_reservations : (c : Text) → c ≢ creation → reservation t c ≡ reservation s c
    pub other_gates : (c : Text) → c ≢ creation → may_settle t c ≡ may_settle s c
    pub same_balances : balance t ≡ balance s
    pub same_quotas : quota t ≡ quota s
    pub same_entries : entry t ≡ entry s

  -- It touches nothing but the entry under one key, which is new.
  pub record Entries (s t : S) (e : LedgerEntry) : Type 0 where
    pub no_entry : entry s e.idempotency_key ≡ none
    pub new_entry : entry t e.idempotency_key ≡ some e
    pub other_entries : (k : Text) → k ≢ e.idempotency_key → entry t k ≡ entry s k
    pub same_balances : balance t ≡ balance s
    pub same_quotas : quota t ≡ quota s
    pub same_reservations : reservation t ≡ reservation s
    pub same_gates : may_settle t ≡ may_settle s

  abbrev pub balance_or_zero : Option ℤ → ℤ
  balance_or_zero none = pos 0
  balance_or_zero (some b) = b

  pub record Laws (r : Repository S) : Type 0 where
    pub find_law :
        (c : Text) (s t : S) (o : Option Reservation)
        → r.find_reservation c s ≡ (ok o, t)
        → (t ≡ s) × (o ≡ reservation s c)
    pub balance_law :
        (u : Text) (s t : S) (b : ℤ)
        → r.find_diamond_balance u s ≡ (ok b, t)
        → (t ≡ s) × (b ≡ balance_or_zero (balance s u))
    pub consume_law :
        (u : Text) (q : QuotaReservation) (at : Time) (s t : S)
        → r.try_consume_quota u q at s ≡ (ok true, t)
        → (used : ℤ) × (pos 0 <ℤ q.units)
          × (used +ℤ q.units ≤ℤ q.limit)
          × Quotas s t u q
              (record { limit = q.limit; used = used })
              (record { limit = q.limit; used = used +ℤ q.units })
    pub consume_miss :
        (u : Text) (q : QuotaReservation) (at : Time) (s t : S)
        → r.try_consume_quota u q at s ≡ (ok false, t)
        → t ≡ s
    pub restore_law :
        (u : Text) (q : QuotaReservation) (at : Time) (s t : S)
        → r.restore_quota u q at s ≡ (ok tt, t)
        → (use_ : QuotaUse) × (pos 0 <ℤ q.units)
          × (q.units ≤ℤ use_.used)
          × Quotas s t u q use_ (record use_ { used = use_.used -ℤ q.units })
    pub debit_law :
        (u : Text) (d : ℤ) (at : Time) (s t : S)
        → r.try_debit_diamonds u d at s ≡ (ok true, t)
        → (b : ℤ) × (pos 0 <ℤ d) × (d ≤ℤ b) × Balances s t u b (b -ℤ d)
    pub debit_miss :
        (u : Text) (d : ℤ) (at : Time) (s t : S)
        → r.try_debit_diamonds u d at s ≡ (ok false, t)
        → (t ≡ s) × ((b : ℤ) → balance s u ≡ some b → b <ℤ d)
    pub credit_law :
        (u : Text) (d : ℤ) (at : Time) (s t : S)
        → r.credit_diamonds u d at s ≡ (ok tt, t)
        → (b : ℤ) × (pos 0 <ℤ d) × Balances s t u b (b +ℤ d)
    pub create_law :
        (n : Reservation) (s t : S)
        → r.create_reservation n s ≡ (ok tt, t)
        → Reservations s t n.creation_id none n × (may_settle t n.creation_id ≡ true)
    pub transition_law :
        (c : Text) (to : ReservationStatus) (at : Time) (s t : S)
        → r.transition_reservation c reserved to at s ≡ (ok true, t)
        → (n : Reservation) × (n.status ≡ reserved)
          × (may_settle s c ≡ true)
          × Reservations s t c (some n) (record n { status = to; updated_at = at })
          × ((to ≡ reversed) ⊎ (to ≡ confiscated) → may_settle t c ≡ false)
    pub append_law :
        (e : LedgerEntry) (s t : S) → r.append_ledger_entry e s ≡ (ok tt, t) → Entries s t e
