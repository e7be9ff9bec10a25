-- ===== src/Ledger/Storage/Effects.antt =====
-- What an update of each collection of internal/data/ledger_repository.go does to the facts that
-- the use case sees.
use mathlib.Core.Option
use ai_go.Common.{Bool, true, ◌≡◌, refl, ap, ◌∙◌, Option, none, some}
use ai_go.Common.Text.{Text}
use ai_go.Mongo.{Collection, reply}
use ai_go.Ledger.Model.{QuotaReservation, LedgerEntry}
use ai_go.Ledger.Contract.{View, QuotaUse, Balances, Quotas, Reservations, Entries}
use ai_go.Ledger.Documents.{
  AccountDocument, QuotaKey, QuotaDocument, ReservationDocument, LedgerEntryDocument,
  to_biz_reservation, is_open_gate,
}
use ai_go.Ledger.Storage.{Database, Tables, quota_key}

-- What the documents say, as the facts of the contract.
abbrev pub gate_of : Option ReservationDocument → Bool
gate_of none = true
gate_of (some d) = is_open_gate d.publication_state

abbrev pub use_of : QuotaDocument → QuotaUse
use_of d = record { limit = d.limit; used = d.used_count }

abbrev pub entry_of : LedgerEntryDocument → LedgerEntry
entry_of d = record {
  idempotency_key = d.idempotency_key;
  creation_id = d.creation_id;
  delta_diamonds = d.delta_diamonds;
  reason = d.reason;
  created_at = d.created_at;
}

module _ (db : Database) where
  abbrev pub view : View (Tables db)
  view = record {
    reservation =
        λ s c. Option.map to_biz_reservation (Collection.get db.reservations s.reservations c);
    may_settle = λ s c. gate_of (Collection.get db.reservations s.reservations c);
    balance =
        λ s u. Option.map AccountDocument.diamond_balance (Collection.get db.accounts s.accounts u);
    quota = λ s u k d. Option.map use_of (
        Collection.get db.daily_quotas s.daily_quotas
          (record { user_id = u; quota_kind = k; local_date = d }));
    entry = λ s k. Option.map entry_of (Collection.get db.ledger_entries s.ledger_entries k);
  }

  pub account_effect :
      (u : Text) (p : AccountDocument → Bool) (f : AccountDocument → AccountDocument)
      (s : Tables db)
      → (Collection.update_one db.accounts u p f s.accounts).0 ≡ reply true
      → (d : AccountDocument) × (p d ≡ true)
        × Balances view s
            (record s { accounts = (Collection.update_one db.accounts u p f s.accounts).1 })
            u
            d.diamond_balance
            (f d).diamond_balance
  account_effect u p f s e =
      let x = Collection.update_one db.accounts u p f s.accounts in
      let (d, old, passed, new, others) =
        Collection.update_one_matched db.accounts u p f s.accounts x.1 (λ i. (e i, x.1)) in
      (
        d,
        passed,
        record {
          old_balance = ap (Option.map AccountDocument.diamond_balance) old;
          new_balance = ap (Option.map AccountDocument.diamond_balance) new;
          other_balances = λ w n. ap (Option.map AccountDocument.diamond_balance) (others w n);
          same_quotas = refl;
          same_reservations = refl;
          same_gates = refl;
          same_entries = refl;
        },
      )

  pub quota_effect :
      (u : Text) (q : QuotaReservation) (p : QuotaDocument → Bool)
      (f : QuotaDocument → QuotaDocument) (s : Tables db)
      → (Collection.update_one db.daily_quotas (quota_key u q) p f s.daily_quotas).0 ≡ reply true
      → (d : QuotaDocument) × (p d ≡ true)
        × Quotas view s
            (record s {
              daily_quotas =
                  (Collection.update_one db.daily_quotas (quota_key u q) p f s.daily_quotas).1;
            })
            u
            q
            (use_of d)
            (use_of (f d))
  quota_effect u q p f s e =
      let x = Collection.update_one db.daily_quotas (quota_key u q) p f s.daily_quotas in
      let (d, old, passed, new, others) =
        Collection.update_one_matched db.daily_quotas (quota_key u q) p f s.daily_quotas x.1
          (λ i. (e i, x.1)) in
      (
        d,
        passed,
        record {
          old_use = ap (Option.map use_of) old;
          new_use = ap (Option.map use_of) new;
          other_users =
              λ w k d n. ap (Option.map use_of) (others _ (λ same. n (ap QuotaKey.user_id same)));
          other_kinds = λ w k d n.
              ap (Option.map use_of) (others _ (λ same. n (ap QuotaKey.quota_kind same)));
          other_dates = λ w k d n.
              ap (Option.map use_of) (others _ (λ same. n (ap QuotaKey.local_date same)));
          same_balances = refl;
          same_reservations = refl;
          same_gates = refl;
          same_entries = refl;
        },
      )

  pub reservation_effect :
      (c : Text) (p : ReservationDocument → Bool) (f : ReservationDocument → ReservationDocument)
      (s : Tables db)
      → (Collection.update_one db.reservations c p f s.reservations).0 ≡ reply true
      → (d : ReservationDocument) × (p d ≡ true)
        × (View.may_settle view s c ≡ is_open_gate d.publication_state)
        × (View.may_settle view
              (record s {
                reservations = (Collection.update_one db.reservations c p f s.reservations).1;
              })
              c
            ≡ is_open_gate (f d).publication_state)
        × Reservations view s
            (record s {
              reservations = (Collection.update_one db.reservations c p f s.reservations).1;
            })
            c
            (some (to_biz_reservation d))
            (to_biz_reservation (f d))
  reservation_effect c p f s e =
      let x = Collection.update_one db.reservations c p f s.reservations in
      let (d, old, passed, new, others) =
        Collection.update_one_matched db.reservations c p f s.reservations x.1 (λ i. (e i, x.1)) in
      (
        d,
        passed,
        ap gate_of old,
        ap gate_of new,
        record {
          old_reservation = ap (Option.map to_biz_reservation) old;
          new_reservation = ap (Option.map to_biz_reservation) new;
          other_reservations = λ w n. ap (Option.map to_biz_reservation) (others w n);
          other_gates = λ w n. ap gate_of (others w n);
          same_balances = refl;
          same_quotas = refl;
          same_entries = refl;
        },
      )

  pub insert_reservation_effect :
      (c : Text) (d : ReservationDocument) (s : Tables db)
      → (Collection.insert_one db.reservations c d s.reservations).0 ≡ reply true
      → (View.may_settle view
            (record s {
              reservations = (Collection.insert_one db.reservations c d s.reservations).1;
            })
            c
          ≡ is_open_gate d.publication_state)
        × Reservations view s
            (record s {
              reservations = (Collection.insert_one db.reservations c d s.reservations).1;
            })
            c
            none
            (to_biz_reservation d)
  insert_reservation_effect c d s e =
      let x = Collection.insert_one db.reservations c d s.reservations in
      let (old, new, others) =
        Collection.insert_one_law db.reservations c d s.reservations x.1 (λ i. (e i, x.1)) in
      (
        ap gate_of new,
        record {
          old_reservation = ap (Option.map to_biz_reservation) old;
          new_reservation = ap (Option.map to_biz_reservation) new;
          other_reservations = λ w n. ap (Option.map to_biz_reservation) (others w n);
          other_gates = λ w n. ap gate_of (others w n);
          same_balances = refl;
          same_quotas = refl;
          same_entries = refl;
        },
      )

  pub insert_entry_effect :
      (e : LedgerEntry) (d : LedgerEntryDocument) (s : Tables db)
      → entry_of d ≡ e
      → (Collection.insert_one db.ledger_entries e.idempotency_key d s.ledger_entries).0
        ≡ reply true
      → Entries view s
          (record s {
            ledger_entries =
                (Collection.insert_one db.ledger_entries e.idempotency_key d s.ledger_entries).1;
          })
          e
  insert_entry_effect e d s same inserted =
      let x = Collection.insert_one db.ledger_entries e.idempotency_key d s.ledger_entries in
      let (old, new, others) =
        Collection.insert_one_law db.ledger_entries e.idempotency_key d s.ledger_entries x.1
          (λ i. (inserted i, x.1)) in
      record {
        no_entry = ap (Option.map entry_of) old;
        new_entry = ap (Option.map entry_of) new ∙ ap some same;
        other_entries = λ k n. ap (Option.map entry_of) (others k n);
        same_balances = refl;
        same_quotas = refl;
        same_reservations = refl;
        same_gates = refl;
      }
