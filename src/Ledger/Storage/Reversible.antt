-- ===== src/Ledger/Storage/Reversible.antt =====
-- `ReverseInTx` of internal/biz/ledger/usecase.go on the repository of
-- internal/data/ledger_repository.go, over a MongoDB that answers every call.
use ai_go.Common.{true, false, ◌≡◌, ◌≢◌, refl, ap, ◌∙◌, ◌<◌, none, some, arith, [], ◌||◌, not}
use ai_go.Common.Int.{ℤ, pos, ◌≤ℤ◌, ◌<ℤ◌, leb_ℤ}
use ai_go.Common.Text.{Text, is_empty, is_empty-ne_nil}
use ai_go.Common.Clock.{Time, is_zero}
use ai_go.Common.Result.{ok}
use ai_go.Common.Action.{◌>>=◌}
use ai_go.Mongo.{Collection, Responds, reply}
use ai_go.Ledger.Model.{daily_quota, diamonds, reserved, reversed, ReversalReason, Reservation}
use ai_go.Ledger.Usecase.{
  reverse_in_tx, reverse_found, reverse_status, reverse_reserved, refund_and_write, refund,
  write_reversal, is_allowed_reversal_reason, reverse_ledger_key, reverse_entry,
}
use ai_go.Ledger.Documents.{
  AccountDocument, QuotaDocument, ReservationDocument, to_biz_reservation, is_open_gate,
}
use ai_go.Ledger.Storage.{
  Database, Tables, ledger_repository, find_reservation, read_document, restore_quota,
  credit_diamonds, transition_reservation, append_ledger_entry, append_reply, credit, can_restore,
  restore, quota_key, entry_document, can_transition, transition,
}

module _ (db : Database) (accounts : Responds db.accounts) (quotas : Responds db.daily_quotas)
    (reservations : Responds db.reservations) (entries : Responds db.ledger_entries) where
  -- What the reservation took can be given back: its account, or the use of its quota, is there.
  pub data CanRefund (n : Reservation) (s : Tables db) : Type 0 where
    account_stands :
        (d : AccountDocument)
        → n.source ≡ diamonds
        → pos 0 <ℤ n.charged_diamonds
        → Collection.get db.accounts s.accounts n.user_id ≡ some d
        → CanRefund n s
    use_stands :
        (d : QuotaDocument)
        → n.source ≡ daily_quota
        → pos 0 <ℤ n.quota.units
        → n.quota.units ≤ℤ d.used_count
        → Collection.get db.daily_quotas s.daily_quotas (quota_key n.user_id n.quota) ≡ some d
        → CanRefund n s

  write_reversal-ok :
      (c : Text) (reason : ReversalReason) (at : Time) (n : Reservation) (delta : ℤ) (s : Tables db)
      (d : ReservationDocument)
      → Collection.get db.reservations s.reservations c ≡ some d
      → Collection.get db.ledger_entries s.ledger_entries (reverse_ledger_key c) ≡ none
      → (write_reversal (ledger_repository db) c reason at n delta s).0
        ≡ ok (record n { status = reversed })
  unfolding write_reversal append_ledger_entry append_reply
  write_reversal-ok c reason at n delta s d stored unlogged =
      let found = reservations.finds c s.reservations ∙ ap reply stored in
      let logged =
        entries.inserts (reverse_ledger_key c) (entry_document (reverse_entry c reason at delta) d)
          s.ledger_entries unlogged in
      rw (found, logged) refl

  refund_and_write-ok :
      (c : Text) (reason : ReversalReason) (at : Time) (n : Reservation) (s : Tables db)
      (d : ReservationDocument)
      → is_zero at ≡ false
      → CanRefund n s
      → Collection.get db.reservations s.reservations c ≡ some d
      → Collection.get db.ledger_entries s.ledger_entries (reverse_ledger_key c) ≡ none
      → (refund_and_write (ledger_repository db) c reason at n s).0
        ≡ ok (record n { status = reversed })
  unfolding refund_and_write refund credit_diamonds restore_quota
  refund_and_write-ok c reason at n s d timed (account_stands x source positive stands) stored
        unlogged =
      let e =
        accounts.updates n.user_id (λ y. true) (credit n.charged_diamonds at) s.accounts x stands in
      let priced : leb_ℤ n.charged_diamonds (pos 0) ≡ false = ground arith in
      ap
        (λ x.
          ((refund (ledger_repository db) n at x
              >>= write_reversal (ledger_repository db) c reason at n)
            s).0)
        source
      ∙ rw (priced, timed, e)
          (write_reversal-ok c reason at n n.charged_diamonds
            (record s {
              accounts =
                  (Collection.update_one db.accounts n.user_id (λ y. true)
                    (credit n.charged_diamonds at) s.accounts).1;
            })
            d stored unlogged)
  refund_and_write-ok c reason at n s d timed (use_stands x source positive used stands) stored
        unlogged =
      let enough : can_restore n.quota x ≡ true = ground arith in
      let e =
        quotas.updates (quota_key n.user_id n.quota) (can_restore n.quota) (restore n.quota at)
          s.daily_quotas x stands
        ∙ ap (λ b. reply b) enough in
      let sized : leb_ℤ n.quota.units (pos 0) ≡ false = ground arith in
      ap
        (λ x.
          ((refund (ledger_repository db) n at x
              >>= write_reversal (ledger_repository db) c reason at n)
            s).0)
        source
      ∙ rw (sized, timed, e)
          (write_reversal-ok c reason at n (pos 0)
            (record s {
              daily_quotas =
                  (Collection.update_one db.daily_quotas (quota_key n.user_id n.quota)
                    (can_restore n.quota) (restore n.quota at) s.daily_quotas).1;
            })
            d stored unlogged)

  moved :
      (n : Reservation) (s : Tables db) (t : Collection.Store db.reservations)
      → CanRefund n s
      → CanRefund n (record s { reservations = t })
  moved n s t (account_stands x a b e) = account_stands x a b e
  moved n s t (use_stands x a b c e) = use_stands x a b c e

  to_biz-status : (d : ReservationDocument) → (to_biz_reservation d).status ≡ d.status
  unfolding to_biz_reservation
  to_biz-status d = refl

  reverse_reserved-ok :
      (c : Text) (reason : ReversalReason) (at : Time) (n : Reservation) (s : Tables db)
      (d : ReservationDocument)
      → is_zero at ≡ false
      → CanRefund n s
      → Collection.get db.reservations s.reservations c ≡ some d
      → d.status ≡ reserved
      → is_open_gate d.publication_state ≡ true
      → Collection.get db.ledger_entries s.ledger_entries (reverse_ledger_key c) ≡ none
      → (reverse_reserved (ledger_repository db) c reason at n s).0
        ≡ ok (record n { status = reversed })
  unfolding reverse_reserved transition_reservation
  reverse_reserved-ok c reason at n s d timed refundable stored status open_ unlogged =
      let x =
        Collection.update_one db.reservations c (can_transition reserved)
          (transition reserved reversed at) s.reservations in
      let passes : can_transition reserved d ≡ true = rw status open_ in
      let e =
        reservations.updates c (can_transition reserved) (transition reserved reversed at)
          s.reservations d stored
        ∙ ap (λ b. reply b) passes in
      let (d0, before, passed, now_, others) =
        Collection.update_one_matched db.reservations c (can_transition reserved)
          (transition reserved reversed at) s.reservations x.1 (λ i. (e i, x.1)) in
      rw (timed, e)
        (refund_and_write-ok c reason at n (record s { reservations = x.1 })
          (transition reserved reversed at d0) timed (moved n s x.1 refundable) now_ unlogged)

  -- Where the database answers, a reversal for an allowed reason of a reservation that is reserved,
  -- whose result is unpublished, whose account or quota use is there to be given back to and whose
  -- reverse entry is not yet written succeeds, and returns the reservation as reversed.
  pub reverse_in_tx-ok :
      (c : Text) (reason : ReversalReason) (at : Time) (s : Tables db) (d : ReservationDocument)
      → c ≢ []
      → is_allowed_reversal_reason reason ≡ true
      → 0 < at
      → Collection.get db.reservations s.reservations c ≡ some d
      → d.status ≡ reserved
      → is_open_gate d.publication_state ≡ true
      → CanRefund (to_biz_reservation d) s
      → Collection.get db.ledger_entries s.ledger_entries (reverse_ledger_key c) ≡ none
      → (reverse_in_tx (some (ledger_repository db)) c reason at s).0
        ≡ ok (record (to_biz_reservation d) { status = reversed })
  unfolding reverse_in_tx reverse_found reverse_status find_reservation read_document
  reverse_in_tx-ok c reason at s d named allowed timed stored status open_ refundable unlogged =
      let good : (is_empty c || not (is_allowed_reversal_reason reason) || is_zero at) ≡ false =
        rw (is_empty-ne_nil c named, allowed) (ground arith) in
      let found = reservations.finds c s.reservations ∙ ap reply stored in
      rw (good, found)
        (ap (λ x. (reverse_status (ledger_repository db) c reason at (to_biz_reservation d) x s).0)
            (to_biz-status d ∙ status)
          ∙ reverse_reserved-ok c reason at (to_biz_reservation d) s d (ground arith) refundable
              stored status open_ unlogged)
