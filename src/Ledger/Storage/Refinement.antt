-- ===== src/Ledger/Storage/Refinement.antt =====
-- The repository of internal/data/ledger_repository.go against the contract of the use case.
use mathlib.Core.Option
use mathlib.Core.Path.{subst}
use ai_go.Common.{
  true, false, ◌≡◌, refl, sym, ap, ◌∙◌, inl, inr, Option, none, some, arith, Bool-cases, ◌||◌,
}
use ai_go.Common.Int.{ℤ, pos, ◌+ℤ◌, ◌-ℤ◌, ◌≤ℤ◌, ◌<ℤ◌, int_laws, leb_ℤ, ltb_ℤ}
use ai_go.Common.Text.{Text}
use ai_go.Common.Result.{ok}
use ai_go.Common.Clock.{Time}
use ai_go.Mongo.{Collection, Reply, reply, no_reply}
use ai_go.Ledger.Model.{QuotaReservation, Reservation}
use ai_go.Ledger.Contract.{View, QuotaUse, Laws, Quotas}
use ai_go.Ledger.Documents.{ReservationDocument, to_biz_reservation}
use ai_go.Ledger.Storage.{
  Database, Tables, read_document, ledger_repository, find_reservation, try_consume_quota,
  restore_quota, consume, can_consume, restore, can_restore, quota_key,
}
use ai_go.Ledger.Storage.Effects.{view, use_of, quota_effect}
use ai_go.Ledger.Storage.Accounts.{debit_law, debit_miss, credit_law, balance_law}
use ai_go.Ledger.Storage.Writes.{create_law, transition_law, append_law}

module _ (db : Database) where
  read_reservation :
      (r : Reply (Option ReservationDocument)) (o : Option Reservation)
      → read_document r ≡ ok o
      → (d : Option ReservationDocument) × (r ≡ reply d) × (o ≡ Option.map to_biz_reservation d)
  unfolding read_document
  read_reservation (reply none) o h = (none, refl, cc)
  read_reservation (reply (some d)) o h = (some d, refl, cc)
  read_reservation no_reply o h = absurd (cc)

  find_law :
      (c : Text) (s t : Tables db) (o : Option Reservation)
      → find_reservation db c s ≡ (ok o, t)
      → (t ≡ s) × (o ≡ View.reservation (view db) s c)
  unfolding find_reservation
  find_law c s t o h =
      let (d, e, k) =
        read_reservation (Collection.find_one db.reservations c s.reservations) o
          (ap (λ r. r.0) h) in
      (
        sym (ap (λ r. r.1) h),
        k
            ∙ ap (Option.map to_biz_reservation)
                (Collection.find_one_law db.reservations c s.reservations d e),
      )

  consume_law :
      (u : Text) (q : QuotaReservation) (at : Time) (s t : Tables db)
      → try_consume_quota db u q at s ≡ (ok true, t)
      → (used : ℤ) × (pos 0 <ℤ q.units)
        × (used +ℤ q.units ≤ℤ q.limit)
        × Quotas
            (view db)
            s
            t
            u
            q
            (record { limit = q.limit; used = used })
            (record { limit = q.limit; used = used +ℤ q.units })
  unfolding try_consume_quota
  consume_law u q at s t h =
      let x =
        Collection.update_one db.daily_quotas (quota_key u q) (can_consume q) (consume q at)
          s.daily_quotas in
      let facts : (leb_ℤ q.units (pos 0) ≡ false)
          × (x.0 ≡ reply true)
          × (t ≡ record s { daily_quotas = x.1 }) =
        ground arith in
      let (doc, enough, effect) = quota_effect db u q (can_consume q) (consume q at) s facts.1 in
      let same : doc.limit ≡ q.limit = ground arith in
      (
        doc.used_count,
        ground arith,
        grind int_laws,
        subst
            (λ t'.
              Quotas (view db) s t' u q (record { limit = q.limit; used = doc.used_count })
                (record { limit = q.limit; used = doc.used_count +ℤ q.units }))
            (sym facts.2) (rw same at effect),
      )

  consume_miss :
      (u : Text) (q : QuotaReservation) (at : Time) (s t : Tables db)
      → try_consume_quota db u q at s ≡ (ok false, t)
      → t ≡ s
  unfolding try_consume_quota
  consume_miss u q at s t h =
      elim (Bool-cases (leb_ℤ q.limit (pos 0) || leb_ℤ q.units (pos 0) || ltb_ℤ q.limit q.units)) [
        | inl bad ↦ absurd (ground arith)
        | inr good ↦
            let x =
              Collection.update_one db.daily_quotas (quota_key u q) (can_consume q) (consume q at)
                s.daily_quotas in
            let facts : (x.0 ≡ reply false) × (t ≡ record s { daily_quotas = x.1 }) =
              ground arith in
            let (same, short) =
              Collection.update_one_unmatched db.daily_quotas (quota_key u q) (can_consume q)
                (consume q at) s.daily_quotas x.1 (λ i. (facts.0 i, x.1)) in
            facts.1
            ∙ ap (λ (a : Collection.Store db.daily_quotas). record s { daily_quotas = a }) same
      ]

  restore_law :
      (u : Text) (q : QuotaReservation) (at : Time) (s t : Tables db)
      → restore_quota db u q at s ≡ (ok tt, t)
      → (use_ : QuotaUse) × (pos 0 <ℤ q.units)
        × (q.units ≤ℤ use_.used)
        × Quotas (view db) s t u q use_ (record use_ { used = use_.used -ℤ q.units })
  unfolding restore_quota
  restore_law u q at s t h =
      let x =
        Collection.update_one db.daily_quotas (quota_key u q) (can_restore q) (restore q at)
          s.daily_quotas in
      let facts : (leb_ℤ q.units (pos 0) ≡ false)
          × (x.0 ≡ reply true)
          × (t ≡ record s { daily_quotas = x.1 }) =
        ground arith in
      let (doc, enough, effect) = quota_effect db u q (can_restore q) (restore q at) s facts.1 in
      (
        use_of doc,
        ground arith,
        ground arith,
        subst (λ t'. Quotas (view db) s t' u q (use_of doc) (use_of (restore q at doc)))
            (sym facts.2) effect,
      )

  -- Over MongoDB, every operation of the repository that succeeds has the effect on the stored
  -- facts that the ledger's use case counts on, and no other.
  pub ledger_repository-Laws : Laws (view db) (ledger_repository db)
  ledger_repository-Laws = record {
    find_law = find_law;
    balance_law = balance_law db;
    consume_law = consume_law;
    consume_miss = consume_miss;
    restore_law = restore_law;
    debit_law = debit_law db;
    debit_miss = debit_miss db;
    credit_law = credit_law db;
    create_law = create_law db;
    transition_law = transition_law db;
    append_law = append_law db;
  }
