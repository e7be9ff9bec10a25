-- ===== src/Ledger/Storage/Progress.antt =====
-- `ReserveInTx` of internal/biz/ledger/usecase.go on the repository of
-- internal/data/ledger_repository.go, over a MongoDB that answers every call.
use mathlib.Core.Path.{subst}
use ai_go.Common.{
  sym, Bool, true, false, ◌≡◌, refl, ap, ◌∙◌, inl, inr, Option, none, some, arith, Bool-cases, ◌||◌,
  if◌then◌else◌,
}
use ai_go.Common.Int.{ℤ, pos, leb_ℤ, ltb_ℤ}
use ai_go.Common.Text.{is_empty}
use ai_go.Common.Clock.{is_zero}
use ai_go.Common.Result.{ok, err}
use ai_go.Mongo.{Collection, Responds, reply}
use ai_go.Ledger.Model.{
  BenefitSource, daily_quota, diamonds, ReserveRequest, QuotaReservation, insufficient_funds,
}
use ai_go.Ledger.Usecase.{
  reserve_in_tx, reserve_found, reserve_new, charge, consume_quota, debit_price, write_reservation,
  new_reservation, quota_disabled, invalid_reserve_request, reserve_ledger_key, reserve_entry,
}
use ai_go.Ledger.Documents.{AccountDocument, QuotaDocument, new_reservation_document}
use ai_go.Ledger.Storage.{
  Database, Tables, ledger_repository, find_reservation, read_document, try_consume_quota,
  try_debit_diamonds, create_reservation, append_ledger_entry, append_reply, can_debit, debit,
  can_consume, consume, quota_key, entry_document,
}
use ai_go.Ledger.Storage.Answers.{has_room, can_pay, verdict, Answers, verdict-Answers}

abbrev accepts : {D : Type 0} → (D → Bool) → Option D → Bool
accepts p none = false
accepts p (some d) = p d

updates-answer :
    {K D : Type 0} {c : Collection K D} (answers : Responds c) (k : K) (p : D → Bool) (u : D → D)
    (s : Collection.Store c) (o : Option D)
    → Collection.get c s k ≡ o
    → (Collection.update_one c k p u s).0 ≡ reply (accepts p o)
updates-answer answers k p u s none e = answers.misses k p u s e
updates-answer answers k p u s (some d) e = answers.updates k p u s d e

no_room :
    (q : QuotaReservation) (o : Option QuotaDocument)
    → quota_disabled q ≡ true
    → has_room q o ≡ false
no_room q none h = refl
no_room q (some d) h = rw h refl

room_if_enabled :
    (q : QuotaReservation) (o : Option QuotaDocument)
    → quota_disabled q ≡ false
    → accepts (can_consume q) o ≡ has_room q o
room_if_enabled q none h = refl
room_if_enabled q (some d) h = rw h refl

module _ (db : Database) (accounts : Responds db.accounts) (quotas : Responds db.daily_quotas)
    (reservations : Responds db.reservations) (entries : Responds db.ledger_entries) where
  write_reservation-ok :
      (req : ReserveRequest) (charged : BenefitSource × ℤ) (s : Tables db)
      → Collection.get db.reservations s.reservations req.creation_id ≡ none
      → Collection.get db.ledger_entries s.ledger_entries (reserve_ledger_key req.creation_id)
        ≡ none
      → (write_reservation (ledger_repository db) req charged s).0
        ≡ ok (new_reservation req charged)
  unfolding write_reservation create_reservation append_ledger_entry append_reply
  write_reservation-ok req charged s fresh unlogged =
      let d = new_reservation_document (new_reservation req charged) in
      let x = Collection.insert_one db.reservations req.creation_id d s.reservations in
      let e = reservations.inserts req.creation_id d s.reservations fresh in
      let (absent, new, others) =
        Collection.insert_one_law db.reservations req.creation_id d s.reservations x.1
          (λ i. (e i, x.1)) in
      let found = reservations.finds req.creation_id x.1 ∙ ap reply new in
      let logged =
        entries.inserts (reserve_ledger_key req.creation_id)
          (entry_document (reserve_entry req charged.1) d) s.ledger_entries unlogged in
      rw (e, found, logged) refl

  debit_price-answers :
      (req : ReserveRequest) (s : Tables db) (o : Option AccountDocument)
      → (invalid_reserve_request req ≡ false)
      → Collection.get db.accounts s.accounts req.user_id ≡ o
      → debit_price (ledger_repository db) req s ≡ (
        if can_pay req.price_diamonds o
            then ok (diamonds, req.price_diamonds)
            else err insufficient_funds,
        record s {
          accounts =
              (Collection.update_one db.accounts req.user_id
                (can_debit req.price_diamonds)
                (debit req.price_diamonds req.business_at)
                s.accounts).1;
        },
      )
  unfolding debit_price try_debit_diamonds invalid_reserve_request
  debit_price-answers req s o good stored =
      let e =
        updates-answer accounts req.user_id (can_debit req.price_diamonds)
          (debit req.price_diamonds req.business_at) s.accounts o stored in
      let priced : leb_ℤ req.price_diamonds (pos 0) ≡ false = ground arith in
      let timed : is_zero req.business_at ≡ false = ground arith in
      elim (Bool-cases (can_pay req.price_diamonds o)) [
        | inl enough ↦ rw (priced, timed, e ∙ ap (λ b. reply b) enough, enough) refl
        | inr short ↦ rw (priced, timed, e ∙ ap (λ b. reply b) short, short) refl
      ]

  consume_quota-answers :
      (req : ReserveRequest) (s : Tables db)
      → (invalid_reserve_request req ≡ false)
      → (t : Collection.Store db.daily_quotas) × (consume_quota (ledger_repository db) req s ≡ (
        ok (
            has_room req.quota
              (Collection.get db.daily_quotas s.daily_quotas (quota_key req.user_id req.quota))),
        record s { daily_quotas = t },
      ))
  unfolding consume_quota try_consume_quota invalid_reserve_request
  consume_quota-answers req s good = elim (Bool-cases (quota_disabled req.quota)) [
    | inl disabled ↦ (
      s.daily_quotas,
      rw
          (
            disabled,
            no_room req.quota
                (Collection.get db.daily_quotas s.daily_quotas (quota_key req.user_id req.quota))
                disabled,
          )
          refl,
    )
    | inr enabled ↦
        let e =
          updates-answer quotas (quota_key req.user_id req.quota) (can_consume req.quota)
            (consume req.quota req.business_at) s.daily_quotas
            (Collection.get db.daily_quotas s.daily_quotas (quota_key req.user_id req.quota))
            refl in
        let room =
          room_if_enabled req.quota
            (Collection.get db.daily_quotas s.daily_quotas (quota_key req.user_id req.quota))
            enabled in
        let sized : (leb_ℤ req.quota.limit (pos 0)
              || leb_ℤ req.quota.units (pos 0)
              || ltb_ℤ req.quota.limit req.quota.units)
            ≡ false =
          ground arith in
        let timed : is_zero req.business_at ≡ false = ground arith in
        (
          (Collection.update_one db.daily_quotas (quota_key req.user_id req.quota)
              (can_consume req.quota) (consume req.quota req.business_at) s.daily_quotas).1,
          rw (enabled, sized, timed, e ∙ ap (λ b. reply b) room) refl,
        )
  ]

  reserve_new-verdict :
      (req : ReserveRequest) (s : Tables db)
      → invalid_reserve_request req ≡ false
      → Collection.get db.reservations s.reservations req.creation_id ≡ none
      → Collection.get db.ledger_entries s.ledger_entries (reserve_ledger_key req.creation_id)
        ≡ none
      → (reserve_new (ledger_repository db) req s).0
        ≡ verdict req
            (Collection.get db.daily_quotas s.daily_quotas (quota_key req.user_id req.quota))
            (Collection.get db.accounts s.accounts req.user_id)
  unfolding reserve_new charge
  reserve_new-verdict req s good fresh unlogged =
      let (t, consumed) = consume_quota-answers req s good in
      let u : Tables db = record s { daily_quotas = t } in
      let account = Collection.get db.accounts s.accounts req.user_id in
      let paid = debit_price-answers req u account good refl in
      elim (Bool-cases (
        has_room req.quota
          (Collection.get db.daily_quotas s.daily_quotas (quota_key req.user_id req.quota)))) [
            | inl room ↦
                rw (good, consumed, room)
                  (write_reservation-ok req (daily_quota, pos 0) u fresh unlogged)
            | inr full ↦ elim (Bool-cases (can_pay req.price_diamonds account)) [
              | inl enough ↦
                  rw (good, consumed, full, paid, enough)
                    (write_reservation-ok req (diamonds, req.price_diamonds) _ fresh unlogged)
              | inr short ↦ rw (good, consumed, full, paid, short) refl
            ]
          ]

  reserve_in_tx-verdict :
      (req : ReserveRequest) (s : Tables db)
      → invalid_reserve_request req ≡ false
      → Collection.get db.reservations s.reservations req.creation_id ≡ none
      → Collection.get db.ledger_entries s.ledger_entries (reserve_ledger_key req.creation_id)
        ≡ none
      → (reserve_in_tx (some (ledger_repository db)) req s).0
        ≡ verdict req
            (Collection.get db.daily_quotas s.daily_quotas (quota_key req.user_id req.quota))
            (Collection.get db.accounts s.accounts req.user_id)
  unfolding reserve_in_tx reserve_found find_reservation read_document
  reserve_in_tx-verdict req s good fresh unlogged =
      let named : (is_empty req.creation_id || is_zero req.business_at) ≡ false =
        unfold invalid_reserve_request in ground arith in
      let found : Collection.find_one db.reservations req.creation_id s.reservations ≡ reply none =
        reservations.finds req.creation_id s.reservations ∙ ap reply fresh in
      rw (named, found) (reserve_new-verdict req s good fresh unlogged)

  -- Where the database answers, a valid request for a creation with neither reservation nor
  -- reserve entry is granted out of the stored quota where that is the request's and has the units
  -- left, else out of the balance where that is at least the price, and else refused for
  -- insufficient funds; what is granted is the request's reservation, charged 0 or the price.
  pub reserve_in_tx-Answers :
      (req : ReserveRequest) (s : Tables db)
      → invalid_reserve_request req ≡ false
      → Collection.get db.reservations s.reservations req.creation_id ≡ none
      → Collection.get db.ledger_entries s.ledger_entries (reserve_ledger_key req.creation_id)
        ≡ none
      → Answers req
          (Collection.get db.daily_quotas s.daily_quotas (quota_key req.user_id req.quota))
          (Collection.get db.accounts s.accounts req.user_id)
          (reserve_in_tx (some (ledger_repository db)) req s).0
  reserve_in_tx-Answers req s good fresh unlogged =
      let q = Collection.get db.daily_quotas s.daily_quotas (quota_key req.user_id req.quota) in
      let a = Collection.get db.accounts s.accounts req.user_id in
      subst (Answers req q a) (sym (reserve_in_tx-verdict req s good fresh unlogged))
        (verdict-Answers req q a good)
