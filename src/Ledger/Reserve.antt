-- ===== src/Ledger/Reserve.antt =====
-- What a reservation of internal/biz/ledger/usecase.go does when it succeeds.
use ai_go.Common.{
  Bool, ap, true, false, ◌≡◌, refl, sym, ◌∙◌, ◌≢◌, inl, inr, Option, none, some, arith, Bool-cases,
  [], ◌<◌, ◌||◌, if◌then◌else◌,
}
use ai_go.Common.Int.{ℤ, pos, ◌+ℤ◌, ◌-ℤ◌, ◌≤ℤ◌, ◌<ℤ◌}
use ai_go.Common.Text.{Text, is_empty, is_empty-ne_nil}
use ai_go.Common.Clock.{is_zero}
use ai_go.Common.Result.{Result, Result-cases, ok, err}
use ai_go.Common.Action.{>>=-eq-ok, ◌>>=◌}
use ai_go.Ledger.Model.{
  Repository, BenefitSource, daily_quota, diamonds, reserved, ReserveRequest, Reservation,
  reservation_command_conflict, Error,
}
use ai_go.Ledger.Usecase.{
  reserve_in_tx, reserve_found, reserve_new, new_reservation, charge, consume_quota, debit_price,
  quota_disabled, invalid_reserve_request, same_reservation_command, reserve_ledger_key,
  reserve_entry, write_reservation, reservation_id, reservation_reason,
}
use ai_go.Ledger.SameCommand.{
  SameCommand, same_reservation_command-SameCommand, SameCommand-same_reservation_command,
}
use ai_go.Ledger.Contract.{View, Laws, Balances, Quotas}

module _ {S : Type 0} (v : View S) where
  -- What was charged between two stores.
  pub data Charged (req : ReserveRequest) (s t : S) : BenefitSource × ℤ → Type 0 where
    from_quota :
        (used : ℤ)
        → pos 0 <ℤ req.quota.units
        → used +ℤ req.quota.units ≤ℤ req.quota.limit
        → Quotas v s t req.user_id req.quota
            (record { limit = req.quota.limit; used = used })
            (record { limit = req.quota.limit; used = used +ℤ req.quota.units })
        → Charged req s t (daily_quota, pos 0)
    from_diamonds :
        (b : ℤ)
        → pos 0 <ℤ req.price_diamonds
        → req.price_diamonds ≤ℤ b
        → Balances v s t req.user_id b (b -ℤ req.price_diamonds)
        → Charged req s t (diamonds, req.price_diamonds)

  -- The payment of a reservation, seen from the store at its end.
  pub data Paid (req : ReserveRequest) (s t : S) : BenefitSource × ℤ → Type 0 where
    by_quota :
        (used : ℤ)
        → pos 0 <ℤ req.quota.units
        → used +ℤ req.quota.units ≤ℤ req.quota.limit
        → View.quota v s req.user_id req.quota.kind req.quota.local_date
          ≡ some (record { limit = req.quota.limit; used = used })
        → View.quota v t req.user_id req.quota.kind req.quota.local_date
          ≡ some (record { limit = req.quota.limit; used = used +ℤ req.quota.units })
        → ((w k d : Text) → w ≢ req.user_id → View.quota v t w k d ≡ View.quota v s w k d)
        → ((w k d : Text) → k ≢ req.quota.kind → View.quota v t w k d ≡ View.quota v s w k d)
        → ((w k d : Text) → d ≢ req.quota.local_date → View.quota v t w k d ≡ View.quota v s w k d)
        → View.balance v t ≡ View.balance v s
        → Paid req s t (daily_quota, pos 0)
    by_diamonds :
        (b : ℤ)
        → pos 0 <ℤ req.price_diamonds
        → req.price_diamonds ≤ℤ b
        → View.balance v s req.user_id ≡ some b
        → View.balance v t req.user_id ≡ some (b -ℤ req.price_diamonds)
        → ((w : Text) → w ≢ req.user_id → View.balance v t w ≡ View.balance v s w)
        → View.quota v t ≡ View.quota v s
        → Paid req s t (diamonds, req.price_diamonds)

  -- A reservation `n` that was made between two stores: it and its ledger entry are new, no other
  -- reservation or entry has changed, and the payment is the one that it records.
  pub record Made (req : ReserveRequest) (s t : S) (n : Reservation) : Type 0 where
    pub is_new : n ≡ record {
      id = reservation_id req.creation_id;
      creation_id = req.creation_id;
      user_id = req.user_id;
      price_diamonds = req.price_diamonds;
      source = n.source;
      charged_diamonds = n.charged_diamonds;
      quota = req.quota;
      status = reserved;
      created_at = req.business_at;
      updated_at = req.business_at;
    }
    pub fresh : View.reservation v s req.creation_id ≡ none
    pub stored : View.reservation v t req.creation_id ≡ some n
    pub other_reservations :
        (c : Text) → c ≢ req.creation_id → View.reservation v t c ≡ View.reservation v s c
    pub logged :
        View.entry v t (reserve_ledger_key req.creation_id)
        ≡ some (record {
          idempotency_key = reserve_ledger_key req.creation_id;
          creation_id = req.creation_id;
          delta_diamonds = pos 0 -ℤ n.charged_diamonds;
          reason = reservation_reason;
          created_at = req.business_at;
        })
    pub unlogged : View.entry v s (reserve_ledger_key req.creation_id) ≡ none
    pub other_entries :
        (k : Text) → k ≢ reserve_ledger_key req.creation_id → View.entry v t k ≡ View.entry v s k
    pub paid : Paid req s t (n.source, n.charged_diamonds)

-- How the use case answers a request for a creation that has a reservation.
abbrev again : {S : Type 0} → Reservation → S → Bool → Result Error Reservation × S
again n s same = (if same then ok n else err reservation_command_conflict, s)

module _ {S : Type 0} (v : View S) (r : Repository S) (laws : Laws v r) where
  debit_price-Charged :
      (req : ReserveRequest) (s t : S) (c : BenefitSource × ℤ)
      → debit_price r req s ≡ (ok c, t)
      → Charged v req s t c
  unfolding debit_price
  debit_price-Charged req s t c h =
      let x = r.try_debit_diamonds req.user_id req.price_diamonds req.business_at s in
      let facts : (x.0 ≡ ok true) × (c ≡ (diamonds, req.price_diamonds)) × (t ≡ x.1) =
        ground arith in
      let (b, positive, enough, effect) =
        laws.debit_law req.user_id req.price_diamonds req.business_at s t
          (λ i. (facts.0 i, sym facts.2 i)) in
      rw facts.1 (from_diamonds b positive enough effect)

  charge-Charged :
      (req : ReserveRequest) (s t : S) (c : BenefitSource × ℤ)
      → charge r req s ≡ (ok c, t)
      → Charged v req s t c
  unfolding charge consume_quota
  charge-Charged req s t c h = elim (Bool-cases (quota_disabled req.quota)) [
    | inl disabled ↦ debit_price-Charged req s t c (rw disabled at h)
    | inr enabled ↦
        let x = r.try_consume_quota req.user_id req.quota req.business_at s in
        elim (Result-cases x.0) [
          | inr (e, failed) ↦ absurd (ground arith)
          | inl (false, missed) ↦
              let same =
                laws.consume_miss req.user_id req.quota req.business_at s x.1
                  (λ i. (missed i, x.1)) in
              debit_price-Charged req s t c
                (let k : debit_price r req x.1 ≡ (ok c, t) = ground arith in rw same at k)
          | inl (true, hit) ↦
              let facts : (c ≡ (daily_quota, pos 0)) × (t ≡ x.1) = ground arith in
              let (used, positive, room, effect) =
                laws.consume_law req.user_id req.quota req.business_at s t
                  (λ i. (hit i, sym facts.1 i)) in
              rw facts.0 (from_quota used positive room effect)
        ]
  ]

  Charged-reservations :
      {req : ReserveRequest} {s t : S} {c : BenefitSource × ℤ}
      → Charged v req s t c
      → (View.reservation v t ≡ View.reservation v s) × (View.entry v t ≡ View.entry v s)
  Charged-reservations (from_quota used p q e) = (e.same_reservations, e.same_entries)
  Charged-reservations (from_diamonds b p q e) = (e.same_reservations, e.same_entries)

  Charged-Paid :
      {req : ReserveRequest} {s t u : S} {c : BenefitSource × ℤ}
      → Charged v req s u c
      → View.balance v t ≡ View.balance v u
      → View.quota v t ≡ View.quota v u
      → Paid v req s t c
  Charged-Paid {req} (from_quota used p room e) b q =
      by_quota used p room e.old_use
        ((λ i. q i req.user_id req.quota.kind req.quota.local_date) ∙ e.new_use)
        (λ w k d ne. (λ i. q i w k d) ∙ e.other_users w k d ne)
        (λ w k d ne. (λ i. q i w k d) ∙ e.other_kinds w k d ne)
        (λ w k d ne. (λ i. q i w k d) ∙ e.other_dates w k d ne) (b ∙ e.same_balances)
  Charged-Paid {req} (from_diamonds n p enough e) b q =
      by_diamonds n p enough e.old_balance ((λ i. b i req.user_id) ∙ e.new_balance)
        (λ w ne. (λ i. b i w) ∙ e.other_balances w ne) (q ∙ e.same_quotas)

  write_reservation-Made :
      (req : ReserveRequest) (c : BenefitSource × ℤ) (s u t : S) (n : Reservation)
      → Charged v req s u c
      → write_reservation r req c u ≡ (ok n, t)
      → Made v req s t n
  unfolding write_reservation
  write_reservation-Made req c s u t n charged h =
      let x = r.create_reservation (new_reservation req c) u in
      elim (Result-cases x.0) [
        | inr (e, failed) ↦ absurd (ground arith)
        | inl (tt, created) ↦
            let y = r.append_ledger_entry (reserve_entry req c.1) x.1 in
            let facts : (y.0 ≡ ok tt) × (n ≡ new_reservation req c) × (t ≡ y.1) = ground arith in
            let (new, gate) =
              laws.create_law (new_reservation req c) u x.1 (λ i. (created i, x.1)) in
            let log =
              laws.append_law (reserve_entry req c.1) x.1 t (λ i. (facts.0 i, sym facts.2 i)) in
            let (same_reservations, same_entries) = Charged-reservations charged in
            rw facts.1 (record {
              is_new = refl;
              fresh = sym (λ i. same_reservations i req.creation_id) ∙ new.old_reservation;
              stored = (λ i. log.same_reservations i req.creation_id) ∙ new.new_reservation;
              other_reservations = λ k ne.
                  (λ i. log.same_reservations i k)
                  ∙ new.other_reservations k ne
                  ∙ (λ i. same_reservations i k);
              logged = log.new_entry;
              unlogged =
                  sym
                    (λ i. (new.same_entries ∙ same_entries) i (reserve_ledger_key req.creation_id))
                  ∙ log.no_entry;
              other_entries =
                  λ k ne. log.other_entries k ne ∙ (λ i. (new.same_entries ∙ same_entries) i k);
              paid =
                  Charged-Paid charged (log.same_balances ∙ new.same_balances)
                    (log.same_quotas ∙ new.same_quotas);
            })
      ]

  reserve_new-Made :
      (req : ReserveRequest) (s t : S) (n : Reservation)
      → reserve_new r req s ≡ (ok n, t)
      → (invalid_reserve_request req ≡ false) × Made v req s t n
  unfolding reserve_new
  reserve_new-Made req s t n h = elim (Bool-cases (invalid_reserve_request req)) [
    | inl bad ↦ absurd (ground arith)
    | inr good ↦
        let h' : (charge r req >>= write_reservation r req) s ≡ (ok n, t) = rw good at h in
        let (c, u, charged, k) = >>=-eq-ok (charge r req) (write_reservation r req) s h' in
        (good, write_reservation-Made req c s u t n (charge-Charged req s u c charged) k)
  ]

  -- A reservation that succeeds for a creation with none yet is valid and records exactly what was
  -- taken: units of the day's quota, within its limit, or else the price, out of a balance that
  -- covers it; with one new ledger entry of minus the diamonds charged, and no other change of a
  -- balance, a quota, a reservation or an entry.
  pub reserve_in_tx-Made :
      (req : ReserveRequest) (s t : S) (n : Reservation)
      → View.reservation v s req.creation_id ≡ none
      → reserve_in_tx (some r) req s ≡ (ok n, t)
      → (invalid_reserve_request req ≡ false) × Made v req s t n
  unfolding reserve_in_tx reserve_found
  reserve_in_tx-Made req s t n none_yet h =
      elim (Bool-cases (is_empty req.creation_id || is_zero req.business_at)) [
        | inl bad ↦ absurd (ground arith)
        | inr good ↦
            let h' : (r.find_reservation req.creation_id >>= reserve_found r req) s ≡ (ok n, t) =
              rw good at h in
            let (o, u, found, k) =
              >>=-eq-ok (r.find_reservation req.creation_id) (reserve_found r req) s h' in
            let (same, read) = laws.find_law req.creation_id s u o found in
            reserve_new-Made req s t n (rw (same, read ∙ none_yet) at k)
      ]

  reserve_in_tx-answer :
      (req : ReserveRequest) (s : S) (n : Reservation)
      → View.reservation v s req.creation_id ≡ some n
      → req.creation_id ≢ []
      → 0 < req.business_at
      → (o : Option Reservation) → r.find_reservation req.creation_id s ≡ (ok o, s)
      → reserve_in_tx (some r) req s ≡ again n s (same_reservation_command n req)
  unfolding reserve_in_tx reserve_found
  reserve_in_tx-answer req s n stored named timed o found =
      let (same, read) = laws.find_law req.creation_id s s o found in
      let found' : r.find_reservation req.creation_id s ≡ (ok (some n), s) =
        rw (read ∙ stored) at found in
      let open_ : (is_empty req.creation_id || is_zero req.business_at) ≡ false =
        ground (arith, is_empty-ne_nil req.creation_id named) in
      rw (open_, found') (ground arith)

  -- A reservation for a creation that has one changes nothing: the same command, with the user, the
  -- price and the quota that are stored, returns what is stored, and any other command is refused as
  -- a conflict, unless the store cannot be read.
  pub reserve_in_tx_again :
      (req : ReserveRequest) (s : S) (n : Reservation)
      → View.reservation v s req.creation_id ≡ some n
      → req.creation_id ≢ []
      → 0 < req.business_at
      → (o : Option Reservation) → r.find_reservation req.creation_id s ≡ (ok o, s)
      → (SameCommand n req → reserve_in_tx (some r) req s ≡ (ok n, s))
        × ((SameCommand n req → ⊥)
            → reserve_in_tx (some r) req s ≡ (err reservation_command_conflict, s))
  reserve_in_tx_again req s n stored named timed o found =
      let answer = reserve_in_tx-answer req s n stored named timed o found in
      (
        λ same. answer ∙ ap (again n s) (SameCommand-same_reservation_command n req same),
        λ other. elim (Bool-cases (same_reservation_command n req)) [
          | inl same ↦ absurd (other (same_reservation_command-SameCommand n req same))
          | inr differs ↦ answer ∙ ap (again n s) differs
        ],
      )
