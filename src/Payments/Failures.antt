-- ===== src/Payments/Failures.antt =====
-- A settlement of internal/biz/payments/service.go that fails.
use ai_go.Common.{
  Bool, true, false, not, ◌≡◌, refl, sym, ap, ◌∙◌, ◌⊎◌, inl, inr, Option, none, some,
}
use ai_go.Common.Text.{Text}
use ai_go.Common.Result.{ok, err}
use ai_go.Common.Action.{
  Keeps, Keeps->>=, Keeps-guard, Keeps-if, rescue, rescue-eq-err, rescue-missed, Action, raise_if,
  lift, pure, raise, ◌>>◌,
}
use ai_go.Common.Clock.{Time}
use ai_go.Mongo.{Transaction}
use ai_go.Payments.Model.{
  repository_error, PaymentOrder, Receipt, ApplyResult, VerifiedOrderSettlement, Error, Repository,
  invalid_payment_order, payment_order_mismatch, payment_settlement_inconsistent, receipt_conflict,
  invalid_receipt,
}
use ai_go.Payments.Rules.{is_paid, invalid_settlement_order, normalize_receipt, same_fact}
use ai_go.Payments.Service.{
  invalid_settlement, mismatched, receipt_of, found_order, replay, associated, settle_existing,
  settle_within_tx, resolve_found, resolve_order, resolve_verified_order_settlement,
  settle_verified_order, is_receipt_already_exists,
}
use ai_go.Payments.Contract.{View, Laws}

module _ {S : Type 0} (v : View S) (r : Repository S) (laws : Laws v r) (now : Time) where
  Keeps-replay : (u : Text) → Keeps (replay r now u)
  unfolding replay
  Keeps-replay u = Keeps->>= (r.find_diamond_balance u) _ (laws.balance_Keeps u) λ b s. refl

  Keeps-associated : (w : VerifiedOrderSettlement) → Keeps (associated r now w)
  unfolding associated
  Keeps-associated w =
      Keeps->>= (r.find_order w.payment_order_id) _ (laws.find_order_Keeps w.payment_order_id)
        λ found.
          Keeps->>= (lift (found_order found)) _ (λ s. refl)
            λ o.
              Keeps-guard (invalid_settlement_order o) invalid_payment_order
                (raise_if (mismatched o w) payment_order_mismatch >> pure o)
                (Keeps-guard (mismatched o w) payment_order_mismatch (pure o) (λ s. refl))

  Keeps-settle_existing : (o : PaymentOrder) (n e : Receipt) → Keeps (settle_existing r now o n e)
  unfolding settle_existing
  Keeps-settle_existing o n e =
      Keeps-if (is_paid o.status) _ _
        (Keeps-guard (not (same_fact n e)) payment_settlement_inconsistent (replay r now n.user_id)
          (Keeps-replay n.user_id))
        (Keeps-guard (not (same_fact n e)) receipt_conflict (raise payment_settlement_inconsistent)
          (λ s. refl))

  Keeps-resolve : (w : VerifiedOrderSettlement) → Keeps (resolve_verified_order_settlement r now w)
  unfolding resolve_verified_order_settlement resolve_order resolve_found
  Keeps-resolve w = Keeps->>= _ _ (Keeps-associated w) λ o.
      Keeps->>= (lift (normalize_receipt (receipt_of o w) now)) _ (λ s. refl)
        λ n.
          Keeps->>= _ _ (laws.find_receipt_Keeps n.provider n.external_transaction_id)
            λ found. go o n found
    where
      go : (o : PaymentOrder) (n : Receipt) (e : Option Receipt) → Keeps (resolve_found r now o n e)
      go o n none s = refl
      go o n (some e) s = Keeps-settle_existing o n e s

  settle_guarded-err :
      (b : Bool) (m : Action S Error ApplyResult) (s t : S) (e : Error)
      → (raise_if b invalid_receipt >> m) s ≡ (err e, t)
      → (t ≡ s) ⊎ ((b ≡ false) × (m s ≡ (err e, t)))
  settle_guarded-err true m s t e h = inl (sym (ap (λ x. x.1) h))
  settle_guarded-err false m s t e h = inr (refl, h)

  missed : (f : Error) → f ≡ repository_error → is_receipt_already_exists f ≡ false
  missed f e = ap is_receipt_already_exists e

  -- A settlement that fails has written nothing, so that the store is the one it started from or the
  -- one that other processes left in the meantime, or its commit was kept although its result is not
  -- known.
  pub settle_verified_order-err :
      (tx : Transaction S Error repository_error ApplyResult) (meanwhile : S → S)
      (w : VerifiedOrderSettlement) (s t : S) (e : Error)
      → settle_verified_order r now tx meanwhile w s ≡ (err e, t)
      → (t ≡ s)
        ⊎ ((t ≡ meanwhile s)
            ⊎ ((invalid_settlement w ≡ false)
                × (a : ApplyResult) × (settle_within_tx r now w s ≡ (ok a, t))))
  unfolding settle_verified_order
  settle_verified_order-err tx meanwhile w s t e h =
      let resolve = λ (u : S). resolve_verified_order_settlement r now w (meanwhile u) in
      let run = tx.run (settle_within_tx r now w) in
      elim (settle_guarded-err (invalid_settlement w)
        (λ x. rescue is_receipt_already_exists resolve (run x)) s t e h) [
          | inl same ↦ inl same
          | inr (good, k) ↦
              let (f, failed, which) = rescue-eq-err is_receipt_already_exists resolve (run s) k in
              elim (tx.aborts _ s (run s).1 f (λ i. (failed i, (run s).1))) [
                | inl back ↦ elim which [
                  | inr same ↦ inl (same ∙ back)
                  | inl resolved ↦ inr (
                      inl (
                        sym (ap (λ x. x.1) resolved)
                        ∙ Keeps-resolve w (meanwhile (run s).1)
                        ∙ ap meanwhile back))
                ]
                | inr (lost, a, kept) ↦
                    let same =
                      rescue-missed is_receipt_already_exists resolve (run s) failed (missed f lost)
                        k in
                    inr (inr (good, a, kept ∙ (λ i. (ok a, sym same i))))
              ]
        ]
