-- ===== src/Payments/Settle.antt =====
-- A settlement of internal/biz/payments/service.go that succeeds.
use ai_go.Common.{refl, true, false, ◌≡◌, sym, ap, ◌∙◌, ◌⊎◌, inl, inr, Option, none, some, arith}
use ai_go.Common.Int.{◌+ℤ◌}
use ai_go.Common.Result.{ok, Result-cases}
use ai_go.Common.Action.{>>=-eq-ok, guard-eq-ok, rescue, rescue-eq-ok}
use ai_go.Common.Clock.{Time}
use ai_go.Mongo.{Transaction, aborted}
use ai_go.Payments.Model.{
  repository_error, PaymentOrder, paid, Receipt, ApplyResult, VerifiedOrderSettlement, Error,
  Repository, invalid_receipt,
}
use ai_go.Payments.Rules.{is_paid, invalid_settlement_order, same_fact}
use ai_go.Payments.Service.{
  invalid_settlement, mismatched, receipt_of, found_order, replay, record_receipt_within_tx,
  associated, settle_existing, settle_new, settle_found, settle_order, settle_within_tx,
  resolve_found, resolve_order, resolve_verified_order_settlement, settle_verified_order,
  is_receipt_already_exists,
}
use ai_go.Payments.Contract.{key_of, View, Laws}
use ai_go.Payments.Effects.{
  is_paid_sound, same_fact_sound, Matches, mismatched-Matches, normalize_receipt-receipt_of,
  Applied, Replayed, Settles, applies, replays, record_receipt-Recorded,
}

module _ {S : Type 0} (v : View S) (r : Repository S) (laws : Laws v r) (now : Time) where
  associated-Matches :
      (w : VerifiedOrderSettlement) (s t : S) (o : PaymentOrder)
      → associated r now w s ≡ (ok o, t)
      → (t ≡ s) × (View.order v s w.payment_order_id ≡ some o) × Matches o w
  unfolding associated found_order
  associated-Matches w s t o h =
      let x = r.find_order w.payment_order_id s in
      elim (Result-cases x.0) [
        | inr (e, failed) ↦ absurd (ground arith)
        | inl (none, found) ↦ absurd (ground arith)
        | inl (some p, found) ↦
            let (same, read) =
              laws.find_order_law w.payment_order_id s x.1 (some p) (λ i. (found i, x.1)) in
            let facts : (invalid_settlement_order p ≡ false)
                × (mismatched p w ≡ false)
                × (o ≡ p)
                × (t ≡ x.1) =
              ground arith in
            (
              facts.3 ∙ same,
              sym read ∙ (λ i. some (sym facts.2 i)),
              rw facts.2 (mismatched-Matches p w facts.0 facts.1),
            )
      ]

  replay-eq-ok :
      (u : _) (s t : S) (res : ApplyResult)
      → replay r now u s ≡ (ok res, t)
      → (t ≡ s) × (res ≡ record { applied = false; diamond_balance = View.balance v s u })
  unfolding replay
  replay-eq-ok u s t res h =
      let x = r.find_diamond_balance u s in
      elim (Result-cases x.0) [
        | inr (e, failed) ↦ absurd (ground arith)
        | inl (b, read) ↦
            let facts : (res ≡ record { applied = false; diamond_balance = b }) × (t ≡ x.1) =
              ground arith in
            let (same, balance) = laws.balance_law u s x.1 b (λ i. (read i, x.1)) in
            (
              facts.1 ∙ same,
              facts.0 ∙ (λ i. record { applied = false; diamond_balance = balance i }),
            )
      ]

  settle_existing-Settles :
      (w : VerifiedOrderSettlement) (o : PaymentOrder) (e : Receipt) (s t : S) (res : ApplyResult)
      → Matches o w
      → View.order v s w.payment_order_id ≡ some o
      → View.receipt v s (key_of (receipt_of o w)) ≡ some e
      → settle_existing r now o (receipt_of o w) e s ≡ (ok res, t)
      → Settles v w s t res × (res.applied ≡ false) × (t ≡ s)
  unfolding settle_existing
  settle_existing-Settles w o e s t res m stored there h =
      let facts : (is_paid o.status ≡ true)
          × (same_fact (receipt_of o w) e ≡ true)
          × (replay r now o.user_id s ≡ (ok res, t)) =
        ground arith in
      let (same, result) = replay-eq-ok o.user_id s t res facts.2 in
      let replayed : Replayed v o w s = record {
        matches = m;
        was_paid = is_paid_sound o.status facts.0;
        was_stored = stored;
        time = e.business_at;
        receipt_stored = there ∙ ap some (same_fact_sound (receipt_of o w) e facts.1);
      } in
      (rw result (replays o replayed same), ap ApplyResult.applied result, same)

  settle_new-Settles :
      (w : VerifiedOrderSettlement) (o : PaymentOrder) (s t : S) (res : ApplyResult)
      → Matches o w
      → View.order v s w.payment_order_id ≡ some o
      → settle_new r now o (receipt_of o w) s ≡ (ok res, t)
      → Settles v w s t res
  unfolding settle_new
  settle_new-Settles w o s t res m stored h =
      let x = r.mark_order_paid o.id w.business_at s in
      let named : o.id ≡ w.payment_order_id = laws.order_id s w.payment_order_id o stored in
      elim (Result-cases x.0) [
        | inr (e, failed) ↦ absurd (ground arith)
        | inl (false, missed) ↦ absurd (ground arith)
        | inl (true, marked) ↦
            let k : record_receipt_within_tx r now (receipt_of o w) x.1 ≡ (ok res, t) =
              ground arith in
            let (p, pending_, change) =
              laws.mark_law o.id w.business_at s x.1 (λ i. (marked i, x.1)) in
            let same : p ≡ o =
              ground (arith, sym change.old_order ∙ ap (View.order v s) named ∙ stored) in
            let (n, result) = record_receipt-Recorded v r laws now (receipt_of o w) x.1 t res k in
            let balance : View.balance v x.1 o.user_id ≡ View.balance v s o.user_id =
              λ i. change.same_balances i o.user_id in
            let applied : Applied v o w s t = record {
              matches = m;
              was_pending = ap PaymentOrder.status (sym same) ∙ pending_;
              was_stored = stored;
              is_stored =
                  (λ i. n.same_orders i (sym named i))
                  ∙ change.new_order
                  ∙ (λ i. some (record (same i) { status = paid; updated_at = w.business_at }));
              other_orders =
                  λ j ne. (λ i. n.same_orders i j) ∙ change.other_orders j (λ e. ne (e ∙ named));
              positive = n.positive;
              fresh = (λ i. sym change.same_receipts i (key_of (receipt_of o w))) ∙ n.fresh;
              receipt_stored = n.stored;
              other_receipts = λ k ne. n.other_receipts k ne ∙ (λ i. change.same_receipts i k);
              credited = n.credited ∙ (λ i. balance i +ℤ o.diamond_amount);
              other_balances = λ u ne. n.other_balances u ne ∙ (λ i. change.same_balances i u);
              unlogged =
                  (λ i. sym change.same_entries i (View.entry_id v (key_of (receipt_of o w))))
                  ∙ n.unlogged;
              logged = n.logged;
              other_entries = λ j ne. n.other_entries j ne ∙ (λ i. change.same_entries i j);
              same_products = n.same_products ∙ change.same_products;
            } in
            rw
              (result
                ∙ (λ i. record { applied = true; diamond_balance = balance i +ℤ o.diamond_amount }))
              (applies o applied)
      ]

  settle_order-Settles :
      (w : VerifiedOrderSettlement) (o : PaymentOrder) (s t : S) (res : ApplyResult)
      → invalid_settlement w ≡ false
      → Matches o w
      → View.order v s w.payment_order_id ≡ some o
      → settle_order r now w o s ≡ (ok res, t)
      → Settles v w s t res
  unfolding settle_order settle_found
  settle_order-Settles w o s t res valid m stored h =
      let h' = rw (normalize_receipt-receipt_of o w now m.valid valid) at h in
      let (found, u, read, k) =
        >>=-eq-ok (r.find_receipt o.provider w.external_transaction_id)
          (settle_found r now o (receipt_of o w)) s h' in
      let (same, there) =
        laws.find_receipt_law o.provider w.external_transaction_id s u found read in
      go found (sym there) (rw same at k)
    where
      go :
          (found : Option Receipt)
          → View.receipt v s (key_of (receipt_of o w)) ≡ found
          → settle_found r now o (receipt_of o w) found s ≡ (ok res, t)
          → Settles v w s t res
      go none e k = settle_new-Settles w o s t res m stored k
      go (some x) e k = (settle_existing-Settles w o x s t res m stored e k).0

  resolve_order-Settles :
      (w : VerifiedOrderSettlement) (o : PaymentOrder) (s t : S) (res : ApplyResult)
      → invalid_settlement w ≡ false
      → Matches o w
      → View.order v s w.payment_order_id ≡ some o
      → resolve_order r now w o s ≡ (ok res, t)
      → Settles v w s t res × (res.applied ≡ false) × (t ≡ s)
  unfolding resolve_order resolve_found
  resolve_order-Settles w o s t res valid m stored h =
      let h' = rw (normalize_receipt-receipt_of o w now m.valid valid) at h in
      let (found, u, read, k) =
        >>=-eq-ok (r.find_receipt o.provider w.external_transaction_id)
          (resolve_found r now o (receipt_of o w)) s h' in
      let (same, there) =
        laws.find_receipt_law o.provider w.external_transaction_id s u found read in
      go found (sym there) (rw same at k)
    where
      go :
          (found : Option Receipt)
          → View.receipt v s (key_of (receipt_of o w)) ≡ found
          → resolve_found r now o (receipt_of o w) found s ≡ (ok res, t)
          → Settles v w s t res × (res.applied ≡ false) × (t ≡ s)
      go none e k = absurd (cc)
      go (some x) e k = settle_existing-Settles w o x s t res m stored e k

  pub settle_within_tx-Settles :
      (w : VerifiedOrderSettlement) (s t : S) (res : ApplyResult)
      → invalid_settlement w ≡ false
      → settle_within_tx r now w s ≡ (ok res, t)
      → Settles v w s t res
  unfolding settle_within_tx
  settle_within_tx-Settles w s t res valid h =
      let (o, u, found, k) = >>=-eq-ok (associated r now w) (settle_order r now w) s h in
      let (same, stored, m) = associated-Matches w s u o found in
      settle_order-Settles w o s t res valid m stored (rw same at k)

  resolve-Settles :
      (w : VerifiedOrderSettlement) (s t : S) (res : ApplyResult)
      → invalid_settlement w ≡ false
      → resolve_verified_order_settlement r now w s ≡ (ok res, t)
      → Settles v w s t res × (res.applied ≡ false) × (t ≡ s)
  unfolding resolve_verified_order_settlement
  resolve-Settles w s t res valid h =
      let (o, u, found, k) = >>=-eq-ok (associated r now w) (resolve_order r now w) s h in
      let (same, stored, m) = associated-Matches w s u o found in
      resolve_order-Settles w o s t res valid m stored (rw same at k)

  -- A settlement that succeeds is valid, and either pays its order, which was pending and is the one
  -- that the settlement names, with exactly the diamonds frozen in the order: one new receipt, the
  -- user's balance up by that amount, as returned, and one new ledger entry, with no other change;
  -- or it is a replay: the order is paid and has this very receipt, nothing changes, and the current
  -- balance is returned. What another process committed in the meantime makes it a replay only.
  pub settle_verified_order-Settles :
      (tx : Transaction S Error repository_error ApplyResult) (meanwhile : S → S)
      (w : VerifiedOrderSettlement) (s t : S) (res : ApplyResult)
      → settle_verified_order r now tx meanwhile w s ≡ (ok res, t)
      → (invalid_settlement w ≡ false)
        × (Settles v w s t res
            ⊎ (Settles v w (meanwhile s) t res × (res.applied ≡ false) × (t ≡ meanwhile s)))
  unfolding settle_verified_order
  settle_verified_order-Settles tx meanwhile w s t res h =
      let resolve = λ (u : S). resolve_verified_order_settlement r now w (meanwhile u) in
      let run = tx.run (settle_within_tx r now w) in
      let (valid, k) =
        guard-eq-ok (invalid_settlement w) invalid_receipt
          (λ x. rescue is_receipt_already_exists resolve (run x)) s h in
      elim (rescue-eq-ok is_receipt_already_exists resolve (run s) k) [
        | inl done ↦
            (valid, inl (settle_within_tx-Settles w s t res valid (tx.commits _ s t res done)))
        | inr (e, failed, taken, resolved) ↦
            let back : (run s).1 ≡ s =
              aborted tx is_receipt_already_exists (settle_within_tx r now w) s (run s).1 e
                (λ i. (failed i, (run s).1)) refl taken in
            (
              valid,
              inr (resolve-Settles w (meanwhile s) t res valid (sym (ap resolve back) ∙ resolved)),
            )
      ]
