-- ===== src/Payments/Replay.antt =====
-- A settlement of internal/biz/payments/service.go that is repeated, over a repository whose reads
-- are answered.
use ai_go.Common.{true, false, ◌≡◌, refl, ap, ◌∙◌, inl, inr, arith, ◌<◌}
use ai_go.Common.Text.{Text, eq_text_refl}
use ai_go.Common.Result.{ok}
use ai_go.Common.Action.{Action}
use ai_go.Common.Clock.{Time}
use ai_go.Mongo.{Transaction}
use ai_go.Payments.Model.{
  repository_error, Provider, PaymentOrder, paid, Receipt, ApplyResult, VerifiedOrderSettlement,
  Error, Repository,
}
use ai_go.Payments.Rules.{invalid_settlement_order, invalid_pending, same_fact}
use ai_go.Payments.Service.{
  invalid_settlement, mismatched, receipt_of, found_order, replay, associated, settle_existing,
  settle_found, settle_order, settle_within_tx, settle_verified_order,
}
use ai_go.Payments.Contract.{View, Laws}
use ai_go.Payments.Effects.{
  Matches, normalize_receipt-receipt_of, Replayed, Settles, applies, replays,
}
use ai_go.Payments.Settle.{settle_verified_order-Settles}

-- Every read is answered, with what the store holds.
pub record Answers {S : Type 0} (v : View S) (r : Repository S) : Type 0 where
  pub orders : (id : Text) (s : S) → r.find_order id s ≡ (ok (View.order v s id), s)
  pub receipts :
      (p : Provider) (x : Text) (s : S)
      → r.find_receipt p x s
        ≡ (ok (View.receipt v s (record { provider = p; external_transaction_id = x })), s)
  pub balances : (u : Text) (s : S) → r.find_diamond_balance u s ≡ (ok (View.balance v s u), s)

-- A transaction whose commit is never refused.
pub record Commits {S E A : Type 0} {lost : E} (tx : Transaction S E lost A) : Type 0 where
  pub kept : (op : Action S E A) (s t : S) (a : A) → op s ≡ (ok a, t) → tx.run op s ≡ (ok a, t)

pub mismatched-eq-false :
    (o : PaymentOrder) (w : VerifiedOrderSettlement) → Matches o w → mismatched o w ≡ false
unfolding mismatched
mismatched-eq-false o w m = ground (
  arith,
  m.same_user,
  m.same_provider,
  m.same_provider_order,
  eq_text_refl w.user_id,
  eq_text_refl w.provider,
  eq_text_refl w.provider_order_id,
)

same_fact_refl : (n : Receipt) (at : Time) → same_fact n (record n { business_at = at }) ≡ true
unfolding same_fact
same_fact_refl n at = ground (
  arith,
  eq_text_refl n.provider,
  eq_text_refl n.external_transaction_id,
  eq_text_refl n.payment_order_id,
  eq_text_refl n.user_id,
)

module _ {S : Type 0} (v : View S) where
  -- After a settlement the next one is a replay with the same balance.
  Settles-Replayed :
      (w : VerifiedOrderSettlement) {s t : S} {res : ApplyResult}
      → invalid_settlement w ≡ false
      → Settles v w s t res
      → (o : PaymentOrder) × Replayed v o w t × (View.balance v t o.user_id ≡ res.diamond_balance)
  unfolding invalid_settlement invalid_settlement_order invalid_pending
  Settles-Replayed w valid (applies o a) = (
    record o { status = paid; updated_at = w.business_at },
    record {
      matches = record {
        valid = let good = a.matches.valid in ground arith;
        same_user = a.matches.same_user;
        same_provider = a.matches.same_provider;
        same_provider_order = a.matches.same_provider_order;
      };
      was_paid = refl;
      was_stored = a.is_stored;
      time = w.business_at;
      receipt_stored = a.receipt_stored;
    },
    a.credited,
  )
  Settles-Replayed w {s} {t} valid (replays o p same) =
      (o, rw same p, ap (λ x. View.balance v x o.user_id) same)

module _ {S : Type 0} (v : View S) (r : Repository S) (answers : Answers v r) (now : Time) where
  settle_within_tx-Replayed :
      (o : PaymentOrder) (w : VerifiedOrderSettlement) (s : S)
      → invalid_settlement w ≡ false
      → Replayed v o w s
      → settle_within_tx r now w s
        ≡ (ok (record { applied = false; diamond_balance = View.balance v s o.user_id }), s)
  unfolding settle_within_tx associated found_order settle_order settle_found settle_existing replay
  settle_within_tx-Replayed o w s valid p =
      rw
        (
          answers.orders w.payment_order_id s,
          p.was_stored,
          p.matches.valid,
          mismatched-eq-false o w p.matches,
          normalize_receipt-receipt_of o w now p.matches.valid valid,
          answers.receipts o.provider w.external_transaction_id s,
          p.receipt_stored,
          p.was_paid,
          same_fact_refl (receipt_of o w) p.time,
          answers.balances o.user_id s,
        )
        refl

  settle_verified_order-Replayed :
      (tx : Transaction S Error repository_error ApplyResult)
      → Commits tx
      → (meanwhile : S → S) (o : PaymentOrder) (w : VerifiedOrderSettlement) (s : S)
      → invalid_settlement w ≡ false
      → Replayed v o w s
      → settle_verified_order r now tx meanwhile w s
        ≡ (ok (record { applied = false; diamond_balance = View.balance v s o.user_id }), s)
  unfolding settle_verified_order
  settle_verified_order-Replayed tx commits meanwhile o w s valid p =
      rw
        (
          valid,
          commits.kept (settle_within_tx r now w) s s
              (record { applied = false; diamond_balance = View.balance v s o.user_id })
              (settle_within_tx-Replayed o w s valid p),
        )
        refl

later_valid :
    (w : VerifiedOrderSettlement) (at : Time)
    → invalid_settlement w ≡ false
    → 0 < at
    → invalid_settlement (record w { business_at = at }) ≡ false
unfolding invalid_settlement
later_valid w at valid later = ground arith

module _ {S : Type 0} (v : View S) (r : Repository S) (laws : Laws v r) (answers : Answers v r)
    (tx : Transaction S Error repository_error ApplyResult) (commits : Commits tx) where
  replay_of :
      (w : VerifiedOrderSettlement) (t : S) (res : ApplyResult)
      → invalid_settlement w ≡ false
      → (o : PaymentOrder) × Replayed v o w t × (View.balance v t o.user_id ≡ res.diamond_balance)
      → (now : Time) (meanwhile : S → S) (at : Time) → 0 < at
      → settle_verified_order r now tx meanwhile (record w { business_at = at }) t
        ≡ (ok (record { applied = false; diamond_balance = res.diamond_balance }), t)
  replay_of w t res valid (o, p, balance) now meanwhile at later =
      let p' : Replayed v o (record w { business_at = at }) t = record {
        matches = record {
          valid = p.matches.valid;
          same_user = p.matches.same_user;
          same_provider = p.matches.same_provider;
          same_provider_order = p.matches.same_provider_order;
        };
        was_paid = p.was_paid;
        was_stored = p.was_stored;
        time = p.time;
        receipt_stored = p.receipt_stored;
      } in
      settle_verified_order-Replayed v r answers now tx commits meanwhile o
        (record w { business_at = at }) t (later_valid w at valid later) p'
      ∙ (λ i. (ok (record { applied = false; diamond_balance = balance i }), t))

  -- Where reads are answered and commits accepted, a settlement that succeeded can be repeated, at
  -- any later time and with any business time but the zero one: each time it succeeds, applies
  -- nothing, returns the same balance and leaves the store as it is.
  pub settle_verified_order_again :
      (now : Time) (meanwhile : S → S) (w : VerifiedOrderSettlement) (s t : S) (res : ApplyResult)
      → settle_verified_order r now tx meanwhile w s ≡ (ok res, t)
      → (now' : Time) (meanwhile' : S → S) (at : Time) → 0 < at
      → settle_verified_order r now' tx meanwhile' (record w { business_at = at }) t
        ≡ (ok (record { applied = false; diamond_balance = res.diamond_balance }), t)
  settle_verified_order_again now meanwhile w s t res h now' meanwhile' at later =
      let (valid, how) = settle_verified_order-Settles v r laws now tx meanwhile w s t res h in
      elim how [
        | inl here ↦
            replay_of w t res valid (Settles-Replayed v w valid here) now' meanwhile' at later
        | inr (there, replayed, same) ↦
            replay_of w t res valid (Settles-Replayed v w valid there) now' meanwhile' at later
      ]
