-- ===== src/Payments/Effects.antt =====
-- What a settlement of internal/biz/payments/service.go may do to a store, and the steps that do it,
-- over the contract of the repository.
use ai_go.Common.{true, false, ◌≡◌, refl, sym, ◌∙◌, ◌≢◌, inl, inr, none, some, arith}
use ai_go.Common.Int.{pos, ◌+ℤ◌, ◌<ℤ◌, eqb_ℤ_sound}
use ai_go.Common.Text.{Text, eq_text_sound}
use ai_go.Common.Result.{ok, Result-cases}
use ai_go.Common.Clock.{Time}
use ai_go.Payments.Model.{
  PaymentOrder, PaymentOrderStatus, pending, paid, Receipt, ApplyResult, VerifiedOrderSettlement,
  Repository,
}
use ai_go.Payments.Rules.{
  is_pending, is_paid, invalid_settlement_order, invalid_pending, normalize_receipt, same_fact,
}
use ai_go.Payments.Service.{
  invalid_settlement, mismatched, receipt_of, credit_of, record_receipt_within_tx,
}
use ai_go.Payments.Contract.{ReceiptKey, key_of, entry_of, View, Laws}

pub is_paid_sound : (p : PaymentOrderStatus) → is_paid p ≡ true → p ≡ paid
is_paid_sound pending h = absurd (cc)
is_paid_sound paid h = refl
is_paid_sound (PaymentOrderStatus.other_order_status t) h = absurd (cc)

pub is_pending_sound : (p : PaymentOrderStatus) → is_pending p ≡ true → p ≡ pending
is_pending_sound pending h = refl
is_pending_sound paid h = absurd (cc)
is_pending_sound (PaymentOrderStatus.other_order_status t) h = absurd (cc)

pub same_fact_sound :
    (a b : Receipt) → same_fact a b ≡ true → b ≡ record a { business_at = b.business_at }
unfolding same_fact
same_fact_sound a b h =
    let p : a.provider ≡ b.provider = eq_text_sound a.provider b.provider (ground arith) in
    let x : a.external_transaction_id ≡ b.external_transaction_id =
      eq_text_sound a.external_transaction_id b.external_transaction_id (ground arith) in
    let o : a.payment_order_id ≡ b.payment_order_id =
      eq_text_sound a.payment_order_id b.payment_order_id (ground arith) in
    let u : a.user_id ≡ b.user_id = eq_text_sound a.user_id b.user_id (ground arith) in
    let d : a.diamond_amount ≡ b.diamond_amount =
      eqb_ℤ_sound a.diamond_amount b.diamond_amount (ground arith) in
    λ i. record {
      provider = sym p i;
      external_transaction_id = sym x i;
      payment_order_id = sym o i;
      user_id = sym u i;
      diamond_amount = sym d i;
      business_at = b.business_at;
    }

-- An order that the settlement names truly.
pub record Matches (o : PaymentOrder) (v : VerifiedOrderSettlement) : Type 0 where
  pub valid : invalid_settlement_order o ≡ false
  pub same_user : o.user_id ≡ v.user_id
  pub same_provider : o.provider ≡ v.provider
  pub same_provider_order : o.provider_order_id ≡ v.provider_order_id

pub mismatched-Matches :
    (o : PaymentOrder) (v : VerifiedOrderSettlement)
    → invalid_settlement_order o ≡ false
    → mismatched o v ≡ false
    → Matches o v
unfolding mismatched
mismatched-Matches o v valid h = record {
  valid = valid;
  same_user = eq_text_sound o.user_id v.user_id (ground arith);
  same_provider = eq_text_sound o.provider v.provider (ground arith);
  same_provider_order = eq_text_sound o.provider_order_id v.provider_order_id (ground arith);
}

-- The receipt of a valid order and a valid settlement is normalised to itself.
pub normalize_receipt-receipt_of :
    (o : PaymentOrder) (v : VerifiedOrderSettlement) (now : Time)
    → invalid_settlement_order o ≡ false
    → invalid_settlement v ≡ false
    → normalize_receipt (receipt_of o v) now ≡ ok (receipt_of o v)
unfolding normalize_receipt invalid_settlement_order invalid_pending invalid_settlement
normalize_receipt-receipt_of o v now good valid = ground arith

module _ {S : Type 0} (v : View S) where
  -- What `recordReceiptWithinTx` writes between two stores: the receipt, its diamonds on the balance
  -- of its user, and its ledger entry, all new, and nothing else.
  pub record Recorded (r : Receipt) (s t : S) : Type 0 where
    pub positive : pos 0 <ℤ r.diamond_amount
    pub fresh : View.receipt v s (key_of r) ≡ none
    pub stored : View.receipt v t (key_of r) ≡ some r
    pub other_receipts : (k : ReceiptKey) → k ≢ key_of r → View.receipt v t k ≡ View.receipt v s k
    pub credited : View.balance v t r.user_id ≡ View.balance v s r.user_id +ℤ r.diamond_amount
    pub other_balances : (w : Text) → w ≢ r.user_id → View.balance v t w ≡ View.balance v s w
    pub unlogged : View.entry v s (View.entry_id v (key_of r)) ≡ none
    pub logged : View.entry v t (View.entry_id v (key_of r)) ≡ some (entry_of (credit_of r))
    pub other_entries :
        (j : Text) → j ≢ View.entry_id v (key_of r) → View.entry v t j ≡ View.entry v s j
    pub same_orders : View.order v t ≡ View.order v s
    pub same_products : View.product v t ≡ View.product v s

  -- The first settlement of an order: it was pending and is paid, and its receipt is recorded.
  pub record Applied (o : PaymentOrder) (w : VerifiedOrderSettlement) (s t : S) : Type 0 where
    pub matches : Matches o w
    pub was_pending : o.status ≡ pending
    pub was_stored : View.order v s w.payment_order_id ≡ some o
    pub is_stored :
        View.order v t w.payment_order_id
        ≡ some (record o { status = paid; updated_at = w.business_at })
    pub other_orders : (j : Text) → j ≢ w.payment_order_id → View.order v t j ≡ View.order v s j
    pub positive : pos 0 <ℤ o.diamond_amount
    pub fresh : View.receipt v s (key_of (receipt_of o w)) ≡ none
    pub receipt_stored : View.receipt v t (key_of (receipt_of o w)) ≡ some (receipt_of o w)
    pub other_receipts :
        (k : ReceiptKey) → k ≢ key_of (receipt_of o w) → View.receipt v t k ≡ View.receipt v s k
    pub credited : View.balance v t o.user_id ≡ View.balance v s o.user_id +ℤ o.diamond_amount
    pub other_balances : (u : Text) → u ≢ o.user_id → View.balance v t u ≡ View.balance v s u
    pub unlogged : View.entry v s (View.entry_id v (key_of (receipt_of o w))) ≡ none
    pub logged :
        View.entry v t (View.entry_id v (key_of (receipt_of o w)))
        ≡ some (entry_of (credit_of (receipt_of o w)))
    pub other_entries :
        (j : Text)
        → j ≢ View.entry_id v (key_of (receipt_of o w))
        → View.entry v t j ≡ View.entry v s j
    pub same_products : View.product v t ≡ View.product v s

  -- A replay reads the same facts of a paid order.
  pub record Replayed (o : PaymentOrder) (w : VerifiedOrderSettlement) (s : S) : Type 0 where
    pub matches : Matches o w
    pub was_paid : o.status ≡ paid
    pub was_stored : View.order v s w.payment_order_id ≡ some o
    pub time : Time
    pub receipt_stored :
        View.receipt v s (key_of (receipt_of o w))
        ≡ some (record (receipt_of o w) { business_at = time })

  pub data Settles (w : VerifiedOrderSettlement) (s t : S) : ApplyResult → Type 0 where
    applies :
        (o : PaymentOrder)
        → Applied o w s t
        → Settles w s t (record {
          applied = true;
          diamond_balance = View.balance v s o.user_id +ℤ o.diamond_amount;
        })
    replays :
        (o : PaymentOrder)
        → Replayed o w s
        → t ≡ s
        → Settles w s t (record { applied = false; diamond_balance = View.balance v s o.user_id })

module _ {S : Type 0} (v : View S) (r : Repository S) (laws : Laws v r) (now : Time) where
  pub record_receipt-Recorded :
      (n : Receipt) (s t : S) (res : ApplyResult)
      → record_receipt_within_tx r now n s ≡ (ok res, t)
      → Recorded v n s t
        × (res ≡ record {
          applied = true;
          diamond_balance = View.balance v s n.user_id +ℤ n.diamond_amount;
        })
  unfolding record_receipt_within_tx
  record_receipt-Recorded n s t res h =
      let x = r.create_receipt n s in
      elim (Result-cases x.0) [
        | inr (e, failed) ↦ absurd (ground arith)
        | inl (tt, created) ↦
            let y = r.credit_diamonds n.user_id n.diamond_amount n.business_at x.1 in
            elim (Result-cases y.0) [
              | inr (e, failed) ↦ absurd (ground arith)
              | inl (b, credited) ↦
                  let z = r.append_payment_credit (credit_of n) y.1 in
                  let facts : (z.0 ≡ ok tt)
                      × (res ≡ record { applied = true; diamond_balance = b })
                      × (t ≡ z.1) =
                    ground arith in
                  let a = laws.create_receipt_law n s x.1 (λ i. (created i, x.1)) in
                  let (positive, sum, c) =
                    laws.credit_law n.user_id n.diamond_amount n.business_at x.1 y.1 b
                      (λ i. (credited i, y.1)) in
                  let d = laws.append_law (credit_of n) y.1 t (λ i. (facts.0 i, sym facts.2 i)) in
                  let total : b ≡ View.balance v s n.user_id +ℤ n.diamond_amount =
                    sum ∙ (λ i. a.same_balances i n.user_id +ℤ n.diamond_amount) in
                  (
                    record {
                      positive = positive;
                      fresh = a.no_receipt;
                      stored =
                          (λ i. (d.same_receipts ∙ c.same_receipts) i (key_of n)) ∙ a.new_receipt;
                      other_receipts = λ k ne.
                          (λ i. (d.same_receipts ∙ c.same_receipts) i k) ∙ a.other_receipts k ne;
                      credited = (λ i. d.same_balances i n.user_id) ∙ c.new_balance ∙ total;
                      other_balances = λ w ne.
                          (λ i. d.same_balances i w)
                          ∙ c.other_balances w ne
                          ∙ (λ i. a.same_balances i w);
                      unlogged =
                          sym
                            (λ i. (c.same_entries ∙ a.same_entries) i (View.entry_id v (key_of n)))
                          ∙ d.no_entry;
                      logged = d.new_entry;
                      other_entries = λ j ne.
                          d.other_entries j ne ∙ (λ i. (c.same_entries ∙ a.same_entries) i j);
                      same_orders = d.same_orders ∙ c.same_orders ∙ a.same_orders;
                      same_products = d.same_products ∙ c.same_products ∙ a.same_products;
                    },
                    facts.1 ∙ (λ i. record { applied = true; diamond_balance = total i }),
                  )
            ]
      ]
