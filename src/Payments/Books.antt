-- ===== src/Payments/Books.antt =====
-- Histories of settlements of internal/biz/payments/service.go, each of which other settlements may
-- overtake between its transaction and the reads behind it.
use ai_go.Common.{◌≡◌, refl, sym, ap, ◌∙◌, ◌≢◌, ◌⊎◌, inl, inr, Option, none, some, arith}
use ai_go.Common.Text.{Text, text-cases}
use ai_go.Common.Result.{Result-cases}
use ai_go.Common.Clock.{Time}
use ai_go.Mongo.{Transaction}
use ai_go.Payments.Model.{
  repository_error, PaymentOrder, pending, paid, Receipt, ApplyResult, VerifiedOrderSettlement,
  Error, Repository,
}
use ai_go.Payments.Service.{receipt_of, credit_of, settle_verified_order}
use ai_go.Payments.Contract.{ReceiptKey, key-cases, key_of, Entry, entry_of, View, Laws}
use ai_go.Payments.Effects.{Applied, Settles, applies, replays}
use ai_go.Payments.Settle.{settle_within_tx-Settles, settle_verified_order-Settles}
use ai_go.Payments.Failures.{settle_verified_order-err}

module _ {S : Type 0} (v : View S) where
  -- The books agree: a receipt belongs to a paid order of its user, for the diamonds frozen there,
  -- and has its ledger entry; an order has one receipt at most.
  pub record IsBooked (s : S) : Type 0 where
    pub of_order :
        (k : ReceiptKey) (n : Receipt)
        → View.receipt v s k ≡ some n
        → (o : PaymentOrder) × (View.order v s n.payment_order_id ≡ some o)
          × (o.status ≡ paid)
          × (n.user_id ≡ o.user_id)
          × (n.diamond_amount ≡ o.diamond_amount)
    pub of_entry :
        (k : ReceiptKey) (n : Receipt)
        → View.receipt v s k ≡ some n
        → View.entry v s (View.entry_id v k) ≡ some (entry_of (credit_of n))
    pub once :
        (j k : ReceiptKey) (m n : Receipt)
        → View.receipt v s j ≡ some m
        → View.receipt v s k ≡ some n
        → m.payment_order_id ≡ n.payment_order_id
        → j ≡ k

  -- What no settlement takes back: receipts, ledger entries, and an order but for its payment.
  pub record IsKept (s t : S) : Type 0 where
    pub receipts :
        (k : ReceiptKey) (n : Receipt) → View.receipt v s k ≡ some n → View.receipt v t k ≡ some n
    pub entries : (j : Text) (e : Entry) → View.entry v s j ≡ some e → View.entry v t j ≡ some e
    pub orders :
        (j : Text) (o : PaymentOrder)
        → View.order v s j ≡ some o
        → (View.order v t j ≡ some o)
          ⊎ ((at : Time) × (o.status ≡ pending)
              × (View.order v t j ≡ some (record o { status = paid; updated_at = at })))
    pub booked : IsBooked s → IsBooked t

-- One new key keeps what is stored under the others.
kept :
    {K A : Type 0} (cases : (j k : K) → (j ≡ k) ⊎ (j ≢ k)) (f g : K → Option A) (k : K)
    → f k ≡ none
    → ((j : K) → j ≢ k → g j ≡ f j)
    → (j : K) (a : A) → f j ≡ some a
    → g j ≡ some a
kept cases f g k new others j a h = elim (cases j k) [
  | inl e ↦ absurd (ground (arith, sym h ∙ ap f e ∙ new))
  | inr ne ↦ others j ne ∙ h
]

module _ {S : Type 0} (v : View S) {o : PaymentOrder} {w : VerifiedOrderSettlement} {s t : S}
    (a : Applied v o w s t) (id : o.id ≡ w.payment_order_id) where
  -- A receipt after the payment is the new one, or was there.
  receipt_after :
      (k : ReceiptKey) (n : Receipt)
      → View.receipt v t k ≡ some n
      → ((k ≡ key_of (receipt_of o w)) × (n ≡ receipt_of o w)) ⊎ (View.receipt v s k ≡ some n)
  receipt_after k n h = elim (key-cases k (key_of (receipt_of o w))) [
    | inr ne ↦ inr (sym (a.other_receipts k ne) ∙ h)
    | inl e ↦
        let same : n ≡ receipt_of o w =
          ground (arith, sym h ∙ ap (View.receipt v t) e ∙ a.receipt_stored) in
        inl (e, same)
  ]

  -- The order had no receipt, since it was pending.
  no_receipt_before :
      IsBooked v s
      → (k : ReceiptKey) (n : Receipt) → View.receipt v s k ≡ some n
      → n.payment_order_id ≢ w.payment_order_id
  no_receipt_before b k n h e =
      let (p, stored, paid_, user, amount) = b.of_order k n h in
      let same : p ≡ o = ground (arith, sym stored ∙ ap (View.order v s) e ∙ a.was_stored) in
      let clash : paid ≡ pending = sym paid_ ∙ ap PaymentOrder.status same ∙ a.was_pending in
      absurd (cc)

  Applied-IsBooked : IsBooked v s → IsBooked v t
  Applied-IsBooked b = record {
    of_order = λ k n h. elim (receipt_after k n h) [
      | inl (e, same) ↦ rw same (
        record o { status = paid; updated_at = w.business_at },
        ap (View.order v t) id ∙ a.is_stored,
        refl,
        refl,
        refl,
      )
      | inr old ↦
          let (p, stored, paid_, user, amount) = b.of_order k n old in
          (
            p,
            a.other_orders n.payment_order_id (no_receipt_before b k n old) ∙ stored,
            paid_,
            user,
            amount,
          )
    ];
    of_entry = λ k n h. elim (receipt_after k n h) [
      | inl (e, same) ↦ rw (e, same) a.logged
      | inr old ↦
          kept text-cases (View.entry v s) (View.entry v t) _ a.unlogged a.other_entries
            (View.entry_id v k) (entry_of (credit_of n)) (b.of_entry k n old)
    ];
    once = λ j k m n hj hk e. elim (receipt_after j m hj) [
      | inl (new, same) ↦ elim (receipt_after k n hk) [
        | inl (new', same') ↦ new ∙ sym new'
        | inr old ↦
            absurd (no_receipt_before b k n old (sym e ∙ ap Receipt.payment_order_id same ∙ id))
      ]
      | inr old ↦ elim (receipt_after k n hk) [
        | inl (new', same') ↦
            absurd (no_receipt_before b j m old (e ∙ ap Receipt.payment_order_id same' ∙ id))
        | inr old' ↦ b.once j k m n old old' e
      ]
    ];
  }

  Applied-IsKept : IsKept v s t
  Applied-IsKept = record {
    receipts = kept key-cases (View.receipt v s) (View.receipt v t) _ a.fresh a.other_receipts;
    entries = kept text-cases (View.entry v s) (View.entry v t) _ a.unlogged a.other_entries;
    orders = λ j p h. elim (text-cases j w.payment_order_id) [
      | inr ne ↦ inl (a.other_orders j ne ∙ h)
      | inl e ↦
          let same : p ≡ o = ground (arith, sym h ∙ ap (View.order v s) e ∙ a.was_stored) in
          inr (
            w.business_at,
            ap PaymentOrder.status same ∙ a.was_pending,
            ap (View.order v t) e
                ∙ a.is_stored
                ∙ (λ i. some (record (sym same i) { status = paid; updated_at = w.business_at })),
          )
    ];
    booked = Applied-IsBooked;
  }

module _ {S : Type 0} (v : View S) where
  pub IsKept-refl : (s : S) → IsKept v s s
  IsKept-refl s = record {
    receipts = λ k n h. h;
    entries = λ j e h. h;
    orders = λ j o h. inl h;
    booked = λ h. h;
  }

  pub IsKept-trans : {s t u : S} → IsKept v s t → IsKept v t u → IsKept v s u
  IsKept-trans a b = record {
    receipts = λ k n h. b.receipts k n (a.receipts k n h);
    entries = λ j e h. b.entries j e (a.entries j e h);
    orders = λ j o h. elim (a.orders j o h) [
      | inl same ↦ b.orders j o same
      | inr (at, was, now) ↦ elim (b.orders j _ now) [
        | inl same ↦ inr (at, was, same)
        | inr (again, pending_, there) ↦ absurd (cc)
      ]
    ];
    booked = λ h. b.booked (a.booked h);
  }

module _ {S : Type 0} (v : View S) (r : Repository S) (laws : Laws v r)
    (tx : Transaction S Error repository_error ApplyResult) where
  Settles-IsKept :
      {w : VerifiedOrderSettlement} {s t : S} {res : ApplyResult}
      → Settles v w s t res
      → IsKept v s t
  Settles-IsKept {w} {s} (applies o a) =
      Applied-IsKept v a (laws.order_id s w.payment_order_id o a.was_stored)
  Settles-IsKept {s = s} (replays o p same) = rw same (IsKept-refl v s)

  -- The stores that settlements reach, one after the other; while one is under way, others may go
  -- from its store `t` to `u`.
  pub data Reaches : S → S → Type 0 where
    start : (s : S) → Reaches s s
    settled :
        (s t u : S) (now : Time) (w : VerifiedOrderSettlement)
        → Reaches s t
        → Reaches t u
        → Reaches s (settle_verified_order r now tx (λ _. u) w t).1

  settle-IsKept :
      (now : Time) (w : VerifiedOrderSettlement) (t u : S)
      → IsKept v t u
      → IsKept v t (settle_verified_order r now tx (λ _. u) w t).1
  settle-IsKept now w t u k =
      let x = settle_verified_order r now tx (λ _. u) w t in
      elim (Result-cases x.0) [
        | inl (res, done) ↦
            let (valid, how) =
              settle_verified_order-Settles v r laws now tx (λ _. u) w t x.1 res
                (λ i. (done i, x.1)) in
            elim how [ inl here ↦ Settles-IsKept here | inr (there, replayed, same) ↦ rw same k ]
        | inr (e, failed) ↦
            elim (settle_verified_order-err v r laws now tx (λ _. u) w t x.1 e
              (λ i. (failed i, x.1))) [
                | inl same ↦ rw same (IsKept-refl v t)
                | inr (inl same) ↦ rw same k
                | inr (inr (valid, res, kept)) ↦
                    Settles-IsKept (settle_within_tx-Settles v r laws now w t x.1 res valid kept)
              ]
      ]

  -- Whatever settlements reach, and whatever fails among them: receipts and ledger entries stay as
  -- they are, an order changes at most from pending to paid, and if the books agreed (every receipt
  -- belongs to a paid order of its user and carries the diamonds frozen in it, has its ledger entry,
  -- and no order has two receipts), they still do.
  pub Reaches-IsKept : {s t : S} → Reaches s t → IsKept v s t
  Reaches-IsKept (start s) = IsKept-refl v s
  Reaches-IsKept (settled s t u now w a b) =
      IsKept-trans v (Reaches-IsKept a) (settle-IsKept now w t u (Reaches-IsKept b))
