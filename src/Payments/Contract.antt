-- ===== src/Payments/Contract.antt =====
-- What internal/biz/payments relies on of its repository: the facts that a store shows, and the
-- effect of each operation that succeeds. An operation that fails promises nothing of the store.
use ai_go.Common.{true, false, ◌≡◌, ◌≢◌, ◌⊎◌, inl, inr, ap, Option, none, some}
use ai_go.Common.Int.{ℤ, pos, ◌+ℤ◌, ◌≤ℤ◌, ◌<ℤ◌}
use ai_go.Common.Text.{Text, text-cases, is_blank}
use ai_go.Common.Result.{ok}
use ai_go.Common.Action.{Keeps}
use ai_go.Common.Clock.{Time}
use ai_go.Payments.Model.{
  Provider, pay_cores, PaymentProduct, PaymentOrder, pending, paid, draft, published, Receipt,
  PaymentCredit, Repository,
}

-- What tells receipts apart: the channel and its transaction.
pub record ReceiptKey : Type 0 where
  pub provider : Provider
  pub external_transaction_id : Text

pub key-cases : (j k : ReceiptKey) → (j ≡ k) ⊎ (j ≢ k)
key-cases j k = elim (text-cases j.provider k.provider) [
  | inr ne ↦ inr λ e. ne (ap ReceiptKey.provider e)
  | inl p ↦ elim (text-cases j.external_transaction_id k.external_transaction_id) [
    | inr ne ↦ inr λ e. ne (ap ReceiptKey.external_transaction_id e)
    | inl x ↦ inl λ i. record { provider = p i; external_transaction_id = x i }
  ]
]

abbrev pub key_of : Receipt → ReceiptKey
key_of r = record { provider = r.provider; external_transaction_id = r.external_transaction_id }

-- A ledger entry as a payment writes it.
pub record Entry : Type 0 where
  pub account_id : Text
  pub delta_diamonds : ℤ
  pub reason : Text
  pub created_at : Time

abbrev pub entry_of : PaymentCredit → Entry
entry_of c = record {
  account_id = c.receipt.user_id;
  delta_diamonds = c.receipt.diamond_amount;
  reason = c.reason;
  created_at = c.created_at;
}

-- The facts of a store: orders by id, products by id and version, receipts by their key, balances by
-- user, 0 where there is no account, and ledger entries by id, with the id that a receipt's credit
-- has.
pub record View (S : Type 0) : Type 0 where
  pub order : S → Text → Option PaymentOrder
  pub product : S → Text → ℤ → Option PaymentProduct
  pub receipt : S → ReceiptKey → Option Receipt
  pub balance : S → Text → ℤ
  pub entry : S → Text → Option Entry
  pub entry_id : ReceiptKey → Text

-- A product that may be sold, now or after it is published.
pub record IsSellable (p : PaymentProduct) : Type 0 where
  pub named : is_blank p.id ≡ false
  pub versioned : pos 0 <ℤ p.version
  pub grants : pos 0 <ℤ p.diamond_amount
  pub status : (p.publish_status ≡ draft) ⊎ (p.publish_status ≡ published)

module _ {S : Type 0} (v : View S) where
  open v use {order, product, receipt, balance, entry, entry_id}

  -- The operation touches nothing but one order, which becomes `new`.
  pub record Orders (s t : S) (id : Text) (old : Option PaymentOrder) (new : PaymentOrder)
      : Type 0 where
    pub old_order : order s id ≡ old
    pub new_order : order t id ≡ some new
    pub other_orders : (j : Text) → j ≢ id → order t j ≡ order s j
    pub same_products : product t ≡ product s
    pub same_receipts : receipt t ≡ receipt s
    pub same_balances : balance t ≡ balance s
    pub same_entries : entry t ≡ entry s

  -- It touches nothing but one receipt, which is new.
  pub record Receipts (s t : S) (r : Receipt) : Type 0 where
    pub no_receipt : receipt s (key_of r) ≡ none
    pub new_receipt : receipt t (key_of r) ≡ some r
    pub other_receipts : (k : ReceiptKey) → k ≢ key_of r → receipt t k ≡ receipt s k
    pub same_orders : order t ≡ order s
    pub same_products : product t ≡ product s
    pub same_balances : balance t ≡ balance s
    pub same_entries : entry t ≡ entry s

  -- It touches nothing but one balance, which becomes `new`.
  pub record Balances (s t : S) (user : Text) (new : ℤ) : Type 0 where
    pub new_balance : balance t user ≡ new
    pub other_balances : (w : Text) → w ≢ user → balance t w ≡ balance s w
    pub same_orders : order t ≡ order s
    pub same_products : product t ≡ product s
    pub same_receipts : receipt t ≡ receipt s
    pub same_entries : entry t ≡ entry s

  -- It touches nothing but one ledger entry, which is new.
  pub record Entries (s t : S) (id : Text) (e : Entry) : Type 0 where
    pub no_entry : entry s id ≡ none
    pub new_entry : entry t id ≡ some e
    pub other_entries : (j : Text) → j ≢ id → entry t j ≡ entry s j
    pub same_orders : order t ≡ order s
    pub same_products : product t ≡ product s
    pub same_receipts : receipt t ≡ receipt s
    pub same_balances : balance t ≡ balance s

  -- It touches nothing but one version of one product, which is new.
  pub record Products (s t : S) (p : PaymentProduct) : Type 0 where
    pub no_product : product s p.id p.version ≡ none
    pub new_product : product t p.id p.version ≡ some p
    pub other_products :
        (id : Text) (version : ℤ)
        → ¬ ((id ≡ p.id) × (version ≡ p.version))
        → product t id version ≡ product s id version
    pub same_orders : order t ≡ order s
    pub same_receipts : receipt t ≡ receipt s
    pub same_balances : balance t ≡ balance s
    pub same_entries : entry t ≡ entry s

  pub record Laws (r : Repository S) : Type 0 where
    pub order_id : (s : S) (id : Text) (o : PaymentOrder) → order s id ≡ some o → o.id ≡ id
    pub find_order_Keeps : (id : Text) → Keeps (r.find_order id)
    pub find_receipt_Keeps : (p : Provider) (x : Text) → Keeps (r.find_receipt p x)
    pub balance_Keeps : (u : Text) → Keeps (r.find_diamond_balance u)
    pub find_product_Keeps : (id : Text) (version : ℤ) → Keeps (r.find_product id version)
    pub latest_Keeps : (id : Text) → Keeps (r.find_latest_published_product id)
    pub locate_Keeps : (p : Provider) (id : Text) → Keeps (r.find_order_by_provider_order p id)
    pub create_product_law :
        (p : PaymentProduct) (s t : S)
        → r.create_product p s ≡ (ok tt, t)
        → IsSellable p × Products s t p
    pub find_order_law :
        (id : Text) (s t : S) (o : Option PaymentOrder)
        → r.find_order id s ≡ (ok o, t)
        → (t ≡ s) × (o ≡ order s id)
    pub locate_law :
        (p : Provider) (id : Text) (s t : S) (o : PaymentOrder)
        → r.find_order_by_provider_order p id s ≡ (ok (some o), t)
        → (order s o.id ≡ some o) × (o.provider ≡ p) × (o.provider_order_id ≡ id)
    pub locate_same :
        (p : Provider) (id : Text) (s t : S) (o : Option PaymentOrder)
        → r.find_order_by_provider_order p id s ≡ (ok o, t)
        → t ≡ s
    pub find_receipt_law :
        (p : Provider) (x : Text) (s t : S) (o : Option Receipt)
        → r.find_receipt p x s ≡ (ok o, t)
        → (t ≡ s) × (o ≡ receipt s (record { provider = p; external_transaction_id = x }))
    pub balance_law :
        (u : Text) (s t : S) (b : ℤ)
        → r.find_diamond_balance u s ≡ (ok b, t)
        → (t ≡ s) × (b ≡ balance s u)
    pub mark_law :
        (id : Text) (at : Time) (s t : S)
        → r.mark_order_paid id at s ≡ (ok true, t)
        → (o : PaymentOrder) × (o.status ≡ pending)
          × Orders s t id (some o) (record o { status = paid; updated_at = at })
    pub create_receipt_law :
        (n : Receipt) (s t : S) → r.create_receipt n s ≡ (ok tt, t) → Receipts s t n
    pub credit_law :
        (u : Text) (d : ℤ) (at : Time) (s t : S) (b : ℤ)
        → r.credit_diamonds u d at s ≡ (ok b, t)
        → (pos 0 <ℤ d) × (b ≡ balance s u +ℤ d) × Balances s t u b
    pub append_law :
        (c : PaymentCredit) (s t : S)
        → r.append_payment_credit c s ≡ (ok tt, t)
        → Entries s t (entry_id (key_of c.receipt)) (entry_of c)
    pub create_order_law :
        (o : PaymentOrder) (s t : S)
        → r.create_order o s ≡ (ok tt, t)
        → (p : PaymentProduct) × (product s o.product_id o.product_version ≡ some p)
          × (p.publish_status ≡ published)
          × (p.diamond_amount ≡ o.diamond_amount)
          × (p.amount_cents ≡ o.amount_cents)
          × (p.currency ≡ o.currency)
          × Orders s t o.id none o
    pub find_product_law :
        (id : Text) (version : ℤ) (s t : S) (o : Option PaymentProduct)
        → r.find_product id version s ≡ (ok o, t)
        → (t ≡ s) × (o ≡ product s id version)
    pub latest_law :
        (id : Text) (s t : S) (o : Option PaymentProduct)
        → r.find_latest_published_product id s ≡ (ok o, t)
        → t ≡ s
    pub latest_found :
        (id : Text) (s t : S) (p : PaymentProduct)
        → r.find_latest_published_product id s ≡ (ok (some p), t)
        → (p.id ≡ id) × (p.publish_status ≡ published) × (product s id p.version ≡ some p)
    pub latest_newest :
        (id : Text) (s t : S) (p : PaymentProduct)
        → r.find_latest_published_product id s ≡ (ok (some p), t)
        → (version : ℤ) (q : PaymentProduct) → product s id version ≡ some q
        → q.publish_status ≡ published
        → version ≤ℤ p.version
    pub latest_none :
        (id : Text) (s t : S)
        → r.find_latest_published_product id s ≡ (ok none, t)
        → (version : ℤ) (q : PaymentProduct) → product s id version ≡ some q
        → q.publish_status ≢ published
    pub bind_law :
        (id provisional provider_order_id : Text) (at : Time) (s t : S)
        → r.bind_pay_cores_provider_order id provisional provider_order_id at s ≡ (ok true, t)
        → (o : PaymentOrder) × (o.status ≡ pending)
          × (o.provider ≡ pay_cores)
          × (o.provider_order_id ≡ provisional)
          × Orders s t id
              (some o)
              (record o { provider_order_id = provider_order_id; updated_at = at })
    pub bind_miss :
        (id provisional provider_order_id : Text) (at : Time) (s t : S)
        → r.bind_pay_cores_provider_order id provisional provider_order_id at s ≡ (ok false, t)
        → t ≡ s
