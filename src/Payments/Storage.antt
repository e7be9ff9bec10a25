-- ===== src/Payments/Storage.antt =====
-- internal/data/payment_repository.go over five MongoDB collections. Every filter that is not
-- `find_where` fixes a unique index: `_id` of an account, an order and a ledger entry, the product
-- and version of a product, the channel and transaction of a receipt, whose `_id` is made of them.
-- The repository is wired, so that `ready` passes; `active` is `paymentTransactionActive(ctx)`.
pub mod Effects
pub mod Credits
pub mod Products
pub mod Refinement
pub mod Progress
use ai_go.Common.{Bool, true, false, not, ◌&&◌, ◌||◌, Option, none, some}
use ai_go.Common.Int.{ℤ, pos, leb_ℤ, ltb_ℤ, eqb_ℤ}
use ai_go.Common.Text.{Text, is_empty, eq_text}
use ai_go.Common.Result.{Result, ok, err}
use ai_go.Common.Action.{Action, raise, raise_if, ◌>>=◌, ◌>>◌}
use ai_go.Common.Clock.{Time, is_zero}
use ai_go.Mongo.{Collection, Upsert, Indexed, Reply, reply, no_reply}
use ai_go.Ledger.Documents.{AccountDocument, LedgerEntryDocument}
use ai_go.Payments.Model.{
  Provider, pay_cores, PaymentProduct, PaymentOrder, Receipt, PaymentCredit, Error, Repository,
  invalid_payment_product, invalid_payment_order, product_not_published,
  payment_product_already_exists, payment_order_already_exists, receipt_already_exists,
  repository_error,
}
use ai_go.Payments.Rules.{invalid_product, invalid_pending, is_pending, is_published}
use ai_go.Payments.Contract.{ReceiptKey, key_of}
use ai_go.Payments.Documents.{
  ProductKey, PaymentProductDocument, PaymentOrderDocument, PaymentReceiptDocument, product_key,
  product_document, to_product, order_document, to_order, to_receipt, mark_paid, bind_order,
  credit_account, payment_receipt_id, payment_credit_ledger_entry_id, receipt_document,
  credit_document,
}

pub record Database : Type 1 where
  pub accounts : Collection Text AccountDocument
  pub products : Collection ProductKey PaymentProductDocument
  pub orders : Collection Text PaymentOrderDocument
  pub receipts : Collection ReceiptKey PaymentReceiptDocument
  pub ledger_entries : Collection Text LedgerEntryDocument
  pub upserts : Upsert accounts
  pub product_index : Indexed products
  pub order_index : Indexed orders

pub record Tables (db : Database) : Type 0 where
  pub accounts : Collection.Store db.accounts
  pub products : Collection.Store db.products
  pub orders : Collection.Store db.orders
  pub receipts : Collection.Store db.receipts
  pub ledger_entries : Collection.Store db.ledger_entries

-- What the driver answered, as the method returns it.
abbrev pub answer : {A : Type 0} → Reply A → Result Error A
answer (reply a) = ok a
answer no_reply = err repository_error

-- `MatchedCount != 1` where it is an error, and a duplicate key.
abbrev pub answer_or : Error → Reply Bool → Result Error (Unit {0})
answer_or e (reply true) = ok tt
answer_or e (reply false) = err e
answer_or e no_reply = err repository_error

abbrev pub answer_unique : Reply (Option Bool) → Result Error Bool
answer_unique (reply (some matched)) = ok matched
answer_unique (reply none) = err payment_order_already_exists
answer_unique no_reply = err repository_error

abbrev pub answer_balance : Reply AccountDocument → Result Error ℤ
answer_balance (reply d) = ok d.diamond_balance
answer_balance no_reply = err repository_error

abbrev pub read_as : {A B : Type 0} → (A → B) → Reply (Option A) → Result Error (Option B)
read_as f (reply none) = ok none
read_as f (reply (some a)) = ok (some (f a))
read_as f no_reply = err repository_error

abbrev pub balance_of : Option AccountDocument → ℤ
balance_of none = pos 0
balance_of (some d) = d.diamond_balance

abbrev pub read_balance : Reply (Option AccountDocument) → Result Error ℤ
read_balance (reply o) = ok (balance_of o)
read_balance no_reply = err repository_error

-- The filters and the sort.
abbrev pub is_provider_order : Provider → Text → Text → PaymentOrderDocument → Bool
is_provider_order provider id key d = eq_text d.provider provider && eq_text d.provider_order_id id

abbrev pub is_published_version : Text → ProductKey → PaymentProductDocument → Bool
is_published_version id k d = eq_text k.product_id id && is_published d.publish_status

abbrev pub newer_version : ProductKey → ProductKey → Bool
newer_version a b = ltb_ℤ b.version a.version

abbrev pub no_sort : Text → Text → Bool
no_sort a b = false

abbrev pub is_unbound : Text → PaymentOrderDocument → Bool
is_unbound provisional d =
    eq_text d.provider pay_cores && eq_text d.provider_order_id provisional && is_pending d.status

module _ (digest : Text → Text) (active : Bool) (db : Database) where
  unfoldable pub create_product : PaymentProduct → Action (Tables db) Error (Unit {0})
  create_product p = do
    raise_if (invalid_product p) invalid_payment_product
    λ s.
        let x = Collection.insert_one db.products (product_key p) (product_document p) s.products in
        (answer_or payment_product_already_exists x.0, record s { products = x.1 })

  unfoldable pub find_product : Text → ℤ → Action (Tables db) Error (Option PaymentProduct)
  find_product id version s =
      let k : ProductKey = record { product_id = id; version = version } in
      (read_as (to_product k) (Collection.find_one db.products k s.products), s)

  unfoldable pub find_latest_published_product :
      Text → Action (Tables db) Error (Option PaymentProduct)
  find_latest_published_product id s = (
    read_as (λ (x : ProductKey × PaymentProductDocument). to_product x.0 x.1)
        (Indexed.find_where db.product_index (is_published_version id) newer_version s.products),
    s,
  )

  -- What follows the read of the order's product.
  unfoldable pub create_order_reply :
      PaymentOrder → Reply (Option PaymentProductDocument) → Action (Tables db) Error (Unit {0})
  create_order_reply o no_reply = raise repository_error
  create_order_reply o (reply none) = raise invalid_payment_order
  create_order_reply o (reply (some p)) = do
    raise_if (not (is_published p.publish_status)) product_not_published
    raise_if (not (eqb_ℤ p.diamond_amount o.diamond_amount)) invalid_payment_order
    raise_if (not (eqb_ℤ p.amount_cents o.amount_cents) || not (eq_text p.currency o.currency))
        invalid_payment_order
    λ s.
        let x = Collection.insert_one db.orders o.id (order_document o) s.orders in
        (answer_or payment_order_already_exists x.0, record s { orders = x.1 })

  unfoldable pub create_order : PaymentOrder → Action (Tables db) Error (Unit {0})
  create_order o = do
    raise_if (invalid_pending o) invalid_payment_order
    raise_if (not active) repository_error
    λ s.
        create_order_reply o
          (Collection.find_one db.products
            (record { product_id = o.product_id; version = o.product_version }) s.products)
          s

  unfoldable pub find_order : Text → Action (Tables db) Error (Option PaymentOrder)
  find_order id s = (read_as (to_order id) (Collection.find_one db.orders id s.orders), s)

  unfoldable pub find_order_by_provider_order :
      Provider → Text → Action (Tables db) Error (Option PaymentOrder)
  find_order_by_provider_order provider id s = (
    read_as (λ (x : Text × PaymentOrderDocument). to_order x.0 x.1)
        (Indexed.find_where db.order_index (is_provider_order provider id) no_sort s.orders),
    s,
  )

  unfoldable pub bind_pay_cores_provider_order :
      Text → Text → Text → Time → Action (Tables db) Error Bool
  bind_pay_cores_provider_order local_order_id provisional provider_order_id at = do
    raise_if
        (is_empty local_order_id
          || is_empty provisional
          || is_empty provider_order_id
          || is_zero at)
        invalid_payment_order
    λ s.
        let x =
          Indexed.update_unique db.order_index local_order_id (is_unbound provisional)
            (bind_order provider_order_id at) s.orders in
        (answer_unique x.0, record s { orders = x.1 })

  unfoldable pub mark_order_paid : Text → Time → Action (Tables db) Error Bool
  mark_order_paid id at = do
    raise_if (not active) repository_error
    λ s.
        let x =
          Collection.update_one db.orders id (λ (d : PaymentOrderDocument). is_pending d.status)
            (mark_paid at) s.orders in
        (answer x.0, record s { orders = x.1 })

  unfoldable pub find_receipt : Provider → Text → Action (Tables db) Error (Option Receipt)
  find_receipt provider id s =
      let k : ReceiptKey = record { provider = provider; external_transaction_id = id } in
      (read_as (to_receipt k) (Collection.find_one db.receipts k s.receipts), s)

  unfoldable pub find_diamond_balance : Text → Action (Tables db) Error ℤ
  find_diamond_balance user s = (read_balance (Collection.find_one db.accounts user s.accounts), s)

  unfoldable pub create_receipt : Receipt → Action (Tables db) Error (Unit {0})
  create_receipt r = do
    raise_if (not active) repository_error
    λ s.
        let x =
          Collection.insert_one db.receipts (key_of r) (receipt_document digest r) s.receipts in
        (answer_or receipt_already_exists x.0, record s { receipts = x.1 })

  unfoldable pub credit_diamonds : Text → ℤ → Time → Action (Tables db) Error ℤ
  credit_diamonds user diamonds at = do
    raise_if (not active) repository_error
    raise_if (leb_ℤ diamonds (pos 0) || is_zero at) repository_error
    λ s.
        let x =
          Upsert.find_one_and_upsert db.upserts user (credit_account diamonds at) s.accounts in
        (answer_balance x.0, record s { accounts = x.1 })

  abbrev pub insert_credit : PaymentCredit → Action (Tables db) Error (Unit {0})
  insert_credit c s =
      let x =
        Collection.insert_one db.ledger_entries
          (payment_credit_ledger_entry_id digest (key_of c.receipt)) (credit_document digest c)
          s.ledger_entries in
      (answer_or repository_error x.0, record s { ledger_entries = x.1 })

  abbrev pub link_receipt : PaymentCredit → Action (Tables db) Error (Unit {0})
  link_receipt c s =
      let x =
        Collection.update_one db.receipts (key_of c.receipt)
          (λ d. eq_text d.id (payment_receipt_id digest (key_of c.receipt)))
          (λ d. record d {
            ledger_entry_id = payment_credit_ledger_entry_id digest (key_of c.receipt);
          })
          s.receipts in
      (answer_or repository_error x.0, record s { receipts = x.1 })

  unfoldable pub append_payment_credit : PaymentCredit → Action (Tables db) Error (Unit {0})
  append_payment_credit c = do
    raise_if (not active) repository_error
    raise_if (is_empty c.reason || is_zero c.created_at) repository_error
    insert_credit c
    link_receipt c

  abbrev pub payment_repository : Repository (Tables db)
  payment_repository = record {
    find_receipt = find_receipt;
    find_diamond_balance = find_diamond_balance;
    create_receipt = create_receipt;
    credit_diamonds = credit_diamonds;
    append_payment_credit = append_payment_credit;
    find_order_by_provider_order = find_order_by_provider_order;
    create_product = create_product;
    find_product = find_product;
    create_order = create_order;
    find_order = find_order;
    mark_order_paid = mark_order_paid;
    find_latest_published_product = find_latest_published_product;
    bind_pay_cores_provider_order = bind_pay_cores_provider_order;
  }
