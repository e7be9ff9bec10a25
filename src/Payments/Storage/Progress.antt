-- ===== src/Payments/Storage/Progress.antt =====
-- Settlements over a MongoDB that answers every call of internal/data/payment_repository.go.
use mathlib.Core.Option
use ai_go.Common.{true, false, ◌≡◌, refl, ap, ◌∙◌, Option, none, some, arith}
use ai_go.Common.Int.{ℤ, pos, ◌+ℤ◌, leb_ℤ}
use ai_go.Common.Text.{Text, eq_text, eq_text_refl}
use ai_go.Common.Result.{ok}
use ai_go.Common.Clock.{Time, is_zero}
use ai_go.Mongo.{Collection, Responds, Upsert, Reply, reply}
use ai_go.Ledger.Documents.{AccountDocument}
use ai_go.Payments.Model.{PaymentOrder, pending, Receipt, ApplyResult, VerifiedOrderSettlement}
use ai_go.Payments.Rules.{is_pending, invalid_pending, invalid_settlement_order}
use ai_go.Payments.Service.{
  invalid_settlement, receipt_of, credit_of, found_order, associated, settle_new, settle_found,
  settle_order, settle_within_tx, record_receipt_within_tx,
}
use ai_go.Payments.Contract.{ReceiptKey, key_of, View}
use ai_go.Payments.Documents.{
  PaymentOrderDocument, to_order, to_receipt, mark_paid, receipt_document, credit_document,
  credit_account, to_entry, payment_receipt_id, payment_credit_ledger_entry_id,
}
use ai_go.Payments.Effects.{Matches, normalize_receipt-receipt_of, record_receipt-Recorded}
use ai_go.Payments.Replay.{Answers, mismatched-eq-false}
use ai_go.Payments.Storage.{
  Database, Tables, payment_repository, read_as, read_balance, find_order, find_receipt,
  find_diamond_balance, mark_order_paid, create_receipt, credit_diamonds, append_payment_credit,
}
use ai_go.Payments.Storage.Effects.{view}
use ai_go.Payments.Storage.Refinement.{payment_repository-Laws}

-- A database that answers.
pub record Answering (db : Database) : Type 0 where
  pub accounts : Responds db.accounts
  pub orders : Responds db.orders
  pub receipts : Responds db.receipts
  pub ledger_entries : Responds db.ledger_entries
  pub upserts :
      (k : Text) (u : Option AccountDocument → AccountDocument) (s : Collection.Store db.accounts)
      → (d : AccountDocument) × ((Upsert.find_one_and_upsert db.upserts k u s).0 ≡ reply d)

read_as-reply :
    {A B : Type 0} (f : A → B) (r : Reply (Option A)) (o : Option A)
    → r ≡ reply o
    → read_as f r ≡ ok (Option.map f o)
read_as-reply f r none e = rw e refl
read_as-reply f r (some a) e = rw e refl

map-eq-some :
    {A B : Type 0} (f : A → B) (o : Option A) (b : B)
    → Option.map f o ≡ some b
    → (a : A) × (o ≡ some a) × (f a ≡ b)
map-eq-some f none b h = absurd (cc)
map-eq-some f (some a) b h = (a, refl, cc)

map-eq-none : {A B : Type 0} (f : A → B) (o : Option A) → Option.map f o ≡ none → o ≡ none
map-eq-none f none h = refl
map-eq-none f (some a) h = absurd (cc)

positive_of :
    (o : PaymentOrder) → invalid_settlement_order o ≡ false → leb_ℤ o.diamond_amount (pos 0) ≡ false
unfolding invalid_settlement_order invalid_pending
positive_of o h = ground arith

timed_of :
    (w : VerifiedOrderSettlement) → invalid_settlement w ≡ false → is_zero w.business_at ≡ false
unfolding invalid_settlement
timed_of w h = ground arith

module _ (digest : Text → Text) (db : Database) (up : Answering db) where
  pub Answering-Answers : Answers (view digest db) (payment_repository digest true db)
  unfolding find_order find_receipt find_diamond_balance
  Answering-Answers = record {
    orders = λ id s i. (
      read_as-reply (to_order id) (Collection.find_one db.orders id s.orders)
          (Collection.get db.orders s.orders id) (up.orders.finds id s.orders) i,
      s,
    );
    receipts = λ p x s i.
        let k : ReceiptKey = record { provider = p; external_transaction_id = x } in
        (
          read_as-reply (to_receipt k) (Collection.find_one db.receipts k s.receipts)
              (Collection.get db.receipts s.receipts k) (up.receipts.finds k s.receipts) i,
          s,
        );
    balances = λ u s i. (read_balance (up.accounts.finds u s.accounts i), s);
  }

  create_receipt-ok :
      (n : Receipt) (s : Tables db)
      → Collection.get db.receipts s.receipts (key_of n) ≡ none
      → (receipts : Collection.Store db.receipts) × (create_receipt digest true db n s
          ≡ (ok tt, record s { receipts = receipts }))
        × (Collection.get db.receipts receipts (key_of n) ≡ some (receipt_document digest n))
  unfolding create_receipt
  create_receipt-ok n s fresh =
      let d = receipt_document digest n in
      let x = Collection.insert_one db.receipts (key_of n) d s.receipts in
      let e = up.receipts.inserts (key_of n) d s.receipts fresh in
      let (absent, new, others) =
        Collection.insert_one_law db.receipts (key_of n) d s.receipts x.1 (λ i. (e i, x.1)) in
      (x.1, rw e refl, new)

  credit_diamonds-ok :
      (user : Text) (d : ℤ) (at : Time) (s : Tables db)
      → leb_ℤ d (pos 0) ≡ false
      → is_zero at ≡ false
      → (b : ℤ) × (accounts : Collection.Store db.accounts) × (credit_diamonds digest true db user d
            at s
          ≡ (ok b, record s { accounts = accounts }))
  unfolding credit_diamonds
  credit_diamonds-ok user d at s positive timed =
      let (a, e) = up.upserts user (credit_account d at) s.accounts in
      (
        a.diamond_balance,
        (Upsert.find_one_and_upsert db.upserts user (credit_account d at) s.accounts).1,
        rw (positive, timed, e) refl,
      )

  append_payment_credit-ok :
      (n : Receipt) (s : Tables db)
      → is_zero n.business_at ≡ false
      → Collection.get db.ledger_entries s.ledger_entries
          (payment_credit_ledger_entry_id digest (key_of n))
        ≡ none
      → Collection.get db.receipts s.receipts (key_of n) ≡ some (receipt_document digest n)
      → (append_payment_credit digest true db (credit_of n) s).0 ≡ ok tt
  unfolding append_payment_credit
  append_payment_credit-ok n s timed unlogged stored =
      let k = key_of n in
      let logged =
        up.ledger_entries.inserts (payment_credit_ledger_entry_id digest k)
          (credit_document digest (credit_of n)) s.ledger_entries unlogged in
      let linked =
        up.receipts.updates k (λ d. eq_text d.id (payment_receipt_id digest k))
          (λ d. record d { ledger_entry_id = payment_credit_ledger_entry_id digest k }) s.receipts
          (receipt_document digest n) stored
        ∙ ap (λ b. reply b) (eq_text_refl (payment_receipt_id digest k)) in
      rw (timed, logged, linked) refl

  record_receipt-ok :
      (now : Time) (n : Receipt) (s : Tables db)
      → leb_ℤ n.diamond_amount (pos 0) ≡ false
      → is_zero n.business_at ≡ false
      → Collection.get db.receipts s.receipts (key_of n) ≡ none
      → Collection.get db.ledger_entries s.ledger_entries
          (payment_credit_ledger_entry_id digest (key_of n))
        ≡ none
      → (res : ApplyResult) × ((record_receipt_within_tx
            (payment_repository digest true db)
            now
            n
            s).0
          ≡ ok res)
  unfolding record_receipt_within_tx
  record_receipt-ok now n s positive timed fresh unlogged =
      let (receipts, created, stored) = create_receipt-ok n s fresh in
      let s1 : Tables db = record s { receipts = receipts } in
      let (b, accounts, credited) =
        credit_diamonds-ok n.user_id n.diamond_amount n.business_at s1 positive timed in
      let appended =
        append_payment_credit-ok n (record s1 { accounts = accounts }) timed unlogged stored in
      (record { applied = true; diamond_balance = b }, rw (created, credited, appended) refl)

  mark_order_paid-ok :
      (id : Text) (at : Time) (s : Tables db) (d : PaymentOrderDocument)
      → Collection.get db.orders s.orders id ≡ some d
      → is_pending d.status ≡ true
      → (orders : Collection.Store db.orders) × (mark_order_paid digest true db id at s
          ≡ (ok true, record s { orders = orders }))
  unfolding mark_order_paid
  mark_order_paid-ok id at s d stored is =
      let p = λ (x : PaymentOrderDocument). is_pending x.status in
      (
        (Collection.update_one db.orders id p (mark_paid at) s.orders).1,
        rw (up.orders.updates id p (mark_paid at) s.orders d stored ∙ ap (λ b. reply b) is) refl,
      )

  -- Over a MongoDB that answers, a valid settlement that names a pending order truly, whose channel
  -- transaction has neither receipt nor ledger entry yet, succeeds in its transaction: it is applied,
  -- and the balance returned is the old one and the order's diamonds.
  pub settle_within_tx-pays :
      (now : Time) (o : PaymentOrder) (w : VerifiedOrderSettlement) (s : Tables db)
      → invalid_settlement w ≡ false
      → Matches o w
      → View.order (view digest db) s w.payment_order_id ≡ some o
      → o.status ≡ pending
      → View.receipt (view digest db) s (key_of (receipt_of o w)) ≡ none
      → View.entry
          (view digest db)
          s
          (payment_credit_ledger_entry_id digest (key_of (receipt_of o w)))
        ≡ none
      → (settle_within_tx (payment_repository digest true db) now w s).0
        ≡ ok (record {
          applied = true;
          diamond_balance = View.balance (view digest db) s o.user_id +ℤ o.diamond_amount;
        })
  unfolding settle_within_tx associated found_order settle_order settle_found settle_new
  settle_within_tx-pays now o w s valid m stored is fresh unlogged =
      let r = payment_repository digest true db in
      let answers = Answering-Answers in
      let laws = payment_repository-Laws digest db in
      let named : o.id ≡ w.payment_order_id = laws.order_id s w.payment_order_id o stored in
      let (d, there, same) =
        map-eq-some (to_order o.id) (Collection.get db.orders s.orders o.id) o
          (ap (View.order (view digest db) s) named ∙ stored) in
      let (orders, marked) =
        mark_order_paid-ok o.id w.business_at s d there
          (ap (λ x. is_pending (PaymentOrder.status x)) same ∙ ap is_pending is) in
      let s1 : Tables db = record s { orders = orders } in
      let (res, recorded) =
        record_receipt-ok now (receipt_of o w) s1 (positive_of o m.valid) (timed_of w valid)
          (map-eq-none (to_receipt (key_of (receipt_of o w)))
            (Collection.get db.receipts s.receipts (key_of (receipt_of o w))) fresh)
          (map-eq-none to_entry
            (Collection.get db.ledger_entries s.ledger_entries
              (payment_credit_ledger_entry_id digest (key_of (receipt_of o w))))
            unlogged) in
      let t = (record_receipt_within_tx r now (receipt_of o w) s1).1 in
      let (effect, value) =
        record_receipt-Recorded (view digest db) r laws now (receipt_of o w) s1 t res
          (λ i. (recorded i, t)) in
      rw
        (
          answers.orders w.payment_order_id s,
          stored,
          m.valid,
          mismatched-eq-false o w m,
          normalize_receipt-receipt_of o w now m.valid valid,
          answers.receipts o.provider w.external_transaction_id s,
          fresh,
          is,
          marked,
          recorded,
          value,
        )
        refl
