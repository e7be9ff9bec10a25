-- ===== src/Payments/Storage/Effects.antt =====
-- What the tables of internal/data/payment_repository.go show, and the effects of its reads and
-- single writes on that.
use mathlib.Core.Option
use mathlib.Core.Path.{subst}
use ai_go.Common.{true, false, ◌≡◌, refl, sym, ap, ◌∙◌, Option, none, some, arith}
use ai_go.Common.Int.{ℤ, pos, ◌+ℤ◌, ◌<ℤ◌, leb_ℤ, int_laws}
use ai_go.Common.Text.{Text}
use ai_go.Common.Result.{ok}
use ai_go.Common.Clock.{Time}
use ai_go.Mongo.{Collection, Upsert, Reply, reply, no_reply}
use ai_go.Ledger.Documents.{AccountDocument}
use ai_go.Payments.Model.{PaymentOrder, pending, paid, Receipt, PaymentCredit}
use ai_go.Payments.Rules.{is_pending}
use ai_go.Payments.Effects.{is_pending_sound}
use ai_go.Payments.Contract.{key_of, entry_of, View, Orders, Receipts, Balances, Entries}
use ai_go.Payments.Documents.{
  PaymentOrderDocument, to_product, to_order, to_receipt, to_entry, mark_paid, credit_account,
  payment_credit_ledger_entry_id, credit_document, receipt_document,
}
use ai_go.Payments.Storage.{
  Database, Tables, balance_of, answer_balance, mark_order_paid, create_receipt, credit_diamonds,
  insert_credit,
}

module _ (digest : Text → Text) (db : Database) where
  abbrev pub view : View (Tables db)
  view = record {
    order = λ s id. Option.map (to_order id) (Collection.get db.orders s.orders id);
    product = λ s id version.
        Option.map (to_product (record { product_id = id; version = version }))
          (Collection.get db.products s.products (record { product_id = id; version = version }));
    receipt = λ s k. Option.map (to_receipt k) (Collection.get db.receipts s.receipts k);
    balance = λ s user. balance_of (Collection.get db.accounts s.accounts user);
    entry = λ s id. Option.map to_entry (Collection.get db.ledger_entries s.ledger_entries id);
    entry_id = payment_credit_ledger_entry_id digest;
  }

  -- One order is replaced, or inserted.
  pub Orders-effect :
      (id : Text) (s : Tables db) (orders : Collection.Store db.orders)
      (o : Option PaymentOrderDocument) (d : PaymentOrderDocument)
      → Collection.get db.orders s.orders id ≡ o
      → Collection.get db.orders orders id ≡ some d
      → ((j : Text)
          → ¬ (j ≡ id)
          → Collection.get db.orders orders j ≡ Collection.get db.orders s.orders j)
      → Orders view s (record s { orders = orders }) id (Option.map (to_order id) o) (to_order id d)
  Orders-effect id s orders o d old new others = record {
    old_order = ap (Option.map (to_order id)) old;
    new_order = ap (Option.map (to_order id)) new;
    other_orders = λ j ne. ap (Option.map (to_order j)) (others j ne);
    same_products = refl;
    same_receipts = refl;
    same_balances = refl;
    same_entries = refl;
  }

  pub mark_law :
      (id : Text) (at : Time) (s t : Tables db)
      → mark_order_paid digest true db id at s ≡ (ok true, t)
      → (o : PaymentOrder) × (o.status ≡ pending)
        × Orders view s t id (some o) (record o { status = paid; updated_at = at })
  unfolding mark_order_paid
  mark_law id at s t h =
      let p = λ (d : PaymentOrderDocument). is_pending d.status in
      let x = Collection.update_one db.orders id p (mark_paid at) s.orders in
      let facts : (x.0 ≡ reply true) × (t ≡ record s { orders = x.1 }) = ground arith in
      let (d, old, matched, new, others) =
        Collection.update_one_matched db.orders id p (mark_paid at) s.orders x.1
          (λ i. (facts.0 i, x.1)) in
      (
        to_order id d,
        is_pending_sound d.status matched,
        subst
            (λ t'.
              Orders view s t' id (some (to_order id d))
                (record (to_order id d) { status = paid; updated_at = at }))
            (sym facts.1) (Orders-effect id s x.1 (some d) (mark_paid at d) old new others),
      )

  pub create_receipt_law :
      (n : Receipt) (s t : Tables db)
      → create_receipt digest true db n s ≡ (ok tt, t)
      → Receipts view s t n
  unfolding create_receipt
  create_receipt_law n s t h =
      let d = receipt_document digest n in
      let x = Collection.insert_one db.receipts (key_of n) d s.receipts in
      let facts : (x.0 ≡ reply true) × (t ≡ record s { receipts = x.1 }) = ground arith in
      let (old, new, others) =
        Collection.insert_one_law db.receipts (key_of n) d s.receipts x.1 (λ i. (facts.0 i, x.1)) in
      subst (λ t'. Receipts view s t' n) (sym facts.1)
        (record {
          no_receipt = ap (Option.map (to_receipt (key_of n))) old;
          new_receipt = ap (Option.map (to_receipt (key_of n))) new;
          other_receipts = λ k ne. ap (Option.map (to_receipt k)) (others k ne);
          same_orders = refl;
          same_products = refl;
          same_balances = refl;
          same_entries = refl;
        })

  answer_balance-eq-ok :
      (y : Reply AccountDocument) (b : ℤ)
      → answer_balance y ≡ ok b
      → (a : AccountDocument) × (y ≡ reply a) × (b ≡ a.diamond_balance)
  answer_balance-eq-ok (reply a) b h = (a, refl, cc)
  answer_balance-eq-ok no_reply b h = absurd (cc)

  balance_of-credit_account :
      (o : Option AccountDocument) (d : ℤ) (at : Time)
      → (credit_account d at o).diamond_balance ≡ balance_of o +ℤ d
  balance_of-credit_account none d at = grind int_laws
  balance_of-credit_account (some a) d at = refl

  pub credit_law :
      (user : Text) (d : ℤ) (at : Time) (s t : Tables db) (b : ℤ)
      → credit_diamonds digest true db user d at s ≡ (ok b, t)
      → (pos 0 <ℤ d) × (b ≡ View.balance view s user +ℤ d) × Balances view s t user b
  unfolding credit_diamonds
  credit_law user d at s t b h =
      let x = Upsert.find_one_and_upsert db.upserts user (credit_account d at) s.accounts in
      let facts : (leb_ℤ d (pos 0) ≡ false)
          × (answer_balance x.0 ≡ ok b)
          × (t ≡ record s { accounts = x.1 }) =
        ground arith in
      let (a, answered, amount) = answer_balance-eq-ok x.0 b facts.1 in
      let (made, new, others) =
        Upsert.find_one_and_upsert_law db.upserts user (credit_account d at) s.accounts x.1 a
          (λ i. (answered i, x.1)) in
      let sum : b ≡ View.balance view s user +ℤ d =
        amount
        ∙ ap AccountDocument.diamond_balance made
        ∙ balance_of-credit_account (Collection.get db.accounts s.accounts user) d at in
      (
        ground arith,
        sum,
        subst (λ t'. Balances view s t' user b) (sym facts.2)
            (record {
              new_balance = ap balance_of new ∙ sym amount;
              other_balances = λ w ne. ap balance_of (others w ne);
              same_orders = refl;
              same_products = refl;
              same_receipts = refl;
              same_entries = refl;
            }),
      )

  -- A new ledger entry.
  pub inserted_entry :
      (c : PaymentCredit) (s u : Tables db)
      → insert_credit digest true db c s ≡ (ok tt, u)
      → Entries view s u (payment_credit_ledger_entry_id digest (key_of c.receipt)) (entry_of c)
  inserted_entry c s u h =
      let id = payment_credit_ledger_entry_id digest (key_of c.receipt) in
      let d = credit_document digest c in
      let x = Collection.insert_one db.ledger_entries id d s.ledger_entries in
      let facts : (x.0 ≡ reply true) × (u ≡ record s { ledger_entries = x.1 }) = ground arith in
      let (old, new, others) =
        Collection.insert_one_law db.ledger_entries id d s.ledger_entries x.1
          (λ i. (facts.0 i, x.1)) in
      subst (λ t'. Entries view s t' id (entry_of c)) (sym facts.1)
        (record {
          no_entry = ap (Option.map to_entry) old;
          new_entry = ap (Option.map to_entry) new;
          other_entries = λ j ne. ap (Option.map to_entry) (others j ne);
          same_orders = refl;
          same_products = refl;
          same_receipts = refl;
          same_balances = refl;
        })
