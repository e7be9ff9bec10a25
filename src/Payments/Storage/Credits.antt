-- ===== src/Payments/Storage/Credits.antt =====
-- `AppendPaymentCredit` of internal/data/payment_repository.go: the entry, and its link in the
-- receipt.
use mathlib.Core.Option
use ai_go.Common.{true, ◌≡◌, sym, ap, ◌∙◌, inl, inr, arith}
use ai_go.Common.Text.{Text, eq_text}
use ai_go.Common.Result.{Result-cases, ok}
use ai_go.Mongo.{Collection, reply}
use ai_go.Payments.Model.{PaymentCredit}
use ai_go.Payments.Contract.{ReceiptKey, key-cases, key_of, Entry, entry_of, View, Entries}
use ai_go.Payments.Documents.{
  PaymentReceiptDocument, to_receipt, payment_credit_ledger_entry_id, payment_receipt_id,
}
use ai_go.Payments.Storage.{Database, Tables, append_payment_credit, insert_credit, link_receipt}
use ai_go.Payments.Storage.Effects.{view, inserted_entry}

module _ (digest : Text → Text) (db : Database) where
  -- The link is no part of what a receipt shows.
  linked :
      (c : PaymentCredit) (s t : Tables db)
      → link_receipt digest true db c s ≡ (ok tt, t)
      → (receipts : Collection.Store db.receipts) × (t ≡ record s { receipts = receipts })
        × (View.receipt (view digest db) t ≡ View.receipt (view digest db) s)
  linked c s t h =
      let k = key_of c.receipt in
      let p = λ (d : PaymentReceiptDocument). eq_text d.id (payment_receipt_id digest k) in
      let u = λ (d : PaymentReceiptDocument). record d {
        ledger_entry_id = payment_credit_ledger_entry_id digest k;
      } in
      let x = Collection.update_one db.receipts k p u s.receipts in
      let facts : (x.0 ≡ reply true) × (t ≡ record s { receipts = x.1 }) = ground arith in
      let (d, old, matched, new, others) =
        Collection.update_one_matched db.receipts k p u s.receipts x.1 (λ i. (facts.0 i, x.1)) in
      let same : (j : ReceiptKey)
          → Option.map (to_receipt j) (Collection.get db.receipts x.1 j)
            ≡ Option.map (to_receipt j) (Collection.get db.receipts s.receipts j) =
        λ j. elim (key-cases j k) [
          | inr ne ↦ ap (Option.map (to_receipt j)) (others j ne)
          | inl e ↦
              ap (λ a. Option.map (to_receipt j) (Collection.get db.receipts x.1 a)) e
              ∙ ap (Option.map (to_receipt j)) new
              ∙ sym (ap (Option.map (to_receipt j)) old)
              ∙ sym
                  (ap (λ a. Option.map (to_receipt j) (Collection.get db.receipts s.receipts a)) e)
        ] in
      (x.1, facts.1, ap (View.receipt (view digest db)) facts.1 ∙ (λ i j. same j i))

  -- What the entry's effect was stays so across the link.
  Entries-linked :
      (id : Text) (e : Entry) (s u t : Tables db) (receipts : Collection.Store db.receipts)
      → Entries (view digest db) s u id e
      → t ≡ record u { receipts = receipts }
      → View.receipt (view digest db) t ≡ View.receipt (view digest db) u
      → Entries (view digest db) s t id e
  Entries-linked id e s u t receipts made moved same = record {
    no_entry = made.no_entry;
    new_entry = (λ i. View.entry (view digest db) (moved i) id) ∙ made.new_entry;
    other_entries =
        λ j ne. (λ i. View.entry (view digest db) (moved i) j) ∙ made.other_entries j ne;
    same_orders = ap (View.order (view digest db)) moved ∙ made.same_orders;
    same_products = ap (View.product (view digest db)) moved ∙ made.same_products;
    same_receipts = same ∙ made.same_receipts;
    same_balances = ap (View.balance (view digest db)) moved ∙ made.same_balances;
  }

  pub append_law :
      (c : PaymentCredit) (s t : Tables db)
      → append_payment_credit digest true db c s ≡ (ok tt, t)
      → Entries
          (view digest db)
          s
          t
          (payment_credit_ledger_entry_id digest (key_of c.receipt))
          (entry_of c)
  unfolding append_payment_credit
  append_law c s t h =
      let x = insert_credit digest true db c s in
      elim (Result-cases x.0) [
        | inr (e, failed) ↦ absurd (ground arith)
        | inl (tt, inserted) ↦
            let k : link_receipt digest true db c x.1 ≡ (ok tt, t) = ground arith in
            let e = inserted_entry digest db c s x.1 (λ i. (inserted i, x.1)) in
            let (receipts, moved, same) = linked c x.1 t k in
            Entries-linked _ (entry_of c) s x.1 t receipts e moved same
      ]
