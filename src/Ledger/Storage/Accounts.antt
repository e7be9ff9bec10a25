-- ===== src/Ledger/Storage/Accounts.antt =====
-- The effects of the calls of internal/data/ledger_repository.go on accounts.
use mathlib.Core.Option
use mathlib.Core.Path.{subst}
use ai_go.Common.{true, false, ◌≡◌, refl, sym, ap, ◌∙◌, Option, none, some, arith}
use ai_go.Common.Int.{ℤ, pos, ◌+ℤ◌, ◌-ℤ◌, ◌≤ℤ◌, ◌<ℤ◌, leb_ℤ}
use ai_go.Common.Text.{Text}
use ai_go.Common.Result.{ok}
use ai_go.Common.Clock.{Time}
use ai_go.Mongo.{Collection, Reply, reply, no_reply}
use ai_go.Ledger.Contract.{View, Balances, balance_or_zero}
use ai_go.Ledger.Documents.{AccountDocument}
use ai_go.Ledger.Storage.{
  Database, Tables, read_balance, balance_of, find_diamond_balance, try_debit_diamonds,
  credit_diamonds, can_debit, debit, credit,
}
use ai_go.Ledger.Storage.Effects.{view, account_effect}

-- An account that a debit does not match is short of the amount.
short_of :
    (d : ℤ) (o o' : Option AccountDocument) {b : ℤ}
    → o ≡ o'
    → ((a : AccountDocument) → o ≡ some a → can_debit d a ≡ false)
    → Option.map AccountDocument.diamond_balance o' ≡ some b
    → b <ℤ d
short_of d o none same short e = absurd (cc)
short_of d o (some a) {b} same short e =
    let k : can_debit d a ≡ false = short a same in
    let m : a.diamond_balance ≡ b = ground arith in rw (← m) (ground arith)

read_balance-eq-ok :
    (r : Reply (Option AccountDocument)) {b : ℤ}
    → read_balance r ≡ ok b
    → (o : Option AccountDocument) × (r ≡ reply o) × (b ≡ balance_of o)
unfolding read_balance
read_balance-eq-ok (reply o) h = (o, refl, cc)
read_balance-eq-ok no_reply h = absurd (cc)

module _ (db : Database) where
  balance_of-map :
      (o : Option AccountDocument)
      → balance_of o ≡ balance_or_zero (view db) (Option.map AccountDocument.diamond_balance o)
  balance_of-map none = refl
  balance_of-map (some d) = refl

  pub debit_law :
      (u : Text) (d : ℤ) (at : Time) (s t : Tables db)
      → try_debit_diamonds db u d at s ≡ (ok true, t)
      → (b : ℤ) × (pos 0 <ℤ d) × (d ≤ℤ b) × Balances (view db) s t u b (b -ℤ d)
  unfolding try_debit_diamonds
  debit_law u d at s t h =
      let x = Collection.update_one db.accounts u (can_debit d) (debit d at) s.accounts in
      let facts : (leb_ℤ d (pos 0) ≡ false)
          × (x.0 ≡ reply true)
          × (t ≡ record s { accounts = x.1 }) =
        ground arith in
      let (doc, enough, effect) = account_effect db u (can_debit d) (debit d at) s facts.1 in
      (
        doc.diamond_balance,
        ground arith,
        ground arith,
        subst (λ t'. Balances (view db) s t' u doc.diamond_balance (doc.diamond_balance -ℤ d))
            (sym facts.2) effect,
      )

  pub debit_miss :
      (u : Text) (d : ℤ) (at : Time) (s t : Tables db)
      → try_debit_diamonds db u d at s ≡ (ok false, t)
      → (t ≡ s) × ((b : ℤ) → View.balance (view db) s u ≡ some b → b <ℤ d)
  unfolding try_debit_diamonds
  debit_miss u d at s t h =
      let x = Collection.update_one db.accounts u (can_debit d) (debit d at) s.accounts in
      let facts : (x.0 ≡ reply false) × (t ≡ record s { accounts = x.1 }) = ground arith in
      let (same, short) =
        Collection.update_one_unmatched db.accounts u (can_debit d) (debit d at) s.accounts x.1
          (λ i. (facts.0 i, x.1)) in
      (
        facts.1 ∙ ap (λ (a : Collection.Store db.accounts). record s { accounts = a }) same,
        λ b e.
            short_of d (Collection.get db.accounts s.accounts u)
              (Collection.get db.accounts s.accounts u) refl short e,
      )

  pub credit_law :
      (u : Text) (d : ℤ) (at : Time) (s t : Tables db)
      → credit_diamonds db u d at s ≡ (ok tt, t)
      → (b : ℤ) × (pos 0 <ℤ d) × Balances (view db) s t u b (b +ℤ d)
  unfolding credit_diamonds
  credit_law u d at s t h =
      let x = Collection.update_one db.accounts u (λ a. true) (credit d at) s.accounts in
      let facts : (leb_ℤ d (pos 0) ≡ false)
          × (x.0 ≡ reply true)
          × (t ≡ record s { accounts = x.1 }) =
        ground arith in
      let (doc, enough, effect) = account_effect db u (λ a. true) (credit d at) s facts.1 in
      (
        doc.diamond_balance,
        ground arith,
        subst (λ t'. Balances (view db) s t' u doc.diamond_balance (doc.diamond_balance +ℤ d))
            (sym facts.2) effect,
      )

  pub balance_law :
      (u : Text) (s t : Tables db) (b : ℤ)
      → find_diamond_balance db u s ≡ (ok b, t)
      → (t ≡ s) × (b ≡ balance_or_zero (view db) (View.balance (view db) s u))
  unfolding find_diamond_balance read_balance
  balance_law u s t b h =
      let (o, e, k) =
        read_balance-eq-ok (Collection.find_one db.accounts u s.accounts) (ap (λ r. r.0) h) in
      (
        sym (ap (λ r. r.1) h),
        k
            ∙ balance_of-map o
            ∙ ap (λ a. balance_or_zero (view db) (Option.map AccountDocument.diamond_balance a))
                (Collection.find_one_law db.accounts u s.accounts o e),
      )
