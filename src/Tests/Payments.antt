-- ===== src/Tests/Payments.antt =====
-- The payments over collections in memory: runs, and the theorems at concrete stores.
use ai_go.Common.{Bool, true, false, ◌≡◌, refl, ◌&&◌, none, some, [], arith, ◌⊎◌}
use ai_go.Common.Int.{pos, eqb_ℤ, eqb_ℤ_sound, ◌+ℤ◌}
use ai_go.Common.Text.{Text, codes, eq_text, eq_text_sound, eq_text_refl, is_blank}
use ai_go.Common.Result.{ok}
use ai_go.Ledger.Documents.{AccountDocument}
use ai_go.Payments.Model.{
  repository_error, Repository, PaymentOrder, pay_cores, pending, VerifiedOrderSettlement,
  ApplyResult, Error,
}
use ai_go.Payments.Rules.{
  is_valid_provider, invalid_pending, invalid_settlement_order, normalize_receipt,
}
use ai_go.Payments.Service.{
  invalid_settlement, mismatched, found_order, record_receipt_within_tx, associated, settle_new,
  settle_found, settle_order, settle_within_tx, settle_verified_order,
}
use ai_go.Payments.Contract.{ReceiptKey, View, Laws}
use ai_go.Payments.Effects.{Settles}
use ai_go.Payments.Settle.{settle_verified_order-Settles}
use ai_go.Payments.Books.{IsKept, start, settled, Reaches-IsKept}
use ai_go.Payments.Replay.{Commits, settle_verified_order_again}
use ai_go.Payments.Documents.{
  ProductKey, PaymentOrderDocument, payment_transaction_digest, payment_receipt_id,
  payment_credit_ledger_entry_id,
}
use ai_go.Payments.Storage.{
  Database, Tables, payment_repository, find_order, find_receipt, mark_order_paid, create_receipt,
  credit_diamonds, append_payment_credit,
}
use ai_go.Payments.Storage.Effects.{view}
use ai_go.Payments.Storage.Refinement.{payment_repository-Laws}
use ai_go.Payments.Storage.Progress.{Answering, Answering-Answers, settle_within_tx-pays}
use ai_go.Tests.Memory.{memory, memory-Responds, memory_upsert, memory_index, transaction}

abbrev pub same_receipt : ReceiptKey → ReceiptKey → Bool
same_receipt a b =
    eq_text a.provider b.provider && eq_text a.external_transaction_id b.external_transaction_id

pub same_receipt_sound : (a b : ReceiptKey) → same_receipt a b ≡ true → a ≡ b
same_receipt_sound a b h =
    let provider : a.provider ≡ b.provider = eq_text_sound a.provider b.provider (ground arith) in
    let id : a.external_transaction_id ≡ b.external_transaction_id =
      eq_text_sound a.external_transaction_id b.external_transaction_id (ground arith) in
    λ i. record { provider = provider i; external_transaction_id = id i }

pub same_receipt_refl : (a : ReceiptKey) → same_receipt a a ≡ true
same_receipt_refl a = rw (eq_text_refl a.provider, eq_text_refl a.external_transaction_id) refl

abbrev pub same_product : ProductKey → ProductKey → Bool
same_product a b = eq_text a.product_id b.product_id && eqb_ℤ a.version b.version

pub same_product_sound : (a b : ProductKey) → same_product a b ≡ true → a ≡ b
same_product_sound a b h =
    let id : a.product_id ≡ b.product_id = eq_text_sound a.product_id b.product_id (ground arith) in
    let version : a.version ≡ b.version = eqb_ℤ_sound a.version b.version (ground arith) in
    λ i. record { product_id = id i; version = version i }

pub same_product_refl : (a : ProductKey) → same_product a a ≡ true
same_product_refl a = rw (eq_text_refl a.product_id) (ground arith)

abbrev in_memory : Database
in_memory = record {
  accounts = memory eq_text eq_text_sound eq_text_refl;
  products = memory same_product same_product_sound same_product_refl;
  orders = memory eq_text eq_text_sound eq_text_refl;
  receipts = memory same_receipt same_receipt_sound same_receipt_refl;
  ledger_entries = memory eq_text eq_text_sound eq_text_refl;
  upserts = memory_upsert eq_text eq_text_sound eq_text_refl;
  product_index = memory_index same_product same_product_sound same_product_refl;
  order_index = memory_index eq_text eq_text_sound eq_text_refl;
}

-- A digest that can be read.
abbrev pub plain : Text → Text
plain t = t

abbrev repository : Repository (Tables in_memory)
repository = payment_repository plain true in_memory

abbrev laws : Laws (view plain in_memory) repository
laws = payment_repository-Laws plain in_memory

answering : Answering in_memory
answering = record {
  accounts = memory-Responds eq_text eq_text_sound eq_text_refl;
  orders = memory-Responds eq_text eq_text_sound eq_text_refl;
  receipts = memory-Responds same_receipt same_receipt_sound same_receipt_refl;
  ledger_entries = memory-Responds eq_text eq_text_sound eq_text_refl;
  upserts = λ k u s. (u (s k), refl);
}

commits :
    Commits {lost = repository_error}
      (transaction {S = Tables in_memory} {E = Error} {A = ApplyResult})
commits = record { kept = λ op s t a h. rw h refl }

-- Ann has 30 diamonds and a pending order of 50.
abbrev order : PaymentOrder
order = record {
  id = codes "o1";
  user_id = codes "ann";
  provider = pay_cores;
  provider_order_id = codes "po1";
  channel_provider = [];
  channel_account = [];
  channel_device_platform = codes "web";
  product_id = codes "p";
  product_version = pos 1;
  diamond_amount = pos 50;
  amount_cents = pos 499;
  currency = codes "USD";
  status = pending;
  created_at = 1;
  updated_at = 1;
}

abbrev pub order_row : PaymentOrderDocument
order_row = record {
  user_id = order.user_id;
  provider = order.provider;
  product_id = order.product_id;
  product_version = order.product_version;
  diamond_amount = order.diamond_amount;
  amount_cents = order.amount_cents;
  currency = order.currency;
  status = order.status;
  provider_order_id = order.provider_order_id;
  channel_provider = order.channel_provider;
  channel_account = order.channel_account;
  channel_device_platform = order.channel_device_platform;
  created_at = order.created_at;
  updated_at = order.updated_at;
}

abbrev pub account : AccountDocument
account = record { diamond_balance = pos 30; created_at = 1; updated_at = 1 }

abbrev first : Tables in_memory
first = record {
  accounts = λ k. elim (eq_text k (codes "ann")) [ true ↦ some account | _ ↦ none ];
  products = λ k. none;
  orders = λ k. elim (eq_text k (codes "o1")) [ true ↦ some order_row | _ ↦ none ];
  receipts = λ k. none;
  ledger_entries = λ k. none;
}

abbrev settlement : VerifiedOrderSettlement
settlement = record {
  payment_order_id = codes "o1";
  user_id = codes "ann";
  provider = pay_cores;
  provider_order_id = codes "po1";
  external_transaction_id = codes "t1";
  business_at = 7;
}

abbrev paid_result : ApplyResult
paid_result = record { applied = true; diamond_balance = pos 80 }

abbrev second : Tables in_memory
second = (settle_verified_order repository 9 transaction (λ s. s) settlement first).1

settles :
    (settle_verified_order repository 9 transaction (λ s. s) settlement first).0 ≡ ok paid_result
unfolding settle_verified_order settle_within_tx associated found_order settle_order settle_found
    settle_new record_receipt_within_tx invalid_settlement mismatched invalid_settlement_order
    invalid_pending is_valid_provider normalize_receipt find_order find_receipt mark_order_paid
    create_receipt credit_diamonds append_payment_credit payment_receipt_id
    payment_credit_ledger_entry_id payment_transaction_digest eq_text is_blank ◌+ℤ◌
settles = refl

payment_repository-Laws_example :
    Laws (view plain in_memory) (payment_repository plain true in_memory)
payment_repository-Laws_example = payment_repository-Laws plain in_memory

settle_verified_order_again_example :
    settle_verified_order repository 11 transaction
      (λ s. s)
      (record settlement { business_at = 8 })
      second
    ≡ (ok (record { applied = false; diamond_balance = pos 80 }), second)
settle_verified_order_again_example =
    settle_verified_order_again (view plain in_memory) repository
      (payment_repository-Laws plain in_memory) (Answering-Answers plain in_memory answering)
      transaction commits 9 (λ s. s) settlement first second paid_result (λ i. (settles i, second))
      11 (λ s. s) 8 (omega arith)

settle_verified_order-Settles_example :
    (invalid_settlement settlement ≡ false)
    × (Settles (view plain in_memory) settlement first second paid_result
        ⊎ (Settles (view plain in_memory) settlement first second paid_result
            × (true ≡ false)
            × (second ≡ first)))
settle_verified_order-Settles_example =
    settle_verified_order-Settles (view plain in_memory) repository
      (payment_repository-Laws plain in_memory) 9 transaction (λ s. s) settlement first second
      paid_result (λ i. (settles i, second))

-- The store that another settlement leaves, which overtakes the one below.
abbrev overtaken : Tables in_memory
overtaken = (settle_verified_order repository 9 transaction (λ _. first) settlement first).1

Reaches-IsKept_example :
    IsKept
      (view plain in_memory)
      first
      (settle_verified_order repository 9 transaction (λ _. overtaken) settlement first).1
Reaches-IsKept_example =
    Reaches-IsKept (view plain in_memory) repository (payment_repository-Laws plain in_memory)
      transaction
      (settled first first overtaken 9 settlement (start first)
        (settled first first first 9 settlement (start first) (start first)))

valid_settlement : invalid_settlement settlement ≡ false
unfolding invalid_settlement is_valid_provider eq_text is_blank
valid_settlement = refl

valid_order : invalid_settlement_order order ≡ false
unfolding invalid_settlement_order invalid_pending is_valid_provider eq_text is_blank
valid_order = refl

order_stored : View.order (view plain in_memory) first (codes "o1") ≡ some order
unfolding eq_text
order_stored = refl

settle_within_tx-pays_example :
    (settle_within_tx repository 9 settlement first).0
    ≡ ok (record {
      applied = true;
      diamond_balance = View.balance (view plain in_memory) first (codes "ann") +ℤ pos 50;
    })
settle_within_tx-pays_example =
    settle_within_tx-pays plain in_memory answering 9 order settlement first valid_settlement
      (record {
        valid = valid_order;
        same_user = refl;
        same_provider = refl;
        same_provider_order = refl;
      })
      order_stored refl refl refl
