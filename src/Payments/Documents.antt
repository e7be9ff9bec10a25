-- ===== src/Payments/Documents.antt =====
-- internal/data/model/payments.go and the ids of internal/data/payment_repository.go. A document
-- here leaves out the fields that are its key; an unset `omitempty` field is the empty string.
use ai_go.Common.{[], ◌∷◌, ◌++◌, Option, none, some}
use ai_go.Common.Int.{ℤ, ◌+ℤ◌}
use ai_go.Common.Text.{Text, codes}
use ai_go.Common.Clock.{Time}
use ai_go.Ledger.Documents.{AccountDocument, LedgerEntryDocument}
use ai_go.Payments.Model.{
  Provider, ProductPublishStatus, PaymentOrderStatus, paid, PaymentProduct, PaymentOrder, Receipt,
  PaymentCredit,
}
use ai_go.Payments.Contract.{ReceiptKey, key_of, Entry}

pub record ProductKey : Type 0 where
  pub product_id : Text
  pub version : ℤ

pub record PaymentProductDocument : Type 0 where
  pub diamond_amount : ℤ
  pub amount_cents : ℤ
  pub currency : Text
  pub label : Text
  pub publish_status : ProductPublishStatus

pub record PaymentOrderDocument : Type 0 where
  pub user_id : Text
  pub provider : Provider
  pub product_id : Text
  pub product_version : ℤ
  pub diamond_amount : ℤ
  pub amount_cents : ℤ
  pub currency : Text
  pub status : PaymentOrderStatus
  pub provider_order_id : Text
  pub channel_provider : Text
  pub channel_account : Text
  pub channel_device_platform : Text
  pub created_at : Time
  pub updated_at : Time

pub record PaymentReceiptDocument : Type 0 where
  pub id : Text
  pub payment_order_id : Text
  pub user_id : Text
  pub diamond_amount : ℤ
  pub ledger_entry_id : Text
  pub received_at : Time

abbrev pub product_key : PaymentProduct → ProductKey
product_key p = record { product_id = p.id; version = p.version }

abbrev pub product_document : PaymentProduct → PaymentProductDocument
product_document p = record {
  diamond_amount = p.diamond_amount;
  amount_cents = p.amount_cents;
  currency = p.currency;
  label = p.label;
  publish_status = p.publish_status;
}

abbrev pub to_product : ProductKey → PaymentProductDocument → PaymentProduct
to_product k d = record {
  id = k.product_id;
  version = k.version;
  diamond_amount = d.diamond_amount;
  amount_cents = d.amount_cents;
  currency = d.currency;
  label = d.label;
  publish_status = d.publish_status;
}

abbrev pub order_document : PaymentOrder → PaymentOrderDocument
order_document o = record {
  user_id = o.user_id;
  provider = o.provider;
  product_id = o.product_id;
  product_version = o.product_version;
  diamond_amount = o.diamond_amount;
  amount_cents = o.amount_cents;
  currency = o.currency;
  status = o.status;
  provider_order_id = o.provider_order_id;
  channel_provider = o.channel_provider;
  channel_account = o.channel_account;
  channel_device_platform = o.channel_device_platform;
  created_at = o.created_at;
  updated_at = o.updated_at;
}

abbrev pub to_order : Text → PaymentOrderDocument → PaymentOrder
to_order id d = record {
  id = id;
  user_id = d.user_id;
  provider = d.provider;
  provider_order_id = d.provider_order_id;
  channel_provider = d.channel_provider;
  channel_account = d.channel_account;
  channel_device_platform = d.channel_device_platform;
  product_id = d.product_id;
  product_version = d.product_version;
  diamond_amount = d.diamond_amount;
  amount_cents = d.amount_cents;
  currency = d.currency;
  status = d.status;
  created_at = d.created_at;
  updated_at = d.updated_at;
}

abbrev pub to_receipt : ReceiptKey → PaymentReceiptDocument → Receipt
to_receipt k d = record {
  provider = k.provider;
  external_transaction_id = k.external_transaction_id;
  payment_order_id = d.payment_order_id;
  user_id = d.user_id;
  diamond_amount = d.diamond_amount;
  business_at = d.received_at;
}

abbrev pub to_entry : LedgerEntryDocument → Entry
to_entry d = record {
  account_id = d.account_id;
  delta_diamonds = d.delta_diamonds;
  reason = d.reason;
  created_at = d.created_at;
}

-- The update of `MarkOrderPaid`, and that of `BindPayCoresProviderOrder`.
abbrev pub mark_paid : Time → PaymentOrderDocument → PaymentOrderDocument
mark_paid at d = record d { status = paid; updated_at = at }

abbrev pub bind_order : Text → Time → PaymentOrderDocument → PaymentOrderDocument
bind_order provider_order_id at d = record d {
  provider_order_id = provider_order_id;
  updated_at = at;
}

-- The upsert of `CreditDiamonds`.
abbrev pub credit_account : ℤ → Time → Option AccountDocument → AccountDocument
credit_account diamonds at none = record {
  diamond_balance = diamonds;
  created_at = at;
  updated_at = at;
}
credit_account diamonds at (some d) = record d {
  diamond_balance = d.diamond_balance +ℤ diamonds;
  updated_at = at;
}

-- `digest` is the hexadecimal SHA-256 of a text.
module _ (digest : Text → Text) where
  unfoldable pub payment_transaction_digest : ReceiptKey → Text
  payment_transaction_digest k = digest (k.provider ++ (0 ∷ k.external_transaction_id))

  unfoldable pub payment_receipt_id : ReceiptKey → Text
  payment_receipt_id k = codes "payment-receipt:" ++ payment_transaction_digest k

  unfoldable pub payment_credit_ledger_entry_id : ReceiptKey → Text
  payment_credit_ledger_entry_id k = codes "payment-credit:" ++ payment_transaction_digest k

  abbrev pub receipt_document : Receipt → PaymentReceiptDocument
  receipt_document r = record {
    id = payment_receipt_id (key_of r);
    payment_order_id = r.payment_order_id;
    user_id = r.user_id;
    diamond_amount = r.diamond_amount;
    ledger_entry_id = [];
    received_at = r.business_at;
  }

  abbrev pub credit_document : PaymentCredit → LedgerEntryDocument
  credit_document c = record {
    idempotency_key = payment_credit_ledger_entry_id (key_of c.receipt);
    account_id = c.receipt.user_id;
    creation_id = [];
    delta_diamonds = c.receipt.diamond_amount;
    reason = c.reason;
    reservation_id = [];
    created_at = c.created_at;
  }
