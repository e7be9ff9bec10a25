-- ===== src/Payments/Model.antt =====
-- internal/biz/payments: the facts of products, orders, receipts and credits (order.go, receipt.go,
-- service.go) and the storage operations that the services are written against.
use ai_go.Common.{Bool, Option}
use ai_go.Common.Int.{ℤ}
use ai_go.Common.Text.{Text, codes}
use ai_go.Common.Action.{Action}
use ai_go.Common.Clock.{Time}

-- `Provider`, a string.
abbrev pub Provider : Type 0
Provider = Text

abbrev pub pay_cores : Provider
pay_cores = codes "paycores"

abbrev pub app_store : Provider
app_store = codes "app_store"

abbrev pub apple : Provider
apple = codes "apple"

abbrev pub google : Provider
google = codes "google"

-- Every other string is `other_publish_status`, and `other_order_status` below.
pub data ProductPublishStatus : Type 0 where
  draft published : ProductPublishStatus
  other_publish_status : Text → ProductPublishStatus

pub data PaymentOrderStatus : Type 0 where
  pending paid : PaymentOrderStatus
  other_order_status : Text → PaymentOrderStatus

pub record PaymentProduct : Type 0 where
  pub id : Text
  pub version : ℤ
  pub diamond_amount : ℤ
  pub amount_cents : ℤ
  pub currency : Text
  pub label : Text
  pub publish_status : ProductPublishStatus

pub record CreateOrderInput : Type 0 where
  pub order_id : Text
  pub user_id : Text
  pub provider : Provider
  pub provider_order_id : Text
  pub channel_provider : Text
  pub channel_account : Text
  pub channel_device_platform : Text

pub record PaymentOrder : Type 0 where
  pub id : Text
  pub user_id : Text
  pub provider : Provider
  pub provider_order_id : Text
  pub channel_provider : Text
  pub channel_account : Text
  pub channel_device_platform : Text
  pub product_id : Text
  pub product_version : ℤ
  pub diamond_amount : ℤ
  pub amount_cents : ℤ
  pub currency : Text
  pub status : PaymentOrderStatus
  pub created_at : Time
  pub updated_at : Time

pub record Receipt : Type 0 where
  pub provider : Provider
  pub external_transaction_id : Text
  pub payment_order_id : Text
  pub user_id : Text
  pub diamond_amount : ℤ
  pub business_at : Time

pub record PaymentCredit : Type 0 where
  pub receipt : Receipt
  pub reason : Text
  pub created_at : Time

pub record ApplyResult : Type 0 where
  pub applied : Bool
  pub diamond_balance : ℤ

pub record VerifiedOrderSettlement : Type 0 where
  pub payment_order_id : Text
  pub user_id : Text
  pub provider : Provider
  pub provider_order_id : Text
  pub external_transaction_id : Text
  pub business_at : Time

-- The errors of the package, and all other errors of a repository or of another dependency.
pub data Error : Type 0 where
  invalid_payment_product invalid_payment_order product_not_published : Error
  payment_product_already_exists payment_order_already_exists : Error
  invalid_receipt receipt_conflict receipt_already_exists : Error
  dependencies_unavailable : Error
  payment_order_not_found payment_order_mismatch payment_settlement_inconsistent : Error
  invalid_store_purchase : Error
  invalid_verified_payment_confirmation confirmed_callback_dependencies_unavailable : Error
  payment_callback_replayed invalid_payment_callback_nonce : Error
  repository_error : Error

-- `PaymentRepository` and `CheckoutRepository` over a store `S`; `WithinTx` is a transaction of
-- Mongo.
pub record Repository (S : Type 0) : Type 0 where
  pub find_receipt : Provider → Text → Action S Error (Option Receipt)
  pub find_diamond_balance : Text → Action S Error ℤ
  pub create_receipt : Receipt → Action S Error (Unit {0})
  pub credit_diamonds : Text → ℤ → Time → Action S Error ℤ
  pub append_payment_credit : PaymentCredit → Action S Error (Unit {0})
  pub find_order_by_provider_order : Provider → Text → Action S Error (Option PaymentOrder)
  pub create_product : PaymentProduct → Action S Error (Unit {0})
  pub find_product : Text → ℤ → Action S Error (Option PaymentProduct)
  pub create_order : PaymentOrder → Action S Error (Unit {0})
  pub find_order : Text → Action S Error (Option PaymentOrder)
  pub mark_order_paid : Text → Time → Action S Error Bool
  pub find_latest_published_product : Text → Action S Error (Option PaymentProduct)
  pub bind_pay_cores_provider_order : Text → Text → Text → Time → Action S Error Bool
