-- ===== src/Payments.antt =====
-- internal/biz/payments and internal/data/payment_repository.go: frozen orders, their settlement and
-- the callback that asks for it.
pub mod Model
pub mod Rules
pub mod Service
pub mod Contract
pub mod Documents
pub mod Storage
pub mod Effects
pub mod Settle
pub mod Failures
pub mod Books
pub mod Replay
pub mod Callback
pub mod Checkout
pub mod Freeze
pub mod StorePurchase
