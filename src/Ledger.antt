-- ===== src/Ledger.antt =====
-- internal/biz/ledger and internal/data/ledger_repository.go: reservations of diamonds and daily
-- quota, their reversal and their confiscation.
pub mod Model
pub mod Usecase
pub mod Contract
pub mod Documents
pub mod Storage
pub mod SameCommand
pub mod Reserve
pub mod Settle
pub mod Reverse
pub mod Confiscate
pub mod RoundTrip
pub mod Transactions
pub mod Invariant
pub mod History
