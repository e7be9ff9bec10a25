-- ===== src/Outbox.antt =====
-- internal/biz/outbox and internal/data/outbox_repository.go: reliable delivery of events.
pub mod Event
pub mod Transitions
pub mod Identifiers
pub mod Lifecycle
pub mod Redrive
pub mod Documents
pub mod Storage
pub mod Waiting
pub mod Claim
pub mod Lease
pub mod Reopen
pub mod Evolves
pub mod Runs
