-- ===== src/Tests.antt =====
-- Runs of the models on concrete inputs.
mod Memory
mod Slot
mod Cell
mod Outbox
mod Ledger
mod Payments
mod Checkout
mod Rules
mod Creations
mod Generation
mod Canonical
