-- ===== src/Generation.antt =====
-- internal/biz/generation, as far as it decides what a provider's answer makes of a creation step,
-- and the part of internal/data/generation_callback_repository.go that stores it.
pub mod Identity
pub mod ResultRef
pub mod Terminal
pub mod Payloads
pub mod Steps
pub mod Storage
pub mod Apply
pub mod Writes
pub mod Schedules
pub mod EventIds
pub mod Commit
pub mod Conclusion
pub mod Outcome
pub mod Ends
pub mod OneEnd
pub mod Canonical
