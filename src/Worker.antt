-- ===== src/Worker.antt =====
-- The background workers of internal/worker.
pub mod Backoff
