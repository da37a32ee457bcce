-- ===== src/Ai.antt =====
-- Calls of language-model providers: apps/api/app/ai.
pub mod Circuit
pub mod Executor
pub mod Breaker
pub mod Snapshot
pub mod Attempts
pub mod Endings
mod Tests
