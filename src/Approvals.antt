-- ===== src/Approvals.antt =====
-- Approvals of tickets: apps/api/app/approvals.
mod Tests
pub mod Models
pub mod Tables
pub mod Service
pub mod Votes
pub mod Invariant
pub mod Keeps
pub mod Panel
pub mod Request
pub mod Decide
pub mod Settle
pub mod Lifecycle
pub mod Recorded
pub mod Keys
pub mod Replay
pub mod View
pub mod Commits
pub mod Atomic
pub mod Requested
