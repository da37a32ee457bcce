-- ===== src/Workflows.antt =====
-- Workflow transitions of tickets: apps/api/app/workflows.
pub mod Models
pub mod Guard
pub mod Effects
pub mod Reads
pub mod Execute
pub mod Updates
pub mod Validated
pub mod Performed
pub mod Recorded
pub mod Executed
pub mod Replayed
pub mod Offers
mod Tests
