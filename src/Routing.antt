-- ===== src/Routing.antt =====
-- Routing of tickets to groups: apps/api/app/routing.
pub mod Models
pub mod Select
pub mod Order
pub mod Choice
pub mod Total
pub mod Assign
pub mod Calls
pub mod Turns
pub mod Assigned
pub mod Routed
pub mod Replayed
pub mod Manual
mod Tests
pub mod AssignTests
