-- ===== src/Forms.antt =====
-- Request forms: apps/api/app/tickets/validation.py.
pub mod Conditions
pub mod Fields
pub mod Validate
pub mod Supplied
pub mod Firsts
pub mod Typed
pub mod Normal
pub mod Within
pub mod Settled
mod Tests
