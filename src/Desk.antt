-- ===== src/Desk.antt =====
-- The ticket tables that the workflow and routing services share, and their transactions.
mod Store
mod Steps
mod Tickets
pub mod Once
pub mod Replay
pub mod Rows
pub mod Versions
pub mod Called
unfoldable pub use Store.*
unfoldable pub use Steps.*
unfoldable pub use Tickets.*
