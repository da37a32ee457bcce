-- ===== src/Approvals/Tables.antt =====
-- apps/api/app/approvals/repository.py over the tables that approvals are kept in.
pub mod Store
pub mod Reads
pub mod Writes
unfoldable pub use Store.*
unfoldable pub use Reads.*
unfoldable pub use Writes.*
