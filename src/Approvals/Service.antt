-- ===== src/Approvals/Service.antt =====
-- apps/api/app/approvals/service.py.
pub mod Resolve
pub mod Verdict
pub mod Calls
unfoldable pub use Resolve.*
unfoldable pub use Verdict.*
unfoldable pub use Calls.*
