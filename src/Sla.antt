-- ===== src/Sla.antt =====
-- Service-level agreements: apps/api/app/sla.
pub mod Models
pub mod Calendar
pub mod Goals
pub mod Store
pub mod Engine
pub mod Process
