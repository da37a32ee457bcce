-- ===== src/Sla/Calendar.antt =====
-- apps/api/app/sla/calendar.py: business-time arithmetic.
-- `ZoneInfo` is the parameter `Zone`; the date times that reach the calendar are aware ones, so
-- `_utc` is the identity on instants.
pub mod Zones
pub mod Intervals
pub mod Build
pub mod Arithmetic
pub mod Consume
pub mod Days
pub mod Regular
pub mod Hours
pub mod Midnight
mod Tests
