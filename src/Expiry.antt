-- ===== src/Expiry.antt =====
-- The automatic expiry of assignments.
pub mod Dates
pub mod Expire
pub mod Nudge
pub mod Passed
pub mod Pages
pub mod Skips
pub mod Examples
