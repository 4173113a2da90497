-- ===== src/Workflow.antt =====
-- workflow: units of work, and workflows out of steps.
pub mod Types
pub mod Run
pub mod Rows
pub mod Found
pub mod Executed
pub mod Loop
pub mod World
pub mod Last
pub mod Resume
pub mod Outcome
pub mod Examples
