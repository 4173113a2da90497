-- ===== src/Assignments.antt =====
-- content_assignments: the assignments of content to learners.
pub mod Types
pub mod Lookup
pub mod Actions
pub mod Cancellation
pub mod Users
pub mod Refund
pub mod Answer
pub mod Emails
pub mod Chunking
pub mod Prepare
pub mod Allocate
pub mod PreparedFacts
pub mod PreparedRows
pub mod Served
pub mod Coverage
pub mod RowEffects
pub mod Conservation
pub mod Examples
pub mod AllocationExamples
