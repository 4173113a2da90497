-- ===== src/Requests.antt =====
-- subsidy_request: the learners' requests for credit, and their approval.
pub mod Types
pub mod Allocation
pub mod Approval
pub mod Partition
pub mod Following
pub mod Outcomes
pub mod Reviews
pub mod Reversal
pub mod Reversed
pub mod Redeeming
pub mod Redeemed
pub mod Examples
pub mod RedeemingExamples
