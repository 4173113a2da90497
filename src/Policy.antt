-- ===== src/Policy.antt =====
-- subsidy_access_policy: who may redeem what with which subsidy.
pub mod Types
pub mod Limits
pub mod CanRedeem
pub mod Redeemability
pub mod Credit
pub mod Redeem
pub mod Allocation
pub mod Lifecycle
pub mod Budget
pub mod Batches
pub mod Redemption
pub mod Answered
pub mod Idempotency
pub mod Locking
pub mod Once
pub mod Allocated
pub mod Examples
pub mod AllocatedExamples
pub mod Available
pub mod Saving
pub mod Classes
pub mod Completeness
pub mod Remaining
