-- ===== src/Provisioning.antt =====
-- provisioning: the steps of the workflow that provisions a new customer.
pub mod Types
pub mod Services
pub mod Steps
pub mod Tracking
pub mod Customer
pub mod Plans
pub mod NewCustomer
pub mod Safe
pub mod Paid
pub mod Payments
pub mod Fulfilled
pub mod Examples
