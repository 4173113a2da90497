-- ===== src/Checkout.antt =====
-- customer_billing: the checkout intents of the self-service purchase.
pub mod Types
pub mod Marks
pub mod Table
pub mod Transitions
pub mod Events
pub mod Payments
pub mod Graph
pub mod Refinement
pub mod Rows
pub mod Requests
pub mod Stalls
pub mod Examples
