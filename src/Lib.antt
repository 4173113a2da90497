-- ===== src/Lib.antt =====
-- enterprise-access: who may redeem which subsidy for which course, the assignments of content to
-- learners, the checkout intents of the self-service purchase, and the workflows of provisioning.
--
-- The parts and how they interact. A subsidy access policy (enterprise_access/apps/
-- subsidy_access_policy) decides whether a learner may redeem a course, asks the subsidy service
-- for a transaction, and, for assigned credit, moves the learner's assignment
-- (enterprise_access/apps/content_assignments) to accepted or errored. Before an allocation it
-- checks the budget that the allocated assignments and the transactions leave. The checkout
-- intents (enterprise_access/apps/customer_billing) are a table of their own: a user reserves a
-- name and a slug, pays, and the purchase is fulfilled or errs. A workflow (enterprise_access/apps/
-- workflow) executes a list of steps, each with a row that says whether it has succeeded. A
-- learner's request for credit (enterprise_access/apps/subsidy_request) is approved in bulk: the
-- policy splits the batch, allocates assignments for the valid requests under its lock, and the rows
-- of the requests follow. An assignment expires with its request. The workflow that provisions a new
-- customer (enterprise_access/apps/provisioning) links the paid checkout intent and fulfils it.
--
-- - Prelude: tests, lists, signed integers, dictionaries and results that raise.
-- - Assignments.Types, .Lookup, .Actions: content_assignments/models.py, constants.py and the reads
--   of api.py. The table is a list of rows; `get_assignment_for_learner` and
--   `get_allocated_quantity_for_configuration` read it, and an action is appended to the row.
--   Assignments.Cancellation: `cancel_assignments` and `remind_assignments` of api.py.
--   Assignments.Users: the handler of a saved user in content_assignments/signals.py.
--   Assignments.Emails, .Prepare, .Allocate: `allocate_assignments` of api.py with its helpers, and
--   `chunks` of enterprise_access/utils.py. An allocation reads the tables, prepares copies of the
--   existing rows, and writes them and the new rows in one transaction.
--   Assignments.Chunking, .PreparedFacts, .PreparedRows, .Served, .Coverage, .RowEffects, .Conservation,
--   .Refund, .Answer: the proofs.
-- - Policy.Types: the model SubsidyAccessPolicy and the answers of the services it calls.
--   Policy.Limits, .CanRedeem, .Credit, .Redeem, .Allocation, .Lifecycle: the methods of
--   subsidy_access_policy/models.py by topic, under their own names; a method that a subclass
--   overrides is a function of the policy's type. Policy.Redeemability,
--   .Completeness, .Classes, .Redemption, .Answered, .Once, .Idempotency, .Locking, .Budget, .Batches,
--   .Available, .Remaining, .Saving, .Allocated: the proofs, and the descriptions they go against.
-- - Checkout.Types, .Marks, .Table: customer_billing/models.py (CheckoutIntent) and constants.py.
--   Checkout.Events: the histories of the table. Checkout.Transitions, .Rows, .Payments, .Requests,
--   .Stalls, .Graph, .Refinement: the proofs.
-- - Requests.Types: LearnerCreditRequest of subsidy_request/models.py. Requests.Allocation:
--   `allocate_assignment_for_requests` of content_assignments/api.py. Requests.Approval:
--   subsidy_request/api.py, subsidy_access_policy/api.py, and the status of the view `approve` of
--   api/v1/views/browse_and_request.py. Requests.Reversal: the handler of a reversed transaction in
--   content_assignments/signals.py. Requests.Redeeming: `assignment_request_redeem`, `redeem` of any
--   class and ForcedPolicyRedemption of subsidy_access_policy/models.py. Requests.Partition,
--   .Following, .Outcomes, .Reviews, .Reversed, .Redeemed: the proofs.
-- - Expiry.Dates, .Expire, .Nudge: the dates of enterprise_access/utils.py with content_metadata_api.py
--   and enrollment_deadline_strategies.py of content_assignments, `expire_assignment` and
--   `nudge_assignments` of api.py, and the command automatically_expire_assignments. Django's
--   Paginator is a parameter, and so is datetime.strptime. Expiry.Passed, .Pages, .Skips: the proofs.
-- - Workflow.Types, .Run: workflow/models.py, with the conversions of serialization.py as a
--   parameter. The step tables are one list, in which a number names the class of a row; a step's
--   own work is a function on the world outside. Workflow.Rows, .Found, .Executed, .Loop, .World, .Last, .Resume, .Outcome:
--   the proofs.
-- - Provisioning.Types, .Services, .Steps, .Tracking, .Customer, .Plans, .NewCustomer: provisioning/
--   models.py and api.py. A step is an action on a world of services, checkout intents, Stripe
--   summaries and renewals; the list of the steps is run by Workflow. The clients of the LMS and
--   of the license manager are parameters with a state of their own. Provisioning.Safe, .Paid,
--   .Payments, .Fulfilled: the proofs.
-- - Assignments.Examples, .AllocationExamples, Policy.Examples, .AllocatedExamples,
--   Checkout.Examples, Requests.Examples, .RedeemingExamples, Expiry.Examples,
--   Provisioning.Examples, Workflow.Examples: concrete runs.
--
-- Texts, emails, content keys and uuids are numbers, and 0 is the empty text. Money is in signed
-- cents (ℤ over the native numbers), so sums have no bound as in Python. Times are seconds. A call
-- that can raise returns Result, whose errors are the exceptions. Every loop is structural
-- recursion on the list it walks; only `chunks` has fuel, the length of its list, and each chunk takes
-- an element or more. The price bounds 0.95 and 1.05 are
-- hundredths of integers, where the code multiplies a float.
--
-- Not under this repository and therefore parameters: the subsidy, catalog and LMS services with
-- their caches (the record Services, whose answers do not change within one request), the creation
-- of a transaction and the hash of the idempotency key (the record Ledger). A table is what the
-- database holds; a primary key is a number and the histories assume that keys are distinct at the
-- start. A Python set is a list of its elements in the order of insertion. Not modelled: the other
-- REST views and serializers, the BFF, the Celery tasks and e-mails, Segment events, history rows, the Stripe event handlers, license
-- and coupon requests, groups and the admin pages.
pub mod Prelude
pub mod Assignments
pub mod Policy
pub mod Checkout
pub mod Workflow
pub mod Requests
pub mod Expiry
pub mod Provisioning
