-- ===== src/Policy/Types.antt =====
-- The records of subsidy_access_policy/models.py and constants.py, and the services that a policy
-- calls.
use enterprise_access.Prelude.{Bool, List, Option, Result, false, none, ok, some, true, ℕ, ℤ}
use enterprise_access.Assignments.Types.{Error, Summary}

-- The concrete subclasses of SubsidyAccessPolicy.
pub data PolicyType : Type 0 where
  per_learner_enrollment per_learner_spend assigned_learner : PolicyType

-- AccessMethods
pub data AccessMethod : Type 0 where
  direct request assigned : AccessMethod

-- The `REASON_*` constants.
pub data Reason : Type 0 where
  bnr_not_enabled policy_expired subsidy_expired content_not_in_catalog : Reason
  beyond_enrollment_deadline learner_not_in_enterprise learner_not_in_enterprise_group : Reason
  not_enough_value_in_subsidy learner_max_spend_reached policy_spend_limit_reached : Reason
  learner_max_enrollments_reached learner_not_assigned_content : Reason
  learner_assignment_cancelled learner_assignment_failed learner_assignment_expired : Reason
  learner_assignment_reversed : Reason

-- SubsidyAccessPolicy. Limits are nullable, in signed cents or counts; the request configuration
-- is represented by its `active` flag.
pub record Policy : Type 0 where
  pub uuid : ℕ
  pub policy_type : PolicyType
  pub enterprise_customer_uuid : ℕ
  pub catalog_uuid : ℕ
  pub subsidy_uuid : ℕ
  pub active : Bool
  pub retired : Bool
  pub original_retired : Bool
  pub retired_at : Option ℕ
  pub learner_credit_request_config : Option Bool
  pub access_method : AccessMethod
  pub spend_limit : Option ℤ
  pub assignment_configuration : Option ℕ
  pub late_redemption_allowed_until : Option ℕ
  pub per_learner_enrollment_limit : Option ℤ
  pub per_learner_spend_limit : Option ℤ

-- TransactionStateChoices
pub data TransactionState : Type 0 where
  created pending committed failed : TransactionState

-- A transaction of the subsidy service; `reversal` is the state of its reversal, if it has one.
pub record Transaction : Type 0 where
  pub transaction_uuid : ℕ
  pub transaction_policy : ℕ
  pub quantity : ℤ
  pub transaction_state : TransactionState
  pub reversal : Option TransactionState

-- The reply of the subsidy service's can_redeem.
pub record SubsidyReply : Type 0 where
  pub reply_active : Bool
  pub reply_can_redeem : Bool
  pub all_transactions : List Transaction

-- The record of the subsidy, with its nullable fields.
pub record SubsidyRecord : Type 0 where
  pub is_active : Bool
  pub current_balance : Option ℤ
  pub total_deposits : Option ℤ
  pub expiration_datetime : Option ℕ

-- What the services outside the repository answer during one request, and its clock. Each read is
-- cached for the request, so an answer does not change within it. `none` for a metadata summary is
-- the empty dictionary.
pub record Services : Type 0 where
  pub now : ℕ
  -- the groups of the learner's record at the customer, if there is a record
  pub learner_record : ℕ → ℕ → Result Error (Option (List ℕ))
  -- the groups of the policy (PolicyGroupAssociation)
  pub policy_groups : ℕ → List ℕ
  pub catalog_contains : ℕ → ℕ → Result Error Bool
  pub content_metadata : ℕ → ℕ → Result Error (Option Summary)
  pub subsidy_can_redeem : ℕ → ℕ → ℕ → Result Error SubsidyReply
  -- `aggregates['total_quantity']` of a subsidy's transactions under a policy
  pub aggregates : ℕ → ℕ → Result Error (Option ℤ)
  -- a learner's transactions in a subsidy
  pub learner_transactions : ℕ → ℕ → Result Error (List Transaction)
  -- `none` when the client raises HTTPError
  pub retrieve_subsidy : ℕ → Option SubsidyRecord

-- The 3-tuple that `can_redeem` returns.
pub record Verdict : Type 0 where
  pub can_redeem : Bool
  pub reason : Option Reason
  pub existing_transactions : List Transaction

abbrev pub refuse : Reason → List Transaction → Result Error Verdict
refuse r ts = ok (record { can_redeem = false; reason = some r; existing_transactions = ts })

abbrev pub accept : List Transaction → Result Error Verdict
accept ts = ok (record { can_redeem = true; reason = none; existing_transactions = ts })
