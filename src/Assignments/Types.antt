-- ===== src/Assignments/Types.antt =====
-- The records of content_assignments/models.py and the state sets of
-- content_assignments/constants.py. Texts, emails, keys and uuids are numbers (see Prelude), money
-- is in signed cents, and a time is a number of seconds.
use enterprise_access.Prelude.{Bool, List, Option, Result, false, true, ℕ, ℤ}

-- LearnerContentAssignmentStateChoices
pub data State : Type 0 where
  allocated accepted cancelled errored expired reversed : State

abbrev pub is_allocated : State → Bool
is_allocated allocated = true
is_allocated _ = false

abbrev pub is_accepted : State → Bool
is_accepted accepted = true
is_accepted _ = false

abbrev pub is_cancelled : State → Bool
is_cancelled cancelled = true
is_cancelled _ = false

abbrev pub is_expired : State → Bool
is_expired expired = true
is_expired _ = false

-- `state in REALLOCATE_STATES`
abbrev pub is_reallocatable : State → Bool
is_reallocatable cancelled = true
is_reallocatable errored = true
is_reallocatable expired = true
is_reallocatable reversed = true
is_reallocatable _ = false

-- `state in CANCELABLE_STATES`
abbrev pub is_cancelable : State → Bool
is_cancelable allocated = true
is_cancelable errored = true
is_cancelable _ = false

-- `state in REMINDABLE_STATES`
abbrev pub is_remindable : State → Bool
is_remindable allocated = true
is_remindable _ = false

-- `state in EXPIRABLE_STATES`
abbrev pub is_expirable : State → Bool
is_expirable allocated = true
is_expirable _ = false

-- `state in REVERSIBLE_STATES`
abbrev pub is_reversible : State → Bool
is_reversible accepted = true
is_reversible _ = false

-- AssignmentActions
pub data ActionType : Type 0 where
  learner_linked notified reminded redeemed action_cancelled : ActionType
  cancelled_acknowledged action_expired expired_acknowledged action_reversed : ActionType

-- AssignmentActionErrors
pub data ActionError : Type 0 where
  email_error internal_api_error enrollment_error : ActionError

-- LearnerContentAssignmentAction
pub record Action : Type 0 where
  pub action_type : ActionType
  pub completed_at : Option ℕ
  pub error_reason : Option ActionError

-- LearnerContentAssignment, with the rows of `actions` and the key of `credit_request`.
pub record Assignment : Type 0 where
  pub uuid : ℕ
  pub assignment_configuration : Option ℕ
  pub learner_email : ℕ
  pub lms_user_id : Option ℕ
  pub content_key : ℕ
  pub parent_content_key : Option ℕ
  pub is_assigned_course_run : Bool
  pub content_title : Option ℕ
  pub content_quantity : ℤ
  pub preferred_course_run_key : Option ℕ
  pub state : State
  pub allocated_at : ℕ
  pub accepted_at : Option ℕ
  pub cancelled_at : Option ℕ
  pub expired_at : Option ℕ
  pub errored_at : Option ℕ
  pub reversed_at : Option ℕ
  pub transaction_uuid : Option ℕ
  pub allocation_batch_id : Option ℕ
  pub admin_lms_user_id : Option ℕ
  pub modified : ℕ
  pub actions : List Action
  pub credit_request : Option ℕ

-- The table of assignments.
abbrev pub Table : Type 0
Table = List Assignment

-- What this package's calls raise.
pub data Error : Type 0 where
  -- requests.exceptions.HTTPError out of a service
  http_error : Error
  -- AllocationException
  allocation_exception : Error
  -- django.core.exceptions.ValidationError
  validation_error : Error
  -- django.db.IntegrityError, from a unique_together of the table
  integrity_error : Error
  -- MultipleObjectsReturned
  multiple_objects : Error
  -- subsidy_access_policy.exceptions
  content_price_null missing_assignment price_validation_error lock_attempt_failed : Error
  subsidy_api_http_error : Error
  -- ValueError, and a bare Exception
  value_error bare_exception : Error
  -- IndexError, KeyError, AttributeError on None, UnboundLocalError, and TypeError of a comparison with None
  index_error key_error attribute_error unbound_local_error type_error : Error

-- The keys of the metadata summary that the enterprise-subsidy service returns.
pub record Summary : Type 0 where
  pub summary_content_key : Option ℕ
  pub summary_course_run_key : Option ℕ
  pub summary_title : Option ℕ
  pub content_price : Option ℤ
  -- what parse_datetime makes of the entry: a date, None, or its ValueError
  pub enroll_by_date : Result Error (Option ℕ)
