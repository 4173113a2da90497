-- ===== src/Requests/Types.antt =====
-- LearnerCreditRequest of subsidy_request/models.py, its reviews, and the actions on it.
use enterprise_access.Prelude.{
  Bool, List, Option, Result, any, false, if◌then◌else◌, is_some, map, not, ok, raise_if, some,
  true, ℕ, ◌&&◌, ◌==◌, ◌>>◌,
}
use enterprise_access.Assignments.Types.{Error, validation_error}
use enterprise_access.Policy.Allocation.{CreditRequest}

-- SubsidyRequestStates
pub data RequestState : Type 0 where
  requested pending approved declined error : RequestState
  was_accepted was_cancelled was_expired was_reversed : RequestState

abbrev pub is_requested : RequestState → Bool
is_requested requested = true
is_requested _ = false

-- `state in [REQUESTED, ERROR]`
abbrev pub is_approvable : RequestState → Bool
is_approvable requested = true
is_approvable error = true
is_approvable _ = false

-- The states in the condition of `unique_learner_course_request`.
abbrev pub is_exclusive : RequestState → Bool
is_exclusive requested = true
is_exclusive approved = true
is_exclusive error = true
is_exclusive was_accepted = true
is_exclusive _ = false

-- A row of learner credit requests; `credit` has its key, its user, its course and its price.
pub record Request : Type 0 where
  pub credit : CreditRequest
  pub user_id : ℕ
  pub customer_uuid : ℕ
  pub request_state : RequestState
  pub reviewed_at : Option ℕ
  pub reviewer : Option ℕ
  pub decline_reason : Option ℕ
  pub assigned_uuid : Option ℕ
  pub request_modified : ℕ

abbrev pub RequestTable : Type 0
RequestTable = List Request

abbrev pub same_request : Request → Request → Bool
same_request a b = b.credit.request_uuid == a.credit.request_uuid

-- `clean`
unfoldable pub request_clean : Request → Result Error (Unit {0})
request_clean r =
    raise_if
      (not (is_requested r.request_state) && not (is_some r.reviewed_at && is_some r.reviewer))
      validation_error

-- Two rows that `unique_learner_course_request` forbids.
abbrev pub rivals : Request → Request → Bool
rivals a b =
    is_exclusive a.request_state
    && is_exclusive b.request_state
    && (a.user_id == b.user_id)
    && (a.customer_uuid == b.customer_uuid)
    && (a.credit.course_id == b.credit.course_id)

-- `save`: `full_clean`, with the constraint among the other rows, and the update of the row.
unfoldable pub save_request : ℕ → Request → RequestTable → Result Error RequestTable
save_request now r t =
    request_clean r
    >> raise_if (any (λ b. not (same_request r b) && rivals r b) t) validation_error
    >> ok (map (λ b. if same_request r b then (record r { request_modified = now }) else b) t)

-- `approve`, `decline` and `cancel`: the row in memory.
unfoldable pub approve : ℕ → ℕ → Request → Request
approve now by r = record r { reviewer = some by; request_state = approved; reviewed_at = some now }

unfoldable pub decline : ℕ → ℕ → Option ℕ → Request → Request
decline now by reason r = record r {
  reviewer = some by;
  request_state = declined;
  decline_reason = reason;
  reviewed_at = some now;
}

unfoldable pub cancel : ℕ → ℕ → Request → Request
cancel now by r = record r {
  request_state = was_cancelled;
  reviewer = some by;
  reviewed_at = some now;
}
