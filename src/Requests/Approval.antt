-- ===== src/Requests/Approval.antt =====
-- approve_learner_credit_requests_via_policy of subsidy_access_policy/api.py, and
-- approve_learner_credit_requests of subsidy_request/api.py with its answer over HTTP.
use enterprise_access.Prelude.{
  Bool, List, Option, Result, [], any, err, false, filter, find, if◌then◌else◌, is_some, map, none,
  not, ok, opt_eq, raise_if, some, true, ℕ, ◌&&◌, ◌++◌, ◌==◌, ◌>>=◌, ◌>>◌, ◌||◌, ◌∷◌,
}
use enterprise_access.Assignments.Types.{
  Assignment, Error, Table, allocation_exception, attribute_error, content_price_null, http_error,
  integrity_error, lock_attempt_failed, price_validation_error, validation_error,
}
use enterprise_access.Assignments.Allocate.{Environment}
use enterprise_access.Policy.Types.{Policy, Services}
use enterprise_access.Policy.Redeem.{LockKey, lock_resource_key, with_lock}
use enterprise_access.Policy.Allocation.{
  Batch, CreditRequest, FetchedPrices, can_approve, error_reason, split,
}
use enterprise_access.Requests.Types.{
  Request, RequestState, RequestTable, approved, is_approvable, requested,
}
use enterprise_access.Requests.Allocation.{
  MetadataByKey, allocate_assignment_for_requests, assignment_of,
}

-- What an approval reads: the policy of the given key, if there is one, with its services, and the
-- catalog's prices and metadata of the courses. A policy's allocations go to its configuration.
pub record Setting : Type 0 where
  pub environment : Environment
  pub services : Services
  pub policy : Option Policy
  pub prices : FetchedPrices
  pub catalog : Result Error MetadataByKey

-- What the body under the lock answers: the requests that are approved, with the rows that the
-- allocation has affected, and those that are not; or that the batch is refused.
pub data Decision : Type 0 where
  refused : Decision
  decided :
      (valid : List CreditRequest) (affected : List Assignment)
      (failed_requests : List CreditRequest)
      → Decision

-- Every approved request has an assignment.
abbrev pub all_assigned : List Assignment → List CreditRequest → Bool
all_assigned affected rs = not (any (λ r. not (is_some (assignment_of affected r))) rs)

abbrev pub decide : List CreditRequest → List Assignment → List CreditRequest → Decision
decide valid affected failing =
    if all_assigned affected valid then decided valid affected failing else refused

-- `policy.approve(valid_requests)`; a policy without a configuration fails in the API.
unfoldable pub policy_approve :
    Setting → Option ℕ → List CreditRequest → Table → Result Error (List Assignment × Table)
policy_approve s none rs t = err attribute_error
policy_approve s (some config) rs t =
    allocate_assignment_for_requests s.environment config s.catalog rs t

abbrev pub allocated_or_raised :
    List CreditRequest
    → List CreditRequest
    → Table
    → Result Error (List Assignment × Table)
    → Result Error Decision × Table
allocated_or_raised valid failing t (err e) = (err e, t)
allocated_or_raised valid failing t (ok (affected, t₁)) = (ok (decide valid affected failing), t₁)

-- The requests that `can_approve` finds valid are approved, if there are any.
unfoldable pub approve_valid :
    Setting
    → Policy
    → List CreditRequest
    → List CreditRequest
    → Table
    → Result Error Decision × Table
approve_valid s p [] failing t = (ok (decided [] [] failing), t)
approve_valid s p (r ∷ rs) failing t =
    allocated_or_raised (r ∷ rs) failing t (policy_approve s p.assignment_configuration (r ∷ rs) t)

abbrev pub after_checks :
    Setting → Policy → Table → Result Error Batch → Result Error Decision × Table
after_checks s p t (err e) = (err e, t)
after_checks s p t (ok (error_reason why)) = (ok refused, t)
after_checks s p t (ok (split valid missing bad)) = approve_valid s p valid (missing ++ bad) t

-- The exceptions that become a SubisidyAccessPolicyRequestApprovalError.
abbrev pub is_approval_failure : Error → Bool
is_approval_failure allocation_exception = true
is_approval_failure price_validation_error = true
is_approval_failure validation_error = true
is_approval_failure integrity_error = true
is_approval_failure http_error = true
is_approval_failure content_price_null = true
is_approval_failure lock_attempt_failed = true
is_approval_failure _ = false

abbrev pub caught : Result Error Decision → Result Error Decision
caught (ok v) = ok v
caught (err e) = if is_approval_failure e then ok refused else err e

-- With the policy that the key finds.
unfoldable pub approve_under :
    Setting
    → List LockKey
    → List CreditRequest
    → Table
    → Option Policy
    → Result Error Decision × List LockKey × Table
approve_under s held rs t none = (ok refused, held, t)
approve_under s held rs t (some p) =
    let (result, held₁, t₁) =
      with_lock (lock_resource_key p none none) held t
        (λ inner u. after_checks s p u (can_approve s.services s.prices u p rs)) in
    (caught result, held₁, t₁)

-- `approve_learner_credit_requests_via_policy`: `refused` is its
-- SubisidyAccessPolicyRequestApprovalError.
abbrev pub approve_via_policy :
    Setting
    → List LockKey
    → List CreditRequest
    → Table
    → Result Error Decision × List LockKey × Table
approve_via_policy s held rs t = approve_under s held rs t s.policy

-- The state and the error reason of an action on a request.
pub record RequestAction : Type 0 where
  pub action_request : ℕ
  pub recent_action : RequestState
  pub action_status : RequestState
  pub failed_approval_reason : Bool

abbrev pub failed_action : CreditRequest → RequestAction
failed_action r = record {
  action_request = r.request_uuid;
  recent_action = approved;
  action_status = requested;
  failed_approval_reason = true;
}

abbrev pub approved_action : Request → RequestAction
approved_action r = record {
  action_request = r.credit.request_uuid;
  recent_action = approved;
  action_status = approved;
  failed_approval_reason = false;
}

-- The dictionary that is returned: of 'failed' (here failed_all), 'failed_approval' and
-- 'error_message' those keys
-- that it has.
pub record Answer : Type 0 where
  pub approved_requests : List Request
  pub failed_all : Option (List CreditRequest)
  pub failed_approval : Option (List CreditRequest)
  pub has_error_message : Bool

abbrev pub uuid_of : Option Assignment → Option ℕ
uuid_of none = none
uuid_of (some a) = some a.uuid

-- `_prepare_requests_for_update` and the bulk update, on a row and the request that is approved.
abbrev pub approve_with : ℕ → ℕ → List Assignment → Request → Option CreditRequest → Request
approve_with now by affected r none = r
approve_with now by affected r (some v) = record r {
  request_state = approved;
  reviewer = some by;
  reviewed_at = some now;
  assigned_uuid = uuid_of (assignment_of affected v);
  request_modified = now;
}

unfoldable pub approve_row : ℕ → ℕ → List CreditRequest → List Assignment → Request → Request
approve_row now by valid affected r =
    approve_with now by affected r (find (λ v. v.request_uuid == r.credit.request_uuid) valid)

abbrev pub is_one_of : List CreditRequest → Request → Bool
is_one_of rs r = any (λ v. v.request_uuid == r.credit.request_uuid) rs

-- The requests in REQUESTED or ERROR.
abbrev pub requests_to_process : List Request → List CreditRequest
requests_to_process rs = map (λ r. r.credit) (filter (λ r. is_approvable r.request_state) rs)

-- An assignment belongs to one request: the field is unique.
abbrev pub shares_assignment : Request → Request → Bool
shares_assignment a b = is_some a.assigned_uuid && opt_eq a.assigned_uuid b.assigned_uuid

unfoldable pub has_shared_assignment : RequestTable → Bool
has_shared_assignment [] = false
has_shared_assignment (r ∷ q) = any (shares_assignment r) q || has_shared_assignment q

-- The bulk update is made when requests are approved.
abbrev pub update_requests :
    ℕ → ℕ → List CreditRequest → List Assignment → RequestTable → Result Error RequestTable
update_requests now by [] affected q = ok q
update_requests now by (r ∷ rs) affected q =
    let q₁ = map (approve_row now by (r ∷ rs) affected) q in
    raise_if (has_shared_assignment q₁) integrity_error >> ok q₁

-- What is left: the answer, the rows of the requests, and the actions created.
abbrev pub conclude :
    ℕ
    → ℕ
    → List CreditRequest
    → RequestTable
    → Decision
    → Result Error (Answer × RequestTable × List RequestAction)
conclude now by processed q refused = ok (
  record {
    approved_requests = [];
    failed_all = none;
    failed_approval = some processed;
    has_error_message = true;
  },
  q,
  map failed_action processed,
)
conclude now by processed q (decided valid affected failing) =
    update_requests now by valid affected q >>= λ q₁.
    let refreshed = filter (is_one_of valid) q₁ in
    ok (
      record {
        approved_requests = refreshed;
        failed_all = none;
        failed_approval = some failing;
        has_error_message = false;
      },
      q₁,
      map failed_action failing ++ map approved_action refreshed,
    )

abbrev pub nothing_to_process : List Request → Answer
nothing_to_process rs = record {
  approved_requests = [];
  failed_all = some (map (λ r. r.credit) rs);
  failed_approval = none;
  has_error_message = false;
}

-- The rest of the function, with the requests to process.
unfoldable pub process_requests :
    Setting
    → List LockKey
    → ℕ
    → List Request
    → Table
    → RequestTable
    → List CreditRequest
    → Result Error (Answer × RequestTable × List RequestAction) × List LockKey × Table
process_requests s held by rs t q [] = (ok (nothing_to_process rs, q, []), held, t)
process_requests s held by rs t q (r ∷ rest) =
    let (result, held₁, t₁) = approve_via_policy s held (r ∷ rest) t in
    (result >>= λ v. conclude s.environment.now by (r ∷ rest) q v, held₁, t₁)

-- `approve_learner_credit_requests`, on the assignments and the requests. The states of the
-- condition of `unique_learner_course_request` are not left or entered here.
unfoldable pub approve_learner_credit_requests :
    Setting
    → List LockKey
    → ℕ
    → List Request
    → Table
    → RequestTable
    → Result Error (Answer × RequestTable × List RequestAction) × List LockKey × Table
approve_learner_credit_requests s held by rs t q =
    process_requests s held by rs t q (requests_to_process rs)

-- The status of the view `approve`, for the answer of the API.
unfoldable pub approve_status : Answer → ℕ
approve_status a =
    if a.has_error_message
    then 422
    else elim a.failed_approval [ none ↦ 200 | some [] ↦ 200 | some (r ∷ rs) ↦ 422 ]
