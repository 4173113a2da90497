-- ===== src/Requests/Allocation.antt =====
-- allocate_assignment_for_requests of content_assignments/api.py.
use enterprise_access.Prelude.{
  Bool, List, Option, Result, [], any, false, filter, if◌then◌else◌, is_present, neg, none, not, ok,
  opt_eq, some, ℕ, ◌&&◌, ◌++◌, ◌+◌, ◌==◌, ◌>>=◌, ◌>>◌, ◌||◌, ◌∷◌,
}
use enterprise_access.Assignments.Types.{
  Assignment, Error, Summary, Table, allocated, is_reallocatable,
}
use enterprise_access.Assignments.Lookup.{in_config}
use enterprise_access.Assignments.Cancellation.{among, same_row}
use enterprise_access.Assignments.Prepare.{Offer, reallocate_assignment}
use enterprise_access.Assignments.Allocate.{
  Environment, bulk_update_reallocation, clean_all, commit,
}
use enterprise_access.Policy.Allocation.{CreditRequest}

-- `metadata_by_key`: the summaries of the courses that the catalog has. They have no
-- 'parent_content_key'.
abbrev pub MetadataByKey : Type 0
MetadataByKey = ℕ → Option Summary

abbrev pub run_of : Option Summary → Option ℕ
run_of none = none
run_of (some m) = m.summary_course_run_key

abbrev pub title_of : Option Summary → Option ℕ
title_of none = none
title_of (some m) = m.summary_title

-- The sub-query of a request.
abbrev pub matches_request : (ℕ → ℕ) → Assignment → CreditRequest → Bool
matches_request lower a r =
    (lower a.learner_email == lower r.user_email && a.content_key == r.course_id)
    || (is_present r.user_lms_user_id
        && opt_eq a.lms_user_id r.user_lms_user_id
        && a.content_key == r.course_id)

-- The rows of `_get_existing_assignments_for_requests`.
unfoldable pub get_existing_assignments_for_requests :
    (ℕ → ℕ) → ℕ → List CreditRequest → Table → List Assignment
get_existing_assignments_for_requests lower config [] t = []
get_existing_assignments_for_requests lower config (r ∷ rs) t =
    filter
      (λ a.
        any (matches_request lower a) (r ∷ rs)
        && in_config (some config) a
        && is_reallocatable a.state)
      t

-- A dict comprehension keeps the last row of a key.
unfoldable pub find_last : (Assignment → Bool) → List Assignment → Option Assignment
find_last p [] = none
find_last p (a ∷ rest) = elim (find_last p rest) [
  | some b ↦ some b
  | none ↦ if p a then some a else none
]

-- The row of the key (e-mail, course) of a request.
abbrev pub existing_for : (ℕ → ℕ) → List Assignment → CreditRequest → Option Assignment
existing_for lower existing r =
    find_last (λ a. lower a.learner_email == lower r.user_email && a.content_key == r.course_id)
      existing

abbrev pub offer_for : Environment → MetadataByKey → CreditRequest → Offer
offer_for env metadata r = record {
  quantity = neg r.course_price;
  batch = env.batch_id;
  preferred_run = run_of (metadata r.course_id);
  parent_key = none;
  is_course_run = false;
}

-- The reallocated objects; two requests with one row share its object, which keeps the later values.
abbrev pub put : Assignment → List Assignment → List Assignment
put a records = a ∷ filter (λ b. not (same_row a b)) records

-- The loop over the requests: the rows to update, and the requests for new assignments.
unfoldable pub sort_requests :
    Environment
    → MetadataByKey
    → Table
    → List Assignment
    → List CreditRequest
    → List Assignment
    → Result Error (List Assignment × List CreditRequest)
sort_requests env metadata t existing [] records = ok (records, [])
sort_requests env metadata t existing (r ∷ rs) records = elim (existing_for env.lower existing r) [
  | none ↦ sort_requests env metadata t existing rs records >>= λ x. ok (x.0, r ∷ x.1)
  | some a ↦ reallocate_assignment env.now t (offer_for env metadata r) a >>= λ b.
      sort_requests env metadata t existing rs (put b records)
]

-- A row of `_create_new_assignments_for_requests`.
abbrev pub assignment_for : Environment → ℕ → MetadataByKey → ℕ → CreditRequest → Assignment
assignment_for env config metadata uuid r = record {
  uuid = uuid;
  assignment_configuration = some config;
  learner_email = r.user_email;
  lms_user_id = r.user_lms_user_id;
  content_key = r.course_id;
  parent_content_key = none;
  is_assigned_course_run = false;
  content_title = title_of (metadata r.course_id);
  content_quantity = neg r.course_price;
  preferred_course_run_key = run_of (metadata r.course_id);
  state = allocated;
  allocated_at = env.now;
  accepted_at = none;
  cancelled_at = none;
  expired_at = none;
  errored_at = none;
  reversed_at = none;
  transaction_uuid = none;
  allocation_batch_id = some env.batch_id;
  admin_lms_user_id = none;
  modified = env.now;
  actions = [];
  credit_request = none;
}

unfoldable pub create_new_assignments_for_requests :
    Environment → ℕ → MetadataByKey → ℕ → List CreditRequest → List Assignment
create_new_assignments_for_requests env config metadata n [] = []
create_new_assignments_for_requests env config metadata n (r ∷ rs) =
    assignment_for env config metadata (env.fresh n) r
    ∷ create_new_assignments_for_requests env config metadata (n + 1) rs

-- `assignments_by_learner_and_course.get(...)`
abbrev pub assignment_of : List Assignment → CreditRequest → Option Assignment
assignment_of affected r =
    find_last (λ a. opt_eq a.lms_user_id r.user_lms_user_id && a.content_key == r.course_id)
      affected

-- The writes, in one transaction, and the rows that they affect.
unfoldable pub write_for_requests :
    Environment
    → ℕ
    → MetadataByKey
    → List Assignment
    → List CreditRequest
    → Table
    → Result Error (List Assignment × Table)
write_for_requests env config metadata records new_requests t =
    commit (bulk_update_reallocation env.now records t) >>= λ t₁.
    let new = create_new_assignments_for_requests env config metadata 0 new_requests in
    clean_all new >> (commit (t₁ ++ new) >>= λ t₂. ok (filter (among records) t₁ ++ new, t₂))

-- `allocate_assignment_for_requests`: the rows that it affects, in which each request looks up its
-- assignment by `assignment_of`. An error leaves the table as it was.
unfoldable pub allocate_assignment_for_requests :
    Environment
    → ℕ
    → Result Error MetadataByKey
    → List CreditRequest
    → Table
    → Result Error (List Assignment × Table)
allocate_assignment_for_requests env config catalog rs t = catalog >>= λ metadata.
    let existing = get_existing_assignments_for_requests env.lower config rs t in
    sort_requests env metadata t existing rs [] >>= λ x.
    write_for_requests env config metadata x.0 x.1 t
