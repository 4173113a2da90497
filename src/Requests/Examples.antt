-- ===== src/Requests/Examples.antt =====
-- Requests for the courses of a budget, and their approval.
use enterprise_access.Prelude.{
  All, List, [], arith, false, if◌then◌else◌, map, neg, negsuc, none, ok, pos, refl, some, times,
  true, ◌*ℤ◌, ◌+ℤ◌, ◌==◌, ◌||◌, ◌∷◌, ◌≡◌,
}
use enterprise_access.Assignments.Types.{Assignment, accepted}
use enterprise_access.Assignments.Lookup.{get_allocated_quantity_for_configuration}
use enterprise_access.Assignments.Prepare.{clean, full_clean, reallocate_assignment}
use enterprise_access.Assignments.Allocate.{bulk_update_reallocation, clean_all, is_consistent}
use enterprise_access.Assignments.AllocationExamples.{course, rows, second, world}
use enterprise_access.Policy.Types.{Policy, per_learner_spend}
use enterprise_access.Policy.Limits.{
  allocated_quantity, bnr_enabled, content_would_exceed_limit, is_redemption_enabled,
  is_subsidy_active, subsidy_balance, total_redeemed,
}
use enterprise_access.Policy.Redeem.{acquire_lock, release_lock, with_lock}
use enterprise_access.Policy.Allocation.{
  can_allocate_all, can_approve, check_batch, check_budget, in_price_interval, validate_prices,
}
use enterprise_access.Policy.Examples.{answers, budget}
use enterprise_access.Requests.Types.{
  Request, approved, declined, request_clean, requested, save_request, was_accepted, was_reversed,
}
use enterprise_access.Requests.Allocation.{
  allocate_assignment_for_requests, create_new_assignments_for_requests, find_last,
  get_existing_assignments_for_requests, sort_requests, write_for_requests,
}
use enterprise_access.Requests.Approval.{
  Answer, Setting, approve_learner_credit_requests, approve_row, approve_status, approve_under,
  approve_valid, approved_action, failed_action, has_shared_assignment, nothing_to_process,
  policy_approve, process_requests,
}
use enterprise_access.Requests.Partition.{holds}
use enterprise_access.Requests.Following.{AllFollow, listed, with_key}
use enterprise_access.Requests.Outcomes.{
  approve_learner_credit_requests-Accounted, approve_learner_credit_requests-AllFollow,
  approve_learner_credit_requests-none_ready,
}
use enterprise_access.Requests.Reviews.{IsReviewed, approve_learner_credit_requests-IsReviewed}
use enterprise_access.Assignments.Actions.{add_successful}
use enterprise_access.Requests.Reversal.{
  reversal_recorded, reverse_found, reversed_row, update_assignment_status_for_reversed_transaction,
}
use enterprise_access.Requests.Reversed.{
  row_after, update_assignment_status_for_reversed_transaction-reverses,
  update_assignment_status_for_reversed_transaction-twice,
}

abbrev spending : Policy
spending = record budget {
  policy_type = per_learner_spend;
  learner_credit_request_config = some true;
}

abbrev setting : Setting
setting = record {
  environment = world;
  services = answers;
  policy = some spending;
  prices = ok (λ key. if key == 3 then some (pos 10000) else none);
  catalog = ok (λ key. if key == 3 then some course else none);
}

abbrev asking : Request
asking = record {
  credit = record {
    request_uuid = 61;
    user_email = 12;
    user_lms_user_id = some 13;
    course_id = 3;
    course_price = pos 10000;
  };
  user_id = 71;
  customer_uuid = 1;
  request_state = requested;
  reviewed_at = none;
  reviewer = none;
  decline_reason = none;
  assigned_uuid = none;
  request_modified = 10;
}

-- A request for a course that the catalog does not have.
abbrev astray : Request
astray = record asking { credit = record asking.credit { request_uuid = 62; course_id = 4 } }

abbrev turned_down : Request
turned_down = record asking {
  credit = record asking.credit { request_uuid = 63 };
  request_state = declined;
  reviewed_at = some 900;
  reviewer = some 6;
}

abbrev given : List Request
given = asking ∷ astray ∷ turned_down ∷ []

abbrev granted : Request
granted = record asking {
  request_state = approved;
  reviewer = some 5;
  reviewed_at = some 1000;
  assigned_uuid = some 20;
  request_modified = 1000;
}

abbrev outcome : Answer
outcome = record {
  approved_requests = granted ∷ [];
  failed_all = none;
  failed_approval = some (astray.credit ∷ []);
  has_error_message = false;
}

approval_run :
    (approve_learner_credit_requests setting [] 5 given [] given).0
    ≡ ok (
      outcome,
      granted ∷ astray ∷ turned_down ∷ [],
      failed_action astray.credit ∷ approved_action granted ∷ [],
    )
unfolding approve_learner_credit_requests process_requests approve_under with_lock acquire_lock
    release_lock can_approve can_allocate_all validate_prices check_batch approve_valid
    policy_approve allocate_assignment_for_requests get_existing_assignments_for_requests find_last
    sort_requests write_for_requests create_new_assignments_for_requests approve_row
    has_shared_assignment bulk_update_reallocation clean_all clean full_clean reallocate_assignment
    is_consistent in_price_interval bnr_enabled is_redemption_enabled is_subsidy_active
    total_redeemed check_budget content_would_exceed_limit allocated_quantity
    get_allocated_quantity_for_configuration subsidy_balance ◌+ℤ◌ ◌*ℤ◌ neg times
approval_run = refl

approve_learner_credit_requests-AllFollow_example :
    AllFollow 5 1000 given given (granted ∷ astray ∷ turned_down ∷ [])
approve_learner_credit_requests-AllFollow_example =
    approve_learner_credit_requests-AllFollow setting [] 5 given [] given
      (granted ∷ astray ∷ turned_down ∷ []) outcome
      (failed_action astray.credit ∷ approved_action granted ∷ []) approval_run

approve_learner_credit_requests-Accounted_example :
    (with_key 62 outcome.approved_requests || holds 62 (listed outcome.failed_approval)) ≡ true
approve_learner_credit_requests-Accounted_example =
    approve_learner_credit_requests-Accounted setting [] 5 given [] given
      (granted ∷ astray ∷ turned_down ∷ []) outcome
      (failed_action astray.credit ∷ approved_action granted ∷ []) approval_run 62 refl refl

approve_learner_credit_requests-none_ready_example :
    (approve_learner_credit_requests setting [] 5 (turned_down ∷ []) [] given
      ≡ (ok (nothing_to_process (turned_down ∷ []), given, []), [], []))
    × (approve_status (nothing_to_process (turned_down ∷ [])) ≡ 200)
    × ((nothing_to_process (turned_down ∷ [])).failed_all ≡ some (turned_down.credit ∷ []))
approve_learner_credit_requests-none_ready_example =
    approve_learner_credit_requests-none_ready setting [] 5 (turned_down ∷ []) [] given refl

-- The learner of an assignment that was cancelled before the learner's id was known.
abbrev again : Request
again = record asking {
  credit = record {
    request_uuid = 64;
    user_email = 8;
    user_lms_user_id = some 7;
    course_id = 3;
    course_price = pos 10000;
  };
}

-- The assignment is allocated again, but not found for the request: the approval fails, and the
-- allocation stays.
lost_run :
    ((approve_learner_credit_requests setting [] 5 (again ∷ []) rows (again ∷ [])).0
      ≡ ok (
        record {
          approved_requests = [];
          failed_all = none;
          failed_approval = some (again.credit ∷ []);
          has_error_message = true;
        },
        again ∷ [],
        failed_action again.credit ∷ [],
      ))
    × (get_allocated_quantity_for_configuration
          (some 4)
          (approve_learner_credit_requests setting [] 5 (again ∷ []) rows (again ∷ [])).2
        ≡ negsuc 9999)
unfolding approve_learner_credit_requests process_requests approve_under with_lock acquire_lock
    release_lock can_approve can_allocate_all validate_prices check_batch approve_valid
    policy_approve allocate_assignment_for_requests get_existing_assignments_for_requests find_last
    sort_requests write_for_requests create_new_assignments_for_requests approve_row
    has_shared_assignment bulk_update_reallocation clean_all clean full_clean reallocate_assignment
    is_consistent in_price_interval bnr_enabled is_redemption_enabled is_subsidy_active
    total_redeemed check_budget content_would_exceed_limit allocated_quantity
    get_allocated_quantity_for_configuration subsidy_balance ◌+ℤ◌ ◌*ℤ◌ neg times
lost_run = (refl, refl)

before_review : All IsReviewed given
before_review = ((λ e. ground arith), ((λ e. ground arith), ((λ e. (refl, refl)), tt)))

approve_learner_credit_requests-IsReviewed_example :
    All IsReviewed (granted ∷ astray ∷ turned_down ∷ [])
approve_learner_credit_requests-IsReviewed_example =
    approve_learner_credit_requests-IsReviewed setting [] 5 given [] given
      (granted ∷ astray ∷ turned_down ∷ []) outcome
      (failed_action astray.credit ∷ approved_action granted ∷ []) before_review approval_run

-- An accepted assignment with its transaction, and the request that it answers.
abbrev redeemed_row : Assignment
redeemed_row = record second { state = accepted; transaction_uuid = some 77 }

abbrev answered : Request
answered = record granted { request_state = was_accepted }

abbrev refunded : Request
refunded = record answered { request_state = was_reversed; request_modified = 2000 }

reversal_run :
    update_assignment_status_for_reversed_transaction 2000 77 (redeemed_row ∷ []) (answered ∷ [])
    ≡ ok (reversed_row 2000 redeemed_row ∷ [], refunded ∷ [], some (reversal_recorded 61))
unfolding reverse_found save_request request_clean reversed_row add_successful
reversal_run = refl

update_assignment_status_for_reversed_transaction-twice_example :
    update_assignment_status_for_reversed_transaction 3000 77
      (reversed_row 2000 redeemed_row ∷ [])
      (refunded ∷ [])
    ≡ ok (reversed_row 2000 redeemed_row ∷ [], refunded ∷ [], none)
update_assignment_status_for_reversed_transaction-twice_example =
    update_assignment_status_for_reversed_transaction-twice 2000 3000 77 (redeemed_row ∷ [])
      (reversed_row 2000 redeemed_row ∷ []) (answered ∷ []) (refunded ∷ [])
      (some (reversal_recorded 61)) (tt, tt) reversal_run

update_assignment_status_for_reversed_transaction-reverses_example :
    (reversed_row 2000 redeemed_row ∷ []) ≡ map (row_after 2000 77) (redeemed_row ∷ [])
update_assignment_status_for_reversed_transaction-reverses_example =
    update_assignment_status_for_reversed_transaction-reverses 2000 77 (redeemed_row ∷ [])
      (reversed_row 2000 redeemed_row ∷ []) (answered ∷ []) (refunded ∷ [])
      (some (reversal_recorded 61)) (tt, tt) reversal_run
