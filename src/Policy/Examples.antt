-- ===== src/Policy/Examples.antt =====
-- A customer with a budget of assigned credit, and the theorems on it at concrete requests.
use enterprise_access.Prelude.{
  [], any, arith, err, false, find, if◌then◌else◌, inl, length, neg, negsuc, none, ok, pos, refl,
  some, times, true, ℤ, ◌*ℤ◌, ◌+ℤ◌, ◌+◌, ◌==◌, ◌↔◌, ◌∷◌, ◌≡◌, ◌≢◌, ◌≤ℤ◌, ◌⊎◌,
}
use enterprise_access.Assignments.Types.{
  Assignment, Error, Summary, Table, allocated, lock_attempt_failed, missing_assignment,
  validation_error,
}
use enterprise_access.Assignments.Lookup.{
  get_allocated_quantity_for_configuration, get_assignment_for_learner,
}
use enterprise_access.Assignments.Actions.{add_successful}
use enterprise_access.Policy.Types.{
  Policy, Services, Transaction, accept, assigned, assigned_learner, failed, pending,
  per_learner_enrollment,
}
use enterprise_access.Policy.Limits.{
  allocated_quantity, content_would_exceed_limit, get_content_price, is_late_redemption_allowed,
  is_redemption_enabled, is_subsidy_active, spend_available, subsidy_balance,
  total_deposits_for_subsidy, total_redeemed, will_exceed_spend_limit,
}
use enterprise_access.Policy.CanRedeem.{
  base_can_redeem, check_content, check_metadata, check_subsidy, customer_summary, get_assignment,
  includes_learner, transactions_for_learner,
}
use enterprise_access.Policy.Redeem.{
  Ledger, LockKey, assigned_redeem, base_redeem, key_data, lock_resource_key, mark_accepted,
  redeem_found, redemptions_for_idempotency_key, same_lock, save_assignment, settle, with_lock,
}
use enterprise_access.Policy.Allocation.{
  CatalogPrices, CreditRequest, can_allocate, can_allocate_all, check_batch, check_budget,
  in_price_interval, split, validate_prices, validate_requested_allocation_price,
}
use enterprise_access.Policy.Redeemability.{IsRedeemable, base_can_redeem_sound}
use enterprise_access.Policy.Completeness.{base_can_redeem_complete}
use enterprise_access.Policy.Answered.{Answered, assigned_redeem-Answered}
use enterprise_access.Policy.Idempotency.{HasBroken, key_after, key_after-changes}
use enterprise_access.Policy.Locking.{with_lock_lem}
use enterprise_access.Policy.Once.{redeem_once}
use enterprise_access.Policy.Budget.{IsAllocatable, can_allocate_sound}
use enterprise_access.Policy.Batches.{IsSplit, can_allocate_all_sound}
use enterprise_access.Policy.Lifecycle.{
  base_clean, clean, delete, is_row, save, spend_limit_invalid, store,
  total_spend_limits_for_subsidy, track_retired, validate_budget_deactivation_with_spend,
}
use enterprise_access.Policy.Available.{can_allocate-available}
use enterprise_access.Policy.Saving.{IsAllowed, delete-spent, prepared, save-IsAllowed}

abbrev course : Summary
course = record {
  summary_content_key = some 3;
  summary_course_run_key = some 30;
  summary_title = some 9;
  content_price = some (pos 10000);
  enroll_by_date = ok (some 2000);
}

-- Learner 7 belongs to group 1 of customer 1, course 3 costs 100 dollars, and 50 dollars are spent.
abbrev pub answers : Services
answers = record {
  now = 1000;
  learner_record = λ customer u. ok (if u == 7 then some (1 ∷ []) else none);
  policy_groups = λ p. 1 ∷ 2 ∷ [];
  catalog_contains = λ c key. ok (key == 3);
  content_metadata = λ customer key. ok (some course);
  subsidy_can_redeem = λ subsidy u key.
      ok (record { reply_active = true; reply_can_redeem = true; all_transactions = [] });
  aggregates = λ subsidy p. ok (some (negsuc 4999));
  learner_transactions = λ subsidy u. ok [];
  retrieve_subsidy = λ subsidy. some (record {
    is_active = true;
    current_balance = some (pos 95000);
    total_deposits = some (pos 100000);
    expiration_datetime = some 9000;
  });
}

abbrev pub budget : Policy
budget = record {
  uuid = 11;
  policy_type = assigned_learner;
  enterprise_customer_uuid = 1;
  catalog_uuid = 2;
  subsidy_uuid = 5;
  active = true;
  retired = false;
  original_retired = false;
  retired_at = none;
  learner_credit_request_config = none;
  access_method = assigned;
  spend_limit = some (pos 60000);
  assignment_configuration = some 4;
  late_redemption_allowed_until = none;
  per_learner_enrollment_limit = none;
  per_learner_spend_limit = none;
}

abbrev pub ledger : Ledger
ledger = record {
  hash = λ d. d.key_lms_user_id + length d.historical_redemptions;
  create_subsidy_transaction = λ payload. some (some 77);
}

abbrev pub assignment : Assignment
assignment = record {
  uuid = 21;
  assignment_configuration = some 4;
  learner_email = 8;
  lms_user_id = some 7;
  content_key = 3;
  parent_content_key = none;
  is_assigned_course_run = false;
  content_title = some 9;
  content_quantity = negsuc 9999;
  preferred_course_run_key = some 30;
  state = allocated;
  allocated_at = 900;
  accepted_at = none;
  cancelled_at = none;
  expired_at = none;
  errored_at = none;
  reversed_at = none;
  transaction_uuid = none;
  allocation_batch_id = some 1;
  admin_lms_user_id = some 99;
  modified = 900;
  actions = [];
  credit_request = none;
}

abbrev rows : Table
rows = assignment ∷ []

base_can_redeem_run :
    base_can_redeem answers budget 7 3 false false
    ≡ ok (record { can_redeem = true; reason = none; existing_transactions = [] })
unfolding base_can_redeem check_content check_metadata check_subsidy includes_learner
    is_redemption_enabled is_late_redemption_allowed will_exceed_spend_limit
    content_would_exceed_limit total_redeemed ◌+ℤ◌ neg
base_can_redeem_run = refl

base_can_redeem_sound_example : IsRedeemable answers budget 7 3 false false []
base_can_redeem_sound_example =
    base_can_redeem_sound answers budget 7 3 false false
      (record { can_redeem = true; reason = none; existing_transactions = [] }) base_can_redeem_run
      refl

base_can_redeem_complete_example : base_can_redeem answers budget 7 3 false false ≡ accept []
base_can_redeem_complete_example =
    base_can_redeem_complete answers budget 7 3 false false [] base_can_redeem_sound_example

found_run : get_assignment answers budget 7 3 rows ≡ ok (some assignment)
unfolding get_assignment get_assignment_for_learner
found_run = refl

redeem_run :
    assigned_redeem answers ledger budget 7 3 [] false rows
    ≡ (ok (some 77), mark_accepted 1000 3 (some 77) assignment ∷ [])
unfolding assigned_redeem redeem_found get_assignment get_assignment_for_learner settle base_redeem
    mark_accepted add_successful save_assignment
redeem_run = refl

assigned_redeem-Answered_example :
    Answered answers ledger budget 7 3 [] false rows
      (assigned_redeem answers ledger budget 7 3 [] false rows)
unfolding get_assignment get_assignment_for_learner
assigned_redeem-Answered_example =
    assigned_redeem-Answered answers ledger budget 7 3 [] false rows tt

abbrev broken : Transaction
broken = record {
  transaction_uuid = 71;
  transaction_policy = 11;
  quantity = negsuc 9999;
  transaction_state = failed;
  reversal = none;
}

-- The services an hour later.
abbrev later_answers : Services
later_answers = record answers { now = 4600 }

redeem_once_example :
    (assigned_redeem later_answers ledger budget 7 3
        (broken ∷ [])
        true
        (mark_accepted 1000 3 (some 77) assignment ∷ [])
      ≡ (err missing_assignment, mark_accepted 1000 3 (some 77) assignment ∷ []))
    ⊎ ((e : Error) × (customer_summary later_answers budget.enterprise_customer_uuid
            budget.assignment_configuration 3
          ≡ err e)
        × (assigned_redeem later_answers ledger budget 7 3
              (broken ∷ [])
              true
              (mark_accepted 1000 3 (some 77) assignment ∷ [])
            ≡ (err e, mark_accepted 1000 3 (some 77) assignment ∷ [])))
redeem_once_example =
    redeem_once answers later_answers ledger ledger budget 7 3 [] (broken ∷ []) false true rows
      (mark_accepted 1000 3 (some 77) assignment ∷ []) (some 77) assignment found_run
      ((λ _. refl), tt) redeem_run (inl refl)

abbrev waiting : Transaction
waiting = record {
  transaction_uuid = 70;
  transaction_policy = 11;
  quantity = negsuc 9999;
  transaction_state = pending;
  reversal = none;
}

with_lock_example :
    ((any (same_lock (lock_resource_key budget (some 7) none)) [] ≡ true)
      × (with_lock (lock_resource_key budget (some 7) none) [] 0 (λ held st. (ok st, st + 1))
          ≡ (err lock_attempt_failed, [], 0)))
    ⊎ ((any (same_lock (lock_resource_key budget (some 7) none)) [] ≡ false)
        × ((with_lock (lock_resource_key budget (some 7) none) [] 0 (λ held st. (ok st, st + 1))).0
            ≡ ok 0)
        × ((with_lock (lock_resource_key budget (some 7) none) [] 0 (λ held st. (ok st, st + 1))).2
            ≡ 1)
        × ((j : LockKey)
            → any
                (same_lock j)
                (with_lock
                  (lock_resource_key budget (some 7) none)
                  []
                  0
                  (λ held st. (ok st, st + 1))).1
              ≡ any (same_lock j) []))
with_lock_example =
    with_lock_lem (lock_resource_key budget (some 7) none) [] 0 (λ held st. (ok st, st + 1))

can_allocate_run : can_allocate answers rows budget 2 3 (pos 10000) ≡ ok none
unfolding can_allocate validate_requested_allocation_price in_price_interval get_content_price
    is_redemption_enabled is_subsidy_active total_redeemed check_budget content_would_exceed_limit
    allocated_quantity get_allocated_quantity_for_configuration subsidy_balance ◌+ℤ◌ ◌*ℤ◌ neg times
can_allocate_run = refl

can_allocate_sound_example : IsAllocatable answers rows budget 2 3 (pos 10000)
can_allocate_sound_example = can_allocate_sound answers rows budget 2 3 (pos 10000) can_allocate_run

abbrev prices : CatalogPrices
prices key = if key == 3 then some (pos 10000) else none

abbrev asked : CreditRequest
asked = record {
  request_uuid = 31;
  user_email = 8;
  user_lms_user_id = some 7;
  course_id = 3;
  course_price = pos 9900;
}

abbrev unknown : CreditRequest
unknown = record {
  request_uuid = 32;
  user_email = 8;
  user_lms_user_id = some 7;
  course_id = 4;
  course_price = pos 9900;
}

can_allocate_all_run :
    can_allocate_all answers (ok prices) rows budget (asked ∷ unknown ∷ [])
    ≡ ok (split (asked ∷ []) (unknown ∷ []) [])
unfolding can_allocate_all check_batch validate_prices in_price_interval is_redemption_enabled
    is_subsidy_active total_redeemed check_budget content_would_exceed_limit allocated_quantity
    get_allocated_quantity_for_configuration subsidy_balance ◌+ℤ◌ ◌*ℤ◌ neg times
can_allocate_all_run = refl

can_allocate_all_sound_example :
    IsSplit answers (ok prices) rows budget (asked ∷ unknown ∷ []) (asked ∷ []) (unknown ∷ []) []
can_allocate_all_sound_example =
    can_allocate_all_sound answers (ok prices) rows budget (asked ∷ unknown ∷ []) (asked ∷ [])
      (unknown ∷ []) [] can_allocate_all_run

apart :
    ledger.hash (key_data budget 7 3 (broken ∷ [])) ≡ ledger.hash (key_data budget 7 3 [])
    → key_data budget 7 3 (broken ∷ []) ≡ key_data budget 7 3 []
unfolding redemptions_for_idempotency_key
apart e = ground arith

key_after-changes_example :
    HasBroken (broken ∷ [])
    ↔ (key_after ledger budget 7 3 (broken ∷ []) ≢ key_after ledger budget 7 3 [])
key_after-changes_example = key_after-changes ledger budget 7 3 [] (broken ∷ []) apart

can_allocate-available_example :
    (available : ℤ) × (spend_available answers budget rows ≡ ok available)
    × (times 2 (pos 10000) ≤ℤ available)
can_allocate-available_example =
    can_allocate-available answers rows budget 2 3 (pos 10000) refl can_allocate_run

-- The budget raised to the deposits.
abbrev raised_budget : Policy
raised_budget = record budget { spend_limit = some (pos 100000) }

save_run : save false none answers 40 raised_budget (budget ∷ []) ≡ ok (raised_budget ∷ [])
unfolding save clean base_clean validate_budget_deactivation_with_spend spend_limit_invalid
    total_deposits_for_subsidy total_spend_limits_for_subsidy track_retired store ◌+ℤ◌
save_run = refl

save-IsAllowed_example :
    (find (is_row (prepared answers 40 raised_budget)) (raised_budget ∷ [])
      ≡ some (prepared answers 40 raised_budget))
    × IsAllowed answers (budget ∷ []) (prepared answers 40 raised_budget)
save-IsAllowed_example =
    save-IsAllowed false none answers 40 raised_budget (budget ∷ []) (raised_budget ∷ []) save_run

spent_run : total_redeemed answers budget ≡ ok (negsuc 4999)
unfolding total_redeemed
spent_run = refl

delete-spent_example : delete false none answers 40 budget (budget ∷ []) ≡ err validation_error
delete-spent_example =
    delete-spent none answers 40 budget budget (budget ∷ []) (negsuc 4999) refl refl refl spent_run
      refl

-- A policy with at most two enrollments for each learner.
abbrev seats : Policy
seats = record budget {
  policy_type = per_learner_enrollment;
  per_learner_enrollment_limit = some (pos 2);
}

no_transactions : transactions_for_learner answers seats 7 ≡ ok []
unfolding transactions_for_learner
no_transactions = refl
