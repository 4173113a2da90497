-- ===== src/Requests/RedeemingExamples.antt =====
-- A redemption through a request, and a forced one.
use enterprise_access.Prelude.{
  [], err, false, neg, none, ok, pos, refl, some, true, ◌+ℤ◌, ◌∷◌, ◌≡◌, ◌⊎◌,
}
use enterprise_access.Assignments.Types.{unbound_local_error}
use enterprise_access.Assignments.AllocationExamples.{world}
use enterprise_access.Assignments.Lookup.{get_assignment_for_learner}
use enterprise_access.Assignments.Actions.{add_successful}
use enterprise_access.Policy.Types.{Policy, direct, per_learner_spend}
use enterprise_access.Policy.Limits.{
  bnr_enabled, content_would_exceed_limit, is_late_redemption_allowed, is_redemption_enabled,
  total_redeemed, will_exceed_spend_limit,
}
use enterprise_access.Policy.CanRedeem.{
  assigned_can_redeem, base_can_redeem, check_assignment, check_content, check_metadata,
  check_subsidy, copy_context, get_assignment, includes_learner, policy_can_redeem,
}
use enterprise_access.Policy.Redeem.{
  acquire_lock, assigned_redeem, base_redeem, create_idempotency_key_for_transaction,
  creation_payload, mark_accepted, redeem_found, redemptions_for_idempotency_key, release_lock,
  save_assignment, settle, with_lock,
}
use enterprise_access.Policy.Examples.{answers, budget, ledger, assignment}
use enterprise_access.Requests.Types.{Request, approved, request_clean, save_request}
use enterprise_access.Requests.Redeeming.{
  Books, ForcedRedemption, ForcedSetting, after_redeem, assignment_request_redeem, force_redeem,
  force_under_lock, policy_redeem, request_found,
}
use enterprise_access.Requests.Redeemed.{
  Recorded, assignment_request_redeem-cases, force_redeem-once,
}

abbrev on_request : Policy
on_request = record budget {
  policy_type = per_learner_spend;
  learner_credit_request_config = some true;
}

abbrev approved_request : Request
approved_request = record {
  credit = record {
    request_uuid = 61;
    user_email = 8;
    user_lms_user_id = some 7;
    course_id = 3;
    course_price = pos 10000;
  };
  user_id = 71;
  customer_uuid = 1;
  request_state = approved;
  reviewed_at = some 900;
  reviewer = some 5;
  decline_reason = none;
  assigned_uuid = some 21;
  request_modified = 900;
}

abbrev books : Books
books = record { rows = assignment ∷ []; credit_requests = approved_request ∷ []; attempts = [] }

-- The request is found, and accepted.
request_run :
    (assignment_request_redeem answers ledger on_request 7 3 [] false books).0 ≡ ok (some 77)
unfolding assignment_request_redeem bnr_enabled copy_context get_assignment
    get_assignment_for_learner assigned_redeem redeem_found base_redeem creation_payload
    create_idempotency_key_for_transaction redemptions_for_idempotency_key
    is_late_redemption_allowed settle save_assignment mark_accepted add_successful after_redeem
    save_request request_clean neg
request_run = refl

assignment_request_redeem-cases_example :
    ((request_found books (get_assignment answers (copy_context on_request) 7 3 books.rows) ≡ none)
      × (assignment_request_redeem answers ledger on_request 7 3 [] false books
          ≡ (err unbound_local_error, books)))
    ⊎ ((r : Request) × (request_found books
            (get_assignment answers (copy_context on_request) 7 3 books.rows)
          ≡ some r)
        × Recorded r books (assignment_request_redeem answers ledger on_request 7 3 [] false books))
unfolding bnr_enabled
assignment_request_redeem-cases_example =
    assignment_request_redeem-cases answers ledger on_request 7 3 [] false books refl

abbrev direct_budget : Policy
direct_budget = record budget { access_method = direct }

abbrev forced : ForcedRedemption
forced = record {
  forced_lms_user_id = 7;
  course_run_key = 3;
  content_price_cents = pos 10000;
  redeemed_at = none;
  forced_errored_at = none;
  forced_transaction_uuid = none;
}

abbrev forcing : ForcedSetting
forcing = record {
  forced_environment = world;
  customer_content = λ customer key. ok tt;
  learner_email = λ customer u. ok (some 8);
  transaction_modified = 1000;
}

forced_run : (force_redeem answers ledger forcing direct_budget forced [] books).0 ≡ ok tt
unfolding force_redeem force_under_lock with_lock acquire_lock release_lock policy_can_redeem
    assigned_can_redeem base_can_redeem check_content check_metadata check_subsidy includes_learner
    is_redemption_enabled is_late_redemption_allowed will_exceed_spend_limit
    content_would_exceed_limit total_redeemed check_assignment policy_redeem get_assignment
    get_assignment_for_learner assigned_redeem redeem_found base_redeem creation_payload
    create_idempotency_key_for_transaction redemptions_for_idempotency_key settle save_assignment
    mark_accepted add_successful ◌+ℤ◌ neg
forced_run = refl

force_redeem-once_example :
    force_redeem answers ledger forcing direct_budget
      (force_redeem answers ledger forcing direct_budget forced [] books).1
      []
      books
    ≡ (ok tt, (force_redeem answers ledger forcing direct_budget forced [] books).1, [], books)
force_redeem-once_example =
    force_redeem-once answers answers ledger ledger forcing forcing direct_budget direct_budget
      forced [] [] books books forced_run
