-- ===== src/Expiry/Examples.antt =====
-- Assignments that expire, one with a request, and the pages of the command.
use enterprise_access.Prelude.{
  Option, [], arith, if◌then◌else◌, is_some, leb, none, ok, pos, refl, some, true, ◌&&◌, ◌==◌, ◌||◌,
  ◌∷◌, ◌≡◌,
}
use enterprise_access.Assignments.Types.{Assignment, allocated, is_expirable}
use enterprise_access.Assignments.AllocationExamples.{second}
use enterprise_access.Requests.Types.{Request, approved, request_clean, save_request}
use enterprise_access.Expiry.Dates.{
  Calendar, ExpiredReason, credit_request_deadline, days, default_deadline, fetch_metadata,
  get_allocation_timeout_expiration, get_automatic_expiration_date_and_reason,
  get_enrollment_deadline_date, get_subsidy_expiration, insert_sorted, ninety_days_passed, sorted,
  try_patterns,
}
use enterprise_access.Expiry.Expire.{
  Store, expiration_reason, expire_all, expire_assignment, expired_row, modify_to_expired, page_of,
}
use enterprise_access.Expiry.Passed.{expire_assignment-passed, is_passed, written}
use enterprise_access.Expiry.Skips.{expire_all-page_of}

-- Texts of times below 1000 are bad; the clock is at day 100.
abbrev calendar : Calendar
calendar = record {
  now = days 100;
  strptime = λ pattern text. if pattern == 1 && leb 1000 text then some text else none;
  policy = λ config. some (record { catalog_uuid = 6; subsidy_expiration_datetime = some 9000000 });
  catalog_content = λ catalog keys. ok [];
}

abbrev early : Assignment
early = record second {
  uuid = 41;
  assignment_configuration = some 4;
  state = allocated;
  allocated_at = 900;
}

abbrev late : Assignment
late = record early { uuid = 42; allocated_at = days 99 }

abbrev following : Assignment
following = record early { uuid = 43 }

abbrev last_one : Assignment
last_one = record early { uuid = 44 }

abbrev reviewed_request : Request
reviewed_request = record {
  credit = record {
    request_uuid = 61;
    user_email = 12;
    user_lms_user_id = some 13;
    course_id = 3;
    course_price = pos 10000;
  };
  user_id = 71;
  customer_uuid = 1;
  request_state = approved;
  reviewed_at = some 900;
  reviewer = some 5;
  decline_reason = none;
  assigned_uuid = some 41;
  request_modified = 900;
}

abbrev store : Store
store = record {
  assignments = early ∷ following ∷ late ∷ last_one ∷ [];
  requests = reviewed_request ∷ [];
  sent = [];
}

expire_assignment-passed_example :
    (why : Option ExpiredReason) × (st : Store) × (expire_assignment calendar true early none store
      ≡ ok (why, st))
    × (is_some why ≡ (
        is_expirable early.state
        && (is_passed (days 100) (some 9000000)
            || is_passed (days 100) none
            || is_passed (days 100) (some (get_allocation_timeout_expiration early)))))
    × (st.assignments ≡ written (days 100) true early why store.assignments)
unfolding get_subsidy_expiration fetch_metadata get_enrollment_deadline_date credit_request_deadline
    try_patterns
expire_assignment-passed_example =
    expire_assignment-passed calendar true early none none store
      (record { catalog_uuid = 6; subsidy_expiration_datetime = some 9000000 }) (some 9000000) none
      refl refl refl refl (refl, refl)

-- Ninety days and 900 seconds are earlier than the subsidy's end.
why_early : expiration_reason calendar true early none ≡ ok (some ninety_days_passed)
unfolding expiration_reason get_automatic_expiration_date_and_reason get_subsidy_expiration
    fetch_metadata get_enrollment_deadline_date credit_request_deadline try_patterns sorted
    insert_sorted
why_early = refl

-- With pages of two rows, both of the first page expire, and the third row is on no page: the second
-- page holds nothing.
second_page : page_of 4 (2, 4) (expire_all calendar true [] (page_of 4 (0, 2) store) store).1 ≡ []
unfolding expire_all expire_assignment modify_to_expired expired_row save_request request_clean
    expiration_reason get_automatic_expiration_date_and_reason get_subsidy_expiration fetch_metadata
    get_enrollment_deadline_date credit_request_deadline default_deadline try_patterns sorted
    insert_sorted
second_page = refl

expire_all-page_of_example :
    page_of 4 (2, 4) (expire_all calendar true [] (page_of 4 (0, 2) store) store).1
    ≡ page_of 4 (4, 6) store
unfolding expire_all expire_assignment modify_to_expired expired_row save_request request_clean
    expiration_reason get_automatic_expiration_date_and_reason get_subsidy_expiration fetch_metadata
    get_enrollment_deadline_date credit_request_deadline default_deadline try_patterns sorted
    insert_sorted
expire_all-page_of_example =
    expire_all-page_of calendar 4 2 2 [] store
      (some ninety_days_passed ∷ some ninety_days_passed ∷ [])
      ((refl, (refl, (refl, tt))), ((refl, (refl, tt)), ((refl, tt), (tt, tt)))) (omega arith) refl
