-- ===== src/Expiry/Dates.antt =====
-- The three dates on which an assignment may expire (enterprise_access/utils.py, with
-- content_assignments/content_metadata_api.py and enrollment_deadline_strategies.py), and the choice
-- among them. A time is a number of seconds of its wall clock, since `replace(tzinfo=UTC)` gives the
-- parsed times the zone UTC as they stand.
use enterprise_access.Prelude.{
  Bool, Dict, List, Option, Result, [], err, find, if◌then◌else◌, is_present, lookup, ltb, none, ok,
  opt_eq, some, values, zero, ℕ, ◌*◌, ◌++◌, ◌+◌, ◌>>=◌, ◌||◌, ◌∷◌,
}
use enterprise_access.Assignments.Types.{
  Assignment, Error, attribute_error, index_error, value_error,
}

-- AssignmentAutomaticExpiredReason
pub data ExpiredReason : Type 0 where
  ninety_days_passed enrollment_date_passed subsidy_expired : ExpiredReason

-- The keys that are read of the normalized metadata of a run, and of a course.
pub record RunMetadata : Type 0 where
  pub enroll_by : Option ℕ

pub record CourseMetadata : Type 0 where
  pub key : Option ℕ
  pub normalized_metadata : RunMetadata
  pub normalized_metadata_by_run : Dict RunMetadata

-- What is read of a policy: its catalog, and the text `expiration_datetime` of its subsidy.
pub record PolicyDates : Type 0 where
  pub catalog_uuid : ℕ
  pub subsidy_expiration_datetime : Option ℕ

-- The clock, datetime.strptime on the pattern of a number, the policy of an assignment
-- configuration, and the cached answers of enterprise-catalog.
pub record Calendar : Type 0 where
  pub now : ℕ
  pub strptime : ℕ → ℕ → Option ℕ
  pub policy : ℕ → Option PolicyDates
  pub catalog_content : ℕ → List ℕ → Result Error (List CourseMetadata)

abbrev pub days : ℕ → ℕ
days n = n * 86400

-- NUM_DAYS_BEFORE_AUTO_EXPIRATION
abbrev pub num_days_before_auto_expiration : ℕ
num_days_before_auto_expiration = 90

-- DATE_INPUT_PATTERNS
abbrev pub date_input_patterns : List ℕ
date_input_patterns = 0 ∷ 1 ∷ 2 ∷ 3 ∷ []

abbrev pub parsed_or : Option ℕ → Result Error (Option ℕ) → Result Error (Option ℕ)
parsed_or (some d) rest = ok (some d)
parsed_or none rest = rest

unfoldable pub try_patterns : Calendar → ℕ → List ℕ → Result Error (Option ℕ)
try_patterns c text [] = err value_error
try_patterns c text (p ∷ ps) = parsed_or (c.strptime p text) (try_patterns c text ps)

abbrev pub parse_datetime_string : Calendar → Option ℕ → Result Error (Option ℕ)
parse_datetime_string c none = ok none
parse_datetime_string c (some zero) = ok none
parse_datetime_string c (some text) = try_patterns c text date_input_patterns

-- `.replace(tzinfo=UTC)` of a parsed time
abbrev pub replaced : Option ℕ → Result Error ℕ
replaced none = err attribute_error
replaced (some d) = ok d

-- `assignment.assignment_configuration.policy`, whose attributes are read.
abbrev pub policy_of : Calendar → Option ℕ → Result Error PolicyDates
policy_of c none = err attribute_error
policy_of c (some config) = elim (c.policy config) [ none ↦ err attribute_error | some p ↦ ok p ]

unfoldable pub get_subsidy_expiration : Calendar → Assignment → Result Error (Option ℕ)
get_subsidy_expiration c a = policy_of c a.assignment_configuration >>= λ p.
    if is_present p.subsidy_expiration_datetime
    then (parse_datetime_string c p.subsidy_expiration_datetime >>= λ d.
        replaced d >>= λ time. ok (some time))
    else ok none

abbrev pub enroll_by_of : Option RunMetadata → Option ℕ
enroll_by_of none = none
enroll_by_of (some m) = m.enroll_by

-- `get_normalized_metadata_for_assignment(...).get('enroll_by_date')`: of the preferred run, where
-- there is one, even when the metadata does not have it.
unfoldable pub normalized_enroll_by : Assignment → CourseMetadata → Option ℕ
normalized_enroll_by a m =
    if is_present a.preferred_course_run_key
    then enroll_by_of (elim a.preferred_course_run_key [
      | none ↦ none
      | some run ↦ lookup run m.normalized_metadata_by_run
    ])
    else m.normalized_metadata.enroll_by

-- `except ValueError`
abbrev pub unless_bad : Result Error (Option ℕ) → Result Error (Option ℕ)
unless_bad (err value_error) = ok none
unless_bad (err e) = err e
unless_bad (ok d) = ok d

-- DefaultEnrollmentDeadlineStrategy
unfoldable pub default_deadline :
    Calendar → Assignment → Option CourseMetadata → Result Error (Option ℕ)
default_deadline c a none = ok none
default_deadline c a (some m) = unless_bad (parse_datetime_string c (normalized_enroll_by a m))

-- The list comprehension of `_get_last_course_run_enrollment_deadline`.
unfoldable pub run_deadlines : Calendar → List RunMetadata → Result Error (List ℕ)
run_deadlines c [] = ok []
run_deadlines c (m ∷ ms) =
    let rest = run_deadlines c ms in
    if is_present m.enroll_by
    then (parse_datetime_string c m.enroll_by >>= λ d.
        replaced d >>= λ time. rest >>= λ ds. ok (time ∷ ds))
    else rest

-- `max(deadlines) if deadlines else None`
abbrev pub larger : ℕ → Option ℕ → Option ℕ
larger d none = some d
larger d (some e) = if ltb d e then some e else some d

unfoldable pub last_of : List ℕ → Option ℕ
last_of [] = none
last_of (d ∷ ds) = larger d (last_of ds)

abbrev pub future_or : ℕ → Option ℕ → Result Error (Option ℕ) → Result Error (Option ℕ)
future_or now none rest = rest
future_or now (some d) rest = if ltb now d then ok (some d) else rest

-- CreditRequestEnrollmentDeadlineStrategy
unfoldable pub credit_request_deadline :
    Calendar → Assignment → Option CourseMetadata → Result Error (Option ℕ)
credit_request_deadline c a none = ok none
credit_request_deadline c a (some m) =
    run_deadlines c (values m.normalized_metadata_by_run) >>= λ ds.
    future_or c.now (last_of ds) (default_deadline c a (some m))

-- EnrollmentDeadlineStrategyFactory.get_strategy, and the call of the strategy; the flag tells
-- whether the assignment has a credit request.
unfoldable pub get_enrollment_deadline_date :
    Calendar → Bool → Assignment → Option CourseMetadata → Result Error (Option ℕ)
get_enrollment_deadline_date c has_request a m =
    if has_request then credit_request_deadline c a m else default_deadline c a m

-- LearnerContentAssignment.get_allocation_timeout_expiration
abbrev pub get_allocation_timeout_expiration : Assignment → ℕ
get_allocation_timeout_expiration a = a.allocated_at + days num_days_before_auto_expiration

-- `course_metadata.get('key') in (content_key, parent_content_key)`
abbrev pub is_course_of : Assignment → CourseMetadata → Bool
is_course_of a m = opt_eq m.key (some a.content_key) || opt_eq m.key a.parent_content_key

-- `get_content_metadata_for_assignments` of one assignment, at its key.
unfoldable pub fetch_metadata : Calendar → ℕ → Assignment → Result Error (Option CourseMetadata)
fetch_metadata c catalog a =
    c.catalog_content catalog (a.content_key ∷ []) >>= λ courses. ok (find (is_course_of a) courses)

abbrev pub given_or :
    Option CourseMetadata
    → Result Error (Option CourseMetadata)
    → Result Error (Option CourseMetadata)
given_or (some m) fetched = ok (some m)
given_or none fetched = fetched

-- A date with its reason.
pub record Expiration : Type 0 where
  pub date : ℕ
  pub reason : ExpiredReason

-- `filter(lambda x: x['date'] is not None, ...)`, on one entry
abbrev pub dated : Option ℕ → ExpiredReason → List Expiration
dated none why = []
dated (some d) why = record { date = d; reason = why } ∷ []

-- `sorted(..., key=lambda x: x['date'])`, which is stable
unfoldable pub insert_sorted : Expiration → List Expiration → List Expiration
insert_sorted x [] = x ∷ []
insert_sorted x (y ∷ ys) =
    let rest = insert_sorted x ys in if ltb y.date x.date then y ∷ rest else x ∷ y ∷ ys

unfoldable pub sorted : List Expiration → List Expiration
sorted [] = []
sorted (x ∷ xs) = insert_sorted x (sorted xs)

abbrev pub first_of : List Expiration → Result Error Expiration
first_of [] = err index_error
first_of (x ∷ xs) = ok x

abbrev pub earliest : Option ℕ → Option ℕ → ℕ → Result Error Expiration
earliest subsidy enrollment timeout = first_of (
    sorted (
      dated subsidy subsidy_expired
      ++ dated enrollment enrollment_date_passed
      ++ dated (some timeout) ninety_days_passed))

-- `get_automatic_expiration_date_and_reason`; `none` for metadata is None or an empty dictionary.
unfoldable pub get_automatic_expiration_date_and_reason :
    Calendar → Bool → Assignment → Option CourseMetadata → Result Error Expiration
get_automatic_expiration_date_and_reason c has_request a given =
    policy_of c a.assignment_configuration >>= λ p. get_subsidy_expiration c a >>= λ subsidy.
    given_or given (fetch_metadata c p.catalog_uuid a) >>= λ m.
    get_enrollment_deadline_date c has_request a m >>= λ enrollment.
    earliest subsidy enrollment (get_allocation_timeout_expiration a)
