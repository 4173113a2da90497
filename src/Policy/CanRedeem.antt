-- ===== src/Policy/CanRedeem.antt =====
-- `can_redeem` of subsidy_access_policy/models.py: the generic checks, and each class's own.
use enterprise_access.Prelude.{
  Bool, List, Option, Result, [], any, err, false, filter, if◌then◌else◌, leb_ℤ, length, ltb, map,
  none, not, ok, pos, some, sum_ℤ, ℕ, ℤ, ◌==◌, ◌>>=◌, ◌||◌, ◌∷◌,
}
use enterprise_access.Assignments.Types.{
  Assignment, Error, State, Summary, Table, attribute_error, errored, is_allocated, reversed,
}
use enterprise_access.Assignments.Lookup.{get_assignment_for_learner}
use enterprise_access.Policy.Types.{
  Policy, PolicyType, Reason, Services, SubsidyReply, Transaction, Verdict, accept,
  assigned_learner, beyond_enrollment_deadline, content_not_in_catalog, direct,
  learner_assignment_cancelled, learner_assignment_expired, learner_assignment_failed,
  learner_assignment_reversed, learner_max_enrollments_reached, learner_max_spend_reached,
  learner_not_assigned_content, learner_not_in_enterprise, learner_not_in_enterprise_group,
  not_enough_value_in_subsidy, per_learner_enrollment, per_learner_spend, policy_expired,
  policy_spend_limit_reached, refuse, subsidy_expired,
}
use enterprise_access.Policy.Limits.{
  bnr_enabled, content_would_exceed_limit, get_content_price, is_late_redemption_allowed,
  is_redemption_enabled, will_exceed_spend_limit,
}

-- `includes_learner`: `none` is (True, None), and `some reason` is (False, reason).
abbrev pub group_check : List ℕ → Option (List ℕ) → Option Reason
group_check policy_groups none = some learner_not_in_enterprise
group_check [] (some learner_groups) = none
group_check (g ∷ gs) (some learner_groups) =
    if any (λ x. any (λ y. x == y) learner_groups) (g ∷ gs)
    then none
    else some learner_not_in_enterprise_group

unfoldable pub includes_learner : Services → Policy → ℕ → Result Error (Option Reason)
includes_learner s p lms_user_id =
    s.learner_record p.enterprise_customer_uuid lms_user_id >>= λ groups.
    ok (group_check (s.policy_groups p.uuid) groups)

-- The checks of `can_redeem` that read the subsidy.
unfoldable pub check_subsidy : Services → Policy → Summary → SubsidyReply → Result Error Verdict
check_subsidy s p m reply =
    if not reply.reply_active
    then refuse subsidy_expired []
    else if not reply.reply_can_redeem
    then refuse not_enough_value_in_subsidy reply.all_transactions
    else will_exceed_spend_limit s p m >>= λ exceeds.
        if exceeds
        then refuse policy_spend_limit_reached reply.all_transactions
        else accept reply.all_transactions

-- `enrollment_deadline and timezone.now() > enrollment_deadline`
abbrev pub is_past : ℕ → Option ℕ → Bool
is_past now none = false
is_past now (some t) = ltb t now

abbrev pub deadline_passed : ℕ → Summary → Result Error Bool
deadline_passed now m = m.enroll_by_date >>= λ d. ok (is_past now d)

-- The check of the deadline, which reads the date only if it is to be made.
abbrev pub beyond_deadline : Services → Policy → Bool → Summary → Result Error Bool
beyond_deadline s p skip_deadline m =
    if skip_deadline || is_late_redemption_allowed s p then ok false else deadline_passed s.now m

-- The checks that read the content metadata.
unfoldable pub check_metadata :
    Services → Policy → ℕ → ℕ → Bool → Option Summary → Result Error Verdict
check_metadata s p lms_user_id key skip_deadline none = refuse content_not_in_catalog []
check_metadata s p lms_user_id key skip_deadline (some m) =
    beyond_deadline s p skip_deadline m >>= λ late.
    if late
    then refuse beyond_enrollment_deadline []
    else s.subsidy_can_redeem p.subsidy_uuid lms_user_id key >>= check_subsidy s p m

-- The checks that read the catalog.
unfoldable pub check_content : Services → Policy → ℕ → ℕ → Bool → Result Error Verdict
check_content s p lms_user_id key skip_deadline = s.catalog_contains p.catalog_uuid key >>= λ found.
    if not found
    then refuse content_not_in_catalog []
    else s.content_metadata p.enterprise_customer_uuid key
      >>= check_metadata s p lms_user_id key skip_deadline

-- `SubsidyAccessPolicy.can_redeem`
unfoldable pub base_can_redeem :
    Services → Policy → ℕ → ℕ → (skip_user skip_deadline : Bool) → Result Error Verdict
base_can_redeem s p lms_user_id key skip_user skip_deadline =
    if not (is_redemption_enabled p)
    then refuse policy_expired []
    else (if skip_user then ok none else includes_learner s p lms_user_id) >>= λ excluded.
        elim excluded [
          | some why ↦ refuse why []
          | none ↦ check_content s p lms_user_id key skip_deadline
        ]

-- The transactions of a learner that this policy made.
unfoldable pub transactions_for_learner : Services → Policy → ℕ → Result Error (List Transaction)
transactions_for_learner s p lms_user_id =
    s.learner_transactions p.subsidy_uuid lms_user_id >>= λ ts.
    ok (filter (λ tx. tx.transaction_policy == p.uuid) ts)

abbrev pub total_quantity : List Transaction → ℤ
total_quantity ts = sum_ℤ (map (λ tx. tx.quantity) ts)

-- What a class does after the generic checks have passed.
abbrev pub and_then :
    Result Error Verdict → (List Transaction → Result Error Verdict) → Result Error Verdict
and_then r f = r >>= λ v. if v.can_redeem then f v.existing_transactions else ok v

-- PerLearnerEnrollmentCreditAccessPolicy
unfoldable pub check_enrollment_limit :
    Services → Policy → ℕ → List Transaction → Result Error Verdict
check_enrollment_limit s p lms_user_id existing = elim p.per_learner_enrollment_limit [
  | none ↦ accept existing
  | some limit ↦ transactions_for_learner s p lms_user_id >>= λ ts.
      if leb_ℤ limit (pos (length ts))
      then refuse learner_max_enrollments_reached existing
      else accept existing
]

-- PerLearnerSpendCreditAccessPolicy, without browse and request
unfoldable pub check_learner_spend :
    Services → Policy → ℕ → ℕ → List Transaction → Result Error Verdict
check_learner_spend s p lms_user_id key existing = elim p.per_learner_spend_limit [
  | none ↦ accept existing
  | some limit ↦ transactions_for_learner s p lms_user_id >>= λ ts.
      get_content_price s p key >>= λ price.
      content_would_exceed_limit (total_quantity ts) limit price >>= λ exceeds.
      if exceeds then refuse learner_max_spend_reached existing else accept existing
]

-- The keys that `_normalize_course_key_from_metadata` reads; the empty dictionary has none.
abbrev pub empty_summary : Summary
empty_summary = record {
  summary_content_key = none;
  summary_course_run_key = none;
  summary_title = none;
  content_price = none;
  enroll_by_date = ok none;
}

abbrev pub summary_of : Option Summary → Summary
summary_of none = empty_summary
summary_of (some m) = m

-- The metadata at the customer of the assignment configuration, which is the policy's customer
-- (`save` keeps the two equal); without a configuration there is no customer to ask about.
abbrev pub customer_summary : Services → ℕ → Option ℕ → ℕ → Result Error Summary
customer_summary s customer none key = err attribute_error
customer_summary s customer (some config) key =
    s.content_metadata customer key >>= λ m. ok (summary_of m)

-- `AssignedLearnerCreditAccessPolicy.get_assignment`
unfoldable pub get_assignment : Services → Policy → ℕ → ℕ → Table → Result Error (Option Assignment)
get_assignment s p lms_user_id key t =
    get_assignment_for_learner
      (customer_summary s p.enterprise_customer_uuid p.assignment_configuration)
      p.assignment_configuration lms_user_id key t

-- `failure_reason_for_state`, with the default of its `get`.
abbrev pub failure_reason : Option State → Reason
failure_reason (some State.cancelled) = learner_assignment_cancelled
failure_reason (some errored) = learner_assignment_failed
failure_reason (some State.expired) = learner_assignment_expired
failure_reason (some reversed) = learner_assignment_reversed
failure_reason _ = learner_not_assigned_content

abbrev pub assignment_verdict : List Transaction → Option Assignment → Result Error Verdict
assignment_verdict existing none = refuse (failure_reason none) existing
assignment_verdict existing (some a) =
    if is_allocated a.state
    then accept existing
    else refuse (failure_reason (some a.state)) existing

-- AssignedLearnerCreditAccessPolicy
unfoldable pub check_assignment :
    Services → Policy → ℕ → ℕ → Table → List Transaction → Result Error Verdict
check_assignment s p lms_user_id key t existing =
    get_assignment s p lms_user_id key t >>= assignment_verdict existing

unfoldable pub assigned_can_redeem :
    Services → Table → Policy → ℕ → ℕ → (skip_user skip_deadline : Bool) → Result Error Verdict
assigned_can_redeem s t p lms_user_id key skip_user skip_deadline =
    and_then (base_can_redeem s p lms_user_id key skip_user skip_deadline)
      (check_assignment s p lms_user_id key t)

-- `copy_context_to(AssignedLearnerCreditAccessPolicy)`: the fields not copied have their defaults.
unfoldable pub copy_context : Policy → Policy
copy_context p = record p {
  policy_type = assigned_learner;
  original_retired = false;
  learner_credit_request_config = none;
  access_method = direct;
  per_learner_enrollment_limit = none;
  per_learner_spend_limit = none;
}

abbrev pub can_redeem_as :
    PolicyType
    → Services
    → Table
    → Policy
    → ℕ
    → ℕ
    → (skip_user skip_deadline : Bool) → Result Error Verdict
can_redeem_as per_learner_enrollment s t p u key skip_user skip_deadline =
    and_then (base_can_redeem s p u key skip_user skip_deadline) (check_enrollment_limit s p u)
can_redeem_as per_learner_spend s t p u key skip_user skip_deadline =
    if bnr_enabled p
    then assigned_can_redeem s t (copy_context p) u key skip_user skip_deadline
    else and_then (base_can_redeem s p u key skip_user skip_deadline)
        (check_learner_spend s p u key)
can_redeem_as assigned_learner s t p u key skip_user skip_deadline =
    assigned_can_redeem s t p u key skip_user skip_deadline

-- `policy.can_redeem(...)` for a policy of any class.
unfoldable pub policy_can_redeem :
    Services → Table → Policy → ℕ → ℕ → (skip_user skip_deadline : Bool) → Result Error Verdict
policy_can_redeem s t p = can_redeem_as p.policy_type s t p
