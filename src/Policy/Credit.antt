-- ===== src/Policy/Credit.antt =====
-- `credit_available` and `remaining_balance_per_user` of subsidy_access_policy/models.py.
use enterprise_access.Prelude.{
  Bool, List, Option, Result, [], err, false, filter, if◌then◌else◌, is_some, leb_ℤ, length, ltb_ℤ,
  neg, none, not, ok, opt_eq, pos, some, true, zero, ℕ, ℤ, ◌&&◌, ◌-ℤ◌, ◌>>=◌, ◌||◌, ◌∷◌,
}
use enterprise_access.Assignments.Types.{Assignment, Error, Table, bare_exception}
use enterprise_access.Assignments.Lookup.{in_config}
use enterprise_access.Assignments.Actions.{learner_acknowledged}
use enterprise_access.Policy.Types.{
  Policy, PolicyType, Services, assigned_learner, per_learner_enrollment, per_learner_spend,
}
use enterprise_access.Policy.Limits.{
  bnr_enabled, is_redemption_enabled, is_subsidy_active, is_true, subsidy_balance, total_redeemed,
}
use enterprise_access.Policy.CanRedeem.{includes_learner, total_quantity, transactions_for_learner}

abbrev pub spend_within : Services → Policy → Option ℤ → Result Error Bool
spend_within s p none = ok true
spend_within s p (some limit) = total_redeemed s p >>= λ spent.
    if ltb_ℤ (pos 0) spent then err bare_exception else ok (ltb_ℤ (neg spent) limit)

unfoldable pub has_credit_available_with_spend_limit : Services → Policy → Result Error Bool
has_credit_available_with_spend_limit s p = spend_within s p p.spend_limit

-- The checks of `credit_available` after the learner's.
unfoldable pub subsidy_credit : Services → Policy → Bool → Result Error Bool
subsidy_credit s p skip_inactive =
    if not skip_inactive && not (is_subsidy_active s p)
    then ok false
    else if leb_ℤ (subsidy_balance s p) (pos 0)
    then ok false
    else has_credit_available_with_spend_limit s p

-- `SubsidyAccessPolicy.credit_available`
unfoldable pub base_credit_available :
    Services → Policy → ℕ → (skip_user skip_inactive : Bool) → Result Error Bool
base_credit_available s p lms_user_id skip_user skip_inactive =
    if not (is_redemption_enabled p)
    then ok false
    else (if skip_user then ok none else includes_learner s p lms_user_id) >>= λ excluded.
        if is_some excluded then ok false else subsidy_credit s p skip_inactive

-- `PerLearnerEnrollmentCreditAccessPolicy.remaining_balance_per_user`
unfoldable pub remaining_enrollments : Services → Policy → ℕ → Result Error (Option ℤ)
remaining_enrollments s p lms_user_id = elim p.per_learner_enrollment_limit [
  | none ↦ ok none
  | some limit ↦
      if leb_ℤ limit (pos 0)
      then ok (some (pos 0))
      else transactions_for_learner s p lms_user_id >>= λ ts. ok (some (limit -ℤ pos (length ts)))
]

-- `PerLearnerSpendCreditAccessPolicy.remaining_balance_per_user`
unfoldable pub remaining_spend : Services → Policy → ℕ → Result Error (Option ℤ)
remaining_spend s p lms_user_id = elim p.per_learner_spend_limit [
  | none ↦ ok none
  | some limit ↦
      if leb_ℤ limit (pos 0)
      then ok (some (pos 0))
      else transactions_for_learner s p lms_user_id >>= λ ts.
          if ltb_ℤ (pos 0) (total_quantity ts)
          then err bare_exception
          else ok (some (limit -ℤ neg (total_quantity ts)))
]

-- `x is not None and x > 0`
abbrev pub is_positive : Option ℤ → Bool
is_positive none = false
is_positive (some x) = ltb_ℤ (pos 0) x

-- `x == 0`
abbrev pub is_zero : Option ℤ → Bool
is_zero (some (pos zero)) = true
is_zero _ = false

-- The rows that `unacknowledged_assignments_uuids` lists.
unfoldable pub unacknowledged_rows : List Assignment → Result Error (List Assignment)
unacknowledged_rows [] = ok []
unacknowledged_rows (a ∷ rest) = learner_acknowledged a >>= λ done.
    unacknowledged_rows rest >>= λ rows. ok (if is_true done then rows else a ∷ rows)

abbrev pub nonempty : List Assignment → Bool
nonempty [] = false
nonempty (_ ∷ _) = true

abbrev pub and_credit : Result Error Bool → Result Error Bool → Result Error Bool
and_credit available rest = available >>= λ yes. if yes then rest else ok false

abbrev pub credit_as : PolicyType → Services → Table → Policy → ℕ → Result Error Bool
credit_as per_learner_enrollment s t p u = and_credit (base_credit_available s p u false false) (
    if is_some p.per_learner_enrollment_limit
    then (remaining_enrollments s p u >>= λ left. ok (is_positive left))
    else ok true)
credit_as per_learner_spend s t p u = and_credit (base_credit_available s p u false false) (
    if is_some p.per_learner_spend_limit
    then (remaining_spend s p u >>= λ left. ok (bnr_enabled p && is_zero left || is_positive left))
    else ok true)
credit_as assigned_learner s t p u = and_credit (base_credit_available s p u false true) (
    unacknowledged_rows
      (filter (λ a. in_config p.assignment_configuration a && opt_eq a.lms_user_id (some u)) t)
    >>= λ rows. ok (nonempty rows))

-- `policy.credit_available(lms_user_id)` for a policy of any class.
unfoldable pub credit_available : Services → Table → Policy → ℕ → Result Error Bool
credit_available s t p u = credit_as p.policy_type s t p u
