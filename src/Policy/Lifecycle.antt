-- ===== src/Policy/Lifecycle.antt =====
-- `clean`, `save`, `delete` and `create_deposit` of subsidy_access_policy/models.py, and
-- `validate_budget_deactivation_with_spend` of utils.py.
use enterprise_access.Prelude.{
  Bool, List, Option, Result, [], err, false, filter, find, if◌then◌else◌, is_some, leb_ℤ, ltb_ℤ,
  map, none, not, ok, pos, raise_if, some, sum_ℤ, true, ℕ, ℤ, ◌&&◌, ◌+ℤ◌, ◌==◌, ◌>>=◌, ◌>>◌, ◌||◌,
  ◌∷◌,
}
use enterprise_access.Assignments.Types.{
  Error, subsidy_api_http_error, type_error, validation_error,
}
use enterprise_access.Policy.Types.{
  Policy, PolicyType, Services, assigned, assigned_learner, per_learner_enrollment,
  per_learner_spend,
}
use enterprise_access.Policy.Limits.{
  bnr_enabled, is_true, or_zero, total_deposits_for_subsidy, total_redeemed,
}

abbrev pub Policies : Type 0
Policies = List Policy

abbrev pub is_row : Policy → Policy → Bool
is_row p q = q.uuid == p.uuid

abbrev pub is_sibling : Policy → Policy → Bool
is_sibling p q =
    q.enterprise_customer_uuid == p.enterprise_customer_uuid
    && q.subsidy_uuid == p.subsidy_uuid
    && q.active
    && not (is_row p q)

abbrev pub limits : Policies → List ℤ
limits = map (λ q. or_zero q.spend_limit)

-- `total_spend_limits_for_subsidy`: the sum if this instance were saved.
unfoldable pub total_spend_limits_for_subsidy : Policies → Policy → ℤ
total_spend_limits_for_subsidy db p =
    (if p.active then or_zero p.spend_limit else pos 0) +ℤ sum_ℤ (limits (filter (is_sibling p) db))

abbrev pub same_limit : Option ℤ → Option ℤ → Bool
same_limit none none = true
same_limit (some a) (some b) = leb_ℤ a b && leb_ℤ b a
same_limit _ _ = false

abbrev pub same_flag : Bool → Bool → Bool
same_flag true b = b
same_flag false b = not b

-- `is_active_updated or is_spend_limit_updated`, against the stored row; a new record has none.
abbrev pub limit_or_active_updated : Option Policy → Policy → Bool
limit_or_active_updated none p = false
limit_or_active_updated (some q) p =
    not (same_flag q.active p.active) || not (same_limit q.spend_limit p.spend_limit)

-- `clean_spend_limit`: whether it raises.
unfoldable pub spend_limit_invalid : Services → Policies → Policy → Bool
spend_limit_invalid s db p =
    p.active
    && limit_or_active_updated (find (is_row p) db) p
    && ltb_ℤ (total_deposits_for_subsidy s p) (total_spend_limits_for_subsidy db p)

-- The FIELD_CONSTRAINTS of a class.
abbrev pub constraints_of : PolicyType → Policy → Bool
constraints_of per_learner_enrollment p =
    not (is_some p.per_learner_spend_limit) && not (is_some p.assignment_configuration)
constraints_of per_learner_spend p = not (is_some p.per_learner_enrollment_limit)
constraints_of assigned_learner p =
    is_some p.spend_limit
    && not (is_some p.per_learner_spend_limit)
    && not (is_some p.per_learner_enrollment_limit)

abbrev pub redeemed_check : Result Error ℤ → Result Error (Unit {0})
redeemed_check (err e) = err validation_error
redeemed_check (ok total) = raise_if (ltb_ℤ total (pos 0)) validation_error

-- `validate_budget_deactivation_with_spend`; `bypass` is ALLOW_BUDGET_DEACTIVATION_WITH_SPEND.
abbrev pub deactivation_of : Option Policy → Services → Policy → Result Error (Unit {0})
deactivation_of none s p = ok tt
deactivation_of (some original) s p =
    if same_flag original.active p.active then ok tt else redeemed_check (total_redeemed s p)

unfoldable pub validate_budget_deactivation_with_spend :
    Bool → Services → Policies → Policy → Result Error (Unit {0})
validate_budget_deactivation_with_spend bypass s db p =
    if bypass || p.active then ok tt else deactivation_of (find (is_row p) db) s p

-- `SubsidyAccessPolicy.clean`; the check of a deactivation is for stored records only.
unfoldable pub base_clean : Bool → Services → Policies → Policy → Result Error (Unit {0})
base_clean bypass s db p =
    validate_budget_deactivation_with_spend bypass s db p
    >> raise_if (spend_limit_invalid s db p || not (constraints_of p.policy_type p))
        validation_error

-- `subsidy_requests_enabled` of the customer's SubsidyRequestCustomerConfiguration, if there is one,
-- is the parameter `requests_enabled`.
abbrev pub clean_as :
    PolicyType → Bool → Option Bool → Services → Policies → Policy → Result Error (Unit {0})
clean_as per_learner_spend bypass requests_enabled s db p =
    base_clean bypass s db p
    >> raise_if (bnr_enabled p && is_true requests_enabled) validation_error
clean_as _ bypass requests_enabled s db p = base_clean bypass s db p

unfoldable pub clean : Bool → Option Bool → Services → Policies → Policy → Result Error (Unit {0})
clean bypass requests_enabled s db p = clean_as p.policy_type bypass requests_enabled s db p

-- Write a row, replacing the one with its key.
unfoldable pub store : Policy → Policies → Policies
store p [] = p ∷ []
store p (q ∷ db) = if is_row p q then p ∷ db else q ∷ store p db

-- `retired_at` follows the changes of `retired`.
unfoldable pub track_retired : ℕ → Policy → Policy
track_retired now p = if same_flag p.retired p.original_retired then p else (record p {
  retired_at = if p.retired then some now else none;
  original_retired = p.retired;
})

-- The fields that a class sets before it saves; `fresh` is the key of a new
-- AssignmentConfiguration.
abbrev pub prepare_as : PolicyType → ℕ → Policy → Policy
prepare_as per_learner_enrollment fresh p = p
prepare_as per_learner_spend fresh p =
    if bnr_enabled p && not (is_some p.assignment_configuration)
    then (record p { assignment_configuration = some fresh })
    else p
prepare_as assigned_learner fresh p =
    if is_some p.assignment_configuration
    then (record p { access_method = assigned })
    else (record p { access_method = assigned; assignment_configuration = some fresh })

-- `save`, validation included; `full_clean` is made once, also where a class makes it twice.
unfoldable pub save : Bool → Option Bool → Services → ℕ → Policy → Policies → Result Error Policies
save bypass requests_enabled s fresh p db =
    let ready = track_retired s.now (prepare_as p.policy_type fresh p) in
    clean bypass requests_enabled s db ready >>= λ _. ok (store ready db)

-- `delete`: deactivate an active policy.
unfoldable pub delete :
    Bool → Option Bool → Services → ℕ → Policy → Policies → Result Error Policies
delete bypass requests_enabled s fresh p db =
    if p.active
    then save bypass requests_enabled s fresh (record p { active = false }) db
    else ok db

abbrev pub raised : Option ℤ → ℤ → Result Error ℤ
raised none amount = err type_error
raised (some limit) amount = ok (limit +ℤ amount)

-- `create_deposit`; `deposited` says whether the subsidy service took the deposit.
unfoldable pub create_deposit :
    Bool → Option Bool → Services → ℕ → Bool → ℤ → Policy → Policies → Result Error Policies
create_deposit bypass requests_enabled s fresh deposited amount p db =
    if not deposited
    then err subsidy_api_http_error
    else (raised p.spend_limit amount >>= λ limit.
        save bypass requests_enabled s fresh (record p { spend_limit = some limit }) db)
