-- ===== src/Policy/Allocation.antt =====
-- The checks before an allocation in subsidy_access_policy/models.py: `can_allocate`,
-- `can_allocate_all` and `can_approve`.
use enterprise_access.Prelude.{
  Bool, List, Option, Result, [], err, false, filter, if◌then◌else◌, is_some, leb_ℤ, ltb_ℤ, map,
  none, not, ok, pos, raise_if, some, sum_ℤ, times, ℕ, ℤ, ◌&&◌, ◌+ℤ◌, ◌>>=◌, ◌>>◌, ◌∷◌,
}
use enterprise_access.Assignments.Types.{
  Error, Table, attribute_error, price_validation_error, type_error,
}
use enterprise_access.Policy.Types.{
  Policy, PolicyType, Reason, Services, bnr_not_enabled, content_not_in_catalog,
  not_enough_value_in_subsidy, per_learner_spend, policy_expired, policy_spend_limit_reached,
  subsidy_expired,
}
use enterprise_access.Policy.Limits.{
  allocated_quantity, bnr_enabled, content_would_exceed_limit, get_content_price,
  is_redemption_enabled, is_subsidy_active, subsidy_balance, total_redeemed,
}

-- ALLOCATION_PRICE_VALIDATION_LOWER_BOUND_RATIO and …_UPPER_BOUND_RATIO, in hundredths.
abbrev pub lower_bound_percent : ℕ
lower_bound_percent = 95

abbrev pub upper_bound_percent : ℕ
upper_bound_percent = 105

-- `lower_bound <= requested_price_cents <= upper_bound`, times 100.
unfoldable pub in_price_interval : ℤ → ℤ → Bool
in_price_interval canonical requested =
    leb_ℤ (times lower_bound_percent canonical) (times 100 requested)
    && leb_ℤ (times 100 requested) (times upper_bound_percent canonical)

unfoldable pub validate_requested_allocation_price :
    Services → Policy → ℕ → ℤ → Result Error (Unit {0})
validate_requested_allocation_price s p key requested =
    if ltb_ℤ requested (pos 0)
    then err price_validation_error
    else (get_content_price s p key >>= λ canonical.
        raise_if (not (in_price_interval canonical requested)) price_validation_error)

-- The spend limit; without one the comparison with None is a TypeError.
abbrev pub check_limit : Option ℤ → ℤ → ℤ → Result Error (Option Reason)
check_limit none used total = content_would_exceed_limit used (pos 0) total >>= λ _. err type_error
check_limit (some limit) used total = content_would_exceed_limit used limit total >>= λ over_limit.
    ok (if over_limit then some policy_spend_limit_reached else none)

-- The two limits that an allocation has to keep, given what is spent and allocated already.
unfoldable pub check_budget : Services → Policy → ℤ → ℤ → ℤ → Result Error (Option Reason)
check_budget s p total spent already =
    content_would_exceed_limit already (subsidy_balance s p) total >>= λ over_balance.
    if over_balance
    then ok (some not_enough_value_in_subsidy)
    else check_limit p.spend_limit (spent +ℤ already) total

-- `can_allocate`: `none` is (True, None), and `some reason` is (False, reason).
unfoldable pub can_allocate : Services → Table → Policy → ℕ → ℕ → ℤ → Result Error (Option Reason)
can_allocate s t p number_of_learners key price =
    validate_requested_allocation_price s p key price
    >> (if not (is_redemption_enabled p)
        then ok (some policy_expired)
        else (s.catalog_contains p.catalog_uuid key >>= λ found.
            if not found
            then ok (some content_not_in_catalog)
            else if not (is_subsidy_active s p)
            then ok (some subsidy_expired)
            else (total_redeemed s p >>= λ spent.
                check_budget s p (times number_of_learners price) spent (allocated_quantity p t))))

-- A learner's request for credit (subsidy_request LearnerCreditRequest), with its user.
pub record CreditRequest : Type 0 where
  pub request_uuid : ℕ
  pub user_email : ℕ
  pub user_lms_user_id : Option ℕ
  pub course_id : ℕ
  pub course_price : ℤ

-- The catalog's metadata of a course: its canonical price, if the catalog has the course.
abbrev pub CatalogPrices : Type 0
CatalogPrices = ℕ → Option ℤ

-- The answer of `get_and_cache_catalog_content_metadata`, which may raise.
abbrev pub FetchedPrices : Type 0
FetchedPrices = Result Error CatalogPrices

abbrev pub in_catalog : CatalogPrices → CreditRequest → Bool
in_catalog prices r = is_some (prices r.course_id)

abbrev pub price_fits : Option ℤ → ℤ → Bool
price_fits none requested = false
price_fits (some canonical) requested = in_price_interval canonical requested

-- The loop of `validate_learner_credit_requests_allocation_prices`, for requests in the catalog.
abbrev pub price_valid : CatalogPrices → CreditRequest → Bool
price_valid prices r =
    not (ltb_ℤ r.course_price (pos 0)) && price_fits (prices r.course_id) r.course_price

unfoldable pub validate_prices :
    CatalogPrices → List CreditRequest → List CreditRequest × List CreditRequest
validate_prices prices rs =
    (filter (price_valid prices) rs, filter (λ r. not (price_valid prices r)) rs)

-- The dictionary that `can_allocate_all` returns.
pub data Batch : Type 0 where
  error_reason : Reason → Batch
  split : (valid not_in_catalog bad_price : List CreditRequest) → Batch

abbrev pub batch_total : List CreditRequest → ℤ
batch_total rs = sum_ℤ (map (λ r. r.course_price) rs)

abbrev pub split_or_refuse :
    Option Reason → (valid not_in_catalog bad_price : List CreditRequest) → Batch
split_or_refuse none valid missing bad = split valid missing bad
split_or_refuse (some why) valid missing bad = error_reason why

unfoldable pub check_batch :
    Services
    → Table
    → Policy
    → (valid not_in_catalog bad_price : List CreditRequest) → Result Error Batch
check_batch s t p [] missing bad = ok (split [] missing bad)
check_batch s t p (r ∷ rs) missing bad = total_redeemed s p >>= λ spent.
    check_budget s p (batch_total (r ∷ rs)) spent (allocated_quantity p t) >>= λ why.
    ok (split_or_refuse why (r ∷ rs) missing bad)

-- The split of the batch, once the metadata is there.
abbrev pub split_batch :
    Services → Table → Policy → List CreditRequest → CatalogPrices → Result Error Batch
split_batch s t p rs prices =
    let (valid, bad) = validate_prices prices (filter (in_catalog prices) rs) in
    check_batch s t p valid (filter (λ r. not (in_catalog prices r)) rs) bad

unfoldable pub can_allocate_all :
    Services → FetchedPrices → Table → Policy → List CreditRequest → Result Error Batch
can_allocate_all s fetched t p rs =
    if not (is_redemption_enabled p)
    then ok (error_reason policy_expired)
    else if not (is_subsidy_active s p)
    then ok (error_reason subsidy_expired)
    else fetched >>= λ prices. split_batch s t p rs prices

-- `can_approve`; a class without `assignment_request_can_allocate` raises AttributeError.
abbrev pub can_approve_as :
    PolicyType → Services → FetchedPrices → Table → Policy → List CreditRequest → Result Error Batch
can_approve_as per_learner_spend s fetched t p rs = can_allocate_all s fetched t p rs
can_approve_as _ s fetched t p rs = err attribute_error

unfoldable pub can_approve :
    Services → FetchedPrices → Table → Policy → List CreditRequest → Result Error Batch
can_approve s fetched t p rs =
    if not (bnr_enabled p)
    then ok (error_reason bnr_not_enabled)
    else can_approve_as p.policy_type s fetched t p rs
