-- ===== src/Policy/Limits.antt =====
-- The computed properties of a policy, and the limit checks, of subsidy_access_policy/models.py.
use enterprise_access.Prelude.{
  Bool, Option, Result, err, false, if◌then◌else◌, ltb, ltb_ℤ, max_ℤ, min_ℤ, neg, none, not, ok,
  pos, some, true, ℕ, ℤ, ◌&&◌, ◌+ℤ◌, ◌>>=◌,
}
use enterprise_access.Assignments.Types.{
  Error, Summary, Table, bare_exception, content_price_null, key_error,
}
use enterprise_access.Assignments.Lookup.{get_allocated_quantity_for_configuration}
use enterprise_access.Policy.Types.{
  Policy, PolicyType, Services, assigned_learner, per_learner_enrollment, per_learner_spend,
}

unfoldable pub is_redemption_enabled : Policy → Bool
is_redemption_enabled p = p.active && not p.retired

abbrev pub is_true : Option Bool → Bool
is_true (some true) = true
is_true _ = false

-- `bool(config and config.active)`
unfoldable pub bnr_enabled : Policy → Bool
bnr_enabled p = is_true p.learner_credit_request_config

abbrev pub before : ℕ → Option ℕ → Bool
before now none = false
before now (some t) = ltb now t

unfoldable pub is_late_redemption_allowed : Services → Policy → Bool
is_late_redemption_allowed s p = before s.now p.late_redemption_allowed_until

-- `x or 0`
abbrev pub or_zero : Option ℤ → ℤ
or_zero none = pos 0
or_zero (some x) = x

-- A record that cannot be retrieved is the empty dictionary, whose fields are None.
unfoldable pub subsidy_balance : Services → Policy → ℤ
subsidy_balance s p = elim (s.retrieve_subsidy p.subsidy_uuid) [
  | none ↦ pos 0
  | some r ↦ or_zero r.current_balance
]

unfoldable pub total_deposits_for_subsidy : Services → Policy → ℤ
total_deposits_for_subsidy s p = elim (s.retrieve_subsidy p.subsidy_uuid) [
  | none ↦ pos 0
  | some r ↦ or_zero r.total_deposits
]

unfoldable pub is_subsidy_active : Services → Policy → Bool
is_subsidy_active s p = elim (s.retrieve_subsidy p.subsidy_uuid) [
  | none ↦ false
  | some r ↦ r.is_active
]

unfoldable pub total_redeemed : Services → Policy → Result Error ℤ
total_redeemed s p = s.aggregates p.subsidy_uuid p.uuid >>= λ q. ok (or_zero q)

-- `SubsidyAccessPolicy.spend_available`, given the total redeemed.
abbrev pub base_available : Option ℤ → ℤ → ℤ → ℤ
base_available none total balance = balance
base_available (some limit) total balance = min_ℤ (max_ℤ (pos 0) (limit +ℤ total)) balance

unfoldable pub base_spend_available : Services → Policy → Result Error ℤ
unfolding subsidy_balance
base_spend_available s p = elim p.spend_limit [
  | none ↦ ok (subsidy_balance s p)
  | some limit ↦ s.aggregates p.subsidy_uuid p.uuid >>= λ q.
      ok (base_available (some limit) (or_zero q) (subsidy_balance s p))
]

-- `assignments_api.get_allocated_quantity_for_configuration(self.assignment_configuration)`
unfoldable pub allocated_quantity : Policy → Table → ℤ
allocated_quantity p t = get_allocated_quantity_for_configuration p.assignment_configuration t

abbrev pub total_allocated_of : PolicyType → Policy → Table → ℤ
total_allocated_of per_learner_enrollment p t = pos 0
total_allocated_of per_learner_spend p t = if bnr_enabled p then allocated_quantity p t else pos 0
total_allocated_of assigned_learner p t = allocated_quantity p t

-- `total_allocated` of each class.
unfoldable pub total_allocated : Policy → Table → ℤ
total_allocated p t = total_allocated_of p.policy_type p t

abbrev pub takes_assignments : PolicyType → Policy → Bool
takes_assignments per_learner_enrollment p = false
takes_assignments per_learner_spend p = bnr_enabled p
takes_assignments assigned_learner p = true

-- `spend_available` of each class.
unfoldable pub spend_available : Services → Policy → Table → Result Error ℤ
unfolding base_spend_available total_allocated
spend_available s p t = base_spend_available s p >>= λ available. ok (
    if takes_assignments p.policy_type p
    then max_ℤ (pos 0) (available +ℤ total_allocated p t)
    else available)

-- Raises when the spent amount is positive.
unfoldable pub content_would_exceed_limit : ℤ → ℤ → ℤ → Result Error Bool
content_would_exceed_limit spent limit price =
    if ltb_ℤ (pos 0) spent then err bare_exception else ok (ltb_ℤ limit (neg spent +ℤ price))

abbrev pub price_of : Option Summary → Result Error ℤ
price_of none = err key_error
price_of (some m) = elim m.content_price [ none ↦ err content_price_null | some x ↦ ok x ]

-- `get_content_price(content_key)`: a summary without the key `content_price` is refused.
unfoldable pub get_content_price : Services → Policy → ℕ → Result Error ℤ
get_content_price s p key = s.content_metadata p.enterprise_customer_uuid key >>= price_of

-- `will_exceed_spend_limit(content_key, content_metadata)` with the metadata at hand.
abbrev pub exceeds_limit : Services → Policy → Summary → Option ℤ → Result Error Bool
exceeds_limit s p m none = ok false
exceeds_limit s p m (some limit) = price_of (some m) >>= λ price.
    total_redeemed s p >>= λ spent. content_would_exceed_limit spent limit price

unfoldable pub will_exceed_spend_limit : Services → Policy → Summary → Result Error Bool
will_exceed_spend_limit s p m = exceeds_limit s p m p.spend_limit
