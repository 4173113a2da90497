-- ===== src/Policy/Classes.antt =====
-- What a positive answer of `can_redeem` means for each class of policies.
use enterprise_access.Prelude.{
  Bool, List, Option, false, if◌then◌else◌, leb_ℤ, length, none, ok, pos, some, true, ℕ, ℤ, ◌≡◌,
}
use enterprise_access.Assignments.Types.{Assignment, Table, is_allocated}
use enterprise_access.Policy.Types.{
  Policy, PolicyType, Services, Transaction, assigned_learner, per_learner_enrollment,
  per_learner_spend,
}
use enterprise_access.Policy.Limits.{bnr_enabled, content_would_exceed_limit, get_content_price}
use enterprise_access.Policy.CanRedeem.{
  copy_context, get_assignment, total_quantity, transactions_for_learner,
}
use enterprise_access.Policy.Redeemability.{IsRedeemable}

-- The learner has fewer redemptions than the limit.
abbrev pub BelowEnrollments : Services → Policy → ℕ → Option ℤ → Type 0
BelowEnrollments s p u none = Unit {0}
BelowEnrollments s p u (some limit) =
    (ts : List Transaction) × (transactions_for_learner s p u ≡ ok ts)
    × (leb_ℤ limit (pos (length ts)) ≡ false)

-- The learner's spend and the price fit into the limit.
abbrev pub BelowSpend : Services → Policy → ℕ → ℕ → Option ℤ → Type 0
BelowSpend s p u key none = Unit {0}
BelowSpend s p u key (some limit) =
    (ts : List Transaction) × (price : ℤ) × (transactions_for_learner s p u ≡ ok ts)
    × (get_content_price s p key ≡ ok price)
    × (content_would_exceed_limit (total_quantity ts) limit price ≡ ok false)

-- The learner has an allocated assignment of the content.
abbrev pub HasAllocated : Services → Policy → ℕ → ℕ → Table → Type 0
HasAllocated s p u key t =
    (a : Assignment) × (get_assignment s p u key t ≡ ok (some a)) × (is_allocated a.state ≡ true)

-- The rule of a class, and the policy whose generic checks were made.
abbrev pub ClassRule : PolicyType → Services → Table → Policy → ℕ → ℕ → Type 0
ClassRule per_learner_enrollment s t p u key = BelowEnrollments s p u p.per_learner_enrollment_limit
ClassRule per_learner_spend s t p u key =
    if bnr_enabled p
    then HasAllocated s (copy_context p) u key t
    else BelowSpend s p u key p.per_learner_spend_limit
ClassRule assigned_learner s t p u key = HasAllocated s p u key t

abbrev pub checked_policy : PolicyType → Policy → Policy
checked_policy per_learner_spend p = if bnr_enabled p then copy_context p else p
checked_policy _ p = p

-- The generic checks of a policy, for some transactions.
abbrev pub Redeemable : Services → Policy → ℕ → ℕ → (skip_user skip_deadline : Bool) → Type 0
Redeemable s p u key skip_user skip_deadline =
    (ts : List Transaction) × IsRedeemable s p u key skip_user skip_deadline ts
