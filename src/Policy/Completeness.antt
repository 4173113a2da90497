-- ===== src/Policy/Completeness.antt =====
-- The generic checks of `can_redeem`, from the description of a redeemable request.
use enterprise_access.Prelude.{
  Bool, List, Result, [], any, ap, arith, false, if◌then◌else◌, inl, inr, none, ok, refl, some,
  true, ℕ, ◌==◌, ◌||◌, ◌∷◌, ◌≡◌, ◌⊎◌,
}
use enterprise_access.Assignments.Types.{Error}
use enterprise_access.Policy.Types.{Policy, Services, Transaction, accept}
use enterprise_access.Policy.Limits.{is_late_redemption_allowed, will_exceed_spend_limit}
use enterprise_access.Policy.CanRedeem.{
  base_can_redeem, check_content, check_metadata, check_subsidy, deadline_passed, group_check,
  includes_learner,
}
use enterprise_access.Policy.Redeemability.{
  IsMember, IsRedeemable, WithinLimit-limit, parts_enabled,
}

group_check-some :
    (policy_groups gs : List ℕ)
    → (policy_groups ≡ []) ⊎ (any (λ x. any (λ y. x == y) gs) policy_groups ≡ true)
    → group_check policy_groups (some gs) ≡ none
group_check-some [] gs h = refl
group_check-some (x ∷ xs) gs h = ground arith

member_included :
    (s : Services) (p : Policy) (u : ℕ) → IsMember s p u → includes_learner s p u ≡ ok none
unfolding includes_learner
member_included s p u h =
    rw h.recorded (ap ok (group_check-some (s.policy_groups p.uuid) h.groups h.shared))

skipped_or_included :
    (s : Services) (p : Policy) (u : ℕ) (skip_user : Bool)
    → (skip_user ≡ true) ⊎ IsMember s p u
    → (if skip_user then ok none else includes_learner s p u) ≡ ok none
skipped_or_included s p u true h = refl
skipped_or_included s p u false (inl h) = cc
skipped_or_included s p u false (inr h) = member_included s p u h

timely_test :
    (skip late : Bool) (passed : Result Error Bool)
    → (skip ≡ true) ⊎ (late ≡ true) ⊎ (passed ≡ ok false)
    → (if skip || late then ok false else passed) ≡ ok false
timely_test true late passed h = refl
timely_test false true passed h = refl
timely_test false false passed (inl h) = cc
timely_test false false passed (inr (inl h)) = cc
timely_test false false passed (inr (inr h)) = h

metadata_complete :
    (s : Services) (p : Policy) (u key : ℕ) (skip_user skip : Bool) (ts : List Transaction)
    (h : IsRedeemable s p u key skip_user skip ts)
    → check_metadata s p u key skip (some h.summary) ≡ accept ts
unfolding check_metadata check_subsidy will_exceed_spend_limit
metadata_complete s p u key skip_user skip ts h =
    rw
      (
        timely_test skip (is_late_redemption_allowed s p) (deadline_passed s.now h.summary)
            h.in_time,
        h.funded,
        WithinLimit-limit s p _ _ h.within_limit,
      )
      refl

-- The generic checks answer True, with the subsidy's transactions and no reason, for
-- every redeemable request.
pub base_can_redeem_complete :
    (s : Services) (p : Policy) (u key : ℕ) (skip_user skip_deadline : Bool) (ts : List Transaction)
    → IsRedeemable s p u key skip_user skip_deadline ts
    → base_can_redeem s p u key skip_user skip_deadline ≡ accept ts
unfolding base_can_redeem check_content
base_can_redeem_complete s p u key skip_user skip ts h =
    rw
      (
        parts_enabled p h.enabled h.not_retired,
        skipped_or_included s p u skip_user h.member,
        h.catalogued,
        h.described,
      )
      (metadata_complete s p u key skip_user skip ts h)
