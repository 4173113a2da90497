-- ===== src/Policy/Remaining.antt =====
-- The remaining enrollments that a policy shows, and the limit that it enforces.
use enterprise_access.Prelude.{
  Bool, Bool-cases, List, Result, arith, false, if◌then◌else◌, inl, inr, leb_ℤ, length, not, ok,
  pos, refl, some, true, ℕ, ℤ, ◌-ℤ◌, ◌≡◌,
}
use enterprise_access.Assignments.Types.{Error}
use enterprise_access.Policy.Types.{
  Policy, Services, Transaction, Verdict, accept, learner_max_enrollments_reached, refuse,
}
use enterprise_access.Policy.CanRedeem.{check_enrollment_limit, transactions_for_learner}
use enterprise_access.Policy.Credit.{is_positive, remaining_enrollments}

-- A limit that is not positive leaves nothing.
abbrev pub left_of : ℤ → ℕ → ℤ
left_of limit n = if leb_ℤ limit (pos 0) then pos 0 else limit -ℤ pos n

left_positive :
    (limit : ℤ) (n : ℕ) → leb_ℤ limit (pos n) ≡ not (is_positive (some (left_of limit n)))
unfolding ◌-ℤ◌
left_positive limit n = ground arith

shown :
    (s : Services) (p : Policy) (u : ℕ) (limit : ℤ) (rows : List Transaction)
    → p.per_learner_enrollment_limit ≡ some limit
    → transactions_for_learner s p u ≡ ok rows
    → remaining_enrollments s p u ≡ ok (some (left_of limit (length rows)))
unfolding remaining_enrollments transactions_for_learner ◌-ℤ◌
shown s p u limit rows limited found = elim (Bool-cases (leb_ℤ limit (pos 0))) [
  | inl none_ ↦ rw (limited, none_) refl
  | inr some_ ↦ rw (limited, some_, found) refl
]

flip : (b : Bool) (x y : Result Error Verdict) → (if not b then x else y) ≡ (if b then y else x)
flip true x y = refl
flip false x y = refl

-- `remaining_balance_per_user` of a policy with an enrollment limit is positive exactly when its
-- `can_redeem` accepts one more enrollment of the learner, as far as this limit goes.
pub remaining_enrollments-agrees :
    (s : Services) (p : Policy) (u : ℕ) (limit : ℤ) (rows existing : List Transaction)
    → p.per_learner_enrollment_limit ≡ some limit
    → transactions_for_learner s p u ≡ ok rows
    → (left : ℤ) × (remaining_enrollments s p u ≡ ok (some left))
      × (check_enrollment_limit s p u existing ≡ (
          if is_positive (some left)
          then accept existing
          else refuse learner_max_enrollments_reached existing))
unfolding check_enrollment_limit transactions_for_learner ◌-ℤ◌
remaining_enrollments-agrees s p u limit rows existing limited found = (
  left_of limit (length rows),
  shown s p u limit rows limited found,
  rw (limited, found, left_positive limit (length rows))
      (flip (is_positive (some (left_of limit (length rows)))) _ _),
)
