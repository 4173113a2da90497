-- ===== src/Policy/Available.antt =====
-- The checks before an allocation against `spend_available`.
use enterprise_access.Prelude.{
  >>=-eq-ok, Bool-cases, Option, arith, false, inl, inr, int_laws, leb_ℤ, max_ℤ, min_ℤ, neg, none,
  ok, pos, refl, some, times, ℕ, ℤ, ◌+ℤ◌, ◌≡◌, ◌≤ℤ◌,
}
use enterprise_access.Assignments.Types.{Table}
use enterprise_access.Policy.Types.{Policy, Services, assigned_learner}
use enterprise_access.Policy.Limits.{
  allocated_quantity, base_spend_available, or_zero, spend_available, subsidy_balance,
  total_allocated, total_redeemed,
}
use enterprise_access.Policy.Allocation.{can_allocate}
use enterprise_access.Policy.Budget.{can_allocate_sound}

redeemed_parts :
    (s : Services) (p : Policy) (spent : ℤ)
    → total_redeemed s p ≡ ok spent
    → (q : Option ℤ) × (s.aggregates p.subsidy_uuid p.uuid ≡ ok q) × (or_zero q ≡ spent)
unfolding total_redeemed
redeemed_parts s p spent h =
    let (q, e, same) = >>=-eq-ok (s.aggregates p.subsidy_uuid p.uuid) _ h in (q, e, cc)

-- The quantity that `spend_available` computes of a limit.
abbrev left_over : ℤ → ℤ → ℤ → ℤ → ℤ
left_over limit spent balance already =
    max_ℤ (pos 0) (min_ℤ (max_ℤ (pos 0) (limit +ℤ spent)) balance +ℤ already)

assoc : (a b c : ℤ) → a +ℤ b +ℤ c ≡ a +ℤ (b +ℤ c)
assoc a b c = omega int_laws

below_max : (x a b : ℤ) → x ≤ℤ b → x ≤ℤ max_ℤ a b
below_max x a b h = ground arith

below_min_add : (x a b c : ℤ) → x ≤ℤ a +ℤ c → x ≤ℤ b +ℤ c → x ≤ℤ min_ℤ a b +ℤ c
below_min_add x a b c h k = elim (Bool-cases (leb_ℤ a b)) [
  | inl low ↦ rw low h
  | inr high ↦ rw high k
]

above : (a b : ℤ) → leb_ℤ a b ≡ false → b ≤ℤ a
above a b h = ground arith

below_max_add : (x a b c : ℤ) → x ≤ℤ b +ℤ c → x ≤ℤ max_ℤ a b +ℤ c
below_max_add x a b c h = elim (Bool-cases (leb_ℤ a b)) [
  | inl low ↦ rw low h
  | inr high ↦ rw high (let low = above a b high in omega (int_laws, h, low))
]

moved_over : (total limit used : ℤ) → neg used +ℤ total ≤ℤ limit → total ≤ℤ limit +ℤ used
moved_over total limit used h = omega (int_laws, h)

fits_left_over :
    (limit spent balance already total : ℤ)
    → neg already +ℤ total ≤ℤ balance
    → neg (spent +ℤ already) +ℤ total ≤ℤ limit
    → total ≤ℤ left_over limit spent balance already
fits_left_over limit spent balance already total h₁ h₂ = below_max total (pos 0) _ (
    below_min_add total (max_ℤ (pos 0) (limit +ℤ spent)) balance already
      (below_max_add total (pos 0) (limit +ℤ spent) already
        (rw (assoc limit spent already) (moved_over total limit (spent +ℤ already) h₂)))
      (moved_over total balance already h₁))

available_of :
    (s : Services) (p : Policy) (t : Table) (limit spent : ℤ)
    → p.policy_type ≡ assigned_learner
    → p.spend_limit ≡ some limit
    → total_redeemed s p ≡ ok spent
    → spend_available s p t
      ≡ ok (left_over limit spent (subsidy_balance s p) (allocated_quantity p t))
unfolding spend_available base_spend_available total_allocated
available_of s p t limit spent kind limited totalled =
    let (q, e, same) = redeemed_parts s p spent totalled in rw (kind, limited, e, same) refl

-- When `can_allocate` of an assigned policy answers True, `spend_available` returns an amount that
-- covers the price of all the learners.
pub can_allocate-available :
    (s : Services) (t : Table) (p : Policy) (n key : ℕ) (price : ℤ)
    → p.policy_type ≡ assigned_learner
    → can_allocate s t p n key price ≡ ok none
    → (available : ℤ) × (spend_available s p t ≡ ok available) × (times n price ≤ℤ available)
can_allocate-available s t p n key price kind h =
    let checked = can_allocate_sound s t p n key price h in
    let room = checked.room in
    (
      left_over room.limit checked.spent (subsidy_balance s p) (allocated_quantity p t),
      available_of s p t room.limit checked.spent kind room.limited checked.totalled,
      fits_left_over room.limit checked.spent (subsidy_balance s p) (allocated_quantity p t)
          (times n price) room.fits_balance room.fits_limit,
    )
