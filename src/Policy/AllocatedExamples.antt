-- ===== src/Policy/AllocatedExamples.antt =====
-- A budget checked for three learners, and the allocation to them.
use enterprise_access.Prelude.{
  [], arith, neg, none, ok, pos, refl, some, times, ℤ, ◌*ℤ◌, ◌+ℤ◌, ◌∷◌, ◌≡◌, ◌≤ℤ◌,
}
use enterprise_access.Assignments.Lookup.{get_allocated_quantity_for_configuration}
use enterprise_access.Policy.Limits.{
  allocated_quantity, content_would_exceed_limit, get_content_price, is_redemption_enabled,
  is_subsidy_active, subsidy_balance, total_redeemed,
}
use enterprise_access.Policy.Allocation.{
  can_allocate, check_budget, in_price_interval, validate_requested_allocation_price,
}
use enterprise_access.Assignments.AllocationExamples.{
  after, allocation_run, answer, one_renewed, rows, world,
}
use enterprise_access.Policy.Allocated.{can_allocate-allocate_assignments}
use enterprise_access.Policy.Examples.{answers, budget}

checked_run : can_allocate answers rows budget 3 3 (pos 10000) ≡ ok none
unfolding can_allocate validate_requested_allocation_price in_price_interval get_content_price
    is_redemption_enabled is_subsidy_active total_redeemed check_budget content_would_exceed_limit
    allocated_quantity get_allocated_quantity_for_configuration subsidy_balance ◌+ℤ◌ ◌*ℤ◌ neg times
checked_run = refl

can_allocate-allocate_assignments_example :
    (spent : ℤ) × (limit : ℤ) × (total_redeemed answers budget ≡ ok spent)
    × (budget.spend_limit ≡ some limit)
    × (neg (allocated_quantity budget after) ≤ℤ subsidy_balance answers budget)
    × (neg (spent +ℤ allocated_quantity budget after) ≤ℤ limit)
can_allocate-allocate_assignments_example =
    can_allocate-allocate_assignments answers world budget 4 3 3 (2 ∷ 12 ∷ 8 ∷ []) (pos 10000)
      (some 99) [] rows after answer refl ((refl, tt), (tt, tt)) checked_run allocation_run
      (omega (arith, one_renewed))
