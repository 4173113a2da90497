-- ===== src/Policy/Allocated.antt =====
-- can_allocate followed by allocate_assignments: the budget in the new table.
use enterprise_access.Prelude.{
  List, Option, arith, filter, int_laws, length, neg, none, ok, pos, some, suc, times, times-suc,
  times-zero, zero, ℕ, ℤ, ◌+ℤ◌, ◌+◌, ◌≡◌, ◌≤ℤ◌, ◌≤◌,
}
use enterprise_access.Assignments.Types.{Table}
use enterprise_access.Assignments.Allocate.{Allocation, Environment, allocate_assignments}
use enterprise_access.Assignments.PreparedRows.{Distinct}
use enterprise_access.Assignments.Coverage.{existing_of}
use enterprise_access.Assignments.RowEffects.{renewable}
use enterprise_access.Assignments.Conservation.{allocate_assignments-conserves}
use enterprise_access.Policy.Types.{Policy, Services}
use enterprise_access.Policy.Limits.{allocated_quantity, subsidy_balance, total_redeemed}
use enterprise_access.Policy.Allocation.{can_allocate}
use enterprise_access.Policy.Budget.{can_allocate_sound}

times_nonneg : (n : ℕ) (price : ℤ) → pos 0 ≤ℤ price → pos 0 ≤ℤ times n price
times_nonneg zero price low = rw (times-zero price) (omega arith)
times_nonneg (suc n) price low =
    rw (times-suc n price) (omega (int_laws, times_nonneg n price low, low))

-- Money taken out for some of the learners stays within what was checked for all of them.
taken_of :
    (m n : ℕ) (price : ℤ) → m ≤ n → pos 0 ≤ℤ price → neg (times m (neg price)) ≤ℤ times n price
taken_of zero n price h low =
    rw (times-zero (neg price)) (omega (int_laws, times_nonneg n price low))
taken_of (suc m) zero price h low = omega (arith, h)
taken_of (suc m) (suc n) price h low =
    rw (times-suc m (neg price), times-suc n price)
      (omega (int_laws, taken_of m n price (omega (arith, h)) low, low))

within_room : (a x y l : ℤ) → neg x ≤ℤ y → neg a +ℤ y ≤ℤ l → neg (a +ℤ x) ≤ℤ l
within_room a x y l h k = omega (int_laws, h, k)

regrouped : (s a x : ℤ) → s +ℤ (a +ℤ x) ≡ s +ℤ a +ℤ x
regrouped s a x = omega int_laws

-- After a positive answer of can_allocate for some number of learners, an allocation at the same
-- price on the same table, whose rows have distinct primary keys, that makes no more allocations
-- than this number leaves a table whose allocated quantity is within the subsidy's balance, and,
-- with what is spent, within the policy's spend limit, which exists.
pub can_allocate-allocate_assignments :
    (s : Services) (env : Environment) (p : Policy) (config n key : ℕ) (emails : List ℕ) (price : ℤ)
    (admin : Option ℕ) (known : List ℕ) (t t' : Table) (r : Allocation)
    → p.assignment_configuration ≡ some config
    → Distinct t
    → can_allocate s t p n key price ≡ ok none
    → allocate_assignments env config emails key price admin known t ≡ ok (r, t')
    → length (filter (renewable (existing_of env config known emails key t)) t) + length r.created
      ≤ n
    → (spent : ℤ) × (limit : ℤ) × (total_redeemed s p ≡ ok spent)
      × (p.spend_limit ≡ some limit)
      × (neg (allocated_quantity p t') ≤ℤ subsidy_balance s p)
      × (neg (spent +ℤ allocated_quantity p t') ≤ℤ limit)
unfolding allocated_quantity
can_allocate-allocate_assignments s env p config n key emails price admin known t t' r configured
      apart admitted made counted =
    let checked = can_allocate_sound s t p n key price admitted in
    let m =
      length (filter (renewable (existing_of env config known emails key t)) t)
      + length r.created in
    let x = times m (neg price) in
    let already = allocated_quantity p t in
    let after : allocated_quantity p t' ≡ already +ℤ x =
      rw configured (
        allocate_assignments-conserves env config emails key price admin known t t' r apart made) in
    let taken = taken_of m n price counted checked.nonnegative in
    (
      checked.spent,
      checked.room.limit,
      checked.totalled,
      checked.room.limited,
      rw after (
          within_room already x (times n price) (subsidy_balance s p) taken
            checked.room.fits_balance),
      rw (after, regrouped checked.spent already x)
          (within_room (checked.spent +ℤ already) x (times n price) checked.room.limit taken
            checked.room.fits_limit),
    )
