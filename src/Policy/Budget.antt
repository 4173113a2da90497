-- ===== src/Policy/Budget.antt =====
-- `can_allocate` and the budgets of the subsidy and of the policy.
use enterprise_access.Prelude.{
  >>=-eq-ok, Bool, Bool-cases, Option, Result, ap, arith, false, if◌then◌else◌, inl, inr, ltb_ℤ,
  neg, none, not, ok, pos, refl, some, times, true, ℕ, ℤ, ◌+ℤ◌, ◌∙◌, ◌≡◌, ◌≤ℤ◌,
}
use enterprise_access.Assignments.Types.{Error, Table}
use enterprise_access.Policy.Types.{Policy, Reason, Services}
use enterprise_access.Policy.Limits.{
  allocated_quantity, content_would_exceed_limit, get_content_price, is_redemption_enabled,
  is_subsidy_active, subsidy_balance, total_redeemed,
}
use enterprise_access.Policy.Allocation.{
  can_allocate, check_budget, check_limit, in_price_interval, validate_requested_allocation_price,
}

-- What is allocated already and spent already leaves room for a total.
pub record HasRoom (s : Services) (p : Policy) (total spent already : ℤ) : Type 0 where
  pub limit : ℤ
  pub limited : p.spend_limit ≡ some limit
  pub already_nonpositive : already ≤ℤ pos 0
  pub spent_nonpositive : spent +ℤ already ≤ℤ pos 0
  pub fits_balance : neg already +ℤ total ≤ℤ subsidy_balance s p
  pub fits_limit : neg (spent +ℤ already) +ℤ total ≤ℤ limit

within :
    (spent limit price : ℤ) (b : Bool)
    → content_would_exceed_limit spent limit price ≡ ok b
    → b ≡ false
    → (spent ≤ℤ pos 0) × (neg spent +ℤ price ≤ℤ limit)
unfolding content_would_exceed_limit
within spent limit price b h e = ground arith

not_refused :
    (b : Bool) (why : Reason) (rest : Result Error (Option Reason))
    → (if b then ok (some why) else rest) ≡ ok none
    → (b ≡ false) × (rest ≡ ok none)
not_refused true why rest h = ground arith
not_refused false why rest h = (refl, h)

check_limit_sound :
    (limit : Option ℤ) (used total : ℤ)
    → check_limit limit used total ≡ ok none
    → (l : ℤ) × (limit ≡ some l) × (used ≤ℤ pos 0) × (neg used +ℤ total ≤ℤ l)
check_limit_sound none used total h =
    let (b, e, h₁) = >>=-eq-ok (content_would_exceed_limit used (pos 0) total) _ h in cc
check_limit_sound (some l) used total h =
    let (b, e, h₁) = >>=-eq-ok (content_would_exceed_limit used l total) _ h in
    let fit = within used l total b e (ground arith) in (l, refl, fit.0, fit.1)

-- An allocation check that finds no reason against it leaves room in the subsidy's balance and in
-- the policy's spend limit, which then exists.
pub check_budget-HasRoom :
    (s : Services) (p : Policy) (total spent already : ℤ)
    → check_budget s p total spent already ≡ ok none
    → HasRoom s p total spent already
unfolding check_budget
check_budget-HasRoom s p total spent already h =
    let (over, e, h₁) =
      >>=-eq-ok (content_would_exceed_limit already (subsidy_balance s p) total) _ h in
    let (fits, h₂) = not_refused over _ _ h₁ in
    let balance = within already (subsidy_balance s p) total over e fits in
    let (l, limited, low, high) = check_limit_sound p.spend_limit (spent +ℤ already) total h₂ in
    record {
      limit = l;
      limited = limited;
      already_nonpositive = balance.0;
      spent_nonpositive = low;
      fits_balance = balance.1;
      fits_limit = high;
    }

-- What `can_allocate` has checked when it answers True.
pub record IsAllocatable (s : Services) (t : Table) (p : Policy) (n key : ℕ) (price : ℤ)
    : Type 0 where
  pub nonnegative : pos 0 ≤ℤ price
  pub canonical : ℤ
  pub priced : get_content_price s p key ≡ ok canonical
  pub near : in_price_interval canonical price ≡ true
  pub enabled : is_redemption_enabled p ≡ true
  pub catalogued : s.catalog_contains p.catalog_uuid key ≡ ok true
  pub subsidy_active : is_subsidy_active s p ≡ true
  pub spent : ℤ
  pub totalled : total_redeemed s p ≡ ok spent
  pub room : HasRoom s p (times n price) spent (allocated_quantity p t)

price_checked :
    (s : Services) (p : Policy) (key : ℕ) (price : ℤ) {u : Unit {0}}
    → validate_requested_allocation_price s p key price ≡ ok u
    → (pos 0 ≤ℤ price)
      × (c : ℤ) × (get_content_price s p key ≡ ok c)
      × (in_price_interval c price ≡ true)
unfolding validate_requested_allocation_price
price_checked s p key price h = elim (Bool-cases (ltb_ℤ price (pos 0))) [
  | inl low ↦ ground arith
  | inr fine ↦
      let (c, e, h₁) = >>=-eq-ok (get_content_price s p key) _ (rw fine at h) in
      (ground arith, c, e, ground arith)
]

not_refused_unless :
    (b : Bool) (why : Reason) (rest : Result Error (Option Reason))
    → (if not b then ok (some why) else rest) ≡ ok none
    → (b ≡ true) × (rest ≡ ok none)
not_refused_unless true why rest h = (refl, h)
not_refused_unless false why rest h = ground arith

-- When `can_allocate` answers True, the price is not negative and near the canonical price, the
-- policy and its subsidy are active, the content is in the catalog, and the total price of all
-- learners fits beside what is spent and allocated into the balance and the spend limit.
pub can_allocate_sound :
    (s : Services) (t : Table) (p : Policy) (n key : ℕ) (price : ℤ)
    → can_allocate s t p n key price ≡ ok none
    → IsAllocatable s t p n key price
unfolding can_allocate
can_allocate_sound s t p n key price h =
    let (u, e, h₁) = >>=-eq-ok (validate_requested_allocation_price s p key price) _ h in
    let (low, c, priced, near) = price_checked s p key price e in
    let (on, h₂) = not_refused_unless (is_redemption_enabled p) _ _ h₁ in
    let (found, f, h₃) = >>=-eq-ok (s.catalog_contains p.catalog_uuid key) _ h₂ in
    let (inside, h₄) = not_refused_unless found _ _ h₃ in
    let (live, h₅) = not_refused_unless (is_subsidy_active s p) _ _ h₄ in
    let (spent, r, h₆) = >>=-eq-ok (total_redeemed s p) _ h₅ in
    record {
      nonnegative = low;
      canonical = c;
      priced = priced;
      near = near;
      enabled = on;
      catalogued = f ∙ ap ok inside;
      subsidy_active = live;
      spent = spent;
      totalled = r;
      room = check_budget-HasRoom s p (times n price) spent (allocated_quantity p t) h₆;
    }
