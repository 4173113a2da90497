-- ===== src/Policy/Batches.antt =====
-- `can_allocate_all` on a batch of credit requests (subsidy_access_policy/models.py).
use enterprise_access.Prelude.{
  >>=-eq-ok, All, Bool, Bool-cases, List, Option, Result, [], ap, arith, false, filter,
  if◌then◌else◌, inl, inr, length, none, not, ok, pos, refl, some, true, ℤ, ◌+◌, ◌∙◌, ◌∷◌, ◌≡◌,
  ◌≤ℤ◌,
}
use enterprise_access.Assignments.Types.{Error, Table}
use enterprise_access.Policy.Types.{Policy, Reason, Services}
use enterprise_access.Policy.Limits.{
  allocated_quantity, is_redemption_enabled, is_subsidy_active, total_redeemed,
}
use enterprise_access.Policy.Allocation.{
  Batch, CatalogPrices, CreditRequest, FetchedPrices, batch_total, can_allocate_all, check_batch,
  check_budget, error_reason, in_catalog, in_price_interval, price_fits, price_valid, split,
  split_or_refuse, validate_prices,
}
use enterprise_access.Policy.Budget.{HasRoom, check_budget-HasRoom}

-- The price of a request is not negative and near the catalog's price of its course.
pub record IsPriced (prices : CatalogPrices) (r : CreditRequest) : Type 0 where
  pub canonical : ℤ
  pub listed : prices r.course_id ≡ some canonical
  pub nonnegative : pos 0 ≤ℤ r.course_price
  pub near : in_price_interval canonical r.course_price ≡ true

price_fits_lem :
    (canonical : Option ℤ) (requested : ℤ)
    → price_fits canonical requested ≡ true
    → (c : ℤ) × (canonical ≡ some c) × (in_price_interval c requested ≡ true)
price_fits_lem none requested h = cc
price_fits_lem (some c) requested h = (c, refl, h)

price_valid-IsPriced :
    (prices : CatalogPrices) (r : CreditRequest) → price_valid prices r ≡ true → IsPriced prices r
price_valid-IsPriced prices r h =
    let (c, listed, near) = price_fits_lem (prices r.course_id) r.course_price (ground arith) in
    record { canonical = c; listed = listed; nonnegative = ground arith; near = near }

filter-IsPriced :
    (prices : CatalogPrices) (rs : List CreditRequest)
    → All (IsPriced prices) (filter (price_valid prices) rs)
filter-IsPriced prices [] = tt
filter-IsPriced prices (r ∷ rs) = elim (Bool-cases (price_valid prices r)) [
  | inl yes_valid ↦
      rw yes_valid (price_valid-IsPriced prices r yes_valid, filter-IsPriced prices rs)
  | inr not_valid ↦ rw not_valid (filter-IsPriced prices rs)
]

filter_partition :
    (f : CreditRequest → Bool) (rs : List CreditRequest)
    → length (filter f rs) + length (filter (λ r. not (f r)) rs) ≡ length rs
filter_partition f [] = omega arith
filter_partition f (r ∷ rs) = ground (arith, filter_partition f rs)

-- The room that a batch needs; an empty one needs none.
abbrev pub BatchRoom : Services → Table → Policy → List CreditRequest → Type 0
BatchRoom s t p [] = Unit {0}
BatchRoom s t p (r ∷ rs) =
    (spent : ℤ) × (total_redeemed s p ≡ ok spent)
    × HasRoom s p (batch_total (r ∷ rs)) spent (allocated_quantity p t)

-- The three lists of a batch that is not refused as a whole.
abbrev pub SameSplit : (x y z a b c : List CreditRequest) → Type 0
SameSplit x y z a b c = (x ≡ a) × (y ≡ b) × (z ≡ c)

split_injective :
    (x y z a b c : List CreditRequest)
    → ◌≡◌ {A = Result Error Batch} (ok (split x y z)) (ok (split a b c))
    → SameSplit x y z a b c
split_injective x y z a b c h = (cc, cc, cc)

split_or_refuse_lem :
    (why : Option Reason) (x y z a b c : List CreditRequest)
    → ◌≡◌ {A = Result Error Batch} (ok (split_or_refuse why x y z)) (ok (split a b c))
    → (why ≡ none) × SameSplit x y z a b c
split_or_refuse_lem none x y z a b c h = (refl, split_injective x y z a b c h)
split_or_refuse_lem (some why) x y z a b c h = cc

check_batch_sound :
    (s : Services) (t : Table) (p : Policy) (x y z a b c : List CreditRequest)
    → check_batch s t p x y z ≡ ok (split a b c)
    → BatchRoom s t p x × SameSplit x y z a b c
unfolding check_batch
check_batch_sound s t p [] y z a b c h = (tt, split_injective [] y z a b c h)
check_batch_sound s t p (r ∷ rs) y z a b c h =
    let (spent, e, h₁) = >>=-eq-ok (total_redeemed s p) _ h in
    let (why, room, h₂) =
      >>=-eq-ok (check_budget s p (batch_total (r ∷ rs)) spent (allocated_quantity p t)) _ h₁ in
    let (fine, same) = split_or_refuse_lem why (r ∷ rs) y z a b c h₂ in
    ((spent, e, check_budget-HasRoom s p _ spent _ (room ∙ ap ok fine)), same)

-- What `can_allocate_all` has established when it splits a batch.
pub record IsSplit (s : Services) (fetched : FetchedPrices) (t : Table) (p : Policy)
    (rs valid missing bad : List CreditRequest) : Type 0 where
  pub enabled : is_redemption_enabled p ≡ true
  pub subsidy_active : is_subsidy_active s p ≡ true
  pub prices : CatalogPrices
  pub answered : fetched ≡ ok prices
  pub priced : All (IsPriced prices) valid
  pub complete : length valid + length missing + length bad ≡ length rs
  pub room : BatchRoom s t p valid

batch_refused :
    (b : Bool) (why : Reason) (rest : Result Error Batch) (a c d : List CreditRequest)
    → (if not b then ok (error_reason why) else rest) ≡ ok (split a c d)
    → (b ≡ true) × (rest ≡ ok (split a c d))
batch_refused true why rest a c d h = (refl, h)
batch_refused false why rest a c d h = cc

-- When `can_allocate_all` splits a batch, the policy and its subsidy are active, the prices of the
-- catalog were fetched, every valid
-- request has a price that is not negative and near the catalog's, the three lists together are as
-- long as the batch, and the total price of the valid requests fits beside what is spent and
-- allocated into the balance and the spend limit (unless no request is valid).
pub can_allocate_all_sound :
    (s : Services) (fetched : FetchedPrices) (t : Table) (p : Policy)
    (rs valid missing bad : List CreditRequest)
    → can_allocate_all s fetched t p rs ≡ ok (split valid missing bad)
    → IsSplit s fetched t p rs valid missing bad
unfolding can_allocate_all validate_prices
can_allocate_all_sound s fetched t p rs valid missing bad h =
    let (on, h₁) = batch_refused (is_redemption_enabled p) _ _ valid missing bad h in
    let (live, h₂) = batch_refused (is_subsidy_active s p) _ _ valid missing bad h₁ in
    let (prices, answered, h₃) = >>=-eq-ok fetched _ h₂ in
    let known = filter (in_catalog prices) rs in
    let (room, (e₁, e₂, e₃)) = check_batch_sound s t p _ _ _ valid missing bad h₃ in
    record {
      enabled = on;
      subsidy_active = live;
      prices = prices;
      answered = answered;
      priced = rw (← e₁) (filter-IsPriced prices known);
      complete =
          rw (← e₁, ← e₂, ← e₃)
            (omega (
              arith,
              filter_partition (price_valid prices) known,
              filter_partition (in_catalog prices) rs,
            ));
      room = rw (← e₁) room;
    }
