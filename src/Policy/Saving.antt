-- ===== src/Policy/Saving.antt =====
-- `save` and `delete` of a policy (subsidy_access_policy/models.py).
use mathlib.Core.Path.{subst}
use enterprise_access.Prelude.{
  ==_refl, >>=-eq-ok, Bool, Bool-cases, Option, Result, [], ap, arith, eq_of_parts, err, false,
  filter, find, if◌then◌else◌, inl, inr, is_some, leb_ℤ, ltb_ℤ, map, none, not, ok, pos, refl, some,
  sum_ℤ, sym, true, ℕ, ℤ, ◌&&◌, ◌+ℤ◌, ◌∙◌, ◌∷◌, ◌≡◌, ◌≤ℤ◌, ◌⊎◌,
}
use enterprise_access.Assignments.Types.{Error, validation_error}
use enterprise_access.Policy.Types.{
  Policy, PolicyType, Services, assigned_learner, per_learner_enrollment, per_learner_spend,
}
use enterprise_access.Policy.Limits.{or_zero, total_deposits_for_subsidy, total_redeemed}
use enterprise_access.Policy.Lifecycle.{
  Policies, base_clean, clean, clean_as, constraints_of, delete, is_row, is_sibling,
  limit_or_active_updated, limits, prepare_as, same_flag, same_limit, save, spend_limit_invalid,
  store, total_spend_limits_for_subsidy, track_retired, validate_budget_deactivation_with_spend,
}

-- The record that `save` validates and writes.
abbrev pub prepared : Services → ℕ → Policy → Policy
prepared s fresh p = track_retired s.now (prepare_as p.policy_type fresh p)

-- The columns that a class wants set or null.
abbrev pub Constrained : PolicyType → Policy → Type 0
Constrained per_learner_enrollment p =
    (p.per_learner_spend_limit ≡ none) × (p.assignment_configuration ≡ none)
Constrained per_learner_spend p = p.per_learner_enrollment_limit ≡ none
Constrained assigned_learner p =
    ((limit : ℤ) × (p.spend_limit ≡ some limit))
    × (p.per_learner_spend_limit ≡ none)
    × (p.per_learner_enrollment_limit ≡ none)

-- The limits of the subsidy's active policies sum up to its deposits at most; it is not asked of an
-- inactive or a new policy, nor of one with the stored activity and limit.
abbrev pub WithinDeposits : Services → Policies → Policy → Type 0
WithinDeposits s db p =
    (p.active ≡ false)
    ⊎ (find (is_row p) db ≡ none)
    ⊎ ((q : Policy) × (find (is_row p) db ≡ some q)
        × (q.active ≡ p.active)
        × (q.spend_limit ≡ p.spend_limit))
    ⊎ (or_zero p.spend_limit +ℤ sum_ℤ (map (λ q. or_zero q.spend_limit) (filter (is_sibling p) db))
        ≤ℤ total_deposits_for_subsidy s p)

-- A policy that its class allows.
pub record IsAllowed (s : Services) (db : Policies) (p : Policy) : Type 0 where
  pub constrained : Constrained p.policy_type p
  pub within_deposits : WithinDeposits s db p

null_lem {ℓ} : {A : Type ℓ} (x : Option A) → not (is_some x) ≡ true → x ≡ none
null_lem none h = refl
null_lem (some a) h = cc

set_lem {ℓ} : {A : Type ℓ} (x : Option A) → is_some x ≡ true → (a : A) × (x ≡ some a)
set_lem none h = cc
set_lem (some a) h = (a, refl)

constraints-Constrained :
    (T : PolicyType) (p : Policy) → constraints_of T p ≡ true → Constrained T p
constraints-Constrained per_learner_enrollment p h = (
  null_lem p.per_learner_spend_limit (ground (arith, h)),
  null_lem p.assignment_configuration (ground (arith, h)),
)
constraints-Constrained per_learner_spend p h = null_lem p.per_learner_enrollment_limit h
constraints-Constrained assigned_learner p h = (
  set_lem p.spend_limit (ground (arith, h)),
  null_lem p.per_learner_spend_limit (ground (arith, h)),
  null_lem p.per_learner_enrollment_limit (ground (arith, h)),
)

same_flag_lem : (a b : Bool) → same_flag a b ≡ true → a ≡ b
same_flag_lem true b h = sym h
same_flag_lem false true h = cc
same_flag_lem false false h = refl

same_limit_lem : (a b : Option ℤ) → same_limit a b ≡ true → a ≡ b
same_limit_lem none none h = refl
same_limit_lem none (some b) h = cc
same_limit_lem (some a) none h = cc
same_limit_lem (some a) (some b) h = ap some (antisym a b h)
  where
    antisym : (x y : ℤ) → (leb_ℤ x y && leb_ℤ y x) ≡ true → x ≡ y
    antisym x y k = eq_of_parts x y (ground (arith, k))

active_limits :
    (db : Policies) (p : Policy)
    → p.active ≡ true
    → total_spend_limits_for_subsidy db p
      ≡ or_zero p.spend_limit +ℤ sum_ℤ (map (λ q. or_zero q.spend_limit) (filter (is_sibling p) db))
unfolding total_spend_limits_for_subsidy
active_limits db p on = go p.active on
  where
    go :
        (b : Bool)
        → b ≡ true
        → (if b then or_zero p.spend_limit else pos 0) +ℤ sum_ℤ (limits (filter (is_sibling p) db))
          ≡ or_zero p.spend_limit
            +ℤ sum_ℤ (map (λ q. or_zero q.spend_limit) (filter (is_sibling p) db))
    go true h = refl
    go false h = cc

unchanged_or_checked :
    (s : Services) (db : Policies) (p : Policy) (stored : Option Policy)
    → find (is_row p) db ≡ stored
    → p.active ≡ true
    → (limit_or_active_updated stored p
        && ltb_ℤ (total_deposits_for_subsidy s p) (total_spend_limits_for_subsidy db p))
      ≡ false
    → WithinDeposits s db p
unchanged_or_checked s db p none e on h = inr (inl e)
unchanged_or_checked s db p (some q) e on h =
    elim (Bool-cases (same_flag q.active p.active && same_limit q.spend_limit p.spend_limit)) [
      | inl same ↦ inr (
          inr (
            inl (
              q,
              e,
              same_flag_lem q.active p.active (ground (arith, same)),
              same_limit_lem q.spend_limit p.spend_limit (ground (arith, same)),
            )))
      | inr other ↦
          let over : ltb_ℤ (total_deposits_for_subsidy s p) (total_spend_limits_for_subsidy db p)
              ≡ false =
            ground (arith, other, h) in
          inr (
            inr (
              inr (
                subst (λ x. x ≤ℤ total_deposits_for_subsidy s p) (active_limits db p on)
                  (not_over (total_deposits_for_subsidy s p) (total_spend_limits_for_subsidy db p)
                    over))))
    ]
  where
    not_over : (x y : ℤ) → ltb_ℤ x y ≡ false → y ≤ℤ x
    not_over x y k = ground (arith, k)

valid-WithinDeposits :
    (s : Services) (db : Policies) (p : Policy)
    → spend_limit_invalid s db p ≡ false
    → WithinDeposits s db p
unfolding spend_limit_invalid
valid-WithinDeposits s db p h = elim (Bool-cases p.active) [
  | inl on ↦ unchanged_or_checked s db p (find (is_row p) db) refl on (ground (arith, on, h))
  | inr off ↦ inl off
]

prepare_same :
    (T : PolicyType) (fresh : ℕ) (p : Policy)
    → ((prepare_as T fresh p).uuid ≡ p.uuid)
      × ((prepare_as T fresh p).subsidy_uuid ≡ p.subsidy_uuid)
      × ((prepare_as T fresh p).active ≡ p.active)
      × ((prepare_as T fresh p).policy_type ≡ p.policy_type)
prepare_same per_learner_enrollment fresh p = (refl, refl, refl, refl)
prepare_same per_learner_spend fresh p = ground arith
prepare_same assigned_learner fresh p = ground arith

track_same :
    (now : ℕ) (p : Policy)
    → ((track_retired now p).uuid ≡ p.uuid)
      × ((track_retired now p).subsidy_uuid ≡ p.subsidy_uuid)
      × ((track_retired now p).active ≡ p.active)
      × ((track_retired now p).policy_type ≡ p.policy_type)
unfolding track_retired
track_same now p = ground arith

base_cleaned :
    (bypass : Bool) (s : Services) (db : Policies) (p : Policy)
    → base_clean bypass s db p ≡ ok tt
    → IsAllowed s db p
unfolding base_clean
base_cleaned bypass s db p h =
    let (_, _, h₁) = >>=-eq-ok (validate_budget_deactivation_with_spend bypass s db p) _ h in
    record {
      constrained = constraints-Constrained p.policy_type p (ground (arith, h₁));
      within_deposits = valid-WithinDeposits s db p (ground (arith, h₁));
    }

cleaned :
    (T : PolicyType) (bypass : Bool) (requests_enabled : Option Bool) (s : Services) (db : Policies)
    (p : Policy)
    → clean_as T bypass requests_enabled s db p ≡ ok tt
    → base_clean bypass s db p ≡ ok tt
cleaned per_learner_enrollment bypass requests_enabled s db p h = h
cleaned per_learner_spend bypass requests_enabled s db p h =
    let (u, e, _) = >>=-eq-ok (base_clean bypass s db p) _ h in e
cleaned assigned_learner bypass requests_enabled s db p h = h

find-store : (p : Policy) (db : Policies) → find (is_row p) (store p db) ≡ some p
unfolding store
find-store p [] = rw (==_refl p.uuid) refl
find-store p (q ∷ db) = elim (Bool-cases (is_row p q)) [
  | inl same ↦ rw (same, ==_refl p.uuid) refl
  | inr other ↦ rw (other, other) (find-store p db)
]

found_stored :
    (r : Policy) (db db' : Policies)
    → ◌≡◌ {A = Result Error Policies} (ok (store r db)) (ok db')
    → find (is_row r) db' ≡ some r
found_stored r db db' h =
    let same : store r db ≡ db' = cc in
    subst (λ t. find (is_row r) t ≡ some r) same (find-store r db)

-- A save that returns has written the prepared record. Its columns are set and null as its class
-- wants them: a policy on the number of enrollments has neither a spend limit per learner nor an
-- assignment configuration, one on the spend of a learner has no limit of enrollments, and an
-- assigned one has a spend limit and no limit per learner. And its spend limit with those of the
-- subsidy's other active policies is within the deposits, unless the record is inactive, or new,
-- or has the stored activity and spend limit.
pub save-IsAllowed :
    (bypass : Bool) (requests_enabled : Option Bool) (s : Services) (fresh : ℕ) (p : Policy)
    (db db' : Policies)
    → save bypass requests_enabled s fresh p db ≡ ok db'
    → (find (is_row (prepared s fresh p)) db' ≡ some (prepared s fresh p))
      × IsAllowed s db (prepared s fresh p)
unfolding save clean
save-IsAllowed bypass requests_enabled s fresh p db db' h =
    let ready = prepared s fresh p in
    let (u, e, written) =
      >>=-eq-ok (clean_as ready.policy_type bypass requests_enabled s db ready) _ h in
    (
      found_stored ready db db' written,
      base_cleaned bypass s db ready
          (cleaned ready.policy_type bypass requests_enabled s db ready e),
    )

total_redeemed_same :
    (s : Services) (p r : Policy)
    → r.uuid ≡ p.uuid
    → r.subsidy_uuid ≡ p.subsidy_uuid
    → total_redeemed s r ≡ total_redeemed s p
unfolding total_redeemed
total_redeemed_same s p r e e₁ = rw (e, e₁) refl

refused_cleaning :
    (T : PolicyType) (requests_enabled : Option Bool) (s : Services) (db : Policies) (r : Policy)
    → validate_budget_deactivation_with_spend false s db r ≡ err validation_error
    → clean_as T false requests_enabled s db r ≡ err validation_error
unfolding base_clean
refused_cleaning per_learner_enrollment requests_enabled s db r h = rw h refl
refused_cleaning per_learner_spend requests_enabled s db r h = rw h refl
refused_cleaning assigned_learner requests_enabled s db r h = rw h refl

is_row_same :
    (p r : Policy) (db : Policies) → r.uuid ≡ p.uuid → find (is_row r) db ≡ find (is_row p) db
is_row_same p r db e = rw e refl

refused_deactivation :
    (s : Services) (db : Policies) (p q r : Policy) (total : ℤ)
    → r.uuid ≡ p.uuid
    → r.subsidy_uuid ≡ p.subsidy_uuid
    → r.active ≡ false
    → find (is_row p) db ≡ some q
    → q.active ≡ true
    → total_redeemed s p ≡ ok total
    → ltb_ℤ total (pos 0) ≡ true
    → validate_budget_deactivation_with_spend false s db r ≡ err validation_error
unfolding validate_budget_deactivation_with_spend
refused_deactivation s db p q r total e e₁ off found on totalled spent =
    rw
      (
        off,
        is_row_same p r db e,
        found,
        on,
        total_redeemed_same s p (record r { active = false }) e e₁,
        totalled,
        spent,
      )
      refl

-- A stored, active budget that has been spent from cannot be deleted, that is deactivated, unless
-- the check is bypassed: the call raises ValidationError, and so writes nothing.
pub delete-spent :
    (requests_enabled : Option Bool) (s : Services) (fresh : ℕ) (p q : Policy) (db : Policies)
    (total : ℤ)
    → p.active ≡ true
    → find (is_row p) db ≡ some q
    → q.active ≡ true
    → total_redeemed s p ≡ ok total
    → ltb_ℤ total (pos 0) ≡ true
    → delete false requests_enabled s fresh p db ≡ err validation_error
unfolding delete save clean
delete-spent requests_enabled s fresh p q db total live found on totalled spent =
    let off = record p { active = false } in
    let first = prepare_same p.policy_type fresh off in
    let then_ = track_same s.now (prepare_as p.policy_type fresh off) in
    rw
      (
        live,
        refused_cleaning (prepared s fresh off).policy_type requests_enabled s db
            (prepared s fresh off)
            (refused_deactivation s db p q (prepared s fresh off) total (then_.0 ∙ first.0)
              (then_.1 ∙ first.1) (then_.2 ∙ first.2) found on totalled spent),
      )
      refl
