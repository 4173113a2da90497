-- ===== src/Requests/Partition.antt =====
-- The requests that can_approve splits into valid and failed ones.
use mathlib.Core.Path.{subst}
use enterprise_access.Prelude.{
  >>=-eq-ok, Bool, Bool-cases, List, Option, Result, [], any, any-append, arith, err, filter, inl,
  inr, none, not, ok, refl, some, sym, true, ℕ, ◌++◌, ◌==◌, ◌||◌, ◌∷◌, ◌≡◌,
}
use enterprise_access.Assignments.Types.{Assignment, Error, Table}
use enterprise_access.Policy.Types.{
  Policy, PolicyType, Reason, Services, assigned_learner, per_learner_enrollment, per_learner_spend,
}
use enterprise_access.Policy.Limits.{
  allocated_quantity, bnr_enabled, is_redemption_enabled, is_subsidy_active, total_redeemed,
}
use enterprise_access.Policy.Allocation.{
  Batch, CreditRequest, FetchedPrices, batch_total, can_allocate_all, can_approve, can_approve_as,
  check_batch, check_budget, error_reason, in_catalog, price_valid, split, split_or_refuse,
  validate_prices,
}
use enterprise_access.Policy.Redeem.{LockKey, acquire_lock, lock_resource_key, same_lock, with_lock}
use enterprise_access.Requests.Approval.{
  Decision, Setting, after_checks, all_assigned, allocated_or_raised, approve_under, approve_valid,
  approve_via_policy, caught, decide, decided, is_approval_failure, policy_approve,
}

-- A request with the key is in the list.
abbrev pub holds : ℕ → List CreditRequest → Bool
holds u rs = any (λ v. v.request_uuid == u) rs

-- What a split says of the batch: nothing is lost, and nothing is added to the valid ones.
pub record Splits (rs valid failing : List CreditRequest) : Type 0 where
  pub covers : (u : ℕ) → holds u rs ≡ true → (holds u valid || holds u failing) ≡ true
  pub from_batch : (u : ℕ) → holds u valid ≡ true → holds u rs ≡ true

filter_covers :
    (f : CreditRequest → Bool) (u : ℕ) (rs : List CreditRequest)
    → holds u rs ≡ true
    → (holds u (filter f rs) || holds u (filter (λ r. not (f r)) rs)) ≡ true
filter_covers f u [] h = cc
filter_covers f u (r ∷ rs) h = ground (arith, filter_covers f u rs)

filter_within :
    (f : CreditRequest → Bool) (u : ℕ) (rs : List CreditRequest)
    → holds u (filter f rs) ≡ true
    → holds u rs ≡ true
filter_within f u [] h = cc
filter_within f u (r ∷ rs) h = ground (arith, filter_within f u rs)

three_ways :
    (a b c d e : Bool)
    → (a || b) ≡ true
    → (a ≡ true → (c || d) ≡ true)
    → e ≡ (b || d)
    → (c || e) ≡ true
three_ways a b c d e h f k = ground arith

split_of :
    (x y z a b c : List CreditRequest)
    → ◌≡◌ {A = Result Error Batch} (ok (split x y z)) (ok (split a b c))
    → (x ≡ a) × (y ≡ b) × (z ≡ c)
split_of x y z a b c h = (cc, cc, cc)

check_batch-split :
    (s : Services) (t : Table) (p : Policy) (x y z a b c : List CreditRequest)
    → check_batch s t p x y z ≡ ok (split a b c)
    → (x ≡ a) × (y ≡ b) × (z ≡ c)
unfolding check_batch
check_batch-split s t p [] y z a b c h = split_of [] y z a b c h
check_batch-split s t p (r ∷ rs) y z a b c h =
    let (spent, e, h₁) = >>=-eq-ok (total_redeemed s p) _ h in
    let (why, f, h₂) =
      >>=-eq-ok (check_budget s p (batch_total (r ∷ rs)) spent (allocated_quantity p t)) _ h₁ in
    answered why h₂
  where
    answered :
        (o : Option Reason)
        → ◌≡◌ {A = Result Error Batch} (ok (split_or_refuse o (r ∷ rs) y z)) (ok (split a b c))
        → (r ∷ rs ≡ a) × (y ≡ b) × (z ≡ c)
    answered none k = split_of (r ∷ rs) y z a b c k
    answered (some why) k = cc

can_allocate_all-Splits :
    (s : Services) (fetched : FetchedPrices) (t : Table) (p : Policy)
    (rs valid missing bad : List CreditRequest)
    → can_allocate_all s fetched t p rs ≡ ok (split valid missing bad)
    → Splits rs valid (missing ++ bad)
unfolding can_allocate_all validate_prices
can_allocate_all-Splits s fetched t p rs valid missing bad h =
    elim (Bool-cases (is_redemption_enabled p)) [
      | inr off ↦ let h₁ = rw off at h in cc
      | inl on ↦ elim (Bool-cases (is_subsidy_active s p)) [
        | inr off ↦ let h₁ = rw (on, off) at h in cc
        | inl live ↦
            let (prices, _, h₁) = >>=-eq-ok fetched _ (rw (on, live) at h) in
            let listed = filter (in_catalog prices) rs in
            let (v, m, b) =
              check_batch-split s t p (filter (price_valid prices) listed)
                (filter (λ r. not (in_catalog prices r)) rs)
                (filter (λ r. not (price_valid prices r)) listed) valid missing bad h₁ in
            rw (sym v, sym m, sym b)
              (record {
                covers = λ u k.
                    three_ways (holds u listed) _ _ _ _ (filter_covers (in_catalog prices) u rs k)
                      (λ l. filter_covers (price_valid prices) u listed l)
                      (any-append (λ x. x.request_uuid == u)
                        (filter (λ r. not (in_catalog prices r)) rs)
                        (filter (λ r. not (price_valid prices r)) listed));
                from_batch = λ u k.
                    filter_within (in_catalog prices) u rs
                      (filter_within (price_valid prices) u listed k);
              })
      ]
    ]

pub can_approve-Splits :
    (s : Services) (fetched : FetchedPrices) (t : Table) (p : Policy)
    (rs valid missing bad : List CreditRequest)
    → can_approve s fetched t p rs ≡ ok (split valid missing bad)
    → Splits rs valid (missing ++ bad)
unfolding can_approve
can_approve-Splits s fetched t p rs valid missing bad h = elim (Bool-cases (bnr_enabled p)) [
  | inr off ↦ let h₁ = rw off at h in cc
  | inl on ↦ by_class p.policy_type (rw on at h)
]
  where
    by_class :
        (k : PolicyType)
        → can_approve_as k s fetched t p rs ≡ ok (split valid missing bad)
        → Splits rs valid (missing ++ bad)
    by_class per_learner_spend e = can_allocate_all-Splits s fetched t p rs valid missing bad e
    by_class per_learner_enrollment e = cc
    by_class assigned_learner e = cc

-- A decision of the policy: the split of the batch, and an assignment for each approved request.
pub record Sound (rs valid : List CreditRequest) (affected : List Assignment)
    (failing : List CreditRequest) : Type 0 where
  pub splits : Splits rs valid failing
  pub assigned : all_assigned affected valid ≡ true

same_decision :
    (valid valid₁ : List CreditRequest) (affected affected₁ : List Assignment)
    (failing failing₁ : List CreditRequest)
    → decided valid affected failing ≡ decided valid₁ affected₁ failing₁
    → (valid ≡ valid₁) × (affected ≡ affected₁) × (failing ≡ failing₁)
same_decision valid valid₁ affected affected₁ failing failing₁ h = (cc, cc, cc)

decide-Sound :
    (rs valid valid₁ : List CreditRequest) (affected affected₁ : List Assignment)
    (failing failing₁ : List CreditRequest)
    → Splits rs valid failing
    → decide valid affected failing ≡ decided valid₁ affected₁ failing₁
    → Sound rs valid₁ affected₁ failing₁
decide-Sound rs valid valid₁ affected affected₁ failing failing₁ z h =
    elim (Bool-cases (all_assigned affected valid)) [
      | inr lost ↦ let h₁ = rw lost at h in cc
      | inl all ↦
          let h₁ = rw all at h in
          let (v, a, f) = same_decision valid valid₁ affected affected₁ failing failing₁ h₁ in
          subst (λ x. Sound rs x affected₁ failing₁) v
            (subst (λ x. Sound rs valid x failing₁) a
              (subst (λ x. Sound rs valid affected x) f (record { splits = z; assigned = all })))
    ]

ok_decision : (v w : Decision) → ◌≡◌ {A = Result Error Decision} (ok v) (ok w) → v ≡ w
ok_decision v w h = cc

approve_valid-Sound :
    (s : Setting) (p : Policy) (rs valid valid₁ failing failing₁ : List CreditRequest)
    (affected : List Assignment) (t : Table)
    → Splits rs valid failing
    → (approve_valid s p valid failing t).0 ≡ ok (decided valid₁ affected failing₁)
    → Sound rs valid₁ affected failing₁
unfolding approve_valid
approve_valid-Sound s p rs [] valid₁ failing failing₁ affected t z h =
    decide-Sound rs [] valid₁ [] affected failing failing₁ z
      (ok_decision (decided [] [] failing) (decided valid₁ affected failing₁) h)
approve_valid-Sound s p rs (r ∷ rest) valid₁ failing failing₁ affected t z h =
    by_result (policy_approve s p.assignment_configuration (r ∷ rest) t) h
  where
    by_result :
        (x : Result Error (List Assignment × Table))
        → (allocated_or_raised (r ∷ rest) failing t x).0 ≡ ok (decided valid₁ affected failing₁)
        → Sound rs valid₁ affected failing₁
    by_result (err e) k = cc
    by_result (ok (made, t₁)) k =
        decide-Sound rs (r ∷ rest) valid₁ made affected failing failing₁ z
          (ok_decision (decide (r ∷ rest) made failing) (decided valid₁ affected failing₁) k)

after_checks-Sound :
    (s : Setting) (p : Policy) (rs valid failing : List CreditRequest) (affected : List Assignment)
    (t : Table) (checked : Result Error Batch)
    → can_approve s.services s.prices t p rs ≡ checked
    → (after_checks s p t checked).0 ≡ ok (decided valid affected failing)
    → Sound rs valid affected failing
after_checks-Sound s p rs valid failing affected t (err e) c h = cc
after_checks-Sound s p rs valid failing affected t (ok (error_reason why)) c h = cc
after_checks-Sound s p rs valid failing affected t (ok (split v m b)) c h =
    approve_valid-Sound s p rs v valid (m ++ b) failing affected t
      (can_approve-Splits s.services s.prices t p rs v m b c) h

caught_decided :
    (x : Result Error Decision) (valid failing : List CreditRequest) (affected : List Assignment)
    → caught x ≡ ok (decided valid affected failing)
    → x ≡ ok (decided valid affected failing)
caught_decided (ok v) valid failing affected h = h
caught_decided (err e) valid failing affected h = elim (Bool-cases (is_approval_failure e)) [
  | inl ours ↦ let h₁ = rw ours at h in cc
  | inr other ↦ let h₁ = rw other at h in cc
]

under-Sound :
    (s : Setting) (held : List LockKey) (rs valid failing : List CreditRequest)
    (affected : List Assignment) (t : Table) (o : Option Policy)
    → (approve_under s held rs t o).0 ≡ ok (decided valid affected failing)
    → Sound rs valid affected failing
unfolding approve_under with_lock acquire_lock
under-Sound s held rs valid failing affected t none h = cc
under-Sound s held rs valid failing affected t (some p) h =
    elim (Bool-cases (any (same_lock (lock_resource_key p none none)) held)) [
      | inl taken ↦ let h₁ = rw taken at h in cc
      | inr free ↦
          let h₁ = rw free at h in
          after_checks-Sound s p rs valid failing affected t
            (can_approve s.services s.prices t p rs) refl
            (caught_decided (after_checks s p t (can_approve s.services s.prices t p rs)).0 valid
              failing affected h₁)
    ]

-- What the policy decides about a batch.
pub approve_via_policy-Sound :
    (s : Setting) (held : List LockKey) (rs valid failing : List CreditRequest)
    (affected : List Assignment) (t : Table)
    → (approve_via_policy s held rs t).0 ≡ ok (decided valid affected failing)
    → Sound rs valid affected failing
approve_via_policy-Sound s held rs valid failing affected t h =
    under-Sound s held rs valid failing affected t s.policy h
