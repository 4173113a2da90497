-- ===== src/Policy/Redeemability.antt =====
-- The generic checks of `can_redeem` against a description of what a redeemable request is.
use enterprise_access.Prelude.{
  >>=-eq-ok, Bool, List, Option, Result, [], any, ap, arith, false, if◌then◌else◌, inl, inr, neg,
  none, not, ok, pos, refl, some, true, ℕ, ℤ, ◌+ℤ◌, ◌==◌, ◌>>=◌, ◌||◌, ◌∙◌, ◌∷◌, ◌≡◌, ◌≤ℤ◌, ◌⊎◌,
}
use enterprise_access.Assignments.Types.{Error, Summary}
use enterprise_access.Policy.Types.{
  Policy, Reason, Services, SubsidyReply, Transaction, Verdict, beyond_enrollment_deadline, refuse,
}
use enterprise_access.Policy.Limits.{
  content_would_exceed_limit, exceeds_limit, is_late_redemption_allowed, is_redemption_enabled,
  price_of, total_redeemed, will_exceed_spend_limit,
}
use enterprise_access.Policy.CanRedeem.{
  base_can_redeem, beyond_deadline, check_content, check_metadata, check_subsidy, deadline_passed,
  group_check, includes_learner,
}

-- The learner has a record at the customer, and shares a group with the policy if it has any.
pub record IsMember (s : Services) (p : Policy) (u : ℕ) : Type 0 where
  pub groups : List ℕ
  pub recorded : s.learner_record p.enterprise_customer_uuid u ≡ ok (some groups)
  pub shared :
      (s.policy_groups p.uuid ≡ [])
      ⊎ (any (λ x. any (λ y. x == y) groups) (s.policy_groups p.uuid) ≡ true)

-- The spend so far and the price fit into a policy-wide limit.
pub record FitsLimit (s : Services) (p : Policy) (m : Summary) (limit : ℤ) : Type 0 where
  pub price : ℤ
  pub spent : ℤ
  pub priced : m.content_price ≡ some price
  pub totalled : total_redeemed s p ≡ ok spent
  pub nonpositive : spent ≤ℤ pos 0
  pub fits : neg spent +ℤ price ≤ℤ limit

abbrev pub WithinLimit : Services → Policy → Summary → Option ℤ → Type 0
WithinLimit s p m none = Unit {0}
WithinLimit s p m (some limit) = FitsLimit s p m limit

-- What must hold for a redemption, apart from a class's own limits.
pub record IsRedeemable (s : Services) (p : Policy) (u key : ℕ) (skip_user skip_deadline : Bool)
    (ts : List Transaction) : Type 0 where
  pub enabled : p.active ≡ true
  pub not_retired : p.retired ≡ false
  pub member : (skip_user ≡ true) ⊎ IsMember s p u
  pub catalogued : s.catalog_contains p.catalog_uuid key ≡ ok true
  pub summary : Summary
  pub described : s.content_metadata p.enterprise_customer_uuid key ≡ ok (some summary)
  pub in_time :
      (skip_deadline ≡ true)
      ⊎ (is_late_redemption_allowed s p ≡ true)
      ⊎ (deadline_passed s.now summary ≡ ok false)
  pub funded :
      s.subsidy_can_redeem p.subsidy_uuid u key
      ≡ ok (record { reply_active = true; reply_can_redeem = true; all_transactions = ts })
  pub within_limit : WithinLimit s p summary p.spend_limit

would_exceed_false :
    (spent limit price : ℤ)
    → content_would_exceed_limit spent limit price ≡ ok false
    → (spent ≤ℤ pos 0) × (neg spent +ℤ price ≤ℤ limit)
unfolding content_would_exceed_limit
would_exceed_false spent limit price h = ground arith

fits_would_exceed :
    (spent limit price : ℤ)
    → spent ≤ℤ pos 0
    → neg spent +ℤ price ≤ℤ limit
    → content_would_exceed_limit spent limit price ≡ ok false
unfolding content_would_exceed_limit
fits_would_exceed spent limit price a b = ground arith

price_of_ok :
    (m : Summary) (price : ℤ) → price_of (some m) ≡ ok price → m.content_price ≡ some price
price_of_ok m price h = ground arith

limit-WithinLimit :
    (s : Services) (p : Policy) (m : Summary) (limit : Option ℤ)
    → exceeds_limit s p m limit ≡ ok false
    → WithinLimit s p m limit
limit-WithinLimit s p m none h = tt
limit-WithinLimit s p m (some limit) h =
    let (price, priced, h₁) = >>=-eq-ok (price_of (some m)) _ h in
    let (spent, totalled, h₂) = >>=-eq-ok (total_redeemed s p) _ h₁ in
    let fit = would_exceed_false spent limit price h₂ in
    record {
      price = price;
      spent = spent;
      priced = price_of_ok m price priced;
      totalled = totalled;
      nonpositive = fit.0;
      fits = fit.1;
    }

pub WithinLimit-limit :
    (s : Services) (p : Policy) (m : Summary) (limit : Option ℤ)
    → WithinLimit s p m limit
    → exceeds_limit s p m limit ≡ ok false
WithinLimit-limit s p m none h = refl
WithinLimit-limit s p m (some limit) h =
    rw (h.priced, h.totalled) (fits_would_exceed h.spent limit h.price h.nonpositive h.fits)

subsidy_sound :
    (s : Services) (p : Policy) (m : Summary) (reply : SubsidyReply) (v : Verdict)
    → check_subsidy s p m reply ≡ ok v
    → v.can_redeem ≡ true
    → (will_exceed_spend_limit s p m ≡ ok false)
      × (reply ≡ record {
        reply_active = true;
        reply_can_redeem = true;
        all_transactions = v.existing_transactions;
      })
unfolding check_subsidy
subsidy_sound s p m reply v h c = ground arith

in_time_lem :
    (skip late : Bool) (passed : Result Error Bool)
    → (if skip || late then ok false else passed) ≡ ok false
    → (skip ≡ true) ⊎ (late ≡ true) ⊎ (passed ≡ ok false)
in_time_lem true late passed h = inl refl
in_time_lem false true passed h = inr (inl refl)
in_time_lem false false passed h = inr (inr h)

unless_late :
    (late : Bool) (rest : Result Error Verdict) (v : Verdict)
    → (if late then refuse beyond_enrollment_deadline [] else rest) ≡ ok v
    → v.can_redeem ≡ true
    → (late ≡ false) × (rest ≡ ok v)
unless_late true rest v h c = ground arith
unless_late false rest v h c = (refl, h)

metadata_sound :
    (s : Services) (p : Policy) (u key : ℕ) (skip : Bool) (m : Option Summary) (v : Verdict)
    → check_metadata s p u key skip m ≡ ok v
    → v.can_redeem ≡ true
    → (x : Summary) × (m ≡ some x)
      × ((skip ≡ true)
          ⊎ (is_late_redemption_allowed s p ≡ true)
          ⊎ (deadline_passed s.now x ≡ ok false))
      × ((s.subsidy_can_redeem p.subsidy_uuid u key >>= check_subsidy s p x) ≡ ok v)
unfolding check_metadata
metadata_sound s p u key skip none v h c = ground arith
metadata_sound s p u key skip (some m) v h c =
    let (late, e, h₁) = >>=-eq-ok (beyond_deadline s p skip m) _ h in
    let (early, h₂) = unless_late late _ v h₁ c in
    let e₁ : beyond_deadline s p skip m ≡ ok false = e ∙ ap ok early in
    (m, refl, in_time_lem skip (is_late_redemption_allowed s p) (deadline_passed s.now m) e₁, h₂)

unless_refused :
    (b : Bool) (why : Reason) (ts : List Transaction) (rest : Result Error Verdict) (v : Verdict)
    → (if not b then refuse why ts else rest) ≡ ok v
    → v.can_redeem ≡ true
    → (b ≡ true) × (rest ≡ ok v)
unless_refused true why ts rest v h c = (refl, h)
unless_refused false why ts rest v h c = ground arith

content_sound :
    (s : Services) (p : Policy) (u key : ℕ) (skip : Bool) (v : Verdict)
    → check_content s p u key skip ≡ ok v
    → v.can_redeem ≡ true
    → (m : Option Summary) × (s.catalog_contains p.catalog_uuid key ≡ ok true)
      × (s.content_metadata p.enterprise_customer_uuid key ≡ ok m)
      × (check_metadata s p u key skip m ≡ ok v)
unfolding check_content
content_sound s p u key skip v h c =
    let (found, f, h₁) = >>=-eq-ok (s.catalog_contains p.catalog_uuid key) _ h in
    let step = unless_refused found _ _ _ v h₁ c in
    let (m, e, h₂) = >>=-eq-ok (s.content_metadata p.enterprise_customer_uuid key) _ step.1 in
    (m, f ∙ ap ok step.0, e, h₂)

group_check-none :
    (policy_groups : List ℕ) (g : Option (List ℕ))
    → group_check policy_groups g ≡ none
    → (gs : List ℕ) × (g ≡ some gs)
      × ((policy_groups ≡ []) ⊎ (any (λ x. any (λ y. x == y) gs) policy_groups ≡ true))
group_check-none policy_groups none h = cc
group_check-none [] (some gs) h = (gs, refl, inl refl)
group_check-none (x ∷ xs) (some gs) h = (gs, refl, inr (ground arith))

group_sound :
    (s : Services) (p : Policy) (u : ℕ) → includes_learner s p u ≡ ok none → IsMember s p u
unfolding includes_learner
group_sound s p u h =
    let (g, e, h₁) = >>=-eq-ok (s.learner_record p.enterprise_customer_uuid u) _ h in
    let (gs, same, fit) = group_check-none (s.policy_groups p.uuid) g (ground arith) in
    record { groups = gs; recorded = e ∙ ap ok same; shared = fit }

included :
    (excluded : Option Reason) (rest : Result Error Verdict) (v : Verdict)
    → (elim excluded [ some why ↦ refuse why [] | none ↦ rest ]) ≡ ok v
    → v.can_redeem ≡ true
    → (excluded ≡ none) × (rest ≡ ok v)
included none rest v h c = (refl, h)
included (some why) rest v h c = ground arith

base_sound :
    (s : Services) (p : Policy) (u key : ℕ) (skip_user skip : Bool) (v : Verdict)
    → base_can_redeem s p u key skip_user skip ≡ ok v
    → v.can_redeem ≡ true
    → (is_redemption_enabled p ≡ true)
      × ((skip_user ≡ true) ⊎ IsMember s p u)
      × (check_content s p u key skip ≡ ok v)
unfolding base_can_redeem
base_sound s p u key true skip v h c =
    let step = unless_refused (is_redemption_enabled p) _ _ _ v h c in (step.0, inl refl, step.1)
base_sound s p u key false skip v h c =
    let step = unless_refused (is_redemption_enabled p) _ _ _ v h c in
    let (excluded, e, h₁) = >>=-eq-ok (includes_learner s p u) _ step.1 in
    let inside = included excluded _ v h₁ c in
    (step.0, inr (group_sound s p u (e ∙ ap ok inside.0)), inside.1)

enabled_parts :
    (p : Policy) → is_redemption_enabled p ≡ true → (p.active ≡ true) × (p.retired ≡ false)
unfolding is_redemption_enabled
enabled_parts p h = ground arith

pub parts_enabled :
    (p : Policy) → p.active ≡ true → p.retired ≡ false → is_redemption_enabled p ≡ true
unfolding is_redemption_enabled
parts_enabled p a r = ground arith

-- Whenever the generic checks of `can_redeem` answer True, the request is redeemable: the policy
-- is active and not retired, the learner belongs to the customer and to a group of the policy
-- (unless that check is skipped), the content is in the catalog and has metadata, its deadline has
-- not passed (unless skipped or late redemption is allowed), the subsidy can redeem it, and the
-- price and the spend so far fit into the policy's limit. The transactions returned are those that
-- the subsidy reported.
pub base_can_redeem_sound :
    (s : Services) (p : Policy) (u key : ℕ) (skip_user skip_deadline : Bool) (v : Verdict)
    → base_can_redeem s p u key skip_user skip_deadline ≡ ok v
    → v.can_redeem ≡ true
    → IsRedeemable s p u key skip_user skip_deadline v.existing_transactions
base_can_redeem_sound s p u key skip_user skip v h c =
    let (on, joined, h₁) = base_sound s p u key skip_user skip v h c in
    let (m, found, e, h₂) = content_sound s p u key skip v h₁ c in
    let (x, same, timely, h₃) = metadata_sound s p u key skip m v h₂ c in
    let (reply, r, h₄) = >>=-eq-ok (s.subsidy_can_redeem p.subsidy_uuid u key) _ h₃ in
    let (limit, full) = subsidy_sound s p x reply v h₄ c in
    record {
      enabled = (enabled_parts p on).0;
      not_retired = (enabled_parts p on).1;
      member = joined;
      catalogued = found;
      summary = x;
      described = e ∙ ap ok same;
      in_time = timely;
      funded = r ∙ ap ok full;
      within_limit = unfold will_exceed_spend_limit in limit-WithinLimit s p x p.spend_limit limit;
    }
