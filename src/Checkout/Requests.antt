-- ===== src/Checkout/Requests.antt =====
-- create_intent of customer_billing/models.py: what a checkout request returns and reserves.
use mathlib.Core.Path.{subst}
use mathlib.Core.Option.{get_or}
use enterprise_access.Prelude.{
  ==_iff, ==_refl, >>=-eq-ok, All, All-map, Bool, Bool-cases, Option, Result, [], and_false, any,
  ap, arith, err, false, filter, find, inl, inr, is_present, none, not, ok, opt_eq, raise_if, refl,
  some, sym, true, ℕ, ◌&&◌, ◌+◌, ◌==◌, ◌>>◌, ◌||◌, ◌∙◌, ◌∷◌, ◌≡◌, ◌⊎◌,
}
use enterprise_access.Checkout.Types.{
  Intent, IntentError, Intents, created, expired, is_failure, is_non_expired, is_success,
  slug_reservation_conflict, value_error,
}
use enterprise_access.Checkout.Table.{
  Details, can_reserve, cleanup_expired, create_intent, create_or_update, filter_by_name_and_slug,
  has_name, has_slug, new_intent, of_user, on_row, reservation_duration, reserve, revive, same_bool,
  should_reserve_new_slug,
}
use enterprise_access.Checkout.Events.{IsKeyed}
use enterprise_access.Checkout.Rows.{any-on_row, find-OnlyRow}

-- The intent of a request that returned: paid for before, or created now with a full reservation.
abbrev pub Granted : ℕ → Details → Intent → Type 0
Granted now d i =
    (is_success i.state ≡ true)
    ⊎ ((i.state ≡ created)
        × (i.expires_at ≡ now + reservation_duration)
        × (i.quantity ≡ d.requested_quantity))

-- A live intent of another user on the slug or the name.
abbrev pub held_by_other : Details → ℕ → Intent → Bool
held_by_other d user i =
    (has_slug d.slug i || has_name d.name i) && (is_non_expired i.state && not (i.user == user))

any-filter : (p q : Intent → Bool) (t : Intents) → any q (filter p t) ≡ any (λ i. p i && q i) t
any-filter p q [] = refl
any-filter p q (i ∷ t) = elim (Bool-cases (p i)) [
  | inl holds ↦ rw holds (rw (any-filter p q t) refl)
  | inr fails ↦ rw fails (any-filter p q t)
]

-- The check of a reservation that is made, says that nobody else holds the slug or the name.
pub reserve-free :
    (d : Details) (user : ℕ) (t : Intents)
    → reserve true d user t ≡ ok tt
    → any (held_by_other d user) t ≡ false
unfolding can_reserve filter_by_name_and_slug
reserve-free d user t h = elim (Bool-cases (is_present d.slug || is_present d.name)) [
  | inl given ↦
      rw
        (sym (
          any-filter (λ i. has_slug d.slug i || has_name d.name i)
            (λ i. is_non_expired i.state && not (i.user == user)) t))
        (passed _ (rw given at h))
  | inr missing ↦ let e = rw missing at h in cc
]
  where
    passed : (b : Bool) → raise_if (not (not b)) slug_reservation_conflict ≡ ok tt → b ≡ false
    passed true e = cc
    passed false e = refl

find-holds : (q : Intent → Bool) (t : Intents) (i : Intent) → find q t ≡ some i → q i ≡ true
find-holds q [] i e = cc
find-holds q (b ∷ t) i e = elim (Bool-cases (q b)) [
  | inl here ↦ subst (λ c. q c ≡ true) (ap (λ (o : Option Intent). get_or o b) (rw here at e)) here
  | inr there ↦ find-holds q t i (rw there at e)
]

-- A result that is an error, or an intent of the user that is granted.
abbrev pub GrantedResult : ℕ → ℕ → Details → Result IntentError (Intent × Intents) → Type 0
GrantedResult now user d (ok r) = (r.0.user ≡ user) × Granted now d r.0
GrantedResult now user d (err e) = Unit {0}

after_check :
    (now user : ℕ) (d : Details) (m : Result IntentError (Unit {0})) (r : Intent × Intents)
    → GrantedResult now user d (ok r)
    → GrantedResult now user d (m >> ok r)
after_check now user d (ok u) r h = h
after_check now user d (err e) r h = tt

granted_one :
    (now user : ℕ) (d : Details) (found : Option Intent) (t : Intents)
    → ((b : Intent) → found ≡ some b → b.user ≡ user)
    → GrantedResult now user d (create_or_update now user d found t)
unfolding create_or_update new_intent revive
granted_one now user d none t own =
    after_check now user d (reserve (should_reserve_new_slug none d) d user t) _
      (refl, inr (refl, refl, refl))
granted_one now user d (some b) t own = elim (Bool-cases (is_success b.state)) [
  | inl won ↦ rw won (own b refl, inl won)
  | inr other ↦ elim (Bool-cases (is_failure b.state)) [
    | inl failed ↦ rw other (rw failed tt)
    | inr neither ↦ rw other (
        rw neither (
          after_check now user d (reserve (should_reserve_new_slug (some b) d) d user t) _
            (own b refl, inr (refl, refl, refl))))
  ]
]

granted_any :
    (now user : ℕ) (d : Details) (t : Intents)
    → GrantedResult now user d (create_intent now user d t)
unfolding create_intent
granted_any now user d t =
    elim (Bool-cases (not (same_bool (is_present d.slug) (is_present d.name)))) [
      | inl bad ↦ rw bad tt
      | inr good ↦ rw good (
          granted_one now user d (find (of_user user) (cleanup_expired now t))
            (cleanup_expired now t)
            (λ b e. (==_iff b.user user).0 (find-holds (of_user user) (cleanup_expired now t) b e)))
    ]

-- A request that returns gives an intent of the requesting user, which is one that was paid for
-- before, or stands in created with the quantity that was asked for and the whole reservation
-- time from now.
pub create_intent-Granted :
    (now user : ℕ) (d : Details) (t : Intents) (i : Intent) (u : Intents)
    → create_intent now user d t ≡ ok (i, u)
    → (i.user ≡ user) × Granted now d i
create_intent-Granted now user d t i u h =
    subst (GrantedResult now user d) h (granted_any now user d t)

pub create_new :
    (now user : ℕ) (d : Details) (t : Intents) (r : Intent × Intents)
    → create_or_update now user d none t ≡ ok r
    → is_present d.slug ≡ true
    → any (held_by_other d user) t ≡ false
unfolding create_or_update
create_new now user d t r h given =
    let (_, e, _) = >>=-eq-ok (reserve (is_present d.slug) d user t) _ h in
    reserve-free d user t (ap (λ c. reserve c d user t) (sym given) ∙ e)

-- A user without an intent gets one on a slug only when, after the clean-up, no live intent of
-- another user has the slug or the name.
pub create_intent-exclusive :
    (now user : ℕ) (d : Details) (t : Intents) (r : Intent × Intents)
    → find (of_user user) (cleanup_expired now t) ≡ none
    → is_present d.slug ≡ true
    → create_intent now user d t ≡ ok r
    → any (held_by_other d user) (cleanup_expired now t) ≡ false
unfolding create_intent
create_intent-exclusive now user d t r unknown given h =
    let (_, _, e) =
      >>=-eq-ok (raise_if (not (same_bool (is_present d.slug) (is_present d.name))) value_error) _
        h in
    create_new now user d (cleanup_expired now t) r (rw unknown at e) given

any-elsewhere :
    (p : Intent → Bool) (pk : ℕ) (f : Intent → Intent) (t : Intents)
    → All (λ i. i.pk ≡ pk → p i ≡ false) t
    → any p t ≡ true
    → any p (on_row pk f t) ≡ true
any-elsewhere p pk f t apart = any-on_row p pk f t (
    All-map (λ i. i.pk ≡ pk → p i ≡ false) (λ i. i.pk ≡ pk → p i ≡ true → p (f i) ≡ true)
      (λ i no e yes. absurd (clash (sym yes ∙ no e))) t apart)
  where
    clash : true ≡ false → ⊥
    clash e = cc

opt_eq_refl : (o : Option ℕ) → opt_eq o o ≡ true
opt_eq_refl none = refl
opt_eq_refl (some a) = ==_refl a

unchanged :
    (d : Details) (b : Intent)
    → d.slug ≡ b.enterprise_slug
    → d.name ≡ b.enterprise_name
    → should_reserve_new_slug (some b) d ≡ false
unchanged d b same same₁ = rw same (
    rw same₁
      (rw (opt_eq_refl b.enterprise_slug) (rw (opt_eq_refl b.enterprise_name) (and_false _))))

revive_now :
    (now user : ℕ) (d : Details) (t : Intents) (b : Intent)
    → b.state ≡ expired
    → should_reserve_new_slug (some b) d ≡ false
    → create_or_update now user d (some b) t
      ≡ ok (revive now d b, on_row b.pk (λ _. revive now d b) t)
unfolding create_or_update
revive_now now user d t b gone skip = rw gone (rw skip refl)

on_found :
    (now user : ℕ) (d : Details) (t : Intents) (o : Option Intent)
    → is_present d.slug ≡ true
    → is_present d.name ≡ true
    → find (of_user user) (cleanup_expired now t) ≡ o
    → create_intent now user d t ≡ create_or_update now user d o (cleanup_expired now t)
unfolding create_intent
on_found now user d t o slug name found = rw slug (rw name (rw found refl))

own_row :
    (d : Details) (user pk : ℕ) (b : Intent) (t : Intents)
    → b.user ≡ user
    → All (λ i. i.pk ≡ pk → i ≡ b) t
    → All (λ i. i.pk ≡ pk → held_by_other d user i ≡ false) t
own_row d user pk b t mine =
    All-map (λ i. i.pk ≡ pk → i ≡ b) (λ i. i.pk ≡ pk → held_by_other d user i ≡ false)
      (λ i same e.
        subst (λ c. held_by_other d user c ≡ false) (sym (same e)) (ground (arith, mine)))
      t

-- A user whose intent has expired gets the slug and the name of that intent again, whoever else
-- holds them by now: with distinct keys, and another user's live intent on the slug or the name
-- after the clean-up, a request for both returns a created intent with that slug and that name,
-- and the other one stays live.
pub create_intent-revives_unchecked :
    (now user : ℕ) (d : Details) (t : Intents) (b : Intent)
    → IsKeyed (cleanup_expired now t)
    → find (of_user user) (cleanup_expired now t) ≡ some b
    → b.state ≡ expired
    → is_present d.slug ≡ true
    → is_present d.name ≡ true
    → d.slug ≡ b.enterprise_slug
    → d.name ≡ b.enterprise_name
    → any (held_by_other d user) (cleanup_expired now t) ≡ true
    → (r : Intent × Intents) × (create_intent now user d t ≡ ok r)
      × (r.0.state ≡ created)
      × (r.0.enterprise_slug ≡ d.slug)
      × (r.0.enterprise_name ≡ d.name)
      × (any (held_by_other d user) r.1 ≡ true)
unfolding revive
create_intent-revives_unchecked now user d t b keyed₁ found gone slug name same same₁ held = (
  (revive now d b, on_row b.pk (λ _. revive now d b) (cleanup_expired now t)),
  on_found now user d t (some b) slug name found
      ∙ revive_now now user d (cleanup_expired now t) b gone (unchanged d b same same₁),
  refl,
  rw slug refl,
  rw name refl,
  any-elsewhere (held_by_other d user) b.pk (λ _. revive now d b) (cleanup_expired now t)
      (own_row d user b.pk b (cleanup_expired now t)
        ((==_iff b.user user).0 (find-holds (of_user user) (cleanup_expired now t) b found))
        (find-OnlyRow (of_user user) (cleanup_expired now t) b keyed₁ found))
      held,
)
