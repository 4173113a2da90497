-- ===== src/Checkout/Payments.antt =====
-- Paid intents of customer_billing/models.py through the histories of the table.
use mathlib.Core.Path.{subst}
use enterprise_access.Prelude.{
  All-map, Bool, Bool-cases, List, Option, Result, Result-cases, [], any, arith, err, false, find,
  inl, inr, is_present, none, not, ok, refl, some, true, ℕ, ◌++◌, ◌∙◌, ◌∷◌, ◌≡◌,
}
use enterprise_access.Checkout.Types.{
  Intent, IntentError, IntentState, Intents, is_failure, is_success, is_valid_state_transition,
}
use enterprise_access.Checkout.Marks.{Mark, apply_mark}
use enterprise_access.Checkout.Table.{
  Details, cleanup_expired, create_intent, create_or_update, expire_row,
  find_stalled_fulfillment_intents, mark_stalled_fulfillment_intents, new_intent, next_key, of_user,
  on_row, reserve, revive, same_bool, save_stalled, should_reserve_new_slug, stall_row,
}
use enterprise_access.Checkout.Events.{
  Event, IsKeyed, apply_event, cleanup, is_settled, kept, mark, request, run, settled_row, stall,
  table_after,
}
use enterprise_access.Checkout.Transitions.{apply_mark-valid}
use enterprise_access.Checkout.Rows.{
  IsKeyed-new, KeepsKey, OnlyRow, any-map, any-on_row, everywhere, find-OnlyRow, map-IsKeyed,
  on_row-IsKeyed,
}

valid_settled :
    (s u : IntentState)
    → is_valid_state_transition s u ≡ true
    → is_settled s ≡ true
    → is_settled u ≡ true
unfolding is_valid_state_transition
valid_settled s u v h = ground arith

-- What holds of a row and of every result of a call holds of the row that is kept.
kept_rule {κ} :
    (P : Intent → Type κ) (i : Intent) (r : Result IntentError Intent)
    → P i
    → ((j : Intent) → r ≡ ok j → P j)
    → P (kept i r)
kept_rule P i (ok j) h f = f j refl
kept_rule P i (err e) h f = h

kept-settled :
    (now k : ℕ) (m : Mark) (i : Intent)
    → settled_row k i ≡ true
    → settled_row k (kept i (apply_mark now m i)) ≡ true
kept-settled now k m i h =
    kept_rule (λ j. settled_row k j ≡ true) i (apply_mark now m i) h
      λ j e.
        let (valid, moved, same) = apply_mark-valid now m i j e in
        ground (arith, same.same_pk, valid_settled i.state j.state valid)

kept-key : (now pk : ℕ) (m : Mark) → KeepsKey pk (λ i. kept i (apply_mark now m i))
kept-key now pk m i h =
    kept_rule (λ j. j.pk ≡ pk) i (apply_mark now m i) h
      λ j e. (apply_mark-valid now m i j e).2.same_pk ∙ h

-- A history keeps the keys distinct and a settled row settled.
abbrev Keeps : ℕ → Intents → Intents → Type 0
Keeps k t u =
    IsKeyed t → (IsKeyed u) × (any (settled_row k) t ≡ true → any (settled_row k) u ≡ true)

expire_key : (now : ℕ) (i : Intent) → (expire_row now i).pk ≡ i.pk
expire_key now i = ground arith

expire_settled :
    (now k : ℕ) (i : Intent) → settled_row k i ≡ true → settled_row k (expire_row now i) ≡ true
expire_settled now k i h = ground arith

cleanup-Keeps : (now k : ℕ) (t : Intents) → Keeps k t (cleanup_expired now t)
unfolding cleanup_expired
cleanup-Keeps now k t h = (
  map-IsKeyed (expire_row now) (expire_key now) t h,
  any-map (expire_row now) (expire_key now) (settled_row k) (expire_settled now k) t,
)

stall_one :
    (now threshold k : ℕ) (i b : Intent)
    → b.pk ≡ i.pk
    → settled_row k b ≡ true
    → settled_row k (stall_row now threshold i) ≡ true
unfolding stall_row
stall_one now threshold k i b e h = ground arith

stall_key : (now threshold : ℕ) (i : Intent) → KeepsKey i.pk (λ _. stall_row now threshold i)
unfolding stall_row
stall_key now threshold i b e = refl

stalled-Keeps :
    (now threshold k : ℕ) (found t : Intents) → Keeps k t (save_stalled now threshold found t)
unfolding save_stalled
stalled-Keeps now threshold k [] t h = (h, λ p. p)
stalled-Keeps now threshold k (i ∷ found) t h =
    let (keyed, settled) =
      stalled-Keeps now threshold k found (on_row i.pk (λ _. stall_row now threshold i) t)
        (on_row-IsKeyed i.pk _ t (stall_key now threshold i) h) in
    (
      keyed,
      λ p. settled (
          any-on_row (settled_row k) i.pk _ t
            (everywhere _ t (λ b e q. stall_one now threshold k i b e q)) p),
    )

mark-Keeps :
    (now pk k : ℕ) (m : Mark) (t : Intents)
    → Keeps k t (on_row pk (λ i. kept i (apply_mark now m i)) t)
mark-Keeps now pk k m t h = (
  on_row-IsKeyed pk _ t (kept-key now pk m) h,
  any-on_row (settled_row k) pk _ t (
      everywhere
        (λ i.
          i.pk ≡ pk → settled_row k i ≡ true → settled_row k (kept i (apply_mark now m i)) ≡ true)
        t (λ i _ p. kept-settled now k m i p)),
)

Keeps-trans : (k : ℕ) (t u v : Intents) → Keeps k t u → Keeps k u v → Keeps k t v
Keeps-trans k t u v f g h =
    let (keyed, settled) = f h in
    let (keyed₁, settled₁) = g keyed in (keyed₁, λ p. settled₁ (settled p))

any-snoc :
    (p : Intent → Bool) (t : Intents) (n : Intent) → any p t ≡ true → any p (t ++ n ∷ []) ≡ true
any-snoc p [] n h = cc
any-snoc p (i ∷ t) n h = ground (arith, any-snoc p t n)

settled_apart : (k : ℕ) (i : Intent) → is_settled i.state ≡ false → settled_row k i ≡ true → ⊥
settled_apart k i unsettled p = ground arith

-- The row that a request writes, given that it is the only one with its key and is not settled.
revived-Keeps :
    (now k : ℕ) (d : Details) (i : Intent) (t : Intents)
    → OnlyRow i t
    → is_settled i.state ≡ false
    → Keeps k t (on_row i.pk (λ _. revive now d i) t)
unfolding revive
revived-Keeps now k d i t only unsettled h = (
  on_row-IsKeyed i.pk _ t (λ b e. refl) h,
  any-on_row (settled_row k) i.pk _ t (
      All-map (λ b. b.pk ≡ i.pk → b ≡ i)
        (λ b. b.pk ≡ i.pk → settled_row k b ≡ true → settled_row k (revive now d i) ≡ true)
        (λ b same e p.
          absurd (settled_apart k i unsettled (subst (λ c. settled_row k c ≡ true) (same e) p)))
        t only),
)

request-Keeps :
    (now user k : ℕ) (d : Details) (t : Intents) (found : Option Intent)
    → ((i : Intent) → found ≡ some i → OnlyRow i t)
    → Keeps k t (table_after t (create_or_update now user d found t))
unfolding create_or_update new_intent
request-Keeps now user k d t none only h =
    elim (Result-cases (reserve (should_reserve_new_slug none d) d user t)) [
      | inl (u, e) ↦
          rw e (
            IsKeyed-new t (new_intent now (next_key t) user d) refl h,
            any-snoc (settled_row k) t _,
          )
      | inr (x, e) ↦ rw e (h, λ p. p)
    ]
request-Keeps now user k d t (some i) only h = elim (Bool-cases (is_success i.state)) [
  | inl won ↦ rw won (h, λ p. p)
  | inr other ↦ elim (Bool-cases (is_failure i.state)) [
    | inl failed ↦ rw other (rw failed (h, λ p. p))
    | inr neither ↦ rw other (
        rw neither (elim (Result-cases (reserve (should_reserve_new_slug (some i) d) d user t)) [
          | inl (u, e) ↦ rw e (revived-Keeps now k d i t (only i refl) (ground arith) h)
          | inr (x, e) ↦ rw e (h, λ p. p)
        ]))
  ]
]

-- An error keeps the table from before the clean-up.
after_cleanup :
    (now k : ℕ) (t : Intents) (r : Result IntentError (Intent × Intents))
    → Keeps k (cleanup_expired now t) (table_after (cleanup_expired now t) r)
    → Keeps k t (table_after t r)
after_cleanup now k t (err e) step h = (h, λ p. p)
after_cleanup now k t (ok r) step h =
    Keeps-trans k t (cleanup_expired now t) r.1 (cleanup-Keeps now k t) step h

pub event-Keeps : (k : ℕ) (e : Event) (t : Intents) → Keeps k t (apply_event e t)
unfolding apply_event mark_stalled_fulfillment_intents create_intent
event-Keeps k (mark now pk m) t h = mark-Keeps now pk k m t h
event-Keeps k (cleanup now) t h = cleanup-Keeps now k t h
event-Keeps k (stall now threshold) t h =
    stalled-Keeps now threshold k (find_stalled_fulfillment_intents now threshold t) t h
event-Keeps k (request now user d) t h =
    elim (Bool-cases (not (same_bool (is_present d.slug) (is_present d.name)))) [
      | inl bad ↦ rw bad (h, λ p. p)
      | inr good ↦ rw good (
          after_cleanup now k t
            (create_or_update now user d (find (of_user user) (cleanup_expired now t))
              (cleanup_expired now t))
            (λ keyed.
              request-Keeps now user k d (cleanup_expired now t) _
                (λ i e. find-OnlyRow (of_user user) (cleanup_expired now t) i keyed e) keyed)
            h)
    ]

-- Through every history of the table the primary keys stay distinct, and an intent that was paid
-- for stays in a state that says so: no call, clean-up, stall check or new request of any user
-- returns it to created or expired.
pub run-keeps_payment :
    (k : ℕ) (es : List Event) (t : Intents)
    → IsKeyed t
    → (IsKeyed (run es t)) × (any (settled_row k) t ≡ true → any (settled_row k) (run es t) ≡ true)
unfolding run
run-keeps_payment k [] t h = (h, λ p. p)
run-keeps_payment k (e ∷ es) t h =
    Keeps-trans k t (apply_event e t) (run es (apply_event e t)) (event-Keeps k e t)
      (run-keeps_payment k es (apply_event e t)) h
