-- ===== src/Provisioning/Fulfilled.antt =====
-- What a finished provisioning leaves of the linked checkout intent.
use mathlib.Core.Path.{subst}
use enterprise_access.Prelude.{
  ==_iff, All, Bool, Bool-cases, Dict, Option, Result, Result-cases, [], ap, err, filter, inl, inr,
  ok, opt_eq, refl, some, sym, true, ℕ, ◌==◌, ◌∙◌, ◌∷◌, ◌≡◌, ◌≢◌,
}
use enterprise_access.Workflow.Types.{
  Environment, Output, Raised, Step, Table, attribute_error, does_not_exist, integrity_error,
  multiple_objects_returned, raised, unit_of_work_exception,
}
use enterprise_access.Workflow.Run.{process_steps, steps_of}
use enterprise_access.Workflow.Rows.{Distinct}
use enterprise_access.Workflow.Found.{IsFresh}
use enterprise_access.Workflow.World.{process_steps-world}
use enterprise_access.Workflow.Last.{Unfinished, process_steps-Worked}
use enterprise_access.Checkout.Types.{Intent, Intents, fulfilled}
use enterprise_access.Checkout.Table.{on_row}
use enterprise_access.Checkout.Events.{IsKeyed}
use enterprise_access.Checkout.Rows.{find-All}
use enterprise_access.Provisioning.Types.{Act, Object, World, continued, done, ◌>>>◌}
use enterprise_access.Provisioning.Steps.{
  Context, fulfill_checkout_intent, fulfilled_intent, get_linked_checkout_intent, linked_intent,
  only_intent, reading, save_intent, saving, structure,
}
use enterprise_access.Provisioning.Tracking.{catching, recovered}
use enterprise_access.Provisioning.NewCustomer.{
  first_steps, notification, notification_step, notify_admin, or_no_intent, steps,
}
use enterprise_access.Provisioning.Safe.{Safe, safe_rules}
use enterprise_access.Provisioning.Paid.{LinkedPaid, PaidAs, first_found, found_holds, only_found}
use enterprise_access.Provisioning.Payments.{first_steps_keep, unchanged}

module _ {X A B : Type 0} where
  -- A sequence that returns.
  then-ok :
      (m : Act X A) (f : A → Act X B) (w : World X) (b : B)
      → ((m >>> f) w).0 ≡ ok b
      → (a : A) × ((m w).0 ≡ ok a) × ((m >>> f) w ≡ f a (m w).1)
  unfolding ◌>>>◌
  then-ok m f w b h = continued_ok (m w) h
    where
      continued_ok :
          (left : Result Raised A × World X)
          → (continued left f).0 ≡ ok b
          → (a : A) × (left.0 ≡ ok a) × (continued left f ≡ f a left.1)
      continued_ok (err e, v) k = cc
      continued_ok (ok a, v) k = (a, refl, refl)

-- The workflow is linked to one intent, which is fulfilled.
abbrev pub IsFulfilled : ℕ → Intents → Type 0
IsFulfilled workflow_uuid t =
    (i : Intent) × (linked_intent workflow_uuid t ≡ ok i) × (i.state ≡ fulfilled)

elsewhere : (k : ℕ) (j : Intent) (t : Intents) → All (λ b. b.pk ≢ k) t → on_row k (λ _. j) t ≡ t
elsewhere k j [] h = refl
elsewhere k j (b ∷ t) h = elim (Bool-cases (b.pk == k)) [
  | inl here ↦ elim (h.0 ((==_iff b.pk k).0 here)) [ ]
  | inr away ↦ rw away (ap (λ l. b ∷ l) (elsewhere k j t h.1))
]

-- The only row that a filter finds, saved.
saved_only :
    (q : Intent → Bool) (i j : Intent) (t : Intents)
    → j.pk ≡ i.pk
    → q j ≡ true
    → IsKeyed t
    → filter q t ≡ i ∷ []
    → filter q (save_intent j t) ≡ j ∷ []
saved_only q i j [] k qj keyed h = cc
saved_only q i j (b ∷ t) k qj keyed h = elim (Bool-cases (q b)) [
  | inl here ↦
      let h₁ : b ∷ filter q t ≡ i ∷ [] = rw here at h in
      let itself : b ≡ i = cc in
      let none_later : filter q t ≡ [] = cc in
      let key : b.pk ≡ j.pk = cc in
      let mine : (b.pk == j.pk) ≡ true = (==_iff b.pk j.pk).1 key in
      let rest = elsewhere j.pk j t (subst (λ n. All (λ x. x.pk ≢ n) t) key keyed.0) in
      rw (mine, qj, rest, none_later) refl
  | inr there ↦
      let later : filter q t ≡ i ∷ [] = rw there at h in
      let apart = find-All (λ x. x.pk ≢ b.pk) q t keyed.0 (first_found q t [] i later) in
      elim (Bool-cases (b.pk == j.pk)) [
        | inl clash ↦ elim (apart (sym k ∙ sym ((==_iff b.pk j.pk).0 clash))) [ ]
        | inr away ↦ rw (away, there) (saved_only q i j t k qj keyed.1 later)
      ]
]

module _ {D X : Type 0} (c : Context D X) (workflow_uuid : ℕ) where
  save_intent-IsFulfilled :
      (t : Intents) (i : Intent)
      → IsKeyed t
      → linked_intent workflow_uuid t ≡ ok i
      → IsFulfilled workflow_uuid (save_intent (fulfilled_intent c.time i) t)
  save_intent-IsFulfilled t i keyed h =
      let q = λ (j : Intent). opt_eq j.workflow (some workflow_uuid) in
      let only = only_found (filter q t) i h in
      let linked = found_holds q t i (first_found q t [] i only) in
      (
        fulfilled_intent c.time i,
        ap only_intent (saved_only q i (fulfilled_intent c.time i) t refl linked keyed only),
        refl,
      )

  fulfill-IsFulfilled :
      (w : World X) (u : Unit {0})
      → IsKeyed w.intents
      → (fulfill_checkout_intent c workflow_uuid w).0 ≡ ok u
      → IsFulfilled workflow_uuid (fulfill_checkout_intent c workflow_uuid w).1.intents
  unfolding fulfill_checkout_intent get_linked_checkout_intent reading saving ◌>>>◌
  fulfill-IsFulfilled w u keyed h = elim (Result-cases (linked_intent workflow_uuid w.intents)) [
    | inl (i, it) ↦ rw it (save_intent-IsFulfilled w.intents i keyed it)
    | inr (e, raises) ↦
        let bad : ◌≡◌ {A = Result Raised (Unit {0})} (err e) (ok u) = rw raises at h in cc
  ]

  never_ok : (e : Raised) (u : Unit {0}) (w : World X) → (or_no_intent c e w).0 ≡ ok u → ⊥
  unfolding or_no_intent done
  never_ok (raised n) u w h = cc
  never_ok multiple_objects_returned u w h = cc
  never_ok attribute_error u w h = cc
  never_ok does_not_exist u w h = cc
  never_ok integrity_error u w h = cc
  never_ok Raised.value_error u w h = cc
  never_ok (unit_of_work_exception k m) u w h = cc

  caught_nothing :
      (left : Result Raised (Unit {0}) × World X) (u : Unit {0})
      → (recovered left (or_no_intent c)).0 ≡ ok u
      → (left.0 ≡ ok u) × (recovered left (or_no_intent c) ≡ left)
  caught_nothing (ok a, w) u h = (h, refl)
  caught_nothing (err e, w) u h = elim (never_ok e u w h) [ ]

module _ {D X : Type 0} (c : Context D X) where
  Safe-notify_admin :
      (Q : Intents → Type 0) (s : Step D) (acc : Output (Object D)) → Safe Q (notify_admin c s acc)
  unfolding notify_admin structure
  Safe-notify_admin Q s acc = search safe_rules depth 14

  notification-IsFulfilled :
      (s : Step D) (acc : Output (Object D)) (w : World X) (x : Object D)
      → IsKeyed w.intents
      → (notification c s acc w).0 ≡ ok (some x)
      → IsFulfilled s.workflow_record_uuid (notification c s acc w).1.intents
  unfolding notification catching
  notification-IsFulfilled s acc w x keyed h =
      let workflow_uuid = s.workflow_record_uuid in
      let fulfilling = fulfill_checkout_intent c workflow_uuid in
      let (u, first, rest) =
        then-ok (catching fulfilling (or_no_intent c)) (λ _. notify_admin c s acc) w (some x) h in
      let (went, same) = caught_nothing c workflow_uuid (fulfilling w) u first in
      let here = fulfill-IsFulfilled c workflow_uuid w u keyed went in
      let still =
        (Safe-notify_admin (IsFulfilled workflow_uuid) s acc).at
          (catching fulfilling (or_no_intent c) w).1
          (subst (λ y. IsFulfilled workflow_uuid y.1.intents) (sym same) here) in
      subst (λ y. IsFulfilled workflow_uuid y.1.intents) (sym rest) still

  -- When every step of the provisioning workflow returns, in any state of the services, and its
  -- notification had not succeeded before, then exactly one checkout intent is linked to the
  -- workflow, and it is fulfilled. The keys of the steps and of the intents are distinct, new keys are
  -- fresh, and intents that are linked to a workflow at the start have been paid.
  pub process_steps-IsFulfilled :
      (env : Environment D (Object D)) (workflow_uuid : ℕ)
      (input_object : Result Raised (Dict (Object D))) (state state₁ : Output (Object D) × Option ℕ)
      (t t₁ : Table D) (w w₁ : World X)
      → IsFresh env
      → Distinct t
      → All Unfinished (steps_of (notification_step c).step_kind workflow_uuid t)
      → IsKeyed w.intents
      → All LinkedPaid w.intents
      → process_steps env workflow_uuid input_object (steps c) state t w ≡ (ok state₁, t₁, w₁)
      → IsFulfilled workflow_uuid w₁.intents
  process_steps-IsFulfilled env workflow_uuid input_object state state₁ t t₁ w w₁ fresh apart todo
        keyed linked h =
      let before =
        process_steps-world (λ x. PaidAs w.intents x.intents) env workflow_uuid input_object
          (first_steps c) state t w (first_steps_keep c w.intents)
          (keyed, linked, unchanged w.intents) in
      let (s, acc, w₂, x, (keyed₂, paid_rows, alike), mine, answered, left) =
        process_steps-Worked env workflow_uuid input_object (λ y. PaidAs w.intents y.intents)
          (first_steps c) (notification_step c) state state₁ t t₁ w w₁ fresh apart
          (refl, (refl, (refl, (refl, (refl, (refl, (refl, tt))))))) todo before h in
      subst (λ y. IsFulfilled workflow_uuid y.intents) left
        (subst (λ u. IsFulfilled u (notification c s acc w₂).1.intents) mine
          (notification-IsFulfilled s acc w₂ x keyed₂ answered))
