-- ===== src/Provisioning/Payments.antt =====
-- Every run of the provisioning steps leaves the payments of the checkout intents.
use enterprise_access.Prelude.{
  >>=-eq-ok, All, All-append, Bool-cases, Dict, Option, Result, [], any, arith, filter, inl, inr,
  is_some, none, ok, opt_eq, refl, some, sym, true, ℕ, ◌>>=◌, ◌∷◌, ◌≡◌,
}
use enterprise_access.Workflow.Types.{
  Environment, Output, Raised, Step, Table, attribute_error, does_not_exist, integrity_error,
  multiple_objects_returned, raised, unit_of_work_exception,
}
use enterprise_access.Workflow.Run.{process_steps}
use enterprise_access.Workflow.World.{Keeps, process_steps-world}
use enterprise_access.Checkout.Types.{
  Intent, Intents, created, errored_backoffice, errored_fulfillment_stalled, errored_provisioning,
  expired, fulfillable_states, fulfilled, paid, same_state,
}
use enterprise_access.Checkout.Table.{filter_by_name_and_slug}
use enterprise_access.Checkout.Events.{IsKeyed}
use enterprise_access.Checkout.Rows.{OnlyRow, find-All, find-OnlyRow}
use enterprise_access.Provisioning.Types.{Object, StripeSummary, World, ◌>>>◌}
use enterprise_access.Provisioning.Steps.{
  Context, error_checkout_intent, errored_intent, first_intent, fulfill_checkout_intent,
  fulfilled_intent, get_fulfillable_checkout_intent_via_slug, get_linked_checkout_intent,
  is_fulfillable, link_checkout_intent, linked_elsewhere, linked_intent, reading, rows_or_raise,
  saving, slug_of_workflow, structure,
}
use enterprise_access.Provisioning.Tracking.{failed_step}
use enterprise_access.Provisioning.Customer.{
  create_admin_users, create_catalog, create_customer, create_customer_agreement_step,
}
use enterprise_access.Provisioning.Plans.{
  create_first_paid_subscription_plan, create_subscription_plan_renewal_step,
  create_trial_subscription_plan, track_renewal, with_summary,
}
use enterprise_access.Provisioning.NewCustomer.{
  first_steps, notification, notification_step, notify_admin, or_no_intent, steps,
}
use enterprise_access.Provisioning.Safe.{
  Safe, Safe-admins, Safe-agreement, Safe-catalog, Safe-customer, Safe-done, Safe-plan,
  Safe-read_then, Safe-renewal, safe_rules,
}
use enterprise_access.Provisioning.Paid.{
  AlikePaid, LinkedPaid, PaidAs, found_holds, fulfillable_at, fulfillable_found, linked_found,
  saved-PaidAs, was_paid,
}

-- An intent that may be fulfilled has been paid.
fulfillable_paid : (i : Intent) → is_fulfillable i ≡ true → was_paid i.state ≡ true
unfolding fulfillable_states
fulfillable_paid i h =
    elim i.state as (λ s. any (same_state s) fulfillable_states ≡ true → was_paid s ≡ true) [
      | created ↦ λ e. cc
      | paid ↦ λ e. refl
      | fulfilled ↦ λ e. refl
      | errored_backoffice ↦ λ e. refl
      | errored_fulfillment_stalled ↦ λ e. refl
      | errored_provisioning ↦ λ e. refl
      | expired ↦ λ e. cc
    ]
      h

linked_paid :
    (t₀ t : Intents) (workflow : ℕ) (i : Intent)
    → PaidAs t₀ t
    → linked_intent workflow t ≡ ok i
    → OnlyRow i t × (was_paid i.state ≡ true)
linked_paid t₀ t workflow i (keyed, paid_rows, alike) h =
    let q = λ (j : Intent). opt_eq j.workflow (some workflow) in
    let it = linked_found workflow t i h in
    let linked : is_some i.workflow ≡ true = ground (arith, found_holds q t i it) in
    (find-OnlyRow q t i keyed it, find-All LinkedPaid q t paid_rows it linked)

module _ {D X : Type 0} (c : Context D X) (t₀ : Intents) where
  Safe-fulfill : (workflow : ℕ) → Safe (PaidAs t₀) (fulfill_checkout_intent c workflow)
  unfolding fulfill_checkout_intent get_linked_checkout_intent saving
  Safe-fulfill workflow = Safe-read_then _ _ (λ i w it h.
      let (only, was) = linked_paid t₀ w.intents workflow i h it in
      saved-PaidAs t₀ w.intents i (fulfilled_intent c.time i) only (refl, refl, refl, sym was)
        (λ _. refl) h)

  Safe-error : (workflow : ℕ) (e : Raised) → Safe (PaidAs t₀) (error_checkout_intent c workflow e)
  unfolding error_checkout_intent get_linked_checkout_intent saving
  Safe-error workflow e = Safe-read_then _ _ (λ i w it h.
      let (only, was) = linked_paid t₀ w.intents workflow i h it in
      saved-PaidAs t₀ w.intents i (errored_intent c.time (c.text_of e) i) only
        (refl, refl, refl, sym was) (λ _. refl) h)

  Safe-link : (workflow customer : ℕ) → Safe (PaidAs t₀) (link_checkout_intent c workflow customer)
  unfolding link_checkout_intent get_fulfillable_checkout_intent_via_slug saving reading ◌>>>◌
  Safe-link workflow customer = Safe-read_then _ _ (λ i w it h.
      let (slug, at_slug, rows) =
        >>=-eq-ok (slug_of_workflow c workflow)
          (λ slug. rows_or_raise (filter_by_name_and_slug (some slug) none w.intents) >>= λ rows.
            first_intent (filter is_fulfillable rows))
          it in
      let found_it = fulfillable_found w.intents slug i rows in
      let holds = found_holds (fulfillable_at slug) w.intents i found_it in
      let was : was_paid i.state ≡ true = fulfillable_paid i (ground (arith, holds)) in
      elim (Bool-cases (linked_elsewhere workflow i w.intents)) [
        | inl other ↦ rw other h
        | inr free ↦ rw free (
            saved-PaidAs t₀ w.intents i
              (record i {
                workflow = some workflow;
                enterprise_uuid = some customer;
                modified = c.time;
              })
              (find-OnlyRow (fulfillable_at slug) w.intents i h.0 found_it) (refl, refl, refl, refl)
              (λ _. was) h)
      ])

  Safe-failed :
      {A : Type 0} (exception_class workflow text : ℕ) (e : Raised)
      → Safe {A = A} (PaidAs t₀) (failed_step c exception_class workflow text e)
  unfolding failed_step
  Safe-failed exception_class workflow text e = search (safe_rules, Safe-error)

  Safe-create_customer :
      (s : Step D) (acc : Output (Object D)) → Safe (PaidAs t₀) (create_customer c s acc)
  unfolding create_customer structure
  Safe-create_customer s acc = search (safe_rules, Safe-customer, Safe-link)

  Safe-create_admin_users :
      (s : Step D) (acc : Output (Object D)) → Safe (PaidAs t₀) (create_admin_users c s acc)
  unfolding create_admin_users structure
  Safe-create_admin_users s acc = search (safe_rules, Safe-admins)

  Safe-create_catalog :
      (s : Step D) (acc : Output (Object D)) → Safe (PaidAs t₀) (create_catalog c s acc)
  unfolding create_catalog structure
  Safe-create_catalog s acc = search (safe_rules, Safe-catalog) depth 14

  Safe-create_agreement :
      (s : Step D) (acc : Output (Object D))
      → Safe (PaidAs t₀) (create_customer_agreement_step c s acc)
  unfolding create_customer_agreement_step structure
  Safe-create_agreement s acc = search (safe_rules, Safe-agreement) depth 14

  Safe-trial :
      (s : Step D) (acc : Output (Object D))
      → Safe (PaidAs t₀) (create_trial_subscription_plan c s acc)
  unfolding create_trial_subscription_plan structure
  Safe-trial s acc = search (safe_rules, Safe-plan, Safe-failed) depth 14

  Safe-first_paid :
      (s : Step D) (acc : Output (Object D))
      → Safe (PaidAs t₀) (create_first_paid_subscription_plan c s acc)
  unfolding create_first_paid_subscription_plan structure
  Safe-first_paid s acc = search (safe_rules, Safe-plan, Safe-failed) depth 14

  Safe-with_summary :
      (text : ℕ) (o : Option StripeSummary) → Safe (PaidAs t₀) (with_summary c text o)
  unfolding with_summary
  Safe-with_summary text none = Safe-done _
  Safe-with_summary text (some x) = Safe-done _

  Safe-track : (workflow : ℕ) (d : D) → Safe (PaidAs t₀) (track_renewal c workflow d)
  unfolding track_renewal get_linked_checkout_intent
  Safe-track workflow d = search (safe_rules, Safe-with_summary) depth 14

  Safe-renewal_step :
      (s : Step D) (acc : Output (Object D))
      → Safe (PaidAs t₀) (create_subscription_plan_renewal_step c s acc)
  unfolding create_subscription_plan_renewal_step structure
  Safe-renewal_step s acc = search (safe_rules, Safe-renewal, Safe-failed, Safe-track) depth 14

  Safe-or_no_intent : (e : Raised) → Safe (PaidAs t₀) (or_no_intent c e)
  unfolding or_no_intent
  Safe-or_no_intent (raised n) = Safe-done _
  Safe-or_no_intent multiple_objects_returned = Safe-done _
  Safe-or_no_intent attribute_error = Safe-done _
  Safe-or_no_intent does_not_exist = Safe-done _
  Safe-or_no_intent integrity_error = Safe-done _
  Safe-or_no_intent Raised.value_error = Safe-done _
  Safe-or_no_intent (unit_of_work_exception k m) = Safe-done _

  Safe-notification :
      (s : Step D) (acc : Output (Object D)) → Safe (PaidAs t₀) (notification c s acc)
  unfolding notification notify_admin structure
  Safe-notification s acc = search (safe_rules, Safe-fulfill, Safe-or_no_intent) depth 14

  pub first_steps_keep : All (Keeps (λ w. PaidAs t₀ w.intents)) (first_steps c)
  first_steps_keep = (
    λ s acc w h. (Safe-create_customer s acc).at w h,
    (
      λ s acc w h. (Safe-create_admin_users s acc).at w h,
      (
        λ s acc w h. (Safe-create_catalog s acc).at w h,
        (
          λ s acc w h. (Safe-create_agreement s acc).at w h,
          (
            λ s acc w h. (Safe-trial s acc).at w h,
            (
              λ s acc w h. (Safe-first_paid s acc).at w h,
              (λ s acc w h. (Safe-renewal_step s acc).at w h, tt),
            ),
          ),
        ),
      ),
    ),
  )

  all_steps : All (Keeps (λ w. PaidAs t₀ w.intents)) (steps c)
  all_steps =
      All-append (Keeps (λ w. PaidAs t₀ w.intents)) (first_steps c) (notification_step c ∷ [])
        first_steps_keep ((λ s acc w h. (Safe-notification s acc).at w h), tt)

pub unchanged : (t : Intents) → AlikePaid t t
unchanged [] = tt
unchanged (i ∷ t) = ((refl, refl, refl, refl), unchanged t)

-- However the steps of the provisioning workflow end, every checkout intent is the same intent of the
-- same user and slug afterwards, and is in a state after a payment exactly when it was in one before,
-- provided that the keys are distinct and the intents that are linked to a workflow at the start have
-- been paid; both still hold afterwards. In particular no unpaid intent is fulfilled.
pub process_steps-PaidAs :
    {D X : Type 0} (c : Context D X) (env : Environment D (Object D)) (workflow_uuid : ℕ)
    (input_object : Result Raised (Dict (Object D))) (state : Output (Object D) × Option ℕ)
    (t : Table D) (w : World X)
    → IsKeyed w.intents
    → All LinkedPaid w.intents
    → PaidAs w.intents (process_steps env workflow_uuid input_object (steps c) state t w).2.intents
process_steps-PaidAs c env workflow_uuid input_object state t w keyed linked =
    process_steps-world (λ x. PaidAs w.intents x.intents) env workflow_uuid input_object (steps c)
      state t w (all_steps c w.intents) (keyed, linked, unchanged w.intents)
