-- ===== src/Provisioning/Tracking.antt =====
-- The exceptions around a step, and the records of renewals (provisioning/models.py, and
-- SelfServiceSubscriptionRenewal and StripeEventSummary of customer_billing/models.py).
use enterprise_access.Prelude.{
  Bool, List, Option, Result, [], any, err, false, filter, if◌then◌else◌, is_some, ltb, map, none,
  not, ok, some, true, ℕ, ◌&&◌, ◌++◌, ◌==◌, ◌>>=◌, ◌∷◌,
}
use enterprise_access.Workflow.Types.{
  Output, Raised, Step, does_not_exist, integrity_error, multiple_objects_returned,
  unit_of_work_exception,
}
use enterprise_access.Checkout.Types.{Intent}
use enterprise_access.Provisioning.Types.{
  Act, Confirmation, Object, Renewal, StripeSummary, World, done, ◌>>>◌,
}
use enterprise_access.Provisioning.Steps.{Context, error_checkout_intent}

abbrev pub Process : Type 0 → Type 0 → Type 0
Process D X = Step D → Output (Object D) → Act X (Option (Object D))

-- `x if x else y`, where a value that is set is true
abbrev pub set_or : Option ℕ → Result Raised ℕ → Result Raised ℕ
set_or (some x) otherwise = ok x
set_or none otherwise = otherwise

-- `try: ... except Exception as exc`
abbrev pub recovered :
    {X A : Type 0} → Result Raised A × World X → (Raised → Act X A) → Result Raised A × World X
recovered (ok a, w) handler = (ok a, w)
recovered (err e, w) handler = handler e w

unfoldable pub catching : {X A : Type 0} → Act X A → (Raised → Act X A) → Act X A
catching body handler = λ w. recovered (body w) handler

-- `except CheckoutIntent.DoesNotExist`, which logs
unfoldable pub unless_missing : {X : Type 0} → Raised → Act X (Unit {0})
unless_missing does_not_exist = done (ok tt)
unless_missing e = done (err e)

-- `order_by('-stripe_event_created_at').first()` of the summaries of an intent with a subscription
abbrev pub earlier_summary : Option ℕ → Option ℕ → Bool
earlier_summary none none = false
earlier_summary none (some _) = true
earlier_summary (some _) none = false
earlier_summary (some a) (some b) = ltb a b

abbrev pub later_of : StripeSummary → Option StripeSummary → StripeSummary
later_of x none = x
later_of x (some y) =
    if earlier_summary x.stripe_event_created_at y.stripe_event_created_at then y else x

unfoldable pub latest_summary : List StripeSummary → Option StripeSummary
latest_summary [] = none
latest_summary (x ∷ xs) = some (later_of x (latest_summary xs))

abbrev pub get_latest_for_checkout_intent : Intent → List StripeSummary → Option StripeSummary
get_latest_for_checkout_intent i summaries =
    latest_summary
      (filter (λ x. (x.summary_intent == i.pk) && is_some x.summary_subscription_id) summaries)

-- `update_or_create(checkout_intent, subscription_plan_renewal_id)`; an event's data belongs to one
-- renewal.
abbrev pub same_renewal : Renewal → Renewal → Bool
same_renewal r q =
    (q.renewal_intent == r.renewal_intent)
    && (q.subscription_plan_renewal_id == r.subscription_plan_renewal_id)

abbrev pub written_renewal : Renewal → List Renewal → List Renewal → Result Raised (List Renewal)
written_renewal r t [] = ok (t ++ r ∷ [])
written_renewal r t (q ∷ []) = ok (map (λ x. if same_renewal r x then r else x) t)
written_renewal r t (q ∷ p ∷ rest) = err multiple_objects_returned

unfoldable pub update_or_create_renewal : Renewal → List Renewal → Result Raised (List Renewal)
update_or_create_renewal r t = written_renewal r t (filter (same_renewal r) t) >>= λ t₁.
    if any (λ q. not (same_renewal r q) && (q.stripe_event_data == r.stripe_event_data)) t
    then err integrity_error
    else ok t₁

module _ {X : Type 0} where
  abbrev pub written_back :
      World X → Result Raised (List Renewal) → Result Raised (Unit {0}) × World X
  written_back w (err e) = (err e, w)
  written_back w (ok t) = (ok tt, record w { renewals = t })

  unfoldable pub writing_renewal : Renewal → Act X (Unit {0})
  writing_renewal r = λ w. written_back w (update_or_create_renewal r w.renewals)

  unfoldable pub sending : Confirmation → Act X (Unit {0})
  sending m = λ w. (ok tt, record w { mails = w.mails ++ m ∷ [] })

module _ {D X : Type 0} (c : Context D X) where
  -- The handler around a plan or a renewal: the linked intent is errored, and the class is raised.
  unfoldable pub failed_step : {A : Type 0} → ℕ → ℕ → ℕ → Raised → Act X A
  failed_step exception_class workflow text e =
      catching (error_checkout_intent c workflow e) unless_missing >>> λ _.
      done (err (unit_of_work_exception exception_class text))
