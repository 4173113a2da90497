-- ===== src/Provisioning/Steps.antt =====
-- The steps of ProvisionNewCustomerWorkflow (provisioning/models.py), with the checkout intent that
-- they link, err and fulfil.
use enterprise_access.Prelude.{
  Bool, Dict, List, Option, Result, [], any, err, filter, if◌then◌else◌, lookup, none, not, ok,
  opt_eq, some, ℕ, ◌&&◌, ◌==◌, ◌>>=◌, ◌∷◌,
}
use enterprise_access.Workflow.Types.{
  Codec, Output, Raised, Step, attribute_error, does_not_exist, integrity_error,
  multiple_objects_returned,
}
use enterprise_access.Checkout.Types.{
  Intent, IntentError, Intents, errored_provisioning, fulfillable_states, fulfilled, message,
  same_state,
}
use enterprise_access.Checkout.Table.{filter_by_name_and_slug, on_row}
use enterprise_access.Provisioning.Types.{
  Act, AgreementOutput, CatalogInput, CatalogOutput, CustomerInput, CustomerOutput, Object,
  PaidInput, PlanOutput, TrialInput, World, admins_input, agreement_input, agreement_output,
  catalog_input, catalog_output, customer_input, customer_output, done, paid_input, paid_output,
  trial_input, trial_output, ◌>>>◌,
}
use enterprise_access.Provisioning.Services.{Clients}

-- What the steps read: the clock, the conversion of dictionaries, `str` of an exception as a
-- message, the input object of the workflow of a key, the product settings, and the end of a year.
pub record Context (D X : Type 0) : Type 0 where
  pub time : ℕ
  pub codec : Codec D (Object D)
  pub text_of : Raised → ℕ
  pub input_of_workflow : ℕ → Result Raised (Dict (Object D))
  pub clients : Clients D X
  pub product_id_to_catalog_query_id : ℕ → Option ℕ
  pub one_year_after : ℕ → ℕ
  -- the title f"{customer_name} Subscription Catalog"
  pub catalog_title_for : ℕ → ℕ
  -- the title f"{customer_name} Catalog", without a subsidy type
  pub plain_title_for : ℕ → ℕ

-- The KEY of each class.
abbrev pub create_customer_input : ℕ
create_customer_input = 1

abbrev pub create_customer_output : ℕ
create_customer_output = 2

abbrev pub create_enterprise_admin_users_input : ℕ
create_enterprise_admin_users_input = 3

abbrev pub create_enterprise_admin_users_output : ℕ
create_enterprise_admin_users_output = 4

abbrev pub create_catalog_input : ℕ
create_catalog_input = 5

abbrev pub create_catalog_output : ℕ
create_catalog_output = 6

abbrev pub create_customer_agreement_input : ℕ
create_customer_agreement_input = 7

abbrev pub create_customer_agreement_output : ℕ
create_customer_agreement_output = 8

abbrev pub create_trial_subscription_plan_input : ℕ
create_trial_subscription_plan_input = 9

abbrev pub create_trial_subscription_plan_output : ℕ
create_trial_subscription_plan_output = 10

abbrev pub create_first_paid_subscription_plan_input : ℕ
create_first_paid_subscription_plan_input = 11

abbrev pub create_first_paid_subscription_plan_output : ℕ
create_first_paid_subscription_plan_output = 12

abbrev pub create_subscription_plan_renewal_input : ℕ
create_subscription_plan_renewal_input = 13

abbrev pub create_subscription_plan_renewal_output : ℕ
create_subscription_plan_renewal_output = 14

abbrev pub notification_input_key : ℕ
notification_input_key = 15

abbrev pub notification_output_key : ℕ
notification_output_key = 16

module _ {D : Type 0} where
  -- An attribute of an input object, or of the accumulated output: it is not there, or None, or an
  -- object of its class.
  abbrev pub attribute : Option (Object D) → Result Raised (Object D)
  attribute none = err attribute_error
  attribute (some o) = ok o

  abbrev pub output_attribute : ℕ → Output (Object D) → Result Raised (Object D)
  output_attribute key acc = elim (lookup key acc) [
    | none ↦ err attribute_error
    | some o ↦ attribute o
  ]

  abbrev pub customer_input_of : Object D → Result Raised CustomerInput
  customer_input_of (customer_input i) = ok i
  customer_input_of _ = err attribute_error

  abbrev pub customer_of : Object D → Result Raised CustomerOutput
  customer_of (customer_output o) = ok o
  customer_of _ = err attribute_error

  abbrev pub emails_of : Object D → Result Raised (List ℕ)
  emails_of (admins_input emails) = ok emails
  emails_of _ = err attribute_error

  abbrev pub catalog_input_of : Object D → Result Raised CatalogInput
  catalog_input_of (catalog_input i) = ok i
  catalog_input_of _ = err attribute_error

  abbrev pub default_catalog_of : Object D → Result Raised (Option ℕ)
  default_catalog_of (agreement_input u) = ok u
  default_catalog_of _ = err attribute_error

  abbrev pub catalog_of : Object D → Result Raised CatalogOutput
  catalog_of (catalog_output o) = ok o
  catalog_of _ = err attribute_error

  abbrev pub agreement_of : Object D → Result Raised (AgreementOutput D)
  agreement_of (agreement_output o) = ok o
  agreement_of _ = err attribute_error

  abbrev pub trial_input_of : Object D → Result Raised TrialInput
  trial_input_of (trial_input i) = ok i
  trial_input_of _ = err attribute_error

  abbrev pub paid_input_of : Object D → Result Raised PaidInput
  paid_input_of (paid_input i) = ok i
  paid_input_of _ = err attribute_error

  abbrev pub plan_of : Object D → Result Raised PlanOutput
  plan_of (trial_output o) = ok o
  plan_of (paid_output o) = ok o
  plan_of _ = err attribute_error

  abbrev pub customer_in : Output (Object D) → Result Raised CustomerOutput
  customer_in acc = output_attribute create_customer_output acc >>= customer_of

  abbrev pub catalog_in : Output (Object D) → Result Raised CatalogOutput
  catalog_in acc = output_attribute create_catalog_output acc >>= catalog_of

  abbrev pub agreement_in : Output (Object D) → Result Raised (AgreementOutput D)
  agreement_in acc = output_attribute create_customer_agreement_output acc >>= agreement_of

  abbrev pub trial_in : Output (Object D) → Result Raised PlanOutput
  trial_in acc = output_attribute create_trial_subscription_plan_output acc >>= plan_of

  abbrev pub paid_in : Output (Object D) → Result Raised PlanOutput
  paid_in acc = output_attribute create_first_paid_subscription_plan_output acc >>= plan_of

-- The tables of the intents, of CheckoutIntentStepMixin.
abbrev pub save_intent : Intent → Intents → Intents
save_intent i t = on_row i.pk (λ _. i) t

abbrev pub is_fulfillable : Intent → Bool
is_fulfillable i = any (same_state i.state) fulfillable_states

-- `filter_by_name_and_slug` raises a ValueError without a slug.
abbrev pub rows_or_raise : Result IntentError Intents → Result Raised Intents
rows_or_raise (ok rows) = ok rows
rows_or_raise (err e) = err Raised.value_error

abbrev pub first_intent : Intents → Result Raised Intent
first_intent [] = err does_not_exist
first_intent (i ∷ rest) = ok i

abbrev pub only_intent : Intents → Result Raised Intent
only_intent [] = err does_not_exist
only_intent (i ∷ []) = ok i
only_intent (i ∷ j ∷ rest) = err multiple_objects_returned

-- Another intent has the workflow: the column is unique.
abbrev pub linked_elsewhere : ℕ → Intent → Intents → Bool
linked_elsewhere workflow i t = any (λ j. opt_eq j.workflow (some workflow) && not (j.pk == i.pk)) t

abbrev pub linked_intent : ℕ → Intents → Result Raised Intent
linked_intent workflow t = only_intent (filter (λ i. opt_eq i.workflow (some workflow)) t)

abbrev pub errored_intent : ℕ → ℕ → Intent → Intent
errored_intent now text i = record i {
  last_provisioning_error = some (message text);
  state = errored_provisioning;
  modified = now;
}

abbrev pub fulfilled_intent : ℕ → Intent → Intent
fulfilled_intent now i = record i { state = fulfilled; modified = now }

module _ {X : Type 0} where
  -- A read of the tables.
  unfoldable pub reading : {A : Type 0} → (World X → Result Raised A) → Act X A
  reading read = λ w. (read w, w)

  unfoldable pub saving : Intent → Act X (Unit {0})
  saving i = λ w. (ok tt, record w { intents = save_intent i w.intents })

  -- `get_linked_checkout_intent`
  unfoldable pub get_linked_checkout_intent : ℕ → Act X Intent
  get_linked_checkout_intent workflow = reading (λ w. linked_intent workflow w.intents)

module _ {D X : Type 0} (c : Context D X) where
  -- `get_workflow_record().input_object.create_customer_input.slug`
  abbrev pub slug_of_workflow : ℕ → Result Raised ℕ
  slug_of_workflow workflow = c.input_of_workflow workflow >>= λ i.
      attribute (lookup create_customer_input i) >>= customer_input_of >>= λ o. ok o.slug

  abbrev pub trial_input_of_workflow : ℕ → Result Raised TrialInput
  trial_input_of_workflow workflow = c.input_of_workflow workflow >>= λ i.
      attribute (lookup create_trial_subscription_plan_input i) >>= trial_input_of

  unfoldable pub get_fulfillable_checkout_intent_via_slug : ℕ → Act X Intent
  get_fulfillable_checkout_intent_via_slug workflow = reading (λ w.
      slug_of_workflow workflow >>= λ slug.
      rows_or_raise (filter_by_name_and_slug (some slug) none w.intents) >>= λ rows.
      first_intent (filter is_fulfillable rows))

  unfoldable pub link_checkout_intent : ℕ → ℕ → Act X (Unit {0})
  link_checkout_intent workflow customer =
      get_fulfillable_checkout_intent_via_slug workflow >>> λ i.
      reading (λ w. if linked_elsewhere workflow i w.intents then err integrity_error else ok tt)
      >>> λ _. saving (record i {
        workflow = some workflow;
        enterprise_uuid = some customer;
        modified = c.time;
      })

  unfoldable pub error_checkout_intent : ℕ → Raised → Act X (Unit {0})
  error_checkout_intent workflow e =
      get_linked_checkout_intent workflow >>> λ i. saving (errored_intent c.time (c.text_of e) i)

  unfoldable pub fulfill_checkout_intent : ℕ → Act X (Unit {0})
  fulfill_checkout_intent workflow =
      get_linked_checkout_intent workflow >>> λ i. saving (fulfilled_intent c.time i)

  unfoldable pub structure : ℕ → D → Act X (Option (Object D))
  structure output_class d = done (c.codec.from_dict output_class d >>= λ o. ok (some o))

  -- The input object of the step itself.
  abbrev pub own_input : ℕ → Step D → Result Raised (Object D)
  own_input input_class s = c.codec.from_dict input_class s.work.input_data
