-- ===== src/Provisioning/Examples.antt =====
-- The provisioning of one customer, whose user has paid.
use enterprise_access.Prelude.{
  All, Dict, Option, Result, [], err, length, lookup, none, ok, refl, some, true, ℕ, ◌+◌, ◌==◌, ◌∷◌,
  ◌≡◌,
}
use enterprise_access.Workflow.Types.{Codec, Environment, Output, Raised, Table, UnitOfWork, raised}
use enterprise_access.Workflow.Run.{
  Left, execute_step, execute_workflow, found_step, got_or_created, input_of, process_input,
  process_step, process_steps, recorded,
}
use enterprise_access.Workflow.Found.{IsFresh}
use enterprise_access.Workflow.Outcome.{Finished, execute_workflow-Finished}
use enterprise_access.Workflow.Examples.{larger, next_key, reached}
use enterprise_access.Checkout.Types.{fulfillable_states}
use enterprise_access.Checkout.Table.{filter_by_name_and_slug}
use enterprise_access.Checkout.Examples.{bought}
use enterprise_access.Provisioning.Types.{
  Object, PlanOutput, TrialInput, World, admins_input, admins_output, agreement_input,
  agreement_output, catalog_input, catalog_output, customer_input, customer_output, done,
  notification_input, notification_output, paid_input, paid_output, renewal_input, renewal_output,
  trial_input, trial_output, ◌>>>◌,
}
use enterprise_access.Provisioning.Services.{
  Clients, api_client_exception, create_admin, create_admins, existing_or, first_or,
  get_or_create_customer_agreement, get_or_create_enterprise_admin_users,
  get_or_create_enterprise_catalog, get_or_create_enterprise_customer,
  get_or_create_subscription_plan, get_or_create_subscription_plan_renewal, insert_email, request,
  set_of_emails, sorted_emails,
}
use enterprise_access.Provisioning.Steps.{
  Context, fulfill_checkout_intent, get_fulfillable_checkout_intent_via_slug,
  get_linked_checkout_intent, link_checkout_intent, reading, saving, structure,
}
use enterprise_access.Provisioning.Tracking.{
  catching, failed_step, latest_summary, sending, update_or_create_renewal, writing_renewal,
}
use enterprise_access.Provisioning.Customer.{
  create_admin_users, create_catalog, create_customer, create_customer_agreement_step,
}
use enterprise_access.Provisioning.Plans.{
  create_first_paid_subscription_plan, create_subscription_plan_renewal_step,
  create_trial_subscription_plan, track_renewal, with_summary,
}
use enterprise_access.Provisioning.NewCustomer.{notification, notify_admin, steps}
use enterprise_access.Provisioning.Paid.{PaidAs}
use enterprise_access.Provisioning.Payments.{process_steps-PaidAs}
use enterprise_access.Provisioning.Fulfilled.{IsFulfilled, process_steps-IsFulfilled}

abbrev plan : PlanOutput
plan = record {
  plan_uuid = 70;
  plan_title = 71;
  plan_line_item = some 72;
  plan_created = 900;
  plan_start_date = 1000;
  plan_expiration_date = 2000;
  plan_is_active = true;
  plan_is_current = true;
  plan_type = 1;
  plan_catalog_uuid = 60;
  plan_product = some 2;
}

abbrev trial_request : TrialInput
trial_request = record {
  trial_title = 71;
  trial_line_item = 72;
  trial_start_date = 1000;
  trial_expiration_date = 2000;
  desired_num_licenses = 5;
  trial_product_id = 2;
  trial_catalog_uuid = none;
}

-- Each class has one object here.
abbrev objects : Dict (Object ℕ)
objects =
    (1, customer_input (record { name = 200; slug = 100; country = 3 }))
    ∷ (
      2,
      customer_output (record {
        customer_uuid = 50;
        customer_name = 200;
        customer_slug = 100;
        customer_country = 3;
      }),
    )
    ∷ (3, admins_input (8 ∷ 9 ∷ []))
    ∷ (
      4,
      admins_output (record {
        enterprise_customer_uuid = 50;
        created_admins = 9 ∷ [];
        existing_admins = 8 ∷ [];
      }),
    )
    ∷ (5, catalog_input (record { title = none; catalog_query_id = some 4 }))
    ∷ (
      6,
      catalog_output (record {
        catalog_uuid = 60;
        catalog_customer_uuid = 50;
        catalog_title = 61;
        output_catalog_query_id = 4;
      }),
    )
    ∷ (7, agreement_input none)
    ∷ (
      8,
      agreement_output (record {
        agreement_uuid = 65;
        agreement_customer_uuid = 50;
        subscriptions = [];
        agreement_default_catalog_uuid = none;
      }),
    )
    ∷ (9, trial_input trial_request)
    ∷ (10, trial_output plan)
    ∷ (
      11,
      paid_input (record {
        paid_title = 71;
        paid_product_id = 2;
        paid_start_date = none;
        paid_expiration_date = none;
        paid_line_item = none;
        paid_catalog_uuid = none;
      }),
    )
    ∷ (12, paid_output plan)
    ∷ (13, renewal_input)
    ∷ (
      14,
      renewal_output (record {
        renewal_id = 80;
        prior_subscription_plan = 70;
        renewed_subscription_plan = 70;
        number_of_licenses = 5;
        effective_date = 2000;
        renewed_expiration_date = 3000;
        renewal_line_item = none;
      }),
    )
    ∷ (15, notification_input)
    ∷ (16, notification_output)
    ∷ []

abbrev object_of : ℕ → Result Raised (Object ℕ)
object_of k = elim (lookup k objects) [ none ↦ err (raised k) | some o ↦ ok o ]

abbrev by_class : Codec ℕ (Object ℕ)
by_class = record {
  to_dict = λ o. ok 1;
  from_dict = λ k d. object_of k;
  no_data = 0;
  is_empty = λ d. d == 0;
}

abbrev surroundings : Environment ℕ (Object ℕ)
surroundings = record { now = 100; uuid4 = next_key; text = λ e. 9; codec = by_class }

-- A service that creates whatever it is asked for, and counts the requests.
abbrev clients : Clients ℕ ℕ
clients = record {
  get_enterprise_customer_data = λ slug x. (ok none, x + 1);
  create_enterprise_customer = λ name slug country x. (ok 50, x + 1);
  get_enterprise_admin_users = λ customer x. (ok (8 ∷ []), x + 1);
  create_enterprise_admin_user = λ customer email x. (err (api_client_exception 404), x + 1);
  create_enterprise_pending_admin_user = λ customer email x. (ok true, x + 1);
  get_enterprise_catalogs = λ customer query x. (ok [], x + 1);
  create_enterprise_catalog = λ customer title query x. (ok 60, x + 1);
  get_customer_agreement = λ customer x. (ok none, x + 1);
  create_customer_agreement = λ customer slug u x. (ok 65, x + 1);
  create_subscription_plan = λ r x. (ok 70, x + 1);
  create_subscription_plan_renewal = λ r x. (ok 80, x + 1);
  uuid_of = λ d. ok d;
  salesforce_opportunity_line_item = λ d. some d;
  id_of = λ d. ok d;
  prior_of = λ d. some 70;
  renewed_of = λ d. some 70;
  admins_dict = λ customer created_emails existing_emails. 1;
  with_catalog_keys = λ d. ok d;
}

abbrev inputs : Result Raised (Dict (Object ℕ))
inputs = ok (
    (1, customer_input (record { name = 200; slug = 100; country = 3 }))
    ∷ (9, trial_input trial_request)
    ∷ [])

abbrev context : Context ℕ ℕ
context = record {
  time = 100;
  codec = by_class;
  text_of = λ e. 9;
  input_of_workflow = λ u. inputs;
  clients = clients;
  product_id_to_catalog_query_id = λ p. none;
  one_year_after = λ d. d + 31536000;
  catalog_title_for = λ name. name;
  plain_title_for = λ name. name + 1;
}

abbrev paid_world : World ℕ
paid_world = record {
  services = 0;
  intents = bought ∷ [];
  summaries =
      record {
        summary_intent = 1;
        stripe_event_created_at = some 15;
        summary_subscription_id = some 90;
        summary_event_data = 91;
      }
      ∷ [];
  renewals = [];
  mails = [];
}

keyed-IsFresh : IsFresh surroundings
keyed-IsFresh t = larger (next_key t) t (reached (next_key t))

process_steps-PaidAs_example :
    PaidAs paid_world.intents
      (process_steps surroundings 6 inputs (steps context) ([], none) [] paid_world).2.intents
process_steps-PaidAs_example =
    process_steps-PaidAs context surroundings 6 inputs ([], none) [] paid_world (tt, tt)
      ((λ e. refl), tt)

abbrev provisioned : Left ℕ (Object ℕ) (World ℕ)
provisioned = process_steps surroundings 6 inputs (steps context) ([], none) [] paid_world

abbrev state_of : Result Raised (Output (Object ℕ) × Option ℕ) → Output (Object ℕ) × Option ℕ
state_of (ok state) = state
state_of (err e) = ([], none)

provisioning_run : provisioned ≡ (ok (state_of provisioned.0), provisioned.1, provisioned.2)
unfolding process_steps process_step found_step execute_step recorded got_or_created input_of
    create_customer create_admin_users create_catalog create_customer_agreement_step
    create_trial_subscription_plan create_first_paid_subscription_plan
    create_subscription_plan_renewal_step notification notify_admin track_renewal failed_step
    structure ◌>>>◌ done reading saving request existing_or first_or catching with_summary
    writing_renewal sending update_or_create_renewal latest_summary link_checkout_intent
    get_fulfillable_checkout_intent_via_slug fulfill_checkout_intent get_linked_checkout_intent
    filter_by_name_and_slug fulfillable_states get_or_create_enterprise_customer
    get_or_create_enterprise_catalog get_or_create_customer_agreement
    get_or_create_subscription_plan get_or_create_subscription_plan_renewal
    get_or_create_enterprise_admin_users create_admins create_admin set_of_emails sorted_emails
    insert_email
provisioning_run = refl

process_steps-IsFulfilled_example : IsFulfilled 6 provisioned.2.intents
process_steps-IsFulfilled_example =
    process_steps-IsFulfilled context surroundings 6 inputs ([], none) (state_of provisioned.0) []
      provisioned.1 paid_world provisioned.2 keyed-IsFresh tt tt (tt, tt) ((λ e. refl), tt)
      provisioning_run

-- The record of the workflow, before its execution and after it.
abbrev planned : UnitOfWork ℕ
planned = record {
  uuid = 6;
  input_data = 3;
  output_data = none;
  succeeded_at = none;
  failed_at = none;
  exception_message = none;
}

abbrev entries : Output (Object ℕ) → Result Raised ℕ
entries output = ok (length output)

-- The result, the record, the step tables and the world of an execution.
abbrev executed : Result Raised (Output (Object ℕ)) × UnitOfWork ℕ × Table ℕ × World ℕ
executed = execute_workflow surroundings entries 33 planned inputs (steps context) [] paid_world

executed_run : executed ≡ (ok (state_of provisioned.0).0, executed.1, executed.2, executed.3)
unfolding execute_workflow process_input process_steps process_step found_step execute_step recorded
    got_or_created input_of create_customer create_admin_users create_catalog
    create_customer_agreement_step create_trial_subscription_plan
    create_first_paid_subscription_plan create_subscription_plan_renewal_step notification
    notify_admin track_renewal failed_step structure ◌>>>◌ done reading saving request existing_or
    first_or catching with_summary writing_renewal sending update_or_create_renewal latest_summary
    link_checkout_intent get_fulfillable_checkout_intent_via_slug fulfill_checkout_intent
    get_linked_checkout_intent filter_by_name_and_slug fulfillable_states
    get_or_create_enterprise_customer get_or_create_enterprise_catalog
    get_or_create_customer_agreement get_or_create_subscription_plan
    get_or_create_subscription_plan_renewal get_or_create_enterprise_admin_users create_admins
    create_admin set_of_emails sorted_emails insert_email
executed_run = refl

execute_workflow-Finished_example :
    (executed.1.succeeded_at ≡ some surroundings.now)
    × ((d : ℕ) × (executed.1.output_data ≡ some d) × (entries (state_of provisioned.0).0 ≡ ok d))
    × All (λ k. Finished 6 executed.2 k) (steps context)
execute_workflow-Finished_example =
    execute_workflow-Finished surroundings inputs entries 33 planned executed.1 (steps context) []
      executed.2 paid_world executed.3 (state_of provisioned.0).0 keyed-IsFresh
      (
        (refl, (refl, (refl, (refl, (refl, (refl, (refl, tt))))))),
        (
          (refl, (refl, (refl, (refl, (refl, (refl, tt)))))),
          (
            (refl, (refl, (refl, (refl, (refl, tt))))),
            (
              (refl, (refl, (refl, (refl, tt)))),
              ((refl, (refl, (refl, tt))), ((refl, (refl, tt)), ((refl, tt), (tt, tt)))),
            ),
          ),
        ),
      )
      tt executed_run
