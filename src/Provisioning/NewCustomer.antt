-- ===== src/Provisioning/NewCustomer.antt =====
-- process_input of the last step, and the steps of ProvisionNewCustomerWorkflow.
use enterprise_access.Prelude.{List, [], err, ℕ, ◌++◌, ◌∷◌}
use enterprise_access.Workflow.Types.{Raised, StepClass, does_not_exist, unit_of_work_exception}
use enterprise_access.Provisioning.Types.{Act, Object, World, done, ◌>>>◌}
use enterprise_access.Provisioning.Steps.{
  Context, create_catalog_input, create_catalog_output, create_customer_agreement_input,
  create_customer_agreement_output, create_customer_input, create_customer_output,
  create_enterprise_admin_users_input, create_enterprise_admin_users_output,
  create_first_paid_subscription_plan_input, create_first_paid_subscription_plan_output,
  create_subscription_plan_renewal_input, create_subscription_plan_renewal_output,
  create_trial_subscription_plan_input, create_trial_subscription_plan_output, customer_in,
  fulfill_checkout_intent, notification_input_key, notification_output_key, structure, trial_in,
  trial_input_of_workflow,
}
use enterprise_access.Provisioning.Tracking.{Process, catching, sending}
use enterprise_access.Provisioning.Customer.{
  create_admin_users, create_catalog, create_customer, create_customer_agreement_step,
}
use enterprise_access.Provisioning.Plans.{
  create_first_paid_subscription_plan, create_subscription_plan_renewal_step,
  create_trial_subscription_plan,
}

module _ {D X : Type 0} (c : Context D X) where
  unfoldable pub or_no_intent : Raised → Act X (Unit {0})
  or_no_intent does_not_exist = done (err (unit_of_work_exception 8 0))
  or_no_intent e = done (err e)

  -- The e-mail of NotificationStep, and its output.
  unfoldable pub notify_admin : Process D X
  notify_admin s acc = done (trial_input_of_workflow c s.workflow_record_uuid) >>> λ input.
      done (trial_in acc) >>> λ trial. done (customer_in acc) >>> λ customer.
      sending (record {
        mail_start_date = trial.plan_start_date;
        mail_expiration_date = trial.plan_expiration_date;
        mail_licenses = input.desired_num_licenses;
        mail_customer_name = customer.customer_name;
        mail_customer_slug = customer.customer_slug;
      })
      >>> λ _. structure c notification_output_key c.codec.no_data

  -- NotificationStep
  unfoldable pub notification : Process D X
  notification s acc =
      catching (fulfill_checkout_intent c s.workflow_record_uuid) or_no_intent >>> λ _.
      notify_admin s acc

  abbrev pub step_class :
      (kind input_key output_key : ℕ) → Process D X → StepClass D (Object D) (World X)
  step_class kind input_class output_class process = record {
    step_kind = kind;
    input_key = input_class;
    output_key = output_class;
    exception_class = kind;
    process_input = process;
  }

  -- `ProvisionNewCustomerWorkflow.steps` before the last
  abbrev pub first_steps : List (StepClass D (Object D) (World X))
  first_steps =
      step_class 1 create_customer_input create_customer_output (create_customer c)
      ∷ step_class 2 create_enterprise_admin_users_input create_enterprise_admin_users_output
          (create_admin_users c)
      ∷ step_class 3 create_catalog_input create_catalog_output (create_catalog c)
      ∷ step_class 4 create_customer_agreement_input create_customer_agreement_output
          (create_customer_agreement_step c)
      ∷ step_class 5 create_trial_subscription_plan_input create_trial_subscription_plan_output
          (create_trial_subscription_plan c)
      ∷ step_class 6 create_first_paid_subscription_plan_input
          create_first_paid_subscription_plan_output (create_first_paid_subscription_plan c)
      ∷ step_class 7 create_subscription_plan_renewal_input create_subscription_plan_renewal_output
          (create_subscription_plan_renewal_step c)
      ∷ []

  abbrev pub notification_step : StepClass D (Object D) (World X)
  notification_step = step_class 8 notification_input_key notification_output_key notification

  -- `ProvisionNewCustomerWorkflow.steps`
  abbrev pub steps : List (StepClass D (Object D) (World X))
  steps = first_steps ++ notification_step ∷ []
