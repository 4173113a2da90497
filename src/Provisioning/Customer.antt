-- ===== src/Provisioning/Customer.antt =====
-- process_input of the steps for the customer, its admins, its catalog and its agreement.
use enterprise_access.Prelude.{
  Dict, Result, err, if◌then◌else◌, is_present, is_some, lookup, ok, ℕ, ◌>>=◌,
}
use enterprise_access.Workflow.Types.{Raised, attribute_error, unit_of_work_exception}
use enterprise_access.Provisioning.Types.{Object, TrialInput, done, ◌>>>◌}
use enterprise_access.Provisioning.Services.{
  get_or_create_customer_agreement, get_or_create_enterprise_admin_users,
  get_or_create_enterprise_catalog, get_or_create_enterprise_customer,
}
use enterprise_access.Provisioning.Steps.{
  Context, catalog_input_of, create_catalog_input, create_catalog_output,
  create_customer_agreement_input, create_customer_agreement_output, create_customer_input,
  create_customer_output, create_enterprise_admin_users_input, create_enterprise_admin_users_output,
  create_trial_subscription_plan_input, customer_in, customer_input_of, default_catalog_of,
  emails_of, link_checkout_intent, own_input, structure, trial_input_of_workflow,
}
use enterprise_access.Provisioning.Tracking.{Process, set_or}

module _ {D X : Type 0} (c : Context D X) where
  -- GetCreateCustomerStep
  unfoldable pub create_customer : Process D X
  create_customer s acc = done (own_input c create_customer_input s >>= customer_input_of) >>> λ i.
      get_or_create_enterprise_customer c.clients i.name i.slug i.country >>> λ d.
      done (c.clients.uuid_of d) >>> λ uuid.
      link_checkout_intent c s.workflow_record_uuid uuid >>> λ _.
      structure c create_customer_output d

  -- GetCreateEnterpriseAdminUsersStep
  unfoldable pub create_admin_users : Process D X
  create_admin_users s acc = done (own_input c create_enterprise_admin_users_input s) >>> λ i.
      done (customer_in acc) >>> λ customer. done (emails_of i) >>> λ emails.
      get_or_create_enterprise_admin_users c.clients customer.customer_uuid emails >>> λ d.
      structure c create_enterprise_admin_users_output d

  -- `_get_catalog_title`; None has no SUBSIDY_TYPE, so that the title goes without it.
  abbrev pub get_catalog_title :
      Result Raised (Object D) → Result Raised (Dict (Object D)) → ℕ → Result Raised ℕ
  get_catalog_title own workflow_input customer_name = own >>= catalog_input_of >>= λ i.
      if is_present i.title
      then set_or i.title (err attribute_error)
      else (workflow_input >>= λ attributes. ok (
          if is_some (lookup create_trial_subscription_plan_input attributes)
          then c.catalog_title_for customer_name
          else c.plain_title_for customer_name))

  -- `_get_catalog_query_id`
  abbrev pub get_catalog_query_id :
      Result Raised (Object D) → Result Raised TrialInput → Result Raised ℕ
  get_catalog_query_id own trial = own >>= catalog_input_of >>= λ i.
      if is_present i.catalog_query_id
      then set_or i.catalog_query_id (err attribute_error)
      else (trial >>= λ t.
          set_or (c.product_id_to_catalog_query_id t.trial_product_id)
            (err (unit_of_work_exception 3 t.trial_product_id)))

  -- GetCreateCatalogStep
  unfoldable pub create_catalog : Process D X
  create_catalog s acc =
      let own = own_input c create_catalog_input s in
      let workflow_input = c.input_of_workflow s.workflow_record_uuid in
      done (customer_in acc) >>> λ customer. done workflow_input >>> λ _.
      done (get_catalog_title own workflow_input customer.customer_name) >>> λ title.
      done (get_catalog_query_id own (trial_input_of_workflow c s.workflow_record_uuid))
      >>> λ query.
          get_or_create_enterprise_catalog c.clients customer.customer_uuid title query >>> λ d.
          done (c.clients.with_catalog_keys d) >>> λ full. structure c create_catalog_output full

  -- GetCreateCustomerAgreementStep
  unfoldable pub create_customer_agreement_step : Process D X
  create_customer_agreement_step s acc = done (customer_in acc) >>> λ customer.
      done (own_input c create_customer_agreement_input s >>= default_catalog_of)
      >>> λ default_catalog.
          get_or_create_customer_agreement c.clients customer.customer_uuid customer.customer_slug
            default_catalog
          >>> λ d. structure c create_customer_agreement_output d
