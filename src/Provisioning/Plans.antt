-- ===== src/Provisioning/Plans.antt =====
-- process_input of the steps for the two plans and the renewal between them.
use enterprise_access.Prelude.{Option, err, none, ok, some, true, ℕ, ◌>>=◌}
use enterprise_access.Workflow.Types.{unit_of_work_exception}
use enterprise_access.Provisioning.Types.{Act, StripeSummary, done, ◌>>>◌}
use enterprise_access.Provisioning.Services.{
  get_or_create_subscription_plan, get_or_create_subscription_plan_renewal,
}
use enterprise_access.Provisioning.Steps.{
  Context, agreement_in, catalog_in, create_first_paid_subscription_plan_input,
  create_first_paid_subscription_plan_output, create_subscription_plan_renewal_output,
  create_trial_subscription_plan_input, create_trial_subscription_plan_output,
  get_linked_checkout_intent, own_input, paid_in, paid_input_of, reading, structure, trial_in,
  trial_input_of, trial_input_of_workflow,
}
use enterprise_access.Provisioning.Tracking.{
  Process, catching, failed_step, get_latest_for_checkout_intent, set_or, writing_renewal,
}

module _ {D X : Type 0} (c : Context D X) where
  -- GetCreateTrialSubscriptionPlanStep
  unfoldable pub create_trial_subscription_plan : Process D X
  create_trial_subscription_plan s acc =
      done (own_input c create_trial_subscription_plan_input s >>= trial_input_of) >>> λ i.
      done (set_or i.trial_catalog_uuid (catalog_in acc >>= λ o. ok o.catalog_uuid))
      >>> λ catalog_uuid. done (agreement_in acc) >>> λ agreement.
          catching
            (get_or_create_subscription_plan c.clients agreement.subscriptions (record {
              customer_agreement_uuid = agreement.agreement_uuid;
              request_title = i.trial_title;
              catalog = catalog_uuid;
              opp_line_item = some i.trial_line_item;
              start_date = i.trial_start_date;
              expiration_date = i.trial_expiration_date;
              num_licenses = i.desired_num_licenses;
              product_id = i.trial_product_id;
            }))
            (failed_step c 5 s.workflow_record_uuid agreement.agreement_uuid)
          >>> λ d. structure c create_trial_subscription_plan_output d

  -- GetCreateFirstPaidSubscriptionPlanStep
  unfoldable pub create_first_paid_subscription_plan : Process D X
  create_first_paid_subscription_plan s acc =
      done (own_input c create_first_paid_subscription_plan_input s >>= paid_input_of) >>> λ i.
      done (set_or i.paid_catalog_uuid (catalog_in acc >>= λ o. ok o.catalog_uuid))
      >>> λ catalog_uuid. done (agreement_in acc) >>> λ agreement.
          done (set_or i.paid_start_date (trial_in acc >>= λ o. ok o.plan_expiration_date))
          >>> λ start.
              done (set_or i.paid_expiration_date (ok (c.one_year_after start))) >>> λ end_date.
              done (trial_input_of_workflow c s.workflow_record_uuid) >>> λ trial.
              catching
                (get_or_create_subscription_plan c.clients agreement.subscriptions (record {
                  customer_agreement_uuid = agreement.agreement_uuid;
                  request_title = i.paid_title;
                  catalog = catalog_uuid;
                  opp_line_item = i.paid_line_item;
                  start_date = start;
                  expiration_date = end_date;
                  num_licenses = trial.desired_num_licenses;
                  product_id = i.paid_product_id;
                }))
                (failed_step c 6 s.workflow_record_uuid agreement.agreement_uuid)
              >>> λ d. structure c create_first_paid_subscription_plan_output d

  unfoldable pub with_summary : ℕ → Option StripeSummary → Act X StripeSummary
  with_summary text none = done (err (unit_of_work_exception 7 text))
  with_summary text (some x) = done (ok x)

  -- The record SelfServiceSubscriptionRenewal of a renewal; what is raised is raised again.
  unfoldable pub track_renewal : ℕ → D → Act X (Unit {0})
  track_renewal workflow d = get_linked_checkout_intent workflow >>> λ i.
      reading (λ w. ok (get_latest_for_checkout_intent i w.summaries))
      >>> with_summary i.pk
      >>> λ x. done (c.clients.id_of d) >>> λ id. writing_renewal (record {
        renewal_intent = i.pk;
        subscription_plan_renewal_id = id;
        stripe_subscription_id = x.summary_subscription_id;
        stripe_event_data = x.summary_event_data;
        prior_subscription_plan_uuid = c.clients.prior_of d;
        renewed_subscription_plan_uuid = c.clients.renewed_of d;
      })

  -- GetCreateSubscriptionPlanRenewalStep
  unfoldable pub create_subscription_plan_renewal_step : Process D X
  create_subscription_plan_renewal_step s acc = done (trial_in acc) >>> λ trial.
      done (paid_in acc) >>> λ paid_plan.
      done (trial_input_of_workflow c s.workflow_record_uuid) >>> λ input.
      catching
        (get_or_create_subscription_plan_renewal c.clients (record {
          prior_plan = trial.plan_uuid;
          renewed_plan = paid_plan.plan_uuid;
          opportunity_line_item = none;
          effective = trial.plan_expiration_date;
          renewed_expiration = paid_plan.plan_expiration_date;
          licenses = input.desired_num_licenses;
          exempt_from_batch_processing = true;
        }))
        (failed_step c 7 s.workflow_record_uuid trial.plan_uuid)
      >>> λ d. track_renewal s.workflow_record_uuid d >>> λ _.
          structure c create_subscription_plan_renewal_output d
