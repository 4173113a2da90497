-- ===== src/Provisioning/Types.antt =====
-- The input and output classes of provisioning/models.py, and the rows outside the workflow tables
-- that its steps write. Texts, uuids and countries are numbers, times are seconds.
use enterprise_access.Prelude.{Bool, List, Option, Result, err, ok, ℕ}
use enterprise_access.Workflow.Types.{Raised}
use enterprise_access.Checkout.Types.{Intents}

-- GetCreateCustomerStepInput
pub record CustomerInput : Type 0 where
  pub name : ℕ
  pub slug : ℕ
  pub country : ℕ

-- GetCreateCustomerStepOutput
pub record CustomerOutput : Type 0 where
  pub customer_uuid : ℕ
  pub customer_name : ℕ
  pub customer_slug : ℕ
  pub customer_country : ℕ

-- GetCreateEnterpriseAdminUsersOutput
pub record AdminsOutput : Type 0 where
  pub enterprise_customer_uuid : ℕ
  pub created_admins : List ℕ
  pub existing_admins : List ℕ

-- GetCreateCatalogStepInput
pub record CatalogInput : Type 0 where
  pub title : Option ℕ
  pub catalog_query_id : Option ℕ

-- GetCreateCatalogStepOutput
pub record CatalogOutput : Type 0 where
  pub catalog_uuid : ℕ
  pub catalog_customer_uuid : ℕ
  pub catalog_title : ℕ
  pub output_catalog_query_id : ℕ

-- GetCreateCustomerAgreementStepOutput, with the dictionaries of the subscriptions
pub record AgreementOutput (D : Type 0) : Type 0 where
  pub agreement_uuid : ℕ
  pub agreement_customer_uuid : ℕ
  pub subscriptions : List D
  pub agreement_default_catalog_uuid : Option ℕ

-- GetCreateTrialSubscriptionPlanStepInput
pub record TrialInput : Type 0 where
  pub trial_title : ℕ
  pub trial_line_item : ℕ
  pub trial_start_date : ℕ
  pub trial_expiration_date : ℕ
  pub desired_num_licenses : ℕ
  pub trial_product_id : ℕ
  pub trial_catalog_uuid : Option ℕ

-- GetCreateFirstPaidSubscriptionPlanStepInput
pub record PaidInput : Type 0 where
  pub paid_title : ℕ
  pub paid_product_id : ℕ
  pub paid_start_date : Option ℕ
  pub paid_expiration_date : Option ℕ
  pub paid_line_item : Option ℕ
  pub paid_catalog_uuid : Option ℕ

-- The outputs of the two steps of a subscription plan, which have the same fields.
pub record PlanOutput : Type 0 where
  pub plan_uuid : ℕ
  pub plan_title : ℕ
  pub plan_line_item : Option ℕ
  pub plan_created : ℕ
  pub plan_start_date : ℕ
  pub plan_expiration_date : ℕ
  pub plan_is_active : Bool
  pub plan_is_current : Bool
  pub plan_type : ℕ
  pub plan_catalog_uuid : ℕ
  pub plan_product : Option ℕ

-- GetCreateSubscriptionPlanRenewalStepOutput
pub record RenewalOutput : Type 0 where
  pub renewal_id : ℕ
  pub prior_subscription_plan : ℕ
  pub renewed_subscription_plan : ℕ
  pub number_of_licenses : ℕ
  pub effective_date : ℕ
  pub renewed_expiration_date : ℕ
  pub renewal_line_item : Option ℕ

-- An object of one of the classes.
pub data Object (D : Type 0) : Type 0 where
  customer_input : CustomerInput → Object D
  customer_output : CustomerOutput → Object D
  admins_input : (user_emails : List ℕ) → Object D
  admins_output : AdminsOutput → Object D
  catalog_input : CatalogInput → Object D
  catalog_output : CatalogOutput → Object D
  agreement_input : (default_catalog_uuid : Option ℕ) → Object D
  agreement_output : AgreementOutput D → Object D
  trial_input : TrialInput → Object D
  trial_output : PlanOutput → Object D
  paid_input : PaidInput → Object D
  paid_output : PlanOutput → Object D
  renewal_input notification_input : Object D
  renewal_output : RenewalOutput → Object D
  notification_output : Object D

-- StripeEventSummary
pub record StripeSummary : Type 0 where
  pub summary_intent : ℕ
  pub stripe_event_created_at : Option ℕ
  pub summary_subscription_id : Option ℕ
  pub summary_event_data : ℕ

-- SelfServiceSubscriptionRenewal
pub record Renewal : Type 0 where
  pub renewal_intent : ℕ
  pub subscription_plan_renewal_id : ℕ
  pub stripe_subscription_id : Option ℕ
  pub stripe_event_data : ℕ
  pub prior_subscription_plan_uuid : Option ℕ
  pub renewed_subscription_plan_uuid : Option ℕ

-- The confirmation e-mail: the dates of the trial, the licenses, and the customer.
pub record Confirmation : Type 0 where
  pub mail_start_date : ℕ
  pub mail_expiration_date : ℕ
  pub mail_licenses : ℕ
  pub mail_customer_name : ℕ
  pub mail_customer_slug : ℕ

-- The world of the steps: the services outside, in a state of their own, and the tables.
pub record World (X : Type 0) : Type 0 where
  pub services : X
  pub intents : Intents
  pub summaries : List StripeSummary
  pub renewals : List Renewal
  pub mails : List Confirmation

-- An action on the world that can raise; what it did before stays.
abbrev pub Act : Type 0 → Type 0 → Type 0
Act X A = World X → Result Raised A × World X

abbrev pub continued :
    {X A B : Type 0} → Result Raised A × World X → (A → Act X B) → Result Raised B × World X
continued (err e, w) next = (err e, w)
continued (ok a, w) next = next a w

infixl 5 ◌>>>◌
unfoldable pub ◌>>>◌ : {X A B : Type 0} → Act X A → (A → Act X B) → Act X B
first >>> next = λ w. continued (first w) next

unfoldable pub done : {X A : Type 0} → Result Raised A → Act X A
done result = λ w. (result, w)
