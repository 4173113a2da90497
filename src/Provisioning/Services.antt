-- ===== src/Provisioning/Services.antt =====
-- provisioning/api.py, on what the clients of the LMS and of the license manager answer.
use enterprise_access.Prelude.{
  Bool, List, Option, Result, [], any, err, false, filter, find, if◌then◌else◌, ltb, none, not, ok,
  opt_eq, some, true, ℕ, ◌==◌, ◌∷◌,
}
use enterprise_access.Workflow.Types.{Raised}
use enterprise_access.Provisioning.Types.{Act, done, ◌>>>◌}

-- A request to a service, which has a state of its own.
abbrev pub Call : Type 0 → Type 0 → Type 0
Call X A = X → Result Raised A × X

-- What the creation of an admin raises: an APIClientException with the status of the response that
-- caused it, or another exception.
pub data AdminError : Type 0 where
  api_client_exception : (status_code : ℕ) → AdminError
  other_exception : Raised → AdminError

-- The arguments of the creation of a plan, and of a renewal.
pub record PlanRequest : Type 0 where
  pub customer_agreement_uuid : ℕ
  pub request_title : ℕ
  pub catalog : ℕ
  pub opp_line_item : Option ℕ
  pub start_date : ℕ
  pub expiration_date : ℕ
  pub num_licenses : ℕ
  pub product_id : ℕ

pub record RenewalRequest : Type 0 where
  pub prior_plan : ℕ
  pub renewed_plan : ℕ
  pub opportunity_line_item : Option ℕ
  pub effective : ℕ
  pub renewed_expiration : ℕ
  pub licenses : ℕ
  pub exempt_from_batch_processing : Bool

-- The clients, and the dictionaries they answer; an empty answer is `none`. Keys that are only
-- logged are there.
pub record Clients (D X : Type 0) : Type 0 where
  pub get_enterprise_customer_data : ℕ → Call X (Option D)
  pub create_enterprise_customer : (name slug country : ℕ) → Call X D
  pub get_enterprise_admin_users : ℕ → Call X (List ℕ)
  pub create_enterprise_admin_user : ℕ → ℕ → X → Result AdminError (Unit {0}) × X
  -- whether the answer is a dictionary with entries
  pub create_enterprise_pending_admin_user : ℕ → ℕ → X → Result AdminError Bool × X
  pub get_enterprise_catalogs : (customer catalog_query_id : ℕ) → Call X (List D)
  pub create_enterprise_catalog : (customer catalog_title catalog_query_id : ℕ) → Call X D
  pub get_customer_agreement : ℕ → Call X (Option D)
  pub create_customer_agreement : (customer slug : ℕ) → Option ℕ → Call X D
  pub create_subscription_plan : PlanRequest → Call X D
  pub create_subscription_plan_renewal : RenewalRequest → Call X D
  -- the keys that are read of the dictionaries
  pub uuid_of : D → Result Raised ℕ
  pub salesforce_opportunity_line_item : D → Option ℕ
  pub id_of : D → Result Raised ℕ
  pub prior_of : D → Option ℕ
  pub renewed_of : D → Option ℕ
  -- the dictionary of the admins, and the keys that the catalog step adds
  pub admins_dict : (customer : ℕ) → (created existing : List ℕ) → D
  pub with_catalog_keys : D → Result Raised D

module _ {X : Type 0} where
  unfoldable pub request : {A : Type 0} → Call X A → Act X A
  request call w = let (result, x) = call w.services in (result, record w { services = x })

module _ {D X : Type 0} where
  unfoldable pub existing_or : Option D → Act X D → Act X D
  existing_or none create = create
  existing_or (some d) create = done (ok d)

  unfoldable pub first_or : List D → Act X D → Act X D
  first_or [] create = create
  first_or (d ∷ ds) create = done (ok d)

  unfoldable pub get_or_create_enterprise_customer : Clients D X → (name slug country : ℕ) → Act X D
  get_or_create_enterprise_customer c name slug country =
      request (c.get_enterprise_customer_data slug) >>> λ found.
      existing_or found (request (c.create_enterprise_customer name slug country))

  unfoldable pub get_or_create_enterprise_catalog :
      Clients D X → (customer catalog_title catalog_query_id : ℕ) → Act X D
  get_or_create_enterprise_catalog c customer title query =
      request (c.get_enterprise_catalogs customer query) >>> λ found.
      first_or found (request (c.create_enterprise_catalog customer title query))

  unfoldable pub get_or_create_customer_agreement :
      Clients D X → (customer slug : ℕ) → Option ℕ → Act X D
  get_or_create_customer_agreement c customer slug default_catalog =
      request (c.get_customer_agreement customer) >>> λ found.
      existing_or found (request (c.create_customer_agreement customer slug default_catalog))

  -- A None line item matches a plan without one.
  unfoldable pub get_or_create_subscription_plan : Clients D X → List D → PlanRequest → Act X D
  get_or_create_subscription_plan c subs r =
      existing_or (find (λ d. opt_eq (c.salesforce_opportunity_line_item d) r.opp_line_item) subs)
        (request (c.create_subscription_plan r))

  unfoldable pub get_or_create_subscription_plan_renewal : Clients D X → RenewalRequest → Act X D
  get_or_create_subscription_plan_renewal c r =
      request
        (c.create_subscription_plan_renewal (record r { exempt_from_batch_processing = true }))

-- The admins.
abbrev pub has_email : List ℕ → ℕ → Bool
has_email emails e = any (λ f. f == e) emails

-- `set(emails)`, as a list
unfoldable pub set_of_emails : List ℕ → List ℕ
set_of_emails [] = []
set_of_emails (e ∷ emails) = e ∷ filter (λ f. not (f == e)) (set_of_emails emails)

-- `sorted(..., key=itemgetter('user_email'))`
unfoldable pub insert_email : ℕ → List ℕ → List ℕ
insert_email e [] = e ∷ []
insert_email e (f ∷ emails) =
    let rest = insert_email e emails in if ltb f e then f ∷ rest else e ∷ f ∷ emails

unfoldable pub sorted_emails : List ℕ → List ℕ
sorted_emails [] = []
sorted_emails (e ∷ emails) = insert_email e (sorted_emails emails)

module _ {D X : Type 0} (c : Clients D X) (customer : ℕ) where
  -- `_try_create_pending_admin`
  abbrev pub pending_created : Result AdminError Bool × X → Result Raised Bool × X
  pending_created (ok b, x) = (ok b, x)
  pending_created (err (api_client_exception status), x) = (ok false, x)
  pending_created (err (other_exception e), x) = (err e, x)

  abbrev pub after_404 : ℕ → ℕ → X → Result Raised Bool × X
  after_404 email status x =
      if status == 404
      then pending_created (c.create_enterprise_pending_admin_user customer email x)
      else (ok false, x)

  abbrev pub admin_created : ℕ → Result AdminError (Unit {0}) × X → Result Raised Bool × X
  admin_created email (ok u, x) = (ok true, x)
  admin_created email (err (api_client_exception status), x) = after_404 email status x
  admin_created email (err (other_exception e), x) = (err e, x)

  -- One turn of the loop: whether the e-mail is added to the created admins.
  unfoldable pub create_admin : ℕ → Call X Bool
  create_admin email x = admin_created email (c.create_enterprise_admin_user customer email x)

  abbrev pub added : Bool → ℕ → List ℕ → List ℕ
  added b e emails = if b then e ∷ emails else emails

  unfoldable pub create_admins : List ℕ → Act X (List ℕ)
  create_admins [] = done (ok [])
  create_admins (e ∷ emails) =
      request (create_admin e) >>> λ b. create_admins emails >>> λ rest. done (ok (added b e rest))

  unfoldable pub get_or_create_enterprise_admin_users : List ℕ → Act X D
  get_or_create_enterprise_admin_users user_emails =
      request (c.get_enterprise_admin_users customer) >>> λ existing.
      create_admins (filter (λ e. not (has_email existing e)) (set_of_emails user_emails))
      >>> λ created_emails. done (
          ok (
            c.admins_dict customer (sorted_emails created_emails)
              (sorted_emails (set_of_emails existing))))
