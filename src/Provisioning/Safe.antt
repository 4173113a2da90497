-- ===== src/Provisioning/Safe.antt =====
-- Predicates on the intents that the actions of provisioning keep, one rule for each way to build an
-- action.
use enterprise_access.Prelude.{
  Bool, List, Option, Result, Result-cases, [], err, false, if◌then◌else◌, inl, inr, none, ok, some,
  true, ℕ, ◌∷◌, ◌≡◌,
}
use enterprise_access.Workflow.Types.{
  Raised, attribute_error, does_not_exist, integrity_error, multiple_objects_returned, raised,
  unit_of_work_exception,
}
use enterprise_access.Checkout.Types.{Intents}
use enterprise_access.Provisioning.Types.{Act, Confirmation, Renewal, World, continued, done, ◌>>>◌}
use enterprise_access.Provisioning.Services.{
  Call, Clients, PlanRequest, RenewalRequest, create_admins, existing_or, first_or,
  get_or_create_customer_agreement, get_or_create_enterprise_admin_users,
  get_or_create_enterprise_catalog, get_or_create_enterprise_customer,
  get_or_create_subscription_plan, get_or_create_subscription_plan_renewal, request,
}
use enterprise_access.Provisioning.Steps.{reading}
use enterprise_access.Provisioning.Tracking.{
  catching, recovered, sending, unless_missing, update_or_create_renewal, writing_renewal,
  written_back,
}

-- The action keeps `Q` of the intents, whether it returns or raises.
pub record Safe {X A : Type 0} (Q : Intents → Type 0) (m : Act X A) : Type 0 where
  pub at : (w : World X) → Q w.intents → Q (m w).1.intents

module _ {X A : Type 0} {Q : Intents → Type 0} where
  pub Safe-done : (r : Result Raised A) → Safe {X = X} Q (done r)
  unfolding done
  Safe-done r = record { at = λ w h. h }

  pub Safe-reading : (read : World X → Result Raised A) → Safe Q (reading read)
  unfolding reading
  Safe-reading read = record { at = λ w h. h }

  pub Safe-request : (call : Call X A) → Safe Q (request call)
  unfolding request
  Safe-request call = record { at = λ w h. h }

  pub Safe-if : (b : Bool) (m n : Act X A) → Safe Q m → Safe Q n → Safe Q (if b then m else n)
  Safe-if true m n km kn = km
  Safe-if false m n km kn = kn

  recovered_keeps :
      (left : Result Raised A × World X) (handler : Raised → Act X A)
      → Q left.1.intents
      → ((e : Raised) → Safe Q (handler e))
      → Q (recovered left handler).1.intents
  recovered_keeps (ok a, w) handler h keep = h
  recovered_keeps (err e, w) handler h keep = (keep e).at w h

  pub Safe-catching :
      (m : Act X A) (handler : Raised → Act X A)
      → Safe Q m
      → ((e : Raised) → Safe Q (handler e))
      → Safe Q (catching m handler)
  unfolding catching
  Safe-catching m handler km kh = record {
    at = λ w h. recovered_keeps (m w) handler (km.at w h) kh;
  }

module _ {X A B : Type 0} {Q : Intents → Type 0} where
  continued_keeps :
      (left : Result Raised A × World X) (next : A → Act X B)
      → Q left.1.intents
      → ((a : A) → Safe Q (next a))
      → Q (continued left next).1.intents
  continued_keeps (err e, w) next h keep = h
  continued_keeps (ok a, w) next h keep = (keep a).at w h

  pub Safe-bind :
      (m : Act X A) (f : A → Act X B) → Safe Q m → ((a : A) → Safe Q (f a)) → Safe Q (m >>> f)
  unfolding ◌>>>◌
  Safe-bind m f km kf = record { at = λ w h. continued_keeps (m w) f (km.at w h) kf }

  -- A read of the tables, after which they are still what was read.
  pub Safe-read_then :
      (read : World X → Result Raised A) (f : A → Act X B)
      → ((a : A) (w : World X) → read w ≡ ok a → Q w.intents → Q (f a w).1.intents)
      → Safe Q (reading read >>> f)
  unfolding ◌>>>◌ reading
  Safe-read_then read f keep = record {
    at = λ w h. elim (Result-cases (read w)) [
      | inl (a, found_it) ↦ rw found_it (keep a w found_it h)
      | inr (e, raises) ↦ rw raises h
    ];
  }

module _ {D X : Type 0} {Q : Intents → Type 0} where
  pub Safe-existing_or : (o : Option D) (m : Act X D) → Safe Q m → Safe Q (existing_or o m)
  unfolding existing_or
  Safe-existing_or none m km = km
  Safe-existing_or (some d) m km = Safe-done (ok d)

  pub Safe-first_or : (ds : List D) (m : Act X D) → Safe Q m → Safe Q (first_or ds m)
  unfolding first_or
  Safe-first_or [] m km = km
  Safe-first_or (d ∷ ds) m km = Safe-done (ok d)

module _ {X : Type 0} where
  written_back_keeps :
      (Q : Intents → Type 0) (w : World X) (result : Result Raised (List Renewal))
      → Q w.intents
      → Q (written_back w result).1.intents
  written_back_keeps Q w (err e) h = h
  written_back_keeps Q w (ok t) h = h

module _ {X : Type 0} {Q : Intents → Type 0} where
  pub Safe-sending : (m : Confirmation) → Safe {X = X} Q (sending m)
  unfolding sending
  Safe-sending m = record { at = λ w h. h }

  pub Safe-writing_renewal : (r : Renewal) → Safe {X = X} Q (writing_renewal r)
  unfolding writing_renewal
  Safe-writing_renewal r = record {
    at = λ w h. written_back_keeps Q w (update_or_create_renewal r w.renewals) h;
  }

  pub Safe-unless_missing : (e : Raised) → Safe {X = X} Q (unless_missing e)
  unfolding unless_missing
  Safe-unless_missing (raised n) = Safe-done _
  Safe-unless_missing multiple_objects_returned = Safe-done _
  Safe-unless_missing attribute_error = Safe-done _
  Safe-unless_missing does_not_exist = Safe-done _
  Safe-unless_missing integrity_error = Safe-done _
  Safe-unless_missing Raised.value_error = Safe-done _
  Safe-unless_missing (unit_of_work_exception k m) = Safe-done _

pub ruleset safe_rules = (
  Safe-done, Safe-reading, Safe-request, Safe-if, Safe-catching, Safe-bind, Safe-existing_or,
  Safe-first_or, Safe-sending, Safe-writing_renewal, Safe-unless_missing,
)

module _ {D X : Type 0} {Q : Intents → Type 0} (c : Clients D X) where
  pub Safe-customer :
      (name slug country : ℕ) → Safe Q (get_or_create_enterprise_customer c name slug country)
  unfolding get_or_create_enterprise_customer
  Safe-customer name slug country = search safe_rules

  pub Safe-catalog :
      (customer title query : ℕ) → Safe Q (get_or_create_enterprise_catalog c customer title query)
  unfolding get_or_create_enterprise_catalog
  Safe-catalog customer title query = search safe_rules

  pub Safe-agreement :
      (customer slug : ℕ) (u : Option ℕ)
      → Safe Q (get_or_create_customer_agreement c customer slug u)
  unfolding get_or_create_customer_agreement
  Safe-agreement customer slug u = search safe_rules

  pub Safe-plan :
      (subs : List D) (r : PlanRequest) → Safe Q (get_or_create_subscription_plan c subs r)
  unfolding get_or_create_subscription_plan
  Safe-plan subs r = search safe_rules

  pub Safe-renewal : (r : RenewalRequest) → Safe Q (get_or_create_subscription_plan_renewal c r)
  unfolding get_or_create_subscription_plan_renewal
  Safe-renewal r = search safe_rules

  Safe-create_admins : (customer : ℕ) (emails : List ℕ) → Safe Q (create_admins c customer emails)
  unfolding create_admins
  Safe-create_admins customer [] = search safe_rules
  Safe-create_admins customer (e ∷ emails) =
      Safe-bind _ _ (Safe-request _)
        (λ b. Safe-bind _ _ (Safe-create_admins customer emails) (λ rest. Safe-done _))

  pub Safe-admins :
      (customer : ℕ) (emails : List ℕ)
      → Safe Q (get_or_create_enterprise_admin_users c customer emails)
  unfolding get_or_create_enterprise_admin_users
  Safe-admins customer emails = search (safe_rules, Safe-create_admins)
