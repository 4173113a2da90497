-- ===== src/Checkout/Marks.antt =====
-- The methods of CheckoutIntent that move one intent through its states. `save` with the field
-- `modified` stamps the time of the call.
use enterprise_access.Prelude.{
  Bool, Option, Result, false, if◌then◌else◌, is_present, ltb, none, not, ok, opt_eq, or_else,
  raise_if, some, true, ℕ, ◌&&◌, ◌>>◌,
}
use enterprise_access.Checkout.Types.{
  Intent, IntentError, IntentState, created, errored_backoffice, errored_provisioning, fulfilled,
  is_valid_state_transition, message, paid, same_state, value_error,
}

abbrev pub is_paid : IntentState → Bool
is_paid paid = true
is_paid _ = false

-- A given identifier that differs from the stored one, on an intent that is already paid.
abbrev pub conflicts_when_paid : Intent → Option ℕ → Option ℕ → Bool
conflicts_when_paid i given stored =
    is_present given && is_paid i.state && not (opt_eq given stored)

unfoldable pub mark_as_paid : ℕ → Option ℕ → Option ℕ → Intent → Result IntentError Intent
mark_as_paid now session customer i =
    raise_if (not (is_valid_state_transition i.state paid)) value_error
    >> (raise_if (conflicts_when_paid i session i.stripe_checkout_session_id) value_error
        >> (raise_if (conflicts_when_paid i customer i.stripe_customer_id) value_error
            >> ok (record i {
              state = paid;
              stripe_checkout_session_id = or_else session i.stripe_checkout_session_id;
              stripe_customer_id = or_else customer i.stripe_customer_id;
              modified = now;
            })))

abbrev pub given_or : Option ℕ → Option ℕ → Option ℕ
given_or none stored = stored
given_or (some w) stored = some w

unfoldable pub mark_as_fulfilled : ℕ → Option ℕ → Intent → Result IntentError Intent
mark_as_fulfilled now workflow i =
    raise_if (not (is_valid_state_transition i.state fulfilled)) value_error
    >> ok (record i { state = fulfilled; workflow = given_or workflow i.workflow; modified = now })

unfoldable pub mark_backoffice_error : ℕ → ℕ → Intent → Result IntentError Intent
mark_backoffice_error now error_message i =
    raise_if (not (is_valid_state_transition i.state errored_backoffice)) value_error
    >> ok (record i {
      state = errored_backoffice;
      last_provisioning_error = some (message error_message);
      modified = now;
    })

unfoldable pub mark_provisioning_error : ℕ → ℕ → Option ℕ → Intent → Result IntentError Intent
mark_provisioning_error now error_message workflow i =
    raise_if (not (is_valid_state_transition i.state errored_provisioning)) value_error
    >> ok (record i {
      state = errored_provisioning;
      last_provisioning_error = some (message error_message);
      workflow = given_or workflow i.workflow;
      modified = now;
    })

unfoldable pub update_stripe_session_id : ℕ → Option ℕ → Intent → Intent
update_stripe_session_id now session i = record i {
  stripe_checkout_session_id = session;
  modified = now;
}

unfoldable pub update_stripe_identifiers : ℕ → Option ℕ → Option ℕ → Intent → Intent
update_stripe_identifiers now session customer i = record i {
  stripe_checkout_session_id = or_else session i.stripe_checkout_session_id;
  stripe_customer_id = or_else customer i.stripe_customer_id;
  modified = now;
}

-- `is_expired`; `expires_at` cannot be null in the table.
unfoldable pub is_expired : ℕ → Intent → Bool
is_expired now i = same_state i.state created && ltb i.expires_at now

-- `admin_portal_url`: the slug of the page, for a fulfilled intent.
unfoldable pub admin_portal_slug : Intent → Option (Option ℕ)
admin_portal_slug i = if same_state i.state fulfilled then some i.enterprise_slug else none

-- A method call on one intent.
pub data Mark : Type 0 where
  as_paid : (session customer : Option ℕ) → Mark
  as_fulfilled : (workflow : Option ℕ) → Mark
  backoffice_error : (error_message : ℕ) → Mark
  provisioning_error : (error_message : ℕ) → (workflow : Option ℕ) → Mark
  stripe_session : (session : Option ℕ) → Mark
  stripe_identifiers : (session customer : Option ℕ) → Mark

unfoldable pub apply_mark : ℕ → Mark → Intent → Result IntentError Intent
apply_mark now (as_paid session customer) i = mark_as_paid now session customer i
apply_mark now (as_fulfilled workflow) i = mark_as_fulfilled now workflow i
apply_mark now (backoffice_error m) i = mark_backoffice_error now m i
apply_mark now (provisioning_error m workflow) i = mark_provisioning_error now m workflow i
apply_mark now (stripe_session session) i = ok (update_stripe_session_id now session i)
apply_mark now (stripe_identifiers session customer) i =
    ok (update_stripe_identifiers now session customer i)
