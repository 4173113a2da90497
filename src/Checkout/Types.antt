-- ===== src/Checkout/Types.antt =====
-- CheckoutIntent of customer_billing/models.py, its states and their allowed transitions
-- (customer_billing/constants.py). Texts and keys are numbers, and 0 is the empty text.
use enterprise_access.Prelude.{
  Bool, Dict, List, Option, [], any, false, filter, if◌then◌else◌, true, ℕ, ◌∷◌,
}

-- CheckoutIntentState
pub data IntentState : Type 0 where
  created paid fulfilled errored_backoffice : IntentState
  errored_fulfillment_stalled errored_provisioning expired : IntentState

abbrev pub same_state : IntentState → IntentState → Bool
same_state created created = true
same_state paid paid = true
same_state fulfilled fulfilled = true
same_state errored_backoffice errored_backoffice = true
same_state errored_fulfillment_stalled errored_fulfillment_stalled = true
same_state errored_provisioning errored_provisioning = true
same_state expired expired = true
same_state _ _ = false

-- ALLOWED_CHECKOUT_INTENT_STATE_TRANSITIONS
abbrev pub allowed_transitions : IntentState → List IntentState
allowed_transitions created = paid ∷ expired ∷ []
allowed_transitions paid =
    fulfilled ∷ errored_backoffice ∷ errored_fulfillment_stalled ∷ errored_provisioning
    ∷ errored_fulfillment_stalled ∷ []
allowed_transitions errored_backoffice = fulfilled ∷ []
allowed_transitions errored_fulfillment_stalled = fulfilled ∷ []
allowed_transitions errored_provisioning = fulfilled ∷ []
allowed_transitions expired = created ∷ []
allowed_transitions fulfilled = []

-- The message of a provisioning error: a caller's, or the one that is composed for a stalled
-- intent out of the seconds stalled, the threshold and the last modification.
pub data Message : Type 0 where
  message : ℕ → Message
  stalled : (seconds threshold modified : ℕ) → Message

-- CheckoutIntent
pub record Intent : Type 0 where
  pub pk : ℕ
  pub user : ℕ
  pub state : IntentState
  pub enterprise_name : Option ℕ
  pub enterprise_slug : Option ℕ
  pub enterprise_uuid : Option ℕ
  pub stripe_customer_id : Option ℕ
  pub expires_at : ℕ
  pub stripe_checkout_session_id : Option ℕ
  pub quantity : ℕ
  pub country : Option ℕ
  pub last_provisioning_error : Option Message
  pub workflow : Option ℕ
  pub terms_metadata : Option (Dict ℕ)
  pub modified : ℕ

-- ValueError, FailedCheckoutIntentConflict, SlugReservationConflict, and ValidationError by field.
pub data IntentError : Type 0 where
  value_error failed_checkout_intent_conflict slug_reservation_conflict : IntentError
  user_invalid name_invalid slug_invalid : IntentError

abbrev pub Intents : Type 0
Intents = List Intent

-- SUCCESS_STATES
abbrev pub is_success : IntentState → Bool
is_success paid = true
is_success fulfilled = true
is_success _ = false

-- FAILURE_STATES
abbrev pub is_failure : IntentState → Bool
is_failure errored_backoffice = true
is_failure errored_fulfillment_stalled = true
is_failure errored_provisioning = true
is_failure _ = false

-- NON_EXPIRED_STATES
abbrev pub is_non_expired : IntentState → Bool
is_non_expired expired = false
is_non_expired _ = true

-- `is_valid_state_transition`
unfoldable pub is_valid_state_transition : IntentState → IntentState → Bool
is_valid_state_transition current new =
    if same_state current new then true else any (same_state new) (allowed_transitions current)

-- `FULFILLABLE_STATES`: the keys of the transitions, in their order, that lead to FULFILLED.
unfoldable pub fulfillable_states : List IntentState
fulfillable_states =
    filter (λ s. any (same_state fulfilled) (allowed_transitions s))
      (created ∷ paid ∷ errored_backoffice ∷ errored_fulfillment_stalled ∷ errored_provisioning
        ∷ expired ∷ fulfilled ∷ [])
