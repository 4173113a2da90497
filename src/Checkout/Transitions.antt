-- ===== src/Checkout/Transitions.antt =====
-- The method calls of one CheckoutIntent against the table of allowed transitions.
use enterprise_access.Prelude.{
  Bool, Bool-cases, Option, Result, and_false, arith, err, false, inl, inr, is_present, not, ok,
  or_else, raise_if, refl, some, true, ℕ, ◌>>◌, ◌≡◌, ◌≢◌, ◌⊎◌,
}
use enterprise_access.Checkout.Types.{
  Intent, IntentError, IntentState, created, errored_backoffice, errored_fulfillment_stalled,
  errored_provisioning, expired, fulfilled, is_valid_state_transition, message, paid, same_state,
  value_error,
}
use enterprise_access.Checkout.Marks.{
  Mark, apply_mark, as_fulfilled, as_paid, backoffice_error, conflicts_when_paid, given_or, is_paid,
  mark_as_fulfilled, mark_as_paid, mark_backoffice_error, mark_provisioning_error,
  provisioning_error, stripe_identifiers, stripe_session, update_stripe_identifiers,
  update_stripe_session_id,
}

-- The state that a method call asks for; the others keep the state.
abbrev pub target : Mark → IntentState → IntentState
target (as_paid session customer) s = paid
target (as_fulfilled workflow) s = fulfilled
target (backoffice_error m) s = errored_backoffice
target (provisioning_error m workflow) s = errored_provisioning
target (stripe_session session) s = s
target (stripe_identifiers session customer) s = s

-- Two versions of an intent that are the same row and hold the same reservation.
pub record SameReservation (i j : Intent) : Type 0 where
  pub same_pk : j.pk ≡ i.pk
  pub same_user : j.user ≡ i.user
  pub same_slug : j.enterprise_slug ≡ i.enterprise_slug
  pub same_name : j.enterprise_name ≡ i.enterprise_name

guarded :
    (b : Bool) (rest : Result IntentError Intent) {j : Intent}
    → (raise_if b value_error >> rest) ≡ ok j
    → (b ≡ false) × (rest ≡ ok j)
guarded true rest h = cc
guarded false rest h = (refl, h)

guarded_paid :
    (now : ℕ) (session customer : Option ℕ) (i j : Intent)
    → mark_as_paid now session customer i ≡ ok j
    → (is_valid_state_transition i.state paid ≡ true) × (j.state ≡ paid) × SameReservation i j
unfolding mark_as_paid
guarded_paid now session customer i j h =
    let (allowed, h₁) = guarded (not (is_valid_state_transition i.state paid)) _ h in
    let (_, h₂) = guarded (conflicts_when_paid i session i.stripe_checkout_session_id) _ h₁ in
    let (_, h₃) = guarded (conflicts_when_paid i customer i.stripe_customer_id) _ h₂ in
    (ground arith, ground (arith, h₃), ground (arith, h₃))

-- A method call that returns has made an allowed transition to the state it asks for, on the same
-- row and with the same reservation.
pub apply_mark-valid :
    (now : ℕ) (m : Mark) (i j : Intent)
    → apply_mark now m i ≡ ok j
    → (is_valid_state_transition i.state j.state ≡ true)
      × (j.state ≡ target m i.state)
      × SameReservation i j
unfolding apply_mark mark_as_fulfilled mark_backoffice_error mark_provisioning_error
    update_stripe_session_id update_stripe_identifiers is_valid_state_transition
apply_mark-valid now (as_paid session customer) i j h =
    let (allowed, moved, kept) = guarded_paid now session customer i j h in
    (rw moved allowed, moved, kept)
apply_mark-valid now (as_fulfilled workflow) i j h = ground arith
apply_mark-valid now (backoffice_error m) i j h = ground arith
apply_mark-valid now (provisioning_error m workflow) i j h = ground arith
apply_mark-valid now (stripe_session session) i j h = ground arith
apply_mark-valid now (stripe_identifiers session customer) i j h = ground arith

not_paid : (s : IntentState) → s ≢ paid → is_paid s ≡ false
not_paid paid h = absurd (h refl)
not_paid _ h = refl

-- The transitions of an intent: the same state, or an edge of the life cycle.
pub data CanMove : IntentState → IntentState → Type 0 where
  stays : {s : IntentState} → CanMove s s
  is_bought : CanMove created paid
  times_out : CanMove created expired
  comes_back : CanMove expired created
  is_provisioned : CanMove paid fulfilled
  fails_backoffice : CanMove paid errored_backoffice
  fails_provisioning : CanMove paid errored_provisioning
  stalls : CanMove paid errored_fulfillment_stalled
  recovers_backoffice : CanMove errored_backoffice fulfilled
  recovers_provisioning : CanMove errored_provisioning fulfilled
  recovers_stall : CanMove errored_fulfillment_stalled fulfilled

CanMove-allowed : {s u : IntentState} → CanMove s u → is_valid_state_transition s u ≡ true
unfolding is_valid_state_transition
CanMove-allowed {s} stays = rw (itself s) refl
  where
    itself : (v : IntentState) → same_state v v ≡ true
    itself v = ground arith
CanMove-allowed is_bought = refl
CanMove-allowed times_out = refl
CanMove-allowed comes_back = refl
CanMove-allowed is_provisioned = refl
CanMove-allowed fails_backoffice = refl
CanMove-allowed fails_provisioning = refl
CanMove-allowed stalls = refl
CanMove-allowed recovers_backoffice = refl
CanMove-allowed recovers_provisioning = refl
CanMove-allowed recovers_stall = refl

allowed-CanMove : (s u : IntentState) → is_valid_state_transition s u ≡ true → CanMove s u
unfolding is_valid_state_transition
allowed-CanMove created created h = stays
allowed-CanMove created paid h = is_bought
allowed-CanMove created expired h = times_out
allowed-CanMove paid paid h = stays
allowed-CanMove paid fulfilled h = is_provisioned
allowed-CanMove paid errored_backoffice h = fails_backoffice
allowed-CanMove paid errored_provisioning h = fails_provisioning
allowed-CanMove paid errored_fulfillment_stalled h = stalls
allowed-CanMove fulfilled fulfilled h = stays
allowed-CanMove errored_backoffice errored_backoffice h = stays
allowed-CanMove errored_backoffice fulfilled h = recovers_backoffice
allowed-CanMove errored_provisioning errored_provisioning h = stays
allowed-CanMove errored_provisioning fulfilled h = recovers_provisioning
allowed-CanMove errored_fulfillment_stalled errored_fulfillment_stalled h = stays
allowed-CanMove errored_fulfillment_stalled fulfilled h = recovers_stall
allowed-CanMove expired expired h = stays
allowed-CanMove expired created h = comes_back
allowed-CanMove _ _ h = cc

-- The two answers of a method call: the move is made, or refused.
abbrev pub Answers : ℕ → Mark → Intent → Type 0
Answers now m i =
    (CanMove i.state (target m i.state)
      × (j : Intent) × (apply_mark now m i ≡ ok j)
      × (j.state ≡ target m i.state)
      × (j.modified ≡ now)
      × SameReservation i j)
    ⊎ (¬ (CanMove i.state (target m i.state)) × (apply_mark now m i ≡ err value_error))

refuses : (s u : IntentState) → is_valid_state_transition s u ≡ false → ¬ (CanMove s u)
refuses s u h c = let e = CanMove-allowed c in cc

-- A call that returns a version of the intent with its reservation.
answered :
    (now : ℕ) (m : Mark) (i j : Intent)
    → CanMove i.state (target m i.state)
    → apply_mark now m i ≡ ok j
    → j.modified ≡ now
    → Answers now m i
answered now m i j c e stamped =
    let (_, moved, same) = apply_mark-valid now m i j e in inl (c, j, e, moved, stamped, same)

-- A method call moves the intent exactly when the life cycle has an edge to the state that it asks
-- for: then it returns the same row, with the same reservation, in that state and with the time of the
-- call, and otherwise it raises ValueError. The call is not mark_as_paid on an intent that is paid
-- already, which may refuse other Stripe identifiers.
pub apply_mark_total :
    (now : ℕ) (m : Mark) (i : Intent)
    → (target m i.state ≢ paid) ⊎ (i.state ≢ paid)
    → Answers now m i
unfolding apply_mark mark_as_paid mark_as_fulfilled mark_backoffice_error mark_provisioning_error
    update_stripe_session_id update_stripe_identifiers
apply_mark_total now (as_paid session customer) i (inl h) = absurd (h refl)
apply_mark_total now (as_paid session customer) i (inr h) =
    let unpaid : is_paid i.state ≡ false = not_paid i.state h in
    elim (Bool-cases (is_valid_state_transition i.state paid)) [
      | inl v ↦
          answered now (as_paid session customer) i
            (record i {
              state = paid;
              stripe_checkout_session_id = or_else session i.stripe_checkout_session_id;
              stripe_customer_id = or_else customer i.stripe_customer_id;
              modified = now;
            })
            (allowed-CanMove i.state paid v)
            (rw (v, unpaid, and_false (is_present session), and_false (is_present customer)) refl)
            refl
      | inr f ↦ inr (refuses i.state paid f, rw f refl)
    ]
apply_mark_total now (as_fulfilled workflow) i h =
    elim (Bool-cases (is_valid_state_transition i.state fulfilled)) [
      | inl v ↦
          answered now (as_fulfilled workflow) i
            (record i {
              state = fulfilled;
              workflow = given_or workflow i.workflow;
              modified = now;
            })
            (allowed-CanMove i.state fulfilled v) (rw v refl) refl
      | inr f ↦ inr (refuses i.state fulfilled f, rw f refl)
    ]
apply_mark_total now (backoffice_error m) i h =
    elim (Bool-cases (is_valid_state_transition i.state errored_backoffice)) [
      | inl v ↦
          answered now (backoffice_error m) i
            (record i {
              state = errored_backoffice;
              last_provisioning_error = some (message m);
              modified = now;
            })
            (allowed-CanMove i.state errored_backoffice v) (rw v refl) refl
      | inr f ↦ inr (refuses i.state errored_backoffice f, rw f refl)
    ]
apply_mark_total now (provisioning_error m workflow) i h =
    elim (Bool-cases (is_valid_state_transition i.state errored_provisioning)) [
      | inl v ↦
          answered now (provisioning_error m workflow) i
            (record i {
              state = errored_provisioning;
              last_provisioning_error = some (message m);
              workflow = given_or workflow i.workflow;
              modified = now;
            })
            (allowed-CanMove i.state errored_provisioning v) (rw v refl) refl
      | inr f ↦ inr (refuses i.state errored_provisioning f, rw f refl)
    ]
apply_mark_total now (stripe_session session) i h =
    answered now (stripe_session session) i (update_stripe_session_id now session i) stays refl refl
apply_mark_total now (stripe_identifiers session customer) i h =
    answered now (stripe_identifiers session customer) i
      (update_stripe_identifiers now session customer i) stays refl refl
