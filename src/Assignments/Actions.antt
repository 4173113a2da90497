-- ===== src/Assignments/Actions.antt =====
-- The action records of an assignment (content_assignments/models.py): how they are added, which
-- one is the last, and what a learner has acknowledged.
use enterprise_access.Prelude.{
  Bool, List, Option, Result, [], any, err, false, filter, if◌then◌else◌, is_some, leb, ltb, none,
  not, ok, opt_eq, some, true, ℕ, ◌&&◌, ◌++◌, ◌==◌, ◌>>=◌, ◌||◌, ◌∷◌,
}
use enterprise_access.Assignments.Types.{
  Action, ActionError, ActionType, Assignment, Error, State, Table, action_cancelled,
  action_expired, action_reversed, cancelled_acknowledged, email_error, enrollment_error,
  expired_acknowledged, internal_api_error, is_cancelled, is_expired, learner_linked, notified,
  redeemed, reminded, type_error, validation_error,
}

abbrev pub same_type : ActionType → ActionType → Bool
same_type learner_linked learner_linked = true
same_type notified notified = true
same_type reminded reminded = true
same_type redeemed redeemed = true
same_type action_cancelled action_cancelled = true
same_type cancelled_acknowledged cancelled_acknowledged = true
same_type action_expired action_expired = true
same_type expired_acknowledged expired_acknowledged = true
same_type action_reversed action_reversed = true
same_type _ _ = false

-- `self.actions.create(...)` of the `add_successful_…_action` methods.
unfoldable pub add_successful : ActionType → ℕ → Assignment → Assignment
add_successful kind now a = record a {
  actions =
      a.actions ++ record { action_type = kind; completed_at = some now; error_reason = none } ∷ [];
}

-- The error that the `add_errored_…_action` methods record.
abbrev pub error_of : ActionType → ActionError
error_of learner_linked = internal_api_error
error_of redeemed = enrollment_error
error_of _ = email_error

unfoldable pub add_errored : ActionType → Assignment → Assignment
add_errored kind a = record a {
  actions =
      a.actions
      ++ record { action_type = kind; completed_at = none; error_reason = some (error_of kind) }
        ∷ [];
}

-- `action_type=kind, error_reason=None`
abbrev pub is_successful : ActionType → Action → Bool
is_successful kind x = same_type kind x.action_type && not (is_some x.error_reason)

-- The order of `order_by('-completed_at')`: nulls last.
abbrev pub completed_before : Option ℕ → Option ℕ → Bool
completed_before none none = false
completed_before none (some _) = true
completed_before (some _) none = false
completed_before (some a) (some b) = ltb a b

abbrev pub newer : Action → Option Action → Action
newer x none = x
newer x (some y) = if completed_before x.completed_at y.completed_at then y else x

unfoldable pub latest : List Action → Option Action
latest [] = none
latest (x ∷ xs) = some (newer x (latest xs))

-- The `get_last_successful_…_action` methods.
unfoldable pub last_successful : ActionType → Assignment → Option Action
last_successful kind a = latest (filter (is_successful kind) a.actions)

-- `x > y` and `x <= y` on nullable times, where None cannot be compared.
abbrev pub time_gt : Option ℕ → Option ℕ → Result Error Bool
time_gt (some x) (some y) = ok (ltb y x)
time_gt _ _ = err type_error

abbrev pub time_le : Option ℕ → Option ℕ → Result Error Bool
time_le (some x) (some y) = ok (leb x y)
time_le _ _ = err type_error

abbrev pub acknowledged_since : Action → Option Action → Result Error Bool
acknowledged_since x none = ok false
acknowledged_since x (some ack) = time_gt ack.completed_at x.completed_at

abbrev pub some_result : Result Error Bool → Result Error (Option Bool)
some_result r = r >>= λ b. ok (some b)

-- `LearnerContentAssignmentAction.learner_acknowledged`
unfoldable pub action_acknowledged : Assignment → Action → Result Error (Option Bool)
action_acknowledged a x = elim x.action_type [
  | action_expired ↦ some_result (acknowledged_since x (last_successful expired_acknowledged a))
  | action_cancelled ↦ some_result (acknowledged_since x (last_successful cancelled_acknowledged a))
  | _ ↦ ok none
]

abbrev pub of_last : Assignment → Option Action → Result Error (Option Bool)
of_last a none = ok (some false)
of_last a (some x) = action_acknowledged a x

-- `LearnerContentAssignment.learner_acknowledged`
unfoldable pub learner_acknowledged : Assignment → Result Error (Option Bool)
learner_acknowledged a = elim a.state [
  | State.expired ↦ of_last a (last_successful action_expired a)
  | State.cancelled ↦ of_last a (last_successful action_cancelled a)
  | _ ↦ ok none
]

-- `ack and last and last.completed_at <= ack.completed_at`
abbrev pub acknowledged_recent : Option Action → Option Action → Result Error Bool
acknowledged_recent (some ack) (some last) = time_le last.completed_at ack.completed_at
acknowledged_recent _ _ = ok false

-- `_should_acknowledge_expired_assignment` and `_should_acknowledge_cancelled_assignment`: whether
-- to acknowledge, and whether it is already acknowledged.
unfoldable pub should_acknowledge :
    (State → Bool) → (kind ack : ActionType) → Assignment → Result Error (Bool × Bool)
should_acknowledge in_state kind ack a =
    if in_state a.state
    then (acknowledged_recent (last_successful ack a) (last_successful kind a) >>= λ recent.
        ok (not recent, recent))
    else ok (false, false)

-- The three lists that `acknowledge_assignments` returns.
pub record Acknowledgement : Type 0 where
  pub acknowledged : List Assignment
  pub already_acknowledged : List Assignment
  pub unacknowledged : List Assignment

abbrev pub add_if : Bool → Assignment → List Assignment → List Assignment
add_if b a xs = if b then a ∷ xs else xs

-- One round of the loop: the row as it is written back, and the lists it is put on.
unfoldable pub acknowledge_one : ℕ → Assignment → Result Error (Assignment × Bool × Bool × Bool)
acknowledge_one now a = do
  expiry ← should_acknowledge is_expired action_expired expired_acknowledged a
  cancel ← should_acknowledge is_cancelled action_cancelled cancelled_acknowledged a
  let a₁ = if expiry.0 then add_successful expired_acknowledged now a else a
  let a₂ = if cancel.0 then add_successful cancelled_acknowledged now a₁ else a₁
  ok (
    a₂,
    expiry.0 || cancel.0,
    expiry.1 || cancel.1,
    not expiry.0 && not cancel.0 && not (expiry.1 || cancel.1),
  )

unfoldable pub acknowledge_loop : ℕ → List Assignment → Result Error Acknowledgement
acknowledge_loop now [] =
    ok (record { acknowledged = []; already_acknowledged = []; unacknowledged = [] })
acknowledge_loop now (a ∷ rest) = acknowledge_one now a >>= λ one.
    acknowledge_loop now rest >>= λ lists. ok (record {
      acknowledged = add_if one.1 one.0 lists.acknowledged;
      already_acknowledged = add_if one.2 one.0 lists.already_acknowledged;
      unacknowledged = add_if one.3 one.0 lists.unacknowledged;
    })

-- `acknowledge_assignments(assignment_uuids, lms_user_id)` on the rows of the configuration.
unfoldable pub acknowledge_assignments :
    ℕ → Option ℕ → List ℕ → ℕ → Table → Result Error Acknowledgement
acknowledge_assignments now config uuids lms_user_id t =
    elim (filter
      (λ a.
        opt_eq a.assignment_configuration config
        && any (λ u. a.uuid == u) uuids
        && opt_eq a.lms_user_id (some lms_user_id))
      t) [ [] ↦ err validation_error | a ∷ rest ↦ acknowledge_loop now (a ∷ rest) ]
