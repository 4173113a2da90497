-- ===== src/Requests/Reversal.antt =====
-- update_assignment_status_for_reversed_transaction of content_assignments/signals.py.
use enterprise_access.Prelude.{
  List, Option, Result, [], err, filter, find, if◌then◌else◌, map, none, ok, opt_eq, some, ℕ, ◌∷◌,
}
use enterprise_access.Assignments.Types.{
  Assignment, Error, Table, action_reversed, is_accepted, multiple_objects, reversed,
}
use enterprise_access.Assignments.Cancellation.{same_row}
use enterprise_access.Assignments.Actions.{add_successful}
use enterprise_access.Requests.Types.{Request, RequestTable, save_request, was_reversed}

-- The action on the request, where there is one.
pub data ReversalAction : Type 0 where
  reversal_recorded reversal_failed : ℕ → ReversalAction

-- What the handler leaves: both tables and the action.
abbrev pub Reversal : Type 0
Reversal = Table × RequestTable × Option ReversalAction

-- The row that is saved, with its action.
unfoldable pub reversed_row : ℕ → Assignment → Assignment
reversed_row now a =
    add_successful action_reversed now
      (record a { state = reversed; reversed_at = some now; modified = now })

abbrev pub save_assignment : Assignment → Table → Table
save_assignment a t = map (λ b. if same_row a b then a else b) t

-- `assignment.credit_request`: the request with this assignment.
abbrev pub credit_request_of : Assignment → RequestTable → Option Request
credit_request_of a q = find (λ r. opt_eq r.assigned_uuid (some a.uuid)) q

-- The state of the request, saved: `save` checks the request, and its failure is caught.
abbrev pub reverse_request :
    ℕ → Option Request → RequestTable → RequestTable × Option ReversalAction
reverse_request now none q = (q, none)
reverse_request now (some r) q =
    elim (save_request now (record r { request_state = was_reversed }) q) [
      | ok q₁ ↦ (q₁, some (reversal_recorded r.credit.request_uuid))
      | err e ↦ (q, some (reversal_failed r.credit.request_uuid))
    ]

-- The handler on the row of the transaction.
abbrev pub reverse_row : ℕ → Assignment → Table → RequestTable → Reversal
reverse_row now a t q =
    let (q₁, action) = reverse_request now (credit_request_of a q) q in
    (save_assignment (reversed_row now a) t, q₁, action)

-- `objects.get(transaction_uuid=...)`, on the rows that it finds.
unfoldable pub reverse_found : ℕ → List Assignment → Table → RequestTable → Result Error Reversal
reverse_found now [] t q = ok (t, q, none)
reverse_found now (a ∷ []) t q =
    if is_accepted a.state then ok (reverse_row now a t q) else ok (t, q, none)
reverse_found now (a ∷ b ∷ rest) t q = err multiple_objects

abbrev pub of_transaction : ℕ → Table → List Assignment
of_transaction tx t = filter (λ a. opt_eq a.transaction_uuid (some tx)) t

abbrev pub update_assignment_status_for_reversed_transaction :
    ℕ → ℕ → Table → RequestTable → Result Error Reversal
update_assignment_status_for_reversed_transaction now tx t q =
    reverse_found now (of_transaction tx t) t q
