-- ===== src/Assignments/Cancellation.antt =====
-- cancel_assignments and remind_assignments of content_assignments/api.py, with the bulk update and
-- the refresh that they share. Sets of rows go by the primary key, and are lists here.
use enterprise_access.Prelude.{
  Bool, List, Option, [], any, filter, find, map, none, not, some, ℕ, ◌++◌, ◌==◌, ◌∷◌,
}
use enterprise_access.Assignments.Types.{
  Assignment, Table, cancelled, is_cancelable, is_cancelled, is_remindable,
}

abbrev pub same_row : Assignment → Assignment → Bool
same_row a b = b.uuid == a.uuid

-- `assignment in records`
abbrev pub among : List Assignment → Assignment → Bool
among records a = any (same_row a) records

-- `set(records)`: the first of equal rows is kept.
unfoldable pub set_of : List Assignment → List Assignment
set_of [] = []
set_of (a ∷ rest) = a ∷ filter (λ b. not (same_row a b)) (set_of rest)

abbrev pub difference : List Assignment → List Assignment → List Assignment
difference xs ys = filter (λ a. not (among ys a)) xs

abbrev pub union : List Assignment → List Assignment → List Assignment
union xs ys = xs ++ difference ys xs

abbrev pub write_state : ℕ → Option Assignment → Assignment → Assignment
write_state now none a = a
write_state now (some r) a = record a { state = r.state; modified = now }

-- `bulk_update(records, ['state'])`: the state and `modified` of the rows of the records.
unfoldable pub bulk_update_state : ℕ → List Assignment → Table → Table
bulk_update_state now records t = map (λ a. write_state now (find (same_row a) records) a) t

-- `_update_and_refresh_assignments(records, ['state'])`: the written rows, and the table.
unfoldable pub update_and_refresh_assignments :
    ℕ → List Assignment → Table → List Assignment × Table
update_and_refresh_assignments now records t =
    let written = bulk_update_state now records t in (filter (among records) written, written)

-- The two lists that a bulk call answers with.
pub record Outcome : Type 0 where
  pub done : List Assignment
  pub skipped : List Assignment

abbrev pub cancelled_copy : Assignment → Assignment
cancelled_copy a = record a { state = cancelled }

-- `cancel_assignments`; the e-mails go to the rows that were written.
unfoldable pub cancel_assignments : ℕ → List Assignment → Table → Outcome × Table
cancel_assignments now assignments t =
    let cancelable = set_of (filter (λ a. is_cancelable a.state) assignments) in
    let already = set_of (filter (λ a. is_cancelled a.state) assignments) in
    let non_cancelable = difference (difference (set_of assignments) cancelable) already in
    let refreshed = update_and_refresh_assignments now (map cancelled_copy cancelable) t in
    (record { done = union refreshed.0 already; skipped = non_cancelable }, refreshed.1)

-- `remind_assignments`: the state is written as it is, only `modified` changes.
unfoldable pub remind_assignments : ℕ → List Assignment → Table → Outcome × Table
remind_assignments now assignments t =
    let remindable = set_of (filter (λ a. is_remindable a.state) assignments) in
    let refreshed = update_and_refresh_assignments now remindable t in
    (
      record { done = refreshed.0; skipped = difference (set_of assignments) remindable },
      refreshed.1,
    )
