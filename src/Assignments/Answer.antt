-- ===== src/Assignments/Answer.antt =====
-- The answer of cancel_assignments, and its effect on the table row by row.
use enterprise_access.Prelude.{
  All, All-append, Bool, Bool-cases, List, [], filter, inl, inr, map, not, refl, true, ℕ, ◌∙◌, ◌∷◌,
  ◌≡◌,
}
use enterprise_access.Assignments.Types.{Assignment, Table, cancelled, is_cancelable, is_cancelled}
use enterprise_access.Assignments.Cancellation.{
  among, bulk_update_state, cancel_assignments, cancelled_copy, same_row, set_of,
  update_and_refresh_assignments,
}
use enterprise_access.Assignments.Refund.{
  among-set_of, any-filter, cancel_table, cancelable_of, cancelled_row, cancels,
}

abbrev pub IsCancelled : Assignment → Type 0
IsCancelled a = is_cancelled a.state ≡ true

All-filter :
    (q p : Assignment → Bool) (xs : List Assignment)
    → All (λ a. q a ≡ true) xs
    → All (λ a. q a ≡ true) (filter p xs)
All-filter q p [] h = tt
All-filter q p (x ∷ xs) h = elim (Bool-cases (p x)) [
  | inl holds ↦ rw holds (h.0, All-filter q p xs h.1)
  | inr fails ↦ rw fails (All-filter q p xs h.1)
]

All-set_of :
    (q : Assignment → Bool) (xs : List Assignment)
    → All (λ a. q a ≡ true) xs
    → All (λ a. q a ≡ true) (set_of xs)
unfolding set_of
All-set_of q [] h = tt
All-set_of q (x ∷ xs) h =
    (h.0, All-filter q (λ b. not (same_row x b)) (set_of xs) (All-set_of q xs h.1))

filter-holds : (q : Assignment → Bool) (xs : List Assignment) → All (λ a. q a ≡ true) (filter q xs)
filter-holds q [] = tt
filter-holds q (x ∷ xs) = elim (Bool-cases (q x)) [
  | inl holds ↦ rw holds (holds, filter-holds q xs)
  | inr fails ↦ rw fails (filter-holds q xs)
]

among-copies :
    (a : Assignment) (xs : List Assignment) → among (map cancelled_copy xs) a ≡ among xs a
among-copies a [] = refl
among-copies a (x ∷ xs) = rw (among-copies a xs) refl

among-cancels :
    (assignments : List Assignment) (a : Assignment)
    → among (map cancelled_copy (cancelable_of assignments)) a ≡ cancels assignments a
among-cancels assignments a =
    among-copies a (cancelable_of assignments)
    ∙ among-set_of a (filter (λ b. is_cancelable b.state) assignments)
    ∙ any-filter a assignments

refreshed-IsCancelled :
    (now : ℕ) (assignments : List Assignment) (t : Table)
    → All IsCancelled (
        filter
          (among (map cancelled_copy (cancelable_of assignments)))
          (map (cancelled_row now assignments) t))
refreshed-IsCancelled now assignments [] = tt
refreshed-IsCancelled now assignments (a ∷ t) = elim (Bool-cases (cancels assignments a)) [
  | inl gone ↦
      rw (gone, among-cancels assignments (record a { state = cancelled; modified = now }), gone)
        (refl, refreshed-IsCancelled now assignments t)
  | inr stays ↦
      rw (stays, among-cancels assignments a, stays) (refreshed-IsCancelled now assignments t)
]

-- A cancellation changes exactly the rows whose assignment was given in a cancelable state, to
-- cancelled and with a new `modified`, and all assignments that it answers as cancelled are.
pub cancel_assignments-row_by_row :
    (now : ℕ) (assignments : List Assignment) (t : Table)
    → ((cancel_assignments now assignments t).1 ≡ map (cancelled_row now assignments) t)
      × All IsCancelled (cancel_assignments now assignments t).0.done
unfolding cancel_assignments update_and_refresh_assignments
cancel_assignments-row_by_row now assignments t = (
  cancel_table now assignments t,
  All-append IsCancelled
      (filter (among (map cancelled_copy (cancelable_of assignments)))
        (bulk_update_state now (map cancelled_copy (cancelable_of assignments)) t))
      _ (rw (cancel_table now assignments t) (refreshed-IsCancelled now assignments t))
      (All-filter (λ a. is_cancelled a.state) _ _
        (All-set_of (λ a. is_cancelled a.state) _
          (filter-holds (λ a. is_cancelled a.state) assignments))),
)
