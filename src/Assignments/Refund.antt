-- ===== src/Assignments/Refund.antt =====
-- The allocated quantity around cancel_assignments of content_assignments/api.py.
use enterprise_access.Prelude.{
  Bool, Bool-cases, List, Option, [], and_false, any, arith, false, filter, find, if◌then◌else◌,
  inl, inr, int_laws, map, not, refl, sum_ℤ, ℕ, ℤ, ◌&&◌, ◌+ℤ◌, ◌∙◌, ◌∷◌, ◌≡◌,
}
use enterprise_access.Assignments.Types.{Assignment, Table, cancelled, is_allocated, is_cancelable}
use enterprise_access.Assignments.Lookup.{
  get_allocated_quantity_for_configuration, in_config, quantities,
}
use enterprise_access.Assignments.Cancellation.{
  among, bulk_update_state, cancel_assignments, cancelled_copy, same_row, set_of,
  update_and_refresh_assignments, write_state,
}

-- The quantity of the rows that a test picks.
abbrev pub total : (Assignment → Bool) → Table → ℤ
total p t = sum_ℤ (quantities (filter p t))

-- The allocated rows of a configuration.
abbrev pub counts : Option ℕ → Assignment → Bool
counts config a = in_config config a && is_allocated a.state

-- One of the given assignments that can be cancelled has the key of the row.
abbrev pub cancels : List Assignment → Assignment → Bool
cancels assignments a = any (λ b. same_row a b && is_cancelable b.state) assignments

among-without :
    (a x : Assignment) (ys : List Assignment)
    → same_row a x ≡ false
    → among (filter (λ b. not (same_row x b)) ys) a ≡ among ys a
among-without a x [] h = refl
among-without a x (b ∷ ys) h = elim (Bool-cases (same_row x b)) [
  | inl same ↦ rw same (ground (arith, among-without a x ys h))
  | inr other ↦ rw other (ground (arith, among-without a x ys h))
]

pub among-set_of : (a : Assignment) (xs : List Assignment) → among (set_of xs) a ≡ among xs a
unfolding set_of
among-set_of a [] = refl
among-set_of a (x ∷ xs) = elim (Bool-cases (same_row a x)) [
  | inl same ↦ rw same refl
  | inr other ↦ rw other (among-without a x (set_of xs) other ∙ among-set_of a xs)
]

find-cancelled :
    (now : ℕ) (a : Assignment) (xs : List Assignment)
    → write_state now (find (same_row a) (map cancelled_copy xs)) a
      ≡ (if among xs a then (record a { state = cancelled; modified = now }) else a)
find-cancelled now a [] = refl
find-cancelled now a (x ∷ xs) = elim (Bool-cases (same_row a x)) [
  | inl same ↦ rw same refl
  | inr other ↦ rw other (find-cancelled now a xs)
]

pub any-filter :
    (a : Assignment) (xs : List Assignment)
    → among (filter (λ b. is_cancelable b.state) xs) a ≡ cancels xs a
any-filter a [] = refl
any-filter a (x ∷ xs) = elim (Bool-cases (is_cancelable x.state)) [
  | inl holds ↦ rw holds (ground (arith, any-filter a xs))
  | inr fails ↦ rw fails (ground (arith, any-filter a xs))
]

-- What a cancellation makes of a row.
abbrev pub cancelled_row : ℕ → List Assignment → Assignment → Assignment
cancelled_row now assignments a =
    if cancels assignments a then (record a { state = cancelled; modified = now }) else a

abbrev pub cancelable_of : List Assignment → List Assignment
cancelable_of assignments = set_of (filter (λ a. is_cancelable a.state) assignments)

one_cancelled :
    (now : ℕ) (assignments : List Assignment) (a : Assignment)
    → write_state now (find (same_row a) (map cancelled_copy (cancelable_of assignments))) a
      ≡ cancelled_row now assignments a
one_cancelled now assignments a =
    find-cancelled now a (cancelable_of assignments)
    ∙ rw
        (among-set_of a (filter (λ b. is_cancelable b.state) assignments), any-filter a assignments)
        refl

map_same :
    (f g : Assignment → Assignment) (t : Table) → ((a : Assignment) → f a ≡ g a) → map f t ≡ map g t
map_same f g [] same = refl
map_same f g (a ∷ t) same = rw (same a, map_same f g t same) refl

pub cancel_table :
    (now : ℕ) (assignments : List Assignment) (t : Table)
    → (cancel_assignments now assignments t).1 ≡ map (cancelled_row now assignments) t
unfolding cancel_assignments update_and_refresh_assignments bulk_update_state
cancel_table now assignments t = map_same _ _ t (one_cancelled now assignments)

-- Adding a row that both sides have, or that only the right one has.
split_both : (x a b c : ℤ) → a ≡ b +ℤ c → x +ℤ a ≡ x +ℤ b +ℤ c
split_both x a b c h = rw h (omega int_laws)

split_right : (x a b c : ℤ) → a ≡ b +ℤ c → x +ℤ a ≡ b +ℤ (x +ℤ c)
split_right x a b c h = rw h (omega int_laws)

split_total :
    (config : Option ℕ) (now : ℕ) (assignments : List Assignment) (t : Table)
    → total (counts config) t
      ≡ total (counts config) (map (cancelled_row now assignments) t)
        +ℤ total (λ a. counts config a && cancels assignments a) t
split_total config now assignments [] = omega int_laws
split_total config now assignments (a ∷ t) = elim (Bool-cases (cancels assignments a)) [
  | inl gone ↦ elim (Bool-cases (counts config a)) [
    | inl counted ↦
        rw (gone, counted, and_false (in_config config a))
          (split_right a.content_quantity _ _ _ (split_total config now assignments t))
    | inr uncounted ↦
        rw (gone, uncounted, and_false (in_config config a)) (split_total config now assignments t)
  ]
  | inr stays ↦ elim (Bool-cases (counts config a)) [
    | inl counted ↦
        rw (stays, counted)
          (split_both a.content_quantity _ _ _ (split_total config now assignments t))
    | inr uncounted ↦ rw (stays, uncounted) (split_total config now assignments t)
  ]
]

-- Cancelling gives back exactly what it cancels: in every configuration the allocated quantity
-- before is the one after, and the quantity of the allocated rows whose assignment was given in a
-- cancelable state.
pub cancel_assignments-refunds :
    (config : Option ℕ) (now : ℕ) (assignments : List Assignment) (t : Table)
    → get_allocated_quantity_for_configuration config t
      ≡ get_allocated_quantity_for_configuration config (cancel_assignments now assignments t).1
        +ℤ total (λ a. counts config a && cancels assignments a) t
unfolding get_allocated_quantity_for_configuration
cancel_assignments-refunds config now assignments t =
    rw (cancel_table now assignments t) (split_total config now assignments t)
