-- ===== src/Requests/Reversed.antt =====
-- The reversal of a transaction, and its second delivery (content_assignments/signals.py).
use mathlib.Core.Path.{subst}
use enterprise_access.Prelude.{
  All, All-map, Bool, Bool-cases, List, Option, Result, [], ap, arith, false, filter, if◌then◌else◌,
  inl, inr, map, none, ok, opt_eq, refl, some, sym, true, ℕ, ◌&&◌, ◌++◌, ◌∙◌, ◌∷◌, ◌≡◌,
}
use enterprise_access.Assignments.Types.{
  Assignment, Error, Table, action_reversed, is_accepted, reversed,
}
use enterprise_access.Assignments.Cancellation.{same_row}
use enterprise_access.Assignments.Actions.{add_successful}
use enterprise_access.Assignments.PreparedRows.{Distinct, In, In-filter, found}
use enterprise_access.Requests.Types.{RequestTable}
use enterprise_access.Requests.Reversal.{
  Reversal, ReversalAction, of_transaction, reverse_found, reversed_row, save_assignment,
  update_assignment_status_for_reversed_transaction,
}

pub unsaved :
    (a : Assignment) (t : Table) → All (λ b. same_row a b ≡ false) t → save_assignment a t ≡ t
unsaved a [] h = refl
unsaved a (b ∷ t) h = rw (h.0, unsaved a t h.1) refl

away_from :
    (p : Assignment → Bool) (a s : Assignment) (t : Table)
    → All (λ b. same_row a b ≡ false) t
    → filter p t ≡ s ∷ []
    → same_row a s ≡ false
away_from p a s [] h e = cc
away_from p a s (b ∷ t) h e = elim (Bool-cases (p b)) [
  | inl holds ↦
      let e₁ : b ∷ filter p t ≡ s ∷ [] = rw holds at e in
      let same : b ≡ s = cc in subst (λ x. same_row a x ≡ false) same h.0
  | inr fails ↦ away_from p a s t h.1 (rw fails at e)
]

-- The only row that a filter finds, saved with what the filter looks at unchanged.
only_saved :
    (p : Assignment → Bool) (a s : Assignment) (t : Table)
    → s.uuid ≡ a.uuid
    → p s ≡ true
    → Distinct t
    → filter p t ≡ a ∷ []
    → filter p (save_assignment s t) ≡ s ∷ []
only_saved p a s [] e k d h = cc
only_saved p a s (b ∷ t) e k d h = elim (Bool-cases (p b)) [
  | inl holds ↦
      let h₁ : b ∷ filter p t ≡ a ∷ [] = rw holds at h in
      let itself : b ≡ a = cc in
      let none_later : filter p t ≡ [] = cc in
      let f : s.uuid ≡ b.uuid = cc in
      let keys : same_row s b ≡ true = ground arith in
      let others_away =
        All-map (λ c. same_row b c ≡ false) (λ c. same_row s c ≡ false) (λ c l. rw f l) t d.0 in
      rw (keys, k, unsaved s t others_away, none_later) refl
  | inr fails ↦
      let h₁ : filter p t ≡ a ∷ [] = rw fails at h in
      let away = away_from p b a t d.0 h₁ in
      let keys : same_row s b ≡ false = ground arith in
      rw (keys, fails) (only_saved p a s t e k d.1 h₁)
]

reversed_keys :
    (now tx : ℕ) (a : Assignment)
    → opt_eq a.transaction_uuid (some tx) ≡ true
    → (opt_eq (reversed_row now a).transaction_uuid (some tx) ≡ true)
      × ((reversed_row now a).uuid ≡ a.uuid)
unfolding reversed_row add_successful
reversed_keys now tx a h = (h, refl)

reversed_keys_state : (now : ℕ) (a : Assignment) → (reversed_row now a).state ≡ reversed
unfolding reversed_row add_successful
reversed_keys_state now a = refl

accepted_is_reversed :
    (now tx : ℕ) (a : Assignment) (t : Table)
    → Distinct t
    → of_transaction tx t ≡ a ∷ []
    → of_transaction tx (save_assignment (reversed_row now a) t) ≡ reversed_row now a ∷ []
accepted_is_reversed now tx a t apart h =
    let mine =
      (In-filter a (λ b. opt_eq b.transaction_uuid (some tx)) t
        (subst (λ x. In a x) (sym h) (inl refl))).1 in
    let (k, e) = reversed_keys now tx a mine in
    only_saved (λ b. opt_eq b.transaction_uuid (some tx)) a (reversed_row now a) t e k apart h

parts_of :
    (t t₁ : Table) (q q₁ : RequestTable) (x y : Option ReversalAction)
    → ◌≡◌ {A = Result Error Reversal} (ok (t, q, x)) (ok (t₁, q₁, y))
    → t ≡ t₁
parts_of t t₁ q q₁ x y h = cc

-- The first delivery, by what it finds.
delivered :
    (now later tx : ℕ) (found : List Assignment) (t t₁ : Table) (q q₁ : RequestTable)
    (x : Option ReversalAction)
    → Distinct t
    → of_transaction tx t ≡ found
    → reverse_found now found t q ≡ ok (t₁, q₁, x)
    → reverse_found later (of_transaction tx t₁) t₁ q₁ ≡ ok (t₁, q₁, none)
unfolding reverse_found
delivered now later tx [] t t₁ q q₁ x apart e h =
    let e₁ : of_transaction tx t₁ ≡ [] =
      subst (λ u. of_transaction tx u ≡ []) (parts_of t t₁ q q₁ none x h) e in
    rw e₁ refl
delivered now later tx (a ∷ []) t t₁ q q₁ x apart e h = elim (Bool-cases (is_accepted a.state)) [
  | inl accepted_ ↦
      let h₁ = rw accepted_ at h in
      let e₁ : of_transaction tx t₁ ≡ reversed_row now a ∷ [] =
        subst (λ u. of_transaction tx u ≡ reversed_row now a ∷ []) (parts_of _ t₁ _ q₁ _ x h₁)
          (accepted_is_reversed now tx a t apart e) in
      let done : is_accepted (reversed_row now a).state ≡ false =
        ap is_accepted (reversed_keys_state now a) in
      rw (e₁, done) refl
  | inr other ↦
      let h₁ = rw other at h in
      let e₁ : of_transaction tx t₁ ≡ a ∷ [] =
        subst (λ u. of_transaction tx u ≡ a ∷ []) (parts_of t t₁ q q₁ none x h₁) e in
      rw (e₁, other) refl
]
delivered now later tx (a ∷ b ∷ found) t t₁ q q₁ x apart e h = cc

-- The reversal of a transaction is idempotent: a second delivery of the event, at any time, changes
-- nothing and creates no action, when the assignments' primary keys are distinct.
pub update_assignment_status_for_reversed_transaction-twice :
    (now later tx : ℕ) (t t₁ : Table) (q q₁ : RequestTable) (x : Option ReversalAction)
    → Distinct t
    → update_assignment_status_for_reversed_transaction now tx t q ≡ ok (t₁, q₁, x)
    → update_assignment_status_for_reversed_transaction later tx t₁ q₁ ≡ ok (t₁, q₁, none)
update_assignment_status_for_reversed_transaction-twice now later tx t t₁ q q₁ x apart h =
    delivered now later tx (of_transaction tx t) t t₁ q q₁ x apart refl h

-- What becomes of a row, by its transaction and its state.
abbrev pub row_after : ℕ → ℕ → Assignment → Assignment
row_after now tx b =
    if opt_eq b.transaction_uuid (some tx) && is_accepted b.state
    then (record b {
      state = reversed;
      reversed_at = some now;
      modified = now;
      actions =
          b.actions
          ++ record { action_type = action_reversed; completed_at = some now; error_reason = none }
            ∷ [];
    })
    else b

reversed_row_lem :
    (now tx : ℕ) (a : Assignment)
    → opt_eq a.transaction_uuid (some tx) ≡ true
    → is_accepted a.state ≡ true
    → row_after now tx a ≡ reversed_row now a
unfolding reversed_row add_successful
reversed_row_lem now tx a h k = rw (h, k) refl

same_row-reversed : (now : ℕ) (x : Assignment) → same_row (reversed_row now x) x ≡ true
unfolding reversed_row add_successful
same_row-reversed now x = ground arith

other_row-reversed :
    (now : ℕ) (x y : Assignment) → same_row y x ≡ false → same_row (reversed_row now x) y ≡ false
unfolding reversed_row add_successful
other_row-reversed now x y e = ground (arith, e)

rows-reversed :
    (now : ℕ) (x : Assignment) (u : Table)
    → All (λ c. same_row x c ≡ false) u
    → All (λ c. same_row (reversed_row now x) c ≡ false) u
unfolding reversed_row add_successful
rows-reversed now x u l = l

module _ (now tx : ℕ) where
  none_after : (t : Table) → of_transaction tx t ≡ [] → map (row_after now tx) t ≡ t
  none_after [] h = refl
  none_after (b ∷ t) h = elim (Bool-cases (opt_eq b.transaction_uuid (some tx))) [
    | inl mine ↦ let e = rw mine at h in cc
    | inr other ↦ rw (other, none_after t (rw other at h)) refl
  ]

  -- The only row of the transaction.
  one_after :
      (a : Assignment) (t : Table)
      → Distinct t
      → of_transaction tx t ≡ a ∷ []
      → is_accepted a.state ≡ true
      → map (row_after now tx) t ≡ save_assignment (reversed_row now a) t
  one_after a [] d h k = cc
  one_after a (b ∷ t) d h k = elim (Bool-cases (opt_eq b.transaction_uuid (some tx))) [
    | inl mine ↦
        let h₁ : b ∷ of_transaction tx t ≡ a ∷ [] = rw mine at h in
        let itself : b ≡ a = cc in
        let rest : of_transaction tx t ≡ [] = cc in
        let k₁ : is_accepted b.state ≡ true =
          subst (λ x. is_accepted x.state ≡ true) (sym itself) k in
        let away : save_assignment (reversed_row now b) t ≡ t =
          unsaved (reversed_row now b) t (rows-reversed now b t d.0) in
        let head : same_row (reversed_row now b) b ≡ true = same_row-reversed now b in
        subst (λ x. map (row_after now tx) (b ∷ t) ≡ save_assignment (reversed_row now x) (b ∷ t))
          itself (rw (head, away, reversed_row_lem now tx b mine k₁, none_after t rest) refl)
    | inr other ↦
        let h₁ = rw other at h in
        let apart : same_row (reversed_row now a) b ≡ false =
          other_row-reversed now a b
            (away_from (λ c. opt_eq c.transaction_uuid (some tx)) b a t d.0 h₁) in
        rw (other, apart, one_after a t d.1 h₁ k) refl
  ]

  idle_after :
      (a : Assignment) (t : Table)
      → of_transaction tx t ≡ a ∷ []
      → is_accepted a.state ≡ false
      → map (row_after now tx) t ≡ t
  idle_after a [] h k = cc
  idle_after a (b ∷ t) h k = elim (Bool-cases (opt_eq b.transaction_uuid (some tx))) [
    | inl mine ↦
        let h₁ : b ∷ of_transaction tx t ≡ a ∷ [] = rw mine at h in
        let itself : b ≡ a = cc in
        let rest : of_transaction tx t ≡ [] = cc in
        let k₁ : is_accepted b.state ≡ false =
          subst (λ x. is_accepted x.state ≡ false) (sym itself) k in
        rw (mine, k₁, none_after t rest) refl
    | inr other ↦ rw (other, idle_after a t (rw other at h) k) refl
  ]

  found_after :
      (found : List Assignment) (t t₁ : Table) (q q₁ : RequestTable) (x : Option ReversalAction)
      → Distinct t
      → of_transaction tx t ≡ found
      → reverse_found now found t q ≡ ok (t₁, q₁, x)
      → t₁ ≡ map (row_after now tx) t
  unfolding reverse_found
  found_after [] t t₁ q q₁ x d e h = sym (parts_of t t₁ q q₁ none x h) ∙ sym (none_after t e)
  found_after (a ∷ []) t t₁ q q₁ x d e h = elim (Bool-cases (is_accepted a.state)) [
    | inl yes_accepted ↦
        sym (parts_of _ t₁ _ q₁ _ x (rw yes_accepted at h)) ∙ sym (one_after a t d e yes_accepted)
    | inr other ↦ sym (parts_of t t₁ q q₁ none x (rw other at h)) ∙ sym (idle_after a t e other)
  ]
  found_after (a ∷ b ∷ found) t t₁ q q₁ x d e h = cc

-- A delivery of the reversal of a transaction that returns moves every accepted assignment with
-- this transaction to reversed, with the time of the reversal and an action for it, and leaves
-- every other field and every other assignment as it is, when the assignments' primary keys are
-- distinct and whatever becomes of the request.
pub update_assignment_status_for_reversed_transaction-reverses :
    (now tx : ℕ) (t t₁ : Table) (q q₁ : RequestTable) (x : Option ReversalAction)
    → Distinct t
    → update_assignment_status_for_reversed_transaction now tx t q ≡ ok (t₁, q₁, x)
    → t₁ ≡ map (row_after now tx) t
update_assignment_status_for_reversed_transaction-reverses now tx t t₁ q q₁ x apart h =
    found_after now tx (of_transaction tx t) t t₁ q q₁ x apart refl h
