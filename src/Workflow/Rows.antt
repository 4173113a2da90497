-- ===== src/Workflow/Rows.antt =====
-- The rows of the step tables around get_or_create and save.
use mathlib.Core.Path.{subst}
use enterprise_access.Prelude.{
  All, All-append, All-map, Bool, Bool-cases, [], ap, arith, false, filter, if◌then◌else◌, inl, inr,
  refl, sym, true, ℕ, ◌&&◌, ◌++◌, ◌==◌, ◌∙◌, ◌∷◌, ◌≡◌,
}
use enterprise_access.Workflow.Types.{Step, Table}
use enterprise_access.Workflow.Run.{same_row, save, steps_of}

module _ {D : Type 0} where
  -- No two rows of one table have the same primary key.
  abbrev pub Distinct : Table D → Type 0
  Distinct [] = Unit {0}
  Distinct (a ∷ t) = All (λ b. same_row a b ≡ false) t × Distinct t

  apart :
      (p : Step D → Bool) (a s : Step D) (t : Table D)
      → All (λ b. same_row a b ≡ false) t
      → filter p t ≡ s ∷ []
      → same_row a s ≡ false
  apart p a s [] h e = cc
  apart p a s (b ∷ t) h e = elim (Bool-cases (p b)) [
    | inl holds ↦
        let e₁ : b ∷ filter p t ≡ s ∷ [] = rw holds at e in
        let same : b ≡ s = cc in subst (λ x. same_row a x ≡ false) same h.0
    | inr fails ↦ apart p a s t h.1 (rw fails at e)
  ]

  -- A row that is not in the table is not saved over.
  save-absent : (s : Step D) (t : Table D) → All (λ b. same_row s b ≡ false) t → save s t ≡ t
  save-absent s [] h = refl
  save-absent s (b ∷ t) h = rw (h.0, save-absent s t h.1) refl

  same_keys :
      (a b c : Step D)
      → a.step_type ≡ b.step_type
      → a.work.uuid ≡ b.work.uuid
      → same_row a c ≡ same_row b c
  same_keys a b c e f = rw (e, f) refl

  other_way : (a b : Step D) → same_row a b ≡ false → same_row b a ≡ false
  other_way a b h = ground arith

  -- The only row of a step and a workflow, saved.
  pub steps_of-save :
      (kind workflow : ℕ) (r s : Step D) (t : Table D)
      → s.step_type ≡ r.step_type
      → s.work.uuid ≡ r.work.uuid
      → s.workflow_record_uuid ≡ r.workflow_record_uuid
      → Distinct t
      → steps_of kind workflow t ≡ r ∷ []
      → steps_of kind workflow (save s t) ≡ s ∷ []
  steps_of-save kind workflow r s [] e f g d h = cc
  steps_of-save kind workflow r s (a ∷ t) e f g d h =
      elim (Bool-cases ((a.step_type == kind) && (a.workflow_record_uuid == workflow))) [
        | inl mine ↦
            let h₁ : a ∷ steps_of kind workflow t ≡ r ∷ [] = rw mine at h in
            let itself : a ≡ r = cc in
            let none_later : steps_of kind workflow t ≡ [] = cc in
            let e₁ : s.step_type ≡ a.step_type = cc in
            let f₁ : s.work.uuid ≡ a.work.uuid = cc in
            let g₁ : s.workflow_record_uuid ≡ a.workflow_record_uuid = cc in
            let keys : same_row s a ≡ true = ground arith in
            let mine_too : ((s.step_type == kind) && (s.workflow_record_uuid == workflow)) ≡ true =
              rw (e₁, g₁) mine in
            let fresh =
              All-map (λ b. same_row a b ≡ false) (λ b. same_row s b ≡ false)
                (λ b k. same_keys s a b e₁ f₁ ∙ k) t d.0 in
            rw (keys, mine_too, save-absent s t fresh, none_later) refl
        | inr other ↦
            let h₁ : steps_of kind workflow t ≡ r ∷ [] = rw other at h in
            let away =
              apart (λ b. (b.step_type == kind) && (b.workflow_record_uuid == workflow)) a r t d.0
                h₁ in
            let keys : same_row s a ≡ false = same_keys s r a e f ∙ other_way a r away in
            rw (keys, other) (steps_of-save kind workflow r s t e f g d.1 h₁)
      ]

  -- The rows of another step class stay.
  pub steps_of-save_other :
      (kind workflow : ℕ) (s : Step D) (t : Table D)
      → (s.step_type == kind) ≡ false
      → steps_of kind workflow (save s t) ≡ steps_of kind workflow t
  steps_of-save_other kind workflow s [] h = refl
  steps_of-save_other kind workflow s (a ∷ t) h = elim (Bool-cases (same_row s a)) [
    | inl keys ↦
        let other : (a.step_type == kind) ≡ false = ground arith in
        rw (keys, h, other) (steps_of-save_other kind workflow s t h)
    | inr away ↦ rw away (
        ap (λ u. if (a.step_type == kind) && (a.workflow_record_uuid == workflow) then a ∷ u else u)
          (steps_of-save_other kind workflow s t h))
  ]

  pub filter-append :
      (p : Step D → Bool) (t u : Table D) → filter p (t ++ u) ≡ filter p t ++ filter p u
  filter-append p [] u = refl
  filter-append p (a ∷ t) u = elim (Bool-cases (p a)) [
    | inl holds ↦ rw holds (ap (λ v. a ∷ v) (filter-append p t u))
    | inr fails ↦ rw fails (filter-append p t u)
  ]

  saved_keys : (s a b : Step D) → same_row s a ≡ true → same_row a b ≡ same_row s b
  saved_keys s a b h = ground arith

  All-save :
      (s a : Step D) (t : Table D)
      → All (λ b. same_row a b ≡ false) t
      → All (λ b. same_row a b ≡ false) (save s t)
  All-save s a [] h = tt
  All-save s a (b ∷ t) h = elim (Bool-cases (same_row s b)) [
    | inl keys ↦ rw keys (ground (arith, h.0, keys), All-save s a t h.1)
    | inr away ↦ rw away (h.0, All-save s a t h.1)
  ]

  pub Distinct-save : (s : Step D) (t : Table D) → Distinct t → Distinct (save s t)
  Distinct-save s [] d = tt
  Distinct-save s (a ∷ t) d = elim (Bool-cases (same_row s a)) [
    | inl keys ↦ rw keys (
      All-map (λ b. same_row a b ≡ false) (λ b. same_row s b ≡ false)
          (λ b k. sym (saved_keys s a b keys) ∙ k) (save s t) (All-save s a t d.0),
      Distinct-save s t d.1,
    )
    | inr away ↦ rw away (All-save s a t d.0, Distinct-save s t d.1)
  ]

  pub Distinct-append :
      (s : Step D) (t : Table D)
      → Distinct t
      → All (λ b. same_row s b ≡ false) t
      → Distinct (t ++ s ∷ [])
  Distinct-append s [] d h = (tt, tt)
  Distinct-append s (a ∷ t) d h = (
    All-append (λ b. same_row a b ≡ false) t (s ∷ []) d.0 (other_way s a h.0, tt),
    Distinct-append s t d.1 h.1,
  )
