-- ===== src/Workflow/Outcome.antt =====
-- execute of a whole workflow (workflow/models.py).
use mathlib.Core.Path.{subst}
use enterprise_access.Prelude.{
  All, Bool-cases, Dict, List, Option, Result, Result-cases, [], ap, err, inl, inr, is_some, none,
  ok, refl, some, sym, true, ℕ, ◌>>=◌, ◌∙◌, ◌∷◌, ◌≡◌,
}
use enterprise_access.Workflow.Types.{
  Environment, Output, Raised, Step, StepClass, Table, UnitOfWork, attribute_error,
  unit_of_work_exception,
}
use enterprise_access.Workflow.Run.{
  execute_workflow, process_input, process_step, process_steps, recorded, steps_of,
}
use enterprise_access.Workflow.Rows.{Distinct}
use enterprise_access.Workflow.Found.{IsFresh}
use enterprise_access.Workflow.Executed.{process_step-Kept, process_step-Ran}
use enterprise_access.Workflow.Loop.{Varied, and_then-ok, process_steps-Kept}

-- A step's one row, which has succeeded.
abbrev pub Finished : {D O W : Type 0} → ℕ → Table D → StepClass D O W → Type 0
Finished {D} workflow t k =
    (row : Step D) × (steps_of k.step_kind workflow t ≡ row ∷ [])
    × (is_some row.work.succeeded_at ≡ true)

-- The output of the loop with its dictionary.
abbrev whole :
    {D O : Type 0}
    → (Output O → Result Raised D)
    → Result Raised (Output O × Option ℕ)
    → Result Raised (Output O × D)
whole {D} {O} output_dict r =
    ◌>>=◌ {B = Output O × D} (◌>>=◌ {B = Option (Output O)} r (λ state. ok (some state.0))) (λ o.
      elim o [
        | none ↦ err attribute_error
        | some output ↦ ◌>>=◌ {B = Output O × D} (output_dict output) (λ d. ok (output, d))
      ])

pair_of : {A B C : Type 0} (x : A × B × C) (a : A) (b : B) → x.0 ≡ a → x.1 ≡ b → x ≡ (a, b, x.2)
pair_of (x, y, z) a b e f = rw (e, f) refl

module _ {D O : Type 0} (env : Environment D O) where
  returned :
      (output_dict : Output O → Result Raised D) (exception_class : ℕ) (u : UnitOfWork D)
      (r : Result Raised (Output O × Option ℕ)) (output : Output O)
      → (recorded env.now env.text exception_class u (whole output_dict r)).0 ≡ ok output
      → (state : Output O × Option ℕ) × (d : D) × (r ≡ ok state)
        × (output_dict output ≡ ok d)
        × ((recorded env.now env.text exception_class u (whole output_dict r)).1
            ≡ record u { output_data = some d; succeeded_at = some env.now })
  unfolding recorded
  returned output_dict exception_class u (err e) output h = cc
  returned output_dict exception_class u (ok state) output h =
      elim (Result-cases (output_dict state.0)) [
        | inl (d, e) ↦
            let h₁ = rw e at h in
            let same : state.0 ≡ output = cc in
            (state, d, refl, subst (λ x. output_dict x ≡ ok d) same e, rw e refl)
        | inr (e, f) ↦ let h₁ = rw f at h in cc
      ]

module _ {D O W : Type 0} (env : Environment D O) (input_object : Result Raised (Dict O)) where
  process_steps-Finished :
      (workflow : ℕ) (ks : List (StepClass D O W)) (state state₁ : Output O × Option ℕ)
      (t t₁ : Table D) (w w₁ : W)
      → IsFresh env
      → Varied ks
      → Distinct t
      → process_steps env workflow input_object ks state t w ≡ (ok state₁, t₁, w₁)
      → All (λ k. Finished workflow t₁ k) ks
  unfolding process_steps
  process_steps-Finished workflow [] state state₁ t t₁ w w₁ fresh varied apart h = tt
  process_steps-Finished workflow (k ∷ ks) (acc, preceding) state₁ t t₁ w w₁ fresh varied apart h =
      let ((acc₂, key), t₃, w₃, now, then) =
        and_then-ok (process_step env workflow input_object k (acc, preceding) t w) _ state₁ t₁ w₁
          h in
      let (o, e, z, d, i) =
        process_step-Ran env workflow input_object k acc acc₂ preceding key t t₃ w w₃ fresh apart
          now in
      let kept = process_step-Kept env workflow input_object k (acc, preceding) t w fresh apart in
      let apart₃ : Distinct t₃ = subst (λ x. Distinct x.1) now kept.distinct in
      let frame =
        process_steps-Kept env workflow input_object k.step_kind ks (acc₂, key) t₃ w₃ fresh apart₃
          varied.0 in
      let same : steps_of k.step_kind workflow t₁ ≡ steps_of k.step_kind workflow t₃ =
        ap (λ x. steps_of k.step_kind workflow x.1) (sym then) ∙ frame.1 in
      (
        (z.row, same ∙ z.only, z.succeeded),
        process_steps-Finished workflow ks (acc₂, key) state₁ t₃ t₁ w₃ w₁ fresh varied.1 apart₃
            then,
      )

  -- An execution of a workflow that returns has succeeded at this time with the output that it
  -- returns, stored as its dictionary, and each of its steps has exactly one row, which has succeeded.
  -- The steps have different classes, and uuid4 gives new keys.
  pub execute_workflow-Finished :
      (output_dict : Output O → Result Raised D) (exception_class : ℕ) (u u₁ : UnitOfWork D)
      (ks : List (StepClass D O W)) (t t₁ : Table D) (w w₁ : W) (output : Output O)
      → IsFresh env
      → Varied ks
      → Distinct t
      → execute_workflow env output_dict exception_class u input_object ks t w
        ≡ (ok output, u₁, t₁, w₁)
      → (u₁.succeeded_at ≡ some env.now)
        × ((d : D) × (u₁.output_data ≡ some d) × (output_dict output ≡ ok d))
        × All (λ k. Finished u.uuid t₁ k) ks
  unfolding execute_workflow process_input recorded
  execute_workflow-Finished output_dict exception_class u u₁ ks t t₁ w w₁ output fresh varied apart
        h =
      elim (Bool-cases (is_some u.succeeded_at)) [
        | inl again ↦ let h₁ = rw again at h in let h₂ = ap (λ x. x.0) h₁ in cc
        | inr first ↦
            let h₁ = rw first at h in
            let left = process_steps env u.uuid input_object ks ([], none) t w in
            let (state, d, made, dict, after) =
              returned env output_dict exception_class u left.0 output (ap (λ x. x.0) h₁) in
            let table : left.1 ≡ t₁ = ap (λ x. x.2) h₁ in
            let record_ = sym after ∙ ap (λ x. x.1) h₁ in
            let ran : left ≡ (ok state, t₁, left.2) = pair_of left (ok state) t₁ made table in
            (
              ap (λ x. x.succeeded_at) (sym record_),
              (d, ap (λ x. x.output_data) (sym record_), dict),
              process_steps-Finished u.uuid ks ([], none) state t t₁ w left.2 fresh varied apart
                  ran,
            )
      ]

  -- A workflow that has succeeded cannot be executed again: the call raises the workflow's
  -- exception and records a failure beside the success. The tables and the world are not touched.
  pub execute_workflow-again :
      (output_dict : Output O → Result Raised D) (exception_class : ℕ) (u : UnitOfWork D)
      (ks : List (StepClass D O W)) (t : Table D) (w : W)
      → is_some u.succeeded_at ≡ true
      → execute_workflow env output_dict exception_class u input_object ks t w ≡ (
        err (unit_of_work_exception exception_class (env.text attribute_error)),
        record u { failed_at = some env.now; exception_message = some (env.text attribute_error) },
        t,
        w,
      )
  unfolding execute_workflow process_input recorded
  execute_workflow-again output_dict exception_class u ks t w done = rw done refl
