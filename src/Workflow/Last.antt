-- ===== src/Workflow/Last.antt =====
-- The last step of a workflow whose steps all return.
use mathlib.Core.Path.{subst}
use enterprise_access.Prelude.{
  >>=-eq-ok, All, Bool-cases, Dict, List, Option, Result, [], ap, arith, err, false, inl, inr,
  is_some, ok, refl, some, sym, ℕ, ◌&&◌, ◌++◌, ◌==◌, ◌∙◌, ◌∷◌, ◌≡◌,
}
use enterprise_access.Workflow.Types.{Environment, Output, Raised, Step, StepClass, Table}
use enterprise_access.Workflow.Run.{
  and_then, execute, execute_step, found_step, got_or_created, input_of, new_step, process_step,
  process_steps, steps_of, with_found,
}
use enterprise_access.Workflow.Rows.{Distinct}
use enterprise_access.Workflow.Found.{IsFresh}
use enterprise_access.Workflow.Executed.{executed, found-Got}
use enterprise_access.Workflow.Loop.{
  Unlike, and_then-ok, and_then-same, and_then_assoc, process_steps-Kept,
}

module _ {D : Type 0} where
  abbrev pub Unfinished : Step D → Type 0
  Unfinished s = is_some s.work.succeeded_at ≡ false

  -- The rows that a filter finds satisfy it.
  of_workflow :
      (kind workflow : ℕ) (s : Step D) (rest t : Table D)
      → steps_of kind workflow t ≡ s ∷ rest
      → s.workflow_record_uuid ≡ workflow
  of_workflow kind workflow s rest [] h = cc
  of_workflow kind workflow s rest (a ∷ t) h =
      elim (Bool-cases ((a.step_type == kind) && (a.workflow_record_uuid == workflow))) [
        | inl mine ↦
            let h₁ : a ∷ steps_of kind workflow t ≡ s ∷ rest = rw mine at h in
            let itself : a ≡ s = cc in
            let e : a.workflow_record_uuid ≡ workflow = ground (arith, mine) in cc
        | inr other ↦ of_workflow kind workflow s rest t (rw other at h)
      ]

module _ {D O : Type 0} (env : Environment D O) (workflow : ℕ) where
  found-Unfinished :
      (kind : ℕ) (d : D) (preceding : Option ℕ) (t t₁ rows : Table D) (s : Step D)
      → All Unfinished rows
      → got_or_created env kind workflow d preceding t rows ≡ ok (s, t₁)
      → Unfinished s
  unfolding got_or_created
  found-Unfinished kind d preceding t t₁ [] s u h =
      let here : new_step kind (env.uuid4 t) workflow d preceding ≡ s = cc in
      subst Unfinished here refl
  found-Unfinished kind d preceding t t₁ (a ∷ []) s u h =
      let here : a ≡ s = cc in subst Unfinished here u.0
  found-Unfinished kind d preceding t t₁ (a ∷ b ∷ rows) s u h = cc

module _ {D O W : Type 0} (env : Environment D O) (workflow : ℕ)
    (input_object : Result Raised (Dict O)) where
  process_steps-append :
      (ks js : List (StepClass D O W)) (state : Output O × Option ℕ) (t : Table D) (w : W)
      → process_steps env workflow input_object (ks ++ js) state t w
        ≡ and_then
            (process_steps env workflow input_object ks state t w)
            (λ s u v. process_steps env workflow input_object js s u v)
  unfolding process_steps
  process_steps-append [] js state t w = refl
  process_steps-append (k ∷ ks) js state t w =
      and_then-same (process_step env workflow input_object k state t w) _ _
        (λ s u v. process_steps-append ks js s u v)
      ∙ sym (and_then_assoc (process_step env workflow input_object k state t w) _ _)

  -- The work of a step that was done, in a world with a property.
  abbrev pub Worked : (W → Type 0) → StepClass D O W → W → Type 0
  Worked P k w₁ =
      (s : Step D) × (acc : Output O) × (w : W) × (x : O) × P w
      × (s.workflow_record_uuid ≡ workflow)
      × ((k.process_input s acc w).0 ≡ ok (some x))
      × ((k.process_input s acc w).1 ≡ w₁)

  execute_step-Worked :
      (P : W → Type 0) (k : StepClass D O W) (s : Step D) (acc : Output O) (t t₁ : Table D)
      (w w₁ : W) (state : Output O × Option ℕ)
      → P w
      → Unfinished s
      → s.workflow_record_uuid ≡ workflow
      → execute_step env k s acc t w ≡ (ok state, t₁, w₁)
      → Worked P k w₁
  unfolding execute_step
  execute_step-Worked P k s acc t t₁ w w₁ state p todo mine h =
      let h₁ = rw todo at h in
      let (o, e, f) =
        >>=-eq-ok (execute env k.exception_class s.work (k.process_input s acc w).0).0 _
          (ap (λ x. x.0) h₁) in
      let (x, d, answered, given, dict, u) =
        executed env workflow k s (k.process_input s acc w).0 o e in
      (s, acc, w, x, p, mine, answered, ap (λ y. y.2) h₁)

  with_found-Worked :
      (P : W → Type 0) (k : StepClass D O W) (acc : Output O) (preceding : Option ℕ)
      (t t₁ : Table D) (w w₁ : W) (state : Output O × Option ℕ)
      (f : Result Raised (Step D × Table D))
      → P w
      → IsFresh env
      → Distinct t
      → All Unfinished (steps_of k.step_kind workflow t)
      → found_step env workflow input_object k preceding t ≡ f
      → with_found env k acc t w f ≡ (ok state, t₁, w₁)
      → Worked P k w₁
  unfolding found_step
  with_found-Worked P k acc preceding t t₁ w w₁ state (err e) p fresh apart todo f h =
      let h₁ = ap (λ x. x.0) h in cc
  with_found-Worked P k acc preceding t t₁ w w₁ state (ok (s, t₂)) p fresh apart todo f h =
      let (g, d, i) = found-Got env workflow input_object k preceding t t₂ s fresh apart f in
      let (d₁, e₁, f₁) = >>=-eq-ok (input_of env.codec k input_object) _ f in
      let unfinished =
        found-Unfinished env workflow k.step_kind d₁ preceding t t₂
          (steps_of k.step_kind workflow t) s todo f₁ in
      execute_step-Worked P k s acc t₂ t₁ w w₁ state p unfinished
        (of_workflow k.step_kind workflow s [] t₂ g.only) h

  -- When all the steps of a workflow return, and its last step had not succeeded before, then the
  -- work of the last step was done, in a world that the steps before it have left, and left the
  -- world as it is.
  pub process_steps-Worked :
      (P : W → Type 0) (ks : List (StepClass D O W)) (k : StepClass D O W)
      (state state₁ : Output O × Option ℕ) (t t₁ : Table D) (w w₁ : W)
      → IsFresh env
      → Distinct t
      → Unlike k.step_kind ks
      → All Unfinished (steps_of k.step_kind workflow t)
      → P (process_steps env workflow input_object ks state t w).2
      → process_steps env workflow input_object (ks ++ k ∷ []) state t w ≡ (ok state₁, t₁, w₁)
      → Worked P k w₁
  unfolding process_steps process_step
  process_steps-Worked P ks k state state₁ t t₁ w w₁ fresh apart unlike todo p h =
      let (s₂, t₂, w₂, before, last) =
        and_then-ok (process_steps env workflow input_object ks state t w) _ state₁ t₁ w₁
          (sym (process_steps-append ks (k ∷ []) state t w) ∙ h) in
      let (apart₁, rows) =
        process_steps-Kept env workflow input_object k.step_kind ks state t w fresh apart unlike in
      let apart₂ : Distinct t₂ = subst (λ x. Distinct x.1) before apart₁ in
      let rows₂ : steps_of k.step_kind workflow t₂ ≡ steps_of k.step_kind workflow t =
        sym (ap (λ x. steps_of k.step_kind workflow x.1) before) ∙ rows in
      let (s₃, t₃, w₃, step, rest) =
        and_then-ok (process_step env workflow input_object k s₂ t₂ w₂) _ state₁ t₁ w₁ last in
      let done_last : process_step env workflow input_object k s₂ t₂ w₂ ≡ (ok state₁, t₁, w₁) =
        step ∙ rest in
      with_found-Worked P k s₂.0 s₂.1 t₂ t₁ w₂ w₁ state₁
        (found_step env workflow input_object k s₂.1 t₂) (subst (λ x. P x.2) before p) fresh apart₂
        (subst (All Unfinished) (sym rows₂) todo) refl done_last
