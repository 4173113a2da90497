-- ===== src/Workflow/World.antt =====
-- What the steps of a workflow do to the world outside its tables.
use enterprise_access.Prelude.{
  All, Bool-cases, Dict, List, Option, Result, [], err, inl, inr, is_some, ok, ℕ, ◌∷◌,
}
use enterprise_access.Workflow.Types.{Environment, Output, Raised, Step, StepClass, Table}
use enterprise_access.Workflow.Run.{
  Left, and_then, execute_step, found_step, process_step, process_steps, with_found,
}

module _ {D O W : Type 0} (P : W → Type 0) where
  -- A predicate on the world that the work of a step class keeps, whether it raises or not.
  abbrev pub Keeps : StepClass D O W → Type 0
  Keeps k = (s : Step D) (acc : Output O) (w : W) → P w → P (k.process_input s acc w).1

  execute_step-world :
      (env : Environment D O) (k : StepClass D O W) (s : Step D) (acc : Output O) (t : Table D)
      (w : W)
      → Keeps k
      → P w
      → P (execute_step env k s acc t w).2
  unfolding execute_step
  execute_step-world env k s acc t w keep h = elim (Bool-cases (is_some s.work.succeeded_at)) [
    | inl finished ↦ rw finished h
    | inr todo ↦ rw todo (keep s acc w h)
  ]

  with_found-world :
      (env : Environment D O) (k : StepClass D O W) (acc : Output O) (t : Table D) (w : W)
      (f : Result Raised (Step D × Table D))
      → Keeps k
      → P w
      → P (with_found env k acc t w f).2
  with_found-world env k acc t w (err e) keep h = h
  with_found-world env k acc t w (ok (s, t₁)) keep h = execute_step-world env k s acc t₁ w keep h

  and_then-world :
      (left : Left D O W) (next : Output O × Option ℕ → Table D → W → Left D O W)
      → P left.2
      → ((state : Output O × Option ℕ) (t : Table D) (w : W) → P w → P (next state t w).2)
      → P (and_then left next).2
  and_then-world (err e, t, w) next h keep = h
  and_then-world (ok state, t, w) next h keep = keep state t w h

  -- The loop keeps what every step keeps.
  pub process_steps-world :
      (env : Environment D O) (workflow : ℕ) (input_object : Result Raised (Dict O))
      (ks : List (StepClass D O W)) (state : Output O × Option ℕ) (t : Table D) (w : W)
      → All Keeps ks
      → P w
      → P (process_steps env workflow input_object ks state t w).2
  unfolding process_steps process_step
  process_steps-world env workflow input_object [] state t w keep h = h
  process_steps-world env workflow input_object (k ∷ ks) state t w keep h =
      and_then-world (process_step env workflow input_object k state t w)
        (λ state₁ t₁ w₁. process_steps env workflow input_object ks state₁ t₁ w₁)
        (with_found-world env k state.0 t w (found_step env workflow input_object k state.1 t)
          keep.0 h)
        (λ state₁ t₁ w₁ h₁. process_steps-world env workflow input_object ks state₁ t₁ w₁ keep.1 h₁)
