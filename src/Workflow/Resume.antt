-- ===== src/Workflow/Resume.antt =====
-- The loop of a workflow run again on what an earlier run has left.
use mathlib.Core.Path.{subst}
use enterprise_access.Prelude.{
  All, Dict, List, Option, Result, [], ap, ok, sym, ℕ, ◌++◌, ◌∙◌, ◌∷◌, ◌≡◌,
}
use enterprise_access.Workflow.Types.{Environment, Output, Raised, StepClass, Table}
use enterprise_access.Workflow.Run.{and_then, process_step, process_steps, steps_of}
use enterprise_access.Workflow.Rows.{Distinct}
use enterprise_access.Workflow.Found.{Converts, IsFresh}
use enterprise_access.Workflow.Executed.{
  Settled, process_step-Kept, process_step-Settled, process_step-again,
}
use enterprise_access.Workflow.Loop.{
  Varied, and_then-ok, first_Varied, frames, process_steps-Kept, process_steps-append, some_Kept,
}

-- The same environment at another time.
abbrev pub at : {D O : Type 0} → Environment D O → ℕ → Environment D O
at env later = record env { now = later }

module _ {D O W : Type 0} where
  module _ (env : Environment D O) (workflow : ℕ) (input_object : Result Raised (Dict O)) where
    carried :
        (k : StepClass D O W) (later : ℕ) (key : Option ℕ) (o : Option O) (t t₁ : Table D)
        → Settled env workflow k key o t
        → steps_of k.step_kind workflow t₁ ≡ steps_of k.step_kind workflow t
        → Settled (at env later) workflow k key o t₁
    carried k later key o t t₁ z same = record {
      row = z.row;
      only = same ∙ z.only;
      succeeded = z.succeeded;
      gives = z.gives;
      keyed = z.keyed;
    }

    -- Steps that have all succeeded are run again without an effect, on any table that has their rows.
    repeated :
        (ks : List (StepClass D O W)) (state state₁ : Output O × Option ℕ) (t t₁ t₂ : Table D)
        (w w₁ w₂ : W) (later : ℕ)
        → IsFresh env
        → All (λ k. Converts env k) ks
        → Varied ks
        → Distinct t
        → process_steps env workflow input_object ks state t w ≡ (ok state₁, t₁, w₁)
        → All (λ k. steps_of k.step_kind workflow t₂ ≡ steps_of k.step_kind workflow t₁) ks
        → process_steps (at env later) workflow input_object ks state t₂ w₂ ≡ (ok state₁, t₂, w₂)
    unfolding process_steps
    repeated [] state state₁ t t₁ t₂ w w₁ w₂ later fresh conv varied apart h same =
        let h₁ = ap (λ x. x.0) h in ap (λ r. (r, t₂, w₂)) h₁
    repeated (k ∷ ks) (acc, preceding) state₁ t t₁ t₂ w w₁ w₂ later fresh conv varied apart h same =
        let ((acc₂, key), t₃, w₃, now, then) =
          and_then-ok (process_step env workflow input_object k (acc, preceding) t w) _ state₁ t₁ w₁
            h in
        let (o, e, z, d, i) =
          process_step-Settled env workflow input_object k acc acc₂ preceding key t t₃ w w₃ fresh
            conv.0 apart now in
        let kept = process_step-Kept env workflow input_object k (acc, preceding) t w fresh apart in
        let apart₃ : Distinct t₃ = subst (λ x. Distinct x.1) now kept.distinct in
        let frame =
          process_steps-Kept env workflow input_object k.step_kind ks (acc₂, key) t₃ w₃ fresh apart₃
            varied.0 in
        let there : steps_of k.step_kind workflow t₁ ≡ steps_of k.step_kind workflow t₃ =
          ap (λ x. steps_of k.step_kind workflow x.1) (sym then) ∙ frame.1 in
        let once_more =
          process_step-again (at env later) workflow input_object k acc preceding key o d t₂ w₂
            (carried k later key o t₃ t₂ z (same.0 ∙ there)) i in
        let rest =
          repeated ks (acc₂, key) state₁ t₃ t₁ t₂ w₃ w₁ w₂ later fresh conv.1 varied.1 apart₃ then
            same.1 in
        ap (λ x. and_then x (λ s u v. process_steps (at env later) workflow input_object ks s u v))
          (once_more ∙ ap (λ a. (ok (a, key), t₂, w₂)) (sym e))
        ∙ rest

    -- When the first steps have all succeeded, a run of the whole workflow on the table that the rest
    -- has left, however that ended, wherever the world is now and at any later time, does what a run of the rest alone
    -- does after the first steps' output: no step that has succeeded is executed again. The steps
    -- have different classes, uuid4 gives new keys, and the outputs of the first steps convert to
    -- dictionaries with entries and back.
    pub process_steps-resume :
        (ks js : List (StepClass D O W)) (state state₁ : Output O × Option ℕ) (t t₁ : Table D)
        (w w₁ w₂ : W) (later : ℕ)
        → IsFresh env
        → All (λ k. Converts env k) ks
        → Varied (ks ++ js)
        → Distinct t
        → process_steps env workflow input_object ks state t w ≡ (ok state₁, t₁, w₁)
        → process_steps
            (at env later)
            workflow
            input_object
            (ks ++ js)
            state
            (process_steps env workflow input_object js state₁ t₁ w₁).1
            w₂
          ≡ process_steps
              (at env later)
              workflow
              input_object
              js
              state₁
              (process_steps env workflow input_object js state₁ t₁ w₁).1
              w₂
    process_steps-resume ks js state state₁ t t₁ w w₁ w₂ later fresh conv varied apart h =
        let apart₁ : Distinct t₁ =
          subst (λ x. Distinct x.1) h
            (some_Kept env workflow input_object ks state t w fresh apart) in
        let t₂ = (process_steps env workflow input_object js state₁ t₁ w₁).1 in
        let again =
          repeated ks state state₁ t t₁ t₂ w w₁ w₂ later fresh conv
            (first_Varied env workflow input_object ks js varied) apart h
            (frames env workflow input_object ks js state₁ t₁ w₁ fresh apart₁ varied) in
        process_steps-append (at env later) workflow input_object ks js state t₂ w₂
        ∙ ap
            (λ x. and_then x (λ s u v. process_steps (at env later) workflow input_object js s u v))
            again
