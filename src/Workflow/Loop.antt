-- ===== src/Workflow/Loop.antt =====
-- The loop over the steps of a workflow, as a composition.
use enterprise_access.Prelude.{
  All, Dict, List, Option, Result, [], ap, err, false, ok, refl, sym, ℕ, ◌++◌, ◌==◌, ◌∙◌, ◌∷◌, ◌≡◌,
}
use enterprise_access.Workflow.Types.{Environment, Output, Raised, StepClass, Table}
use enterprise_access.Workflow.Run.{Left, and_then, process_step, process_steps, steps_of}
use enterprise_access.Workflow.Rows.{Distinct}
use enterprise_access.Workflow.Found.{IsFresh}
use enterprise_access.Workflow.Executed.{process_step-Kept}

module _ {D O W : Type 0} where
  -- No step of the list has the class.
  abbrev pub Unlike : ℕ → List (StepClass D O W) → Type 0
  Unlike kind ks = All (λ k. (k.step_kind == kind) ≡ false) ks

  -- Each step has its own class.
  abbrev pub Varied : List (StepClass D O W) → Type 0
  Varied [] = Unit {0}
  Varied (k ∷ ks) = Unlike k.step_kind ks × Varied ks

  and_then-keeps :
      (P : Table D → Type 0) (left : Left D O W)
      (next : Output O × Option ℕ → Table D → W → Left D O W)
      → P left.1
      → ((s : Output O × Option ℕ) (u : Table D) (v : W) → P u → P (next s u v).1)
      → P (and_then left next).1
  and_then-keeps P (err e, t, w) next h keep = h
  and_then-keeps P (ok s, t, w) next h keep = keep s t w h

  pub and_then-ok :
      (left : Left D O W) (next : Output O × Option ℕ → Table D → W → Left D O W)
      (s₂ : Output O × Option ℕ) (t₂ : Table D) (w₂ : W)
      → and_then left next ≡ (ok s₂, t₂, w₂)
      → (s : Output O × Option ℕ) × (t : Table D) × (w : W) × (left ≡ (ok s, t, w))
        × (next s t w ≡ (ok s₂, t₂, w₂))
  and_then-ok (err e, t, w) next s₂ t₂ w₂ h = let h₁ = ap (λ x. x.0) h in cc
  and_then-ok (ok s, t, w) next s₂ t₂ w₂ h = (s, t, w, refl, h)

  pub and_then-same :
      (left : Left D O W) (f g : Output O × Option ℕ → Table D → W → Left D O W)
      → ((s : Output O × Option ℕ) (t : Table D) (w : W) → f s t w ≡ g s t w)
      → and_then left f ≡ and_then left g
  and_then-same (err e, t, w) f g h = refl
  and_then-same (ok s, t, w) f g h = h s t w

  pub and_then_assoc :
      (left : Left D O W) (f g : Output O × Option ℕ → Table D → W → Left D O W)
      → and_then (and_then left f) g ≡ and_then left (λ s t w. and_then (f s t w) g)
  and_then_assoc (err e, t, w) f g = refl
  and_then_assoc (ok s, t, w) f g = refl

  module _ (env : Environment D O) (workflow : ℕ) (input_object : Result Raised (Dict O)) where
    pub process_steps-Kept :
        (kind : ℕ) (ks : List (StepClass D O W)) (state : Output O × Option ℕ) (t : Table D) (w : W)
        → IsFresh env
        → Distinct t
        → Unlike kind ks
        → Distinct (process_steps env workflow input_object ks state t w).1
          × (steps_of kind workflow (process_steps env workflow input_object ks state t w).1
              ≡ steps_of kind workflow t)
    unfolding process_steps
    process_steps-Kept kind [] state t w fresh apart unlike = (apart, refl)
    process_steps-Kept kind (k ∷ ks) state t w fresh apart unlike =
        let kept = process_step-Kept env workflow input_object k state t w fresh apart in
        and_then-keeps (λ u. Distinct u × (steps_of kind workflow u ≡ steps_of kind workflow t))
          (process_step env workflow input_object k state t w)
          (λ s u v. process_steps env workflow input_object ks s u v)
          (kept.distinct, kept.framed kind workflow unlike.0)
          (λ s u v h.
            let (d, same) = process_steps-Kept kind ks s u v fresh h.0 unlike.1 in (d, same ∙ h.1))

    pub process_steps-append :
        (ks js : List (StepClass D O W)) (state : Output O × Option ℕ) (t : Table D) (w : W)
        → process_steps env workflow input_object (ks ++ js) state t w
          ≡ and_then
              (process_steps env workflow input_object ks state t w)
              (λ s u v. process_steps env workflow input_object js s u v)
    unfolding process_steps
    process_steps-append [] js state t w = refl
    process_steps-append (k ∷ ks) js state t w =
        and_then-same (process_step env workflow input_object k state t w) _ _
          (λ s u v. process_steps-append ks js s u v)
        ∙ sym (and_then_assoc (process_step env workflow input_object k state t w) _ _)

    pub frames :
        (ks js : List (StepClass D O W)) (state : Output O × Option ℕ) (t : Table D) (w : W)
        → IsFresh env
        → Distinct t
        → Varied (ks ++ js)
        → All
            (λ k.
              steps_of k.step_kind workflow (process_steps env workflow input_object js state t w).1
              ≡ steps_of k.step_kind workflow t)
            ks
    frames [] js state t w fresh apart varied = tt
    frames (k ∷ ks) js state t w fresh apart varied = (
      (process_steps-Kept k.step_kind js state t w fresh apart
          (later_ones k.step_kind ks js varied.0)).1,
      frames ks js state t w fresh apart varied.1,
    )
      where
        later_ones :
            (kind : ℕ) (xs ys : List (StepClass D O W)) → Unlike kind (xs ++ ys) → Unlike kind ys
        later_ones kind [] ys h = h
        later_ones kind (x ∷ xs) ys h = later_ones kind xs ys h.1

    pub some_Kept :
        (ks : List (StepClass D O W)) (state : Output O × Option ℕ) (t : Table D) (w : W)
        → IsFresh env
        → Distinct t
        → Distinct (process_steps env workflow input_object ks state t w).1
    unfolding process_steps
    some_Kept [] state t w fresh apart = apart
    some_Kept (k ∷ ks) state t w fresh apart =
        and_then-keeps Distinct (process_step env workflow input_object k state t w)
          (λ s u v. process_steps env workflow input_object ks s u v)
          (process_step-Kept env workflow input_object k state t w fresh apart).distinct
          (λ s u v h. some_Kept ks s u v fresh h)

    pub first_Varied : (ks js : List (StepClass D O W)) → Varied (ks ++ js) → Varied ks
    first_Varied [] js h = tt
    first_Varied (k ∷ ks) js h = (first_ones k.step_kind ks js h.0, first_Varied ks js h.1)
      where
        first_ones :
            (kind : ℕ) (xs ys : List (StepClass D O W)) → Unlike kind (xs ++ ys) → Unlike kind xs
        first_ones kind [] ys h = tt
        first_ones kind (x ∷ xs) ys h = (h.0, first_ones kind xs ys h.1)
