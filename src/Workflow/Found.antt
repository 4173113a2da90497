-- ===== src/Workflow/Found.antt =====
-- The row of a step that get_or_create gives.
use mathlib.Core.Path.{subst}
use enterprise_access.Prelude.{
  ==_refl, All, All-map, Bool-cases, Option, [], and_false, ap, arith, false, inl, inr, ok, refl,
  some, ℕ, ◌&&◌, ◌++◌, ◌==◌, ◌∙◌, ◌∷◌, ◌≡◌,
}
use enterprise_access.Workflow.Types.{Environment, Output, Step, StepClass, Table}
use enterprise_access.Workflow.Run.{got_or_created, new_step, same_row, steps_of}
use enterprise_access.Workflow.Rows.{Distinct, Distinct-append, filter-append}

-- uuid4 gives a key that no row has.
abbrev pub IsFresh : {D O : Type 0} → Environment D O → Type 0
IsFresh {D} env = (t : Table D) → All (λ b. (env.uuid4 t == b.work.uuid) ≡ false) t

-- What a step class returns converts to a dictionary with entries, and back.
abbrev pub Converts : {D O W : Type 0} → Environment D O → StepClass D O W → Type 0
Converts {D} {O} {W} env k =
    (s : Step D) (acc : Output O) (w : W) (o : O) (d : D)
    → (k.process_input s acc w).0 ≡ ok (some o)
    → env.codec.to_dict o ≡ ok d
    → (env.codec.is_empty d ≡ false) × (env.codec.from_dict k.output_key d ≡ ok o)

-- The rows of the other step classes are the same.
abbrev pub Framed : {D : Type 0} → ℕ → Table D → Table D → Type 0
Framed kind t t₁ =
    (other workflow : ℕ)
    → (kind == other) ≡ false
    → steps_of other workflow t₁ ≡ steps_of other workflow t

-- The row that get_or_create returns.
pub record Got {D : Type 0} (kind workflow : ℕ) (s : Step D) (t t₁ : Table D) : Type 0 where
  pub only : steps_of kind workflow t₁ ≡ s ∷ []
  pub of_kind : s.step_type ≡ kind
  pub distinct : Distinct t₁
  pub framed : Framed kind t t₁

module _ {D O : Type 0} (env : Environment D O) (workflow : ℕ) where
  matched :
      (kind : ℕ) (s : Step D) (rest t : Table D)
      → steps_of kind workflow t ≡ s ∷ rest
      → s.step_type ≡ kind
  matched kind s rest [] h = cc
  matched kind s rest (a ∷ t) h =
      elim (Bool-cases ((a.step_type == kind) && (a.workflow_record_uuid == workflow))) [
        | inl mine ↦
            let h₁ : a ∷ steps_of kind workflow t ≡ s ∷ rest = rw mine at h in
            let itself : a ≡ s = cc in let e : a.step_type ≡ kind = ground (arith, mine) in cc
        | inr other ↦ matched kind s rest t (rw other at h)
      ]

  pub got :
      (kind : ℕ) (d : D) (preceding : Option ℕ) (t t₁ found : Table D) (s : Step D)
      → IsFresh env
      → Distinct t
      → steps_of kind workflow t ≡ found
      → got_or_created env kind workflow d preceding t found ≡ ok (s, t₁)
      → Got kind workflow s t t₁
  unfolding got_or_created
  got kind d preceding t t₁ [] s fresh apart e h =
      let n = new_step kind (env.uuid4 t) workflow d preceding in
      let here : n ≡ s = cc in
      let there : t ++ n ∷ [] ≡ t₁ = cc in
      let new_only : steps_of kind workflow (t ++ n ∷ []) ≡ n ∷ [] =
        filter-append (λ b. (b.step_type == kind) && (b.workflow_record_uuid == workflow)) t
          (n ∷ [])
        ∙ rw (e, ==_refl kind, ==_refl workflow) refl in
      let rows : Got kind workflow n t (t ++ n ∷ []) = record {
        only = new_only;
        of_kind = refl;
        distinct = Distinct-append n t apart (
            All-map (λ b. (env.uuid4 t == b.work.uuid) ≡ false) (λ b. same_row n b ≡ false)
              (λ b k. rw k (and_false (kind == b.step_type))) t (fresh t));
        framed = λ other w₂ away.
            filter-append (λ b. (b.step_type == other) && (b.workflow_record_uuid == w₂)) t (n ∷ [])
            ∙ rw away (nothing_more _);
      } in
      subst (λ x. Got kind workflow x t t₁) here (subst (λ x. Got kind workflow n t x) there rows)
    where
      nothing_more : (u : Table D) → u ++ [] ≡ u
      nothing_more [] = refl
      nothing_more (a ∷ u) = ap (λ v. a ∷ v) (nothing_more u)
  got kind d preceding t t₁ (a ∷ []) s fresh apart e h =
      let here : a ≡ s = cc in
      let there : t ≡ t₁ = cc in
      let rows : Got kind workflow a t t = record {
        only = e;
        of_kind = matched kind a [] t e;
        distinct = apart;
        framed = λ other w₂ away. refl;
      } in
      subst (λ x. Got kind workflow x t t₁) here (subst (λ x. Got kind workflow a t x) there rows)
  got kind d preceding t t₁ (a ∷ b ∷ found) s fresh apart e h = cc
