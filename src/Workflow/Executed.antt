-- ===== src/Workflow/Executed.antt =====
-- What one step of a workflow leaves in the step tables.
use mathlib.Core.Path.{subst}
use enterprise_access.Prelude.{
  >>=-eq-ok, Bool-cases, Dict, Option, Result, Result-cases, [], ap, err, false, inl, inr, insert,
  is_some, none, ok, refl, some, sym, true, ℕ, ◌==◌, ◌∙◌, ◌∷◌, ◌≡◌,
}
use enterprise_access.Workflow.Types.{
  Environment, Output, Raised, Step, StepClass, Table, UnitOfWork,
}
use enterprise_access.Workflow.Run.{
  execute, execute_step, found_step, got_or_created, input_of, output_object, process_step,
  recorded, save, steps_of, with_found,
}
use enterprise_access.Workflow.Rows.{Distinct, Distinct-save, steps_of-save, steps_of-save_other}
use enterprise_access.Workflow.Found.{Converts, Framed, Got, IsFresh, got}

-- A step that has succeeded with an output, whose only row has a key.
pub record Settled {D O W : Type 0} (env : Environment D O) (workflow : ℕ) (k : StepClass D O W)
    (key : Option ℕ) (o : Option O) (t : Table D) : Type 0 where
  pub row : Step D
  pub only : steps_of k.step_kind workflow t ≡ row ∷ []
  pub succeeded : is_some row.work.succeeded_at ≡ true
  pub gives : output_object env.codec k.output_key row.work ≡ ok o
  pub keyed : key ≡ some row.work.uuid

-- A step that has returned: its only row has a key and has succeeded, and gives the output if what
-- its class returns converts.
pub record Ran {D O W : Type 0} (env : Environment D O) (workflow : ℕ) (k : StepClass D O W)
    (key : Option ℕ) (o : Option O) (t : Table D) : Type 0 where
  pub row : Step D
  pub only : steps_of k.step_kind workflow t ≡ row ∷ []
  pub succeeded : is_some row.work.succeeded_at ≡ true
  pub gives : Converts env k → output_object env.codec k.output_key row.work ≡ ok o
  pub keyed : key ≡ some row.work.uuid

-- What an execution leaves of the table.
pub record Kept {D : Type 0} (kind : ℕ) (t t₁ : Table D) : Type 0 where
  pub distinct : Distinct t₁
  pub framed : Framed kind t t₁

module _ {D : Type 0} (workflow : ℕ) where
  saved-Kept :
      (kind : ℕ) (s : Step D) (u : UnitOfWork D) (t : Table D)
      → Got kind workflow s t t
      → Kept kind t (save (record s { work = u }) t)
  saved-Kept kind s u t g = record {
    distinct = Distinct-save (record s { work = u }) t g.distinct;
    framed = λ other w₂ away.
        steps_of-save_other other w₂ (record s { work = u }) t
          (subst (λ x. (x == other) ≡ false) (sym g.of_kind) away);
  }

  settled_table :
      (kind : ℕ) (s : Step D) (t t₁ : Table D)
      → Got kind workflow s t t₁
      → Got kind workflow s t₁ t₁
  settled_table kind s t t₁ g = record {
    only = g.only;
    of_kind = g.of_kind;
    distinct = g.distinct;
    framed = λ other w₂ away. refl;
  }

module _ {O : Type 0} where
  state_of :
      {a b : Output O} {i j : Option ℕ}
      → ◌≡◌ {A = Result Raised (Output O × Option ℕ)} (ok (a, i)) (ok (b, j))
      → (b ≡ a) × (j ≡ i)
  state_of h = (cc, cc)

module _ {D O W : Type 0} (env : Environment D O) (workflow : ℕ) where
  execute_step-Kept :
      (k : StepClass D O W) (s : Step D) (acc : Output O) (t : Table D) (w : W)
      → Got k.step_kind workflow s t t
      → Kept k.step_kind t (execute_step env k s acc t w).1
  unfolding execute_step
  execute_step-Kept k s acc t w g = elim (Bool-cases (is_some s.work.succeeded_at)) [
    | inl done ↦ rw done (record { distinct = g.distinct; framed = λ other w₂ away. refl })
    | inr todo ↦ rw todo (saved-Kept workflow k.step_kind s _ t g)
  ]

  -- An execution that returns.
  pub executed :
      (k : StepClass D O W) (s : Step D) (answer : Result Raised (Option O)) (o : Option O)
      → (execute env k.exception_class s.work answer).0 ≡ ok o
      → (x : O) × (d : D) × (answer ≡ ok (some x))
        × (o ≡ some x)
        × (env.codec.to_dict x ≡ ok d)
        × ((execute env k.exception_class s.work answer).1
            ≡ record s.work { output_data = some d; succeeded_at = some env.now })
  unfolding recorded
  executed k s (err e) o h = cc
  executed k s (ok none) o h = cc
  executed k s (ok (some x)) o h = elim (Result-cases (env.codec.to_dict x)) [
    | inl (d, e) ↦
        let h₁ = rw e at h in let given : some x ≡ o = cc in (x, d, refl, sym given, e, rw e refl)
    | inr (raised_, e) ↦ let h₁ = rw e at h in cc
  ]

  stored :
      (k : StepClass D O W) (s : Step D) (acc : Output O) (w : W) (x : O) (d : D)
      → Converts env k
      → (k.process_input s acc w).0 ≡ ok (some x)
      → env.codec.to_dict x ≡ ok d
      → output_object env.codec k.output_key
          (record s.work { output_data = some d; succeeded_at = some env.now })
        ≡ ok (some x)
  unfolding output_object
  stored k s acc w x d conv e f = let (full, back) = conv s acc w x d e f in rw (full, back) refl

  execute_step-Ran :
      (k : StepClass D O W) (s : Step D) (acc acc₁ : Output O) (key : Option ℕ) (t t₁ : Table D)
      (w w₁ : W)
      → Got k.step_kind workflow s t t
      → execute_step env k s acc t w ≡ (ok (acc₁, key), t₁, w₁)
      → (o : Option O) × (acc₁ ≡ insert k.output_key o acc) × Ran env workflow k key o t₁
  unfolding execute_step
  execute_step-Ran k s acc acc₁ key t t₁ w w₁ g h =
      elim (Bool-cases (is_some s.work.succeeded_at)) [
        | inl done ↦
            let h₁ = rw done at h in
            let (o, e, f) =
              >>=-eq-ok (output_object env.codec k.output_key s.work) _ (ap (λ x. x.0) h₁) in
            let table : t ≡ t₁ = ap (λ x. x.1) h₁ in
            (
              o,
              (state_of f).0,
              record {
                row = s;
                only = subst (λ x. steps_of k.step_kind workflow x ≡ s ∷ []) table g.only;
                succeeded = done;
                gives = λ conv. e;
                keyed = (state_of f).1;
              },
            )
        | inr todo ↦
            let h₁ = rw todo at h in
            let (o, e, f) =
              >>=-eq-ok (execute env k.exception_class s.work (k.process_input s acc w).0).0 _
                (ap (λ x. x.0) h₁) in
            let (x, d, answered, given, dict, u) = executed k s (k.process_input s acc w).0 o e in
            let after = record s.work { output_data = some d; succeeded_at = some env.now } in
            let table : save (record s { work = after }) t ≡ t₁ =
              ap (λ v. save (record s { work = v }) t) (sym u) ∙ ap (λ x. x.1) h₁ in
            (
              o,
              (state_of f).0,
              record {
                row = record s { work = after };
                only =
                    subst (λ x. steps_of k.step_kind workflow x ≡ record s { work = after } ∷ [])
                      table
                      (steps_of-save k.step_kind workflow s (record s { work = after }) t refl refl
                        refl g.distinct g.only);
                succeeded = refl;
                gives = λ conv. stored k s acc w x d conv answered dict ∙ ap ok (sym given);
                keyed = (state_of f).1;
              },
            )
      ]

  pub found-Got :
      (input_object : Result Raised (Dict O)) (k : StepClass D O W) (preceding : Option ℕ)
      (t t₁ : Table D) (s : Step D)
      → IsFresh env
      → Distinct t
      → found_step env workflow input_object k preceding t ≡ ok (s, t₁)
      → Got k.step_kind workflow s t t₁ × (d : D) × (input_of env.codec k input_object ≡ ok d)
  unfolding found_step
  found-Got input_object k preceding t t₁ s fresh apart h =
      let (d, e, f) = >>=-eq-ok (input_of env.codec k input_object) _ h in
      (
        got env workflow k.step_kind d preceding t t₁ (steps_of k.step_kind workflow t) s fresh
            apart refl f,
        d,
        e,
      )

  with_found-Kept :
      (input_object : Result Raised (Dict O)) (k : StepClass D O W) (acc : Output O)
      (preceding : Option ℕ) (t : Table D) (w : W) (f : Result Raised (Step D × Table D))
      → IsFresh env
      → Distinct t
      → found_step env workflow input_object k preceding t ≡ f
      → Kept k.step_kind t (with_found env k acc t w f).1
  with_found-Kept input_object k acc preceding t w (err e) fresh apart h = record {
    distinct = apart;
    framed = λ other w₂ away. refl;
  }
  with_found-Kept input_object k acc preceding t w (ok (s, t₁)) fresh apart h =
      let g = (found-Got input_object k preceding t t₁ s fresh apart h).0 in
      let kept = execute_step-Kept k s acc t₁ w (settled_table workflow k.step_kind s t t₁ g) in
      record {
        distinct = kept.distinct;
        framed = λ other w₂ away. kept.framed other w₂ away ∙ g.framed other w₂ away;
      }

  -- A step in the loop: whatever it does, the other tables and the keys are kept.
  pub process_step-Kept :
      (input_object : Result Raised (Dict O)) (k : StepClass D O W) (state : Output O × Option ℕ)
      (t : Table D) (w : W)
      → IsFresh env
      → Distinct t
      → Kept k.step_kind t (process_step env workflow input_object k state t w).1
  unfolding process_step
  process_step-Kept input_object k (acc, preceding) t w fresh apart =
      with_found-Kept input_object k acc preceding t w
        (found_step env workflow input_object k preceding t) fresh apart refl

  with_found-Ran :
      (input_object : Result Raised (Dict O)) (k : StepClass D O W) (acc acc₁ : Output O)
      (preceding key : Option ℕ) (t t₁ : Table D) (w w₁ : W) (f : Result Raised (Step D × Table D))
      → IsFresh env
      → Distinct t
      → found_step env workflow input_object k preceding t ≡ f
      → with_found env k acc t w f ≡ (ok (acc₁, key), t₁, w₁)
      → (o : Option O) × (acc₁ ≡ insert k.output_key o acc)
        × Ran env workflow k key o t₁
        × (d : D) × (input_of env.codec k input_object ≡ ok d)
  with_found-Ran input_object k acc acc₁ preceding key t t₁ w w₁ (err e) fresh apart f h =
      let h₁ = ap (λ x. x.0) h in cc
  with_found-Ran input_object k acc acc₁ preceding key t t₁ w w₁ (ok (s, t₂)) fresh apart f h =
      let (g, d, i) = found-Got input_object k preceding t t₂ s fresh apart f in
      let (o, same, z) =
        execute_step-Ran k s acc acc₁ key t₂ t₁ w w₁ (settled_table workflow k.step_kind s t t₂ g)
          h in
      (o, same, z, d, i)

  pub process_step-Ran :
      (input_object : Result Raised (Dict O)) (k : StepClass D O W) (acc acc₁ : Output O)
      (preceding key : Option ℕ) (t t₁ : Table D) (w w₁ : W)
      → IsFresh env
      → Distinct t
      → process_step env workflow input_object k (acc, preceding) t w ≡ (ok (acc₁, key), t₁, w₁)
      → (o : Option O) × (acc₁ ≡ insert k.output_key o acc)
        × Ran env workflow k key o t₁
        × (d : D) × (input_of env.codec k input_object ≡ ok d)
  unfolding process_step
  process_step-Ran input_object k acc acc₁ preceding key t t₁ w w₁ fresh apart h =
      with_found-Ran input_object k acc acc₁ preceding key t t₁ w w₁
        (found_step env workflow input_object k preceding t) fresh apart refl h

  pub process_step-Settled :
      (input_object : Result Raised (Dict O)) (k : StepClass D O W) (acc acc₁ : Output O)
      (preceding key : Option ℕ) (t t₁ : Table D) (w w₁ : W)
      → IsFresh env
      → Converts env k
      → Distinct t
      → process_step env workflow input_object k (acc, preceding) t w ≡ (ok (acc₁, key), t₁, w₁)
      → (o : Option O) × (acc₁ ≡ insert k.output_key o acc)
        × Settled env workflow k key o t₁
        × (d : D) × (input_of env.codec k input_object ≡ ok d)
  process_step-Settled input_object k acc acc₁ preceding key t t₁ w w₁ fresh conv apart h =
      let (o, e, z, d, i) =
        process_step-Ran input_object k acc acc₁ preceding key t t₁ w w₁ fresh apart h in
      (
        o,
        e,
        record {
          row = z.row;
          only = z.only;
          succeeded = z.succeeded;
          gives = z.gives conv;
          keyed = z.keyed;
        },
        d,
        i,
      )

  -- A settled step gives its output again, and does nothing.
  pub process_step-again :
      (input_object : Result Raised (Dict O)) (k : StepClass D O W) (acc : Output O)
      (preceding key : Option ℕ) (o : Option O) (d : D) (t : Table D) (w : W)
      → Settled env workflow k key o t
      → input_of env.codec k input_object ≡ ok d
      → process_step env workflow input_object k (acc, preceding) t w
        ≡ (ok (insert k.output_key o acc, key), t, w)
  unfolding process_step execute_step got_or_created found_step
  process_step-again input_object k acc preceding key o d t w z i =
      rw (i, z.only, z.succeeded, z.gives, z.keyed) refl
