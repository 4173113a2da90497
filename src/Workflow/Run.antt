-- ===== src/Workflow/Run.antt =====
-- execute and process_input of workflow/models.py.
use enterprise_access.Prelude.{
  Bool, Dict, List, Option, Result, [], err, filter, if◌then◌else◌, insert, is_some, lookup, map,
  none, ok, some, ℕ, ◌&&◌, ◌++◌, ◌==◌, ◌>>=◌, ◌∷◌,
}
use enterprise_access.Workflow.Types.{
  Codec, Environment, Output, Raised, Step, StepClass, Table, UnitOfWork, attribute_error,
  multiple_objects_returned, unit_of_work_exception,
}

module _ {D : Type 0} where
  abbrev pub same_row : Step D → Step D → Bool
  same_row s r = (s.step_type == r.step_type) && (s.work.uuid == r.work.uuid)

  -- `save`
  abbrev pub save : Step D → Table D → Table D
  save s t = map (λ r. if same_row s r then s else r) t

  -- `filter(workflow_record_uuid=...)` on the table of a step class
  abbrev pub steps_of : ℕ → ℕ → Table D → Table D
  steps_of kind workflow t =
      filter (λ r. (r.step_type == kind) && (r.workflow_record_uuid == workflow)) t

  abbrev pub new_step : ℕ → ℕ → ℕ → D → Option ℕ → Step D
  new_step kind uuid workflow d preceding = record {
    step_type = kind;
    work = record {
      uuid = uuid;
      input_data = d;
      output_data = none;
      succeeded_at = none;
      failed_at = none;
      exception_message = none;
    };
    workflow_record_uuid = workflow;
    preceding_step_uuid = preceding;
  }

module _ {D X : Type 0} where
  -- The record after a success, and after an exception, with the exception that is raised then.
  unfoldable pub recorded :
      ℕ → (Raised → ℕ) → ℕ → UnitOfWork D → Result Raised (X × D) → Result Raised X × UnitOfWork D
  recorded now text exception_class u (ok (o, d)) =
      (ok o, record u { output_data = some d; succeeded_at = some now })
  recorded now text exception_class u (err e) = (
    err (unit_of_work_exception exception_class (text e)),
    record u { failed_at = some now; exception_message = some (text e) },
  )

module _ {D O : Type 0} where
  -- `result.to_dict()`
  abbrev pub dict_of : Codec D O → Option O → Result Raised (Option O × D)
  dict_of c none = err attribute_error
  dict_of c (some o) = c.to_dict o >>= λ d. ok (some o, d)

  -- `AbstractUnitOfWork.execute`, given what `process_input` answered; the record is saved by the
  -- callers.
  abbrev pub execute :
      Environment D O
      → ℕ
      → UnitOfWork D
      → Result Raised (Option O)
      → Result Raised (Option O) × UnitOfWork D
  execute env exception_class u result =
      recorded env.now env.text exception_class u (result >>= λ o. dict_of env.codec o)

  -- `output_object`
  unfoldable pub output_object : Codec D O → ℕ → UnitOfWork D → Result Raised (Option O)
  output_object c output_class u = elim u.output_data [
    | none ↦ ok none
    | some d ↦ if c.is_empty d then ok none else c.from_dict output_class d >>= λ o. ok (some o)
  ]

  -- `objects.get_or_create`, on the rows that its lookup finds
  unfoldable pub got_or_created :
      Environment D O → ℕ → ℕ → D → Option ℕ → Table D → Table D → Result Raised (Step D × Table D)
  got_or_created env kind workflow d preceding t [] =
      let s = new_step kind (env.uuid4 t) workflow d preceding in ok (s, t ++ s ∷ [])
  got_or_created env kind workflow d preceding t (s ∷ []) = ok (s, t)
  got_or_created env kind workflow d preceding t (s ∷ r ∷ rest) = err multiple_objects_returned

  abbrev pub get_or_create :
      Environment D O → ℕ → ℕ → D → Option ℕ → Table D → Result Raised (Step D × Table D)
  get_or_create env kind workflow d preceding t =
      got_or_created env kind workflow d preceding t (steps_of kind workflow t)

-- What a piece of the workflow leaves: the accumulated output and the preceding step's key, or an
-- exception, and the tables and the world.
abbrev pub Left : Type 0 → Type 0 → Type 0 → Type 0
Left D O W = Result Raised (Output O × Option ℕ) × Table D × W

module _ {D O W : Type 0} where
  -- The input of a step: of the workflow's input object, its attribute for the step, if it has one.
  unfoldable pub input_of : Codec D O → StepClass D O W → Result Raised (Dict O) → Result Raised D
  input_of c k input_object = input_object >>= λ i. elim (lookup k.input_key i) [
    | none ↦ ok c.no_data
    | some o ↦ c.to_dict o
  ]

  -- A step that has succeeded before gives its output; another is executed and saved.
  unfoldable pub execute_step :
      Environment D O → StepClass D O W → Step D → Output O → Table D → W → Left D O W
  execute_step env k s acc t w =
      if is_some s.work.succeeded_at
      then (
        output_object env.codec k.output_key s.work >>= λ o.
            ok (insert k.output_key o acc, some s.work.uuid),
        t,
        w,
      )
      else (let (answer, w₁) = k.process_input s acc w in
          let (result, u) = execute env k.exception_class s.work answer in
          (
            result >>= λ o. ok (insert k.output_key o acc, some s.work.uuid),
            save (record s { work = u }) t,
            w₁,
          ))

  unfoldable pub found_step :
      Environment D O
      → ℕ
      → Result Raised (Dict O)
      → StepClass D O W
      → Option ℕ
      → Table D
      → Result Raised (Step D × Table D)
  found_step env workflow input_object k preceding t = input_of env.codec k input_object >>= λ d.
      get_or_create env k.step_kind workflow d preceding t

  abbrev pub with_found :
      Environment D O
      → StepClass D O W
      → Output O
      → Table D
      → W
      → Result Raised (Step D × Table D)
      → Left D O W
  with_found env k acc t w (err e) = (err e, t, w)
  with_found env k acc t w (ok (s, t₁)) = execute_step env k s acc t₁ w

  -- One turn of the loop of `AbstractWorkflow.process_input`.
  unfoldable pub process_step :
      Environment D O
      → ℕ
      → Result Raised (Dict O)
      → StepClass D O W
      → Output O × Option ℕ
      → Table D
      → W
      → Left D O W
  process_step env workflow input_object k (acc, preceding) t w =
      with_found env k acc t w (found_step env workflow input_object k preceding t)

  abbrev pub and_then : Left D O W → (Output O × Option ℕ → Table D → W → Left D O W) → Left D O W
  and_then (err e, t, w) next = (err e, t, w)
  and_then (ok state, t, w) next = next state t w

  -- The loop.
  unfoldable pub process_steps :
      Environment D O
      → ℕ
      → Result Raised (Dict O)
      → List (StepClass D O W)
      → Output O × Option ℕ
      → Table D
      → W
      → Left D O W
  process_steps env workflow input_object [] state t w = (ok state, t, w)
  process_steps env workflow input_object (k ∷ ks) state t w =
      and_then (process_step env workflow input_object k state t w)
        (λ state₁ t₁ w₁. process_steps env workflow input_object ks state₁ t₁ w₁)

  -- `AbstractWorkflow.process_input`; what it returns when the workflow has succeeded is None.
  unfoldable pub process_input :
      Environment D O
      → UnitOfWork D
      → Result Raised (Dict O)
      → List (StepClass D O W)
      → Table D
      → W
      → Result Raised (Option (Output O)) × Table D × W
  process_input env u input_object steps t w =
      if is_some u.succeeded_at
      then (ok none, t, w)
      else (let (result, t₁, w₁) = process_steps env u.uuid input_object steps ([], none) t w in
          (result >>= λ state. ok (some state.0), t₁, w₁))

  -- `execute` of a workflow, with the conversion of its whole output.
  unfoldable pub execute_workflow :
      Environment D O
      → (Output O → Result Raised D)
      → ℕ
      → UnitOfWork D
      → Result Raised (Dict O)
      → List (StepClass D O W)
      → Table D
      → W
      → Result Raised (Output O) × UnitOfWork D × Table D × W
  execute_workflow env output_dict exception_class u input_object steps t w =
      let (answer, t₁, w₁) = process_input env u input_object steps t w in
      let (result, u₁) = recorded env.now env.text exception_class u (
        answer >>= λ o. elim o [
          | none ↦ err attribute_error
          | some output ↦ output_dict output >>= λ d. ok (output, d)
        ]) in
      (result, u₁, t₁, w₁)
