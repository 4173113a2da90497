-- ===== src/Workflow/Examples.antt =====
-- A workflow of two steps of which the second fails at first, run again.
use enterprise_access.Prelude.{
  All, Dict, Result, [], arith, err, false, if◌then◌else◌, leb, length, none, ok, refl, some, suc,
  sym, zero, ℕ, ◌+◌, ◌==◌, ◌∷◌, ◌≡◌, ◌≤◌,
}
use enterprise_access.Workflow.Types.{
  Codec, Environment, Output, Raised, Step, StepClass, Table, UnitOfWork, raised,
  unit_of_work_exception,
}
use enterprise_access.Workflow.Run.{
  execute_step, execute_workflow, found_step, got_or_created, input_of, process_input, process_step,
  process_steps, recorded,
}
use enterprise_access.Workflow.Found.{Converts, IsFresh}
use enterprise_access.Workflow.Resume.{at, process_steps-resume}
use enterprise_access.Workflow.Outcome.{execute_workflow-again}

-- Objects are numbers, and their dictionaries the numbers after them; 0 is the empty one.
abbrev plain : Codec ℕ ℕ
plain = record {
  to_dict = λ o. ok (suc o);
  from_dict = λ c d. ok (elim d [ zero ↦ 0 | suc n ↦ n ]);
  no_data = 0;
  is_empty = λ d. d == 0;
}

abbrev pub next_key : Table ℕ → ℕ
next_key [] = 1
next_key (s ∷ t) = s.work.uuid + next_key t

abbrev here : Environment ℕ ℕ
here = record { now = 100; uuid4 = next_key; text = λ e. 9; codec = plain }

-- The world counts the calls of the services. The first step always succeeds.
abbrev create_customer : StepClass ℕ ℕ ℕ
create_customer = record {
  step_kind = 1;
  input_key = 11;
  output_key = 12;
  exception_class = 13;
  process_input = λ s acc w. (ok (some 40), w + 1);
}

-- The second one fails on the first two calls.
abbrev create_catalog : StepClass ℕ ℕ ℕ
create_catalog = record {
  step_kind = 2;
  input_key = 21;
  output_key = 22;
  exception_class = 23;
  process_input = λ s acc w. (if leb w 2 then err (raised 5) else ok (some 41), w + 1);
}

abbrev given : Result Raised (Dict ℕ)
given = ok ((11, 7) ∷ [])

positive : (t : Table ℕ) → 1 ≤ next_key t
positive [] = omega arith
positive (s ∷ t) = omega (arith, positive t)

pub larger : (c : ℕ) (t : Table ℕ) → next_key t ≤ c → All (λ b. (c == b.work.uuid) ≡ false) t
larger c [] h = tt
larger c (s ∷ t) h = (ground (arith, h, positive t), larger c t (omega (arith, h)))

pub reached : (c : ℕ) → c ≤ c
reached c = omega arith

next_key-IsFresh : IsFresh here
next_key-IsFresh t = larger (next_key t) t (reached (next_key t))

always-Converts : (k : StepClass ℕ ℕ ℕ) → Converts here k
always-Converts k s acc w o d h e = let same : suc o ≡ d = cc in rw (sym same) (ground arith, refl)

-- The run in which the second step fails.
failed_run :
    ((process_steps here 6 given (create_customer ∷ create_catalog ∷ []) ([], none) [] 0).0
      ≡ err (unit_of_work_exception 23 9))
    × ((process_steps here 6 given (create_customer ∷ create_catalog ∷ []) ([], none) [] 0).2 ≡ 2)
unfolding process_steps process_step found_step execute_step recorded got_or_created input_of
failed_run = (refl, refl)

abbrev customer_row : UnitOfWork ℕ → Step ℕ
customer_row u = record {
  step_type = 1;
  work = u;
  workflow_record_uuid = 6;
  preceding_step_uuid = none;
}

abbrev created : Step ℕ
created = customer_row (record {
  uuid = 1;
  input_data = 8;
  output_data = some 41;
  succeeded_at = some 100;
  failed_at = none;
  exception_message = none;
})

first_run :
    process_steps here 6 given (create_customer ∷ []) ([], none) [] 0
    ≡ (ok ((12, some 40) ∷ [], some 1), created ∷ [], 1)
unfolding process_steps process_step found_step execute_step recorded got_or_created input_of
first_run = refl

process_steps-resume_example :
    process_steps
      (at here 500)
      6
      given
      (create_customer ∷ create_catalog ∷ [])
      ([], none)
      (process_steps here 6 given
        (create_catalog ∷ [])
        ((12, some 40) ∷ [], some 1)
        (created ∷ [])
        1).1
      2
    ≡ process_steps
        (at here 500)
        6
        given
        (create_catalog ∷ [])
        ((12, some 40) ∷ [], some 1)
        (process_steps here 6 given
          (create_catalog ∷ [])
          ((12, some 40) ∷ [], some 1)
          (created ∷ [])
          1).1
        2
process_steps-resume_example =
    process_steps-resume here 6 given (create_customer ∷ []) (create_catalog ∷ []) ([], none)
      ((12, some 40) ∷ [], some 1) [] (created ∷ []) 0 1 2 500 next_key-IsFresh
      (always-Converts create_customer, tt) ((refl, tt), (tt, tt)) tt first_run

abbrev planned : UnitOfWork ℕ
planned = record {
  uuid = 6;
  input_data = 3;
  output_data = none;
  succeeded_at = none;
  failed_at = none;
  exception_message = none;
}

abbrev whole_dict : Output ℕ → Result Raised ℕ
whole_dict output = ok (length output)

abbrev finished : UnitOfWork ℕ
finished = record planned { output_data = some 1; succeeded_at = some 100 }

whole_run :
    execute_workflow here whole_dict 33 planned given (create_customer ∷ []) [] 0
    ≡ (ok ((12, some 40) ∷ []), finished, created ∷ [], 1)
unfolding execute_workflow process_input process_steps process_step found_step execute_step recorded
    got_or_created input_of
whole_run = refl

execute_workflow-again_example :
    execute_workflow here whole_dict 33 finished given (create_customer ∷ []) (created ∷ []) 1 ≡ (
      err (unit_of_work_exception 33 9),
      record finished { failed_at = some 100; exception_message = some 9 },
      created ∷ [],
      1,
    )
execute_workflow-again_example =
    execute_workflow-again here given whole_dict 33 finished (create_customer ∷ []) (created ∷ []) 1
      refl
