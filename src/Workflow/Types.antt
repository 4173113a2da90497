-- ===== src/Workflow/Types.antt =====
-- The records and the classes of workflow/models.py.
use enterprise_access.Prelude.{Bool, Dict, List, Option, Result, ℕ}

-- What is raised: by a step's own work, by a look-up of one row, by a constraint of a table, by a
-- None whose attribute is read, or an `exception_class` with its message.
pub data Raised : Type 0 where
  raised : ℕ → Raised
  multiple_objects_returned attribute_error does_not_exist integrity_error value_error : Raised
  unit_of_work_exception : ℕ → ℕ → Raised

-- The conversion between the input and output objects and their dictionaries is cattrs's; the
-- classes are numbers.
pub record Codec (D O : Type 0) : Type 0 where
  pub to_dict : O → Result Raised D
  pub from_dict : ℕ → D → Result Raised O
  -- `{}`, and the test for it
  pub no_data : D
  pub is_empty : D → Bool

-- The columns of AbstractUnitOfWork.
pub record UnitOfWork (D : Type 0) : Type 0 where
  pub uuid : ℕ
  pub input_data : D
  pub output_data : Option D
  pub succeeded_at : Option ℕ
  pub failed_at : Option ℕ
  pub exception_message : Option ℕ

-- A row of a step class's own table, which `step_type` names.
pub record Step (D : Type 0) : Type 0 where
  pub step_type : ℕ
  pub work : UnitOfWork D
  pub workflow_record_uuid : ℕ
  pub preceding_step_uuid : Option ℕ

abbrev pub Table : Type 0 → Type 0
Table D = List (Step D)

-- The accumulated output: its attributes that are set, each an object or None.
abbrev pub Output : Type 0 → Type 0
Output O = Dict (Option O)

-- A subclass of AbstractWorkflowStep: the keys of its input and output classes, its exception class,
-- and its `process_input`, which acts on the world outside the workflow tables.
pub record StepClass (D O W : Type 0) : Type 0 where
  pub step_kind : ℕ
  pub input_key : ℕ
  pub output_key : ℕ
  pub exception_class : ℕ
  pub process_input : Step D → Output O → W → Result Raised (Option O) × W

-- What an execution reads: the clock, the key that uuid4 gives for a new row, `str` of an exception,
-- and the conversions.
pub record Environment (D O : Type 0) : Type 0 where
  pub now : ℕ
  pub uuid4 : Table D → ℕ
  pub text : Raised → ℕ
  pub codec : Codec D O
