-- ===== src/Assignments/Examples.antt =====
-- Three assignments of one configuration, and the theorems on their cancellation.
use enterprise_access.Prelude.{All, [], false, map, negsuc, none, refl, some, ◌&&◌, ◌+ℤ◌, ◌∷◌, ◌≡◌}
use enterprise_access.Assignments.Types.{Assignment, Table, accepted, allocated, errored}
use enterprise_access.Assignments.Lookup.{get_allocated_quantity_for_configuration}
use enterprise_access.Assignments.Cancellation.{cancel_assignments, set_of}
use enterprise_access.Assignments.Refund.{
  cancel_assignments-refunds, cancelled_row, cancels, counts, total,
}
use enterprise_access.Assignments.Answer.{IsCancelled, cancel_assignments-row_by_row}

abbrev waiting : Assignment
waiting = record {
  uuid = 1;
  assignment_configuration = some 4;
  learner_email = 8;
  lms_user_id = some 7;
  content_key = 3;
  parent_content_key = none;
  is_assigned_course_run = false;
  content_title = some 9;
  content_quantity = negsuc 99;
  preferred_course_run_key = some 30;
  state = allocated;
  allocated_at = 900;
  accepted_at = none;
  cancelled_at = none;
  expired_at = none;
  errored_at = none;
  reversed_at = none;
  transaction_uuid = none;
  allocation_batch_id = some 1;
  admin_lms_user_id = some 99;
  modified = 900;
  actions = [];
  credit_request = none;
}

abbrev taken : Assignment
taken = record waiting { uuid = 2; state = accepted }

abbrev failed : Assignment
failed = record waiting { uuid = 3; state = errored }

abbrev rows : Table
rows = waiting ∷ taken ∷ failed ∷ []

-- The accepted assignment is skipped, the others are cancelled.
cancel_run : (cancel_assignments 1000 (waiting ∷ taken ∷ failed ∷ []) rows).0.skipped ≡ taken ∷ []
unfolding cancel_assignments set_of
cancel_run = refl

cancel_assignments-refunds_example :
    get_allocated_quantity_for_configuration (some 4) rows
    ≡ get_allocated_quantity_for_configuration
        (some 4)
        (cancel_assignments 1000 (waiting ∷ taken ∷ []) rows).1
      +ℤ total (λ a. counts (some 4) a && cancels (waiting ∷ taken ∷ []) a) rows
cancel_assignments-refunds_example =
    cancel_assignments-refunds (some 4) 1000 (waiting ∷ taken ∷ []) rows

cancel_assignments-row_by_row_example :
    ((cancel_assignments 1000 (waiting ∷ taken ∷ []) rows).1
      ≡ map (cancelled_row 1000 (waiting ∷ taken ∷ [])) rows)
    × All IsCancelled (cancel_assignments 1000 (waiting ∷ taken ∷ []) rows).0.done
cancel_assignments-row_by_row_example =
    cancel_assignments-row_by_row 1000 (waiting ∷ taken ∷ []) rows
