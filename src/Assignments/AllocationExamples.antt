-- ===== src/Assignments/AllocationExamples.antt =====
-- An allocation to two learners, of which one had a cancelled assignment, beside an accepted one.
use enterprise_access.Prelude.{
  List, [], any, false, filter, if◌then◌else◌, length, ltb, neg, negsuc, none, ok, pos, refl, some,
  times, true, ℕ, ◌+ℤ◌, ◌+◌, ◌∷◌, ◌≡◌,
}
use enterprise_access.Assignments.Types.{Assignment, Summary, Table, accepted, allocated, cancelled}
use enterprise_access.Assignments.Lookup.{get_allocated_quantity_for_configuration}
use enterprise_access.Assignments.Cancellation.{set_of}
use enterprise_access.Assignments.Emails.{
  chunks, deduplicate_from, deduplicate_learner_emails_to_allocate, dict_zip, emails_by_id,
  get_lms_user_ids_by_email, id_maps, ids_of_chunks, map_allocation_emails_with_lms_user_ids,
  slices, users_by_email,
}
use enterprise_access.Assignments.Prepare.{
  clean, fill_lms_user_id, full_clean, prepare, prepare_all, reallocate_assignment, renew,
  restore_email,
}
use enterprise_access.Assignments.Allocate.{
  Allocation, Environment, allocate_assignments, allocate_price, bulk_update_reallocation,
  clean_all, get_assignments_for_admin, get_existing_assignments_for_allocation,
  get_parent_content_key, is_consistent, new_assignments, write_allocation,
}
use enterprise_access.Assignments.Served.{serves}
use enterprise_access.Assignments.Coverage.{allocate_assignments-covers, existing_of}
use enterprise_access.Assignments.RowEffects.{renewable}
use enterprise_access.Assignments.Conservation.{allocate_assignments-conserves}

abbrev gone : Assignment
gone = record {
  uuid = 1;
  assignment_configuration = some 4;
  learner_email = 8;
  lms_user_id = none;
  content_key = 3;
  parent_content_key = none;
  is_assigned_course_run = false;
  content_title = some 9;
  content_quantity = negsuc 49;
  preferred_course_run_key = none;
  state = cancelled;
  allocated_at = 900;
  accepted_at = none;
  cancelled_at = some 950;
  expired_at = none;
  errored_at = none;
  reversed_at = none;
  transaction_uuid = none;
  allocation_batch_id = some 1;
  admin_lms_user_id = some 99;
  modified = 950;
  actions = [];
  credit_request = none;
}

abbrev taken : Assignment
taken = record gone {
  uuid = 2;
  learner_email = 10;
  lms_user_id = some 11;
  state = accepted;
  cancelled_at = none;
}

abbrev pub rows : Table
rows = gone ∷ taken ∷ []

-- The digits 1 to 4 stand for the upper-case letters of 7 to 10.
abbrev lowered : ℕ → ℕ
lowered e = if ltb e 6 then e + 6 else e

abbrev pub course : Summary
course = record {
  summary_content_key = some 3;
  summary_course_run_key = some 30;
  summary_title = some 9;
  content_price = some (pos 10000);
  enroll_by_date = ok (some 2000);
}

abbrev pub world : Environment
world = record {
  now = 1000;
  lower = lowered;
  users =
      record { email = 8; user_lms_id = some 7 }
      ∷ record { email = 12; user_lms_id = some 13 }
      ∷ [];
  summary = λ key. ok course;
  batch_id = 5;
  fresh = λ n. 20 + n;
}

abbrev renewed : Assignment
renewed = record gone {
  lms_user_id = some 7;
  content_quantity = negsuc 9999;
  preferred_course_run_key = some 30;
  state = allocated;
  allocated_at = 1000;
  cancelled_at = none;
  allocation_batch_id = some 5;
  modified = 1000;
}

abbrev pub second : Assignment
second = record renewed { uuid = 20; learner_email = 12; lms_user_id = some 13 }

abbrev pub after : Table
after = renewed ∷ taken ∷ second ∷ []

abbrev pub answer : Allocation
answer = record { updated = renewed ∷ []; created = second ∷ []; no_change = [] }

pub allocation_run :
    allocate_assignments world 4 (2 ∷ 12 ∷ 8 ∷ []) 3 (pos 10000) (some 99) [] rows
    ≡ ok (answer, after)
unfolding allocate_assignments allocate_price write_allocation bulk_update_reallocation
    new_assignments clean_all is_consistent get_existing_assignments_for_allocation
    get_assignments_for_admin get_parent_content_key id_maps map_allocation_emails_with_lms_user_ids
    emails_by_id get_lms_user_ids_by_email ids_of_chunks users_by_email chunks slices
    deduplicate_learner_emails_to_allocate deduplicate_from prepare_all prepare renew restore_email
    fill_lms_user_id reallocate_assignment full_clean clean set_of dict_zip neg
allocation_run = refl

pub one_renewed :
    length (filter (renewable (existing_of world 4 [] (2 ∷ 12 ∷ 8 ∷ []) 3 rows)) rows)
      + length answer.created
    ≡ 2
unfolding get_existing_assignments_for_allocation get_assignments_for_admin set_of
    deduplicate_learner_emails_to_allocate deduplicate_from id_maps
    map_allocation_emails_with_lms_user_ids emails_by_id get_lms_user_ids_by_email ids_of_chunks
    users_by_email chunks slices
one_renewed = refl

-- An allocation for no e-mails looks at every row of the content, and renews the cancelled one.
renewed_for_none : length (filter (renewable (existing_of world 4 [] [] 3 rows)) rows) ≡ 1
unfolding get_existing_assignments_for_allocation get_assignments_for_admin set_of
    deduplicate_learner_emails_to_allocate deduplicate_from id_maps
    map_allocation_emails_with_lms_user_ids emails_by_id get_lms_user_ids_by_email ids_of_chunks
    users_by_email chunks slices
renewed_for_none = refl

allocate_assignments-covers_example : any (serves lowered 4 3 2) after ≡ true
allocate_assignments-covers_example =
    allocate_assignments-covers world 4 (2 ∷ 12 ∷ 8 ∷ []) 3 (pos 10000) (some 99) [] rows after
      answer allocation_run 2 refl

allocate_assignments-conserves_example :
    get_allocated_quantity_for_configuration (some 4) after
    ≡ get_allocated_quantity_for_configuration (some 4) rows
      +ℤ times
          (length (filter (renewable (existing_of world 4 [] (2 ∷ 12 ∷ 8 ∷ []) 3 rows)) rows) + 1)
          (neg (pos 10000))
allocate_assignments-conserves_example =
    allocate_assignments-conserves world 4 (2 ∷ 12 ∷ 8 ∷ []) 3 (pos 10000) (some 99) [] rows after
      answer ((refl, tt), (tt, tt)) allocation_run

abbrev emails_given : List ℕ
emails_given = 5 ∷ 6 ∷ 7 ∷ []
