-- ===== src/Assignments/Prepare.antt =====
-- How an existing assignment is prepared for an allocation (content_assignments/api.py), and its
-- validation (content_assignments/models.py).
use enterprise_access.Prelude.{
  Bool, Dict, List, Option, Result, [], any, false, if◌then◌else◌, is_present, is_some, lookup,
  ltb_ℤ, none, not, ok, opt_eq, pos, raise_if, some, true, ℕ, ℤ, ◌&&◌, ◌==◌, ◌>>=◌, ◌>>◌, ◌||◌, ◌∷◌,
}
use enterprise_access.Assignments.Types.{
  Assignment, Error, Table, allocated, is_allocated, is_expired, is_reallocatable, validation_error,
}
use enterprise_access.Assignments.Cancellation.{same_row}

-- What an allocation does to all its assignments.
pub record Offer : Type 0 where
  pub quantity : ℤ
  pub batch : ℕ
  pub preferred_run : Option ℕ
  pub parent_key : Option ℕ
  pub is_course_run : Bool

abbrev pub same_given : Option ℕ → Option ℕ → Bool
same_given x y = is_some x && opt_eq x y

-- Two rows that a `unique_together` forbids; nulls do not clash.
abbrev pub clashes : Assignment → Assignment → Bool
clashes a b =
    same_given a.assignment_configuration b.assignment_configuration
    && (a.content_key == b.content_key)
    && ((a.learner_email == b.learner_email) || same_given a.lms_user_id b.lms_user_id)

-- `clean`
unfoldable pub clean : Assignment → Result Error (Unit {0})
clean a = raise_if (ltb_ℤ (pos 0) a.content_quantity) validation_error

-- `full_clean`: `clean` and the uniqueness among the other stored rows. The validators of single
-- fields are not modelled.
unfoldable pub full_clean : Table → Assignment → Result Error (Unit {0})
full_clean t a =
    clean a >> raise_if (any (λ b. not (same_row a b) && clashes a b) t) validation_error

-- The fields that `_reallocate_assignment` sets.
abbrev pub reallocated : ℕ → Offer → Assignment → Assignment
reallocated now o a = record a {
  content_quantity = o.quantity;
  state = allocated;
  allocation_batch_id = some o.batch;
  allocated_at = now;
  accepted_at = none;
  cancelled_at = none;
  expired_at = none;
  errored_at = none;
  preferred_course_run_key = o.preferred_run;
  parent_content_key = o.parent_key;
  is_assigned_course_run = o.is_course_run;
}

unfoldable pub reallocate_assignment : ℕ → Table → Offer → Assignment → Result Error Assignment
reallocate_assignment now t o a = full_clean t (reallocated now o a) >> ok (reallocated now o a)

-- An assignment in memory, and whether it is in `existing_assignments_needs_update`.
pub record Prepared : Type 0 where
  pub assignment : Assignment
  pub needs_update : Bool

module _ (lower : ℕ → ℕ) (ids emails : Dict ℕ) where
  -- `if not assignment.lms_user_id`
  unfoldable pub fill_lms_user_id : Assignment → Prepared
  fill_lms_user_id a =
      let found = lookup (lower a.learner_email) ids in
      if not (is_present a.lms_user_id) && is_present found
      then (record { assignment = record a { lms_user_id = found }; needs_update = true })
      else (record { assignment = a; needs_update = false })

  abbrev pub new_email : Assignment → Option ℕ
  new_email a = elim a.lms_user_id [ none ↦ none | some id ↦ lookup id emails ]

  -- The e-mail of an expired assignment is looked up anew.
  unfoldable pub restore_email : Prepared → Prepared
  restore_email p =
      if is_expired p.assignment.state
      then elim (new_email p.assignment) [
        | none ↦ p
        | some e ↦ record {
          assignment = record p.assignment { learner_email = e };
          needs_update = true;
        }
      ]
      else p

  abbrev pub same_flag : Bool → Bool → Bool
  same_flag true b = b
  same_flag false b = not b

  -- What changes of an assignment that is allocated already.
  abbrev pub outdated : Offer → Assignment → Bool
  outdated o a =
      not (opt_eq a.preferred_course_run_key o.preferred_run)
      || not (opt_eq a.parent_content_key o.parent_key)
      || not (same_flag a.is_assigned_course_run o.is_course_run)

  abbrev pub updated_keys : Offer → Assignment → Assignment
  updated_keys o a = record a {
    preferred_course_run_key = o.preferred_run;
    parent_content_key = o.parent_key;
    is_assigned_course_run = o.is_course_run;
  }

  -- The branches by state.
  unfoldable pub renew : ℕ → Table → Offer → Prepared → Result Error Prepared
  renew now t o p =
      if is_reallocatable p.assignment.state
      then (reallocate_assignment now t o p.assignment >>= λ a.
          ok (record { assignment = a; needs_update = true }))
      else if is_allocated p.assignment.state
      then ok (record {
        assignment = updated_keys o p.assignment;
        needs_update = p.needs_update || outdated o p.assignment;
      })
      else ok p

  -- The body of the loop over the existing assignments.
  unfoldable pub prepare : ℕ → Table → Offer → Assignment → Result Error Prepared
  prepare now t o a = renew now t o (restore_email (fill_lms_user_id a))

  unfoldable pub prepare_all : ℕ → Table → Offer → List Assignment → Result Error (List Prepared)
  prepare_all now t o [] = ok []
  prepare_all now t o (a ∷ rest) =
      prepare now t o a >>= λ p. prepare_all now t o rest >>= λ ps. ok (p ∷ ps)
