-- ===== src/Assignments/Lookup.antt =====
-- The reads of content_assignments/api.py: the assignment that a learner's request is for, and the
-- quantity that is allocated in a configuration.
use enterprise_access.Prelude.{
  Bool, List, Option, Result, [], err, filter, map, none, ok, opt_eq, some, sum_ℤ, zero, ℕ, ℤ, ◌&&◌,
  ◌==◌, ◌>>=◌, ◌||◌, ◌∷◌,
}
use enterprise_access.Assignments.Types.{
  Assignment, Error, Summary, Table, is_allocated, multiple_objects,
}

-- `assignment_configuration=config`
abbrev pub in_config : Option ℕ → Assignment → Bool
in_config config a = opt_eq a.assignment_configuration config

unfoldable pub get_assignments_for_configuration : Option ℕ → Table → Table
get_assignments_for_configuration config = filter (in_config config)

-- `queryset.get(...)` on the rows that the filters leave.
pub data Got : Type 0 where
  does_not_exist multiple_objects_returned : Got
  one : Assignment → Got

abbrev pub get_row : Table → Got
get_row [] = does_not_exist
get_row (a ∷ []) = one a
get_row (a ∷ b ∷ rest) = multiple_objects_returned

-- The first query of `get_assignment_for_learner`.
abbrev pub matches_either_key : Option ℕ → ℕ → ℕ → Assignment → Bool
matches_either_key config lms_user_id key a =
    (a.content_key == key || opt_eq a.parent_content_key (some key))
    && in_config config a
    && opt_eq a.lms_user_id (some lms_user_id)

-- The second one, by the normalized key.
abbrev pub matches_key : Option ℕ → ℕ → ℕ → Assignment → Bool
matches_key config lms_user_id key a =
    a.content_key == key && in_config config a && opt_eq a.lms_user_id (some lms_user_id)

-- The last query of `get_assignment_for_learner`.
unfoldable pub get_by_normalized_key :
    Option ℕ → ℕ → Option ℕ → Table → Result Error (Option Assignment)
get_by_normalized_key config lms_user_id none t = ok none
get_by_normalized_key config lms_user_id (some zero) t = ok none
get_by_normalized_key config lms_user_id (some key) t =
    elim (get_row (filter (matches_key config lms_user_id key) t)) [
      | does_not_exist ↦ ok none
      | multiple_objects_returned ↦ err multiple_objects
      | one a ↦ ok (some a)
    ]

-- The metadata service at the configuration's customer is the parameter `summary`.
unfoldable pub get_assignment_for_learner :
    (ℕ → Result Error Summary) → Option ℕ → ℕ → ℕ → Table → Result Error (Option Assignment)
get_assignment_for_learner summary config lms_user_id key t =
    elim (get_row (filter (matches_either_key config lms_user_id key) t)) [
      | does_not_exist ↦
          summary key >>= λ s. get_by_normalized_key config lms_user_id s.summary_content_key t
      | multiple_objects_returned ↦ err multiple_objects
      | one a ↦ ok (some a)
    ]

abbrev pub quantities : Table → List ℤ
quantities = map (λ a. a.content_quantity)

-- `aggregate(total_quantity=Sum('content_quantity'))['total_quantity'] or 0`
unfoldable pub get_allocated_quantity_for_configuration : Option ℕ → Table → ℤ
get_allocated_quantity_for_configuration config t =
    sum_ℤ (quantities (filter (λ a. in_config config a && is_allocated a.state) t))
