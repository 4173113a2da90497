-- ===== src/Assignments/Users.antt =====
-- update_assignment_lms_user_id_from_user_email of content_assignments/signals.py.
use enterprise_access.Prelude.{
  Bool, Bool-cases, Option, [], and_false, any, false, if◌then◌else◌, inl, inr, is_present, is_some,
  map, not, refl, some, true, ℕ, ◌&&◌, ◌==◌, ◌∷◌, ◌≡◌,
}
use enterprise_access.Assignments.Types.{Assignment, Table}

module _ (lower : ℕ → ℕ) (user_email : ℕ) where
  -- `learner_email__iexact=user.email, lms_user_id=None`
  abbrev pub awaits_user : Assignment → Bool
  awaits_user a = (lower a.learner_email == lower user_email) && not (is_some a.lms_user_id)

  abbrev pub with_user : ℕ → Option ℕ → Assignment → Assignment
  with_user now u a = if awaits_user a then (record a { lms_user_id = u; modified = now }) else a

  -- The handler, with the id of the user that is saved.
  unfoldable pub update_assignment_lms_user_id_from_user_email : ℕ → Option ℕ → Table → Table
  update_assignment_lms_user_id_from_user_email now u t =
      if is_present u then map (with_user now u) t else t

  given-user : (now id : ℕ) (a : Assignment) → awaits_user (with_user now (some id) a) ≡ false
  given-user now id a = elim (Bool-cases (awaits_user a)) [
    | inl holds ↦ rw holds (and_false (lower a.learner_email == lower user_email))
    | inr fails ↦ rw fails fails
  ]

  -- Once a user with an id is saved, no assignment to the user's e-mail is left without an id.
  none_awaits :
      (now id : ℕ) (t : Table)
      → is_present (some id) ≡ true
      → any awaits_user (update_assignment_lms_user_id_from_user_email now (some id) t) ≡ false
  unfolding update_assignment_lms_user_id_from_user_email
  none_awaits now id t h = rw h (each t)
    where
      each : (u : Table) → any awaits_user (map (with_user now (some id)) u) ≡ false
      each [] = refl
      each (a ∷ u) = rw (given-user now id a, each u) refl
