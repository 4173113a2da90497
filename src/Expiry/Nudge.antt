-- ===== src/Expiry/Nudge.antt =====
-- nudge_assignments of content_assignments/api.py.
use Prim.Native.Nat.{◌/◌}
use enterprise_access.Prelude.{
  Bool, Dict, List, Option, Result, [], ap, err, false, if◌then◌else◌, is_present, lookup, none, ok,
  refl, some, true, ℕ, ◌&&◌, ◌++◌, ◌+◌, ◌==◌, ◌>>=◌, ◌∷◌, ◌≡◌,
}
use enterprise_access.Assignments.Types.{Assignment, Error, accepted, attribute_error, is_accepted}
use enterprise_access.Expiry.Dates.{Calendar, days, parse_datetime_string, policy_of}

-- What a nudge reads of the metadata of a course: of its runs and of the advertised one the start
-- date, and whether the course is of executive education.
pub record NudgeMetadata : Type 0 where
  pub run_start_dates : Dict (Option ℕ)
  pub advertised_start_date : Option ℕ
  pub is_executive_education : Bool

-- The catalog's answer for one assignment, which is None for a course that it does not have.
abbrev pub NudgeCatalog : Type 0
NudgeCatalog = Assignment → Result Error (Option NudgeMetadata)

abbrev pub start_date_of : Option (Option ℕ) → Option ℕ
start_date_of none = none
start_date_of (some d) = d

-- `get_normalized_metadata_for_assignment(...).get('start_date')`
abbrev pub normalized_start_date : Assignment → NudgeMetadata → Option ℕ
normalized_start_date a m =
    if is_present a.preferred_course_run_key
    then start_date_of
        (elim a.preferred_course_run_key [ none ↦ none | some run ↦ lookup run m.run_start_dates ])
    else m.advertised_start_date

-- `is_date_n_days_from_now`, on the days of the two times; a None has no `date`.
abbrev pub is_date_n_days_from_now : ℕ → Option ℕ → ℕ → Result Error Bool
is_date_n_days_from_now now none n = err attribute_error
is_date_n_days_from_now now (some d) n = ok (d / 86400 == (now + days n) / 86400)

-- Whether an accepted assignment is nudged.
unfoldable pub can_nudge : Calendar → ℕ → Assignment → Option NudgeMetadata → Result Error Bool
can_nudge c n a none = err attribute_error
can_nudge c n a (some m) = parse_datetime_string c (normalized_start_date a m) >>= λ d.
    is_date_n_days_from_now c.now d n >>= λ in_advance. ok (m.is_executive_education && in_advance)

-- The two lists of keys; an e-mail is sent for each key of the first.
pub record Nudges : Type 0 where
  pub nudged : List ℕ
  pub unnudged : List ℕ

abbrev pub with_nudge : Bool → ℕ → Nudges → Nudges
with_nudge true u s = record s { nudged = s.nudged ++ u ∷ [] }
with_nudge false u s = record s { unnudged = s.unnudged ++ u ∷ [] }

-- One turn of the loop.
unfoldable pub nudge_one : Calendar → NudgeCatalog → ℕ → Assignment → Nudges → Result Error Nudges
nudge_one c catalog n a s =
    if is_accepted a.state
    then (catalog a >>= λ m. can_nudge c n a m >>= λ can. ok (with_nudge can a.uuid s))
    else ok (with_nudge false a.uuid s)

abbrev pub and_nudge :
    Nudges
    → Result Error Nudges
    → (Nudges → Result Error Nudges × Nudges)
    → Result Error Nudges × Nudges
and_nudge s (err e) next = (err e, s)
and_nudge s (ok s₁) next = next s₁

-- The loop: its answer, and what has been done when it ends or raises.
unfoldable pub nudge_loop :
    Calendar → NudgeCatalog → ℕ → List Assignment → Nudges → Result Error Nudges × Nudges
nudge_loop c catalog n [] s = (ok s, s)
nudge_loop c catalog n (a ∷ rest) s =
    and_nudge s (nudge_one c catalog n a s) (λ s₁. nudge_loop c catalog n rest s₁)

-- `nudge_assignments`; without a policy its configuration raises.
unfoldable pub nudge_assignments :
    Calendar → (ℕ → NudgeCatalog) → List Assignment → ℕ → ℕ → Result Error Nudges × Nudges
nudge_assignments c catalogs assignments config n =
    let s : Nudges = record { nudged = []; unnudged = [] } in
    elim (policy_of c (some config)) [
      | err e ↦ (err e, s)
      | ok p ↦ nudge_loop c (catalogs p.catalog_uuid) n assignments s
    ]

-- A course without metadata ends the loop.
nudge-missing :
    (c : Calendar) (catalog : NudgeCatalog) (n : ℕ) (a : Assignment) (rest : List Assignment)
    (s : Nudges)
    → a.state ≡ accepted
    → catalog a ≡ ok none
    → nudge_loop c catalog n (a ∷ rest) s ≡ (err attribute_error, s)
unfolding nudge_loop nudge_one can_nudge
nudge-missing c catalog n a rest s h k =
    let takes_part : is_accepted a.state ≡ true = ap is_accepted h in rw (takes_part, k) refl
