-- ===== src/Assignments/Emails.antt =====
-- The e-mails of an allocation and the users behind them (content_assignments/api.py), and `chunks`
-- of utils.py. The lower-casing of a text is the parameter `lower`.
use enterprise_access.Prelude.{
  Bool, Dict, List, Option, [], any, if◌then◌else◌, insert, length, lookup, map, none, some, suc,
  true, update, zero, ℕ, ◌==◌, ◌∷◌,
}

module _ {ℓ} {A : Type ℓ} where
  abbrev pub take : ℕ → List A → List A
  take zero xs = []
  take (suc n) [] = []
  take (suc n) (x ∷ xs) = x ∷ take n xs

  abbrev pub drop : ℕ → List A → List A
  drop zero xs = xs
  drop (suc n) [] = []
  drop (suc n) (x ∷ xs) = drop n xs

  -- The slices of the list, from one multiple of the size to the next.
  unfoldable pub slices : ℕ → ℕ → List A → List (List A)
  slices zero size xs = []
  slices (suc fuel) size [] = []
  slices (suc fuel) size (x ∷ xs) = take size (x ∷ xs) ∷ slices fuel size (drop size (x ∷ xs))

  -- `chunks`: there are at most as many slices as elements.
  unfoldable pub chunks : List A → ℕ → List (List A)
  chunks xs size = slices (length xs) size xs

abbrev pub member : ℕ → List ℕ → Bool
member k xs = any (λ x. x == k) xs

-- A row of the users table.
pub record User : Type 0 where
  pub email : ℕ
  pub user_lms_id : Option ℕ

-- USER_EMAIL_READ_BATCH_SIZE
abbrev pub user_email_read_batch_size : ℕ
user_email_read_batch_size = 100

module _ (lower : ℕ → ℕ) where
  -- The loop of `_deduplicate_learner_emails_to_allocate`, with the e-mails seen.
  unfoldable pub deduplicate_from : List ℕ → List ℕ → List ℕ
  deduplicate_from seen [] = []
  deduplicate_from seen (e ∷ emails) =
      let known = member (lower e) seen in
      let rest = deduplicate_from (if known then seen else lower e ∷ seen) emails in
      if known then rest else e ∷ rest

  unfoldable pub deduplicate_learner_emails_to_allocate : List ℕ → List ℕ
  deduplicate_learner_emails_to_allocate emails = deduplicate_from [] emails

  -- `_inexact_email_filter`; for no e-mails it is an empty Q(), which filters nothing.
  abbrev pub inexact_email : List ℕ → ℕ → Bool
  inexact_email [] e = true
  inexact_email (x ∷ emails) e = any (λ y. lower y == lower e) (x ∷ emails)

  -- The query of one chunk: its users with an id, and the dict of the pairs.
  abbrev pub add_user : List ℕ → User → Dict ℕ → Dict ℕ
  add_user emails u d = elim u.user_lms_id [
    | none ↦ d
    | some id ↦ if inexact_email emails u.email then insert (lower u.email) id d else d
  ]

  unfoldable pub users_by_email : List ℕ → List User → Dict ℕ → Dict ℕ
  users_by_email emails [] d = d
  users_by_email emails (u ∷ users) d = users_by_email emails users (add_user emails u d)

  unfoldable pub ids_of_chunks : List User → List (List ℕ) → Dict ℕ → Dict ℕ
  ids_of_chunks users [] d = d
  ids_of_chunks users (emails ∷ rest) d =
      ids_of_chunks users rest (update d (users_by_email emails users []))

  -- `_get_lms_user_ids_by_email`
  unfoldable pub get_lms_user_ids_by_email : List User → List ℕ → Dict ℕ
  get_lms_user_ids_by_email users emails =
      ids_of_chunks users (chunks emails user_email_read_batch_size) []

  -- The loop of `_map_allocation_emails_with_lms_user_ids`.
  unfoldable pub emails_by_id : Dict ℕ → List ℕ → Dict ℕ → Dict ℕ
  emails_by_id ids [] d = d
  emails_by_id ids (e ∷ emails) d =
      emails_by_id ids emails (elim (lookup (lower e) ids) [ none ↦ d | some id ↦ insert id e d ])

  unfoldable pub map_allocation_emails_with_lms_user_ids : List User → List ℕ → Dict ℕ × Dict ℕ
  map_allocation_emails_with_lms_user_ids users emails =
      let ids = get_lms_user_ids_by_email users emails in (ids, emails_by_id ids emails [])

  -- `dict(zip(keys, values))`
  unfoldable pub dict_zip : List ℕ → List ℕ → Dict ℕ → Dict ℕ
  dict_zip [] vs d = d
  dict_zip (k ∷ ks) [] d = d
  dict_zip (k ∷ ks) (v ∷ vs) d = dict_zip ks vs (insert k v d)

  -- The two dicts of an allocation: from the known ids, if any are given, or from the users.
  unfoldable pub id_maps : List User → List ℕ → List ℕ → Dict ℕ × Dict ℕ
  id_maps users [] emails = map_allocation_emails_with_lms_user_ids users emails
  id_maps users (id ∷ known) emails =
      (dict_zip (map lower emails) (id ∷ known) [], dict_zip (id ∷ known) emails [])
