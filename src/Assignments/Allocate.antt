-- ===== src/Assignments/Allocate.antt =====
-- allocate_assignments of content_assignments/api.py.
use enterprise_access.Prelude.{
  Bool, Dict, List, Option, Result, [], any, err, false, filter, find, if◌then◌else◌, is_present,
  lookup, map, neg, negsuc, none, not, ok, opt_eq, pos, raise_if, some, true, values, ℕ, ℤ, ◌&&◌,
  ◌++◌, ◌+◌, ◌==◌, ◌>>=◌, ◌>>◌, ◌∷◌,
}
use enterprise_access.Assignments.Types.{
  Assignment, Error, Summary, Table, allocated, allocation_exception, integrity_error,
}
use enterprise_access.Assignments.Lookup.{in_config}
use enterprise_access.Assignments.Cancellation.{among, difference, same_row, set_of}
use enterprise_access.Assignments.Emails.{
  User, deduplicate_learner_emails_to_allocate, id_maps, inexact_email, member,
}
use enterprise_access.Assignments.Prepare.{Offer, Prepared, clashes, clean, prepare_all}

-- What an allocation reads: the clock, the lower-casing of a text, the users, the metadata summary
-- of a content key at the configuration's customer, and the keys that uuid4 gives: of the batch,
-- and of the new rows in turn.
pub record Environment : Type 0 where
  pub now : ℕ
  pub lower : ℕ → ℕ
  pub users : List User
  pub summary : ℕ → Result Error Summary
  pub batch_id : ℕ
  pub fresh : ℕ → ℕ

-- `_get_parent_content_key`
unfoldable pub get_parent_content_key : ℕ → Summary → Option ℕ
get_parent_content_key key m =
    if opt_eq (some key) m.summary_content_key then none else m.summary_content_key

abbrev pub offer_of : Environment → ℕ → ℕ → Summary → Offer
offer_of env key price m = record {
  quantity = neg (pos price);
  batch = env.batch_id;
  preferred_run = m.summary_course_run_key;
  parent_key = get_parent_content_key key m;
  is_course_run = is_present (get_parent_content_key key m);
}

-- `get_assignments_for_admin`
unfoldable pub get_assignments_for_admin : (ℕ → ℕ) → Option ℕ → List ℕ → ℕ → Table → List Assignment
get_assignments_for_admin lower config emails key =
    filter (λ a.
      in_config config a && inexact_email lower emails a.learner_email && a.content_key == key)

-- `lms_user_id__in=values, content_key=key`
abbrev pub id_among : List ℕ → Option ℕ → Bool
id_among ids none = false
id_among ids (some id) = member id ids

-- `_get_existing_assignments_for_allocation`
unfoldable pub get_existing_assignments_for_allocation :
    (ℕ → ℕ) → Option ℕ → List ℕ → ℕ → Dict ℕ → Table → List Assignment
get_existing_assignments_for_allocation lower config emails key ids t = set_of (
    get_assignments_for_admin lower config emails key t
    ++ filter
        (λ a. in_config config a && id_among (values ids) a.lms_user_id && a.content_key == key) t)

-- `bulk_update(records, ASSIGNMENT_REALLOCATION_FIELDS)` on one row.
abbrev pub write_reallocation : ℕ → Option Assignment → Assignment → Assignment
write_reallocation now none a = a
write_reallocation now (some r) a = record a {
  lms_user_id = r.lms_user_id;
  learner_email = r.learner_email;
  allocation_batch_id = r.allocation_batch_id;
  content_quantity = r.content_quantity;
  state = r.state;
  preferred_course_run_key = r.preferred_course_run_key;
  allocated_at = r.allocated_at;
  cancelled_at = r.cancelled_at;
  expired_at = r.expired_at;
  errored_at = r.errored_at;
  parent_content_key = r.parent_content_key;
  is_assigned_course_run = r.is_assigned_course_run;
  modified = now;
}

unfoldable pub bulk_update_reallocation : ℕ → List Assignment → Table → Table
bulk_update_reallocation now records t =
    map (λ a. write_reallocation now (find (same_row a) records) a) t

-- No two rows clash.
unfoldable pub is_consistent : Table → Bool
is_consistent [] = true
is_consistent (a ∷ t) = not (any (clashes a) t) && is_consistent t

-- A write that the database refuses when it breaks a `unique_together`, checked on the rows after
-- the statement.
abbrev pub commit : Table → Result Error Table
commit t = raise_if (not (is_consistent t)) integrity_error >> ok t

abbrev pub records_to_update : List Prepared → List Assignment
records_to_update ps = map (λ p. p.assignment) (filter (λ p. p.needs_update) ps)

-- `learner_emails_with_existing_assignments`
abbrev pub existing_emails : (ℕ → ℕ) → List Prepared → List ℕ
existing_emails lower ps = map (λ p. lower p.assignment.learner_email) ps

abbrev pub emails_to_create : (ℕ → ℕ) → List ℕ → List ℕ → List ℕ
emails_to_create lower existing emails = filter (λ e. not (member (lower e) existing)) emails

-- A row that `_create_new_assignments` makes.
abbrev pub new_assignment :
    Environment → ℕ → ℕ → Summary → Offer → Dict ℕ → Option ℕ → ℕ → ℕ → Assignment
new_assignment env config key m o ids admin uuid e = record {
  uuid = uuid;
  assignment_configuration = some config;
  learner_email = e;
  lms_user_id = lookup (env.lower e) ids;
  content_key = key;
  parent_content_key = o.parent_key;
  is_assigned_course_run = o.is_course_run;
  content_title = m.summary_title;
  content_quantity = o.quantity;
  preferred_course_run_key = o.preferred_run;
  state = allocated;
  allocated_at = env.now;
  accepted_at = none;
  cancelled_at = none;
  expired_at = none;
  errored_at = none;
  reversed_at = none;
  transaction_uuid = none;
  allocation_batch_id = some o.batch;
  admin_lms_user_id = admin;
  modified = env.now;
  actions = [];
  credit_request = none;
}

unfoldable pub new_assignments :
    Environment → ℕ → ℕ → Summary → Offer → Dict ℕ → Option ℕ → ℕ → List ℕ → List Assignment
new_assignments env config key m o ids admin n [] = []
new_assignments env config key m o ids admin n (e ∷ emails) =
    new_assignment env config key m o ids admin (env.fresh n) e
    ∷ new_assignments env config key m o ids admin (n + 1) emails

unfoldable pub clean_all : List Assignment → Result Error (Unit {0})
clean_all [] = ok tt
clean_all (a ∷ rest) = clean a >> clean_all rest

-- The answer: the lists 'updated', 'created' and 'no_change'.
pub record Allocation : Type 0 where
  pub updated : List Assignment
  pub created : List Assignment
  pub no_change : List Assignment

-- The writes, in one transaction, and the answer.
unfoldable pub write_allocation :
    Environment
    → ℕ
    → ℕ
    → Summary
    → Offer
    → Dict ℕ
    → Option ℕ
    → List ℕ
    → List Assignment
    → List Prepared
    → Table
    → Result Error (Allocation × Table)
write_allocation env config key m o ids admin emails existing ps t =
    commit (bulk_update_reallocation env.now (records_to_update ps) t) >>= λ t₁.
    let new =
      new_assignments env config key m o ids admin 0
        (emails_to_create env.lower (existing_emails env.lower ps) emails) in
    clean_all new
    >> (commit (t₁ ++ new) >>= λ t₂.
        let refreshed = filter (among (records_to_update ps)) t₁ in
        ok (
          record { updated = refreshed; created = new; no_change = difference existing refreshed },
          t₂,
        ))

-- `allocate_assignments`; an error leaves the table as it was. The price is not negative here: the
-- guard is `allocate_assignments` below.
unfoldable pub allocate_price :
    Environment → ℕ → List ℕ → ℕ → ℕ → Option ℕ → List ℕ → Table → Result Error (Allocation × Table)
allocate_price env config learner_emails key price admin known t =
    let emails = deduplicate_learner_emails_to_allocate env.lower learner_emails in
    let maps = id_maps env.lower env.users known emails in
    let existing =
      get_existing_assignments_for_allocation env.lower (some config) emails key maps.0 t in
    env.summary key >>= λ m.
    let o = offer_of env key price m in
    prepare_all env.lower maps.0 maps.1 env.now t o existing >>= λ ps.
    write_allocation env config key m o maps.0 admin emails existing ps t

unfoldable pub allocate_assignments :
    Environment → ℕ → List ℕ → ℕ → ℤ → Option ℕ → List ℕ → Table → Result Error (Allocation × Table)
allocate_assignments env config learner_emails key (negsuc n) admin known t =
    err allocation_exception
allocate_assignments env config learner_emails key (pos price) admin known t =
    allocate_price env config learner_emails key price admin known t
