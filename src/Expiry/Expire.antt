-- ===== src/Expiry/Expire.antt =====
-- expire_assignment of content_assignments/api.py, and the command
-- automatically_expire_assignments that calls it page by page.
use enterprise_access.Prelude.{
  Bool, Dict, List, Option, Result, [], err, filter, find, if◌then◌else◌, insert, is_some, length,
  lookup, ltb, map, none, not, ok, opt_eq, some, ℕ, ◌&&◌, ◌++◌, ◌-◌, ◌>>=◌, ◌∷◌,
}
use enterprise_access.Assignments.Types.{Assignment, Error, Table, expired, is_expirable}
use enterprise_access.Assignments.Emails.{drop, take}
use enterprise_access.Requests.Types.{Request, RequestTable, save_request, was_expired}
use enterprise_access.Requests.Reversal.{credit_request_of, save_assignment}
use enterprise_access.Expiry.Dates.{
  Calendar, CourseMetadata, Expiration, ExpiredReason, PolicyDates,
  get_automatic_expiration_date_and_reason, is_course_of, policy_of,
}

-- The e-mail tasks, with the key of the request or of the assignment.
pub data ExpiredEmail : Type 0 where
  bnr_automatically_expired assignment_automatically_expired : ℕ → ExpiredEmail

-- The rows that the expiry writes, in the order of their creation, and the tasks that are sent.
pub record Store : Type 0 where
  pub assignments : Table
  pub requests : RequestTable
  pub sent : List ExpiredEmail

-- `not date or date > localized_utcnow()`, the other way round
abbrev pub reason_by : ℕ → Expiration → Option ExpiredReason
reason_by now e = if ltb now e.date then none else some e.reason

-- The reason that is returned.
unfoldable pub expiration_reason :
    Calendar → Bool → Assignment → Option CourseMetadata → Result Error (Option ExpiredReason)
expiration_reason c has_request a m =
    if is_expirable a.state
    then (get_automatic_expiration_date_and_reason c has_request a m >>= λ e.
        ok (reason_by c.now e))
    else ok none

-- The row as it is saved; its e-mail address stays.
unfoldable pub expired_row : ℕ → Assignment → Assignment
expired_row now a = record a { state = expired; expired_at = some now; modified = now }

-- The writes: of the request first, if there is one, then of the assignment.
unfoldable pub modify_to_expired : ℕ → Assignment → Store → Option Request → Result Error Store
modify_to_expired now a st none = ok (record {
  assignments = save_assignment (expired_row now a) st.assignments;
  requests = st.requests;
  sent = st.sent ++ assignment_automatically_expired a.uuid ∷ [];
})
modify_to_expired now a st (some r) =
    save_request now (record r { request_state = was_expired }) st.requests >>= λ q. ok (record {
      assignments = save_assignment (expired_row now a) st.assignments;
      requests = q;
      sent = st.sent ++ bnr_automatically_expired r.credit.request_uuid ∷ [];
    })

abbrev pub with_reason :
    ℕ
    → Bool
    → Assignment
    → Store
    → Option ExpiredReason
    → Result Error (Option ExpiredReason × Store)
with_reason now modify a st none = ok (none, st)
with_reason now modify a st (some why) =
    if modify
    then (modify_to_expired now a st (credit_request_of a st.requests) >>= λ st₁.
        ok (some why, st₁))
    else ok (some why, st)

-- `expire_assignment(assignment, content_metadata, modify_assignment)`: the reason, and the rows. An
-- exception is raised before a row is written.
unfoldable pub expire_assignment :
    Calendar
    → Bool
    → Assignment
    → Option CourseMetadata
    → Store
    → Result Error (Option ExpiredReason × Store)
expire_assignment c modify a m st =
    expiration_reason c (is_some (credit_request_of a st.requests)) a m >>= λ why.
    with_reason c.now modify a st why

-- The loop over a page, with what its calls have returned.
abbrev pub and_go_on :
    Store
    → Result Error (Option ExpiredReason × Store)
    → (Store → Result Error (List (Option ExpiredReason)) × Store)
    → Result Error (List (Option ExpiredReason)) × Store
and_go_on st (err e) next = (err e, st)
and_go_on st (ok (why, st₁)) next =
    let (reasons, st₂) = next st₁ in (reasons >>= λ whys. ok (why ∷ whys), st₂)

abbrev pub MetadataByKey : Type 0
MetadataByKey = Dict (Option CourseMetadata)

abbrev pub metadata_of : MetadataByKey → Assignment → Option CourseMetadata
metadata_of d a = elim (lookup a.content_key d) [ none ↦ none | some m ↦ m ]

unfoldable pub expire_all :
    Calendar
    → Bool
    → MetadataByKey
    → List Assignment
    → Store
    → Result Error (List (Option ExpiredReason)) × Store
expire_all c modify courses [] st = (ok [], st)
expire_all c modify courses (a ∷ rest) st =
    and_go_on st (expire_assignment c modify a (metadata_of courses a) st)
      (λ st₁. expire_all c modify courses rest st₁)

-- `assignment_configuration.assignments.filter(state__in=EXPIRABLE_STATES)`
abbrev pub may_expire : ℕ → Assignment → Bool
may_expire config a = opt_eq a.assignment_configuration (some config) && is_expirable a.state

abbrev pub to_possibly_expire : ℕ → Store → List Assignment
to_possibly_expire config st = filter (may_expire config) st.assignments

-- `get_content_metadata_for_assignments(enterprise_catalog_uuid, assignments)`
abbrev pub metadata_by_key : List CourseMetadata → List Assignment → MetadataByKey → MetadataByKey
metadata_by_key courses [] d = d
metadata_by_key courses (a ∷ rest) d =
    metadata_by_key courses rest (insert a.content_key (find (is_course_of a) courses) d)

abbrev pub with_metadata :
    Calendar
    → Bool
    → List Assignment
    → Store
    → Result Error (List CourseMetadata)
    → Result Error (List (Option ExpiredReason)) × Store
with_metadata c modify page st (err e) = (err e, st)
with_metadata c modify page st (ok courses) =
    expire_all c modify (metadata_by_key courses page []) page st

abbrev pub expire_page :
    Calendar
    → Bool
    → ℕ
    → List Assignment
    → Store
    → Result Error (List (Option ExpiredReason)) × Store
expire_page c modify catalog page st =
    with_metadata c modify page st (c.catalog_content catalog (map (λ a. a.content_key) page))

-- `queryset[bottom:top]`: the rows that it finds when the page is read
abbrev pub page_of : ℕ → ℕ × ℕ → Store → List Assignment
page_of config (bottom, top) st = take (top - bottom) (drop bottom (to_possibly_expire config st))

abbrev pub and_next :
    Result Error (List (Option ExpiredReason)) × Store
    → (Store → Result Error (Unit {0}) × Store)
    → Result Error (Unit {0}) × Store
and_next (err e, st) next = (err e, st)
and_next (ok reasons, st) next = next st

-- The loop over `paginator.page_range`.
unfoldable pub expire_pages :
    Calendar → Bool → ℕ → ℕ → List (ℕ × ℕ) → Store → Result Error (Unit {0}) × Store
expire_pages c modify config catalog [] st = (ok tt, st)
expire_pages c modify config catalog (window ∷ rest) st =
    and_next (expire_page c modify catalog (page_of config window st) st)
      (λ st₁. expire_pages c modify config catalog rest st₁)

-- The body for one configuration. Django's Paginator, which counts the rows once, is a parameter:
-- the bounds of its pages for a number of rows.
abbrev pub under_policy :
    Calendar
    → Bool
    → (ℕ → List (ℕ × ℕ))
    → ℕ
    → Store
    → Result Error PolicyDates
    → Result Error (Unit {0}) × Store
under_policy c modify paginate config st (err e) = (err e, st)
under_policy c modify paginate config st (ok p) =
    expire_pages c modify config p.catalog_uuid (paginate (length (to_possibly_expire config st)))
      st

abbrev pub and_rest :
    Result Error (Unit {0}) × Store
    → (Store → Result Error (Unit {0}) × Store)
    → Result Error (Unit {0}) × Store
and_rest (err e, st) next = (err e, st)
and_rest (ok done, st) next = next st

-- `handle`, on the active configurations
unfoldable pub handle :
    Calendar → Bool → (ℕ → List (ℕ × ℕ)) → List ℕ → Store → Result Error (Unit {0}) × Store
handle c dry_run paginate [] st = (ok tt, st)
handle c dry_run paginate (config ∷ rest) st =
    and_rest (under_policy c (not dry_run) paginate config st (policy_of c (some config)))
      (λ st₁. handle c dry_run paginate rest st₁)
