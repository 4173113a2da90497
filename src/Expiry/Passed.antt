-- ===== src/Expiry/Passed.antt =====
-- When an assignment expires: the earliest of the dates against the clock.
use enterprise_access.Prelude.{
  Bool, Bool-cases, List, Option, [], and_false, any, arith, false, if◌then◌else◌, inl, inr,
  is_some, leb, ltb, map, none, not, ok, refl, some, true, ℕ, ◌&&◌, ◌++◌, ◌||◌, ◌∷◌, ◌≡◌,
}
use enterprise_access.Assignments.Types.{Assignment, Table, is_expirable}
use enterprise_access.Requests.Types.{
  Request, RequestTable, request_clean, rivals, same_request, save_request, was_expired,
}
use enterprise_access.Requests.Reversal.{credit_request_of, save_assignment}
use enterprise_access.Expiry.Dates.{
  Calendar, CourseMetadata, Expiration, ExpiredReason, PolicyDates, dated, earliest,
  enrollment_date_passed, fetch_metadata, first_of, get_allocation_timeout_expiration,
  get_automatic_expiration_date_and_reason, get_enrollment_deadline_date, get_subsidy_expiration,
  given_or, insert_sorted, ninety_days_passed, policy_of, sorted, subsidy_expired,
}
use enterprise_access.Expiry.Expire.{
  Store, bnr_automatically_expired, expiration_reason, expire_assignment, expired_row,
  modify_to_expired, reason_by, with_reason,
}

-- A date that is set and not in the future.
abbrev pub is_passed : ℕ → Option ℕ → Bool
is_passed now none = false
is_passed now (some d) = leb d now

-- One of the dates of a list has passed.
abbrev pub any_passed : ℕ → List Expiration → Bool
any_passed now xs = any (λ e. leb e.date now) xs

first_insert :
    (now : ℕ) (x : Expiration) (ys : List Expiration) (e f : Expiration)
    → first_of ys ≡ ok e
    → first_of (insert_sorted x ys) ≡ ok f
    → leb f.date now ≡ (leb x.date now || leb e.date now)
unfolding insert_sorted
first_insert now x [] e f h k = cc
first_insert now x (y ∷ ys) e f h k = ground (arith, h, k)

inserted_first :
    (x : Expiration) (ys : List Expiration)
    → (f : Expiration) × (first_of (insert_sorted x ys) ≡ ok f)
unfolding insert_sorted
inserted_first x [] = (x, refl)
inserted_first x (y ∷ ys) = elim (Bool-cases (ltb y.date x.date)) [
  | inl before_it ↦ (y, rw before_it refl)
  | inr not_before ↦ (x, rw not_before refl)
]

sorted_first :
    (now : ℕ) (x : Expiration) (xs : List Expiration)
    → (e : Expiration) × (first_of (sorted (x ∷ xs)) ≡ ok e)
      × (leb e.date now ≡ any_passed now (x ∷ xs))
unfolding sorted insert_sorted
sorted_first now x [] = (x, refl, ground arith)
sorted_first now x (y ∷ ys) =
    let (e, h, k) = sorted_first now y ys in
    let (f, g) = inserted_first x (sorted (y ∷ ys)) in
    (f, g, rw (first_insert now x (sorted (y ∷ ys)) e f h g, k) refl)

-- The earliest of the dates has passed exactly when one of them has.
earliest_passed :
    (now : ℕ) (subsidy enrollment : Option ℕ) (timeout : ℕ)
    → (e : Expiration) × (earliest subsidy enrollment timeout ≡ ok e)
      × (leb e.date now
          ≡ (is_passed now subsidy || is_passed now enrollment || is_passed now (some timeout)))
earliest_passed now none none timeout =
    let (e, h, k) = sorted_first now (record { date = timeout; reason = ninety_days_passed }) [] in
    (e, h, ground (arith, k))
earliest_passed now none (some d) timeout =
    let (e, h, k) =
      sorted_first now (record { date = d; reason = enrollment_date_passed })
        (dated (some timeout) ninety_days_passed) in
    (e, h, ground (arith, k))
earliest_passed now (some d) none timeout =
    let (e, h, k) =
      sorted_first now (record { date = d; reason = subsidy_expired })
        (dated (some timeout) ninety_days_passed) in
    (e, h, ground (arith, k))
earliest_passed now (some d) (some b) timeout =
    let (e, h, k) =
      sorted_first now (record { date = d; reason = subsidy_expired })
        (dated (some b) enrollment_date_passed ++ dated (some timeout) ninety_days_passed) in
    (e, h, ground (arith, k))

reason-passed : (now : ℕ) (e : Expiration) → is_some (reason_by now e) ≡ leb e.date now
reason-passed now e = ground arith

-- The request of an assignment, if it has one, has a reviewer and the time of the review.
abbrev pub HasReview : Option Request → Type 0
HasReview none = Unit {0}
HasReview (some r) = (is_some r.reviewed_at ≡ true) × (is_some r.reviewer ≡ true)

no_rivals :
    (r : Request) (q : RequestTable)
    → r.request_state ≡ was_expired
    → any (λ b. not (same_request r b) && rivals r b) q ≡ false
no_rivals r [] h = refl
no_rivals r (b ∷ q) h = rw (h, no_rivals r q h) (ground arith)

save_expired :
    (now : ℕ) (r : Request) (q : RequestTable)
    → HasReview (some r)
    → (q₁ : RequestTable) × (save_request now (record r { request_state = was_expired }) q ≡ ok q₁)
unfolding save_request request_clean
save_expired now r q (at_time, by_reviewer) =
    let free = no_rivals (record r { request_state = was_expired }) q refl in
    (
      map
          (λ b.
            if same_request r b
            then record r { request_state = was_expired; request_modified = now }
            else b)
          q,
      rw (at_time, by_reviewer, free) refl,
    )

modify_total :
    (now : ℕ) (a : Assignment) (st : Store) (o : Option Request)
    → HasReview o
    → (st₁ : Store) × (modify_to_expired now a st o ≡ ok st₁)
      × (st₁.assignments ≡ save_assignment (expired_row now a) st.assignments)
unfolding modify_to_expired
modify_total now a st none h = (_, refl, refl)
modify_total now a st (some r) h =
    let (q, saved) = save_expired now r st.requests h in
    (
      record {
        assignments = save_assignment (expired_row now a) st.assignments;
        requests = q;
        sent = st.sent ++ bnr_automatically_expired r.credit.request_uuid ∷ [];
      },
      rw saved refl,
      refl,
    )

expiration_reason_lem :
    (c : Calendar) (has_request : Bool) (a : Assignment) (given m : Option CourseMetadata)
    (p : PolicyDates) (subsidy enrollment : Option ℕ)
    → policy_of c a.assignment_configuration ≡ ok p
    → get_subsidy_expiration c a ≡ ok subsidy
    → given_or given (fetch_metadata c p.catalog_uuid a) ≡ ok m
    → get_enrollment_deadline_date c has_request a m ≡ ok enrollment
    → (why : Option ExpiredReason) × (expiration_reason c has_request a given ≡ ok why)
      × (is_some why ≡ (
          is_expirable a.state
          && (is_passed c.now subsidy
              || is_passed c.now enrollment
              || is_passed c.now (some (get_allocation_timeout_expiration a)))))
unfolding expiration_reason get_automatic_expiration_date_and_reason
expiration_reason_lem c has_request a given m p subsidy enrollment hp hs hm he =
    elim (Bool-cases (is_expirable a.state)) [
      | inr fails ↦ (none, rw fails refl, rw fails refl)
      | inl holds ↦
          let (e, first, passed) =
            earliest_passed c.now subsidy enrollment (get_allocation_timeout_expiration a) in
          (
            reason_by c.now e,
            rw (holds, hp, hs, hm, he, first) refl,
            rw (holds, reason-passed c.now e, passed) refl,
          )
    ]

-- What a call writes to the assignments for a reason.
abbrev pub written : ℕ → Bool → Assignment → Option ExpiredReason → Table → Table
written now modify a why t =
    if modify && is_some why then save_assignment (expired_row now a) t else t

with_reason_total :
    (now : ℕ) (modify : Bool) (a : Assignment) (st : Store) (why : Option ExpiredReason)
    → HasReview (credit_request_of a st.requests)
    → (st₁ : Store) × (with_reason now modify a st why ≡ ok (why, st₁))
      × (st₁.assignments ≡ written now modify a why st.assignments)
with_reason_total now modify a st none h = (st, refl, rw (and_false modify) refl)
with_reason_total now false a st (some why) h = (st, refl, refl)
with_reason_total now true a st (some why) h =
    let (st₁, done, rows) = modify_total now a st (credit_request_of a st.requests) h in
    (st₁, rw done refl, rows)

-- When the dates of an assignment can be read, and its request, if it has one, has been reviewed,
-- `expire_assignment` returns, and gives a reason exactly when the assignment is allocated and its
-- subsidy has expired, its enrollment deadline has passed, or ninety days have passed since its
-- allocation. The assignments then differ by the expired row if there is a reason and the call
-- may modify, and not at all otherwise.
pub expire_assignment-passed :
    (c : Calendar) (modify : Bool) (a : Assignment) (given m : Option CourseMetadata) (st : Store)
    (p : PolicyDates) (subsidy enrollment : Option ℕ)
    → policy_of c a.assignment_configuration ≡ ok p
    → get_subsidy_expiration c a ≡ ok subsidy
    → given_or given (fetch_metadata c p.catalog_uuid a) ≡ ok m
    → get_enrollment_deadline_date c (is_some (credit_request_of a st.requests)) a m ≡ ok enrollment
    → HasReview (credit_request_of a st.requests)
    → (why : Option ExpiredReason) × (st₁ : Store) × (expire_assignment c modify a given st
        ≡ ok (why, st₁))
      × (is_some why ≡ (
          is_expirable a.state
          && (is_passed c.now subsidy
              || is_passed c.now enrollment
              || is_passed c.now (some (get_allocation_timeout_expiration a)))))
      × (st₁.assignments ≡ written c.now modify a why st.assignments)
unfolding expire_assignment
expire_assignment-passed c modify a given m st p subsidy enrollment hp hs hm he reviewed =
    let (why, reason, exact) =
      expiration_reason_lem c (is_some (credit_request_of a st.requests)) a given m p subsidy
        enrollment hp hs hm he in
    let (st₁, done, rows) = with_reason_total c.now modify a st why reviewed in
    (why, st₁, rw (reason, done) refl, exact, rows)
