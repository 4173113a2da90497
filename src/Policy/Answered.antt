-- ===== src/Policy/Answered.antt =====
-- What a redemption of an assignment answers, and what it writes (subsidy_access_policy/models.py).
use enterprise_access.Prelude.{
  Bool, Bool-cases, List, Option, Result, [], err, false, if◌then◌else◌, inl, inr, map, neg, none,
  ok, refl, some, true, ℕ, ◌++◌, ◌==◌, ◌∷◌, ◌≡◌, ◌⊎◌,
}
use enterprise_access.Assignments.Types.{
  Assignment, Error, Table, accepted, enrollment_error, errored, is_allocated, missing_assignment,
  redeemed, subsidy_api_http_error, value_error,
}
use enterprise_access.Assignments.Actions.{add_errored, add_successful}
use enterprise_access.Policy.Types.{
  AccessMethod, Policy, Services, Transaction, assigned, direct, request,
}
use enterprise_access.Policy.CanRedeem.{get_assignment}
use enterprise_access.Policy.Redeem.{
  Ledger, accepts_redemption, assigned_redeem, base_redeem, created_or_error, creation_payload,
  mark_accepted, mark_errored, redeem_found, save_assignment, settle,
}
use enterprise_access.Policy.Redemption.{NotSubsidyError, QuietLookup, Reached}

-- The row with the key of `b`, replaced by `b`.
abbrev pub written : Assignment → Table → Table
written b t = map (λ a. if a.uuid == b.uuid then b else a) t

written_lem : (b : Assignment) (t : Table) → save_assignment b t ≡ written b t
unfolding save_assignment
written_lem b [] = refl
written_lem b (a ∷ t) = rw (written_lem b t) refl

-- The fields that a redemption never writes.
pub record SameOffer (a b : Assignment) : Type 0 where
  pub same_key : b.uuid ≡ a.uuid
  pub same_learner : b.lms_user_id ≡ a.lms_user_id
  pub same_email : b.learner_email ≡ a.learner_email
  pub same_content : b.content_key ≡ a.content_key
  pub same_quantity : b.content_quantity ≡ a.content_quantity

pub record IsAccepted (now key : ℕ) (tx : Option ℕ) (a b : Assignment) : Type 0 where
  pub same_offer : SameOffer a b
  pub accepted_now : b.state ≡ accepted
  pub dated : b.accepted_at ≡ some now
  pub cleared : (b.errored_at ≡ none) × (b.cancelled_at ≡ none) × (b.expired_at ≡ none)
  pub of_transaction : b.transaction_uuid ≡ tx
  pub of_run : b.preferred_course_run_key ≡ some key
  pub recorded :
      b.actions
      ≡ a.actions
        ++ record { action_type = redeemed; completed_at = some now; error_reason = none } ∷ []

pub record IsErrored (now : ℕ) (a b : Assignment) : Type 0 where
  pub same_offer : SameOffer a b
  pub errored_now : b.state ≡ errored
  pub dated : b.errored_at ≡ some now
  pub of_transaction : b.transaction_uuid ≡ a.transaction_uuid
  pub recorded :
      b.actions
      ≡ a.actions
        ++ record {
          action_type = redeemed;
          completed_at = none;
          error_reason = some enrollment_error;
        }
          ∷ []

mark_accepted-IsAccepted :
    (now key : ℕ) (tx : Option ℕ) (a : Assignment)
    → IsAccepted now key tx a (mark_accepted now key tx a)
unfolding mark_accepted add_successful
mark_accepted-IsAccepted now key tx a = record {
  same_offer = record {
    same_key = refl;
    same_learner = refl;
    same_email = refl;
    same_content = refl;
    same_quantity = refl;
  };
  accepted_now = refl;
  dated = refl;
  cleared = (refl, refl, refl);
  of_transaction = refl;
  of_run = refl;
  recorded = refl;
}

mark_errored-IsErrored : (now : ℕ) (a : Assignment) → IsErrored now a (mark_errored now a)
unfolding mark_errored add_errored
mark_errored-IsErrored now a = record {
  same_offer = record {
    same_key = refl;
    same_learner = refl;
    same_email = refl;
    same_content = refl;
    same_quantity = refl;
  };
  errored_now = refl;
  dated = refl;
  of_transaction = refl;
  recorded = refl;
}

module _ (s : Services) (l : Ledger) (p : Policy) (u key : ℕ) (ts : List Transaction) (late : Bool)
    (t : Table) where
  -- Why the subsidy service was not asked.
  abbrev pub Unasked : Error → Type 0
  Unasked e =
      (get_assignment s p u key t ≡ err e)
      ⊎ ((e ≡ missing_assignment) × (get_assignment s p u key t ≡ ok none))
      ⊎ ((a : Assignment) × (get_assignment s p u key t ≡ ok (some a))
          × (((e ≡ missing_assignment) × (is_allocated a.state ≡ false))
              ⊎ ((e ≡ value_error) × (p.access_method ≡ request))))

  -- The answer with the table that is left.
  abbrev pub Answered : Result Error (Option ℕ) × Table → Type 0
  Answered (ok tx, t') =
      (r : Reached s l p u key ts late t (ok tx)) × (b : Assignment) × IsAccepted s.now key tx
        r.found b
      × (t' ≡ written b t)
  Answered (err subsidy_api_http_error, t') =
      (r : Reached s l p u key ts late t (err subsidy_api_http_error)) × (b : Assignment)
      × IsErrored s.now r.found b
      × (t' ≡ written b t)
  Answered (err e, t') = Unasked e × (t' ≡ t)

  unasked : (e : Error) → NotSubsidyError e → Unasked e → Answered (err e, t)
  unasked subsidy_api_http_error h c = absurd h
  unasked _ h c = (c, refl)

  settle-Answered :
      (a : Assignment)
      → get_assignment s p u key t ≡ ok (some a)
      → is_allocated a.state ≡ true
      → accepts_redemption p.access_method ≡ true
      → (reply : Option (Option ℕ))
      → l.create_subsidy_transaction
          (creation_payload s l p u key ts late (some (neg a.content_quantity)))
        ≡ reply
      → Answered (settle s.now key a t (created_or_error reply))
  unfolding settle
  settle-Answered a found alloc allowed none e = (
    record {
      found = a;
      looked_up = found;
      was_allocated = alloc;
      allowed = allowed;
      replied = rw e;
    },
    mark_errored s.now a,
    mark_errored-IsErrored s.now a,
    written_lem (mark_errored s.now a) t,
  )
  settle-Answered a found alloc allowed (some tx) e = (
    record {
      found = a;
      looked_up = found;
      was_allocated = alloc;
      allowed = allowed;
      replied = rw e;
    },
    mark_accepted s.now key tx a,
    mark_accepted-IsAccepted s.now key tx a,
    written_lem (mark_accepted s.now key tx a) t,
  )

  by_request : (m : AccessMethod) → accepts_redemption m ≡ false → m ≡ request
  by_request direct h = cc
  by_request assigned h = cc
  by_request request h = refl

  found-Answered :
      (r : Result Error (Option Assignment))
      → get_assignment s p u key t ≡ r
      → QuietLookup r
      → Answered (redeem_found s l p u key ts late t r)
  unfolding redeem_found base_redeem settle
  found-Answered (err e) same quiet = unasked e quiet (inl same)
  found-Answered (ok none) same quiet = (inr (inl (refl, same)), refl)
  found-Answered (ok (some a)) same quiet = elim (Bool-cases (is_allocated a.state)) [
    | inr other ↦ rw other (inr (inr (a, same, inl (refl, other))), refl)
    | inl alloc ↦ elim (Bool-cases (accepts_redemption p.access_method)) [
      | inr denied ↦
          rw (alloc, denied)
            (inr (inr (a, same, inr (refl, by_request p.access_method denied))), refl)
      | inl allowed ↦ rw (alloc, allowed) (settle-Answered a same alloc allowed _ refl)
    ]
  ]

-- A redemption of an assignment ends in one of three ways. It returns a transaction: then an
-- allocated assignment was found, the transaction was created for its price under its policy, and its
-- row alone is written: with the same learner, content and price, in the state accepted, with the
-- transaction, the time and an action. It raises SubsidyAPIHTTPError: then an allocated assignment was
-- found, and its row alone is written, in the state errored with the time and a failed action. It
-- raises anything else: then the table is as before, and the error is that of the lookup, or
-- MissingAssignment as no assignment was found or one that is not allocated, or ValueError as the policy
-- takes requests. The lookup of the assignment is assumed not to raise SubsidyAPIHTTPError itself.
pub assigned_redeem-Answered :
    (s : Services) (l : Ledger) (p : Policy) (u key : ℕ) (ts : List Transaction) (late : Bool)
    (t : Table)
    → QuietLookup (get_assignment s p u key t)
    → Answered s l p u key ts late t (assigned_redeem s l p u key ts late t)
unfolding assigned_redeem
assigned_redeem-Answered s l p u key ts late t quiet =
    found-Answered s l p u key ts late t (get_assignment s p u key t) refl quiet
