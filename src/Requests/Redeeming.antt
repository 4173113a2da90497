-- ===== src/Requests/Redeeming.antt =====
-- assignment_request_redeem and the redeem of each class of policy, and ForcedPolicyRedemption
-- (subsidy_access_policy/models.py).
use enterprise_access.Prelude.{
  Bool, List, Option, Result, [], err, false, if◌then◌else◌, is_some, none, ok, some, true, ℕ, ℤ,
  ◌&&◌, ◌++◌, ◌>>=◌, ◌>>◌, ◌∷◌,
}
use enterprise_access.Assignments.Types.{
  Assignment, Error, Table, attribute_error, bare_exception, key_error, lock_attempt_failed,
  subsidy_api_http_error, unbound_local_error,
}
use enterprise_access.Assignments.Allocate.{Environment, allocate_assignments}
use enterprise_access.Policy.Types.{
  AccessMethod, Policy, PolicyType, Services, Transaction, Verdict, assigned, assigned_learner,
  per_learner_enrollment, per_learner_spend,
}
use enterprise_access.Policy.Limits.{bnr_enabled}
use enterprise_access.Policy.CanRedeem.{copy_context, get_assignment, policy_can_redeem}
use enterprise_access.Policy.Redeem.{
  Ledger, LockKey, assigned_redeem, base_redeem, lock_resource_key, with_lock,
}
use enterprise_access.Requests.Types.{Request, RequestTable, save_request, was_accepted}
use enterprise_access.Requests.Reversal.{credit_request_of}

-- The LearnerCreditRequestActions of an attempt: its status is ACCEPTED until it fails, and then
-- APPROVED with the reason FAILED_REDEMPTION.
pub record Attempt : Type 0 where
  pub attempt_request : ℕ
  pub has_failed : Bool

-- The tables that a redemption writes.
pub record Books : Type 0 where
  pub rows : Table
  pub credit_requests : RequestTable
  pub attempts : List Attempt

abbrev pub attempted : Request → Bool → Books → Books
attempted r b st = record st {
  attempts = st.attempts ++ record { attempt_request = r.credit.request_uuid; has_failed = b } ∷ [];
}

abbrev pub saved_accepted :
    Request → Option ℕ → Books → Result Error RequestTable → Result Error (Option ℕ) × Books
saved_accepted r tx st (err e) = (err e, attempted r true st)
saved_accepted r tx st (ok q) = (ok tx, attempted r false (record st { credit_requests = q }))

-- After `policy_instance.redeem`.
unfoldable pub after_redeem :
    ℕ → Request → Books → Result Error (Option ℕ) × Table → Result Error (Option ℕ) × Books
after_redeem now r st (err e, t) = (err e, attempted r true (record st { rows = t }))
after_redeem now r st (ok tx, t) =
    saved_accepted r tx (record st { rows = t })
      (save_request now (record r { request_state = was_accepted }) st.credit_requests)

-- Without a request the handler reads the action before it is bound.
abbrev pub redeem_for :
    Services
    → Ledger
    → Policy
    → ℕ
    → ℕ
    → List Transaction
    → Bool
    → Books
    → Option Request
    → Result Error (Option ℕ) × Books
redeem_for s l p u key ts metadata_allows st none = (err unbound_local_error, st)
redeem_for s l p u key ts metadata_allows st (some r) =
    after_redeem s.now r st (assigned_redeem s l (copy_context p) u key ts metadata_allows st.rows)

abbrev pub request_found : Books → Result Error (Option Assignment) → Option Request
request_found st (err e) = none
request_found st (ok none) = none
request_found st (ok (some a)) = credit_request_of a st.credit_requests

-- `assignment_request_redeem`, which answers None when browse and request is off.
unfoldable pub assignment_request_redeem :
    Services
    → Ledger
    → Policy
    → ℕ
    → ℕ
    → List Transaction
    → Bool
    → Books
    → Result Error (Option ℕ) × Books
assignment_request_redeem s l p u key ts metadata_allows st =
    if bnr_enabled p
    then redeem_for s l p u key ts metadata_allows st
        (request_found st (get_assignment s (copy_context p) u key st.rows))
    else (ok none, st)

abbrev pub on_rows : Books → Result Error (Option ℕ) × Table → Result Error (Option ℕ) × Books
on_rows st (result, t) = (result, record st { rows = t })

-- `redeem` of a policy of any class
unfoldable pub policy_redeem :
    PolicyType
    → Services
    → Ledger
    → Policy
    → ℕ
    → ℕ
    → List Transaction
    → Bool
    → Books
    → Result Error (Option ℕ) × Books
policy_redeem per_learner_enrollment s l p u key ts metadata_allows st =
    (base_redeem s l p u key ts metadata_allows none, st)
policy_redeem per_learner_spend s l p u key ts metadata_allows st =
    if bnr_enabled p
    then assignment_request_redeem s l p u key ts metadata_allows st
    else (base_redeem s l p u key ts metadata_allows none, st)
policy_redeem assigned_learner s l p u key ts metadata_allows st =
    on_rows st (assigned_redeem s l p u key ts metadata_allows st.rows)

-- ForcedPolicyRedemption
pub record ForcedRedemption : Type 0 where
  pub forced_lms_user_id : ℕ
  pub course_run_key : ℕ
  pub content_price_cents : ℤ
  pub redeemed_at : Option ℕ
  pub forced_errored_at : Option ℕ
  pub forced_transaction_uuid : Option ℕ

-- What the forced redemption asks outside: whether the customer has the content, the e-mail of the
-- learner's record, and 'modified' of the transaction.
pub record ForcedSetting : Type 0 where
  pub forced_environment : Environment
  pub customer_content : ℕ → ℕ → Result Error (Unit {0})
  pub learner_email : ℕ → ℕ → Result Error (Option ℕ)
  pub transaction_modified : ℕ

abbrev pub allocated_for :
    ForcedSetting → Policy → ForcedRedemption → Books → Option ℕ → Result Error Books
allocated_for f p r st none = err attribute_error
allocated_for f p r st (some config) =
    f.customer_content p.enterprise_customer_uuid r.course_run_key
    >> (f.learner_email p.enterprise_customer_uuid r.forced_lms_user_id >>= λ found_email.
        elim found_email [
          | none ↦ err bare_exception
          | some e ↦
              allocate_assignments f.forced_environment config (e ∷ []) r.course_run_key
                r.content_price_cents none (r.forced_lms_user_id ∷ []) st.rows
              >>= λ made. ok (record st { rows = made.1 })
        ])

-- `create_assignment`
unfoldable pub create_assignment :
    ForcedSetting → Policy → ForcedRedemption → Books → Result Error Books
create_assignment f p r st = allocated_for f p r st p.assignment_configuration

abbrev pub is_assigned_access : AccessMethod → Bool
is_assigned_access assigned = true
is_assigned_access _ = false

-- The transaction's uuid, which the body stores; a reply without one raises.
abbrev pub uuid_in : Result Error (Option ℕ) → Result Error ℕ
uuid_in (err e) = err e
uuid_in (ok none) = err key_error
uuid_in (ok (some tx)) = ok tx

abbrev pub if_redeemable :
    Services
    → Ledger
    → Policy
    → ForcedRedemption
    → Books
    → Result Error Verdict
    → Result Error ℕ × Books
if_redeemable s l p r st (err e) = (err e, st)
if_redeemable s l p r st (ok v) =
    if v.can_redeem
    then (let (result, st₁) =
          policy_redeem p.policy_type s l p r.forced_lms_user_id r.course_run_key
            v.existing_transactions false st in
        (uuid_in result, st₁))
    else (err bare_exception, st)

-- The exceptions after which the record is saved with an error.
abbrev pub is_recorded : Error → Bool
is_recorded lock_attempt_failed = true
is_recorded subsidy_api_http_error = true
is_recorded _ = false

abbrev pub forced_outcome :
    ℕ
    → ForcedSetting
    → ForcedRedemption
    → Result Error ℕ
    → Result Error (Unit {0}) × ForcedRedemption
forced_outcome now f r (ok tx) = (
  ok tt,
  record r { forced_transaction_uuid = some tx; redeemed_at = some f.transaction_modified },
)
forced_outcome now f r (err e) =
    (err e, if is_recorded e then (record r { forced_errored_at = some now }) else r)

-- The body under the lock.
unfoldable pub force_under_lock :
    Services
    → Ledger
    → ForcedSetting
    → Policy
    → ForcedRedemption
    → List LockKey
    → Result Error Books
    → Books
    → Result Error (Unit {0}) × ForcedRedemption × List LockKey × Books
force_under_lock s l f p r held (err e) st = (err e, r, held, st)
force_under_lock s l f p r held (ok st₁) st =
    let (result, held₁, st₂) = with_lock (lock_resource_key p none none) held st₁ (λ inner u.
      if_redeemable s l p r u
        (policy_can_redeem s u.rows p r.forced_lms_user_id r.course_run_key false true)) in
    let (answer, r₁) = forced_outcome s.now f r result in (answer, r₁, held₁, st₂)

abbrev pub assignment_first : ForcedSetting → Policy → ForcedRedemption → Books → Result Error Books
assignment_first f p r st =
    if is_assigned_access p.access_method then create_assignment f p r st else ok st

-- `force_redeem`
unfoldable pub force_redeem :
    Services
    → Ledger
    → ForcedSetting
    → Policy
    → ForcedRedemption
    → List LockKey
    → Books
    → Result Error (Unit {0}) × ForcedRedemption × List LockKey × Books
force_redeem s l f p r held st =
    if is_some r.redeemed_at && is_some r.forced_transaction_uuid
    then (ok tt, r, held, st)
    else force_under_lock s l f p r held (assignment_first f p r st) st
