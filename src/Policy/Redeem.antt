-- ===== src/Policy/Redeem.antt =====
-- `redeem` of subsidy_access_policy/models.py and the idempotency key of utils.py.
use enterprise_access.Prelude.{
  Bool, List, Option, Result, [], any, err, false, filter, if◌then◌else◌, map, neg, none, not, ok,
  some, true, ℕ, ℤ, ◌&&◌, ◌==◌, ◌||◌, ◌∷◌,
}
use enterprise_access.Assignments.Types.{
  Assignment, Error, Table, accepted, errored, is_allocated, lock_attempt_failed,
  missing_assignment, redeemed, subsidy_api_http_error, value_error,
}
use enterprise_access.Assignments.Actions.{add_errored, add_successful}
use enterprise_access.Policy.Types.{
  AccessMethod, Policy, Services, Transaction, TransactionState, assigned, committed, direct,
  failed, request,
}
use enterprise_access.Policy.Limits.{is_late_redemption_allowed}
use enterprise_access.Policy.CanRedeem.{get_assignment}

abbrev pub is_failed : TransactionState → Bool
is_failed failed = true
is_failed _ = false

abbrev pub is_committed : Option TransactionState → Bool
is_committed (some committed) = true
is_committed _ = false

-- A failed or reversed transaction.
abbrev pub qualifies : Transaction → Bool
qualifies tx = is_failed tx.transaction_state || is_committed tx.reversal

-- `_redemptions_for_idempotency_key`
unfoldable pub redemptions_for_idempotency_key : List Transaction → List ℕ
redemptions_for_idempotency_key ts = map (λ tx. tx.transaction_uuid) (filter qualifies ts)

-- The metadata that `create_idempotency_key_for_transaction` hashes; all its keys are in
-- TRANSACTION_METADATA_KEYS.
pub record KeyData : Type 0 where
  pub key_lms_user_id : ℕ
  pub key_content_key : ℕ
  pub key_policy_uuid : ℕ
  pub historical_redemptions : List ℕ

-- The payload of `create_subsidy_transaction`. The key is a pair of the subsidy and the hash;
-- `allow_late` is the entry 'allow_late_enrollment' of the metadata.
pub record Payload : Type 0 where
  pub payload_subsidy_uuid : ℕ
  pub payload_lms_user_id : ℕ
  pub payload_content_key : ℕ
  pub payload_policy_uuid : ℕ
  pub allow_late : Bool
  pub idempotency_key : ℕ × ℕ
  pub requested_price_cents : Option ℤ

-- The hash, and the subsidy service's create_subsidy_transaction: the transaction's uuid (if the
-- reply has one), or `none` when the client raises HTTPError.
pub record Ledger : Type 0 where
  pub hash : KeyData → ℕ
  pub create_subsidy_transaction : Payload → Option (Option ℕ)

abbrev pub key_data : Policy → ℕ → ℕ → List Transaction → KeyData
key_data p u key ts = record {
  key_lms_user_id = u;
  key_content_key = key;
  key_policy_uuid = p.uuid;
  historical_redemptions = redemptions_for_idempotency_key ts;
}

unfoldable pub create_idempotency_key_for_transaction : Ledger → ℕ → KeyData → ℕ × ℕ
create_idempotency_key_for_transaction l subsidy_uuid d = (subsidy_uuid, l.hash d)

-- `metadata_allows` says whether the caller's metadata already allows late enrollment.
unfoldable pub creation_payload :
    Services → Ledger → Policy → ℕ → ℕ → List Transaction → Bool → Option ℤ → Payload
creation_payload s l p u key ts metadata_allows price = record {
  payload_subsidy_uuid = p.subsidy_uuid;
  payload_lms_user_id = u;
  payload_content_key = key;
  payload_policy_uuid = p.uuid;
  allow_late = is_late_redemption_allowed s p || metadata_allows;
  idempotency_key = create_idempotency_key_for_transaction l p.subsidy_uuid (key_data p u key ts);
  requested_price_cents = price;
}

abbrev pub accepts_redemption : AccessMethod → Bool
accepts_redemption direct = true
accepts_redemption request = false
accepts_redemption assigned = true

abbrev pub created_or_error : Option (Option ℕ) → Result Error (Option ℕ)
created_or_error none = err subsidy_api_http_error
created_or_error (some uuid) = ok uuid

-- `SubsidyAccessPolicy.redeem`: the new transaction's uuid.
unfoldable pub base_redeem :
    Services
    → Ledger
    → Policy
    → ℕ
    → ℕ
    → List Transaction
    → Bool
    → Option ℤ
    → Result Error (Option ℕ)
base_redeem s l p u key ts metadata_allows price =
    if accepts_redemption p.access_method
    then created_or_error
        (l.create_subsidy_transaction (creation_payload s l p u key ts metadata_allows price))
    else err value_error

-- `assignment.save()`: the row with the same primary key is replaced.
unfoldable pub save_assignment : Assignment → Table → Table
save_assignment a [] = []
save_assignment a (b ∷ t) = (if b.uuid == a.uuid then a else b) ∷ save_assignment a t

-- What a failed call of the subsidy service leaves of the assignment.
unfoldable pub mark_errored : ℕ → Assignment → Assignment
mark_errored now a =
    add_errored redeemed (record a { state = errored; errored_at = some now; modified = now })

-- What a successful one leaves.
unfoldable pub mark_accepted : ℕ → ℕ → Option ℕ → Assignment → Assignment
mark_accepted now key tx a = add_successful redeemed now (record a {
  state = accepted;
  preferred_course_run_key = some key;
  accepted_at = some now;
  errored_at = none;
  cancelled_at = none;
  expired_at = none;
  transaction_uuid = tx;
  modified = now;
})

-- The handler of SubsidyAPIHTTPError, and the code after the `try`.
unfoldable pub settle :
    ℕ → ℕ → Assignment → Table → Result Error (Option ℕ) → Result Error (Option ℕ) × Table
settle now key a t (ok tx) = (ok tx, save_assignment (mark_accepted now key tx a) t)
settle now key a t (err subsidy_api_http_error) =
    (err subsidy_api_http_error, save_assignment (mark_errored now a) t)
settle now key a t (err e) = (err e, t)

unfoldable pub redeem_found :
    Services
    → Ledger
    → Policy
    → ℕ
    → ℕ
    → List Transaction
    → Bool
    → Table
    → Result Error (Option Assignment)
    → Result Error (Option ℕ) × Table
redeem_found s l p u key ts metadata_allows t (err e) = (err e, t)
redeem_found s l p u key ts metadata_allows t (ok none) = (err missing_assignment, t)
redeem_found s l p u key ts metadata_allows t (ok (some a)) =
    if is_allocated a.state
    then settle s.now key a t
        (base_redeem s l p u key ts metadata_allows (some (neg a.content_quantity)))
    else (err missing_assignment, t)

-- `AssignedLearnerCreditAccessPolicy.redeem`
unfoldable pub assigned_redeem :
    Services
    → Ledger
    → Policy
    → ℕ
    → ℕ
    → List Transaction
    → Bool
    → Table
    → Result Error (Option ℕ) × Table
assigned_redeem s l p u key ts metadata_allows t =
    redeem_found s l p u key ts metadata_allows t (get_assignment s p u key t)

-- The state and the resources of `lock`: the keys that are held in the cache.
pub record LockKey : Type 0 where
  pub lock_policy : ℕ
  pub lock_lms_user_id : ℕ
  pub lock_content_key : ℕ

-- The key leaves out an argument that is falsy, so a missing one is 0.
abbrev pub lock_resource_key : Policy → Option ℕ → Option ℕ → LockKey
lock_resource_key p u key = record {
  lock_policy = p.uuid;
  lock_lms_user_id = number u;
  lock_content_key = number key;
}
  where
    number : Option ℕ → ℕ
    number none = 0
    number (some n) = n

abbrev pub same_lock : LockKey → LockKey → Bool
same_lock a b =
    a.lock_policy == b.lock_policy
    && a.lock_lms_user_id == b.lock_lms_user_id
    && a.lock_content_key == b.lock_content_key

-- `django_cache.add`: whether the key was free, and the keys then held.
unfoldable pub acquire_lock : LockKey → List LockKey → Bool × List LockKey
acquire_lock k held = if any (same_lock k) held then (false, held) else (true, k ∷ held)

unfoldable pub release_lock : LockKey → List LockKey → List LockKey
release_lock k held = filter (λ j. not (same_lock k j)) held

-- `with policy.lock(...)` around a body, which is run with the lock held and whose result, an
-- exception too, comes back after the release.
unfoldable pub with_lock :
    {A S : Type 0}
    → LockKey
    → List LockKey
    → S
    → (List LockKey → S → Result Error A × S)
    → Result Error A × List LockKey × S
with_lock k held st body =
    let (got, held') = acquire_lock k held in
    if got
    then (let (r, st') = body held' st in (r, release_lock k held', st'))
    else (err lock_attempt_failed, held, st)
