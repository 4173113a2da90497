-- ===== src/Requests/Reviews.antt =====
-- The rule of `clean` for reviewed requests (subsidy_request/models.py), which the bulk update of an
-- approval does not check.
use mathlib.Core.Path.{subst}
use enterprise_access.Prelude.{
  All, Bool-cases, List, Option, [], any, arith, false, if◌then◌else◌, inl, inr, is_some, map, not,
  ok, refl, sym, true, ℕ, ◌&&◌, ◌∷◌, ◌≡◌,
}
use enterprise_access.Assignments.Types.{Table}
use enterprise_access.Policy.Redeem.{LockKey}
use enterprise_access.Requests.Types.{
  Request, RequestTable, approve, cancel, decline, is_requested, request_clean, rivals,
  same_request, save_request,
}
use enterprise_access.Requests.Approval.{
  Answer, RequestAction, Setting, approve_learner_credit_requests,
}
use enterprise_access.Requests.Following.{AllFollow, Follows}
use enterprise_access.Requests.Outcomes.{approve_learner_credit_requests-AllFollow}

-- A request that is not in REQUESTED has a reviewer and the time of the review.
abbrev pub IsReviewed : Request → Type 0
IsReviewed r =
    is_requested r.request_state ≡ false
    → (is_some r.reviewed_at ≡ true) × (is_some r.reviewer ≡ true)

-- A review of a request by its methods.
pub data Review : Type 0 where
  approving cancelling : ℕ → Review
  declining : ℕ → Option ℕ → Review

abbrev pub reviewed : ℕ → Review → Request → Request
reviewed now (approving by) r = approve now by r
reviewed now (cancelling by) r = cancel now by r
reviewed now (declining by reason) r = decline now by reason r

clean-IsReviewed : (r : Request) → request_clean r ≡ ok tt → IsReviewed r
unfolding request_clean
clean-IsReviewed r h e = (ground (arith, h, e), ground (arith, h, e))

later_IsReviewed :
    (by now : ℕ) (rs : List Request) (x y : Request)
    → Follows by now rs x y
    → IsReviewed x
    → IsReviewed y
later_IsReviewed by now rs x y (inl same) h = subst IsReviewed (sym same) h
later_IsReviewed by now rs x y (inr (_, done)) h =
    λ e. (rw done.at_time refl, rw done.by_reviewer refl)

all_follow :
    (by now : ℕ) (rs : List Request) (q q₁ : RequestTable)
    → AllFollow by now rs q q₁
    → All IsReviewed q
    → All IsReviewed q₁
all_follow by now rs [] [] f h = tt
all_follow by now rs [] (y ∷ ys) f h = elim f [ ]
all_follow by now rs (x ∷ xs) [] f h = elim f [ ]
all_follow by now rs (x ∷ xs) (y ∷ ys) f h =
    (later_IsReviewed by now rs x y f.0 h.0, all_follow by now rs xs ys f.1 h.1)

-- A bulk approval that returns leaves every request that is not in REQUESTED with a reviewer and a
-- time of review, if they had them before.
pub approve_learner_credit_requests-IsReviewed :
    (s : Setting) (held : List LockKey) (by : ℕ) (rs : List Request) (t : Table)
    (q q₁ : RequestTable) (answer : Answer) (actions : List RequestAction)
    → All IsReviewed q
    → (approve_learner_credit_requests s held by rs t q).0 ≡ ok (answer, q₁, actions)
    → All IsReviewed q₁
approve_learner_credit_requests-IsReviewed s held by rs t q q₁ answer actions before h =
    all_follow by s.environment.now rs q q₁
      (approve_learner_credit_requests-AllFollow s held by rs t q q₁ answer actions h) before

written_IsReviewed :
    (now : ℕ) (r : Request) (q : RequestTable)
    → IsReviewed r
    → All IsReviewed q
    → All IsReviewed
        (map (λ b. if same_request r b then (record r { request_modified = now }) else b) q)
written_IsReviewed now r [] z h = tt
written_IsReviewed now r (b ∷ q) z h = elim (Bool-cases (same_request r b)) [
  | inl same ↦ rw same (z, written_IsReviewed now r q z h.1)
  | inr other ↦ rw other (h.0, written_IsReviewed now r q z h.1)
]

-- An approval, a decline or a cancellation by a reviewer can always be saved when no other row
-- has the same user, customer and course with both in a state of the constraint, and the table that
-- it leaves has a reviewer and a time of review on every request that is not in REQUESTED, if it
-- had them before.
pub save_request-reviewed :
    (now : ℕ) (by : Review) (r : Request) (q : RequestTable)
    → All IsReviewed q
    → any (λ b. not (same_request (reviewed now by r) b) && rivals (reviewed now by r) b) q ≡ false
    → (q₁ : RequestTable) × (save_request now (reviewed now by r) q ≡ ok q₁) × All IsReviewed q₁
unfolding save_request request_clean approve decline cancel
save_request-reviewed now (approving by) r q h free =
    (_, rw free refl, written_IsReviewed now (approve now by r) q (λ e. (refl, refl)) h)
save_request-reviewed now (cancelling by) r q h free =
    (_, rw free refl, written_IsReviewed now (cancel now by r) q (λ e. (refl, refl)) h)
save_request-reviewed now (declining by reason) r q h free =
    (_, rw free refl, written_IsReviewed now (decline now by reason r) q (λ e. (refl, refl)) h)
