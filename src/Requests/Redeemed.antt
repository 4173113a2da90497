-- ===== src/Requests/Redeemed.antt =====
-- What a redemption through a request, and a forced one, record.
use enterprise_access.Prelude.{
  Bool, Bool-cases, List, Option, Result, [], err, false, inl, inr, is_ok, is_some, none, not, ok,
  refl, some, true, ℕ, ◌&&◌, ◌++◌, ◌∷◌, ◌≡◌, ◌⊎◌,
}
use enterprise_access.Assignments.Types.{Error, Table, unbound_local_error}
use enterprise_access.Policy.Types.{Policy, Services, Transaction}
use enterprise_access.Policy.Limits.{bnr_enabled}
use enterprise_access.Policy.CanRedeem.{copy_context, get_assignment}
use enterprise_access.Policy.Redeem.{Ledger, LockKey}
use enterprise_access.Requests.Types.{Request, RequestTable, save_request, was_accepted}
use enterprise_access.Requests.Redeeming.{
  Books, ForcedRedemption, ForcedSetting, after_redeem, assignment_first, assignment_request_redeem,
  force_redeem, force_under_lock, forced_outcome, redeem_for, request_found, saved_accepted,
}

-- One attempt more, failed exactly when the result is an exception, and the requests untouched then.
abbrev pub Recorded : Request → Books → Result Error (Option ℕ) × Books → Type 0
Recorded r st out =
    (out.1.attempts
      ≡ st.attempts
        ++ record { attempt_request = r.credit.request_uuid; has_failed = not (is_ok out.0) } ∷ [])
    × (is_ok out.0 ≡ false → out.1.credit_requests ≡ st.credit_requests)

saved-Recorded :
    (r : Request) (tx : Option ℕ) (st : Books) (t : Table) (result : Result Error RequestTable)
    → Recorded r st (saved_accepted r tx (record st { rows = t }) result)
saved-Recorded r tx st t (err e) = (refl, λ h. refl)
saved-Recorded r tx st t (ok q) = (refl, λ h. cc)

after_redeem-Recorded :
    (now : ℕ) (r : Request) (st : Books) (left : Result Error (Option ℕ) × Table)
    → Recorded r st (after_redeem now r st left)
unfolding after_redeem
after_redeem-Recorded now r st (err e, t) = (refl, λ h. refl)
after_redeem-Recorded now r st (ok tx, t) =
    saved-Recorded r tx st t
      (save_request now (record r { request_state = was_accepted }) st.credit_requests)

redeem_for-cases :
    (s : Services) (l : Ledger) (p : Policy) (u key : ℕ) (ts : List Transaction)
    (metadata_allows : Bool) (st : Books) (o : Option Request)
    → ((o ≡ none)
        × (redeem_for s l p u key ts metadata_allows st o ≡ (err unbound_local_error, st)))
      ⊎ ((r : Request) × (o ≡ some r)
          × Recorded r st (redeem_for s l p u key ts metadata_allows st o))
redeem_for-cases s l p u key ts metadata_allows st none = inl (refl, refl)
redeem_for-cases s l p u key ts metadata_allows st (some r) =
    inr (r, refl, after_redeem-Recorded s.now r st _)

-- With browse and request on, a redemption that finds no assignment with a request raises an
-- UnboundLocalError and changes nothing. One that finds a request records one attempt on it, which
-- has failed exactly when the redemption raises, and then leaves the requests as they were.
pub assignment_request_redeem-cases :
    (s : Services) (l : Ledger) (p : Policy) (u key : ℕ) (ts : List Transaction)
    (metadata_allows : Bool) (st : Books)
    → bnr_enabled p ≡ true
    → ((request_found st (get_assignment s (copy_context p) u key st.rows) ≡ none)
        × (assignment_request_redeem s l p u key ts metadata_allows st
            ≡ (err unbound_local_error, st)))
      ⊎ ((r : Request) × (request_found st (get_assignment s (copy_context p) u key st.rows)
            ≡ some r)
          × Recorded r st (assignment_request_redeem s l p u key ts metadata_allows st))
unfolding assignment_request_redeem
assignment_request_redeem-cases s l p u key ts metadata_allows st on = rw on (
    redeem_for-cases s l p u key ts metadata_allows st
      (request_found st (get_assignment s (copy_context p) u key st.rows)))

-- A record of a successful redemption.
abbrev IsRedeemed : ForcedRedemption → Type 0
IsRedeemed r = (is_some r.redeemed_at && is_some r.forced_transaction_uuid) ≡ true

outcome-IsRedeemed :
    (now : ℕ) (f : ForcedSetting) (r : ForcedRedemption) (result : Result Error ℕ)
    → (forced_outcome now f r result).0 ≡ ok tt
    → IsRedeemed (forced_outcome now f r result).1
outcome-IsRedeemed now f r (err e) h = cc
outcome-IsRedeemed now f r (ok tx) h = refl

under_lock-IsRedeemed :
    (s : Services) (l : Ledger) (f : ForcedSetting) (p : Policy) (r : ForcedRedemption)
    (held : List LockKey) (first : Result Error Books) (st : Books)
    → (force_under_lock s l f p r held first st).0 ≡ ok tt
    → IsRedeemed (force_under_lock s l f p r held first st).1
unfolding force_under_lock
under_lock-IsRedeemed s l f p r held (err e) st h = cc
under_lock-IsRedeemed s l f p r held (ok st₁) st h = outcome-IsRedeemed s.now f r _ h

force_redeem-IsRedeemed :
    (s : Services) (l : Ledger) (f : ForcedSetting) (p : Policy) (r : ForcedRedemption)
    (held : List LockKey) (st : Books)
    → (force_redeem s l f p r held st).0 ≡ ok tt
    → IsRedeemed (force_redeem s l f p r held st).1
unfolding force_redeem
force_redeem-IsRedeemed s l f p r held st h =
    elim (Bool-cases (is_some r.redeemed_at && is_some r.forced_transaction_uuid)) [
      | inl already ↦ rw already already
      | inr not_yet ↦
          rw not_yet
            (under_lock-IsRedeemed s l f p r held (assignment_first f p r st) st (rw not_yet at h))
    ]

at_once :
    (s : Services) (l : Ledger) (f : ForcedSetting) (p : Policy) (r : ForcedRedemption)
    (held : List LockKey) (st : Books)
    → IsRedeemed r
    → force_redeem s l f p r held st ≡ (ok tt, r, held, st)
unfolding force_redeem
at_once s l f p r held st already = rw already refl

-- A forced redemption that has succeeded is not made again: another call on its record returns
-- at once, whatever the services answer by then, and leaves the record, the locks and the tables.
pub force_redeem-once :
    (s s₁ : Services) (l l₁ : Ledger) (f f₁ : ForcedSetting) (p p₁ : Policy) (r : ForcedRedemption)
    (held held₁ : List LockKey) (st st₁ : Books)
    → (force_redeem s l f p r held st).0 ≡ ok tt
    → force_redeem s₁ l₁ f₁ p₁ (force_redeem s l f p r held st).1 held₁ st₁
      ≡ (ok tt, (force_redeem s l f p r held st).1, held₁, st₁)
force_redeem-once s s₁ l l₁ f f₁ p p₁ r held held₁ st st₁ h =
    at_once s₁ l₁ f₁ p₁ (force_redeem s l f p r held st).1 held₁ st₁
      (force_redeem-IsRedeemed s l f p r held st h)
