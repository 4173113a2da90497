-- ===== src/Policy/Redemption.antt =====
-- How a redemption of an assignment ends, and what it leaves in the table.
use enterprise_access.Prelude.{
  Bool, Bool-cases, List, Option, Result, err, inl, inr, neg, none, ok, refl, some, true, ℕ, ◌≡◌,
}
use enterprise_access.Assignments.Types.{
  Assignment, Error, Table, is_allocated, subsidy_api_http_error,
}
use enterprise_access.Policy.Types.{Policy, Services, Transaction}
use enterprise_access.Policy.CanRedeem.{get_assignment}
use enterprise_access.Policy.Redeem.{
  Ledger, accepts_redemption, assigned_redeem, base_redeem, created_or_error, creation_payload,
  mark_accepted, mark_errored, redeem_found, save_assignment, settle,
}

-- A redemption that reached the subsidy service, for the assignment that was found.
pub record Reached (s : Services) (l : Ledger) (p : Policy) (u key : ℕ) (ts : List Transaction)
    (late : Bool) (t : Table) (reply : Result Error (Option ℕ)) : Type 0 where
  pub found : Assignment
  pub looked_up : get_assignment s p u key t ≡ ok (some found)
  pub was_allocated : is_allocated found.state ≡ true
  pub allowed : accepts_redemption p.access_method ≡ true
  pub replied :
      created_or_error (
        l.create_subsidy_transaction
          (creation_payload s l p u key ts late (some (neg found.content_quantity))))
      ≡ reply

-- The three ends: the assignment is accepted with the new transaction, or errored, or untouched.
abbrev pub Ends :
    (s : Services) (l : Ledger) (p : Policy) (u key : ℕ) (ts : List Transaction) (late : Bool)
    (t : Table)
    → Result Error (Option ℕ) × Table
    → Type 0
Ends s l p u key ts late t (ok tx, t') =
    (r : Reached s l p u key ts late t (ok tx)) × (t'
      ≡ save_assignment (mark_accepted s.now key tx r.found) t)
Ends s l p u key ts late t (err subsidy_api_http_error, t') =
    (r : Reached s l p u key ts late t (err subsidy_api_http_error)) × (t'
      ≡ save_assignment (mark_errored s.now r.found) t)
Ends s l p u key ts late t (err e, t') = t' ≡ t

-- The lookups raise no SubsidyAPIHTTPError: only `redeem` does.
abbrev pub NotSubsidyError : Error → Type 0
NotSubsidyError subsidy_api_http_error = ⊥
NotSubsidyError _ = Unit {0}

abbrev pub QuietLookup : Result Error (Option Assignment) → Type 0
QuietLookup (ok _) = Unit {0}
QuietLookup (err e) = NotSubsidyError e

untouched :
    (s : Services) (l : Ledger) (p : Policy) (u key : ℕ) (ts : List Transaction) (late : Bool)
    (t : Table) (e : Error)
    → NotSubsidyError e
    → Ends s l p u key ts late t (err e, t)
untouched s l p u key ts late t subsidy_api_http_error h = absurd h
untouched s l p u key ts late t _ h = refl

settle-Ends :
    (s : Services) (l : Ledger) (p : Policy) (u key : ℕ) (ts : List Transaction) (late : Bool)
    (t : Table) (a : Assignment)
    → get_assignment s p u key t ≡ ok (some a)
    → is_allocated a.state ≡ true
    → accepts_redemption p.access_method ≡ true
    → (reply : Option (Option ℕ))
    → l.create_subsidy_transaction
        (creation_payload s l p u key ts late (some (neg a.content_quantity)))
      ≡ reply
    → Ends s l p u key ts late t (settle s.now key a t (created_or_error reply))
unfolding settle
settle-Ends s l p u key ts late t a found alloc allowed none e = (
  record { found = a; looked_up = found; was_allocated = alloc; allowed = allowed; replied = rw e },
  refl,
)
settle-Ends s l p u key ts late t a found alloc allowed (some tx) e = (
  record { found = a; looked_up = found; was_allocated = alloc; allowed = allowed; replied = rw e },
  refl,
)

found-Ends :
    (s : Services) (l : Ledger) (p : Policy) (u key : ℕ) (ts : List Transaction) (late : Bool)
    (t : Table) (r : Result Error (Option Assignment))
    → get_assignment s p u key t ≡ r
    → QuietLookup r
    → Ends s l p u key ts late t (redeem_found s l p u key ts late t r)
unfolding redeem_found base_redeem settle
found-Ends s l p u key ts late t (err e) same quiet = untouched s l p u key ts late t e quiet
found-Ends s l p u key ts late t (ok none) same quiet = refl
found-Ends s l p u key ts late t (ok (some a)) same quiet =
    elim (Bool-cases (is_allocated a.state)) [
      | inr other ↦ rw other refl
      | inl alloc ↦ elim (Bool-cases (accepts_redemption p.access_method)) [
        | inr denied ↦ rw (alloc, denied) refl
        | inl allowed ↦
            rw (alloc, allowed) (settle-Ends s l p u key ts late t a same alloc allowed _ refl)
      ]
    ]

-- A redemption ends in one of the three ways.
pub assigned_redeem_lem :
    (s : Services) (l : Ledger) (p : Policy) (u key : ℕ) (ts : List Transaction) (late : Bool)
    (t : Table)
    → QuietLookup (get_assignment s p u key t)
    → Ends s l p u key ts late t (assigned_redeem s l p u key ts late t)
unfolding assigned_redeem
assigned_redeem_lem s l p u key ts late t quiet =
    found-Ends s l p u key ts late t (get_assignment s p u key t) refl quiet
