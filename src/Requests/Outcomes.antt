-- ===== src/Requests/Outcomes.antt =====
-- What approve_learner_credit_requests leaves of each request (subsidy_request/api.py).
use mathlib.Core.Path.{subst}
use enterprise_access.Prelude.{
  >>=-eq-ok, Bool-cases, List, [], any, ap, false, inl, inr, map, ok, refl, some, sym, true, ℕ,
  ◌||◌, ◌∙◌, ◌∷◌, ◌≡◌,
}
use enterprise_access.Assignments.Types.{Table}
use enterprise_access.Policy.Redeem.{LockKey}
use enterprise_access.Policy.Allocation.{CreditRequest}
use enterprise_access.Requests.Types.{Request, RequestTable, is_approvable}
use enterprise_access.Requests.Approval.{
  Answer, RequestAction, Setting, approve_learner_credit_requests, approve_status,
  approve_via_policy, conclude, nothing_to_process, process_requests, requests_to_process,
}
use enterprise_access.Requests.Partition.{Sound, approve_via_policy-Sound, holds}
use enterprise_access.Requests.Following.{
  AllFollow, Concluded, conclude-Concluded, listed, processable, processed_holds, same_value, stay,
  with_key,
}

process_requests-Concluded :
    (s : Setting) (held : List LockKey) (by : ℕ) (rs : List Request) (t : Table) (q : RequestTable)
    (ps : List CreditRequest) (x : Answer × RequestTable × List RequestAction)
    → requests_to_process rs ≡ ps
    → (process_requests s held by rs t q ps).0 ≡ ok x
    → Concluded by s.environment.now rs q x
unfolding process_requests
process_requests-Concluded s held by rs t q [] x e h =
    let given : (nothing_to_process rs, q, []) ≡ x =
      same_value (nothing_to_process rs, q, []) x h in
    subst (λ y. Concluded by s.environment.now rs q y) given
      (
        stay by s.environment.now rs q,
        λ u k l.
            let none_left : holds u (requests_to_process rs) ≡ false = ap (λ y. holds u y) e in
            let some_left = processed_holds u rs ∙ k in
            elim (true_is_not_false (sym some_left ∙ none_left)) [ ],
      )
  where
    true_is_not_false : true ≡ false → ⊥
    true_is_not_false k = cc
process_requests-Concluded s held by rs t q (r ∷ rest) x e h =
    let (v, f, g) = >>=-eq-ok (approve_via_policy s held (r ∷ rest) t).0 _ h in
    conclude-Concluded s.environment.now by rs q v x
      (λ valid failing affected k.
        subst (λ ps. Sound ps valid affected failing) (sym e)
          (approve_via_policy-Sound s held (r ∷ rest) valid failing affected t (f ∙ ap ok k)))
      (ap (λ ps. conclude s.environment.now by ps q v) e ∙ g)

-- When a bulk approval returns, every row of a request is as it was, or is approved by the reviewer
-- now, with an assignment, and then a given request of its key was in REQUESTED or ERROR.
pub approve_learner_credit_requests-AllFollow :
    (s : Setting) (held : List LockKey) (by : ℕ) (rs : List Request) (t : Table)
    (q q₁ : RequestTable) (answer : Answer) (actions : List RequestAction)
    → (approve_learner_credit_requests s held by rs t q).0 ≡ ok (answer, q₁, actions)
    → AllFollow by s.environment.now rs q q₁
unfolding approve_learner_credit_requests
approve_learner_credit_requests-AllFollow s held by rs t q q₁ answer actions h =
    (process_requests-Concluded s held by rs t q (requests_to_process rs) (answer, q₁, actions) refl
      h).0

-- When a bulk approval returns, no request is lost that it had to process: each given request in
-- REQUESTED or ERROR that has a row is among the approved rows or the failed approvals.
pub approve_learner_credit_requests-Accounted :
    (s : Setting) (held : List LockKey) (by : ℕ) (rs : List Request) (t : Table)
    (q q₁ : RequestTable) (answer : Answer) (actions : List RequestAction)
    → (approve_learner_credit_requests s held by rs t q).0 ≡ ok (answer, q₁, actions)
    → (u : ℕ) → processable u rs ≡ true
    → with_key u q ≡ true
    → (with_key u answer.approved_requests || holds u (listed answer.failed_approval)) ≡ true
unfolding approve_learner_credit_requests
approve_learner_credit_requests-Accounted s held by rs t q q₁ answer actions h =
    (process_requests-Concluded s held by rs t q (requests_to_process rs) (answer, q₁, actions) refl
      h).1

-- A bulk approval in which no given request is in REQUESTED or ERROR changes nothing, and the view
-- answers 200, although none is approved and all are in the answer as failed.
pub approve_learner_credit_requests-none_ready :
    (s : Setting) (held : List LockKey) (by : ℕ) (rs : List Request) (t : Table) (q : RequestTable)
    → any (λ r. is_approvable r.request_state) rs ≡ false
    → (approve_learner_credit_requests s held by rs t q
        ≡ (ok (nothing_to_process rs, q, []), held, t))
      × (approve_status (nothing_to_process rs) ≡ 200)
      × ((nothing_to_process rs).failed_all ≡ some (map (λ r. r.credit) rs))
unfolding approve_learner_credit_requests process_requests approve_status
approve_learner_credit_requests-none_ready s held by rs t q h =
    (ap (process_requests s held by rs t q) (nothing_left rs h), refl, refl)
  where
    nothing_left :
        (xs : List Request)
        → any (λ r. is_approvable r.request_state) xs ≡ false
        → requests_to_process xs ≡ []
    nothing_left [] k = refl
    nothing_left (x ∷ xs) k = elim (Bool-cases (is_approvable x.request_state)) [
      | inl ready ↦ let found = rw ready at k in cc
      | inr other ↦ rw other (nothing_left xs (rw other at k))
    ]
