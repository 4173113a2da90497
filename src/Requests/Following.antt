-- ===== src/Requests/Following.antt =====
-- The rows and the answer that a bulk approval concludes with (subsidy_request/api.py).
use mathlib.Core.Path.{subst}
use enterprise_access.Prelude.{
  ==_iff, >>=-eq-ok, Bool, Bool-cases, List, Option, Result, [], any, ap, arith, false, filter,
  find, inl, inr, is_some, map, none, ok, refl, some, sym, true, ℕ, ◌&&◌, ◌==◌, ◌||◌, ◌∙◌, ◌∷◌, ◌≡◌,
  ◌⊎◌,
}
use enterprise_access.Assignments.Types.{Assignment, Error}
use enterprise_access.Policy.Allocation.{CreditRequest}
use enterprise_access.Requests.Types.{Request, RequestTable, approved, is_approvable}
use enterprise_access.Requests.Allocation.{assignment_of}
use enterprise_access.Requests.Approval.{
  Answer, Decision, RequestAction, all_assigned, approve_row, approve_with, conclude, decided,
  has_shared_assignment, is_one_of, refused, requests_to_process, update_requests, uuid_of,
}
use enterprise_access.Requests.Partition.{Sound, holds}

-- A given request with the key is in REQUESTED or ERROR.
abbrev pub processable : ℕ → List Request → Bool
processable u rs = any (λ r. is_approvable r.request_state && r.credit.request_uuid == u) rs

abbrev pub with_key : ℕ → List Request → Bool
with_key u q = any (λ r. r.credit.request_uuid == u) q

abbrev pub listed : Option (List CreditRequest) → List CreditRequest
listed none = []
listed (some rs) = rs

pub processed_holds :
    (u : ℕ) (rs : List Request) → holds u (requests_to_process rs) ≡ processable u rs
processed_holds u [] = refl
processed_holds u (r ∷ rs) = elim (Bool-cases (is_approvable r.request_state)) [
  | inl ready ↦ rw ready (ap (λ b. (r.credit.request_uuid == u) || b) (processed_holds u rs))
  | inr other ↦ rw other (processed_holds u rs)
]

-- The row of an approved request.
pub record IsApproved (by now : ℕ) (x : Request) : Type 0 where
  pub in_state : x.request_state ≡ approved
  pub by_reviewer : x.reviewer ≡ some by
  pub at_time : x.reviewed_at ≡ some now
  pub has_assignment : is_some x.assigned_uuid ≡ true

-- A row after an approval: as before, or approved out of the given requests that could be.
abbrev pub Follows : ℕ → ℕ → List Request → Request → Request → Type 0
Follows by now rs x y =
    (y ≡ x) ⊎ ((processable x.credit.request_uuid rs ≡ true) × IsApproved by now y)

find-member :
    (u : ℕ) (rs : List CreditRequest) (v : CreditRequest) (affected : List Assignment)
    → find (λ x. x.request_uuid == u) rs ≡ some v
    → all_assigned affected rs ≡ true
    → (holds u rs ≡ true) × (is_some (assignment_of affected v) ≡ true)
find-member u [] v affected h all = cc
find-member u (r ∷ rs) v affected h all = elim (Bool-cases (r.request_uuid == u)) [
  | inl here ↦
      let h₁ = rw here at h in
      let itself : r ≡ v = cc in
      (
        rw here refl,
        subst (λ x. is_some (assignment_of affected x) ≡ true) itself (ground (arith, all)),
      )
  | inr other ↦
      let (k, a) = find-member u rs v affected (rw other at h) (ground (arith, all)) in
      (rw (other, k) refl, a)
]

has_uuid : (o : Option Assignment) → is_some o ≡ true → is_some (uuid_of o) ≡ true
has_uuid none h = cc
has_uuid (some b) h = refl

approve_with-Follows :
    (now by : ℕ) (rs : List Request) (valid failing : List CreditRequest)
    (affected : List Assignment) (x : Request) (o : Option CreditRequest)
    → Sound (requests_to_process rs) valid affected failing
    → find (λ v. v.request_uuid == x.credit.request_uuid) valid ≡ o
    → Follows by now rs x (approve_with now by affected x o)
approve_with-Follows now by rs valid failing affected x none z e = inl refl
approve_with-Follows now by rs valid failing affected x (some v) z e =
    let (k, a) = find-member x.credit.request_uuid valid v affected e z.assigned in
    inr (
      sym (processed_holds x.credit.request_uuid rs) ∙ z.splits.from_batch x.credit.request_uuid k,
      record {
        in_state = refl;
        by_reviewer = refl;
        at_time = refl;
        has_assignment = has_uuid (assignment_of affected v) a;
      },
    )

approve_row-Follows :
    (now by : ℕ) (rs : List Request) (valid failing : List CreditRequest)
    (affected : List Assignment) (x : Request)
    → Sound (requests_to_process rs) valid affected failing
    → Follows by now rs x (approve_row now by valid affected x)
unfolding approve_row
approve_row-Follows now by rs valid failing affected x z =
    approve_with-Follows now by rs valid failing affected x
      (find (λ v. v.request_uuid == x.credit.request_uuid) valid) z refl

-- The rows of a table that follows another.
abbrev pub AllFollow : ℕ → ℕ → List Request → RequestTable → RequestTable → Type 0
AllFollow by now rs [] [] = Unit {0}
AllFollow by now rs [] (y ∷ ys) = ⊥
AllFollow by now rs (x ∷ xs) [] = ⊥
AllFollow by now rs (x ∷ xs) (y ∷ ys) = Follows by now rs x y × AllFollow by now rs xs ys

map-AllFollow :
    (by now : ℕ) (rs : List Request) (f : Request → Request) (q : RequestTable)
    → ((x : Request) → Follows by now rs x (f x))
    → AllFollow by now rs q (map f q)
map-AllFollow by now rs f [] h = tt
map-AllFollow by now rs f (x ∷ q) h = (h x, map-AllFollow by now rs f q h)

pub stay : (by now : ℕ) (rs : List Request) (q : RequestTable) → AllFollow by now rs q q
stay by now rs [] = tt
stay by now rs (x ∷ q) = (inl refl, stay by now rs q)

-- Each key is among the approved rows or the failed requests.
abbrev pub Accounted : List Request → RequestTable → Answer → Type 0
Accounted rs q answer =
    (u : ℕ)
    → processable u rs ≡ true
    → with_key u q ≡ true
    → (with_key u answer.approved_requests || holds u (listed answer.failed_approval)) ≡ true

approve_row-key :
    (now by : ℕ) (valid : List CreditRequest) (affected : List Assignment) (x : Request)
    → (approve_row now by valid affected x).credit ≡ x.credit
unfolding approve_row
approve_row-key now by valid affected x =
    by_found (find (λ v. v.request_uuid == x.credit.request_uuid) valid)
  where
    by_found : (o : Option CreditRequest) → (approve_with now by affected x o).credit ≡ x.credit
    by_found none = refl
    by_found (some v) = refl

refreshed_key :
    (now by u : ℕ) (valid : List CreditRequest) (affected : List Assignment) (q : RequestTable)
    → holds u valid ≡ true
    → with_key u q ≡ true
    → with_key u (filter (is_one_of valid) (map (approve_row now by valid affected) q)) ≡ true
refreshed_key now by u valid affected [] h k = cc
refreshed_key now by u valid affected (x ∷ q) h k =
    let same = approve_row-key now by valid affected x in
    elim (Bool-cases (x.credit.request_uuid == u)) [
      | inl here ↦
          let itself : x.credit.request_uuid ≡ u = (==_iff x.credit.request_uuid u).0 here in
          let chosen : is_one_of valid x ≡ true =
            subst (λ y. holds y valid ≡ true) (sym itself) h in
          rw (same, chosen, here) refl
      | inr other ↦ elim (Bool-cases (is_one_of valid x)) [
        | inl chosen ↦
            rw (same, chosen, other) (refreshed_key now by u valid affected q h (rw other at k))
        | inr left_out ↦
            rw (same, left_out) (refreshed_key now by u valid affected q h (rw other at k))
      ]
    ]

-- What a conclusion says of every request.
abbrev pub Concluded :
    ℕ → ℕ → List Request → RequestTable → Answer × RequestTable × List RequestAction → Type 0
Concluded by now rs q (answer, q₁, actions) = AllFollow by now rs q q₁ × Accounted rs q answer

pub same_value {ℓ} : {A : Type ℓ} (a b : A) → ◌≡◌ {A = Result Error A} (ok a) (ok b) → a ≡ b
same_value a b k = cc

nobody :
    (now by : ℕ) (affected : List Assignment) (u : RequestTable)
    → map (approve_row now by [] affected) u ≡ u
unfolding approve_row
nobody now by affected [] = refl
nobody now by affected (x ∷ u) = ap (λ v. x ∷ v) (nobody now by affected u)

-- The rows after the bulk update.
updated :
    (now by : ℕ) (valid : List CreditRequest) (affected : List Assignment) (q q₁ : RequestTable)
    → update_requests now by valid affected q ≡ ok q₁
    → q₁ ≡ map (approve_row now by valid affected) q
updated now by [] affected q q₁ h = sym (same_value q q₁ h) ∙ sym (nobody now by affected q)
updated now by (r ∷ rs) affected q q₁ h =
    elim (Bool-cases (has_shared_assignment (map (approve_row now by (r ∷ rs) affected) q))) [
      | inl shared ↦ let h₁ = rw shared at h in cc
      | inr fine ↦
          let h₁ = rw fine at h in
          sym (same_value (map (approve_row now by (r ∷ rs) affected) q) q₁ h₁)
    ]

pub conclude-Concluded :
    (now by : ℕ) (rs : List Request) (q : RequestTable) (v : Decision)
    (x : Answer × RequestTable × List RequestAction)
    → ((valid failing : List CreditRequest) (affected : List Assignment)
        → v ≡ decided valid affected failing
        → Sound (requests_to_process rs) valid affected failing)
    → conclude now by (requests_to_process rs) q v ≡ ok x
    → Concluded by now rs q x
conclude-Concluded now by rs q refused x z h =
    subst (λ y. Concluded by now rs q y) (same_value _ x h)
      (stay by now rs q, λ u k l. processed_holds u rs ∙ k)
conclude-Concluded now by rs q (decided valid affected failing) x z h =
    let sound = z valid failing affected refl in
    let (q₁, written, left) = >>=-eq-ok (update_requests now by valid affected q) _ h in
    let rows = updated now by valid affected q q₁ written in
    subst (λ y. Concluded by now rs q y) (same_value _ x left)
      (
        subst (λ y. AllFollow by now rs q y) (sym rows)
            (map-AllFollow by now rs (approve_row now by valid affected) q
              (λ y. approve_row-Follows now by rs valid failing affected y sound)),
        λ u k l.
            or_map_left (holds u valid) _ (holds u failing)
              (sound.splits.covers u (processed_holds u rs ∙ k))
              (λ i.
                subst (λ y. with_key u (filter (is_one_of valid) y) ≡ true) (sym rows)
                  (refreshed_key now by u valid affected q i l)),
      )
  where
    or_map_left : (a b c : Bool) → (a || c) ≡ true → (a ≡ true → b ≡ true) → (b || c) ≡ true
    or_map_left true b c m f = rw (f refl) refl
    or_map_left false b true m f = ground arith
    or_map_left false b false m f = ground arith
