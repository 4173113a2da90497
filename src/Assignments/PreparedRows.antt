-- ===== src/Assignments/PreparedRows.antt =====
-- The prepared copies of a set of rows, and the copy that the bulk update finds for a row.
use mathlib.Core.Path.{subst}
use enterprise_access.Prelude.{
  >>=-eq-ok, All, All-map, Bool, Bool-cases, Dict, List, Option, [], ap, arith, false, filter, find,
  if◌then◌else◌, inl, inr, none, not, ok, refl, some, sym, true, ℕ, ◌++◌, ◌==◌, ◌∙◌, ◌∷◌, ◌≡◌, ◌⊎◌,
}
use enterprise_access.Assignments.Types.{Assignment, Table, allocated, is_reallocatable}
use enterprise_access.Assignments.Cancellation.{same_row, set_of}
use enterprise_access.Assignments.Prepare.{Offer, Prepared, fill_lms_user_id, prepare, prepare_all}
use enterprise_access.Assignments.Allocate.{existing_emails, records_to_update}
use enterprise_access.Assignments.Emails.{member}
use enterprise_access.Assignments.PreparedFacts.{
  IsCopyOf, fill-IsCopyOf, is_live, renew-Renewed, restore-IsCopyOf,
}

abbrev pub In : Assignment → List Assignment → Type 0
In a [] = ⊥
In a (b ∷ rest) = (a ≡ b) ⊎ In a rest

-- No two have the same primary key.
abbrev pub Distinct : List Assignment → Type 0
Distinct [] = Unit {0}
Distinct (a ∷ rest) = All (λ b. same_row a b ≡ false) rest × Distinct rest

All-filter {κ} :
    (P : Assignment → Type κ) (q : Assignment → Bool) (xs : List Assignment)
    → All P xs
    → All P (filter q xs)
All-filter P q [] h = tt
All-filter P q (x ∷ xs) h = elim (Bool-cases (q x)) [
  | inl holds ↦ rw holds (h.0, All-filter P q xs h.1)
  | inr fails ↦ rw fails (All-filter P q xs h.1)
]

Distinct-filter :
    (q : Assignment → Bool) (xs : List Assignment) → Distinct xs → Distinct (filter q xs)
Distinct-filter q [] h = tt
Distinct-filter q (x ∷ xs) h = elim (Bool-cases (q x)) [
  | inl holds ↦ rw holds (All-filter (λ b. same_row x b ≡ false) q xs h.0, Distinct-filter q xs h.1)
  | inr fails ↦ rw fails (Distinct-filter q xs h.1)
]

others :
    (a : Assignment) (xs : List Assignment)
    → All (λ b. same_row a b ≡ false) (filter (λ b. not (same_row a b)) xs)
others a [] = tt
others a (x ∷ xs) = elim (Bool-cases (same_row a x)) [
  | inl same ↦ rw same (others a xs)
  | inr other ↦ rw other (other, others a xs)
]

pub Distinct-set_of : (xs : List Assignment) → Distinct (set_of xs)
unfolding set_of
Distinct-set_of [] = tt
Distinct-set_of (a ∷ xs) = (
  others a (set_of xs),
  Distinct-filter (λ b. not (same_row a b)) (set_of xs) (Distinct-set_of xs),
)

pub In-filter :
    (a : Assignment) (q : Assignment → Bool) (xs : List Assignment)
    → In a (filter q xs)
    → In a xs × (q a ≡ true)
In-filter a q [] h = elim h [ ]
In-filter a q (x ∷ xs) h = elim (Bool-cases (q x)) [
  | inl holds ↦ elim (rw holds at h) [
    | inl e ↦ (inl e, subst (λ y. q y ≡ true) (sym e) holds)
    | inr later ↦ let (i, k) = In-filter a q xs later in (inr i, k)
  ]
  | inr fails ↦ let (i, k) = In-filter a q xs (rw fails at h) in (inr i, k)
]

pub In-set_of : (a : Assignment) (xs : List Assignment) → In a (set_of xs) → In a xs
unfolding set_of
In-set_of a [] h = h
In-set_of a (x ∷ xs) (inl e) = inl e
In-set_of a (x ∷ xs) (inr h) =
    inr (In-set_of a xs (In-filter a (λ b. not (same_row x b)) (set_of xs) h).0)

pub In-append : (a : Assignment) (xs ys : List Assignment) → In a (xs ++ ys) → In a xs ⊎ In a ys
In-append a [] ys h = inr h
In-append a (x ∷ xs) ys (inl e) = inl (inl e)
In-append a (x ∷ xs) ys (inr h) = elim (In-append a xs ys h) [ inl i ↦ inl (inr i) | inr i ↦ inr i ]

-- What the loop has made of an assignment.
pub record Made (o : Offer) (a : Assignment) (p : Prepared) : Type 0 where
  pub copy : IsCopyOf a p
  pub live : is_live p.assignment.state ≡ true
  pub state_after : p.assignment.state ≡ (if is_reallocatable a.state then allocated else a.state)
  pub quantity_after :
      p.assignment.content_quantity
      ≡ (if is_reallocatable a.state then o.quantity else a.content_quantity)

abbrev pub to_write : Prepared → Option Assignment
to_write p = if p.needs_update then some p.assignment else none

pub All-In {κ} :
    (P : Assignment → Type κ) (a : Assignment) (xs : List Assignment) → In a xs → All P xs → P a
All-In P a [] i h = elim i [ ]
All-In P a (x ∷ xs) (inl e) h = subst P (sym e) h.0
All-In P a (x ∷ xs) (inr i) h = All-In P a xs i h.1

one_key :
    (x b : Assignment) (p : Prepared)
    → x.uuid ≡ b.uuid
    → p.assignment.uuid ≡ b.uuid
    → same_row x p.assignment ≡ true
one_key x b p e h = ground arith

two_keys :
    (x a b : Assignment) (p : Prepared)
    → x.uuid ≡ a.uuid
    → p.assignment.uuid ≡ b.uuid
    → same_row b a ≡ false
    → same_row x p.assignment ≡ false
two_keys x a b p e h apart = ground arith

apart_from :
    (x b : Assignment) (es : List Assignment)
    → x.uuid ≡ b.uuid
    → All (λ c. same_row b c ≡ false) es
    → All (λ c. same_row x c ≡ false) es
apart_from x b es e h =
    All-map (λ c. same_row b c ≡ false) (λ c. same_row x c ≡ false) (λ c k. ground (arith, k)) es h

find-skip :
    (x : Assignment) (p : Prepared) (qs : List Prepared) {r : Option Assignment}
    → same_row x p.assignment ≡ false
    → find (same_row x) (records_to_update qs) ≡ r
    → find (same_row x) (records_to_update (p ∷ qs)) ≡ r
find-skip x p qs other h = elim (Bool-cases p.needs_update) [
  | inl written ↦ rw written (rw other h)
  | inr idle ↦ rw idle h
]

find-here :
    (x : Assignment) (p : Prepared) (qs : List Prepared)
    → same_row x p.assignment ≡ true
    → find (same_row x) (records_to_update qs) ≡ none
    → find (same_row x) (records_to_update (p ∷ qs)) ≡ to_write p
find-here x p qs here none_later = elim (Bool-cases p.needs_update) [
  | inl written ↦ rw written (rw here refl)
  | inr idle ↦ rw idle none_later
]

module _ (lower : ℕ → ℕ) (ids emails : Dict ℕ) (now : ℕ) (t : Table) (o : Offer) where
  prepare-Made :
      (a : Assignment) (p : Prepared) → prepare lower ids emails now t o a ≡ ok p → Made o a p
  unfolding prepare
  prepare-Made a p h =
      let filled = fill-IsCopyOf lower ids emails a in
      let restored =
        restore-IsCopyOf lower ids emails a (fill_lms_user_id lower ids emails a) filled.0 in
      let (copy, live, state, quantity, _) =
        renew-Renewed lower ids emails a now t o _ p restored.0 h in
      let same_state = restored.1 ∙ filled.1 in
      let same_quantity = restored.2 ∙ filled.2 in
      record {
        copy = copy;
        live = live;
        state_after = state ∙ rw same_state refl;
        quantity_after = quantity ∙ rw (same_state, same_quantity) refl;
      }

  -- The loop, one assignment further.
  prepare_all-cons :
      (a : Assignment) (es : List Assignment) (ps : List Prepared)
      → prepare_all lower ids emails now t o (a ∷ es) ≡ ok ps
      → (p : Prepared) × (qs : List Prepared) × (ps ≡ p ∷ qs)
        × Made o a p
        × (prepare_all lower ids emails now t o es ≡ ok qs)
  unfolding prepare_all
  prepare_all-cons a es ps h =
      let (p, e, h₁) = >>=-eq-ok (prepare lower ids emails now t o a) _ h in
      let (qs, e₁, h₂) = >>=-eq-ok (prepare_all lower ids emails now t o es) _ h₁ in
      (p, qs, cc, prepare-Made a p e, e₁)

  prepare_all-nil : (ps : List Prepared) → prepare_all lower ids emails now t o [] ≡ ok ps → ps ≡ []
  unfolding prepare_all
  prepare_all-nil ps h = cc

  -- No copy is found for a row that is not among the prepared ones.
  pub absent :
      (x : Assignment) (es : List Assignment) (ps : List Prepared)
      → prepare_all lower ids emails now t o es ≡ ok ps
      → All (λ b. same_row x b ≡ false) es
      → find (same_row x) (records_to_update ps) ≡ none
  absent x [] ps h apart = rw (prepare_all-nil ps h) refl
  absent x (a ∷ es) ps h apart =
      let (p, qs, same, made, h₁) = prepare_all-cons a es ps h in
      let none_later = absent x es qs h₁ apart.1 in
      rw same (find-skip x p qs (rw made.copy.same_uuid apart.0) none_later)

  -- The copy that is found for a row with the key of a prepared one.
  pub found :
      (x a : Assignment) (es : List Assignment) (ps : List Prepared)
      → Distinct es
      → In a es
      → x.uuid ≡ a.uuid
      → prepare_all lower ids emails now t o es ≡ ok ps
      → (p : Prepared) × Made o a p × (find (same_row x) (records_to_update ps) ≡ to_write p)
  found x a [] ps apart h e made = elim h [ ]
  found x a (b ∷ es) ps apart (inl here) e h =
      let (p, qs, same, made, h₁) = prepare_all-cons b es ps h in
      (
        p,
        subst (λ c. Made o c p) (sym here) made,
        rw same (
            find-here x p qs (one_key x b p (e ∙ ap (λ c. c.uuid) here) made.copy.same_uuid)
              (absent x es qs h₁ (apart_from x b es (e ∙ ap (λ c. c.uuid) here) apart.0))),
      )
  found x a (b ∷ es) ps apart (inr later) e h =
      let (p, qs, same, made, h₁) = prepare_all-cons b es ps h in
      let (q, made_q, f) = found x a es qs apart.1 later e h₁ in
      (
        q,
        made_q,
        rw same (
            find-skip x p qs
              (two_keys x a b p e made.copy.same_uuid
                (All-In (λ c. same_row b c ≡ false) a es later apart.0))
              f),
      )

  -- An e-mail of the prepared assignments comes from one of them, and its copy is found.
  pub by_email :
      (k : ℕ) (es : List Assignment) (ps : List Prepared)
      → Distinct es
      → prepare_all lower ids emails now t o es ≡ ok ps
      → member k (existing_emails lower ps) ≡ true
      → (a : Assignment) × (p : Prepared) × In a es
        × Made o a p
        × ((lower p.assignment.learner_email == k) ≡ true)
        × (find (same_row a) (records_to_update ps) ≡ to_write p)
  by_email k [] ps apart h m = let e = rw (prepare_all-nil ps h) at m in cc
  by_email k (b ∷ es) ps apart h m =
      let (p, qs, same, made, h₁) = prepare_all-cons b es ps h in
      elim (Bool-cases (lower p.assignment.learner_email == k)) [
        | inl here ↦ (
          b,
          p,
          inl refl,
          made,
          here,
          ap (λ rs. find (same_row b) (records_to_update rs)) same
              ∙ find-here b p qs (one_key b b p refl made.copy.same_uuid)
                  (absent b es qs h₁ apart.0),
        )
        | inr other ↦
            let m₁ : member k (existing_emails lower (p ∷ qs)) ≡ true =
              subst (λ rs. member k (existing_emails lower rs) ≡ true) same m in
            let (a, q, i, made_q, e, f) = by_email k es qs apart.1 h₁ (rw other at m₁) in
            (
              a,
              q,
              inr i,
              made_q,
              e,
              ap (λ rs. find (same_row a) (records_to_update rs)) same
                  ∙ find-skip a p qs
                      (two_keys a a b p refl made.copy.same_uuid
                        (All-In (λ c. same_row b c ≡ false) a es i apart.0))
                      f,
            )
      ]
