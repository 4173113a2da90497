-- ===== src/Assignments/Served.antt =====
-- The rows that serve an e-mail of an allocation (content_assignments/api.py).
use mathlib.Core.Path.{subst}
use enterprise_access.Prelude.{
  ==_iff, ==_refl, Bool, Bool-cases, Dict, List, Option, [], any, ap, arith, false, filter, inl,
  inr, map, refl, some, true, values, ℕ, ◌&&◌, ◌+◌, ◌==◌, ◌||◌, ◌∷◌, ◌≡◌,
}
use enterprise_access.Assignments.Types.{Assignment, Summary, Table}
use enterprise_access.Assignments.Lookup.{in_config}
use enterprise_access.Assignments.Emails.{deduplicate_from, inexact_email, member}
use enterprise_access.Assignments.Prepare.{Offer, Prepared}
use enterprise_access.Assignments.Allocate.{
  Environment, emails_to_create, get_assignments_for_admin, get_existing_assignments_for_allocation,
  id_among, new_assignments, write_reallocation,
}
use enterprise_access.Assignments.PreparedFacts.{is_live}
use enterprise_access.Assignments.PreparedRows.{
  Distinct, Distinct-set_of, In, In-append, In-filter, In-set_of, Made, to_write,
}

or_true : (b : Bool) → (b || true) ≡ true
or_true true = refl
or_true false = refl

-- A case of each side.
pub or_map :
    {a b c d : Bool}
    → (a || b) ≡ true
    → (a ≡ true → c ≡ true)
    → (b ≡ true → d ≡ true)
    → (c || d) ≡ true
or_map {a = true} {d = d} h f g = rw (f refl) refl
or_map {a = false} {c = c} h f g = rw (g h) (or_true c)

-- A row of the configuration and the content for an e-mail, allocated or accepted.
abbrev pub serves : (ℕ → ℕ) → ℕ → ℕ → ℕ → Assignment → Bool
serves lower config key e a =
    in_config (some config) a
    && (a.content_key == key)
    && (lower a.learner_email == lower e)
    && is_live a.state

pub kept_or_seen :
    (lower : ℕ → ℕ) (seen emails : List ℕ) (e : ℕ)
    → member e emails ≡ true
    → (member (lower e) seen || member (lower e) (map lower (deduplicate_from lower seen emails)))
      ≡ true
unfolding deduplicate_from
kept_or_seen lower seen [] e h = cc
kept_or_seen lower seen (x ∷ emails) e h = elim (Bool-cases (x == e)) [
  | inl here ↦
      let same : x ≡ e = (==_iff x e).0 here in
      elim (Bool-cases (member (lower x) seen)) [
        | inl known ↦ rw (← same) (rw known refl)
        | inr fresh ↦ rw (← same) (rw (fresh, ==_refl (lower x)) refl)
      ]
  | inr other ↦ elim (Bool-cases (member (lower x) seen)) [
    | inl known ↦ rw known (kept_or_seen lower seen emails e (rw other at h))
    | inr fresh ↦ rw fresh (
        moved (lower x == lower e) (member (lower e) seen)
          (member (lower e) (map lower (deduplicate_from lower (lower x ∷ seen) emails)))
          (kept_or_seen lower (lower x ∷ seen) emails e (rw other at h)))
  ]
]
  where
    moved : (a b c : Bool) → ((a || b) || c) ≡ true → (b || (a || c)) ≡ true
    moved a b c k = ground arith

pub any-In :
    (q : Assignment → Bool) (a : Assignment) (xs : List Assignment)
    → In a xs
    → q a ≡ true
    → any q xs ≡ true
any-In q a [] i h = elim i [ ]
any-In q a (x ∷ xs) (inl e) h = let k = subst (λ y. q y ≡ true) e h in rw k refl
any-In q a (x ∷ xs) (inr i) h = ground (arith, any-In q a xs i h)

pub In-map :
    (f : Assignment → Assignment) (a : Assignment) (xs : List Assignment)
    → In a xs
    → In (f a) (map f xs)
In-map f a [] i = elim i [ ]
In-map f a (x ∷ xs) (inl e) = inl (ap f e)
In-map f a (x ∷ xs) (inr i) = inr (In-map f a xs i)

-- The row of a prepared assignment serves the e-mail that the copy has.
pub written-serves :
    (lower : ℕ → ℕ) (config key e now : ℕ) (o : Offer) (a : Assignment) (p : Prepared)
    → Made o a p
    → in_config (some config) a ≡ true
    → (a.content_key == key) ≡ true
    → (lower p.assignment.learner_email == lower e) ≡ true
    → serves lower config key e (write_reallocation now (to_write p) a) ≡ true
written-serves lower config key e now o a p made here same_content same =
    elim (Bool-cases p.needs_update) [
      | inl written ↦ rw written (rw (here, same_content, same, made.live) refl)
      | inr idle ↦
          let email = rw idle at made.copy.email in
          let standing = rw idle at made.copy.standing in
          rw idle (rw (here, same_content, email, same, standing, made.live) refl)
    ]

-- The assignments that an allocation looks at are rows of its configuration and content.
pub existing-In :
    (lower : ℕ → ℕ) (config : ℕ) (emails : List ℕ) (key : ℕ) (ids : Dict ℕ) (t : Table)
    (a : Assignment)
    → In a (get_existing_assignments_for_allocation lower (some config) emails key ids t)
    → In a t × (in_config (some config) a ≡ true) × ((a.content_key == key) ≡ true)
unfolding get_existing_assignments_for_allocation get_assignments_for_admin
existing-In lower config emails key ids t a i =
    elim (In-append a
      (filter
        (λ b.
          in_config (some config) b
          && inexact_email lower emails b.learner_email
          && b.content_key == key)
        t)
      _ (In-set_of a _ i)) [
        | inl j ↦
            let (k, h) =
              In-filter a
                (λ b.
                  in_config (some config) b
                  && inexact_email lower emails b.learner_email
                  && b.content_key == key)
                t j in
            (k, ground (arith, h), ground (arith, h))
        | inr j ↦
            let (k, h) =
              In-filter a
                (λ b.
                  in_config (some config) b
                  && id_among (values ids) b.lms_user_id
                  && b.content_key == key)
                t j in
            (k, ground (arith, h), ground (arith, h))
      ]

pub created_or_existing :
    (lower : ℕ → ℕ) (existing : List ℕ) (k : ℕ) (emails : List ℕ)
    → member k (map lower emails) ≡ true
    → (member k existing || member k (map lower (emails_to_create lower existing emails))) ≡ true
created_or_existing lower existing k [] h = cc
created_or_existing lower existing k (x ∷ emails) h = elim (Bool-cases (lower x == k)) [
  | inl here ↦
      let same : lower x ≡ k = (==_iff (lower x) k).0 here in
      elim (Bool-cases (member (lower x) existing)) [
        | inl known ↦ let e = subst (λ y. member y existing ≡ true) same known in rw e refl
        | inr fresh ↦ rw fresh (rw here (or_true (member k existing)))
      ]
  | inr other ↦ elim (Bool-cases (member (lower x) existing)) [
    | inl known ↦ rw known (created_or_existing lower existing k emails (rw other at h))
    | inr fresh ↦ rw (fresh, other) (created_or_existing lower existing k emails (rw other at h))
  ]
]

pub new-serves :
    (env : Environment) (config key : ℕ) (m : Summary) (o : Offer) (ids : Dict ℕ) (admin : Option ℕ)
    (e n : ℕ) (emails : List ℕ)
    → member (env.lower e) (map env.lower emails) ≡ true
    → any (serves env.lower config key e) (new_assignments env config key m o ids admin n emails)
      ≡ true
unfolding new_assignments
new-serves env config key m o ids admin e n [] h = cc
new-serves env config key m o ids admin e n (x ∷ emails) h =
    elim (Bool-cases (env.lower x == env.lower e)) [
      | inl here ↦ rw (==_refl config, ==_refl key, here) refl
      | inr other ↦ rw other (
          rw (new-serves env config key m o ids admin e (n + 1) emails (rw other at h)) (or_true _))
    ]

pub existing-Distinct :
    (lower : ℕ → ℕ) (config : ℕ) (emails : List ℕ) (key : ℕ) (ids : Dict ℕ) (t : Table)
    → Distinct (get_existing_assignments_for_allocation lower (some config) emails key ids t)
unfolding get_existing_assignments_for_allocation
existing-Distinct lower config emails key ids t = Distinct-set_of _
