-- ===== src/Assignments/PreparedFacts.antt =====
-- What `prepare` keeps of an assignment, and in which state it leaves it.
use mathlib.Core.Path.{subst}
use enterprise_access.Prelude.{
  >>=-eq-ok, Bool, Bool-cases, Dict, Option-cases, arith, false, if◌then◌else◌, inl, inr, not, ok,
  refl, sym, true, ℕ, ◌&&◌, ◌||◌, ◌∙◌, ◌≡◌,
}
use enterprise_access.Assignments.Types.{
  Assignment, State, Table, allocated, is_accepted, is_allocated, is_expired, is_reallocatable,
}
use enterprise_access.Assignments.Prepare.{
  Offer, Prepared, fill_lms_user_id, full_clean, new_email, outdated, reallocate_assignment,
  reallocated, renew, restore_email, updated_keys,
}

abbrev pub is_live : State → Bool
is_live s = is_allocated s || is_accepted s

-- The copy that the row of an assignment agrees with after the update.
abbrev pub effective : Assignment → Prepared → Assignment
effective a p = if p.needs_update then p.assignment else a

-- A prepared copy of a row: the same row, and the row after the update will agree with it.
pub record IsCopyOf (a : Assignment) (p : Prepared) : Type 0 where
  pub same_uuid : p.assignment.uuid ≡ a.uuid
  pub same_config : p.assignment.assignment_configuration ≡ a.assignment_configuration
  pub same_key : p.assignment.content_key ≡ a.content_key
  pub email : (effective a p).learner_email ≡ p.assignment.learner_email
  pub standing : (effective a p).state ≡ p.assignment.state
  pub amount : (effective a p).content_quantity ≡ p.assignment.content_quantity

-- What the branches by state have made of a copy.
abbrev pub Renewed : Assignment → Offer → Prepared → Prepared → Type 0
Renewed a o p q =
    IsCopyOf a q
    × (is_live q.assignment.state ≡ true)
    × (q.assignment.state
        ≡ (if is_reallocatable p.assignment.state then allocated else p.assignment.state))
    × (q.assignment.content_quantity ≡ (
        if is_reallocatable p.assignment.state then o.quantity else p.assignment.content_quantity))
    × ((is_reallocatable p.assignment.state && not q.needs_update) ≡ false)

reallocated-Renewed :
    (a : Assignment) (now : ℕ) (o : Offer) (p : Prepared)
    → IsCopyOf a p
    → is_reallocatable p.assignment.state ≡ true
    → Renewed a o p (record { assignment = reallocated now o p.assignment; needs_update = true })
reallocated-Renewed a now o p h again =
    rw again (ground (arith, h.same_uuid, h.same_config, h.same_key))

kept-Renewed :
    (a : Assignment) (o : Offer) (p : Prepared)
    → IsCopyOf a p
    → is_reallocatable p.assignment.state ≡ false
    → is_allocated p.assignment.state ≡ false
    → Renewed a o p p
kept-Renewed a o p h other unallocated = (
  h,
  other_live p.assignment.state other unallocated,
  rw other refl,
  rw other refl,
  rw other refl,
)
  where
    other_live :
        (s : State) → is_reallocatable s ≡ false → is_allocated s ≡ false → is_live s ≡ true
    other_live s other_ unallocated_ = ground arith

-- Another flag, or other keys of the content.
wider-IsCopyOf :
    (a b : Assignment) (p : Prepared) (more : Bool)
    → IsCopyOf a p
    → b.uuid ≡ p.assignment.uuid
    → b.assignment_configuration ≡ p.assignment.assignment_configuration
    → b.content_key ≡ p.assignment.content_key
    → b.learner_email ≡ p.assignment.learner_email
    → b.state ≡ p.assignment.state
    → b.content_quantity ≡ p.assignment.content_quantity
    → IsCopyOf a (record { assignment = b; needs_update = p.needs_update || more })
wider-IsCopyOf a b p more h e₁ e₂ e₃ e₄ e₅ e₆ = record {
  same_uuid = e₁ ∙ h.same_uuid;
  same_config = e₂ ∙ h.same_config;
  same_key = e₃ ∙ h.same_key;
  email = joined (λ x. x.learner_email) h.email e₄;
  standing = joined (λ x. x.state) h.standing e₅;
  amount = joined (λ x. x.content_quantity) h.amount e₆;
}
  where
    split :
        {X : Type 0} (f : Assignment → X) (n m : Bool) (x y z : Assignment)
        → f (if n then y else x) ≡ f y
        → f z ≡ f y
        → f (if n || m then z else x) ≡ f z
    split f true m x y z k e = refl
    split f false true x y z k e = refl
    split f false false x y z k e = k ∙ sym e

    joined :
        {X : Type 0} (f : Assignment → X)
        → f (effective a p) ≡ f p.assignment
        → f b ≡ f p.assignment
        → f (effective a (record { assignment = b; needs_update = p.needs_update || more })) ≡ f b
    joined f k e = split f p.needs_update more a p.assignment b k e

updated-Renewed :
    (lower : ℕ → ℕ) (ids emails : Dict ℕ) (a : Assignment) (o : Offer) (p : Prepared)
    → IsCopyOf a p
    → is_reallocatable p.assignment.state ≡ false
    → is_allocated p.assignment.state ≡ true
    → Renewed a o p (record {
      assignment = updated_keys lower ids emails o p.assignment;
      needs_update = p.needs_update || outdated lower ids emails o p.assignment;
    })
updated-Renewed lower ids emails a o p h other live = (
  wider-IsCopyOf a _ p (outdated lower ids emails o p.assignment) h refl refl refl refl refl refl,
  rw live refl,
  rw other refl,
  rw other refl,
  rw other refl,
)

module _ (lower : ℕ → ℕ) (ids emails : Dict ℕ) (a : Assignment) where
  pub fill-IsCopyOf :
      IsCopyOf a (fill_lms_user_id lower ids emails a)
      × ((fill_lms_user_id lower ids emails a).assignment.state ≡ a.state)
      × ((fill_lms_user_id lower ids emails a).assignment.content_quantity ≡ a.content_quantity)
  unfolding fill_lms_user_id
  fill-IsCopyOf = ground arith

  pub restore-IsCopyOf :
      (p : Prepared)
      → IsCopyOf a p
      → IsCopyOf a (restore_email lower ids emails p)
        × ((restore_email lower ids emails p).assignment.state ≡ p.assignment.state)
        × ((restore_email lower ids emails p).assignment.content_quantity
            ≡ p.assignment.content_quantity)
  unfolding restore_email
  restore-IsCopyOf p h = elim (Bool-cases (is_expired p.assignment.state)) [
    | inr other ↦ rw other (h, refl, refl)
    | inl gone ↦ elim (Option-cases (new_email lower ids emails p.assignment)) [
      | inl none_ ↦ rw (gone, none_) (h, refl, refl)
      | inr (e, found) ↦ rw (gone, found) (ground (arith, h.same_uuid, h.same_config, h.same_key))
    ]
  ]

  pub renew-Renewed :
      (now : ℕ) (t : Table) (o : Offer) (p q : Prepared)
      → IsCopyOf a p
      → renew lower ids emails now t o p ≡ ok q
      → Renewed a o p q
  unfolding renew reallocate_assignment
  renew-Renewed now t o p q h e = elim (Bool-cases (is_reallocatable p.assignment.state)) [
    | inl again ↦
        let (b, e₁, e₂) =
          >>=-eq-ok (reallocate_assignment now t o p.assignment) _ (rw again at e) in
        let (_, _, e₃) = >>=-eq-ok (full_clean t (reallocated now o p.assignment)) _ e₁ in
        subst (Renewed a o p) (cc) (reallocated-Renewed a now o p h again)
    | inr other ↦ elim (Bool-cases (is_allocated p.assignment.state)) [
      | inl live ↦
          let e₁ = rw (other, live) at e in
          subst (Renewed a o p) (cc) (updated-Renewed lower ids emails a o p h other live)
      | inr unallocated ↦
          let e₁ = rw (other, unallocated) at e in
          subst (Renewed a o p) (cc) (kept-Renewed a o p h other unallocated)
    ]
  ]
