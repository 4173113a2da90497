-- ===== src/Policy/Once.antt =====
-- A second redemption of an assignment: what it finds.
use mathlib.Core.Path.{subst}
use enterprise_access.Prelude.{
  >>=-eq-ok, Bool, Bool-cases, List, Option, Result, [], ap, arith, err, false, filter,
  if◌then◌else◌, inl, inr, none, ok, refl, some, suc, sym, true, zero, ℕ, ◌==◌, ◌∙◌, ◌∷◌, ◌≡◌, ◌⊎◌,
}
use enterprise_access.Assignments.Types.{
  Assignment, Error, Summary, Table, is_allocated, missing_assignment,
}
use enterprise_access.Assignments.Lookup.{
  Got, does_not_exist, get_assignment_for_learner, get_by_normalized_key, get_row,
  matches_either_key, matches_key, multiple_objects_returned, one,
}
use enterprise_access.Assignments.Actions.{add_successful}
use enterprise_access.Policy.Types.{Policy, Services, Transaction}
use enterprise_access.Policy.CanRedeem.{customer_summary, get_assignment}
use enterprise_access.Policy.Redeem.{
  Ledger, assigned_redeem, mark_accepted, redeem_found, save_assignment,
}
use enterprise_access.Policy.Redemption.{Ends, QuietLookup, assigned_redeem_lem}

-- The only row with the key of an assignment is the assignment: the key is primary.
abbrev pub Only : Assignment → Table → Type 0
Only a [] = Unit {0}
Only a (b ∷ t) = (b.uuid ≡ a.uuid → b ≡ a) × Only a t

same_verdict :
    (m : Assignment → Bool) (a a' b : Assignment)
    → m a' ≡ m a
    → a'.uuid ≡ a.uuid
    → (b.uuid ≡ a.uuid → b ≡ a)
    → m (if b.uuid == a'.uuid then a' else b) ≡ m b
same_verdict m a a' b e u only = elim (Bool-cases (b.uuid == a'.uuid)) [
  | inl same ↦ rw same (e ∙ sym (ap m (only (ground arith))))
  | inr other ↦ rw other refl
]

save_head :
    (a' b : Assignment) (rest : Table) (keep : Bool)
    → (if keep
        then (if b.uuid == a'.uuid then a' else b) ∷ save_assignment a' rest
        else save_assignment a' rest)
      ≡ save_assignment a' (if keep then b ∷ rest else rest)
unfolding save_assignment
save_head a' b rest true = refl
save_head a' b rest false = refl

filter-save :
    (m : Assignment → Bool) (a a' : Assignment) (t : Table)
    → a'.uuid ≡ a.uuid
    → m a' ≡ m a
    → Only a t
    → filter m (save_assignment a' t) ≡ save_assignment a' (filter m t)
unfolding save_assignment
filter-save m a a' [] u e only = refl
filter-save m a a' (b ∷ t) u e only =
    rw (same_verdict m a a' b e u only.0, filter-save m a a' t u e only.1)
      (save_head a' b (filter m t) (m b))

-- A query that finds one row finds it again when it has been written back with the key that
-- selects it unchanged; a query that finds none still finds none.
abbrev pub with_saved : Assignment → Got → Got
with_saved a' (one a) = one a'
with_saved a' g = g

got_one : (a : Assignment) (xs : Table) → get_row xs ≡ one a → xs ≡ a ∷ []
got_one a [] h = cc
got_one a (b ∷ []) h = cc
got_one a (b ∷ c ∷ xs) h = cc

got_none : (xs : Table) → get_row xs ≡ does_not_exist → xs ≡ []
got_none [] h = refl
got_none (b ∷ []) h = cc
got_none (b ∷ c ∷ xs) h = cc

save_single : (a a' : Assignment) → a'.uuid ≡ a.uuid → save_assignment a' (a ∷ []) ≡ a' ∷ []
unfolding save_assignment
save_single a a' u = ground arith

module _ (m : Assignment → Bool) (a a' : Assignment) (t : Table) (u : a'.uuid ≡ a.uuid)
    (e : m a' ≡ m a) (only : Only a t) where
  get-save_one : get_row (filter m t) ≡ one a → get_row (filter m (save_assignment a' t)) ≡ one a'
  get-save_one h =
      rw (filter-save m a a' t u e only, got_one a (filter m t) h, save_single a a' u) refl

  get-save_none :
      get_row (filter m t) ≡ does_not_exist
      → get_row (filter m (save_assignment a' t)) ≡ does_not_exist
  unfolding save_assignment
  get-save_none h = rw (filter-save m a a' t u e only, got_none (filter m t) h) refl

-- The fields by which an assignment is looked up.
pub record SameKeys (a a' : Assignment) : Type 0 where
  pub same_uuid : a'.uuid ≡ a.uuid
  pub same_config : a'.assignment_configuration ≡ a.assignment_configuration
  pub same_learner : a'.lms_user_id ≡ a.lms_user_id
  pub same_content : a'.content_key ≡ a.content_key
  pub same_parent : a'.parent_content_key ≡ a.parent_content_key

mark_accepted-SameKeys :
    (now key : ℕ) (tx : Option ℕ) (a : Assignment) → SameKeys a (mark_accepted now key tx a)
unfolding mark_accepted add_successful
mark_accepted-SameKeys now key tx a = ground arith

Got-cases :
    (g : Got)
    → (g ≡ does_not_exist) ⊎ (g ≡ multiple_objects_returned) ⊎ ((b : Assignment) × (g ≡ one b))
Got-cases does_not_exist = inl refl
Got-cases multiple_objects_returned = inr (inl refl)
Got-cases (one b) = inr (inr (b, refl))

matches_key-SameKeys :
    (config : Option ℕ) (u k : ℕ) (a a' : Assignment)
    → SameKeys a a'
    → matches_key config u k a' ≡ matches_key config u k a
matches_key-SameKeys config u k a a' s = rw (s.same_content, s.same_config, s.same_learner) refl

matches_either_key-SameKeys :
    (config : Option ℕ) (u k : ℕ) (a a' : Assignment)
    → SameKeys a a'
    → matches_either_key config u k a' ≡ matches_either_key config u k a
matches_either_key-SameKeys config u k a a' s =
    rw (s.same_content, s.same_parent, s.same_config, s.same_learner) refl

module _ (summary : ℕ → Result Error Summary) (config : Option ℕ) (u key : ℕ) (a a' : Assignment)
    (t : Table) (same : SameKeys a a') (only : Only a t) where
  normalized-save :
      (k : Option ℕ)
      → get_by_normalized_key config u k t ≡ ok (some a)
      → get_by_normalized_key config u k (save_assignment a' t) ≡ ok (some a')
  unfolding get_by_normalized_key
  normalized-save none h = cc
  normalized-save (some zero) h = cc
  normalized-save (some (suc k)) h =
      elim (Got-cases (get_row (filter (matches_key config u (suc k)) t))) [
        | inl e ↦ absurd (ground arith)
        | inr (inl e) ↦ absurd (ground arith)
        | inr (inr (b, e)) ↦
            let b≡a : b ≡ a = (ground arith) in
            rw
              (
                get-save_one (matches_key config u (suc k)) a a' t same.same_uuid
                    (matches_key-SameKeys config u (suc k) a a' same) only (e ∙ ap one b≡a),
                get_by_normalized_key,
              )
              refl
      ]

  lookup-save :
      get_assignment_for_learner summary config u key t ≡ ok (some a)
      → get_assignment_for_learner summary config u key (save_assignment a' t) ≡ ok (some a')
  unfolding get_assignment_for_learner
  lookup-save h = elim (Got-cases (get_row (filter (matches_either_key config u key) t))) [
    | inl e ↦
        let (s, es, h₁) = >>=-eq-ok (summary key) _ (rw (e, get_assignment_for_learner) at h) in
        rw
          (
            get-save_none (matches_either_key config u key) a a' t same.same_uuid
                (matches_either_key-SameKeys config u key a a' same) only e,
            get_assignment_for_learner,
            es,
          )
          (normalized-save s.summary_content_key h₁)
    | inr (inl e) ↦ absurd (ground arith)
    | inr (inr (b, e)) ↦
        let b≡a : b ≡ a = (ground arith) in
        rw
          (
            get-save_one (matches_either_key config u key) a a' t same.same_uuid
                (matches_either_key-SameKeys config u key a a' same) only (e ∙ ap one b≡a),
            get_assignment_for_learner,
          )
          refl
  ]

-- After a successful redemption the learner's assignment for the content is accepted and carries
-- the transaction, provided that the found row is the only one with its primary key.
pub redeemed-get_assignment :
    (s : Services) (p : Policy) (u key : ℕ) (tx : Option ℕ) (t : Table) (a : Assignment)
    → get_assignment s p u key t ≡ ok (some a)
    → Only a t
    → get_assignment s p u key (save_assignment (mark_accepted s.now key tx a) t)
      ≡ ok (some (mark_accepted s.now key tx a))
unfolding get_assignment
redeemed-get_assignment s p u key tx t a h only =
    lookup-save (customer_summary s p.enterprise_customer_uuid p.assignment_configuration)
      p.assignment_configuration u key a (mark_accepted s.now key tx a) t
      (mark_accepted-SameKeys s.now key tx a) only h

mark_accepted_state :
    (now key : ℕ) (tx : Option ℕ) (a : Assignment)
    → is_allocated (mark_accepted now key tx a).state ≡ false
unfolding mark_accepted add_successful
mark_accepted_state now key tx a = refl

some_ok_injective :
    (a b : Assignment)
    → ◌≡◌ {A = Result Error (Option Assignment)} (ok (some a)) (ok (some b))
    → a ≡ b
some_ok_injective a b h = cc

-- A later answer: the same one, or an error.
abbrev pub Recalled : Result Error Summary → Result Error Summary → Type 0
Recalled m m₁ = (m₁ ≡ m) ⊎ ((e : Error) × (m₁ ≡ err e))

lookup-Recalled :
    (summary summary₁ : ℕ → Result Error Summary) (config : Option ℕ) (u key : ℕ) (b : Assignment)
    (t : Table)
    → Recalled (summary key) (summary₁ key)
    → get_assignment_for_learner summary config u key t ≡ ok (some b)
    → (get_assignment_for_learner summary₁ config u key t ≡ ok (some b))
      ⊎ ((e : Error) × (summary₁ key ≡ err e)
          × (get_assignment_for_learner summary₁ config u key t ≡ err e))
unfolding get_assignment_for_learner
lookup-Recalled summary summary₁ config u key b t later h =
    elim (Got-cases (get_row (filter (matches_either_key config u key) t))) [
      | inl e ↦
          let h₁ = rw (e, get_assignment_for_learner) at h in
          elim later [
            | inl same ↦ inl (rw (e, get_assignment_for_learner, same) h₁)
            | inr (x, failed_) ↦ inr (x, failed_, rw (e, get_assignment_for_learner, failed_) refl)
          ]
      | inr (inl e) ↦ absurd (ground arith)
      | inr (inr (c, e)) ↦
          inl (rw (e, get_assignment_for_learner) (rw (e, get_assignment_for_learner) at h))
    ]

-- An assignment is redeemed at most once: after a redemption that returned a transaction, the next
-- one for the same learner, content and policy changes nothing, at whatever time, for whatever
-- transactions, and whatever the subsidy service would answer. It raises MissingAssignment, or the error
-- of a failed look-up of the content metadata; the metadata is assumed to be the same at both times
-- unless the look-up fails. The found row is assumed to be the only one with its primary key.
pub redeem_once :
    (s s₁ : Services) (l l₁ : Ledger) (p : Policy) (u key : ℕ) (ts ts₁ : List Transaction)
    (late late₁ : Bool) (t t' : Table) (tx : Option ℕ) (a : Assignment)
    → get_assignment s p u key t ≡ ok (some a)
    → Only a t
    → assigned_redeem s l p u key ts late t ≡ (ok tx, t')
    → Recalled
        (customer_summary s p.enterprise_customer_uuid p.assignment_configuration key)
        (customer_summary s₁ p.enterprise_customer_uuid p.assignment_configuration key)
    → (assigned_redeem s₁ l₁ p u key ts₁ late₁ t' ≡ (err missing_assignment, t'))
      ⊎ ((e : Error) × (customer_summary s₁ p.enterprise_customer_uuid p.assignment_configuration
              key
            ≡ err e)
          × (assigned_redeem s₁ l₁ p u key ts₁ late₁ t' ≡ (err e, t')))
unfolding assigned_redeem redeem_found get_assignment
redeem_once s s₁ l l₁ p u key ts ts₁ late late₁ t t' tx a h only e later =
    let (r, saved) =
      subst (Ends s l p u key ts late t) e
        (assigned_redeem_lem s l p u key ts late t (subst QuietLookup (sym h) tt)) in
    let same : r.found ≡ a = some_ok_injective r.found a (sym r.looked_up ∙ h) in
    let stored : t' ≡ save_assignment (mark_accepted s.now key tx a) t =
      saved ∙ ap (λ (b : Assignment). save_assignment (mark_accepted s.now key tx b) t) same in
    let again : get_assignment s p u key t' ≡ ok (some (mark_accepted s.now key tx a)) =
      rw stored (redeemed-get_assignment s p u key tx t a h only) in
    elim (lookup-Recalled (customer_summary s p.enterprise_customer_uuid p.assignment_configuration)
      (customer_summary s₁ p.enterprise_customer_uuid p.assignment_configuration)
      p.assignment_configuration u key (mark_accepted s.now key tx a) t' later again) [
        | inl found ↦ inl (rw (found, redeem_found, mark_accepted_state s.now key tx a) refl)
        | inr (x, failed_, raises) ↦ inr (x, failed_, rw (raises, redeem_found) refl)
      ]
