-- ===== src/Assignments/Coverage.antt =====
-- What an allocation that returns has computed (content_assignments/api.py).
use enterprise_access.Prelude.{
  >>=-eq-ok, Bool-cases, Dict, List, Option, [], any, any-append, ap, find, inl, inr, map, negsuc,
  ok, pos, some, true, ℕ, ℤ, ◌++◌, ◌>>=◌, ◌||◌, ◌∙◌, ◌≡◌,
}
use enterprise_access.Assignments.Types.{Assignment, Summary, Table}
use enterprise_access.Assignments.Cancellation.{same_row}
use enterprise_access.Assignments.Emails.{deduplicate_learner_emails_to_allocate, id_maps, member}
use enterprise_access.Assignments.Prepare.{Offer, Prepared, prepare_all}
use enterprise_access.Assignments.Allocate.{
  Allocation, Environment, allocate_assignments, allocate_price, bulk_update_reallocation,
  clean_all, commit, emails_to_create, existing_emails, get_existing_assignments_for_allocation,
  is_consistent, new_assignments, offer_of, records_to_update, write_allocation, write_reallocation,
}
use enterprise_access.Assignments.PreparedRows.{by_email}
use enterprise_access.Assignments.Served.{
  In-map, any-In, created_or_existing, existing-Distinct, existing-In, kept_or_seen, new-serves,
  or_map, serves, written-serves,
}

abbrev pub maps_of : Environment → List ℕ → List ℕ → Dict ℕ × Dict ℕ
maps_of env known learner_emails =
    id_maps env.lower env.users known
      (deduplicate_learner_emails_to_allocate env.lower learner_emails)

abbrev pub existing_of : Environment → ℕ → List ℕ → List ℕ → ℕ → Table → List Assignment
existing_of env config known learner_emails key t =
    get_existing_assignments_for_allocation env.lower (some config)
      (deduplicate_learner_emails_to_allocate env.lower learner_emails) key
      (maps_of env known learner_emails).0 t

-- What an allocation that returns has computed on its way.
pub record Run (env : Environment) (config : ℕ) (learner_emails : List ℕ) (key price : ℕ)
    (admin : Option ℕ) (known : List ℕ) (t t' : Table) (r : Allocation) : Type 0 where
  pub metadata : Summary
  pub copies : List Prepared
  pub prepared :
      prepare_all env.lower
        (maps_of env known learner_emails).0
        (maps_of env known learner_emails).1
        env.now
        t
        (offer_of env key price metadata)
        (existing_of env config known learner_emails key t)
      ≡ ok copies
  pub written :
      t'
      ≡ bulk_update_reallocation env.now (records_to_update copies) t
        ++ new_assignments env config key metadata
            (offer_of env key price metadata)
            (maps_of env known learner_emails).0
            admin
            0
            (emails_to_create env.lower
              (existing_emails env.lower copies)
              (deduplicate_learner_emails_to_allocate env.lower learner_emails))
  pub made :
      r.created
      ≡ new_assignments env config key metadata
          (offer_of env key price metadata)
          (maps_of env known learner_emails).0
          admin
          0
          (emails_to_create env.lower
            (existing_emails env.lower copies)
            (deduplicate_learner_emails_to_allocate env.lower learner_emails))
  pub consistent : is_consistent t' ≡ true

committed : (t t' : Table) → commit t ≡ ok t' → (t' ≡ t) × (is_consistent t ≡ true)
committed t t' h = elim (Bool-cases (is_consistent t)) [
  | inl good ↦ let e = rw good at h in (cc, good)
  | inr bad ↦ let e = rw bad at h in cc
]

committed_last :
    (answer r : Allocation) (t t' : Table)
    → ◌>>=◌ {B = Allocation × Table} (commit t) (λ t₂. ok (answer, t₂)) ≡ ok (r, t')
    → (t' ≡ t) × (r ≡ answer) × (is_consistent t ≡ true)
committed_last answer r t t' h = elim (Bool-cases (is_consistent t)) [
  | inl good ↦
      let e : ok (answer, t) ≡ ok (r, t') = rw good at h in
      let same : t' ≡ t = cc in let answered : r ≡ answer = cc in (same, answered, good)
  | inr bad ↦ let e = rw bad at h in cc
]

write_allocation_lem :
    (env : Environment) (config key : ℕ) (m : Summary) (o : Offer) (ids : Dict ℕ) (admin : Option ℕ)
    (emails : List ℕ) (existing : List Assignment) (ps : List Prepared) (t t' : Table)
    (r : Allocation)
    → write_allocation env config key m o ids admin emails existing ps t ≡ ok (r, t')
    → (t'
        ≡ bulk_update_reallocation env.now (records_to_update ps) t
          ++ new_assignments env config key m o ids admin 0
              (emails_to_create env.lower (existing_emails env.lower ps) emails))
      × (r.created
          ≡ new_assignments env config key m o ids admin 0
              (emails_to_create env.lower (existing_emails env.lower ps) emails))
      × (is_consistent t' ≡ true)
unfolding write_allocation
write_allocation_lem env config key m o ids admin emails existing ps t t' r h =
    let new =
      new_assignments env config key m o ids admin 0
        (emails_to_create env.lower (existing_emails env.lower ps) emails) in
    let (t₁, c₁, h₁) =
      >>=-eq-ok (commit (bulk_update_reallocation env.now (records_to_update ps) t)) _ h in
    let (_, _, h₂) = >>=-eq-ok (clean_all new) _ h₁ in
    let (e₁, _) = committed (bulk_update_reallocation env.now (records_to_update ps) t) t₁ c₁ in
    let (e₂, answered, good) = committed_last _ r (t₁ ++ new) t' h₂ in
    (e₂ ∙ ap (λ s. s ++ new) e₁, ap (λ x. x.created) answered, ap is_consistent e₂ ∙ good)

pub allocate_price-Run :
    (env : Environment) (config : ℕ) (learner_emails : List ℕ) (key price : ℕ) (admin : Option ℕ)
    (known : List ℕ) (t t' : Table) (r : Allocation)
    → allocate_price env config learner_emails key price admin known t ≡ ok (r, t')
    → Run env config learner_emails key price admin known t t' r
unfolding allocate_price
allocate_price-Run env config learner_emails key price admin known t t' r h =
    let (m, e, h₁) = >>=-eq-ok (env.summary key) _ h in
    let (ps, prepared, h₂) =
      >>=-eq-ok
        (prepare_all env.lower (maps_of env known learner_emails).0
          (maps_of env known learner_emails).1 env.now t (offer_of env key price m)
          (existing_of env config known learner_emails key t))
        _ h₁ in
    let (written, made, consistent) =
      write_allocation_lem env config key m (offer_of env key price m)
        (maps_of env known learner_emails).0 admin
        (deduplicate_learner_emails_to_allocate env.lower learner_emails)
        (existing_of env config known learner_emails key t) ps t t' r h₂ in
    record {
      metadata = m;
      copies = ps;
      prepared = prepared;
      written = written;
      made = made;
      consistent = consistent;
    }

-- An allocation that returns leaves, for each e-mail, a row of the configuration and the content
-- that is allocated or accepted.
module _ (env : Environment) (config : ℕ) (learner_emails : List ℕ) (key price : ℕ)
    (admin : Option ℕ) (known : List ℕ) (t t' : Table) (r : Allocation) where
  kept_row :
      (e : ℕ)
      → (run : Run env config learner_emails key price admin known t t' r)
      → member (env.lower e) (existing_emails env.lower run.copies) ≡ true
      → any
          (serves env.lower config key e)
          (bulk_update_reallocation env.now (records_to_update run.copies) t)
        ≡ true
  unfolding bulk_update_reallocation
  kept_row e run h =
      let es = existing_of env config known learner_emails key t in
      let (a, p, i, made, same, found_copy) =
        by_email env.lower (maps_of env known learner_emails).0 (maps_of env known learner_emails).1
          env.now t (offer_of env key price run.metadata) (env.lower e) es run.copies
          (existing-Distinct env.lower config
            (deduplicate_learner_emails_to_allocate env.lower learner_emails) key
            (maps_of env known learner_emails).0 t)
          run.prepared h in
      let (row, here, content) =
        existing-In env.lower config
          (deduplicate_learner_emails_to_allocate env.lower learner_emails) key
          (maps_of env known learner_emails).0 t a i in
      any-In (serves env.lower config key e) _
        (map (λ b. write_reallocation env.now (find (same_row b) (records_to_update run.copies)) b)
          t)
        (In-map
          (λ b. write_reallocation env.now (find (same_row b) (records_to_update run.copies)) b) a t
          row)
        (rw found_copy (
          written-serves env.lower config key e env.now (offer_of env key price run.metadata) a p
            made here content same))

  pub allocate_price-covers :
      allocate_price env config learner_emails key price admin known t ≡ ok (r, t')
      → (e : ℕ) → member e learner_emails ≡ true
      → any (serves env.lower config key e) t' ≡ true
  unfolding deduplicate_learner_emails_to_allocate
  allocate_price-covers h e asked =
      let run = allocate_price-Run env config learner_emails key price admin known t t' r h in
      let emails = deduplicate_learner_emails_to_allocate env.lower learner_emails in
      let kept : member (env.lower e) (map env.lower emails) ≡ true =
        kept_or_seen env.lower [] learner_emails e asked in
      let old = bulk_update_reallocation env.now (records_to_update run.copies) t in
      let new =
        new_assignments env config key run.metadata (offer_of env key price run.metadata)
          (maps_of env known learner_emails).0 admin 0
          (emails_to_create env.lower (existing_emails env.lower run.copies) emails) in
      let served : (any (serves env.lower config key e) old
            || any (serves env.lower config key e) new)
          ≡ true =
        or_map
          (created_or_existing env.lower (existing_emails env.lower run.copies) (env.lower e) emails
            kept)
          (λ here. kept_row e run here)
          (λ c.
            new-serves env config key run.metadata (offer_of env key price run.metadata)
              (maps_of env known learner_emails).0 admin e 0
              (emails_to_create env.lower (existing_emails env.lower run.copies) emails) c) in
      ap (any (serves env.lower config key e)) run.written
      ∙ any-append (serves env.lower config key e) old new
      ∙ served

-- After an allocation that returns, each given e-mail has a row of the configuration and of the
-- content key whose e-mail is the given one in lower case and whose state is allocated or accepted.
pub allocate_assignments-covers :
    (env : Environment) (config : ℕ) (learner_emails : List ℕ) (key : ℕ) (price : ℤ)
    (admin : Option ℕ) (known : List ℕ) (t t' : Table) (r : Allocation)
    → allocate_assignments env config learner_emails key price admin known t ≡ ok (r, t')
    → (e : ℕ) → member e learner_emails ≡ true
    → any (serves env.lower config key e) t' ≡ true
unfolding allocate_assignments
allocate_assignments-covers env config learner_emails key (negsuc n) admin known t t' r h e asked =
    cc
allocate_assignments-covers env config learner_emails key (pos price) admin known t t' r h e asked =
    allocate_price-covers env config learner_emails key price admin known t t' r h e asked
