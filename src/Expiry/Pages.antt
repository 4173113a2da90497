-- ===== src/Expiry/Pages.antt =====
-- The pages of automatically_expire_assignments, read one after the other out of the rows that are
-- still to expire.
use mathlib.Core.Path.{subst}
use enterprise_access.Prelude.{
  >>=-eq-ok, All, All-map, Bool, Bool-cases, List, Option, Result, Result-cases, [], and_false, ap,
  arith, err, false, filter, inl, inr, is_some, none, ok, opt_eq, refl, some, sym, true, ℕ, ◌++◌,
  ◌∙◌, ◌∷◌, ◌≡◌,
}
use enterprise_access.Assignments.Types.{Assignment, Error, Table}
use enterprise_access.Assignments.Cancellation.{same_row}
use enterprise_access.Assignments.PreparedRows.{All-In, Distinct, In, In-filter}
use enterprise_access.Requests.Types.{Request, save_request, was_expired}
use enterprise_access.Requests.Reversal.{credit_request_of, save_assignment}
use enterprise_access.Requests.Reversed.{unsaved}
use enterprise_access.Expiry.Dates.{Calendar, CourseMetadata, ExpiredReason}
use enterprise_access.Expiry.Expire.{
  MetadataByKey, Store, expiration_reason, expire_all, expire_assignment, expired_row, may_expire,
  metadata_of, modify_to_expired, to_possibly_expire, with_reason,
}
use enterprise_access.Expiry.Passed.{written}

-- The rows of a page for which the calls gave no reason.
abbrev pub not_expired : List Assignment → List (Option ExpiredReason) → List Assignment
not_expired [] reasons = []
not_expired (a ∷ rest) [] = a ∷ rest
not_expired (a ∷ rest) (none ∷ reasons) = a ∷ not_expired rest reasons
not_expired (a ∷ rest) (some why ∷ reasons) = not_expired rest reasons

same_row_sym : (a b : Assignment) → same_row a b ≡ false → same_row b a ≡ false
same_row_sym a b h = ground (arith, h)

same_row_key : (a s b : Assignment) → s.uuid ≡ a.uuid → same_row a b ≡ false → same_row s b ≡ false
same_row_key a s b e h = rw e h

the_middle : (a : Assignment) (xs ys : List Assignment) → In a (xs ++ a ∷ ys)
the_middle a [] ys = inl refl
the_middle a (x ∷ xs) ys = inr (the_middle a xs ys)

-- A row that a filter finds later has another key than an earlier row.
later_key :
    (p : Assignment → Bool) (a s b : Assignment) (t : Table)
    → s.uuid ≡ a.uuid
    → All (λ c. same_row b c ≡ false) t
    → In a (filter p t)
    → same_row s b ≡ false
later_key p a s b t e d i =
    let away = All-In (λ c. same_row b c ≡ false) a t (In-filter a p t i).0 d in
    same_row_key a s b e (same_row_sym b a away)

-- A row that leaves a filter, saved, is taken out of what the filter finds.
saved_leaves :
    (p : Assignment → Bool) (a s : Assignment) (xs ys : List Assignment) (t : Table)
    → s.uuid ≡ a.uuid
    → p s ≡ false
    → Distinct t
    → filter p t ≡ xs ++ a ∷ ys
    → filter p (save_assignment s t) ≡ xs ++ ys
saved_leaves p a s [] ys [] e k d h = cc
saved_leaves p a s (x ∷ xs) ys [] e k d h = cc
saved_leaves p a s [] ys (b ∷ t) e k d h = elim (Bool-cases (p b)) [
  | inl holds ↦
      let h₁ : b ∷ filter p t ≡ a ∷ ys = rw holds at h in
      let itself : b ≡ a = cc in
      let later : filter p t ≡ ys = cc in
      let f : s.uuid ≡ b.uuid = cc in
      let keys : same_row s b ≡ true = ground arith in
      let others_away =
        All-map (λ c. same_row b c ≡ false) (λ c. same_row s c ≡ false) (λ c l. rw f l) t d.0 in
      rw (keys, k, unsaved s t others_away, later) refl
  | inr fails ↦
      let h₁ : filter p t ≡ a ∷ ys = rw fails at h in
      let keys = later_key p a s b t e d.0 (subst (λ l. In a l) (sym h₁) (inl refl)) in
      rw (keys, fails) (saved_leaves p a s [] ys t e k d.1 h₁)
]
saved_leaves p a s (x ∷ xs) ys (b ∷ t) e k d h = elim (Bool-cases (p b)) [
  | inl holds ↦
      let h₁ : b ∷ filter p t ≡ x ∷ (xs ++ a ∷ ys) = rw holds at h in
      let first : b ≡ x = cc in
      let later : filter p t ≡ xs ++ a ∷ ys = cc in
      let keys = later_key p a s b t e d.0 (subst (λ l. In a l) (sym later) (the_middle a xs ys)) in
      rw (keys, holds, first, saved_leaves p a s xs ys t e k d.1 later) refl
  | inr fails ↦
      let h₁ : filter p t ≡ x ∷ (xs ++ a ∷ ys) = rw fails at h in
      let keys =
        later_key p a s b t e d.0 (subst (λ l. In a l) (sym h₁) (the_middle a (x ∷ xs) ys)) in
      rw (keys, fails) (saved_leaves p a s (x ∷ xs) ys t e k d.1 h₁)
]

same_key_Distinct :
    (s b : Assignment) (t : Table)
    → All (λ c. same_row b c ≡ false) t
    → All (λ c. same_row b c ≡ false) (save_assignment s t)
same_key_Distinct s b [] h = tt
same_key_Distinct s b (c ∷ t) h = elim (Bool-cases (same_row s c)) [
  | inl same ↦ rw same (ground (arith, h.0, same), same_key_Distinct s b t h.1)
  | inr other ↦ rw other (h.0, same_key_Distinct s b t h.1)
]

saved-Distinct : (s : Assignment) (t : Table) → Distinct t → Distinct (save_assignment s t)
saved-Distinct s [] h = tt
saved-Distinct s (b ∷ t) h = elim (Bool-cases (same_row s b)) [
  | inl same ↦
      let later =
        All-map (λ c. same_row b c ≡ false) (λ c. same_row s c ≡ false)
          (λ c l. ground (arith, l, same)) t h.0 in
      rw same (same_key_Distinct s s t later, saved-Distinct s t h.1)
  | inr other ↦ rw other (same_key_Distinct s b t h.0, saved-Distinct s t h.1)
]

modify_rows :
    (now : ℕ) (a : Assignment) (st st₁ : Store) (o : Option Request)
    → modify_to_expired now a st o ≡ ok st₁
    → st₁.assignments ≡ save_assignment (expired_row now a) st.assignments
unfolding modify_to_expired
modify_rows now a st st₁ none h = ground (arith, h)
modify_rows now a st st₁ (some r) h =
    let (q, saved, rest) =
      >>=-eq-ok (save_request now (record r { request_state = was_expired }) st.requests) _ h in
    ground (arith, rest)

with_reason_rows :
    (now : ℕ) (modify : Bool) (a : Assignment) (st st₁ : Store) (given why : Option ExpiredReason)
    → with_reason now modify a st given ≡ ok (why, st₁)
    → st₁.assignments ≡ written now modify a why st.assignments
with_reason_rows now modify a st st₁ none why h =
    let kept : st ≡ st₁ = cc in
    let nothing : none ≡ why = cc in
    subst (λ w. st₁.assignments ≡ written now modify a w st.assignments) nothing
      (rw (and_false modify) (ap (λ x. x.assignments) (sym kept)))
with_reason_rows now false a st st₁ (some r) why h =
    let kept : st ≡ st₁ = cc in ap (λ x. x.assignments) (sym kept)
with_reason_rows now true a st st₁ (some r) why h =
    let (st₂, saved, rest) =
      >>=-eq-ok (modify_to_expired now a st (credit_request_of a st.requests)) _ h in
    let kept : st₂ ≡ st₁ = cc in
    let given : some r ≡ why = cc in
    subst (λ w. st₁.assignments ≡ written now true a w st.assignments) given
      (ap (λ x. x.assignments) (sym kept) ∙ modify_rows now a st st₂ _ saved)

expire_assignment-rows :
    (c : Calendar) (modify : Bool) (a : Assignment) (m : Option CourseMetadata) (st st₁ : Store)
    (why : Option ExpiredReason)
    → expire_assignment c modify a m st ≡ ok (why, st₁)
    → st₁.assignments ≡ written c.now modify a why st.assignments
unfolding expire_assignment
expire_assignment-rows c modify a m st st₁ why h =
    let (given, reason, rest) =
      >>=-eq-ok (expiration_reason c (is_some (credit_request_of a st.requests)) a m) _ h in
    with_reason_rows c.now modify a st st₁ given why rest

expired_leaves : (now config : ℕ) (a : Assignment) → may_expire config (expired_row now a) ≡ false
unfolding expired_row
expired_leaves now config a = and_false (opt_eq a.assignment_configuration (some config))

expired_key : (now : ℕ) (a : Assignment) → (expired_row now a).uuid ≡ a.uuid
unfolding expired_row
expired_key now a = refl

written_leaves :
    (now config : ℕ) (a : Assignment) (why : Option ExpiredReason) (xs ys : List Assignment)
    (t : Table)
    → Distinct t
    → filter (may_expire config) t ≡ xs ++ a ∷ ys
    → Distinct (written now true a why t)
      × (filter (may_expire config) (written now true a why t)
          ≡ xs ++ (not_expired (a ∷ []) (why ∷ []) ++ ys))
written_leaves now config a none xs ys t d h = (d, h)
written_leaves now config a (some why) xs ys t d h = (
  saved-Distinct (expired_row now a) t d,
  saved_leaves (may_expire config) a (expired_row now a) xs ys t (expired_key now a)
      (expired_leaves now config a) d h,
)

append_assoc : (xs ys zs : List Assignment) → (xs ++ ys) ++ zs ≡ xs ++ (ys ++ zs)
append_assoc [] ys zs = refl
append_assoc (x ∷ xs) ys zs = ap (λ l. x ∷ l) (append_assoc xs ys zs)

not_expired-first :
    (a : Assignment) (page ys : List Assignment) (why : Option ExpiredReason)
    (reasons : List (Option ExpiredReason))
    → not_expired (a ∷ page) (why ∷ reasons) ++ ys
      ≡ not_expired (a ∷ []) (why ∷ []) ++ (not_expired page reasons ++ ys)
not_expired-first a page ys none reasons = refl
not_expired-first a page ys (some why) reasons = refl

pub expire_all-rows :
    (c : Calendar) (config : ℕ) (courses : MetadataByKey) (page ks ys : List Assignment)
    (st : Store) (reasons : List (Option ExpiredReason))
    → Distinct st.assignments
    → to_possibly_expire config st ≡ ks ++ (page ++ ys)
    → (expire_all c true courses page st).0 ≡ ok reasons
    → Distinct (expire_all c true courses page st).1.assignments
      × (to_possibly_expire config (expire_all c true courses page st).1
          ≡ ks ++ (not_expired page reasons ++ ys))
unfolding expire_all
expire_all-rows c config courses [] ks ys st reasons d h run = (d, h)
expire_all-rows c config courses (a ∷ page) ks ys st reasons d h run =
    elim (Result-cases (expire_assignment c true a (metadata_of courses a) st)) [
      | inr (e, bad) ↦
          let raises : ◌≡◌ {A = Result Error (List (Option ExpiredReason))} (err e) (ok reasons) =
            rw bad at run in
          cc
      | inl ((why, st₂), good) ↦
          let (whys, others_run, all_reasons) =
            >>=-eq-ok (expire_all c true courses page st₂).0 (λ l. ok (why ∷ l)) (rw good at run) in
          let list : why ∷ whys ≡ reasons = cc in
          let rows : st₂.assignments ≡ written c.now true a why st.assignments =
            expire_assignment-rows c true a (metadata_of courses a) st st₂ why good in
          let (d₂, h₂) = written_leaves c.now config a why ks (page ++ ys) st.assignments d h in
          let regrouped = sym (append_assoc ks (not_expired (a ∷ []) (why ∷ [])) (page ++ ys)) in
          let (d₃, h₃) =
            expire_all-rows c config courses page (ks ++ not_expired (a ∷ []) (why ∷ [])) ys st₂
              whys (rw rows d₂) (rw rows (h₂ ∙ regrouped)) others_run in
          rw good (
            d₃,
            h₃
                ∙ append_assoc ks (not_expired (a ∷ []) (why ∷ [])) (not_expired page whys ++ ys)
                ∙ ap (λ l. ks ++ l) (sym (not_expired-first a page ys why whys))
                ∙ ap (λ l. ks ++ (not_expired (a ∷ page) l ++ ys)) list,
          )
    ]
