-- ===== src/Assignments/Conservation.antt =====
-- The allocated quantity around allocate_assignments of content_assignments/api.py.
use enterprise_access.Prelude.{
  ==_refl, All, Bool, Bool-cases, Dict, List, Option, [], ap, arith, false, filter, find,
  if◌then◌else◌, inl, inr, int_laws, length, map, neg, negsuc, ok, pos, refl, some, suc, sym, times,
  times-suc, times-zero, true, zero, ℕ, ℤ, ◌&&◌, ◌++◌, ◌+ℤ◌, ◌+◌, ◌∙◌, ◌∷◌, ◌≡◌,
}
use enterprise_access.Assignments.Types.{
  Assignment, State, Summary, Table, is_allocated, is_reallocatable,
}
use enterprise_access.Assignments.Lookup.{get_allocated_quantity_for_configuration}
use enterprise_access.Assignments.Cancellation.{among, same_row}
use enterprise_access.Assignments.Refund.{counts, total}
use enterprise_access.Assignments.Emails.{deduplicate_learner_emails_to_allocate}
use enterprise_access.Assignments.Prepare.{Offer}
use enterprise_access.Assignments.Allocate.{
  Allocation, Environment, allocate_assignments, bulk_update_reallocation, emails_to_create,
  existing_emails, new_assignments, offer_of, records_to_update, write_reallocation,
}
use enterprise_access.Assignments.PreparedRows.{Distinct}
use enterprise_access.Assignments.Coverage.{Run, allocate_price-Run, existing_of, maps_of}
use enterprise_access.Assignments.RowEffects.{Effect, renewable, rows-Effect}

-- What a row adds to the allocated quantity.
abbrev share : ℕ → Assignment → ℤ
share config a = if counts (some config) a then a.content_quantity else pos 0

total-cons :
    (config : ℕ) (a : Assignment) (t : Table)
    → total (counts (some config)) (a ∷ t) ≡ share config a +ℤ total (counts (some config)) t
total-cons config a t = elim (Bool-cases (counts (some config) a)) [
  | inl counted ↦ rw counted refl
  | inr uncounted ↦ rw uncounted (omega int_laws)
]

times-filter :
    (p : Assignment → Bool) (q : ℤ) (a : Assignment) (t : Table)
    → times (length (filter p (a ∷ t))) q
      ≡ (if p a then q else pos 0) +ℤ times (length (filter p t)) q
times-filter p q a t = elim (Bool-cases (p a)) [
  | inl holds ↦ rw holds (times-suc (length (filter p t)) q)
  | inr fails ↦ rw fails (omega int_laws)
]

idle_unallocated :
    (s : State) (b : Bool) → (is_reallocatable s && b) ≡ true → is_allocated s ≡ false
idle_unallocated s b h = ground arith

share-Effect :
    (es : List Assignment) (config : ℕ) (q : ℤ) (a b : Assignment)
    → Effect es config q a b
    → share config b ≡ share config a +ℤ (if renewable es a then q else pos 0)
share-Effect es config q a b h = elim (Bool-cases (renewable es a)) [
  | inl renewed ↦
      let s = rw renewed at h.state_after in
      let n = rw renewed at h.quantity_after in
      let c = h.here renewed in
      let c₁ = idle_unallocated a.state (among es a) renewed in
      rw (h.same_config, s, n, c, c₁, renewed) (omega int_laws)
  | inr same ↦
      let s = rw same at h.state_after in
      let n = rw same at h.quantity_after in rw (h.same_config, s, n, same) (omega int_laws)
]

added : (x y z s t r : ℤ) → x ≡ y +ℤ z → s ≡ t +ℤ r → x +ℤ s ≡ y +ℤ t +ℤ (z +ℤ r)
added x y z s t r h k = rw (h, k) (omega int_laws)

count :
    (es : List Assignment) (config : ℕ) (q : ℤ) (f : Assignment → Assignment) (u : Table)
    → All (λ a. Effect es config q a (f a)) u
    → total (counts (some config)) (map f u)
      ≡ total (counts (some config)) u +ℤ times (length (filter (renewable es) u)) q
count es config q f [] h = rw (times-zero q) (omega int_laws)
count es config q f (a ∷ u) h =
    total-cons config (f a) (map f u)
    ∙ added (share config (f a)) (share config a) (if renewable es a then q else pos 0) _ _ _
        (share-Effect es config q a (f a) h.0) (count es config q f u h.1)
    ∙ sym (
        ap (λ x. x +ℤ times (length (filter (renewable es) (a ∷ u))) q) (total-cons config a u)
        ∙ ap (λ x. share config a +ℤ total (counts (some config)) u +ℤ x)
            (times-filter (renewable es) q a u))

new-total :
    (env : Environment) (config key : ℕ) (m : Summary) (o : Offer) (ids : Dict ℕ) (admin : Option ℕ)
    (n : ℕ) (emails : List ℕ)
    → total (counts (some config)) (new_assignments env config key m o ids admin n emails)
      ≡ times (length emails) o.quantity
unfolding new_assignments
new-total env config key m o ids admin n [] = sym (times-zero o.quantity)
new-total env config key m o ids admin n (e ∷ emails) = rw (==_refl config) (
    ap (λ x. o.quantity +ℤ x) (new-total env config key m o ids admin (n + 1) emails)
    ∙ sym (times-suc (length emails) o.quantity))

length-new :
    (env : Environment) (config key : ℕ) (m : Summary) (o : Offer) (ids : Dict ℕ) (admin : Option ℕ)
    (n : ℕ) (emails : List ℕ)
    → length (new_assignments env config key m o ids admin n emails) ≡ length emails
unfolding new_assignments
length-new env config key m o ids admin n [] = refl
length-new env config key m o ids admin n (e ∷ emails) =
    ap suc (length-new env config key m o ids admin (n + 1) emails)

total-append : (p : Assignment → Bool) (t u : Table) → total p (t ++ u) ≡ total p t +ℤ total p u
total-append p [] u = omega int_laws
total-append p (a ∷ t) u = elim (Bool-cases (p a)) [
  | inl holds ↦ rw holds (shifted a.content_quantity _ _ _ (total-append p t u))
  | inr fails ↦ rw fails (total-append p t u)
]
  where
    shifted : (x y z w : ℤ) → y ≡ z +ℤ w → x +ℤ y ≡ x +ℤ z +ℤ w
    shifted x y z w h = rw h (omega int_laws)

times-add : (n m : ℕ) (q : ℤ) → times (n + m) q ≡ times n q +ℤ times m q
times-add zero m q = let e : 0 + m ≡ m = omega arith in rw (e, times-zero q) (omega int_laws)
times-add (suc n) m q =
    let e : suc n + m ≡ suc (n + m) = omega arith in
    rw (e, times-suc (n + m) q, times-suc n q, times-add n m q) (omega int_laws)

module _ (env : Environment) (config : ℕ) (learner_emails : List ℕ) (key price : ℕ)
    (admin : Option ℕ) (known : List ℕ) (t t' : Table) (r : Allocation) where
  pub quantity_after_all :
      (run : Run env config learner_emails key price admin known t t' r)
      → Distinct t
      → get_allocated_quantity_for_configuration (some config) t'
        ≡ get_allocated_quantity_for_configuration (some config) t
          +ℤ times
              (length (filter (renewable (existing_of env config known learner_emails key t)) t)
                + length r.created)
              (neg (pos price))
  unfolding get_allocated_quantity_for_configuration bulk_update_reallocation
  quantity_after_all run apart =
      let q = neg (pos price) in
      let es = existing_of env config known learner_emails key t in
      let f : Assignment → Assignment =
        λ a. write_reallocation env.now (find (same_row a) (records_to_update run.copies)) a in
      let o = offer_of env key price run.metadata in
      let created =
        emails_to_create env.lower (existing_emails env.lower run.copies)
          (deduplicate_learner_emails_to_allocate env.lower learner_emails) in
      let ids = (maps_of env known learner_emails).0 in
      let renewed = filter (renewable es) t in
      let old = count es config q f t (
        rows-Effect env config learner_emails key price admin known t t' r run apart t
          (λ a i. i)) in
      let new = new-total env config key run.metadata o ids admin 0 created in
      ap (total (counts (some config))) run.written
      ∙ total-append (counts (some config)) (map f t)
          (new_assignments env config key run.metadata o ids admin 0 created)
      ∙ summed _ _ _ (times (length renewed) q) (times (length created) q) old new
      ∙ sym (
          ap (λ x. total (counts (some config)) t +ℤ x)
            (ap (λ n. times (length renewed + n) q)
                (ap length run.made ∙ length-new env config key run.metadata o ids admin 0 created)
              ∙ times-add (length renewed) (length created) q))
    where
      summed : (x y z v w : ℤ) → x ≡ z +ℤ v → y ≡ w → x +ℤ y ≡ z +ℤ (v +ℤ w)
      summed x y z v w h k = rw (h, k) (omega int_laws)

-- An allocation changes the allocated quantity of its configuration by the price, once for each of
-- the assignments found for it in a state to renew and once for each created one, when no two
-- rows of the table have the same primary key.
pub allocate_assignments-conserves :
    (env : Environment) (config : ℕ) (learner_emails : List ℕ) (key : ℕ) (price : ℤ)
    (admin : Option ℕ) (known : List ℕ) (t t' : Table) (r : Allocation)
    → Distinct t
    → allocate_assignments env config learner_emails key price admin known t ≡ ok (r, t')
    → get_allocated_quantity_for_configuration (some config) t'
      ≡ get_allocated_quantity_for_configuration (some config) t
        +ℤ times
            (length (filter (renewable (existing_of env config known learner_emails key t)) t)
              + length r.created)
            (neg price)
unfolding allocate_assignments
allocate_assignments-conserves env config learner_emails key (negsuc n) admin known t t' r apart h =
    cc
allocate_assignments-conserves env config learner_emails key (pos price) admin known t t' r apart
      h =
    quantity_after_all env config learner_emails key price admin known t t' r
      (allocate_price-Run env config learner_emails key price admin known t t' r h) apart
