-- ===== src/Assignments/RowEffects.antt =====
-- What an allocation does to a row, in allocate_assignments of content_assignments/api.py.
use mathlib.Core.Path.{subst}
use enterprise_access.Prelude.{
  All, Bool, Bool-cases, List, Option, [], and_false, ap, arith, false, find, if◌then◌else◌, inl,
  inr, neg, pos, refl, some, sym, true, ℕ, ℤ, ◌&&◌, ◌∙◌, ◌∷◌, ◌≡◌,
}
use enterprise_access.Assignments.Types.{Assignment, Table, allocated, is_reallocatable}
use enterprise_access.Assignments.Lookup.{in_config}
use enterprise_access.Assignments.Cancellation.{among, same_row}
use enterprise_access.Assignments.Emails.{deduplicate_learner_emails_to_allocate}
use enterprise_access.Assignments.Prepare.{Offer, Prepared}
use enterprise_access.Assignments.Allocate.{
  Allocation, Environment, offer_of, records_to_update, write_reallocation,
}
use enterprise_access.Assignments.PreparedRows.{All-In, Distinct, In, Made, absent, found, to_write}
use enterprise_access.Assignments.Served.{existing-Distinct, existing-In}
use enterprise_access.Assignments.Coverage.{Run, existing_of, maps_of}

-- One of the given assignments, in a state that an allocation leaves for allocated.
abbrev pub renewable : List Assignment → Assignment → Bool
renewable es a = is_reallocatable a.state && among es a

-- What an allocation at a quantity makes of a row.
pub record Effect (es : List Assignment) (config : ℕ) (q : ℤ) (a b : Assignment) : Type 0 where
  pub here : renewable es a ≡ true → in_config (some config) a ≡ true
  pub same_config : b.assignment_configuration ≡ a.assignment_configuration
  pub state_after : b.state ≡ (if renewable es a then allocated else a.state)
  pub quantity_after : b.content_quantity ≡ (if renewable es a then q else a.content_quantity)

among-In :
    (a : Assignment) (es : List Assignment)
    → among es a ≡ true
    → (b : Assignment) × In b es × (same_row a b ≡ true)
among-In a [] h = cc
among-In a (e ∷ es) h = elim (Bool-cases (same_row a e)) [
  | inl same ↦ (e, inl refl, same)
  | inr other ↦ let (b, i, same) = among-In a es (rw other at h) in (b, inr i, same)
]

among_none :
    (a : Assignment) (es : List Assignment)
    → among es a ≡ false
    → All (λ b. same_row a b ≡ false) es
among_none a [] h = tt
among_none a (e ∷ es) h = elim (Bool-cases (same_row a e)) [
  | inl same ↦ let e = rw same at h in cc
  | inr other ↦ (other, among_none a es (rw other at h))
]

-- Rows with one key are one row.
keyed : (t : Table) (a b : Assignment) → Distinct t → In a t → In b t → same_row a b ≡ true → a ≡ b
keyed [] a b d i j h = elim i [ ]
keyed (x ∷ t) a b d (inl e) (inl e₁) h = e ∙ sym e₁
keyed (x ∷ t) a b d (inl e) (inr j) h =
    let apart = All-In (λ c. same_row x c ≡ false) b t j d.0 in
    let same = subst (λ c. same_row c b ≡ true) e h in cc
keyed (x ∷ t) a b d (inr i) (inl e) h =
    let apart = All-In (λ c. same_row x c ≡ false) a t i d.0 in
    let same = subst (λ c. same_row a c ≡ true) e h in ground arith
keyed (x ∷ t) a b d (inr i) (inr j) h = keyed t a b d.1 i j h

flag-true : (b c : Bool) → c ≡ true → (b && c) ≡ b
flag-true b c h = ground arith

-- The row that the copy of an assignment is written to.
written-Effect :
    (es : List Assignment) (config now : ℕ) (o : Offer) (a : Assignment) (p : Prepared)
    → among es a ≡ true
    → in_config (some config) a ≡ true
    → Made o a p
    → Effect es config o.quantity a (write_reallocation now (to_write p) a)
written-Effect es config now o a p i c made =
    let again = flag-true (is_reallocatable a.state) (among es a) i in
    elim (Bool-cases p.needs_update) [
      | inl written ↦ rw written (record {
        here = λ _. c;
        same_config = refl;
        state_after = rw again made.state_after;
        quantity_after = rw again made.quantity_after;
      })
      | inr idle ↦
          let standing = rw idle at made.copy.standing in
          let amount = rw idle at made.copy.amount in
          rw idle (record {
            here = λ _. c;
            same_config = refl;
            state_after = rw again (standing ∙ made.state_after);
            quantity_after = rw again (amount ∙ made.quantity_after);
          })
    ]

untouched-Effect :
    (es : List Assignment) (config : ℕ) (q : ℤ) (a : Assignment)
    → among es a ≡ false
    → Effect es config q a a
untouched-Effect es config q a i =
    let off : renewable es a ≡ false = rw i (and_false (is_reallocatable a.state)) in
    record {
      here = λ h. let e = rw off at h in cc;
      same_config = refl;
      state_after = rw off refl;
      quantity_after = rw off refl;
    }

module _ (env : Environment) (config : ℕ) (learner_emails : List ℕ) (key price : ℕ)
    (admin : Option ℕ) (known : List ℕ) (t t' : Table) (r : Allocation) where
  row-Effect :
      (run : Run env config learner_emails key price admin known t t' r)
      → Distinct t
      → (a : Assignment) → In a t
      → Effect
          (existing_of env config known learner_emails key t)
          config
          (neg (pos price))
          a
          (write_reallocation env.now (find (same_row a) (records_to_update run.copies)) a)
  row-Effect run apart a row =
      let emails = deduplicate_learner_emails_to_allocate env.lower learner_emails in
      let (ids, names) = maps_of env known learner_emails in
      let es = existing_of env config known learner_emails key t in
      let o = offer_of env key price run.metadata in
      elim (Bool-cases (among es a)) [
        | inl given ↦
            let (b, i, same) = among-In a es given in
            let (there, here, content) = existing-In env.lower config emails key ids t b i in
            let itself : a ≡ b = keyed t a b apart row there same in
            let (p, made, f) =
              found env.lower ids names env.now t o a b es run.copies
                (existing-Distinct env.lower config emails key ids t) i (ap (λ c. c.uuid) itself)
                run.prepared in
            rw f (
              written-Effect es config env.now o a p given
                (subst (λ c. in_config (some config) c ≡ true) (sym itself) here)
                (subst (λ c. Made o c p) (sym itself) made))
        | inr other ↦
            rw
              (absent env.lower ids names env.now t o a es run.copies run.prepared
                (among_none a es other))
              (untouched-Effect es config (neg (pos price)) a other)
      ]

  pub rows-Effect :
      (run : Run env config learner_emails key price admin known t t' r)
      → Distinct t
      → (u : Table) → ((a : Assignment) → In a u → In a t)
      → All
          (λ a.
            Effect
              (existing_of env config known learner_emails key t)
              config
              (neg (pos price))
              a
              (write_reallocation env.now (find (same_row a) (records_to_update run.copies)) a))
          u
  rows-Effect run apart [] within = tt
  rows-Effect run apart (a ∷ u) within = (
    row-Effect run apart a (within a (inl refl)),
    rows-Effect run apart u (λ b i. within b (inr i)),
  )
