-- ===== src/Provisioning/Paid.antt =====
-- Provisioning and the payment of the checkout intents: it links, errs and fulfils only intents that
-- have been paid.
use mathlib.Core.Path.{subst}
use enterprise_access.Prelude.{
  ==_iff, All, Bool, Bool-cases, Option, Result, Result-cases, [], ap, err, false, filter, find,
  if◌then◌else◌, inl, inr, is_present, is_some, none, ok, opt_eq, refl, some, sym, true, ℕ, ◌&&◌,
  ◌==◌, ◌>>=◌, ◌||◌, ◌∙◌, ◌∷◌, ◌≡◌,
}
use enterprise_access.Workflow.Types.{Raised}
use enterprise_access.Checkout.Types.{Intent, IntentError, IntentState, Intents, created, expired}
use enterprise_access.Checkout.Table.{filter_by_name_and_slug, has_name, has_slug, on_row}
use enterprise_access.Checkout.Events.{IsKeyed}
use enterprise_access.Checkout.Rows.{OnlyRow, on_row-IsKeyed}
use enterprise_access.Provisioning.Steps.{
  first_intent, is_fulfillable, linked_intent, only_intent, rows_or_raise, save_intent,
}

-- The states after a payment.
abbrev pub was_paid : IntentState → Bool
was_paid created = false
was_paid expired = false
was_paid _ = true

-- An intent that a workflow has linked has been paid.
abbrev pub LinkedPaid : Intent → Type 0
LinkedPaid i = is_some i.workflow ≡ true → was_paid i.state ≡ true

-- The same intent of the same user, slug and name, as much paid as before.
abbrev pub SamePayment : Intent → Intent → Type 0
SamePayment i j =
    (j.pk ≡ i.pk)
    × (j.user ≡ i.user)
    × (j.enterprise_slug ≡ i.enterprise_slug)
    × (was_paid j.state ≡ was_paid i.state)

-- Row by row.
abbrev pub AlikePaid : Intents → Intents → Type 0
AlikePaid [] [] = Unit {0}
AlikePaid [] (j ∷ t) = ⊥
AlikePaid (i ∷ t₀) [] = ⊥
AlikePaid (i ∷ t₀) (j ∷ t) = SamePayment i j × AlikePaid t₀ t

-- The keys are distinct, the linked intents are paid, and the rows are as paid as in the first table.
abbrev pub PaidAs : Intents → Intents → Type 0
PaidAs t₀ t = IsKeyed t × All LinkedPaid t × AlikePaid t₀ t

SamePayment-trans : (i j k : Intent) → SamePayment i j → SamePayment j k → SamePayment i k
SamePayment-trans i j k (a, b, c, d) (a₁, b₁, c₁, d₁) = (a₁ ∙ a, b₁ ∙ b, c₁ ∙ c, d₁ ∙ d)

saved_alike :
    (t₀ t : Intents) (i j : Intent)
    → OnlyRow i t
    → SamePayment i j
    → AlikePaid t₀ t
    → AlikePaid t₀ (on_row i.pk (λ _. j) t)
saved_alike [] [] i j only same h = tt
saved_alike [] (b ∷ t) i j only same h = elim h [ ]
saved_alike (b ∷ t₀) [] i j only same h = elim h [ ]
saved_alike (a ∷ t₀) (b ∷ t) i j only same h = elim (Bool-cases (b.pk == i.pk)) [
  | inl here ↦
      let itself : b ≡ i = only.0 ((==_iff b.pk i.pk).0 here) in
      rw here (
        SamePayment-trans a i j (subst (λ x. SamePayment a x) itself h.0) same,
        saved_alike t₀ t i j only.1 same h.1,
      )
  | inr away ↦ rw away (h.0, saved_alike t₀ t i j only.1 same h.1)
]

saved_linked :
    (t : Intents) (pk : ℕ) (j : Intent)
    → LinkedPaid j
    → All LinkedPaid t
    → All LinkedPaid (on_row pk (λ _. j) t)
saved_linked [] pk j hj h = tt
saved_linked (b ∷ t) pk j hj h = elim (Bool-cases (b.pk == pk)) [
  | inl here ↦ rw here (hj, saved_linked t pk j hj h.1)
  | inr away ↦ rw away (h.0, saved_linked t pk j hj h.1)
]

-- A row that is saved with what payment it had.
pub saved-PaidAs :
    (t₀ t : Intents) (i j : Intent)
    → OnlyRow i t
    → SamePayment i j
    → LinkedPaid j
    → PaidAs t₀ t
    → PaidAs t₀ (save_intent j t)
saved-PaidAs t₀ t i j only same linked (keyed, paid_rows, alike) =
    subst (λ k. PaidAs t₀ (on_row k (λ _. j) t)) (sym same.0)
      (
        on_row-IsKeyed i.pk (λ _. j) t (λ _ _. same.0) keyed,
        saved_linked t i.pk j linked paid_rows,
        saved_alike t₀ t i j only same alike,
      )

-- The rows that the mixin reads.
pub first_found :
    (q : Intent → Bool) (t rest : Intents) (i : Intent) → filter q t ≡ i ∷ rest → find q t ≡ some i
first_found q [] rest i h = cc
first_found q (b ∷ t) rest i h = elim (Bool-cases (q b)) [
  | inl here ↦
      let h₁ : b ∷ filter q t ≡ i ∷ rest = rw here at h in
      let same : b ≡ i = cc in rw (here, same) refl
  | inr there ↦ rw there (first_found q t rest i (rw there at h))
]

pub found_holds : (q : Intent → Bool) (t : Intents) (i : Intent) → find q t ≡ some i → q i ≡ true
found_holds q [] i h = cc
found_holds q (b ∷ t) i h = elim (Bool-cases (q b)) [
  | inl here ↦
      let h₁ : ◌≡◌ {A = Option Intent} (some b) (some i) = rw here at h in
      let same : b ≡ i = cc in subst (λ x. q x ≡ true) same here
  | inr there ↦ found_holds q t i (rw there at h)
]

filter_twice :
    (p q : Intent → Bool) (t : Intents) → filter p (filter q t) ≡ filter (λ i. q i && p i) t
filter_twice p q [] = refl
filter_twice p q (b ∷ t) = elim (Bool-cases (q b)) [
  | inl here ↦ rw here (elim (Bool-cases (p b)) [
    | inl too ↦ rw too (ap (λ l. b ∷ l) (filter_twice p q t))
    | inr not_it ↦ rw not_it (filter_twice p q t)
  ])
  | inr there ↦ rw there (filter_twice p q t)
]

pub only_found : (rows : Intents) (i : Intent) → only_intent rows ≡ ok i → rows ≡ i ∷ []
only_found [] i h = cc
only_found (j ∷ []) i h = let same : j ≡ i = cc in ap (λ x. x ∷ []) same
only_found (j ∷ k ∷ rest) i h = cc

pub linked_found :
    (workflow : ℕ) (t : Intents) (i : Intent)
    → linked_intent workflow t ≡ ok i
    → find (λ j. opt_eq j.workflow (some workflow)) t ≡ some i
linked_found workflow t i h =
    first_found (λ j. opt_eq j.workflow (some workflow)) t [] i (only_found _ i h)

first_cons :
    (rows : Intents) (i : Intent) → first_intent rows ≡ ok i → (rest : Intents) × (rows ≡ i ∷ rest)
first_cons [] i h = cc
first_cons (j ∷ rest) i h = let same : j ≡ i = cc in (rest, ap (λ x. x ∷ rest) same)

abbrev pub fulfillable_at : ℕ → Intent → Bool
fulfillable_at slug i = (has_slug (some slug) i || has_name none i) && is_fulfillable i

fulfillable_rows :
    (b : Bool) (rows t : Intents) (slug : ℕ) (i : Intent)
    → ◌≡◌ {A = Result IntentError Intents}
        (if b
          then ok (filter (λ j. has_slug (some slug) j || has_name none j) t)
          else err IntentError.value_error)
        (ok rows)
    → first_intent (filter is_fulfillable rows) ≡ ok i
    → find (fulfillable_at slug) t ≡ some i
fulfillable_rows false rows t slug i h k = cc
fulfillable_rows true rows t slug i h k =
    let q = λ (j : Intent). has_slug (some slug) j || has_name none j in
    let all_rows : filter q t ≡ rows = cc in
    let (rest, e) = first_cons (filter is_fulfillable rows) i k in
    first_found (fulfillable_at slug) t rest i
      (sym (filter_twice is_fulfillable q t) ∙ ap (filter is_fulfillable) all_rows ∙ e)

pub fulfillable_found :
    (t : Intents) (slug : ℕ) (i : Intent)
    → (rows_or_raise (filter_by_name_and_slug (some slug) none t) >>= λ rows.
        first_intent (filter is_fulfillable rows))
      ≡ ok i
    → find (fulfillable_at slug) t ≡ some i
unfolding filter_by_name_and_slug
fulfillable_found t slug i h = elim (Result-cases (filter_by_name_and_slug (some slug) none t)) [
  | inl (rows, e) ↦ fulfillable_rows (is_present (some slug) || false) rows t slug i e (rw e at h)
  | inr (x, e) ↦
      let raises : ◌≡◌ {A = Result Raised Intent} (err Raised.value_error) (ok i) = rw e at h in cc
]
