-- ===== src/Checkout/Rows.antt =====
-- Laws of the table of intents: writing one row, finding a row, and the primary keys.
use mathlib.Core.Path.{subst}
use mathlib.Core.Option.{get_or}
use enterprise_access.Prelude.{
  All, All-append, All-map, Bool, Bool-cases, Option, [], any, ap, arith, find, inl, inr, map, some,
  sym, true, ℕ, ◌++◌, ◌==◌, ◌∙◌, ◌∷◌, ◌≡◌, ◌≢◌, ◌≤◌,
}
use enterprise_access.Checkout.Types.{Intent, Intents}
use enterprise_access.Checkout.Table.{next_key, on_row}
use enterprise_access.Checkout.Events.{IsKeyed}

-- Every row with a key is the given one.
abbrev pub OnlyRow : Intent → Intents → Type 0
OnlyRow i t = All (λ j. j.pk ≡ i.pk → j ≡ i) t

pub All-on_row {κ} :
    (P : Intent → Type κ) (pk : ℕ) (f : Intent → Intent) (t : Intents)
    → ((i : Intent) → P i → P (f i))
    → All P t
    → All P (on_row pk f t)
All-on_row P pk f [] step h = tt
All-on_row P pk f (i ∷ t) step h = elim (Bool-cases (i.pk == pk)) [
  | inl same ↦ rw same (step i h.0, All-on_row P pk f t step h.1)
  | inr other ↦ rw other (h.0, All-on_row P pk f t step h.1)
]

-- A function that keeps the key of the rows it is used on.
abbrev pub KeepsKey : ℕ → (Intent → Intent) → Type 0
KeepsKey pk f = (i : Intent) → i.pk ≡ pk → (f i).pk ≡ pk

on_row-keys :
    (k pk : ℕ) (f : Intent → Intent) (t : Intents)
    → KeepsKey pk f
    → All (λ j. j.pk ≢ k) t
    → All (λ j. j.pk ≢ k) (on_row pk f t)
on_row-keys k pk f [] keep h = tt
on_row-keys k pk f (i ∷ t) keep h = elim (Bool-cases (i.pk == pk)) [
  | inl same ↦
      let e : i.pk ≡ pk = ground arith in
      rw same (λ clash. h.0 (e ∙ sym (keep i e) ∙ clash), on_row-keys k pk f t keep h.1)
  | inr other ↦ rw other (h.0, on_row-keys k pk f t keep h.1)
]

pub on_row-IsKeyed :
    (pk : ℕ) (f : Intent → Intent) (t : Intents)
    → KeepsKey pk f
    → IsKeyed t
    → IsKeyed (on_row pk f t)
on_row-IsKeyed pk f [] keep h = tt
on_row-IsKeyed pk f (i ∷ t) keep h = elim (Bool-cases (i.pk == pk)) [
  | inl same ↦
      let e : i.pk ≡ pk = ground arith in
      rw same
        (rw (keep i e ∙ sym e) (on_row-keys i.pk pk f t keep h.0), on_row-IsKeyed pk f t keep h.1)
  | inr other ↦ rw other (on_row-keys i.pk pk f t keep h.0, on_row-IsKeyed pk f t keep h.1)
]

pub any-on_row :
    (p : Intent → Bool) (pk : ℕ) (f : Intent → Intent) (t : Intents)
    → All (λ i. i.pk ≡ pk → p i ≡ true → p (f i) ≡ true) t
    → any p t ≡ true
    → any p (on_row pk f t) ≡ true
any-on_row p pk f [] step h = h
any-on_row p pk f (i ∷ t) step h = elim (Bool-cases (i.pk == pk)) [
  | inl same ↦ rw same (ground (arith, any-on_row p pk f t step.1, step.0))
  | inr other ↦ rw other (ground (arith, any-on_row p pk f t step.1))
]

pub everywhere {κ} : (P : Intent → Type κ) (t : Intents) → ((i : Intent) → P i) → All P t
everywhere P [] h = tt
everywhere P (i ∷ t) h = (h i, everywhere P t h)

pub find-All {κ} :
    (P : Intent → Type κ) (q : Intent → Bool) (t : Intents) {i : Intent}
    → All P t
    → find q t ≡ some i
    → P i
find-All P q [] h e = cc
find-All P q (b ∷ t) h e = elim (Bool-cases (q b)) [
  | inl here ↦ let same = ap (λ (o : Option Intent). get_or o b) (rw here at e) in subst P same h.0
  | inr there ↦ find-All P q t h.1 (rw there at e)
]

-- The row that a query finds first is the only one with its key.
pub find-OnlyRow :
    (q : Intent → Bool) (t : Intents) (i : Intent) → IsKeyed t → find q t ≡ some i → OnlyRow i t
find-OnlyRow q [] i h e = tt
find-OnlyRow q (b ∷ t) i h e = elim (Bool-cases (q b)) [
  | inl here ↦
      let same : b ≡ i = ap (λ (o : Option Intent). get_or o b) (rw here at e) in
      (
        λ _. same,
        All-map (λ j. j.pk ≢ b.pk) (λ j. j.pk ≡ i.pk → j ≡ i)
            (λ j apart clash. absurd (apart (clash ∙ ap (λ (x : Intent). x.pk) (sym same)))) t h.0,
      )
  | inr there ↦ (
    λ clash. absurd (find-All (λ j. j.pk ≢ b.pk) q t h.0 (rw there at e) (sym clash)),
    find-OnlyRow q t i h.1 (rw there at e),
  )
]

IsKeyed-snoc :
    (t : Intents) (n : Intent) → All (λ j. j.pk ≢ n.pk) t → IsKeyed t → IsKeyed (t ++ n ∷ [])
IsKeyed-snoc [] n fresh h = (tt, tt)
IsKeyed-snoc (i ∷ t) n fresh h = (
  All-append (λ j. j.pk ≢ i.pk) t (n ∷ []) h.0 (λ e. fresh.0 (sym e), tt),
  IsKeyed-snoc t n fresh.1 h.1,
)

keys_below : (t : Intents) (k : ℕ) → next_key t ≤ k → All (λ j. j.pk ≢ k) t
keys_below [] k h = tt
keys_below (i ∷ t) k h = (λ e. ground arith, keys_below t k (ground arith))

pub IsKeyed-new : (t : Intents) (n : Intent) → n.pk ≡ next_key t → IsKeyed t → IsKeyed (t ++ n ∷ [])
IsKeyed-new t n e h =
    IsKeyed-snoc t n
      (subst (λ (k : ℕ). All (λ j. j.pk ≢ k) t) (sym e) (keys_below t (next_key t) (omega arith))) h

-- A change of every row that keeps the keys.
module _ (f : Intent → Intent) (same : (i : Intent) → (f i).pk ≡ i.pk) where
  map-keys : (k : ℕ) (t : Intents) → All (λ j. j.pk ≢ k) t → All (λ j. j.pk ≢ k) (map f t)
  map-keys k [] h = tt
  map-keys k (i ∷ t) h = (λ e. h.0 (sym (same i) ∙ e), map-keys k t h.1)

  pub map-IsKeyed : (t : Intents) → IsKeyed t → IsKeyed (map f t)
  map-IsKeyed [] h = tt
  map-IsKeyed (i ∷ t) h = (rw (same i) (map-keys i.pk t h.0), map-IsKeyed t h.1)

  pub any-map :
      (p : Intent → Bool)
      → ((i : Intent) → p i ≡ true → p (f i) ≡ true)
      → (t : Intents) → any p t ≡ true
      → any p (map f t) ≡ true
  any-map p step [] h = h
  any-map p step (i ∷ t) h = ground (arith, step i, any-map p step t)
