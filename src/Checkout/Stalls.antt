-- ===== src/Checkout/Stalls.antt =====
-- mark_stalled_fulfillment_intents of customer_billing/models.py.
use enterprise_access.Prelude.{
  ==_refl, All, All-map, Bool, Bool-cases, [], any, arith, false, filter, inl, inr, leb, map, refl,
  sym, true, ℕ, ◌==◌, ◌||◌, ◌∙◌, ◌∷◌, ◌≡◌,
}
use enterprise_access.Checkout.Types.{Intent, Intents}
use enterprise_access.Checkout.Table.{
  find_stalled_fulfillment_intents, insert_by_modified, is_stalled,
  mark_stalled_fulfillment_intents, on_row, order_by_modified, save_stalled, stall_row,
}

abbrev pub has_key : ℕ → Intents → Bool
has_key pk t = any (λ i. i.pk == pk) t

has_key-insert :
    (pk : ℕ) (i : Intent) (t : Intents)
    → has_key pk (insert_by_modified i t) ≡ (i.pk == pk || has_key pk t)
unfolding insert_by_modified
has_key-insert pk i [] = refl
has_key-insert pk i (j ∷ t) = elim (Bool-cases (leb i.modified j.modified)) [
  | inl first ↦ rw first refl
  | inr later ↦
      rw later (rw (has_key-insert pk i t) (or_swap (j.pk == pk) (i.pk == pk) (has_key pk t)))
]
  where
    or_swap : (a b c : Bool) → (a || (b || c)) ≡ (b || (a || c))
    or_swap a b c = ground arith

has_key-order : (pk : ℕ) (t : Intents) → has_key pk (order_by_modified t) ≡ has_key pk t
unfolding order_by_modified
has_key-order pk [] = refl
has_key-order pk (i ∷ t) = has_key-insert pk i (order_by_modified t) ∙ rw (has_key-order pk t) refl

-- A row that has stalled is among the found ones.
abbrev Listed : ℕ → ℕ → Intents → Intent → Type 0
Listed now threshold found i = is_stalled now threshold i ≡ true → has_key i.pk found ≡ true

has_key-more :
    (p : Intent → Bool) (k : ℕ) (i : Intent) (t : Intents)
    → has_key k (filter p t) ≡ true
    → has_key k (filter p (i ∷ t)) ≡ true
has_key-more p k i t h = elim (Bool-cases (p i)) [
  | inl holds ↦ rw holds (ground arith)
  | inr fails ↦ rw fails h
]

found-Listed :
    (now threshold : ℕ) (t : Intents)
    → All (Listed now threshold (filter (is_stalled now threshold) t)) t
found-Listed now threshold [] = tt
found-Listed now threshold (i ∷ t) = (
  λ e. rw e (rw (==_refl i.pk) refl),
  All-map (Listed now threshold (filter (is_stalled now threshold) t))
      (Listed now threshold (filter (is_stalled now threshold) (i ∷ t)))
      (λ j h e. has_key-more (is_stalled now threshold) j.pk i t (h e)) t
      (found-Listed now threshold t),
)

none-Listed :
    (now threshold : ℕ) (t : Intents)
    → All (Listed now threshold []) t
    → any (is_stalled now threshold) t ≡ false
none-Listed now threshold [] h = refl
none-Listed now threshold (i ∷ t) h = elim (Bool-cases (is_stalled now threshold i)) [
  | inl waits ↦ let e = h.0 waits in cc
  | inr moved ↦ rw moved (none-Listed now threshold t h.1)
]

stalled_once :
    (now threshold : ℕ) (i : Intent) → is_stalled now threshold (stall_row now threshold i) ≡ false
unfolding stall_row
stalled_once now threshold i = refl

Listed-after :
    (now threshold : ℕ) (i : Intent) (found t : Intents)
    → All (Listed now threshold (i ∷ found)) t
    → All (Listed now threshold found) (on_row i.pk (λ _. stall_row now threshold i) t)
Listed-after now threshold i found [] h = tt
Listed-after now threshold i found (j ∷ t) h = elim (Bool-cases (j.pk == i.pk)) [
  | inl same ↦ rw same (
    λ e. let clash = sym e ∙ stalled_once now threshold i in cc,
    Listed-after now threshold i found t h.1,
  )
  | inr other ↦ rw other (λ e. ground (arith, h.0 e), Listed-after now threshold i found t h.1)
]

-- After the loop no row is stalled, if every stalled row was found.
saved-none_stalled :
    (now threshold : ℕ) (found t : Intents)
    → All (Listed now threshold found) t
    → any (is_stalled now threshold) (save_stalled now threshold found t) ≡ false
unfolding save_stalled
saved-none_stalled now threshold [] t h = none-Listed now threshold t h
saved-none_stalled now threshold (i ∷ found) t h =
    saved-none_stalled now threshold found (on_row i.pk (λ _. stall_row now threshold i) t)
      (Listed-after now threshold i found t h)

ordered-Listed :
    (now threshold : ℕ) (t : Intents)
    → All (Listed now threshold (find_stalled_fulfillment_intents now threshold t)) t
unfolding find_stalled_fulfillment_intents
ordered-Listed now threshold t =
    All-map (Listed now threshold (filter (is_stalled now threshold) t))
      (Listed now threshold (order_by_modified (filter (is_stalled now threshold) t)))
      (λ j h e. has_key-order j.pk (filter (is_stalled now threshold) t) ∙ h e) t
      (found-Listed now threshold t)

-- After the stall check no intent is paid and stalled any more, and the keys that it returns are
-- those of the intents that were.
pub mark_stalled-none_left :
    (now threshold : ℕ) (t : Intents)
    → (any (is_stalled now threshold) (mark_stalled_fulfillment_intents now threshold t).1 ≡ false)
      × ((pk : ℕ)
          → any (λ k. k == pk) (mark_stalled_fulfillment_intents now threshold t).0
            ≡ has_key pk (filter (is_stalled now threshold) t))
unfolding mark_stalled_fulfillment_intents find_stalled_fulfillment_intents
mark_stalled-none_left now threshold t = (
  saved-none_stalled now threshold (find_stalled_fulfillment_intents now threshold t) t
      (ordered-Listed now threshold t),
  λ pk.
      any-keys pk (find_stalled_fulfillment_intents now threshold t)
      ∙ has_key-order pk (filter (is_stalled now threshold) t),
)
  where
    any-keys : (pk : ℕ) (u : Intents) → any (λ k. k == pk) (map (λ i. i.pk) u) ≡ has_key pk u
    any-keys pk [] = refl
    any-keys pk (i ∷ u) = rw (any-keys pk u) refl
