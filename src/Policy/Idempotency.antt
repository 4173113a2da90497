-- ===== src/Policy/Idempotency.antt =====
-- The idempotency keys of two redemptions (subsidy_access_policy/models.py and utils.py).
use enterprise_access.Prelude.{
  Bool-cases, List, Option, [], ap, arith, inl, inr, length, length-append, refl, some, sym, true,
  ℕ, ◌++◌, ◌↔◌, ◌∙◌, ◌∷◌, ◌≡◌, ◌≢◌, ◌≤◌, ◌⊎◌,
}
use mathlib.Core.List.{append-nil}
use enterprise_access.Policy.Types.{Policy, Transaction, TransactionState, committed, failed}
use enterprise_access.Policy.Redeem.{
  KeyData, Ledger, create_idempotency_key_for_transaction, is_committed, is_failed, key_data,
  qualifies, redemptions_for_idempotency_key,
}

abbrev pub key_after : Ledger → Policy → ℕ → ℕ → List Transaction → ℕ × ℕ
key_after l p u key ts =
    create_idempotency_key_for_transaction l p.subsidy_uuid (key_data p u key ts)

redemptions-append :
    (xs ys : List Transaction)
    → redemptions_for_idempotency_key (xs ++ ys)
      ≡ redemptions_for_idempotency_key xs ++ redemptions_for_idempotency_key ys
unfolding redemptions_for_idempotency_key
redemptions-append [] ys = refl
redemptions-append (x ∷ xs) ys = ground (arith, redemptions-append xs ys)

-- One of the transactions has failed, or its reversal is committed.
abbrev pub HasBroken : List Transaction → Type 0
HasBroken [] = ⊥
HasBroken (tx ∷ ts) =
    (tx.transaction_state ≡ failed) ⊎ (tx.reversal ≡ some committed) ⊎ HasBroken ts

failed_lem : (s : TransactionState) → is_failed s ≡ true → s ≡ failed
failed_lem failed h = refl
failed_lem _ h = cc

committed_lem : (r : Option TransactionState) → is_committed r ≡ true → r ≡ some committed
committed_lem (some committed) h = refl
committed_lem _ h = cc

qualifies_lem :
    (tx : Transaction)
    → qualifies tx ≡ true
    → (tx.transaction_state ≡ failed) ⊎ (tx.reversal ≡ some committed)
qualifies_lem tx h = elim (Bool-cases (is_failed tx.transaction_state)) [
  | inl broken ↦ inl (failed_lem tx.transaction_state broken)
  | inr fine ↦ inr (committed_lem tx.reversal (rw fine at h))
]

-- The history is empty, or one of its transactions has failed or was reversed.
unbroken : (ts : List Transaction) → (redemptions_for_idempotency_key ts ≡ []) ⊎ HasBroken ts
unfolding redemptions_for_idempotency_key
unbroken [] = inl refl
unbroken (tx ∷ ts) = elim (Bool-cases (qualifies tx)) [
  | inl holds ↦ inr (elim (qualifies_lem tx holds) [
    | inl broken ↦ inl broken
    | inr taken_back ↦ inr (inl taken_back)
  ])
  | inr fails ↦ elim (unbroken ts) [ inl e ↦ inl (rw fails e) | inr later ↦ inr (inr (inr later)) ]
]

HasBroken-some :
    (ts : List Transaction) → HasBroken ts → 1 ≤ length (redemptions_for_idempotency_key ts)
unfolding redemptions_for_idempotency_key
HasBroken-some [] h = absurd h
HasBroken-some (tx ∷ ts) (inl broken) = rw broken (omega arith)
HasBroken-some (tx ∷ ts) (inr (inl taken_back)) =
    let holds : qualifies tx ≡ true = rw taken_back (ground arith) in rw holds (omega arith)
HasBroken-some (tx ∷ ts) (inr (inr later)) =
    let more = HasBroken-some ts later in
    elim (Bool-cases (qualifies tx)) [
      | inl holds ↦ rw holds (omega arith)
      | inr fails ↦ rw fails more
    ]

longer : (xs ys : List ℕ) → 1 ≤ length ys → xs ++ ys ≢ xs
longer xs ys h e = omega (arith, h, length-append xs ys, ap length e)

module _ (l : Ledger) (p : Policy) (u key : ℕ) (ts further : List Transaction) where
  -- Transactions that neither failed nor were reversed do not change the key.
  pending_keeps_key :
      redemptions_for_idempotency_key further ≡ []
      → key_after l p u key (ts ++ further) ≡ key_after l p u key ts
  unfolding create_idempotency_key_for_transaction
  pending_keeps_key h = rw (redemptions-append ts further, h, append-nil)

  broken_changes_key :
      (l.hash (key_data p u key (ts ++ further)) ≡ l.hash (key_data p u key ts)
        → key_data p u key (ts ++ further) ≡ key_data p u key ts)
      → HasBroken further
      → key_after l p u key (ts ++ further) ≢ key_after l p u key ts
  unfolding create_idempotency_key_for_transaction
  broken_changes_key injective h e =
      let same = injective (ap (λ (k : ℕ × ℕ). k.1) e) in
      longer (redemptions_for_idempotency_key ts) (redemptions_for_idempotency_key further)
        (HasBroken-some further h)
        (sym (redemptions-append ts further) ∙ ap (λ (d : KeyData). d.historical_redemptions) same)

-- If the hash does not collide on the two metadata, further transactions change the idempotency
-- key exactly when one of them is in the state failed or has a committed reversal: then the
-- redemption can be tried again, and otherwise another attempt has the same key.
pub key_after-changes :
    (l : Ledger) (p : Policy) (u key : ℕ) (ts further : List Transaction)
    → (l.hash (key_data p u key (ts ++ further)) ≡ l.hash (key_data p u key ts)
        → key_data p u key (ts ++ further) ≡ key_data p u key ts)
    → HasBroken further ↔ (key_after l p u key (ts ++ further) ≢ key_after l p u key ts)
key_after-changes l p u key ts further injective =
    (broken_changes_key l p u key ts further injective, changed)
  where
    changed : key_after l p u key (ts ++ further) ≢ key_after l p u key ts → HasBroken further
    changed differs = elim (unbroken further) [
      | inl e ↦ elim (differs (pending_keeps_key l p u key ts further e)) [ ]
      | inr h ↦ h
    ]
