-- ===== src/Policy/Locking.antt =====
-- The lock around a redemption (subsidy_access_policy/models.py).
use mathlib.Core.Path.{subst}
use enterprise_access.Prelude.{
  Bool-cases, List, Result, [], and_true, any, arith, err, false, inl, inr, not, refl, true, ◌&&◌,
  ◌∷◌, ◌≡◌, ◌⊎◌,
}
use enterprise_access.Assignments.Types.{Error, lock_attempt_failed}
use enterprise_access.Policy.Redeem.{LockKey, acquire_lock, release_lock, same_lock, with_lock}

same_lock_eq : (a b : LockKey) → same_lock a b ≡ true → a ≡ b
same_lock_eq a b h = ground arith

same_lock_comm : (a b : LockKey) → same_lock a b ≡ same_lock b a
same_lock_comm a b = ground arith

any-release :
    (j k : LockKey) (held : List LockKey)
    → any (same_lock j) (release_lock k held) ≡ (any (same_lock j) held && not (same_lock k j))
unfolding release_lock
any-release j k [] = refl
any-release j k (x ∷ held) = elim (Bool-cases (same_lock k x)) [
  | inl gone ↦
      rw (← same_lock_eq k x gone) (ground (arith, any-release j k held, same_lock_comm k j))
  | inr kept ↦ elim (Bool-cases (same_lock j x)) [
    | inl here ↦ rw (kept, here) (ground (arith, same_lock_eq j x here))
    | inr other ↦ rw (kept, other) (any-release j k held)
  ]
]

released :
    (j k : LockKey) (held : List LockKey)
    → any (same_lock k) held ≡ false
    → any (same_lock j) (release_lock k (k ∷ held)) ≡ any (same_lock j) held
released j k held free = elim (Bool-cases (same_lock k j)) [
  | inl same ↦
      let free' =
        subst (λ (x : LockKey). any (same_lock x) held ≡ false) (same_lock_eq k j same) free in
      rw (any-release j k (k ∷ held), same, free') (ground arith)
  | inr other ↦
      rw (any-release j k (k ∷ held), same_lock_comm j k, other) (and_true (any (same_lock j) held))
]

-- `with_lock` runs its body only if the key was free, and with the key held; in every case, also
-- when the body raises, exactly the keys held before are held after. If the key was taken, the
-- lock attempt fails and the state is untouched.
pub with_lock_lem :
    {A S : Type 0} (k : LockKey) (held : List LockKey) (st : S)
    (body : List LockKey → S → Result Error A × S)
    → ((any (same_lock k) held ≡ true)
        × (with_lock k held st body ≡ (err lock_attempt_failed, held, st)))
      ⊎ ((any (same_lock k) held ≡ false)
          × ((with_lock k held st body).0 ≡ (body (k ∷ held) st).0)
          × ((with_lock k held st body).2 ≡ (body (k ∷ held) st).1)
          × ((j : LockKey)
              → any (same_lock j) (with_lock k held st body).1 ≡ any (same_lock j) held))
unfolding with_lock acquire_lock
with_lock_lem k held st body = elim (Bool-cases (any (same_lock k) held)) [
  | inl taken ↦ inl (taken, rw taken refl)
  | inr free ↦ inr (free, rw free refl, rw free refl, λ j. rw free (released j k held free))
]
