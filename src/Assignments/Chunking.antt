-- ===== src/Assignments/Chunking.antt =====
-- `chunks` of enterprise_access/utils.py.
use enterprise_access.Prelude.{
  All, List, [], ap, arith, length, refl, suc, zero, ℕ, ◌++◌, ◌∙◌, ◌∷◌, ◌≡◌, ◌≤◌,
}
use enterprise_access.Assignments.Emails.{chunks, drop, slices, take}

module _ {ℓ} {A : Type ℓ} where
  -- The elements of the slices, in order.
  abbrev pub joined : List (List A) → List A
  joined [] = []
  joined (xs ∷ rest) = xs ++ joined rest

  pub take_and_drop : (n : ℕ) (xs : List A) → take n xs ++ drop n xs ≡ xs
  take_and_drop zero xs = refl
  take_and_drop (suc n) [] = refl
  take_and_drop (suc n) (x ∷ xs) = ap (λ ys. x ∷ ys) (take_and_drop n xs)

  length-drop : (n : ℕ) (xs : List A) → length (drop n xs) ≤ length xs
  length-drop zero xs = omega arith
  length-drop (suc n) [] = omega arith
  length-drop (suc n) (x ∷ xs) = omega (arith, length-drop n xs)

  -- With fuel for each element the slices lose nothing.
  joined-slices :
      (fuel n : ℕ) (xs : List A) → length xs ≤ fuel → joined (slices fuel (suc n) xs) ≡ xs
  unfolding slices
  joined-slices zero n [] h = refl
  joined-slices zero n (x ∷ xs) h = let absurd : ⊥ = omega (arith, h) in elim absurd [ ]
  joined-slices (suc fuel) n [] h = refl
  joined-slices (suc fuel) n (x ∷ xs) h =
      ap (λ ys. x ∷ (take n xs ++ ys))
        (joined-slices fuel n (drop n xs) (omega (arith, h, length-drop n xs)))
      ∙ ap (λ ys. x ∷ ys) (take_and_drop n xs)

  short_take : (n : ℕ) (xs : List A) → length (take n xs) ≤ n
  short_take zero xs = omega arith
  short_take (suc n) [] = omega arith
  short_take (suc n) (x ∷ xs) = omega (arith, short_take n xs)

  short_slices : (fuel size : ℕ) (xs : List A) → All (λ ys. length ys ≤ size) (slices fuel size xs)
  unfolding slices
  short_slices zero size xs = tt
  short_slices (suc fuel) size [] = tt
  short_slices (suc fuel) size (x ∷ xs) =
      (short_take size (x ∷ xs), short_slices fuel size (drop size (x ∷ xs)))

  -- The chunks of a positive size have at most this size, and together give the list again: the
  -- bound on their number cuts nothing off.
  pub chunks-joined :
      (xs : List A) (n : ℕ)
      → (joined (chunks xs (suc n)) ≡ xs) × All (λ ys. length ys ≤ suc n) (chunks xs (suc n))
  unfolding chunks
  chunks-joined xs n =
      (joined-slices (length xs) n xs (within (length xs)), short_slices (length xs) (suc n) xs)
    where
      within : (m : ℕ) → m ≤ m
      within m = omega arith
