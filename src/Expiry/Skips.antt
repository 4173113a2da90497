-- ===== src/Expiry/Skips.antt =====
-- What the second page of automatically_expire_assignments holds after the first one is expired.
use mathlib.Core.Path.{subst}
use enterprise_access.Prelude.{
  List, Option, [], ap, arith, length, none, ok, refl, some, suc, sym, true, zero, ℕ, ◌++◌, ◌+◌,
  ◌-◌, ◌∙◌, ◌∷◌, ◌≡◌, ◌≤◌,
}
use enterprise_access.Assignments.Types.{Assignment}
use enterprise_access.Assignments.Emails.{drop, take}
use enterprise_access.Assignments.Chunking.{take_and_drop}
use enterprise_access.Assignments.PreparedRows.{Distinct}
use enterprise_access.Expiry.Dates.{Calendar, ExpiredReason}
use enterprise_access.Expiry.Expire.{MetadataByKey, Store, expire_all, page_of, to_possibly_expire}
use enterprise_access.Expiry.Pages.{expire_all-rows, not_expired}

module _ {ℓ} {A : Type ℓ} where
  drop-append : (k : ℕ) (xs ys : List A) → drop (length xs + k) (xs ++ ys) ≡ drop k ys
  drop-append k [] ys = let none_before : 0 + k ≡ k = omega arith in rw none_before refl
  drop-append k (x ∷ xs) ys =
      let one_more : suc (length xs) + k ≡ suc (length xs + k) = omega arith in
      rw one_more (drop-append k xs ys)

  length-take : (n : ℕ) (xs : List A) → n ≤ length xs → length (take n xs) ≡ n
  length-take zero xs h = refl
  length-take (suc n) [] h = omega (arith, h)
  length-take (suc n) (x ∷ xs) h = ap suc (length-take n xs (omega (arith, h)))

  -- The same list behind two prefixes, the first shorter by `e`.
  take-shifted :
      (n e size : ℕ) (ks xs ys : List A)
      → length xs ≡ n
      → length ks + e ≡ n
      → take (n + size - n) (drop n (ks ++ ys))
        ≡ take (n + e + size - (n + e)) (drop (n + e) (xs ++ ys))
  take-shifted n e size ks xs ys hx hk =
      let first : n + size - n ≡ size = omega arith in
      let second : n + e + size - (n + e) ≡ size = omega arith in
      rw (first, second)
        (subst (λ m. take size (drop m (ks ++ ys)) ≡ take size (drop (n + e) (xs ++ ys))) hk
          (subst
            (λ m. take size (drop (length ks + e) (ks ++ ys)) ≡ take size (drop (m + e) (xs ++ ys)))
            hx (rw (drop-append e ks ys, drop-append e xs ys) refl)))

fewer_left :
    (page : List Assignment) (reasons : List (Option ExpiredReason))
    → length (not_expired page reasons) ≤ length page
fewer_left [] reasons = omega arith
fewer_left (a ∷ page) [] = omega arith
fewer_left (a ∷ page) (none ∷ reasons) = omega (arith, fewer_left page reasons)
fewer_left (a ∷ page) (some why ∷ reasons) = omega (arith, fewer_left page reasons)

-- How many rows of a page have been expired.
abbrev pub number_expired : List Assignment → List (Option ExpiredReason) → ℕ
number_expired page reasons = length page - length (not_expired page reasons)

-- When the first page of n rows is expired and no call raises, the page of the rows n to n + size
-- that is read next is what the rows from n + e on were before, where e rows of the first
-- page have expired: the e rows in between are on neither page, though none of them was looked at.
pub expire_all-page_of :
    (c : Calendar) (config n size : ℕ) (courses : MetadataByKey) (st : Store)
    (reasons : List (Option ExpiredReason))
    → Distinct st.assignments
    → n ≤ length (to_possibly_expire config st)
    → (expire_all c true courses (page_of config (0, n) st) st).0 ≡ ok reasons
    → page_of config (n, n + size) (expire_all c true courses (page_of config (0, n) st) st).1
      ≡ page_of config
          (
            n + number_expired (page_of config (0, n) st) reasons,
            n + number_expired (page_of config (0, n) st) reasons + size,
          )
          st
expire_all-page_of c config n size courses st reasons d enough run =
    let all_rows = to_possibly_expire config st in
    let page = page_of config (0, n) st in
    let whole : n - 0 ≡ n = omega arith in
    let parts : all_rows ≡ page ++ drop n all_rows = rw whole (sym (take_and_drop n all_rows)) in
    let (_, left) =
      expire_all-rows c config courses page [] (drop n all_rows) st reasons d parts run in
    let full : length page ≡ n = rw whole (length-take n all_rows enough) in
    let e = number_expired page reasons in
    let counted : length (not_expired page reasons) + e ≡ n =
      omega (arith, fewer_left page reasons, full) in
    ap (λ l. take (n + size - n) (drop n l)) left
    ∙ take-shifted n e size (not_expired page reasons) page (drop n all_rows) full counted
    ∙ ap (λ l. take (n + e + size - (n + e)) (drop (n + e) l)) (sym parts)
