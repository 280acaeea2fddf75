-- ===== src/Prelude/Counting.antt =====
-- How many rows fit a test, before and after an update, a selection, a sort or a limit.
use Prim.Native.Nat.{ℕ, zero, suc, ◌+◌, ◌≤◌}
use mathlib.Core.Path.{◌≡◌, refl}
use mathlib.Core.Bool.{Bool, true, false, not, ◌&&◌}
use mathlib.Core.List.{List, [], ◌∷◌}
use native.Mathlib.Omega.{arith}
use pix_vpn_service.Prelude.Tests.{if◌then◌else◌}
use pix_vpn_service.Prelude.Lists.{
  All, length, count_where, update_where, select_where, insert_by, sort_by, first_of, find, is_some,
}

module _ {A : Type 0} where
  -- The rows that stop fitting and those that start to.
  pub count-update_where :
      (q p : A → Bool) (f : A → A) (xs : List A)
      → count_where q (update_where p f xs) + count_where (λ x. p x && q x) xs
        ≡ count_where q xs + count_where (λ x. p x && q (f x)) xs
  count-update_where q p f [] = refl
  count-update_where q p f (x ∷ xs) = ground (arith, count-update_where q p f xs)

  pub count_mono :
      (a b : A → Bool) (xs : List A)
      → ((x : A) → a x ≡ true → b x ≡ true)
      → count_where a xs ≤ count_where b xs
  count_mono a b [] h = omega arith
  count_mono a b (x ∷ xs) h = ground (arith, h x, count_mono a b xs h)

  pub count_split :
      (p q : A → Bool) (xs : List A)
      → count_where p xs ≡ count_where (λ x. p x && q x) xs + count_where (λ x. p x && not (q x)) xs
  count_split p q [] = refl
  count_split p q (x ∷ xs) = ground (arith, count_split p q xs)

  -- An update after which no more rows fit a test finds no more rows that fit.
  pub count-update_where_le :
      (q p : A → Bool) (f : A → A) (xs : List A)
      → ((x : A) → q (f x) ≡ true → q x ≡ true)
      → count_where q (update_where p f xs) ≤ count_where q xs
  count-update_where_le q p f xs keeps =
      let fewer =
        count_mono (λ x. p x && q (f x)) (λ x. p x && q x) xs (λ x. ground (arith, keeps x)) in
      omega (arith, count-update_where q p f xs, fewer)

  pub count-none : (q : A → Bool) (xs : List A) → is_some (find q xs) ≡ false → count_where q xs ≡ 0
  count-none q [] h = refl
  count-none q (x ∷ xs) h = ground (arith, count-none q xs)

  pub count-never : (q : A → Bool) (xs : List A) → ((x : A) → q x ≡ false) → count_where q xs ≡ 0
  count-never q [] h = refl
  count-never q (x ∷ xs) h = ground (arith, h x, count-never q xs h)

  pub count-update_where_same :
      (q p : A → Bool) (f : A → A) (xs : List A)
      → ((x : A) → q (f x) ≡ q x)
      → count_where q (update_where p f xs) ≡ count_where q xs
  count-update_where_same q p f [] h = refl
  count-update_where_same q p f (x ∷ xs) h = ground (arith, h x, count-update_where_same q p f xs h)

  -- Where no row fits, each row fails the test.
  pub All-count_zero :
      (q : A → Bool) (xs : List A) → count_where q xs ≡ 0 → All (λ x. q x ≡ false) xs
  All-count_zero q [] h = tt
  All-count_zero q (x ∷ xs) h = (ground arith, All-count_zero q xs (omega arith))

  pub count-length : (q : A → Bool) (xs : List A) → count_where q xs ≤ length xs
  count-length q [] = omega arith
  count-length q (x ∷ xs) = ground (arith, count-length q xs)

  pub length-select_where : (p : A → Bool) (xs : List A) → length (select_where p xs) ≤ length xs
  length-select_where p [] = omega arith
  length-select_where p (x ∷ xs) = ground (arith, length-select_where p xs)

  pub count-select_where :
      (q p : A → Bool) (xs : List A) → count_where q (select_where p xs) ≤ count_where q xs
  count-select_where q p [] = omega arith
  count-select_where q p (x ∷ xs) = ground (arith, count-select_where q p xs)

  pub count-insert_by :
      (q : A → Bool) (before : A → A → Bool) (a : A) (xs : List A)
      → count_where q (insert_by before a xs) ≡ (if q a then 1 else 0) + count_where q xs
  count-insert_by q before a [] = refl
  count-insert_by q before a (x ∷ xs) = ground (arith, count-insert_by q before a xs)

  pub count-sort_by :
      (q : A → Bool) (before : A → A → Bool) (xs : List A)
      → count_where q (sort_by before xs) ≡ count_where q xs
  count-sort_by q before [] = refl
  count-sort_by q before (x ∷ xs) =
      omega (arith, count-insert_by q before x (sort_by before xs), count-sort_by q before xs)

  pub count-first_of :
      (q : A → Bool) (n : ℕ) (xs : List A) → count_where q (first_of n xs) ≤ count_where q xs
  count-first_of q zero xs = omega arith
  count-first_of q (suc n) [] = omega arith
  count-first_of q (suc n) (x ∷ xs) = omega (arith, count-first_of q n xs)

  All-insert_by :
      (P : A → Type 0) (before : A → A → Bool) (a : A) (xs : List A)
      → P a
      → All P xs
      → All P (insert_by before a xs)
  All-insert_by P before a [] h k = (h, tt)
  All-insert_by P before a (x ∷ xs) h k =
      elim (before a x) as (λ b. All P (if b then a ∷ x ∷ xs else x ∷ insert_by before a xs)) [
        | true ↦ (h, k)
        | false ↦ (k.0, All-insert_by P before a xs h k.1)
      ]

  pub All-sort_by :
      (P : A → Type 0) (before : A → A → Bool) (xs : List A) → All P xs → All P (sort_by before xs)
  All-sort_by P before [] h = tt
  All-sort_by P before (x ∷ xs) h =
      All-insert_by P before x (sort_by before xs) h.0 (All-sort_by P before xs h.1)

  pub All-first_of : (P : A → Type 0) (n : ℕ) (xs : List A) → All P xs → All P (first_of n xs)
  All-first_of P zero xs h = tt
  All-first_of P (suc n) [] h = tt
  All-first_of P (suc n) (x ∷ xs) h = (h.0, All-first_of P n xs h.1)

  pub All-select_where :
      (P : A → Type 0) (q : A → Bool) (xs : List A) → All P xs → All P (select_where q xs)
  All-select_where P q [] h = tt
  All-select_where P q (x ∷ xs) h =
      elim (q x) as (λ b. All P (if b then x ∷ select_where q xs else select_where q xs)) [
        | true ↦ (h.0, All-select_where P q xs h.1)
        | false ↦ All-select_where P q xs h.1
      ]
