-- ===== src/Prelude/Lists.antt =====
-- Rows of a table: the first that fits a test, an UPDATE ... WHERE, counts and sums.
use Prim.Native.Nat.{ℕ, zero, suc, ◌+◌}
use mathlib.Core.Path.{◌≡◌, subst}
use mathlib.Core.Logic.{inl, inr}
use mathlib.Core.Bool.{Bool, true, false}
use mathlib.Core.Option.{Option, none, some}
use mathlib.Core.List.{List, [], ◌∷◌}
use native.Mathlib.Omega.{arith}
use pix_vpn_service.Prelude.Tests.{Bool-cases, if◌then◌else◌}

module _ {ℓ} {A : Type ℓ} where
  abbrev pub length : List A → ℕ
  length [] = 0
  length (x ∷ xs) = suc (length xs)

  abbrev pub is_some : Option A → Bool
  is_some none = false
  is_some (some x) = true

  -- The first row that fits.
  abbrev pub find : (A → Bool) → List A → Option A
  find p [] = none
  find p (x ∷ xs) = if p x then some x else find p xs

  -- Every row that fits is replaced.
  abbrev pub update_where : (A → Bool) → (A → A) → List A → List A
  update_where p f [] = []
  update_where p f (x ∷ xs) = (if p x then f x else x) ∷ update_where p f xs

  abbrev pub select_where : (A → Bool) → List A → List A
  select_where p [] = []
  select_where p (x ∷ xs) = let rest = select_where p xs in if p x then x ∷ rest else rest

  -- ORDER BY: the row goes before the first one that it does not follow.
  abbrev pub insert_by : (A → A → Bool) → A → List A → List A
  insert_by before a [] = a ∷ []
  insert_by before a (x ∷ xs) =
      let rest = insert_by before a xs in if before a x then a ∷ x ∷ xs else x ∷ rest

  abbrev pub sort_by : (A → A → Bool) → List A → List A
  sort_by before [] = []
  sort_by before (x ∷ xs) = insert_by before x (sort_by before xs)

  -- LIMIT
  abbrev pub first_of : ℕ → List A → List A
  first_of zero xs = []
  first_of (suc n) [] = []
  first_of (suc n) (x ∷ xs) = x ∷ first_of n xs

  abbrev pub count_where : (A → Bool) → List A → ℕ
  count_where p [] = 0
  count_where p (x ∷ xs) = (if p x then 1 else 0) + count_where p xs

  abbrev pub All {κ} : (A → Type κ) → List A → Type κ
  All P [] = Unit
  All P (x ∷ xs) = P x × All P xs

module _ {A : Type 0} where
  -- A row that is found fits the test and is one of the rows.
  pub find-test : (p : A → Bool) (xs : List A) (y : A) → find p xs ≡ some y → p y ≡ true
  find-test p [] y e = cc
  find-test p (x ∷ xs) y e = ground (arith, find-test p xs y)

  -- What all rows have, a row that is found has.
  pub All-find :
      (P : A → Type 0) (p : A → Bool) (xs : List A) (y : A) → All P xs → find p xs ≡ some y → P y
  All-find P p [] y h e = cc
  All-find P p (x ∷ xs) y h e = elim (Bool-cases (p x)) [
    | inl t ↦ subst P {x = x} {y = y} (ground arith) h.0
    | inr f ↦ All-find P p xs y h.1 (ground arith)
  ]

  -- An update of the rows that fit keeps what it keeps of each row.
  pub All-update_where :
      (P Q : A → Type 0) (p : A → Bool) (f : A → A) (xs : List A)
      → ((x : A) → P x → p x ≡ true → Q (f x))
      → ((x : A) → P x → p x ≡ false → Q x)
      → All P xs
      → All Q (update_where p f xs)
  All-update_where P Q p f [] hit miss h = tt
  All-update_where P Q p f (x ∷ xs) hit miss h = (
    elim (Bool-cases (p x)) [ inl t ↦ rw t (hit x h.0 t) | inr e ↦ rw e (miss x h.0 e) ],
    All-update_where P Q p f xs hit miss h.1,
  )

  pub All-map : (P Q : A → Type 0) (xs : List A) → ((x : A) → P x → Q x) → All P xs → All Q xs
  All-map P Q [] k h = tt
  All-map P Q (x ∷ xs) k h = (k x h.0, All-map P Q xs k h.1)

  -- Where the update does not change which rows a second test finds, it finds the updated row.
  pub find-update_where :
      (q p : A → Bool) (f : A → A) (xs : List A)
      → ((x : A) → q (f x) ≡ q x)
      → (x : A) → find q xs ≡ some x
      → find q (update_where p f xs) ≡ some (if p x then f x else x)
  find-update_where q p f [] k x e = cc
  find-update_where q p f (y ∷ ys) k x e = ground (arith, k y, find-update_where q p f ys k x)

  -- Where the update keeps which rows fit, it updates the row that is found.
  pub find-updated :
      (p : A → Bool) (f : A → A) (xs : List A) (y : A)
      → ((x : A) → p (f x) ≡ p x)
      → find p (update_where p f xs) ≡ some y
      → (x : A) × (find p xs ≡ some x) × (y ≡ f x)
  find-updated p f [] y k e = absurd (never e)
    where
      never : none ≡ some y → ⊥
      never h = cc
  find-updated p f (x ∷ xs) y k e = elim (Bool-cases (p x)) [
    | inl t ↦ (x, ground arith, ground (arith, k x))
    | inr f' ↦
        let found = find-updated p f xs y k (ground arith) in
        (found.0, ground (arith, found.1), found.2)
  ]
