-- ===== src/Broadcasts/Keyboard.antt =====
-- The inline keyboard under a broadcast (`_build_reply_markup` of worker/app/tasks/broadcasts.py).
use pix_vpn_service.Prelude.{
  ℕ, zero, suc, ◌≤◌, min, ◌≡◌, refl, sym, ap, String, Option, none, some, List, [], ◌∷◌, ◌++◌,
  length, All, All-map, first_of, arith, ◌==◌, if◌then◌else◌,
}
use pix_vpn_service.Db.Contact.{Button}

-- A button with both its keys.
pub record UrlButton : Type 0 where
  pub text : String
  pub url : String

abbrev pub add_button : Option String → Option String → List UrlButton → List UrlButton
add_button (some t) (some u) rest = record { text = t; url = u } ∷ rest
add_button _ _ rest = rest

-- The entries that hold two strings, in their order.
unfoldable pub flat_buttons : List Button → List UrlButton
flat_buttons [] = []
flat_buttons (b ∷ bs) = add_button b.text b.url (flat_buttons bs)

-- `max(1, min(int(per_row or 1), 4))`
abbrev pub row_size : ℕ → ℕ
row_size n = if n == 0 then 1 else min n 4

-- `flat[i:]`
abbrev pub drop_of {ℓ} : {A : Type ℓ} → ℕ → List A → List A
drop_of zero xs = xs
drop_of (suc n) [] = []
drop_of (suc n) (x ∷ xs) = drop_of n xs

-- `[flat[i : i + per_row] for i in range(0, len(flat), per_row)]`: the slice at the next `i`, while
-- there is one. There are no more rows than buttons.
unfoldable pub rows_from : ℕ → ℕ → List UrlButton → List (List UrlButton)
rows_from zero size bs = []
rows_from (suc fuel) size [] = []
rows_from (suc fuel) size (b ∷ bs) =
    first_of size (b ∷ bs) ∷ rows_from fuel size (drop_of size (b ∷ bs))

abbrev pub keyboard_of : ℕ → List UrlButton → Option (List (List UrlButton))
keyboard_of size [] = none
keyboard_of size (b ∷ bs) = some (rows_from (length (b ∷ bs)) size (b ∷ bs))

-- `_build_reply_markup`
unfoldable pub build_reply_markup : Option (List Button) → ℕ → Option (List (List UrlButton))
unfolding flat_buttons rows_from
build_reply_markup none per_row = none
build_reply_markup (some buttons) per_row = keyboard_of (row_size per_row) (flat_buttons buttons)

row_size_bounds : (n : ℕ) → (1 ≤ row_size n) × (row_size n ≤ 4)
row_size_bounds n = (ground arith, ground arith)

abbrev pub flatten {ℓ} : {A : Type ℓ} → List (List A) → List A
flatten [] = []
flatten (row ∷ rows) = row ++ flatten rows

first++drop : (n : ℕ) (bs : List UrlButton) → first_of n bs ++ drop_of n bs ≡ bs
first++drop zero bs = refl
first++drop (suc n) [] = refl
first++drop (suc n) (b ∷ bs) = ap (λ rest. b ∷ rest) (first++drop n bs)

length-drop : (n : ℕ) (bs : List UrlButton) → length (drop_of n bs) ≤ length bs
length-drop zero bs = omega arith
length-drop (suc n) [] = omega arith
length-drop (suc n) (b ∷ bs) = omega (arith, length-drop n bs)

-- The rows put together again are the buttons.
flatten-rows_from :
    (fuel size : ℕ) (bs : List UrlButton)
    → 1 ≤ size
    → length bs ≤ fuel
    → flatten (rows_from fuel size bs) ≡ bs
unfolding rows_from
flatten-rows_from zero size [] positive enough = refl
flatten-rows_from (suc fuel) size [] positive enough = refl
flatten-rows_from zero size (b ∷ bs) positive enough = absurd (omega arith)
flatten-rows_from (suc fuel) zero (b ∷ bs) positive enough = absurd (omega arith)
flatten-rows_from (suc fuel) (suc size) (b ∷ bs) positive enough =
    let shorter : length (drop_of size bs) ≤ fuel = omega (arith, length-drop size bs) in
    rw (flatten-rows_from fuel (suc size) (drop_of size bs) positive shorter)
      (first++drop (suc size) (b ∷ bs))

abbrev pub Fits : ℕ → List UrlButton → Type 0
Fits size row = (1 ≤ length row) × (length row ≤ size)

length-first_of : (n : ℕ) (bs : List UrlButton) → length (first_of n bs) ≤ n
length-first_of zero bs = omega arith
length-first_of (suc n) [] = omega arith
length-first_of (suc n) (b ∷ bs) = omega (arith, length-first_of n bs)

rows_from-Fits :
    (fuel size : ℕ) (bs : List UrlButton) → 1 ≤ size → All (Fits size) (rows_from fuel size bs)
unfolding rows_from
rows_from-Fits zero size bs positive = tt
rows_from-Fits (suc fuel) size [] positive = tt
rows_from-Fits (suc fuel) zero (b ∷ bs) positive = absurd (omega arith)
rows_from-Fits (suc fuel) (suc size) (b ∷ bs) positive = (
  (omega arith, omega (arith, length-first_of size bs)),
  rows_from-Fits fuel (suc size) _ positive,
)

keyboard_of-rows :
    (size : ℕ) (bs : List UrlButton) (rows : List (List UrlButton))
    → 1 ≤ size
    → size ≤ 4
    → keyboard_of size bs ≡ some rows
    → (flatten rows ≡ bs) × All (Fits 4) rows
keyboard_of-rows size [] rows positive small e = absurd (never e)
  where
    never : none ≡ some rows → ⊥
    never h = cc
keyboard_of-rows size (b ∷ bs) rows positive small e =
    let fuel = length (b ∷ bs) in
    let same : rows_from fuel size (b ∷ bs) ≡ rows = cc in
    rw (sym same) (
      flatten-rows_from fuel size (b ∷ bs) positive (omega arith),
      All-map (Fits size) (Fits 4) (rows_from fuel size (b ∷ bs)) (λ row h. (h.0, omega arith))
          (rows_from-Fits fuel size (b ∷ bs) positive),
    )

-- The rows of a keyboard put one after the other are the buttons that have a text and an address, in
-- their order, and each row holds between one and four of them.
pub build_reply_markup_rows :
    (buttons : List Button) (per_row : ℕ) (rows : List (List UrlButton))
    → build_reply_markup (some buttons) per_row ≡ some rows
    → (flatten rows ≡ flat_buttons buttons) × All (Fits 4) rows
unfolding build_reply_markup
build_reply_markup_rows buttons per_row rows e =
    let bounds = row_size_bounds per_row in
    keyboard_of-rows (row_size per_row) (flat_buttons buttons) rows bounds.0 bounds.1 e
