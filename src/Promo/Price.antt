-- ===== src/Promo/Price.antt =====
-- The bounds of `compute_discounted_price`.
use pix_vpn_service.Prelude.{ℕ, ◌-◌, ◌*◌, ◌/◌, ◌≤◌, ◌≡◌, arith}
use pix_vpn_service.Prelude.Int.{ℤ, pos, negsuc, ◌-ℤ◌, ◌*ℤ◌, ◌≤ℤ◌, floor_div}
use pix_vpn_service.Promo.{compute_discounted_price}

scaled-le : (n k : ℕ) → k ≤ 100 → n * k / 100 ≤ n
scaled-le n k h = let product : n * k ≤ n * 100 = grind arith in omega arith

scaled_mono : (n k j : ℕ) → k ≤ j → n * k / 100 ≤ n * j / 100
scaled_mono n k j h = let product : n * k ≤ n * j = grind arith in omega arith

-- A percentage of zero or less leaves the price.
pub negative_percent : (price : ℤ) (p : ℕ) → compute_discounted_price price (negsuc p) ≡ price
unfolding compute_discounted_price
negative_percent price p = ground arith

-- On a price and a percentage that are not negative, the branches and the one formula agree.
pub closed_form : (n p : ℕ) → compute_discounted_price (pos n) (pos p) ≡ pos (n * (100 - p) / 100)
unfolding compute_discounted_price floor_div ◌*ℤ◌ ◌-ℤ◌
closed_form n p = ground arith

-- A discount by any percentage, also one out of range, leaves a price between 0 and the full price,
-- where the full price is not negative.
pub compute_discounted_price_bounds :
    (price percent : ℤ)
    → pos 0 ≤ℤ price
    → (pos 0 ≤ℤ compute_discounted_price price percent)
      × (compute_discounted_price price percent ≤ℤ price)
compute_discounted_price_bounds (pos n) (pos p) h =
    rw closed_form (omega arith, omega (arith, scaled-le n (100 - p) (omega arith)))
compute_discounted_price_bounds (pos n) (negsuc p) h =
    rw negative_percent (omega arith, omega arith)
compute_discounted_price_bounds (negsuc n) p h = absurd (omega arith)

-- A larger percentage never gives a higher price, of a full price that is not negative.
pub compute_discounted_price_antitone :
    (price p q : ℤ)
    → pos 0 ≤ℤ price
    → p ≤ℤ q
    → compute_discounted_price price q ≤ℤ compute_discounted_price price p
compute_discounted_price_antitone (pos n) (pos p) (pos q) h le =
    simp closed_form (omega (arith, scaled_mono n (100 - q) (100 - p) (omega arith)))
compute_discounted_price_antitone (pos n) (pos p) (negsuc q) h le = absurd (omega arith)
compute_discounted_price_antitone (pos n) (negsuc p) (pos q) h le =
    simp (closed_form, negative_percent) (omega (arith, scaled-le n (100 - q) (omega arith)))
compute_discounted_price_antitone (pos n) (negsuc p) (negsuc q) h le =
    simp negative_percent (omega arith)
compute_discounted_price_antitone (negsuc n) p q h le = absurd (omega arith)
