-- ===== src/Extension/Pricing.antt =====
-- The two prices under a discount: extension_service's and promo_service's.
use pix_vpn_service.Prelude.{ℕ, ◌-◌, ◌*◌, ◌/◌, ◌≡◌, refl, Option, none, some, arith}
use pix_vpn_service.Prelude.Int.{ℤ, pos, negsuc, ◌-ℤ◌, ◌*ℤ◌, ◌≤ℤ◌, floor_div}
use pix_vpn_service.Promo.{compute_discounted_price}
use pix_vpn_service.Promo.Price.{closed_form, negative_percent, compute_discounted_price_bounds}
use pix_vpn_service.Extension.{compute_extension_price}

extension_closed_form :
    (n p : ℕ) → compute_extension_price (pos n) (some (pos p)) ≡ pos (n * (100 - p) / 100)
unfolding compute_extension_price floor_div ◌*ℤ◌ ◌-ℤ◌
extension_closed_form n p = ground arith

extension_negative : (n p : ℕ) → compute_extension_price (pos n) (some (negsuc p)) ≡ pos n
unfolding compute_extension_price floor_div ◌*ℤ◌ ◌-ℤ◌
extension_negative n p = ground arith

-- The service's own discount, which clamps the percentage, and the one of the promo service, which
-- branches on it, give the same price for every percentage of a price that is not negative.
pub extension_price-eq-discounted_price :
    (base percent : ℤ)
    → pos 0 ≤ℤ base
    → compute_extension_price base (some percent) ≡ compute_discounted_price base percent
extension_price-eq-discounted_price (pos n) (pos p) h = rw (extension_closed_form, closed_form) refl
extension_price-eq-discounted_price (pos n) (negsuc p) h =
    rw (extension_negative, negative_percent) refl
extension_price-eq-discounted_price (negsuc n) p h = absurd (omega arith)

pub extension_price-nonneg :
    (base : ℤ) (percent : Option ℤ) → pos 0 ≤ℤ base → pos 0 ≤ℤ compute_extension_price base percent
unfolding compute_extension_price
extension_price-nonneg base none h = h
extension_price-nonneg base (some p) h =
    rw (extension_price-eq-discounted_price base p h) ((compute_discounted_price_bounds base p h).0)
