-- ===== src/Tariffs/Quotes.antt =====
-- The lookups of a purchase, and the price that it comes to.
use pix_vpn_service.Prelude.{ℕ, ◌≡◌, Option, none, some, All-find, arith}
use pix_vpn_service.Prelude.Int.{ℤ, pos, ◌≤ℤ◌}
use pix_vpn_service.Db.{TariffDuration, PromoType, PromoCode}
use pix_vpn_service.Session.{Session, ok, ◌>>=◌, or_raise}
use pix_vpn_service.Tables.{find_duration}
use pix_vpn_service.Ledger.{IsPriced}
use pix_vpn_service.Promo.Price.{compute_discounted_price_bounds}
use pix_vpn_service.Tariffs.{get_tariff_or_raise, get_duration_or_raise, quote, quote_of}

-- Whatever code is given, the quoted price lies between zero and the original price, where that is
-- not negative.
pub quote_bounds :
    (original : ℤ) (row : Option PromoCode)
    → pos 0 ≤ℤ original
    → (pos 0 ≤ℤ (quote original row).price) × ((quote original row).price ≤ℤ original)
unfolding quote
quote_bounds original none h = (h, omega arith)
quote_bounds original (some p) h = go p.type
  where
    go :
        (type : PromoType)
        → (pos 0 ≤ℤ (quote_of type original p).price)
          × ((quote_of type original p).price ≤ℤ original)
    go PromoType.discount_percent = compute_discounted_price_bounds original p.value h
    go PromoType.balance = (h, omega arith)
    go (PromoType.other t) = (h, omega arith)

pub get_tariff-reads : (tid : ℕ) (s : Session) → (get_tariff_or_raise tid s).1 ≡ s
unfolding get_tariff_or_raise ◌>>=◌ or_raise
get_tariff-reads tid s = ground arith

pub get_duration-reads : (tid did : ℕ) (s : Session) → (get_duration_or_raise tid did s).1 ≡ s
unfolding get_duration_or_raise ◌>>=◌ or_raise
get_duration-reads tid did s = ground arith

-- A duration that is found is the row with that id, of that tariff, and on sale.
pub get_duration-finds :
    (tid did : ℕ) (s : Session) (d : TariffDuration)
    → (get_duration_or_raise tid did s).0 ≡ ok d
    → find_duration did s.live ≡ some d
unfolding get_duration_or_raise ◌>>=◌ or_raise
get_duration-finds tid did s d h = ground arith

pub duration_priced :
    (tid did : ℕ) (s : Session) (d : TariffDuration)
    → (get_duration_or_raise tid did s).0 ≡ ok d
    → IsPriced s.live.durations
    → pos 0 ≤ℤ d.price_kopecks
duration_priced tid did s d h priced =
    All-find (λ (r : TariffDuration). pos 0 ≤ℤ r.price_kopecks) _ s.live.durations d priced
      (get_duration-finds tid did s d h)
