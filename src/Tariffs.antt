-- ===== src/Tariffs.antt =====
-- backend/app/services/tariff_service.py: the lookups of a purchase, and the price of a duration
-- under an optional discount code, as balance_service and payment_service compute it.
pub mod Quotes
use pix_vpn_service.Prelude.{ℕ, Bool, not, ◌||◌, Option, none, some, find, ◌==◌, if◌then◌else◌}
use pix_vpn_service.Prelude.Int.{ℤ, pos, ◌≤ℤ◌, ◌-ℤ◌, leb_ℤ}
use pix_vpn_service.Db.{Db, Tariff, TariffDuration, PromoType, PromoCode, Meta}
use pix_vpn_service.Session.{
  Action, ◌>>=◌, query, or_raise, tariff_not_found, tariff_duration_not_found,
}
use pix_vpn_service.Tables.{find_tariff, find_duration, find_promo}
use pix_vpn_service.Promo.{compute_discounted_price}

-- A row that is there and passes the service's test.
abbrev pub active_tariff : Option Tariff → Option Tariff
active_tariff none = none
active_tariff (some t) = if t.is_active then some t else none

abbrev pub active_duration : ℕ → Option TariffDuration → Option TariffDuration
active_duration tid none = none
active_duration tid (some d) = if not d.is_active || not (d.tariff_id == tid) then none else some d

-- `TariffService.get_tariff_or_raise`
unfoldable pub get_tariff_or_raise : ℕ → Action Tariff
get_tariff_or_raise tid = do
  found ← query (find_tariff tid)
  or_raise (active_tariff found) tariff_not_found

-- `TariffService.get_duration_or_raise`
unfoldable pub get_duration_or_raise : ℕ → ℕ → Action TariffDuration
get_duration_or_raise tid did = do
  found ← query (find_duration did)
  or_raise (active_duration tid found) tariff_duration_not_found

-- The price to pay and, where a discount applies, the code's id and percentage.
pub record Quote : Type 0 where
  pub price : ℤ
  pub applied : Option (ℕ × ℤ)

abbrev pub quote_of : PromoType → ℤ → PromoCode → Quote
quote_of PromoType.discount_percent original p = record {
  price = compute_discounted_price original p.value;
  applied = some (p.id, p.value);
}
quote_of _ original p = record { price = original; applied = none }

unfoldable pub quote : ℤ → Option PromoCode → Quote
quote original none = record { price = original; applied = none }
quote original (some p) = quote_of p.type original p

-- The row that an optional `promo_id` names.
abbrev pub chosen_promo : Option ℕ → Db → Option PromoCode
chosen_promo none db = none
chosen_promo (some pid) db = find_promo pid db

abbrev pub no_meta : Meta
no_meta = record {
  promo_id = none;
  promo_type = none;
  discount_percent = none;
  original_amount_kopecks = none;
  promo_balance_kopecks = none;
  subscription_id = none;
  duration_id = none;
  days = none;
  is_extension = Bool.false;
  payment_url = none;
  provider_response = none;
  webhook_raw = none;
}

-- `promo_meta`
abbrev pub promo_meta : ℤ → Option (ℕ × ℤ) → Meta
promo_meta original none = no_meta
promo_meta original (some (pid, percent)) = record no_meta {
  promo_id = some pid;
  promo_type = some PromoType.discount_percent;
  discount_percent = some percent;
  original_amount_kopecks = some original;
}
