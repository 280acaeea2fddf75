-- ===== src/Payments/Readings.antt =====
-- What the webhook reads (backend/app/services/payment_service.py): the words of a status, and values
-- that may be absent.
use Prim.Native.Char.{code as char_code}
use Prim.Native.String.{String}
use pix_vpn_service.Prelude.{
  ℕ, ◌+◌, Bool, true, false, not, ◌&&◌, ◌||◌, Option, none, some, List, [], ◌∷◌, leb, ◌==◌, str_eq,
  if◌then◌else◌,
}
use pix_vpn_service.Prelude.Int.{ℤ, pos}
use pix_vpn_service.Db.{Tariff, PaymentStatus, Purpose, PromoType, Payment}
use pix_vpn_service.Referral.{is_topup}
use pix_vpn_service.Extension.{nonzero}

-- `str.lower` on the letters that the words below have.
lower : ℕ → ℕ
lower c = if leb b'A' c && leb c b'Z' then c + 32 else c

lower_codes : String → List ℕ
unfolding lower
lower_codes String.[] = []
lower_codes (String.◌∷◌ c s) = lower (char_code c) ∷ lower_codes s

same_codes : List ℕ → List ℕ → Bool
same_codes [] [] = true
same_codes (x ∷ xs) (y ∷ ys) = (x == y) && same_codes xs ys
same_codes _ _ = false

is_word : String → String → Bool
unfolding lower_codes same_codes
is_word status word = same_codes (lower_codes status) (lower_codes word)

-- The three sets of words that `process_webhook_payment` knows.
unfoldable pub classify : String → Option PaymentStatus
unfolding is_word
classify s =
    if is_word s "paid" || is_word s "success" || is_word s "succeeded" || is_word s "completed"
    then some PaymentStatus.paid
    else if is_word s "failed" || is_word s "fail" || is_word s "error"
    then some PaymentStatus.failed
    else if is_word s "expired" || is_word s "cancelled" || is_word s "canceled"
    then some PaymentStatus.expired
    else none

abbrev pub is_some : {A : Type 0} → Option A → Bool
is_some none = false
is_some (some a) = true

abbrev pub is_extend : Purpose → Bool
is_extend Purpose.extend_subscription = true
is_extend _ = false

-- `is_extension` of `_handle_paid`
abbrev pub pays_extension : Payment → Bool
pays_extension p =
    not (is_topup p.purpose)
    && is_some (nonzero p.extra.subscription_id)
    && (is_extend p.purpose || p.extra.is_extension)

-- `promo_type`, with the fallback on `discount_percent`
abbrev pub is_discount : Option PromoType → Option ℤ → Bool
is_discount (some PromoType.discount_percent) percent = true
is_discount (some t) percent = false
is_discount none percent = is_some percent

abbrev pub amount_or_zero : Option ℤ → ℤ
amount_or_zero none = pos 0
amount_or_zero (some a) = a

abbrev pub text_or_empty : Option String → String
text_or_empty none = ""
text_or_empty (some t) = t

-- `x or None` on a text
abbrev pub nonempty : Option String → Option String
nonempty none = none
nonempty (some t) = if str_eq t "" then none else some t

abbrev pub tariff_lte : Option Tariff → Option ℕ
tariff_lte none = none
tariff_lte (some t) = some t.lte_gb_per_month

abbrev pub tariff_unlimited : Option Tariff → Bool
tariff_unlimited none = false
tariff_unlimited (some t) = t.is_unlimited_traffic

abbrev pub tariff_code : Option Tariff → Option String
tariff_code none = none
tariff_code (some t) = some t.code
