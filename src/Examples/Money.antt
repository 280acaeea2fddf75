-- ===== src/Examples/Money.antt =====
-- The theorems about money at the example shop.
use pix_vpn_service.Prelude.{ℕ, ◌≡◌, refl, inl, none, some, List, [], ◌∷◌, arith}
use pix_vpn_service.Prelude.Int.{ℤ, ◌+ℤ◌, pos, negsuc, ◌≤ℤ◌}
use pix_vpn_service.Db.{Provider}
use pix_vpn_service.Session.Preserves.{Preserves}
use pix_vpn_service.Env.{Env}
use pix_vpn_service.Ledger.{IsLedger, Books}
use pix_vpn_service.Promo.{
  compute_discounted_price, record_discount_activation, validate_and_apply, strip, strip_start,
  strip_end, is_empty, is_space, ensure_active_and_in_window, ensure_total_capacity,
  ensure_per_user_capacity, apply_by_type, apply_discount,
}
use pix_vpn_service.Promo.Price.{compute_discounted_price_antitone}
use pix_vpn_service.Promo.Limits.{some_once}
use pix_vpn_service.Promo.Limits.Uses.{Within, uses-Within}
use pix_vpn_service.Tariffs.{quote}
use pix_vpn_service.Tariffs.Quotes.{quote_bounds}
use pix_vpn_service.Balance.{purchase_with_balance}
use pix_vpn_service.Session.{
  ok, request, query, or_raise, raise_if, return, raise, on_error, caught, modify, ◌>>=◌,
}
use pix_vpn_service.Tables.{insert_payment, update_payment}
use pix_vpn_service.Invoices.{create_invoice_for_provider}
use pix_vpn_service.Extension.Request.Charge.{Billed, create_extension_payment-Costs}
use pix_vpn_service.Balance.Outcome.{ChargedOrKept, purchase_with_balance-ChargedOrKept}
use pix_vpn_service.Balance.Charged.{RaisesItsOwn}
use pix_vpn_service.Balance.Delivery.{purchase_with_balance-Succeeds}
use pix_vpn_service.Balance.Books.{purchase_with_balance-Books}
use pix_vpn_service.Balance.Shown.{Shows}
use pix_vpn_service.Referral.{apply_referrer_bonus}
use pix_vpn_service.Referral.Once.{apply_referrer_bonus_once}
use pix_vpn_service.Extension.{compute_extension_price, ExtensionPaymentResult}
use pix_vpn_service.Extension.Pricing.{extension_price-eq-discounted_price}
use pix_vpn_service.Extension.Request.{
  create_extension_payment, resolve_promo, apply_code, extend_via, extend_via_provider,
}
use pix_vpn_service.Extension.Request.Money.{create_extension_payment-Books}
use pix_vpn_service.Payments.{process_webhook_payment}
use pix_vpn_service.Payments.Money.{process_webhook_payment-Books}
use pix_vpn_service.Api.{
  Request, buy_request, topup_request, promo_request, webhook_request, adjust_request,
  extend_request, serve,
}
use pix_vpn_service.Api.History.{serve-IsLedger}
use pix_vpn_service.Examples.{
  gift, working, broken, anna, boris, invited, open_topup, open_extension, gift, spring, plus,
  month, shop, shop-IsLedger, at_shop,
}

abbrev busy_day : List (Env × Request)
busy_day =
    (working, webhook_request "ext-1" "paid" "{}")
    ∷ (broken, buy_request 101 3 4 (some 50))
    ∷ (working, promo_request 102 " GIFT ")
    ∷ (broken, webhook_request "ext-2" "Success" "{}")
    ∷ (working, extend_request 40 101 4 Provider.balance (some "SPRING"))
    ∷ (working, adjust_request 1 (negsuc 99))
    ∷ (working, topup_request 102 (pos 5000) Provider.cryptobot)
    ∷ []

serve-IsLedger_example : IsLedger (serve busy_day shop)
serve-IsLedger_example = serve-IsLedger busy_day shop shop-IsLedger

purchase_with_balance-Books_example :
    Preserves Books (purchase_with_balance broken anna 3 4 (some 50))
purchase_with_balance-Books_example = purchase_with_balance-Books broken anna 3 4 (some 50)

broken-RaisesItsOwn : RaisesItsOwn broken
broken-RaisesItsOwn r e failed = inl cc

-- With the code SPRING, and refunded: the balance is 50000 kopecks again.
purchase_with_balance-ChargedOrKept_example :
    ChargedOrKept 1
      (pos 50000)
      (quote (pos 19900) (some spring)).price
      (request (purchase_with_balance broken anna 3 4 (some 50)) shop)
purchase_with_balance-ChargedOrKept_example =
    purchase_with_balance-ChargedOrKept broken anna anna 3 4 (some 50) month shop
      broken-RaisesItsOwn refl refl

enough : (quote (pos 19900) (some spring)).price ≤ℤ pos 50000
enough = omega (arith, quote_bounds (pos 19900) (some spring) (omega arith))

purchase_with_balance-Succeeds_example :
    (x : ℕ × ℤ × ℕ) × ((purchase_with_balance working anna 3 4 (some 50) at_shop).0 ≡ ok x)
purchase_with_balance-Succeeds_example =
    purchase_with_balance-Succeeds working anna anna 4 (some 50) plus month at_shop refl refl refl
      refl refl enough (λ r. (_, refl))

process_webhook_payment-Books_example :
    Preserves Books (process_webhook_payment working "ext-1" "paid" "{}")
process_webhook_payment-Books_example = process_webhook_payment-Books working "ext-1" "paid" "{}"

create_extension_payment-Books_example :
    Preserves Books (create_extension_payment broken 40 4 anna Provider.balance none)
create_extension_payment-Books_example =
    create_extension_payment-Books broken 40 4 anna Provider.balance none

gift-Within : Within 51 1 at_shop
gift-Within = record {
  total = λ p found. let it : gift ≡ p = some_once _ _ _ refl found in rw (← it) (omega arith);
  of_user = λ p found. let it : gift ≡ p = some_once _ _ _ refl found in rw (← it) (omega arith);
}

uses-Within_example :
    Within 51 1 (validate_and_apply working "GIFT" anna at_shop).1
    × Within 51 1 (record_discount_activation 50 1 30 (pos 1990) at_shop).1
uses-Within_example = uses-Within working 51 1 "GIFT" anna 50 1 30 (pos 1990) at_shop gift-Within

apply_referrer_bonus_once_example :
    let s' = (apply_referrer_bonus working anna open_extension at_shop).1 in
    Shows 2 (pos 0 +ℤ pos 7000) s' × (apply_referrer_bonus broken anna open_topup s' ≡ (ok tt, s'))
apply_referrer_bonus_once_example =
    apply_referrer_bonus_once working broken anna open_extension open_topup invited boris at_shop
      refl refl refl refl

compute_discounted_price_antitone_example :
    compute_discounted_price (pos 199) (pos 20) ≤ℤ compute_discounted_price (pos 199) (pos 10)
compute_discounted_price_antitone_example =
    compute_discounted_price_antitone (pos 199) (pos 10) (pos 20) (omega arith) (omega arith)

quote_bounds_example :
    (pos 0 ≤ℤ (quote (pos 19900) (some spring)).price)
    × ((quote (pos 19900) (some spring)).price ≤ℤ pos 19900)
quote_bounds_example = quote_bounds (pos 19900) (some spring) (omega arith)

extension_price-eq-discounted_price_example :
    compute_extension_price (pos 19900) (some (pos 10))
    ≡ compute_discounted_price (pos 19900) (pos 10)
extension_price-eq-discounted_price_example =
    extension_price-eq-discounted_price (pos 19900) (pos 10) (omega arith)

abbrev invoiced_extension : ExtensionPaymentResult
invoiced_extension = record {
  payment_id = 100;
  amount_kopecks = pos 19900;
  payment_url = some "https://pay";
  key_url = none;
}

-- With the code SPRING for ten per cent.
create_extension_payment-Costs_example :
    Billed working Provider.cryptobot anna month.price_kopecks invoiced_extension
      (create_extension_payment working 40 4 anna Provider.cryptobot (some "SPRING") at_shop).1.live
unfolding create_extension_payment resolve_promo apply_code extend_via extend_via_provider
    validate_and_apply strip strip_start strip_end is_empty is_space ensure_active_and_in_window
    ensure_total_capacity ensure_per_user_capacity apply_by_type apply_discount
    compute_extension_price query or_raise raise_if return raise on_error caught insert_payment
    update_payment create_invoice_for_provider modify ◌>>=◌
create_extension_payment-Costs_example =
    create_extension_payment-Costs working 40 4 anna Provider.cryptobot (some "SPRING") month
      at_shop invoiced_extension refl refl
