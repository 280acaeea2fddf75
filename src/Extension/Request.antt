-- ===== src/Extension/Request.antt =====
-- `create_extension_payment` and `_extend_via_balance` of extension_service.py.
pub mod Money
pub mod Held
pub mod Charge
use pix_vpn_service.Prelude.{
  ℕ, Bool, true, false, not, ◌||◌, String, Option, none, some, ◌==◌, str_eq, if◌then◌else◌,
}
use pix_vpn_service.Prelude.Int.{ℤ, ◌-ℤ◌, ltb_ℤ, neg}
use pix_vpn_service.Db.{
  User, TariffDuration, SubStatus, Subscription, PaymentStatus, Purpose, Provider, Meta, Payment,
  Reason,
}
use pix_vpn_service.Session.{
  Error, Action, return, raise, query, or_raise, ◌>>=◌, ◌>>◌, raise_if, on_error,
  insufficient_balance, northline_unavailable, northline_client, duration_not_found, user_not_found,
  subscription_not_found, subscription_not_extendable, promo_invalid,
}
use pix_vpn_service.Env.{Env}
use pix_vpn_service.Tables.{
  find_user, find_subscription, find_duration, set_balance, insert_transaction, insert_payment,
  update_payment,
}
use pix_vpn_service.Promo.{validate_and_apply}
use pix_vpn_service.Invoices.{create_invoice_for_provider, invoiced}
use pix_vpn_service.Extension.{
  compute_extension_price, Applied, nothing_applied, applied_of, extension_meta,
  ExtensionPaymentResult, call_northline_extend, refund_extension,
}

abbrev pub is_active : SubStatus → Bool
is_active SubStatus.active = true
is_active _ = false

-- `not sub.provider_subscription_id`
abbrev pub is_blank : Option String → Bool
is_blank none = true
is_blank (some t) = str_eq t ""

-- The subscription, if the user owns it.
abbrev pub owned_by : ℕ → Option Subscription → Option Subscription
owned_by uid none = none
owned_by uid (some r) = if r.user_id == uid then some r else none

-- The duration, if it belongs to the tariff.
abbrev pub of_tariff : ℕ → Option TariffDuration → Option TariffDuration
of_tariff tid none = none
of_tariff tid (some d) = if d.tariff_id == tid then some d else none

module _ (env : Env) where
  -- Any exception of the promo service becomes `promo_invalid`.
  unfoldable pub apply_code : String → User → Action Applied
  apply_code code user =
      on_error (do r ← validate_and_apply env code user; return (applied_of r))
        (λ e. raise promo_invalid)

  unfoldable pub resolve_promo : Option String → User → Action Applied
  resolve_promo none user = return nothing_applied
  resolve_promo (some code) user =
      if str_eq code "" then return nothing_applied else apply_code code user

  abbrev pub extension_payment :
      User → Subscription → Provider → ℤ → PaymentStatus → Option ℕ → Meta → ℕ → Payment
  extension_payment user sub provider amount status paid_at extra n = record {
    id = n;
    user_id = user.id;
    subscription_id = some sub.id;
    purpose = Purpose.extend_subscription;
    provider = provider;
    external_id = none;
    amount_kopecks = amount;
    status = status;
    paid_at = paid_at;
    extra = extra;
    created_at = env.now;
  }

  -- What `_extend_via_balance` does about an exception of the NorthLine client.
  pub refund_and_raise : Payment → ℕ → ℤ → Error → Action (Unit {0})
  refund_and_raise payment sub_id amount northline_unavailable = do
    refund_extension env payment sub_id amount
    raise northline_unavailable
  refund_and_raise payment sub_id amount northline_client = do
    refund_extension env payment sub_id amount
    raise northline_unavailable
  refund_and_raise payment sub_id amount e = raise e

  -- `_extend_via_balance` once the balance is set.
  pub record_extension : User → Subscription → ℤ → Meta → ℤ → Action ExtensionPaymentResult
  record_extension user sub amount extra new_balance = do
    payment ←
        insert_payment (
          extension_payment user sub Provider.balance amount PaymentStatus.paid (some env.now)
            extra)
    insert_transaction λ n. record {
      id = n;
      user_id = user.id;
      amount_kopecks = neg amount;
      reason = Reason.purchase;
      ref_payment_id = some payment.id;
      ref_subscription_id = some sub.id;
      balance_after_kopecks = new_balance;
    }
    on_error (call_northline_extend env payment sub) (refund_and_raise payment sub.id amount)
    return (record {
      payment_id = payment.id;
      amount_kopecks = amount;
      payment_url = none;
      key_url = sub.key_url;
    })

  -- `_extend_via_balance`
  pub extend_via_balance : User → Subscription → ℤ → Meta → Action ExtensionPaymentResult
  extend_via_balance user sub amount extra = do
    row ← query (find_user user.id)
    locked_user ← or_raise row user_not_found
    raise_if (ltb_ℤ locked_user.balance_kopecks amount) insufficient_balance
    let new_balance = locked_user.balance_kopecks -ℤ amount
    set_balance user.id new_balance
    record_extension user sub amount extra new_balance

  -- The path through an external provider.
  unfoldable pub extend_via_provider :
      User → Subscription → Provider → ℤ → Meta → Action ExtensionPaymentResult
  extend_via_provider user sub provider amount extra = do
    payment ←
        insert_payment (extension_payment user sub provider amount PaymentStatus.pending none extra)
    invoice ← create_invoice_for_provider env provider payment.id amount
    update_payment payment.id (invoiced invoice)
    return (record {
      payment_id = payment.id;
      amount_kopecks = amount;
      payment_url = some invoice.payment_url;
      key_url = none;
    })

  unfoldable pub extend_via :
      Provider → User → Subscription → ℤ → Meta → Action ExtensionPaymentResult
  extend_via Provider.balance user sub amount extra = extend_via_balance user sub amount extra
  extend_via provider user sub amount extra = extend_via_provider user sub provider amount extra

  -- `create_extension_payment`
  unfoldable pub create_extension_payment :
      ℕ → ℕ → User → Provider → Option String → Action ExtensionPaymentResult
  create_extension_payment subscription_id duration_id user provider promo_code = do
    row ← query (find_subscription subscription_id)
    sub ← or_raise (owned_by user.id row) subscription_not_found
    raise_if (not (is_active sub.status)) subscription_not_extendable
    raise_if (is_blank sub.provider_subscription_id) subscription_not_extendable
    duration_row ← query (find_duration duration_id)
    duration ← or_raise (of_tariff sub.tariff_id duration_row) duration_not_found
    applied ← resolve_promo promo_code user
    extend_via provider user sub
        (compute_extension_price duration.price_kopecks applied.discount_percent)
        (extension_meta sub duration applied)
