-- ===== src/Payments/Create.antt =====
-- `create_subscription_payment` and `create_topup_payment` of payment_service.py.
pub mod Money
use pix_vpn_service.Prelude.{
  ℕ, ◌+◌, ◌*◌, Bool, true, false, String, Option, none, some, ◌==◌, if◌then◌else◌,
}
use pix_vpn_service.Prelude.Int.{ℤ, pos, ltb_ℤ, ◌≤ℤ◌}
use pix_vpn_service.Db.{
  Tariff, TariffDuration, SubStatus, Subscription, PaymentStatus, Purpose, Provider, Meta, Payment,
}
use pix_vpn_service.Session.{
  Session, Action, return, query, or_raise, ◌>>=◌, ◌>>◌, raise_if, tariff_not_found,
  duration_not_found, topup_amount_too_small,
}
use pix_vpn_service.Session.Preserves.{Preserves, then_preserves}
use pix_vpn_service.Session.Steps.{Ends, query_then, or_raise_then, raise_if_then, then_at}
use pix_vpn_service.Env.{Env, Invoice}
use pix_vpn_service.Tables.{
  find_tariff, find_duration, insert_subscription, insert_payment, update_payment,
}
use pix_vpn_service.Tariffs.{Quote, quote, chosen_promo, no_meta, promo_meta}
use pix_vpn_service.Invoices.{create_invoice_for_provider, invoiced}

abbrev pub min_topup_kopecks : ℤ
min_topup_kopecks = pos 1000

-- What the two requests return.
pub record PaymentCreated : Type 0 where
  pub payment_id : ℕ
  pub subscription_id : Option ℕ
  pub payment_url : String
  pub expires_at : ℕ
  pub amount_kopecks : ℤ

-- `duration is None or duration.tariff_id != tariff_id`. Neither row has to be active here.
abbrev pub duration_of : ℕ → Option TariffDuration → Option TariffDuration
duration_of tid none = none
duration_of tid (some d) = if d.tariff_id == tid then some d else none

module _ (env : Env) where
  abbrev pub pending_payment : ℕ → Option ℕ → Purpose → Provider → ℤ → Meta → ℕ → Payment
  pending_payment user_id sub_id purpose provider amount extra n = record {
    id = n;
    user_id = user_id;
    subscription_id = sub_id;
    purpose = purpose;
    provider = provider;
    external_id = none;
    amount_kopecks = amount;
    status = PaymentStatus.pending;
    paid_at = none;
    extra = extra;
    created_at = env.now;
  }

  -- The pending payment, its invoice, and the answer: what both requests end with.
  pub open_payment : ℕ → Option ℕ → Purpose → Provider → ℤ → Meta → Action PaymentCreated
  open_payment user_id sub_id purpose provider amount extra = do
    payment ← insert_payment (pending_payment user_id sub_id purpose provider amount extra)
    invoice ← create_invoice_for_provider env provider payment.id amount
    update_payment payment.id (invoiced invoice)
    return (record {
      payment_id = payment.id;
      subscription_id = sub_id;
      payment_url = invoice.payment_url;
      expires_at = env.now + 60 * env.payment_pending_ttl_minutes;
      amount_kopecks = amount;
    })

  abbrev pub ordered_subscription : ℕ → Tariff → TariffDuration → ℕ → Subscription
  ordered_subscription user_id tariff duration n = record {
    id = n;
    user_id = user_id;
    tariff_id = tariff.id;
    tariff_duration_id = some duration.id;
    devices = tariff.devices;
    days = duration.days;
    status = SubStatus.pending;
    provider_subscription_id = none;
    key_url = none;
    started_at = none;
    expires_at = none;
    deactivated_at = none;
    deactivation_reason = none;
    is_free_trial = false;
  }

  -- `create_subscription_payment`
  pub create_subscription_payment : ℕ → ℕ → ℕ → Provider → Option ℕ → Action PaymentCreated
  create_subscription_payment user_id tariff_id duration_id provider promo_id = do
    tariff_row ← query (find_tariff tariff_id)
    duration_row ← query (find_duration duration_id)
    tariff ← or_raise tariff_row tariff_not_found
    duration ← or_raise (duration_of tariff_id duration_row) duration_not_found
    promo_row ← query (chosen_promo promo_id)
    let q = quote duration.price_kopecks promo_row
    sub ← insert_subscription (ordered_subscription user_id tariff duration)
    open_payment user_id (some sub.id) Purpose.subscription provider q.price
        (promo_meta duration.price_kopecks q.applied)

  -- `create_topup_payment`
  pub create_topup_payment : ℕ → ℤ → Provider → Action PaymentCreated
  create_topup_payment user_id amount provider = do
    raise_if (ltb_ℤ amount min_topup_kopecks) topup_amount_too_small
    open_payment user_id none Purpose.topup provider amount no_meta
