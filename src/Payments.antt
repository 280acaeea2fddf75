-- ===== src/Payments.antt =====
-- backend/app/services/payment_service.py: the payments that are created with a provider, and the
-- webhook that settles them.
pub mod Readings
pub mod Create
pub mod Money
pub mod Settled
pub mod Topup
use Prim.Native.Char.{code as char_code}
use Prim.Native.String.{String}
use pix_vpn_service.Prelude.{
  ℕ, ◌+◌, ◌*◌, Bool, true, false, not, ◌&&◌, ◌||◌, Option, none, some, List, [], ◌∷◌, leb, ltb,
  ◌==◌, str_eq, if◌then◌else◌,
}
use pix_vpn_service.Prelude.Int.{ℤ, pos, ◌+ℤ◌, ◌-ℤ◌, ltb_ℤ, max_zero}
use pix_vpn_service.Db.{
  Db, User, Tariff, SubStatus, Subscription, PaymentStatus, Purpose, PromoType, Meta, Payment,
  Reason, Payload,
}
use pix_vpn_service.Session.{
  Error, Result, ok, err, Action, return, raise, query, or_raise, ◌>>=◌, ◌>>◌, best_effort,
  user_not_found,
}
use pix_vpn_service.Env.{Env, KeyRequest, KeyResponse}
use pix_vpn_service.Tables.{
  find_user, find_tariff, find_external, post_entry, update_subscription, update_payment,
}
use pix_vpn_service.Promo.{record_discount_activation}
use pix_vpn_service.Balance.{day_seconds}
use pix_vpn_service.Outbox.{enqueue_message}
use pix_vpn_service.Referral.{is_topup, apply_referrer_bonus}
use pix_vpn_service.Payments.Readings.{
  classify, is_some, is_extend, pays_extension, is_discount, amount_or_zero, text_or_empty,
  nonempty, tariff_lte, tariff_unlimited, tariff_code,
}
use pix_vpn_service.Extension.{nonzero, notify, chosen_subscription, apply_extension_after_payment}

-- What a webhook is answered.
pub data Answer : Type 0 where
  unknown_payment already_terminal unknown_status : Answer
  settled : (payment_id : ℕ) (status : PaymentStatus) → Answer

-- `payment.status in {"paid", "refunded"}`
abbrev pub is_terminal : PaymentStatus → Bool
is_terminal PaymentStatus.paid = true
is_terminal PaymentStatus.refunded = true
is_terminal _ = false

-- `meta["webhook_raw"] = raw_meta` with the new status.
abbrev pub with_status : PaymentStatus → String → Payment → Payment
with_status status raw p = record p {
  status = status;
  extra = record (p.extra) { webhook_raw = some raw };
}

abbrev pub paid_at_time : ℕ → String → Payment → Payment
paid_at_time now raw p = record p {
  status = PaymentStatus.paid;
  paid_at = some now;
  extra = record (p.extra) { webhook_raw = some raw };
}

module _ (env : Env) where
  -- `_apply_referral_bonus_safe` and `_record_promo_activation_safe`
  pub bonus_for : Option User → Payment → Action (Unit {0})
  bonus_for none payment = return tt
  bonus_for (some user) payment = apply_referrer_bonus env user payment

  pub apply_referral_bonus_safe : Payment → Action (Unit {0})
  apply_referral_bonus_safe payment =
      best_effort (do user ← query (find_user payment.user_id); bonus_for user payment)

  pub record_promo : Option ℕ → Payment → Action (Unit {0})
  record_promo none payment = return tt
  record_promo (some promo_id) payment =
      if is_discount payment.extra.promo_type payment.extra.discount_percent
      then best_effort (
          record_discount_activation promo_id payment.user_id payment.id (
            max_zero
              (amount_or_zero payment.extra.original_amount_kopecks -ℤ payment.amount_kopecks)))
      else return tt

  pub record_promo_activation_safe : Payment → Action (Unit {0})
  record_promo_activation_safe payment = record_promo (nonzero payment.extra.promo_id) payment

  abbrev key_request : Option Tariff → Payment → Subscription → KeyRequest
  key_request tariff payment sub = record {
    days = sub.days;
    devices = sub.devices;
    lte_gb = tariff_lte tariff;
    unlimited_traffic = tariff_unlimited tariff;
    tariff_code = tariff_code tariff;
    is_free_trial = false;
    subscription_id = sub.id;
    payment_id = some payment.id;
  }

  abbrev pub provisioned : KeyResponse → Subscription → Subscription
  provisioned key r = record r {
    status = SubStatus.active;
    provider_subscription_id = nonempty key.subscription_id;
    key_url = key.key;
    started_at = some env.now;
    expires_at = some (env.now + r.days * day_seconds);
  }

  -- `_provision_subscription_key` behind the answer of NorthLine. Any exception of the client ends
  -- here; only the message to a user who is missing raises.
  pub provision_after : Result KeyResponse → Payment → Subscription → Action (Unit {0})
  provision_after (err e) payment sub = do
    update_subscription sub.id (λ r. record r { status = SubStatus.failed_provider })
    user ← query (find_user payment.user_id)
    notify env user Payload.vpn_provider_failed_after_payment
  provision_after (ok key) payment sub = do
    update_subscription sub.id (provisioned key)
    found ← query (find_user payment.user_id)
    user ← or_raise found user_not_found
    notify env (some user) (Payload.subscription_key payment.id (text_or_empty key.key))

  pub provision_found : Option Subscription → Payment → Action (Unit {0})
  provision_found none payment = return tt
  provision_found (some sub) payment = do
    tariff ← query (find_tariff sub.tariff_id)
    provision_after (env.create_key (key_request tariff payment sub)) payment sub

  -- `_provision_subscription_key`
  pub provision_subscription_key : Payment → Action (Unit {0})
  provision_subscription_key payment = do
    sub ← query (chosen_subscription payment.subscription_id)
    provision_found sub payment

  pub credit_found : Option User → Payment → Action (Unit {0})
  credit_found none payment = return tt
  credit_found (some user) payment = do
    let new_balance = user.balance_kopecks +ℤ payment.amount_kopecks
    post_entry payment.user_id new_balance λ n. record {
      id = n;
      user_id = payment.user_id;
      amount_kopecks = payment.amount_kopecks;
      reason = Reason.topup;
      ref_payment_id = some payment.id;
      ref_subscription_id = none;
      balance_after_kopecks = new_balance;
    }
    notify env (some user) (Payload.topup_succeeded payment.id payment.amount_kopecks new_balance)

  -- `_credit_topup`
  pub credit_topup : Payment → Action (Unit {0})
  credit_topup payment = do user ← query (find_user payment.user_id); credit_found user payment

  pub deliver_paid : Purpose → Payment → Action (Unit {0})
  deliver_paid Purpose.subscription payment = provision_subscription_key payment
  deliver_paid Purpose.topup payment = credit_topup payment
  deliver_paid _ payment = return tt

  -- The hooks behind a real paid order: not a top-up, and not free.
  pub run_hooks : Payment → Action (Unit {0})
  run_hooks payment =
      if not (is_topup payment.purpose) && ltb_ℤ (pos 0) payment.amount_kopecks
      then (do apply_referral_bonus_safe payment; record_promo_activation_safe payment)
      else return tt

  -- `_handle_paid` once the payment is marked paid.
  pub after_paid : Payment → Action Answer
  after_paid payment = do
    if pays_extension payment
        then apply_extension_after_payment env payment
        else deliver_paid payment.purpose payment
    run_hooks payment
    return (settled payment.id PaymentStatus.paid)

  -- `_handle_paid`
  pub handle_paid : Payment → String → Action Answer
  handle_paid row raw = do
    update_payment row.id (paid_at_time env.now raw)
    after_paid (paid_at_time env.now raw row)

  abbrev pub fail_pending : Subscription → Subscription
  fail_pending r = elim r.status [
    | SubStatus.pending ↦ record r { status = SubStatus.failed }
    | _ ↦ r
  ]

  pub fail_subscription : Option ℕ → Action (Unit {0})
  fail_subscription none = return tt
  fail_subscription (some sid) = update_subscription sid fail_pending

  -- `_handle_failed`
  pub handle_failed : Payment → String → Action Answer
  handle_failed payment raw = do
    update_payment payment.id (with_status PaymentStatus.failed raw)
    fail_subscription payment.subscription_id
    user ← query (find_user payment.user_id)
    notify env user (Payload.payment_failed payment.id)
    return (settled payment.id PaymentStatus.failed)

-- `_handle_expired`
pub handle_expired : Payment → String → Action Answer
handle_expired payment raw = do
  update_payment payment.id (with_status PaymentStatus.expired raw)
  return (settled payment.id PaymentStatus.expired)

module _ (env : Env) where
  pub handle_status : Option PaymentStatus → Payment → String → Action Answer
  handle_status (some PaymentStatus.paid) payment raw = handle_paid env payment raw
  handle_status (some PaymentStatus.failed) payment raw = handle_failed env payment raw
  handle_status (some PaymentStatus.expired) payment raw = handle_expired payment raw
  handle_status _ payment raw = return unknown_status

  pub process_found : Option Payment → String → String → Action Answer
  process_found none status_value raw = return unknown_payment
  process_found (some payment) status_value raw =
      if is_terminal payment.status
      then return already_terminal
      else handle_status (classify status_value) payment raw

  -- `PaymentService.process_webhook_payment`
  pub process_webhook_payment : String → String → String → Action Answer
  process_webhook_payment external_id status_value raw = do
    payment ← query (find_external external_id)
    process_found payment status_value raw
