-- ===== src/Extension.antt =====
-- backend/app/services/extension_service.py: a paid extension of an active subscription, from the
-- balance at once or after the webhook of a provider, with the refund when NorthLine refuses it.
pub mod Money
pub mod Pricing
pub mod Request
use pix_vpn_service.Prelude.{
  ℕ, zero, suc, ◌+◌, ◌*◌, Bool, true, false, not, ◌||◌, String, Option, none, some, ltb, ◌==◌,
  str_eq, if◌then◌else◌,
}
use pix_vpn_service.Prelude.Int.{
  ℤ, pos, ◌+ℤ◌, ◌-ℤ◌, ◌*ℤ◌, ltb_ℤ, leb_ℤ, is_zero, max_zero, neg, floor_div,
}
use pix_vpn_service.Db.{
  Db, User, TariffDuration, SubStatus, Subscription, PaymentStatus, Purpose, Provider, PromoType,
  Meta, Payment, Reason, Payload,
}
use pix_vpn_service.Session.{
  Error, Result, ok, err, Action, return, raise, query, or_raise, ◌>>=◌, ◌>>◌, raise_if, commit,
  on_error, insufficient_balance, northline_unavailable, northline_client, duration_not_found,
  user_not_found, subscription_not_found, subscription_not_extendable, promo_invalid,
  payment_provider_unavailable, unknown_provider,
}
use pix_vpn_service.Env.{Env, Invoice}
use pix_vpn_service.Tables.{
  find_user, find_subscription, find_duration, set_balance, post_entry, insert_transaction,
  update_subscription, insert_payment, update_payment,
}
use pix_vpn_service.Promo.{PromoApplyResult, validate_and_apply}
use pix_vpn_service.Tariffs.{no_meta}
use pix_vpn_service.Balance.{day_seconds}
use pix_vpn_service.Outbox.{enqueue_message}

-- `max(0, min(100, percent))`
abbrev clamp_percent : ℤ → ℤ
clamp_percent p = if leb_ℤ (pos 100) p then pos 100 else max_zero p

-- `_compute_discounted_price`
unfoldable pub compute_extension_price : ℤ → Option ℤ → ℤ
compute_extension_price base none = base
compute_extension_price base (some percent) =
    if is_zero percent
    then base
    else max_zero (floor_div (base *ℤ (pos 100 -ℤ clamp_percent percent)) 100)

-- `or None` on a number
abbrev pub nonzero : Option ℕ → Option ℕ
nonzero none = none
nonzero (some zero) = none
nonzero (some (suc n)) = some (suc n)

abbrev pub or_else : Option ℕ → ℕ → ℕ
or_else none d = d
or_else (some n) d = n

-- What the service takes from the result of a promo code. Its `discount_percent` and `value` are
-- looked up by name, and `PromoApplyResult` has neither, so no percentage is ever found.
pub record Applied : Type 0 where
  pub promo_id : Option ℕ
  pub promo_type : Option PromoType
  pub discount_percent : Option ℤ
  pub promo_balance_kopecks : Option ℤ

abbrev pub nothing_applied : Applied
nothing_applied = record {
  promo_id = none;
  promo_type = none;
  discount_percent = none;
  promo_balance_kopecks = none;
}

abbrev nonzero_amount : Option ℤ → Option ℤ
nonzero_amount none = none
nonzero_amount (some a) = if is_zero a then none else some a

abbrev balance_if : PromoType → Option ℤ → Option ℤ
balance_if PromoType.balance a = nonzero_amount a
balance_if _ a = none

abbrev pub applied_of : PromoApplyResult → Applied
applied_of r = record {
  promo_id = r.promo_id;
  promo_type = some r.type;
  discount_percent = none;
  promo_balance_kopecks = balance_if r.type r.balance_kopecks;
}

abbrev pub original_if : Option ℤ → ℤ → Option ℤ
original_if none base = none
original_if (some percent) base = some base

abbrev pub extension_meta : Subscription → TariffDuration → Applied → Meta
extension_meta sub duration a = record no_meta {
  promo_id = a.promo_id;
  promo_type = a.promo_type;
  discount_percent = a.discount_percent;
  original_amount_kopecks = original_if a.discount_percent duration.price_kopecks;
  promo_balance_kopecks = a.promo_balance_kopecks;
  subscription_id = some sub.id;
  duration_id = some duration.id;
  days = some duration.days;
  is_extension = true;
}

-- The outcome of `create_extension_payment`.
pub record ExtensionPaymentResult : Type 0 where
  pub payment_id : ℕ
  pub amount_kopecks : ℤ
  pub payment_url : Option String
  pub key_url : Option String

-- The row that `meta.subscription_id` names.
abbrev pub chosen_subscription : Option ℕ → Db → Option Subscription
chosen_subscription none db = none
chosen_subscription (some sid) db = find_subscription sid db

module _ (env : Env) where
  -- `max(now, expires_at)`
  abbrev pub extension_base : Option ℕ → ℕ
  extension_base none = env.now
  extension_base (some t) = if ltb env.now t then t else env.now

  abbrev pub extended : ℕ → Subscription → Subscription
  extended days r = record r {
    status = SubStatus.active;
    expires_at = some (extension_base r.expires_at + days * day_seconds);
  }

  -- The message to a user who is found.
  unfoldable pub notify : Option User → Payload → Action (Unit {0})
  notify none payload = return tt
  notify (some user) payload = do enqueue_message env.now user.id user.tg_id payload; return tt

  abbrev pub extension_days : Payment → Subscription → ℕ
  extension_days payment sub = or_else (nonzero payment.extra.days) sub.days

  -- `_call_northline_extend` behind the answer of NorthLine.
  unfoldable pub extend_after : Result (Unit {0}) → Payment → Subscription → Action (Unit {0})
  extend_after (err e) payment sub = raise e
  extend_after (ok done) payment sub = do
    let days = extension_days payment sub
    update_subscription sub.id (extended days)
    user ← query (find_user payment.user_id)
    notify user
        (Payload.subscription_extended (extension_base sub.expires_at + days * day_seconds) sub.id)

  -- `_call_northline_extend`
  unfoldable pub call_northline_extend : Payment → Subscription → Action (Unit {0})
  call_northline_extend payment sub =
      extend_after
        (env.extend_key (record {
          subscription_id = sub.provider_subscription_id;
          days = extension_days payment sub;
          payment_id = payment.id;
        }))
        payment sub

  -- `_refund_extension`, for the row that is found
  unfoldable pub refund_found : Option User → Payment → ℕ → ℤ → Action (Unit {0})
  refund_found none payment sub_id amount = return tt
  refund_found (some user) payment sub_id amount = do
    let new_balance = user.balance_kopecks +ℤ amount
    set_balance payment.user_id new_balance
    update_payment payment.id (λ p. record p { status = PaymentStatus.refunded })
    insert_transaction λ n. record {
      id = n;
      user_id = payment.user_id;
      amount_kopecks = amount;
      reason = Reason.refund;
      ref_payment_id = some payment.id;
      ref_subscription_id = some sub_id;
      balance_after_kopecks = new_balance;
    }
    enqueue_message env.now user.id user.tg_id (Payload.extension_failed_refund payment.id)
    commit

  unfoldable pub refund_extension : Payment → ℕ → ℤ → Action (Unit {0})
  refund_extension payment sub_id amount = do
    user ← query (find_user payment.user_id)
    refund_found user payment sub_id amount

  -- What the webhook does about an exception: the two of the NorthLine client end in a refund.
  unfoldable pub refund_if_northline : Payment → ℕ → Error → Action (Unit {0})
  refund_if_northline payment sub_id northline_unavailable =
      refund_extension payment sub_id payment.amount_kopecks
  refund_if_northline payment sub_id northline_client =
      refund_extension payment sub_id payment.amount_kopecks
  refund_if_northline payment sub_id e = raise e

  unfoldable pub apply_to_subscription : Option Subscription → Payment → Action (Unit {0})
  apply_to_subscription none payment = return tt
  apply_to_subscription (some sub) payment =
      on_error (call_northline_extend payment sub) (refund_if_northline payment sub.id)

  -- `apply_extension_after_payment`
  unfoldable pub apply_extension_after_payment : Payment → Action (Unit {0})
  apply_extension_after_payment payment = do
    sub ← query (chosen_subscription payment.extra.subscription_id)
    apply_to_subscription sub payment
