-- ===== src/Balance.antt =====
-- backend/app/services/balance_service.py: the admin's adjustment, and the purchase from the balance
-- with the refund that follows when NorthLine issues no key. The refund's `deactivation_reason`, which
-- quotes NorthLine's error, is left out.
pub mod Books
pub mod Shown
pub mod Outcome
pub mod Charged
pub mod Committed
pub mod Delivery
use pix_vpn_service.Prelude.{ℕ, ◌+◌, ◌*◌, Bool, true, false, Option, none, some, if◌then◌else◌}
use pix_vpn_service.Prelude.Int.{ℤ, pos, ◌+ℤ◌, ◌-ℤ◌, ltb_ℤ, is_zero, neg, max_zero}
use pix_vpn_service.Db.{
  User, Tariff, TariffDuration, SubStatus, Subscription, PaymentStatus, Purpose, Provider, Payment,
  purchase, refund, admin_adjust,
}
use pix_vpn_service.Session.{
  Session, Error, Result, ok, err, Action, return, raise, query, or_raise, ◌>>=◌, ◌>>◌, raise_if,
  commit, best_effort, insufficient_balance, northline_unavailable, northline_client,
  no_result_found,
}
use pix_vpn_service.Env.{Env, KeyResponse}
use pix_vpn_service.Tables.{
  find_subscription, lock_user, set_balance, post_entry, insert_transaction, insert_subscription,
  update_subscription, insert_payment, update_payment,
}
use pix_vpn_service.Promo.{record_discount_activation}
use pix_vpn_service.Tariffs.{
  get_tariff_or_raise, get_duration_or_raise, Quote, quote, chosen_promo, promo_meta,
}

abbrev pub day_seconds : ℕ
day_seconds = 86400

-- `BalanceService.add_admin_adjust`
unfoldable pub add_admin_adjust : ℕ → ℤ → Action ℤ
add_admin_adjust user_id amount = do
  locked_user ← lock_user user_id
  let new_balance = locked_user.balance_kopecks +ℤ amount
  if is_zero amount then return locked_user.balance_kopecks else do
    raise_if (ltb_ℤ new_balance (pos 0)) insufficient_balance
    post_entry user_id new_balance λ n. record {
      id = n;
      user_id = user_id;
      amount_kopecks = amount;
      reason = admin_adjust;
      ref_payment_id = none;
      ref_subscription_id = none;
      balance_after_kopecks = new_balance;
    }
    return new_balance

-- What the first transaction of a purchase leaves for the second.
pub record Purchase : Type 0 where
  pub tariff : Tariff
  pub duration : TariffDuration
  pub price : ℤ
  pub balance_after : ℤ
  pub sub : Subscription
  pub payment : Payment

module _ (env : Env) where
  abbrev pub pending_subscription : User → Tariff → TariffDuration → ℕ → Subscription
  pending_subscription user tariff duration n = record {
    id = n;
    user_id = user.id;
    tariff_id = tariff.id;
    tariff_duration_id = some duration.id;
    devices = tariff.devices;
    days = duration.days;
    status = SubStatus.pending;
    provider_subscription_id = none;
    key_url = none;
    started_at = none;
    expires_at = none;
    deactivated_at = none;
    deactivation_reason = none;
    is_free_trial = false;
  }

  abbrev pub paid_payment : User → Subscription → ℤ → Quote → ℕ → Payment
  paid_payment user sub original q n = record {
    id = n;
    user_id = user.id;
    subscription_id = some sub.id;
    purpose = Purpose.subscription;
    provider = Provider.balance;
    external_id = none;
    amount_kopecks = q.price;
    status = PaymentStatus.paid;
    paid_at = some env.now;
    extra = promo_meta original q.applied;
    created_at = env.now;
  }

  -- A discount is recorded at once, since no webhook follows.
  pub settle_promo : Option (ℕ × ℤ) → ℕ → ℕ → ℤ → Action (Unit {0})
  settle_promo none user_id payment_id discount = return tt
  settle_promo (some (pid, percent)) user_id payment_id discount =
      best_effort (record_discount_activation pid user_id payment_id discount)

  -- `purchase_with_balance`, the rows that it writes once the balance is debited.
  pub record_purchase : User → Tariff → TariffDuration → Quote → ℤ → Action Purchase
  record_purchase user tariff duration q balance_after = do
    sub ← insert_subscription (pending_subscription user tariff duration)
    payment ← insert_payment (paid_payment user sub duration.price_kopecks q)
    settle_promo q.applied user.id payment.id (max_zero (duration.price_kopecks -ℤ q.price))
    insert_transaction λ n. record {
      id = n;
      user_id = user.id;
      amount_kopecks = neg q.price;
      reason = purchase;
      ref_payment_id = some payment.id;
      ref_subscription_id = some sub.id;
      balance_after_kopecks = balance_after;
    }
    commit
    return (record {
      tariff = tariff;
      duration = duration;
      price = q.price;
      balance_after = balance_after;
      sub = sub;
      payment = payment;
    })

  -- `purchase_with_balance` up to its first commit.
  pub debit_purchase : User → ℕ → ℕ → Option ℕ → Action Purchase
  debit_purchase user tariff_id duration_id promo_id = do
    tariff ← get_tariff_or_raise tariff_id
    duration ← get_duration_or_raise tariff_id duration_id
    promo_row ← query (chosen_promo promo_id)
    let q = quote duration.price_kopecks promo_row
    locked_user ← lock_user user.id
    raise_if (ltb_ℤ locked_user.balance_kopecks q.price) insufficient_balance
    let balance_after = locked_user.balance_kopecks -ℤ q.price
    set_balance user.id balance_after
    record_purchase user tariff duration q balance_after

-- `_refund_after_failure`
pub refund_after_failure : ℕ → ℕ → ℕ → ℤ → Action (Unit {0})
refund_after_failure user_id sub_id payment_id price = do
  locked_user ← lock_user user_id
  let new_balance = locked_user.balance_kopecks +ℤ price
  set_balance user_id new_balance
  update_subscription sub_id (λ r. record r { status = SubStatus.failed })
  update_payment payment_id (λ p. record p { status = PaymentStatus.refunded })
  insert_transaction λ n. record {
    id = n;
    user_id = user_id;
    amount_kopecks = price;
    reason = refund;
    ref_payment_id = some payment_id;
    ref_subscription_id = some sub_id;
    balance_after_kopecks = new_balance;
  }
  commit

module _ (env : Env) where
  -- The key that NorthLine issued makes the subscription active for the days that were paid.
  abbrev pub activated : KeyResponse → TariffDuration → Subscription → Subscription
  activated key duration r = record r {
    status = SubStatus.active;
    provider_subscription_id = key.subscription_id;
    key_url = key.key;
    started_at = some env.now;
    expires_at = some (env.now + duration.days * day_seconds);
  }

  pub deliver_key : Purchase → KeyResponse → Action (ℕ × ℤ × ℕ)
  deliver_key p key = do
    update_subscription p.sub.id (activated key p.duration)
    commit
    return (p.sub.id, p.balance_after, p.payment.id)

  -- `purchase_with_balance` after the answer of NorthLine: only its client's two errors are caught.
  pub deliver : User → Purchase → Result KeyResponse → Action (ℕ × ℤ × ℕ)
  deliver user p (ok key) = deliver_key p key
  deliver user p (err northline_unavailable) = do
    refund_after_failure user.id p.sub.id p.payment.id p.price
    raise northline_unavailable
  deliver user p (err northline_client) = do
    refund_after_failure user.id p.sub.id p.payment.id p.price
    raise northline_unavailable
  deliver user p (err e) = raise e

  abbrev pub ask_key : Purchase → Result KeyResponse
  ask_key p = env.create_key (record {
    days = p.duration.days;
    devices = p.tariff.devices;
    lte_gb = some p.tariff.lte_gb_per_month;
    unlimited_traffic = p.tariff.is_unlimited_traffic;
    tariff_code = some p.tariff.code;
    is_free_trial = false;
    subscription_id = p.sub.id;
    payment_id = some p.payment.id;
  })

  -- `BalanceService.purchase_with_balance`: the subscription's id, the balance and the payment's id.
  pub purchase_with_balance : User → ℕ → ℕ → Option ℕ → Action (ℕ × ℤ × ℕ)
  purchase_with_balance user tariff_id duration_id promo_id = do
    p ← debit_purchase env user tariff_id duration_id promo_id
    deliver user p (ask_key p)
