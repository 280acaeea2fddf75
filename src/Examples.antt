-- ===== src/Examples.antt =====
-- Small databases and environments on which the operations run, and the theorems at them.
mod Money
mod Delivery
mod Broadcasts
mod Reconcile
mod Admin
mod Worker
mod Idempotency
use pix_vpn_service.Prelude.{ℕ, ◌≡◌, refl, true, false, String, none, some, [], ◌∷◌, arith, str_eq}
use pix_vpn_service.Prelude.Int.{ℤ, pos, negsuc, ◌+ℤ◌}
use pix_vpn_service.Db.{
  Db, User, Tariff, TariffDuration, SubStatus, Subscription, PaymentStatus, Purpose, Provider,
  PromoType, PromoCode, Payment, Reason, BalanceTransaction, Referral, OutboxStatus, OutboxMessage,
  Payload,
}
use pix_vpn_service.Session.{Session, ok, err, northline_unavailable}
use pix_vpn_service.Env.{Env}
use pix_vpn_service.Tariffs.{no_meta}
use pix_vpn_service.Ledger.{IsLedger, Books}

abbrev pub working : Env
working = record {
  now = 1000;
  same_code = str_eq;
  create_key = λ r. ok (record { subscription_id = some "nl-1"; key = some "vless://key" });
  extend_key = λ r. ok tt;
  create_invoice =
      λ r. some (record { external_id = "ext-9"; payment_url = "https://pay"; raw = "{}" });
  payment_pending_ttl_minutes = 30;
}

-- NorthLine does not answer.
abbrev pub broken : Env
broken = record working {
  create_key = λ r. err northline_unavailable;
  extend_key = λ r. err northline_unavailable;
}

abbrev pub anna : User
anna = record {
  id = 1;
  tg_id = 101;
  username = some "anna";
  balance_kopecks = pos 50000;
  is_banned = false;
  banned_reason = none;
}

abbrev pub boris : User
boris = record {
  id = 2;
  tg_id = 102;
  username = none;
  balance_kopecks = pos 0;
  is_banned = false;
  banned_reason = none;
}

abbrev pub topup_of_anna : BalanceTransaction
topup_of_anna = record {
  id = 20;
  user_id = 1;
  amount_kopecks = pos 50000;
  reason = Reason.topup;
  ref_payment_id = none;
  ref_subscription_id = none;
  balance_after_kopecks = pos 50000;
}

abbrev pub open_topup : Payment
open_topup = record {
  id = 30;
  user_id = 2;
  subscription_id = none;
  purpose = Purpose.topup;
  provider = Provider.cryptobot;
  external_id = some "ext-1";
  amount_kopecks = pos 20000;
  status = PaymentStatus.pending;
  paid_at = none;
  extra = no_meta;
  created_at = 900;
}

-- An active subscription of Anna, and a payment for its extension.
abbrev pub running : Subscription
running = record {
  id = 40;
  user_id = 1;
  tariff_id = 3;
  tariff_duration_id = some 4;
  devices = 2;
  days = 30;
  status = SubStatus.active;
  provider_subscription_id = some "nl-40";
  key_url = some "vless://old";
  started_at = some 10;
  expires_at = some 5000;
  deactivated_at = none;
  deactivation_reason = none;
  is_free_trial = false;
}

abbrev pub open_extension : Payment
open_extension = record {
  id = 31;
  user_id = 1;
  subscription_id = some 40;
  purpose = Purpose.extend_subscription;
  provider = Provider.platega_sbp;
  external_id = some "ext-2";
  amount_kopecks = pos 19900;
  status = PaymentStatus.pending;
  paid_at = none;
  extra = record no_meta { subscription_id = some 40; days = some 30; is_extension = true };
  created_at = 900;
}

abbrev pub spring : PromoCode
spring = record {
  id = 50;
  code = "SPRING";
  type = PromoType.discount_percent;
  value = pos 10;
  max_total_activations = some 5;
  max_per_user = 1;
  current_activations = 0;
  valid_from = none;
  valid_until = none;
  is_active = true;
  user_id = none;
}

abbrev pub gift : PromoCode
gift = record spring { id = 51; code = "GIFT"; type = PromoType.balance; value = pos 10000 }

abbrev pub waiting : OutboxMessage
waiting = record {
  id = 60;
  user_id = 1;
  chat_id = 101;
  payload = Payload.payment_failed 30;
  tg_message_id = none;
  status = OutboxStatus.pending;
  attempts = 4;
  last_error = none;
  send_after = 900;
  sent_at = none;
}

-- Anna was invited by Boris.
abbrev pub invited : Referral
invited = record {
  id = 70;
  referrer_id = 2;
  referee_id = 1;
  bonus_paid = false;
  bonus_paid_at = none;
  referee_first_purchase_id = none;
  trial_bonus_issued_at = none;
}

abbrev pub plus : Tariff
plus = record {
  id = 3;
  code = "plus";
  devices = 2;
  is_active = true;
  lte_gb_per_month = 35;
  is_unlimited_traffic = true;
  is_free_trial = false;
  free_trial_days = none;
}

abbrev pub month : TariffDuration
month = record { id = 4; tariff_id = 3; days = 30; price_kopecks = pos 19900; is_active = true }

abbrev pub shop : Db
shop = record {
  users = anna ∷ boris ∷ [];
  tariffs = plus ∷ [];
  durations = month ∷ [];
  subscriptions = running ∷ [];
  payments = open_topup ∷ open_extension ∷ [];
  balance_transactions = topup_of_anna ∷ [];
  promo_codes = spring ∷ gift ∷ [];
  promo_activations = [];
  referrals = invited ∷ [];
  outbox = waiting ∷ [];
  tickets = [];
  ticket_messages = [];
  broadcasts = [];
  broadcast_recipients = [];
  idempotency_keys = [];
  notifications_sent = [];
  next_id = 100;
}

pub shop-IsLedger : IsLedger shop
unfolding ◌+ℤ◌
shop-IsLedger = record {
  balanced = (refl, (refl, tt));
  audited = (refl, tt);
  solvent = (omega arith, (omega arith, tt));
  priced = (omega arith, tt);
  charged = (omega arith, (omega arith, tt));
  granted = (omega arith, (omega arith, tt));
}

abbrev pub at_shop : Session
at_shop = record { live = shop; saved = shop }

pub at_shop-Books : Books at_shop
at_shop-Books = record { live = shop-IsLedger; saved = shop-IsLedger }
