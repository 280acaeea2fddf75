-- ===== src/Db.antt =====
-- The tables that the services read and write (backend/app/db/models). A column that no modelled
-- code reads or writes is left out, and so are the append-only log tables. A time is a number of
-- seconds; rows stand newest first, and one sequence gives the ids of all tables, since ids are
-- only compared.
pub mod Contact
use pix_vpn_service.Prelude.{ℕ, String, Bool, Option, List}
use pix_vpn_service.Prelude.Int.{ℤ}
use pix_vpn_service.Db.Contact.{
  Ticket, TicketMessage, Broadcast, BroadcastRecipient, IdempotencyKey, NotificationSent,
}

pub record User : Type 0 where
  pub id : ℕ
  pub tg_id : ℕ
  pub username : Option String
  pub balance_kopecks : ℤ
  pub is_banned : Bool
  pub banned_reason : Option String

pub record Tariff : Type 0 where
  pub id : ℕ
  pub code : String
  pub devices : ℕ
  pub is_active : Bool
  pub lte_gb_per_month : ℕ
  pub is_unlimited_traffic : Bool
  pub is_free_trial : Bool
  pub free_trial_days : Option ℕ

pub record TariffDuration : Type 0 where
  pub id : ℕ
  pub tariff_id : ℕ
  pub days : ℕ
  pub price_kopecks : ℤ
  pub is_active : Bool

-- `failed_provider` is written by `_provision_subscription_key` only.
pub data SubStatus : Type 0 where
  pending active expired deactivated suspended failed failed_provider : SubStatus

pub record Subscription : Type 0 where
  pub id : ℕ
  pub user_id : ℕ
  pub tariff_id : ℕ
  pub tariff_duration_id : Option ℕ
  pub devices : ℕ
  pub days : ℕ
  pub status : SubStatus
  pub provider_subscription_id : Option String
  pub key_url : Option String
  pub started_at : Option ℕ
  pub expires_at : Option ℕ
  pub deactivated_at : Option ℕ
  pub deactivation_reason : Option String
  pub is_free_trial : Bool

pub data PaymentStatus : Type 0 where
  pending paid failed expired refunded : PaymentStatus

pub data Purpose : Type 0 where
  subscription topup extend_subscription : Purpose
  other : String → Purpose

pub data Provider : Type 0 where
  platega_sbp platega_crypto cryptobot balance : Provider
  other : String → Provider

pub data PromoType : Type 0 where
  balance discount_percent : PromoType
  other : String → PromoType

-- `payments.meta`: the keys that the services set, each absent or with a value.
pub record Meta : Type 0 where
  pub promo_id : Option ℕ
  pub promo_type : Option PromoType
  pub discount_percent : Option ℤ
  pub original_amount_kopecks : Option ℤ
  pub promo_balance_kopecks : Option ℤ
  pub subscription_id : Option ℕ
  pub duration_id : Option ℕ
  pub days : Option ℕ
  pub is_extension : Bool
  pub payment_url : Option String
  pub provider_response : Option String
  pub webhook_raw : Option String

pub record Payment : Type 0 where
  pub id : ℕ
  pub user_id : ℕ
  pub subscription_id : Option ℕ
  pub purpose : Purpose
  pub provider : Provider
  pub external_id : Option String
  pub amount_kopecks : ℤ
  pub status : PaymentStatus
  pub paid_at : Option ℕ
  pub extra : Meta
  pub created_at : ℕ

pub data Reason : Type 0 where
  topup purchase referral_bonus promo_bonus refund admin_adjust : Reason

pub record BalanceTransaction : Type 0 where
  pub id : ℕ
  pub user_id : ℕ
  pub amount_kopecks : ℤ
  pub reason : Reason
  pub ref_payment_id : Option ℕ
  pub ref_subscription_id : Option ℕ
  pub balance_after_kopecks : ℤ

pub record PromoCode : Type 0 where
  pub id : ℕ
  pub code : String
  pub type : PromoType
  pub value : ℤ
  pub max_total_activations : Option ℕ
  pub max_per_user : ℕ
  pub current_activations : ℕ
  pub valid_from : Option ℕ
  pub valid_until : Option ℕ
  pub is_active : Bool
  pub user_id : Option ℕ

pub record PromoActivation : Type 0 where
  pub id : ℕ
  pub promo_id : ℕ
  pub user_id : ℕ
  pub payment_id : Option ℕ
  pub amount_applied_kopecks : ℤ

pub record Referral : Type 0 where
  pub id : ℕ
  pub referrer_id : ℕ
  pub referee_id : ℕ
  pub bonus_paid : Bool
  pub bonus_paid_at : Option ℕ
  pub referee_first_purchase_id : Option ℕ
  pub trial_bonus_issued_at : Option ℕ

-- The payload of an outbox message by its `kind`, with the values that its text shows.
pub data Payload : Type 0 where
  topup_succeeded : (payment_id : ℕ) (amount new_balance : ℤ) → Payload
  payment_failed : (payment_id : ℕ) → Payload
  subscription_key : (payment_id : ℕ) (key_url : String) → Payload
  vpn_provider_failed_after_payment : Payload
  referral_bonus_credited : (username : String) → Payload
  subscription_extended : (new_expires_at subscription_id : ℕ) → Payload
  extension_failed_refund : (payment_id : ℕ) → Payload
  balance_admin_adjusted : (delta new_balance : ℤ) → Payload
  referrer_trial_bonus_promo : (promo_code : String) → Payload
  subscription_deactivated_by_admin : (subscription_id : ℕ) (reason : String) → Payload
  subscription_suspended_by_admin : (subscription_id : ℕ) (reason : String) → Payload
  subscription_resumed_by_admin : (subscription_id : ℕ) → Payload
  user_banned_notice : (reason : String) → Payload
  user_unbanned_notice : Payload
  admin_direct_message : (text : String) (parse_mode : Option String) → Payload
  subscription_expiring_3d : (template : Option String) (subscription_id : ℕ) → Payload
  subscription_expired : (template : Option String) (subscription_id : ℕ) → Payload
  trial_expiring : (subscription_id : ℕ) (promo_code : Option String) → Payload

pub data OutboxStatus : Type 0 where
  pending dispatching sent failed : OutboxStatus

pub record OutboxMessage : Type 0 where
  pub id : ℕ
  pub user_id : ℕ
  pub chat_id : ℕ
  pub payload : Payload
  pub tg_message_id : Option ℕ
  pub status : OutboxStatus
  pub attempts : ℕ
  pub last_error : Option String
  pub send_after : ℕ
  pub sent_at : Option ℕ

pub record Db : Type 0 where
  pub users : List User
  pub tariffs : List Tariff
  pub durations : List TariffDuration
  pub subscriptions : List Subscription
  pub payments : List Payment
  pub balance_transactions : List BalanceTransaction
  pub promo_codes : List PromoCode
  pub promo_activations : List PromoActivation
  pub referrals : List Referral
  pub outbox : List OutboxMessage
  pub tickets : List Ticket
  pub ticket_messages : List TicketMessage
  pub broadcasts : List Broadcast
  pub broadcast_recipients : List BroadcastRecipient
  pub idempotency_keys : List IdempotencyKey
  pub notifications_sent : List NotificationSent
  pub next_id : ℕ
