-- ===== src/Db/Contact.antt =====
-- The tables of tickets, broadcasts and reminders, and of answers that are kept under a key
-- (backend/app/db/models).
use pix_vpn_service.Prelude.{ℕ, String, Option, List}

pub data TicketStatus : Type 0 where
  open_ticket closed_ticket : TicketStatus

pub record Ticket : Type 0 where
  pub id : ℕ
  pub code : String
  pub user_id : ℕ
  pub kind : String
  pub status : TicketStatus
  pub closed_by : Option String
  pub closed_at : Option ℕ
  pub topic_thread_id : Option ℕ
  pub updated_at : ℕ

pub record TicketMessage : Type 0 where
  pub id : ℕ
  pub ticket_id : ℕ
  pub direction : String
  pub message_type : String
  pub text : Option String
  pub photo_file_id : Option String
  pub sticker_file_id : Option String
  pub tg_message_id : Option ℕ

pub data BroadcastStatus : Type 0 where
  draft scheduled sending done cancelled : BroadcastStatus

-- Whom a broadcast is for: the users with an active subscription, or all.
pub data Target : Type 0 where
  all subscribers : Target

-- An entry of the JSON list of buttons: `none` where it is no object or the key holds no string.
pub record Button : Type 0 where
  pub text : Option String
  pub url : Option String

pub record Broadcast : Type 0 where
  pub id : ℕ
  pub html_text : String
  pub photo_file_id : Option String
  pub photo_path : Option String
  pub buttons : Option (List Button)
  pub buttons_per_row : ℕ
  pub target : Target
  pub status : BroadcastStatus
  pub scheduled_at : Option ℕ
  pub started_at : Option ℕ
  pub finished_at : Option ℕ
  pub recipients_total : ℕ
  pub sent : ℕ
  pub failed : ℕ

pub data RecipientStatus : Type 0 where
  pending sent failed : RecipientStatus

pub record BroadcastRecipient : Type 0 where
  pub id : ℕ
  pub broadcast_id : ℕ
  pub user_id : ℕ
  pub status : RecipientStatus
  pub error : Option String

pub record IdempotencyKey : Type 0 where
  pub key : String
  pub operation : String
  pub response : Option String

-- `kind` is one of the constants of the table; no two rows have one subscription and one kind.
pub data NotificationKind : Type 0 where
  expiry_3d expiry_1d expired trial_expiring_24h : NotificationKind

pub record NotificationSent : Type 0 where
  pub user_id : ℕ
  pub subscription_id : ℕ
  pub kind : NotificationKind
