-- ===== src/Broadcasts.antt =====
-- The administrator's requests about broadcasts (backend/app/api/admin/broadcasts.py): create, edit,
-- send, schedule and cancel. The rows that `record_admin_action` appends to a log are left out.
pub mod Keyboard
pub mod Audience
pub mod Messages
pub mod Worker
pub mod Lifecycle
use pix_vpn_service.Prelude.{
  ℕ, ◌+◌, String, Bool, true, false, not, ◌||◌, ◌&&◌, Option, none, some, List, [], ◌∷◌, find,
  update_where, ◌==◌, if◌then◌else◌,
}
use pix_vpn_service.Db.{Db}
use pix_vpn_service.Db.Contact.{Button, Broadcast, BroadcastStatus, Target}
use pix_vpn_service.Session.{
  Action, ok, return, query, or_raise, raise_if, modify, commit, ◌>>=◌, ◌>>◌, broadcast_not_found,
  broadcast_not_editable, broadcast_not_sendable, broadcast_not_schedulable,
  broadcast_not_cancellable,
}

-- `AdminBroadcastCreate`, as validated.
pub record BroadcastCreate : Type 0 where
  pub html_text : String
  pub target : Target
  pub scheduled_at : Option ℕ
  pub buttons : List Button
  pub buttons_per_row : ℕ

-- `AdminBroadcastPatch`
pub record BroadcastPatch : Type 0 where
  pub html_text : Option String
  pub target : Option Target
  pub buttons : Option (List Button)
  pub buttons_per_row : Option ℕ
  pub scheduled_at : Option ℕ

abbrev pub or_else {ℓ} : {A : Type ℓ} → Option A → A → A
or_else none a = a
or_else (some b) a = b

abbrev pub new_status : Option ℕ → BroadcastStatus
new_status none = BroadcastStatus.draft
new_status (some at_time) = BroadcastStatus.scheduled

abbrev pub new_buttons : List Button → Option (List Button)
new_buttons [] = none
new_buttons (b ∷ bs) = some (b ∷ bs)

abbrev pub new_broadcast : BroadcastCreate → ℕ → Broadcast
new_broadcast payload n = record {
  id = n;
  html_text = payload.html_text;
  photo_file_id = none;
  photo_path = none;
  buttons = new_buttons payload.buttons;
  buttons_per_row = payload.buttons_per_row;
  target = payload.target;
  status = new_status payload.scheduled_at;
  scheduled_at = payload.scheduled_at;
  started_at = none;
  finished_at = none;
  recipients_total = 0;
  sent = 0;
  failed = 0;
}

unfoldable pub insert_broadcast : (ℕ → Broadcast) → Action Broadcast
insert_broadcast make s =
    let db = s.live in
    let row = make db.next_id in
    (
      ok row,
      record s { live = record db { broadcasts = row ∷ db.broadcasts; next_id = db.next_id + 1 } },
    )

-- `create_broadcast`: a target outside the list is refused before the request gets here.
pub create_broadcast : BroadcastCreate → Action Broadcast
create_broadcast payload = do bc ← insert_broadcast (new_broadcast payload); commit; return bc

abbrev pub find_broadcast : ℕ → Db → Option Broadcast
find_broadcast bid db = find (λ (b : Broadcast). b.id == bid) db.broadcasts

abbrev pub with_broadcast : ℕ → (Broadcast → Broadcast) → Db → Db
with_broadcast bid f db = record db {
  broadcasts = update_where (λ (b : Broadcast). b.id == bid) f db.broadcasts;
}

abbrev pub is_editable : BroadcastStatus → Bool
is_editable BroadcastStatus.draft = true
is_editable BroadcastStatus.scheduled = true
is_editable _ = false

abbrev pub is_sending : BroadcastStatus → Bool
is_sending BroadcastStatus.sending = true
is_sending _ = false

abbrev pub rescheduled : Option ℕ → Broadcast → Broadcast
rescheduled none bc = bc
rescheduled (some at_time) bc = record bc {
  scheduled_at = some at_time;
  status = BroadcastStatus.scheduled;
}

abbrev pub replaced_buttons : Option (List Button) → Broadcast → Broadcast
replaced_buttons none bc = bc
replaced_buttons (some bs) bc = record bc { buttons = some bs }

abbrev pub patched : BroadcastPatch → Broadcast → Broadcast
patched payload bc = rescheduled payload.scheduled_at (
    replaced_buttons payload.buttons (record bc {
      html_text = or_else payload.html_text bc.html_text;
      target = or_else payload.target bc.target;
      buttons_per_row = or_else payload.buttons_per_row bc.buttons_per_row;
    }))

-- `patch_broadcast`
pub patch_broadcast : ℕ → BroadcastPatch → Action (Unit {0})
patch_broadcast bid payload = do
  found ← query (find_broadcast bid)
  bc ← or_raise found broadcast_not_found
  raise_if (not (is_editable bc.status)) broadcast_not_editable
  modify (with_broadcast bid (patched payload))
  commit

abbrev pub sending_row : Broadcast → Broadcast
sending_row bc = record bc { status = BroadcastStatus.sending; scheduled_at = none }

-- `send_broadcast`, up to the job that it hands to the worker's queue.
pub send_broadcast : ℕ → Action (Unit {0})
send_broadcast bid = do
  found ← query (find_broadcast bid)
  bc ← or_raise found broadcast_not_found
  raise_if (not (is_editable bc.status)) broadcast_not_sendable
  modify (with_broadcast bid sending_row)
  commit

abbrev pub scheduled_row : ℕ → Broadcast → Broadcast
scheduled_row at_time bc = record bc {
  status = BroadcastStatus.scheduled;
  scheduled_at = some at_time;
}

-- `schedule_broadcast`
pub schedule_broadcast : ℕ → ℕ → Action (Unit {0})
schedule_broadcast bid at_time = do
  found ← query (find_broadcast bid)
  bc ← or_raise found broadcast_not_found
  raise_if (not (is_editable bc.status)) broadcast_not_schedulable
  modify (with_broadcast bid (scheduled_row at_time))
  commit

abbrev pub cancelled_row : ℕ → Broadcast → Broadcast
cancelled_row now bc = record bc { status = BroadcastStatus.cancelled; finished_at = some now }

-- `cancel_broadcast`: true where it also sets the stop flag, for a broadcast that is being sent.
pub cancel_broadcast : ℕ → ℕ → Action Bool
cancel_broadcast now bid = do
  found ← query (find_broadcast bid)
  bc ← or_raise found broadcast_not_found
  raise_if (not (is_editable bc.status || is_sending bc.status)) broadcast_not_cancellable
  modify (with_broadcast bid (cancelled_row now))
  commit
  return (is_sending bc.status)
