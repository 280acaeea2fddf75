-- ===== src/Broadcasts/Worker.antt =====
-- The worker's job that sends a broadcast (`run_broadcast` of worker/app/tasks/broadcasts.py), and the
-- cron task that promotes the scheduled ones. Each transaction commits, so a run goes from one
-- committed database to the next.
pub mod Ends
pub mod Settling
pub mod Distinct
pub mod Tally
use pix_vpn_service.Prelude.{
  ℕ, zero, suc, ◌+◌, String, Bool, true, false, not, ◌&&◌, ◌||◌, Option, none, some, List, [], ◌∷◌,
  find, update_where, count_where, is_some, select_where, sort_by, first_of, ◌==◌, ltb, leb,
  if◌then◌else◌,
}
use Prim.Native.String.{◌++◌ as append}
use pix_vpn_service.Db.{Db, User, SubStatus, Subscription}
use pix_vpn_service.Db.Contact.{
  Broadcast, BroadcastStatus, Target, BroadcastRecipient, RecipientStatus,
}
use pix_vpn_service.Broadcasts.{or_else, find_broadcast, with_broadcast, cancelled_row, is_sending}
use pix_vpn_service.Html.Convert.{to_telegram_html}
use pix_vpn_service.Broadcasts.Keyboard.{UrlButton, build_reply_markup}
use pix_vpn_service.Broadcasts.Audience.{is_of, snapshot, join_users, next_batch}
use pix_vpn_service.Broadcasts.Messages.{
  Picture, Message, Envelope, accepted, refused, World, is_set, picture_of, error_text,
}

-- The result of the job.
pub record Counters : Type 0 where
  pub recipients_total : ℕ
  pub sent : ℕ
  pub failed : ℕ

abbrev pub no_counters : Counters
no_counters = record { recipients_total = 0; sent = 0; failed = 0 }

abbrev pub snapshot_counters : ℕ → Db → Counters
snapshot_counters bid db = record no_counters {
  recipients_total = count_where (is_of bid) db.broadcast_recipients;
}

abbrev pub update_recipient : ℕ → (BroadcastRecipient → BroadcastRecipient) → Db → Db
update_recipient rid f db = record db {
  broadcast_recipients =
      update_where (λ (r : BroadcastRecipient). r.id == rid) f db.broadcast_recipients;
}

abbrev pub sent_row : BroadcastRecipient → BroadcastRecipient
sent_row r = record r { status = RecipientStatus.sent }

abbrev pub failed_row : String → BroadcastRecipient → BroadcastRecipient
failed_row e r = record r { status = RecipientStatus.failed; error = some e }

-- Only a row without a photo takes the new one.
abbrev pub keep_photo : Option String → Broadcast → Broadcast
keep_photo file_id bc = elim bc.photo_file_id [
  | none ↦ record bc { photo_file_id = file_id }
  | some old ↦ bc
]

abbrev pub one_sent : Broadcast → Broadcast
one_sent bc = record bc { sent = bc.sent + 1 }

abbrev pub one_failed : Broadcast → Broadcast
one_failed bc = record bc { failed = bc.failed + 1 }

-- Whether the upload gave a photo that the broadcast did not have.
abbrev pub is_new_photo : Option String → Broadcast → Bool
is_new_photo file_id bc = is_set file_id && not (is_set bc.photo_file_id)

-- The transaction after a send.
unfoldable pub record_outcome : ℕ → Broadcast → ℕ → Envelope → Db → Db
record_outcome bid bc rid (accepted file_id) db =
    let db' = with_broadcast bid one_sent (update_recipient rid sent_row db) in
    if is_new_photo file_id bc then with_broadcast bid (keep_photo file_id) db' else db'
record_outcome bid bc rid (refused error_code description) db =
    with_broadcast bid one_failed
      (update_recipient rid (failed_row (error_text error_code description)) db)

-- The job's own copy of the broadcast, for the rest of the batch.
abbrev pub copy_after : Broadcast → Envelope → Broadcast
copy_after bc (accepted file_id) =
    if is_new_photo file_id bc then record bc { photo_file_id = file_id } else bc
copy_after bc (refused error_code description) = bc

abbrev pub counted : Envelope → Counters → Counters
counted (accepted file_id) c = record c { sent = c.sent + 1 }
counted (refused error_code description) c = record c { failed = c.failed + 1 }

abbrev pub message_to : World → Broadcast → ℕ → Message
message_to world bc tg_id = record {
  chat_id = tg_id;
  html_text = to_telegram_html world.unicode bc.html_text;
  picture = picture_of world.exists_on_disk bc.photo_file_id bc.photo_path;
  keyboard = build_reply_markup bc.buttons bc.buttons_per_row;
}

-- One batch, one recipient after the other.
unfoldable pub send_batch :
    World → ℕ → Broadcast → List (BroadcastRecipient × ℕ) → Counters → Db → Counters × Db
unfolding record_outcome
send_batch world bid bc [] c db = (c, db)
send_batch world bid bc ((r, tg_id) ∷ rest) c db =
    let envelope = world.send (message_to world bc tg_id) in
    send_batch world bid (copy_after bc envelope) rest (counted envelope c)
      (record_outcome bid bc r.id envelope db)

-- `_finalize`
abbrev pub finalized : ℕ → BroadcastStatus → Broadcast → Broadcast
finalized now new_status bc = record bc { status = new_status; finished_at = some now }

abbrev pub finalize : ℕ → ℕ → BroadcastStatus → Db → Db
finalize now bid new_status = with_broadcast bid (finalized now new_status)

-- `cancel_broadcast` meanwhile, which refuses a broadcast that is not being sent any more.
abbrev pub cancel_if_sending : ℕ → Broadcast → Broadcast
cancel_if_sending now bc = if is_sending bc.status then cancelled_row now bc else bc

abbrev pub cancel_meanwhile : ℕ → ℕ → Bool → Db → Db
cancel_meanwhile now bid false db = db
cancel_meanwhile now bid true db = with_broadcast bid (cancel_if_sending now) db

-- A pass of the loop ends the job, or is followed by another.
pub data Pass : Type 0 where
  stops : Counters → Db → Pass
  goes_on : Counters → Db → Pass

abbrev pub after_batch : Counters × Db → Pass
after_batch (c, db) = goes_on c db

abbrev pub work_batch : World → ℕ → Broadcast → List (BroadcastRecipient × ℕ) → Counters → Db → Pass
work_batch world bid bc [] c db = stops c (finalize world.now bid BroadcastStatus.done db)
work_batch world bid bc (x ∷ xs) c db = after_batch (send_batch world bid bc (x ∷ xs) c db)

abbrev pub work_if_sending : World → ℕ → Option Broadcast → Counters → Db → Pass
work_if_sending world bid none c db = stops c db
work_if_sending world bid (some bc) c db =
    if is_sending bc.status then work_batch world bid bc (next_batch bid db) c db else stops c db

-- The pass with number `n` of the loop.
unfoldable pub pass : World → ℕ → ℕ → Counters → Db → Pass
unfolding send_batch record_outcome join_users
pass world bid n c db =
    let db' = cancel_meanwhile world.now bid (world.cancelled n) db in
    if world.stop_flag n
    then stops c (finalize world.now bid BroadcastStatus.cancelled db')
    else work_if_sending world bid (find_broadcast bid db') c db'

abbrev pub drain_after : (Counters → Db → Option (Counters × Db)) → Pass → Option (Counters × Db)
drain_after next (stops c db) = some (c, db)
drain_after next (goes_on c db) = next c db

-- The loop, on fuel: none is a job that has not ended.
unfoldable pub drain : World → ℕ → ℕ → ℕ → Counters → Db → Option (Counters × Db)
unfolding pass
drain world bid zero n c db = none
drain world bid (suc fuel) n c db =
    drain_after (drain world bid fuel (n + 1)) (pass world bid n c db)

abbrev pub run_found : World → ℕ → ℕ → Option Broadcast → Db → Option (Counters × Db)
run_found world fuel bid none db = some (no_counters, db)
run_found world fuel bid (some bc) db =
    let db' = snapshot world.now bid bc db in
    let run = drain world bid fuel 0 (snapshot_counters bid db') db' in
    if is_sending bc.status then run else some (no_counters, db)

-- `run_broadcast`
unfoldable pub run_broadcast : World → ℕ → ℕ → Db → Option (Counters × Db)
run_broadcast world fuel bid db = run_found world fuel bid (find_broadcast bid db) db

-- `scheduled_at IS NOT NULL AND scheduled_at <= now()`, of a scheduled one.
abbrev pub is_reached : ℕ → Option ℕ → Bool
is_reached now none = false
is_reached now (some t) = leb t now

abbrev pub is_scheduled : BroadcastStatus → Bool
is_scheduled BroadcastStatus.scheduled = true
is_scheduled _ = false

abbrev pub is_due : ℕ → Broadcast → Bool
is_due now bc = is_scheduled bc.status && is_reached now bc.scheduled_at

abbrev pub by_schedule : Broadcast → Broadcast → Bool
by_schedule a b = leb (or_else a.scheduled_at 0) (or_else b.scheduled_at 0)

abbrev pub promoted : ℕ → Broadcast → Broadcast
promoted now bc = record bc {
  status = BroadcastStatus.sending;
  started_at = some (or_else bc.started_at now);
}

unfoldable pub promote_each : ℕ → List Broadcast → Db → Db
promote_each now [] db = db
promote_each now (bc ∷ rest) db = promote_each now rest (with_broadcast bc.id (promoted now) db)

-- `pick_scheduled_broadcasts`: the rows whose jobs it enqueues, and the database.
pub pick_scheduled_broadcasts : ℕ → Db → List Broadcast × Db
unfolding promote_each
pick_scheduled_broadcasts now db =
    let due = first_of 100 (sort_by by_schedule (select_where (is_due now) db.broadcasts)) in
    (due, promote_each now due db)
