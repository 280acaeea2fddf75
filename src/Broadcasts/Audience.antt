-- ===== src/Broadcasts/Audience.antt =====
-- Whom a broadcast goes to: the snapshot of its recipients, and the batch of them that the worker
-- sends next (the statements of `run_broadcast` in worker/app/tasks/broadcasts.py).
use pix_vpn_service.Prelude.{
  ℕ, ◌+◌, Bool, true, false, not, ◌&&◌, Option, none, some, List, [], ◌∷◌, find, count_where,
  is_some, select_where, sort_by, first_of, ◌==◌, ltb, leb, if◌then◌else◌,
}
use pix_vpn_service.Db.{Db, User, SubStatus, Subscription}
use pix_vpn_service.Db.Contact.{Broadcast, Target, BroadcastRecipient, RecipientStatus}
use pix_vpn_service.Broadcasts.{or_else, with_broadcast}

-- `s.status = 'active' AND (s.expires_at IS NULL OR s.expires_at > now())`
abbrev pub is_running : SubStatus → Option ℕ → ℕ → Bool
is_running SubStatus.active none now = true
is_running SubStatus.active (some t) now = ltb now t
is_running _ _ now = false

abbrev pub is_subscriber : ℕ → List Subscription → User → Bool
is_subscriber now subs u =
    is_some (
      find (λ (r : Subscription). (r.user_id == u.id) && is_running r.status r.expires_at now) subs)

-- The WHERE of the snapshot.
abbrev pub is_target : ℕ → List Subscription → Target → User → Bool
is_target now subs Target.all u = not u.is_banned
is_target now subs Target.subscribers u = not u.is_banned && is_subscriber now subs u

abbrev pub new_recipient : ℕ → User → ℕ → BroadcastRecipient
new_recipient bid u n = record {
  id = n;
  broadcast_id = bid;
  user_id = u.id;
  status = RecipientStatus.pending;
  error = none;
}

abbrev pub insert_recipient : ℕ → User → Db → Db
insert_recipient bid u db = record db {
  broadcast_recipients = new_recipient bid u db.next_id ∷ db.broadcast_recipients;
  next_id = db.next_id + 1;
}

-- INSERT ... SELECT: one row for each of the users, with consecutive ids.
abbrev pub insert_recipients : ℕ → List User → Db → Db
insert_recipients bid [] db = db
insert_recipients bid (u ∷ us) db = insert_recipients bid us (insert_recipient bid u db)

abbrev pub is_of : ℕ → BroadcastRecipient → Bool
is_of bid r = r.broadcast_id == bid

abbrev pub started : ℕ → ℕ → Broadcast → Broadcast
started now total bc = record bc {
  recipients_total = total;
  started_at = some (or_else bc.started_at now);
}

-- The snapshot of the recipients, on the first run only.
abbrev pub first_snapshot : ℕ → ℕ → Broadcast → Db → Db
first_snapshot now bid bc db =
    let db' =
      insert_recipients bid (select_where (is_target now db.subscriptions bc.target) db.users) db in
    with_broadcast bid (started now (count_where (is_of bid) db'.broadcast_recipients)) db'

unfoldable pub snapshot : ℕ → ℕ → Broadcast → Db → Db
snapshot now bid bc db =
    let already = count_where (is_of bid) db.broadcast_recipients in
    if already == 0 then first_snapshot now bid bc db else db

abbrev pub is_waiting : RecipientStatus → Bool
is_waiting RecipientStatus.pending = true
is_waiting _ = false

abbrev pub is_pending_of : ℕ → BroadcastRecipient → Bool
is_pending_of bid r = is_of bid r && is_waiting r.status

-- JOIN users: a recipient with the Telegram id of its user.
abbrev pub join_user :
    BroadcastRecipient → Option User → List (BroadcastRecipient × ℕ) → List (BroadcastRecipient × ℕ)
join_user r none rest = rest
join_user r (some u) rest = (r, u.tg_id) ∷ rest

unfoldable pub join_users : List User → List BroadcastRecipient → List (BroadcastRecipient × ℕ)
join_users us [] = []
join_users us (r ∷ rs) = join_user r (find (λ (u : User). u.id == r.user_id) us) (join_users us rs)

abbrev pub batch_size : ℕ
batch_size = 25

abbrev pub by_id : BroadcastRecipient × ℕ → BroadcastRecipient × ℕ → Bool
by_id (a, x) (b, y) = leb a.id b.id

abbrev pub pending_joined : ℕ → Db → List (BroadcastRecipient × ℕ)
pending_joined bid db =
    join_users db.users (select_where (is_pending_of bid) db.broadcast_recipients)

-- The pending recipients, oldest first, at most 25 of them.
abbrev pub next_batch : ℕ → Db → List (BroadcastRecipient × ℕ)
next_batch bid db = first_of batch_size (sort_by by_id (pending_joined bid db))
