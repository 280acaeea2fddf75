-- ===== src/Outbox.antt =====
-- backend/app/services/outbox_service.py, with the requests of backend/app/api/bot/outbox.py that the
-- worker makes: enqueue, claim a batch, report a message sent or failed.
pub mod Lifecycle
pub mod Telegram
pub mod Dispatcher
use pix_vpn_service.Prelude.{
  ℕ, zero, suc, ◌+◌, ◌*◌, ◌^◌, min, Bool, true, false, ◌&&◌, ◌||◌, String, Option, none, some, List,
  [], ◌∷◌, find, update_where, ltb, leb, ◌==◌, if◌then◌else◌,
}
use pix_vpn_service.Db.{Db, Payload, OutboxStatus, OutboxMessage}
use pix_vpn_service.Session.{Action, return, query, or_raise, ◌>>=◌, ◌>>◌, modify, outbox_not_found}
use pix_vpn_service.Tables.{insert_outbox}

abbrev pub new_message : ℕ → ℕ → ℕ → Payload → ℕ → OutboxMessage
new_message now user_id chat_id payload n = record {
  id = n;
  user_id = user_id;
  chat_id = chat_id;
  payload = payload;
  tg_message_id = none;
  status = OutboxStatus.pending;
  attempts = 0;
  last_error = none;
  send_after = now;
  sent_at = none;
}

-- `enqueue_message`, also `OutboxRepository.enqueue`, with no `send_after`.
unfoldable pub enqueue_message : ℕ → ℕ → ℕ → Payload → Action OutboxMessage
enqueue_message now user_id chat_id payload =
    insert_outbox (new_message now user_id chat_id payload)

-- `_exponential_backoff_minutes`
pub exponential_backoff_minutes : ℕ → ℕ
exponential_backoff_minutes zero = 1
exponential_backoff_minutes (suc n) = min (2 ^ suc n) 60

abbrev pub max_attempts : ℕ
max_attempts = 5

abbrev pub is_pending : OutboxStatus → Bool
is_pending OutboxStatus.pending = true
is_pending _ = false

-- The WHERE of `fetch_pending`.
abbrev pub is_due : ℕ → OutboxMessage → Bool
is_due now m = is_pending m.status && leb m.send_after now

-- ORDER BY send_after, id
abbrev pub goes_before : OutboxMessage → OutboxMessage → Bool
goes_before a b = ltb a.send_after b.send_after || ((a.send_after == b.send_after) && leb a.id b.id)

unfoldable pub insert_by_due : OutboxMessage → List OutboxMessage → List OutboxMessage
insert_by_due m [] = m ∷ []
insert_by_due m (x ∷ xs) = if goes_before m x then m ∷ x ∷ xs else x ∷ insert_by_due m xs

unfoldable pub due_in_order : ℕ → List OutboxMessage → List OutboxMessage
due_in_order now [] = []
due_in_order now (m ∷ ms) =
    let rest = due_in_order now ms in if is_due now m then insert_by_due m rest else rest

-- LIMIT
unfoldable pub first_rows : ℕ → List OutboxMessage → List OutboxMessage
first_rows zero ms = []
first_rows (suc n) [] = []
first_rows (suc n) (m ∷ ms) = m ∷ first_rows n ms

-- `id IN (ids)`
unfoldable pub is_among : List OutboxMessage → OutboxMessage → Bool
is_among [] m = false
is_among (x ∷ xs) m = (x.id == m.id) || is_among xs m

abbrev pub claimed : OutboxMessage → OutboxMessage
claimed m = record m { status = OutboxStatus.dispatching; attempts = m.attempts + 1 }

pub claim_rows : List OutboxMessage → List OutboxMessage
claim_rows [] = []
claim_rows (m ∷ ms) = claimed m ∷ claim_rows ms

-- `fetch_pending`: the rows as refreshed after the update.
unfoldable pub fetch_pending : ℕ → ℕ → Action (List OutboxMessage)
fetch_pending now limit = do
  rows ← query (λ db. first_rows limit (due_in_order now db.outbox))
  modify (λ db. record db { outbox = update_where (is_among rows) claimed db.outbox })
  return (claim_rows rows)

abbrev find_message : ℕ → Db → Option OutboxMessage
find_message mid db = find (λ m. m.id == mid) db.outbox

abbrev pub sent_row : ℕ → Option ℕ → OutboxMessage → OutboxMessage
sent_row now none m = record m { status = OutboxStatus.sent; sent_at = some now }
sent_row now (some tg) m = record m {
  status = OutboxStatus.sent;
  sent_at = some now;
  tg_message_id = some tg;
}

update_message : ℕ → (OutboxMessage → OutboxMessage) → Action (Unit {0})
update_message mid f =
    modify (λ db. record db { outbox = update_where (λ m. m.id == mid) f db.outbox })

-- `mark_sent`
unfoldable pub mark_sent : ℕ → ℕ → Option ℕ → Action OutboxMessage
unfolding update_message
mark_sent now message_id tg_message_id = do
  found ← query (find_message message_id)
  m ← or_raise found outbox_not_found
  update_message message_id (sent_row now tg_message_id)
  return (sent_row now tg_message_id m)

abbrev pub failed_row : ℕ → String → OutboxMessage → OutboxMessage
failed_row now error m =
    if leb max_attempts m.attempts
    then record m { last_error = some error; status = OutboxStatus.failed }
    else record m {
      last_error = some error;
      status = OutboxStatus.pending;
      send_after = now + 60 * exponential_backoff_minutes m.attempts;
    }

-- `mark_failed`
unfoldable pub mark_failed : ℕ → ℕ → String → Action OutboxMessage
unfolding update_message
mark_failed now message_id error = do
  found ← query (find_message message_id)
  m ← or_raise found outbox_not_found
  update_message message_id (failed_row now error)
  return (failed_row now error m)
