-- ===== src/Outbox/Dispatcher.antt =====
-- worker/app/tasks/outbox_dispatcher.py with the endpoints of backend/app/api/bot/outbox.py that it
-- calls: a tick claims messages, sends each and reports how it went. The messages of a tick run side
-- by side; here they run in order, which only fixes the order of their reports. All modelled messages
-- are texts, so that the branch for photos is left out.
pub mod Delivery
pub mod Reports
pub mod Once
pub mod Settled
pub mod Requests
use Prim.Native.String.{◌++◌ as append}
use pix_vpn_service.Prelude.{
  ℕ, ◌+◌, Bool, true, false, String, Option, none, some, List, [], ◌∷◌, ◌++◌, if◌then◌else◌,
}
use pix_vpn_service.Db.{Db, Payload, OutboxMessage}
use pix_vpn_service.Session.{Result, ok, err, Action, return, commit, request, ◌>>=◌, ◌>>◌}
use pix_vpn_service.Outbox.{fetch_pending, mark_sent, mark_failed, enqueue_message}
use pix_vpn_service.Outbox.Telegram.{Reply, Envelope, call}

-- The request for the batch may be lost on its way, or its answer, or the answer is refused or not
-- what it should be: then nothing is sent, but the backend may have claimed the messages.
pub data Fetch : Type 0 where
  arrives request_lost answer_lost : Fetch

-- What a tick is given from outside: the clock of the backend, the rendering of a payload as a text
-- (`_resolve_payload`), what the attempts at a message meet, and whether a report about it arrives.
pub record Tick : Type 0 where
  pub now : ℕ
  pub batch_size : ℕ
  pub fetch : Fetch
  pub render : Payload → String
  pub telegram : OutboxMessage → ℕ → Reply
  pub report_arrives : OutboxMessage → Bool

-- GET /outbox/pending
pub list_pending : ℕ → ℕ → Action (List OutboxMessage)
list_pending now limit = do rows ← fetch_pending now limit; commit; return rows

-- POST /outbox/{id}/sent
pub post_sent : ℕ → ℕ → Option ℕ → Action (Unit {0})
post_sent now message_id tg_message_id = do mark_sent now message_id tg_message_id; commit

-- POST /outbox/{id}/failed
pub post_failed : ℕ → ℕ → String → Action (Unit {0})
post_failed now message_id error = do mark_failed now message_id error; commit

-- `_mark_sent` and `_mark_failed`: an error of the request is logged and dropped.
pub report : Bool → Action (Unit {0}) → Db → Db
report true action db = (request action db).1
report false action db = db

abbrev pub or_text : String → Option String → String
or_text other none = other
or_text other (some String.[]) = other
or_text other (some (String.◌∷◌ c s)) = String.◌∷◌ c s

abbrev code_text : Option String → String
code_text none = "None"
code_text (some code) = code

abbrev pub error_text : Envelope → String
error_text e = append (code_text e.error_code) (append ": " (or_text "unknown error" e.description))

pub data Outcome : Type 0 where
  was_sent was_failed : Outcome

abbrev pub accept : OutboxMessage → Outcome → List ℕ → List ℕ
accept m was_sent ids = m.id ∷ ids
accept m was_failed ids = ids

module _ (w : Tick) where
  pub report_envelope : OutboxMessage → Envelope → Db → Outcome × Db
  report_envelope m e db =
      if e.ok
      then (was_sent, report (w.report_arrives m) (post_sent w.now m.id e.message_id) db)
      else (was_failed, report (w.report_arrives m) (post_failed w.now m.id (error_text e)) db)

  -- An empty text is no text that `_dispatch_to_telegram` sends.
  pub process_text : OutboxMessage → String → Db → Outcome × Db
  process_text m String.[] db = (
    was_failed,
    report (w.report_arrives m)
        (post_failed w.now m.id "invalid payload: text payload requires non-empty 'text'") db,
  )
  process_text m (String.◌∷◌ c s) db = report_envelope m (call (w.telegram m 1) (w.telegram m 2)) db

  -- `_process_one`
  pub process_one : OutboxMessage → Db → Outcome × Db
  process_one m db = process_text m (w.render m.payload) db

  -- The messages of a batch: the ids of those that Telegram answered it took, with the database.
  pub process_each : List OutboxMessage → Db → List ℕ × Db
  process_each [] db = ([], db)
  process_each (m ∷ ms) db =
      let (outcome, db') = process_one m db in
      let (ids, db'') = process_each ms db' in (accept m outcome ids, db'')

  pub process_batch : Result (List OutboxMessage) → Db → List ℕ × Db
  process_batch (ok ms) db = process_each ms db
  process_batch (err e) db = ([], db)

  pub tick_after : Fetch → Db → List ℕ × Db
  tick_after arrives db =
      let (r, db') = request (list_pending w.now w.batch_size) db in process_batch r db'
  tick_after request_lost db = ([], db)
  tick_after answer_lost db = ([], (request (list_pending w.now w.batch_size) db).1)

  -- `outbox_dispatcher_task`
  pub tick : Db → List ℕ × Db
  tick db = tick_after w.fetch db

-- What happens to the outbox: a tick, or a message that some service enqueues.
pub data Event : Type 0 where
  ticked : Tick → Event
  enqueued : (now user_id chat_id : ℕ) → Payload → Event

pub happen : Event → Db → List ℕ × Db
happen (ticked w) db = tick w db
happen (enqueued now user_id chat_id payload) db =
    ([], (request (do enqueue_message now user_id chat_id payload; commit) db).1)

-- The ids of all messages that Telegram answered it took, one for each time.
pub play : List Event → Db → List ℕ × Db
play [] db = ([], db)
play (e ∷ es) db =
    let (ids, db') = happen e db in let (ids', db'') = play es db' in (ids ++ ids', db'')
