-- ===== src/Outbox/Dispatcher/Settled.antt =====
-- A message that a tick claims does not stay claimed, where the answers and the reports arrive.
use pix_vpn_service.Prelude.{
  ℕ, ◌≤◌, ◌≡◌, refl, Bool, true, false, ◌&&◌, String, Option, none, some, List, [], ◌∷◌, arith, inl,
  inr, Bool-cases, find, count_where, count_mono, count-none, update_where, ==_iff, leb, ◌==◌,
  if◌then◌else◌,
}
use pix_vpn_service.Db.{Db, OutboxStatus, OutboxMessage}
use pix_vpn_service.Session.{request}
use pix_vpn_service.Outbox.{
  sent_row, failed_row, mark_sent, mark_failed, update_message, claim_rows,
}
use pix_vpn_service.Outbox.Telegram.{Envelope}
use pix_vpn_service.Outbox.Dispatcher.{
  Tick, arrives, post_sent, post_failed, report, error_text, report_envelope, process_text,
  process_one, process_each, process_batch, tick_after, tick,
}
use pix_vpn_service.Outbox.Dispatcher.Reports.{
  is_it, marked, marked-request, sent_row-id, failed_row-id,
}
use pix_vpn_service.Outbox.Dispatcher.Once.{batch, after_claim, claimed-request, count-claim_rows}

abbrev is_dispatching : OutboxStatus → Bool
is_dispatching OutboxStatus.dispatching = true
is_dispatching _ = false

abbrev is_held : ℕ → OutboxMessage → Bool
is_held i m = (m.id == i) && is_dispatching m.status

-- How many rows with this id are claimed and not reported yet.
abbrev pub held : ℕ → Db → ℕ
held i db = count_where (is_held i) db.outbox

-- A report about a message frees its row and claims no other.
abbrev Frees : ℕ → ℕ → Db → Db → Type 0
Frees i mid db db' = held i db' ≤ (if mid == i then 0 else held i db)

updated-Frees :
    (i mid : ℕ) (f : OutboxMessage → OutboxMessage) (ms : List OutboxMessage)
    → ((m : OutboxMessage) → (f m).id ≡ m.id)
    → ((m : OutboxMessage) → is_dispatching (f m).status ≡ false)
    → count_where (is_held i) (update_where (is_it mid) f ms)
      ≤ (if mid == i then 0 else count_where (is_held i) ms)
updated-Frees i mid f [] same over = ground arith
updated-Frees i mid f (m ∷ ms) same over = ground (
  arith,
  updated-Frees i mid f ms same over,
  same m,
  over m,
  ==_iff m.id mid,
  ==_iff m.id i,
  ==_iff mid i,
)

sent_row-over :
    (now : ℕ) (tg : Option ℕ) (m : OutboxMessage)
    → is_dispatching (sent_row now tg m).status ≡ false
sent_row-over now none m = refl
sent_row-over now (some t) m = refl

failed_row-over :
    (now : ℕ) (error : String) (m : OutboxMessage)
    → is_dispatching (failed_row now error m).status ≡ false
failed_row-over now error m = ground arith

-- Where there is no row, none is claimed.
missing-Frees : (i mid : ℕ) (db : Db) → find (is_it mid) db.outbox ≡ none → Frees i mid db db
missing-Frees i mid db e = elim (Bool-cases (mid == i)) [
  | inl t ↦
      let same : mid ≡ i = (==_iff mid i).0 t in
      let nothing = count-none (is_it mid) db.outbox (rw e refl) in
      let fewer = count_mono (is_held mid) (is_it mid) db.outbox (λ m h. ground arith) in
      rw (t, ← same) (omega (arith, nothing, fewer))
  | inr f ↦ rw f (omega arith)
]

post_sent-Frees :
    (i now mid : ℕ) (tg : Option ℕ) (db : Db) → Frees i mid db (request (post_sent now mid tg) db).1
unfolding post_sent mark_sent marked update_message
post_sent-Frees i now mid tg db =
    marked-request (Frees i mid db) mid (sent_row now tg) db (missing-Frees i mid db)
      (updated-Frees i mid (sent_row now tg) db.outbox (sent_row-id now tg) (sent_row-over now tg))

post_failed-Frees :
    (i now mid : ℕ) (error : String) (db : Db)
    → Frees i mid db (request (post_failed now mid error) db).1
unfolding post_failed mark_failed marked update_message
post_failed-Frees i now mid error db =
    marked-request (Frees i mid db) mid (failed_row now error) db (missing-Frees i mid db) (
      updated-Frees i mid (failed_row now error) db.outbox (failed_row-id now error)
        (failed_row-over now error))

module _ (i : ℕ) (w : Tick) (reports : (m : OutboxMessage) → w.report_arrives m ≡ true) where
  report_envelope-Frees :
      (m : OutboxMessage) (e : Envelope) (db : Db) → Frees i m.id db (report_envelope w m e db).1
  unfolding report_envelope report
  report_envelope-Frees m e db = elim (Bool-cases e.ok) [
    | inl t ↦ rw (t, reports m) (post_sent-Frees i w.now m.id e.message_id db)
    | inr f ↦ rw (f, reports m) (post_failed-Frees i w.now m.id (error_text e) db)
  ]

  process_text-Frees :
      (m : OutboxMessage) (text : String) (db : Db) → Frees i m.id db (process_text w m text db).1
  unfolding process_text report
  process_text-Frees m String.[] db = rw (reports m) (post_failed-Frees i w.now m.id _ db)
  process_text-Frees m (String.◌∷◌ c s) db = report_envelope-Frees m _ db

  process_each-held :
      (ms : List OutboxMessage) (db : Db)
      → held i (process_each w ms db).1
        ≤ (if leb 1 (count_where (is_it i) ms) then 0 else held i db)
  unfolding process_each process_one
  process_each-held [] db = omega arith
  process_each-held (m ∷ ms) db =
      let db' = (process_one w m db).1 in
      let one : Frees i m.id db db' = process_text-Frees m (w.render m.payload) db in
      ground (arith, one, process_each-held ms db')

-- Where the batch arrives at the worker and all its reports arrive at the backend, a message that a tick
-- claims is claimed no longer after it, whatever Telegram answers: it is sent, failed or waits again.
pub tick-Settled :
    (i : ℕ) (w : Tick) (db : Db)
    → w.fetch ≡ arrives
    → ((m : OutboxMessage) → w.report_arrives m ≡ true)
    → 1 ≤ count_where (λ (m : OutboxMessage). m.id == i) (batch w.now w.batch_size db)
    → held i (tick w db).1 ≡ 0
unfolding tick tick_after process_batch
tick-Settled i w db fetched reports among =
    let rows = batch w.now w.batch_size db in
    let each =
      process_each-held i w reports (claim_rows rows) (after_claim w.now w.batch_size db) in
    let same = count-claim_rows i rows in
    rw (fetched, claimed-request w.now w.batch_size db) (ground (arith, each, same, among))
