-- ===== src/Outbox/Dispatcher/Once.antt =====
-- Telegram takes no message two times.
use pix_vpn_service.Prelude.{
  ℕ, zero, suc, ◌+◌, ◌≤◌, ◌<◌, ◌≡◌, refl, ◌∙◌, true, List, [], ◌∷◌, ◌++◌, arith, inl, inr,
  Bool-cases, All, All-map, count_where, count_mono, count-update_where_le, update_where, ==_iff,
  ltb, ◌==◌, if◌then◌else◌,
}
use pix_vpn_service.Db.{Db, Payload, OutboxMessage}
use pix_vpn_service.Session.{ok, return, query, modify, commit, request, ◌>>=◌}
use pix_vpn_service.Tables.{insert_outbox}
use pix_vpn_service.Outbox.{
  claimed, claim_rows, is_among, insert_by_due, due_in_order, first_rows, fetch_pending,
  enqueue_message,
}
use pix_vpn_service.Outbox.Dispatcher.{
  Tick, Fetch, arrives, request_lost, answer_lost, list_pending, process_batch, tick_after, tick,
  Event, ticked, enqueued, happen, play,
}
use pix_vpn_service.Outbox.Dispatcher.Delivery.{Spends, process_each-Spends}
use pix_vpn_service.Outbox.Dispatcher.Reports.{
  is_it, waits, taken, waiting, IsKeyed, with_outbox, updated-IsKeyed,
}

pub count-claim_rows :
    (i : ℕ) (ms : List OutboxMessage)
    → count_where (is_it i) (claim_rows ms) ≡ count_where (is_it i) ms
unfolding claim_rows
count-claim_rows i [] = refl
count-claim_rows i (m ∷ ms) = omega (arith, count-claim_rows i ms)

count-first_rows :
    (i n : ℕ) (ms : List OutboxMessage)
    → count_where (is_it i) (first_rows n ms) ≤ count_where (is_it i) ms
unfolding first_rows
count-first_rows i zero ms = omega arith
count-first_rows i (suc n) [] = omega arith
count-first_rows i (suc n) (m ∷ ms) = omega (arith, count-first_rows i n ms)

count-insert_by_due :
    (i : ℕ) (m : OutboxMessage) (ms : List OutboxMessage)
    → count_where (is_it i) (insert_by_due m ms)
      ≡ (if m.id == i then 1 else 0) + count_where (is_it i) ms
unfolding insert_by_due
count-insert_by_due i m [] = refl
count-insert_by_due i m (x ∷ xs) = ground (arith, count-insert_by_due i m xs)

count-due :
    (i now : ℕ) (ms : List OutboxMessage)
    → count_where (is_it i) (due_in_order now ms) ≤ count_where (waits i) ms
unfolding due_in_order
count-due i now [] = omega arith
count-due i now (m ∷ ms) =
    ground (arith, count-due i now ms, count-insert_by_due i m (due_in_order now ms))

-- Where the message is one of the rows, every row with its id is among them.
among-it :
    (i : ℕ) (x : OutboxMessage) (rows : List OutboxMessage)
    → 1 ≤ count_where (is_it i) rows
    → (x.id == i) ≡ true
    → is_among rows x ≡ true
unfolding is_among
among-it i x [] some_row own = absurd (omega arith)
among-it i x (m ∷ ms) some_row own =
    ground (arith, among-it i x ms, ==_iff m.id i, ==_iff x.id i, ==_iff m.id x.id)

claimed-not_waiting :
    (i : ℕ) (rows ms : List OutboxMessage)
    → 1 ≤ count_where (is_it i) rows
    → count_where (waits i) (update_where (is_among rows) claimed ms) ≡ 0
claimed-not_waiting i rows [] h = refl
claimed-not_waiting i rows (m ∷ ms) h =
    ground (arith, claimed-not_waiting i rows ms h, among-it i m rows h)

-- What is claimed no longer waits.
claim-spends :
    (i now limit : ℕ) (ms : List OutboxMessage)
    → let rows = first_rows limit (due_in_order now ms) in
      count_where (is_it i) rows + count_where (waits i) (update_where (is_among rows) claimed ms)
      ≤ count_where (waits i) ms
claim-spends i now limit ms =
    let rows = first_rows limit (due_in_order now ms) in
    let some_rows = count-first_rows i limit (due_in_order now ms) in
    let due = count-due i now ms in
    elim (Bool-cases (ltb 0 (count_where (is_it i) rows))) [
      | inl t ↦
          let gone = claimed-not_waiting i rows ms (ground arith) in
          omega (arith, some_rows, due, gone)
      | inr f ↦
          let fewer =
            count-update_where_le (waits i) (is_among rows) claimed ms (λ m e. ground arith) in
          ground (arith, fewer)
    ]

taken-append : (i : ℕ) (xs ys : List ℕ) → taken i (xs ++ ys) ≡ taken i xs + taken i ys
taken-append i [] ys = omega arith
taken-append i (x ∷ xs) ys = omega (arith, taken-append i xs ys)

abbrev pub batch : ℕ → ℕ → Db → List OutboxMessage
batch now limit db = first_rows limit (due_in_order now db.outbox)

abbrev pub after_claim : ℕ → ℕ → Db → Db
after_claim now limit db = with_outbox (update_where (is_among (batch now limit db)) claimed) db

pub claimed-request :
    (now limit : ℕ) (db : Db)
    → request (list_pending now limit) db
      ≡ (ok (claim_rows (batch now limit db)), after_claim now limit db)
unfolding list_pending fetch_pending request query modify commit return ◌>>=◌
claimed-request now limit db = refl

module _ (i : ℕ) (w : Tick) (db : Db) (h : IsKeyed i db) where
  rows : List OutboxMessage
  rows = batch w.now w.batch_size db

  db' : Db
  db' = after_claim w.now w.batch_size db

  db'-IsKeyed : IsKeyed i db'
  unfolding db'
  db'-IsKeyed = updated-IsKeyed i _ claimed db (λ m. refl) h

  claim : count_where (is_it i) rows + waiting i db' ≤ waiting i db
  unfolding rows db'
  claim = claim-spends i w.now w.batch_size db.outbox

  next_same : db'.next_id ≡ db.next_id
  unfolding db'
  next_same = refl

  tick-Spends : Spends i 0 db (tick w db)
  unfolding tick
  tick-Spends = by_fetch w.fetch
    where
      by_fetch : (f : Fetch) → Spends i 0 db (tick_after w f db)
      by_fetch request_lost =
          unfold tick_after in record { keyed = h; next = refl; spent = omega arith }
      by_fetch answer_lost =
          unfold tick_after in
          unfold rows in
          unfold db' in
          rw (claimed-request w.now w.batch_size db)
            (record { keyed = db'-IsKeyed; next = next_same; spent = omega (arith, claim) })
      by_fetch arrives =
          let each = process_each-Spends i w (claim_rows rows) db' db'-IsKeyed in
          let same = count-claim_rows i rows in
          unfold tick_after in
          unfold process_batch in
          unfold rows in
          unfold db' in
          rw (claimed-request w.now w.batch_size db) (record {
            keyed = each.keyed;
            next = each.next ∙ next_same;
            spent = omega (arith, each.spent, same, claim);
          })

-- How often the message may still be taken.
abbrev budget : ℕ → Db → ℕ
budget i db = if ltb i db.next_id then waiting i db else 1

-- No row has an id that is not given out yet.
unused :
    (i next : ℕ) (ms : List OutboxMessage)
    → All (λ (m : OutboxMessage). m.id < next) ms
    → next ≤ i
    → count_where (is_it i) ms ≡ 0
unused i next [] h le = refl
unused i next (m ∷ ms) h le = ground (arith, unused i next ms h.1 le, h.0)

waiting-le : (i : ℕ) (ms : List OutboxMessage) → count_where (waits i) ms ≤ count_where (is_it i) ms
waiting-le i ms = count_mono (waits i) (is_it i) ms (λ m e. ground arith)

-- What an event comes to.
record Costs (i : ℕ) (db : Db) (o : List ℕ × Db) : Type 0 where
  keyed : IsKeyed i o.1
  paid : taken i o.0 + budget i o.1 ≤ budget i db

tick-Costs : (i : ℕ) (w : Tick) (db : Db) → IsKeyed i db → Costs i db (tick w db)
tick-Costs i w db h =
    let o = tick-Spends i w db h in
    record {
      keyed = o.keyed;
      paid = elim (Bool-cases (ltb i db.next_id)) [
        | inl t ↦ rw (o.next, t) (omega (arith, o.spent))
        | inr f ↦
            let free : count_where (is_it i) db.outbox ≡ 0 =
              unused i db.next_id db.outbox h.fresh (ground arith) in
            rw (o.next, f) (omega (arith, o.spent, waiting-le i db.outbox, free))
      ];
    }

enqueue-Costs :
    (i now user_id chat_id : ℕ) (payload : Payload) (db : Db)
    → IsKeyed i db
    → Costs i db (happen (enqueued now user_id chat_id payload) db)
unfolding happen enqueue_message insert_outbox request commit ◌>>=◌
enqueue-Costs i now user_id chat_id payload db h =
    let free = unused i db.next_id db.outbox h.fresh in
    record {
      keyed = record {
        single = ground (arith, free, h.single);
        fresh =
            (omega arith, All-map _ _ db.outbox (λ (m : OutboxMessage) lt. omega arith) h.fresh);
      };
      paid = ground (arith, free, waiting-le i db.outbox);
    }

happen-Costs : (i : ℕ) (e : Event) (db : Db) → IsKeyed i db → Costs i db (happen e db)
unfolding happen
happen-Costs i (ticked w) db h = tick-Costs i w db h
happen-Costs i (enqueued now user_id chat_id payload) db h =
    enqueue-Costs i now user_id chat_id payload db h

play-Costs : (i : ℕ) (es : List Event) (db : Db) → IsKeyed i db → Costs i db (play es db)
unfolding play
play-Costs i [] db h = record { keyed = h; paid = omega arith }
play-Costs i (e ∷ es) db h =
    let (ids, db') = happen e db in
    let one = happen-Costs i e db h in
    let rest = play-Costs i es db' one.keyed in
    let sum = taken-append i ids (play es db').0 in
    record { keyed = rest.keyed; paid = omega (arith, one.paid, rest.paid, sum) }

-- From an outbox in which one row at most has an id and all ids are given out already, through any
-- sequence of ticks and of messages that are enqueued, Telegram answers at most one time that it took
-- the message with this id: whatever else it answers, whichever reports are lost and whichever claims.
pub play-taken_once :
    (i : ℕ) (es : List Event) (db : Db) → IsKeyed i db → taken i (play es db).0 ≤ 1
play-taken_once i es db h =
    let all = play-Costs i es db h in ground (arith, all.paid, waiting-le i db.outbox, h.single)
