-- ===== src/Outbox/Dispatcher/Delivery.antt =====
-- What a tick spends: a message that Telegram takes no longer waits, whatever becomes of the report.
use pix_vpn_service.Prelude.{
  ℕ, ◌+◌, ◌≤◌, ◌≡◌, refl, ◌∙◌, String, List, [], ◌∷◌, arith, inl, inr, Bool-cases, count_where,
  ◌==◌, if◌then◌else◌,
}
use pix_vpn_service.Db.{Db, OutboxMessage}
use pix_vpn_service.Outbox.Telegram.{Envelope}
use pix_vpn_service.Outbox.Dispatcher.{
  Tick, post_sent, post_failed, error_text, Outcome, was_sent, was_failed, report_envelope,
  process_text, process_one, accept, process_each,
}
use pix_vpn_service.Outbox.Dispatcher.Reports.{
  is_it, taken, waiting, IsKeyed, post_sent-Moves, post_failed-Moves, report-Moves,
}

-- What a step of a tick comes to: the times that Telegram took the message, and what waits after it.
pub record Spends (i k : ℕ) (db : Db) (o : List ℕ × Db) : Type 0 where
  pub keyed : IsKeyed i o.1
  pub next : o.1.next_id ≡ db.next_id
  pub spent : taken i o.0 + waiting i o.1 ≤ waiting i db + k

one_of :
    (i : ℕ) (m : OutboxMessage) (db : Db) (o : Outcome) (db' : Db) (ids : List ℕ)
    → taken i (accept m o ids) ≡ taken i (accept m o []) + taken i ids
one_of i m db was_sent db' ids = omega arith
one_of i m db was_failed db' ids = omega arith

module _ (i : ℕ) (w : Tick) where
  abbrev Step : OutboxMessage → Db → Outcome × Db → Type 0
  Step m db (o, db') = Spends i (if m.id == i then 1 else 0) db (accept m o [], db')

  report_envelope-Step :
      (m : OutboxMessage) (e : Envelope) (db : Db)
      → IsKeyed i db
      → Step m db (report_envelope w m e db)
  unfolding report_envelope
  report_envelope-Step m e db h = elim (Bool-cases e.ok) [
    | inl t ↦
        let sent =
          report-Moves i 0 (w.report_arrives m) (post_sent w.now m.id e.message_id) db h
            (post_sent-Moves i w.now m.id e.message_id db h) in
        rw t (record { keyed = sent.keyed; next = sent.next; spent = omega (arith, sent.fewer) })
    | inr f ↦
        let failed =
          report-Moves i (if m.id == i then 1 else 0) (w.report_arrives m)
            (post_failed w.now m.id (error_text e)) db h
            (post_failed-Moves i w.now m.id (error_text e) db h) in
        rw f
          (record { keyed = failed.keyed; next = failed.next; spent = omega (arith, failed.fewer) })
  ]

  process_text-Step :
      (m : OutboxMessage) (text : String) (db : Db)
      → IsKeyed i db
      → Step m db (process_text w m text db)
  unfolding process_text
  process_text-Step m String.[] db h =
      let failed =
        report-Moves i (if m.id == i then 1 else 0) (w.report_arrives m) (post_failed w.now m.id _)
          db h (post_failed-Moves i w.now m.id _ db h) in
      record { keyed = failed.keyed; next = failed.next; spent = omega (arith, failed.fewer) }
  process_text-Step m (String.◌∷◌ c s) db h = report_envelope-Step m _ db h

  pub process_each-Spends :
      (ms : List OutboxMessage) (db : Db)
      → IsKeyed i db
      → Spends i (count_where (is_it i) ms) db (process_each w ms db)
  unfolding process_each process_one
  process_each-Spends [] db h = record { keyed = h; next = refl; spent = omega arith }
  process_each-Spends (m ∷ ms) db h =
      let (o, db') = process_one w m db in
      let one : Step m db (process_one w m db) = process_text-Step m (w.render m.payload) db h in
      let rest = process_each-Spends ms db' one.keyed in
      let sum = one_of i m db o db' (process_each w ms db').0 in
      record {
        keyed = rest.keyed;
        next = rest.next ∙ one.next;
        spent = omega (arith, rest.spent, one.spent, sum);
      }
