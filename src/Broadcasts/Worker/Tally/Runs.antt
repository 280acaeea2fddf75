-- ===== src/Broadcasts/Worker/Tally/Runs.antt =====
-- The tally through the passes of the job and its first snapshot.
use pix_vpn_service.Prelude.{
  ℕ, zero, suc, ◌+◌, ◌≤◌, ◌≡◌, refl, sym, Bool, true, false, Option, none, some, List, [], ◌∷◌,
  arith, inl, inr, Bool-cases, All, find-updated, count_where, ◌==◌, select_where,
}
use pix_vpn_service.Db.{Db, User}
use pix_vpn_service.Db.Contact.{Broadcast, BroadcastStatus, BroadcastRecipient}
use pix_vpn_service.Broadcasts.{is_sending, find_broadcast}
use pix_vpn_service.Broadcasts.Audience.{
  is_of, next_batch, insert_recipient, insert_recipients, is_target, started, first_snapshot,
  snapshot,
}
use pix_vpn_service.Broadcasts.Messages.{World}
use pix_vpn_service.Broadcasts.Worker.{
  Counters, cancel_meanwhile, cancel_if_sending, Pass, stops, goes_on, work_batch, work_if_sending,
  pass, drain, drain_after, run_found, run_broadcast, finalize,
}
use pix_vpn_service.Broadcasts.Worker.Settling.{Waits, next_batch-Waits}
use pix_vpn_service.Broadcasts.Worker.Distinct.{has_id, Keyed, IsDistinct, next_batch-IsDistinct}
use pix_vpn_service.Broadcasts.Worker.Tally.{
  is_sent_of, is_failed_of, Tallied, with_broadcast-Tallied,
}
use pix_vpn_service.Broadcasts.Worker.Tally.Batch.{send_batch-Tallied}

abbrev pass_db : Pass → Db
pass_db (stops c db) = db
pass_db (goes_on c db) = db

finalize-Tallied :
    (now bid : ℕ) (x : BroadcastStatus) (db : Db)
    → Tallied bid db
    → Tallied bid (finalize now bid x db)
finalize-Tallied now bid x db h =
    with_broadcast-Tallied bid _ db (λ b. refl)
      (λ b k. record { total = k.total; sent = k.sent; failed = k.failed }) h

cancel_meanwhile-Tallied :
    (now bid : ℕ) (x : Bool) (db : Db)
    → Tallied bid db
    → Tallied bid (cancel_meanwhile now bid x db)
cancel_meanwhile-Tallied now bid false db h = h
cancel_meanwhile-Tallied now bid true db h =
    with_broadcast-Tallied bid (cancel_if_sending now) db (λ b. ground arith)
      (λ b k. record {
        total = ground (arith, k.total);
        sent = ground (arith, k.sent);
        failed = ground (arith, k.failed);
      })
      h

work_batch-Tallied :
    (world : World) (bid : ℕ) (bc : Broadcast) (batch : List (BroadcastRecipient × ℕ))
    (c : Counters) (db : Db)
    → All (λ x. Waits bid db.broadcast_recipients x.0) batch
    → IsDistinct batch
    → Tallied bid db
    → Tallied bid (pass_db (work_batch world bid bc batch c db))
work_batch-Tallied world bid bc [] c db waits distinct h = finalize-Tallied world.now bid _ db h
work_batch-Tallied world bid bc (x ∷ xs) c db waits distinct h =
    send_batch-Tallied world bid bc (x ∷ xs) c db waits distinct h

work_if_sending-Tallied :
    (world : World) (bid : ℕ) (found : Option Broadcast) (c : Counters) (db : Db)
    → Tallied bid db
    → Tallied bid (pass_db (work_if_sending world bid found c db))
work_if_sending-Tallied world bid none c db h = h
work_if_sending-Tallied world bid (some bc) c db h = elim (Bool-cases (is_sending bc.status)) [
  | inl t ↦ rw t (
      work_batch-Tallied world bid bc (next_batch bid db) c db (next_batch-Waits bid db)
        (next_batch-IsDistinct bid db h.keyed) h)
  | inr f ↦ rw f h
]

pass-Tallied :
    (world : World) (bid n : ℕ) (c : Counters) (db : Db)
    → Tallied bid db
    → Tallied bid (pass_db (pass world bid n c db))
unfolding pass
pass-Tallied world bid n c db h =
    let db' = cancel_meanwhile world.now bid (world.cancelled n) db in
    let k = cancel_meanwhile-Tallied world.now bid (world.cancelled n) db h in
    elim (Bool-cases (world.stop_flag n)) [
      | inl t ↦ rw t (finalize-Tallied world.now bid _ db' k)
      | inr f ↦ rw f (work_if_sending-Tallied world bid _ c db' k)
    ]

abbrev AllTallied : ℕ → Option (Counters × Db) → Type 0
AllTallied bid none = Unit
AllTallied bid (some (c, db)) = Tallied bid db

drain_after-Tallied :
    (bid : ℕ) (next : Counters → Db → Option (Counters × Db)) (p : Pass)
    → ((c : Counters) (db : Db) → Tallied bid db → AllTallied bid (next c db))
    → Tallied bid (pass_db p)
    → AllTallied bid (drain_after next p)
drain_after-Tallied bid next (stops c db) each h = h
drain_after-Tallied bid next (goes_on c db) each h = each c db h

drain-Tallied :
    (world : World) (bid fuel n : ℕ) (c : Counters) (db : Db)
    → Tallied bid db
    → AllTallied bid (drain world bid fuel n c db)
unfolding drain
drain-Tallied world bid zero n c db h = tt
drain-Tallied world bid (suc fuel) n c db h =
    drain_after-Tallied bid _ (pass world bid n c db)
      (λ c' db' k. drain-Tallied world bid fuel (n + 1) c' db' k) (pass-Tallied world bid n c db h)

-- The rows of a snapshot are new, and neither sent nor failed.
record Grown (bid : ℕ) (db db' : Db) : Type 0 where
  keyed : Keyed db'.broadcast_recipients
  fresh : (rid : ℕ) → db'.next_id ≤ rid → count_where (has_id rid) db'.broadcast_recipients ≡ 0
  sent :
      count_where (is_sent_of bid) db'.broadcast_recipients
      ≡ count_where (is_sent_of bid) db.broadcast_recipients
  failed :
      count_where (is_failed_of bid) db'.broadcast_recipients
      ≡ count_where (is_failed_of bid) db.broadcast_recipients
  same : db'.broadcasts ≡ db.broadcasts

insert_recipient-Grown :
    (bid : ℕ) (u : User) (db db' : Db)
    → Grown bid db db'
    → Grown bid db (insert_recipient bid u db')
insert_recipient-Grown bid u db db' h = record {
  keyed = λ rid. ground (arith, h.keyed rid, h.fresh rid);
  fresh = λ rid new. ground (arith, h.fresh rid);
  sent = ground (arith, h.sent);
  failed = ground (arith, h.failed);
  same = h.same;
}

insert_recipients-Grown :
    (bid : ℕ) (us : List User) (db db' : Db)
    → Grown bid db db'
    → Grown bid db (insert_recipients bid us db')
insert_recipients-Grown bid [] db db' h = h
insert_recipients-Grown bid (u ∷ us) db db' h =
    insert_recipients-Grown bid us db (insert_recipient bid u db')
      (insert_recipient-Grown bid u db db' h)

first_snapshot-Tallied :
    (now bid : ℕ) (bc : Broadcast) (db : Db)
    → Tallied bid db
    → Tallied bid (first_snapshot now bid bc db)
first_snapshot-Tallied now bid bc db h =
    let us = select_where (is_target now db.subscriptions bc.target) db.users in
    let db' = insert_recipients bid us db in
    let start = started now (count_where (is_of bid) db'.broadcast_recipients) in
    let g =
      insert_recipients-Grown bid us db db
        (record { keyed = h.keyed; fresh = h.fresh; sent = refl; failed = refl; same = refl }) in
    record {
      keyed = g.keyed;
      fresh = g.fresh;
      agrees = λ b e.
          let old =
            find-updated (λ (x : Broadcast). x.id == bid) start db'.broadcasts b (λ x. refl) e in
          let before : find_broadcast bid db ≡ some old.0 = rw (sym g.same) old.1 in
          let k = h.agrees old.0 before in
          rw old.2 (record {
            total = refl;
            sent = omega (arith, k.sent, g.sent);
            failed = omega (arith, k.failed, g.failed);
          });
    }

snapshot-Tallied :
    (now bid : ℕ) (bc : Broadcast) (db : Db) → Tallied bid db → Tallied bid (snapshot now bid bc db)
unfolding snapshot
snapshot-Tallied now bid bc db h =
    elim (Bool-cases (count_where (is_of bid) db.broadcast_recipients == 0)) [
      | inl t ↦ rw t (first_snapshot-Tallied now bid bc db h)
      | inr f ↦ rw f h
    ]

run_found-Tallied :
    (world : World) (fuel bid : ℕ) (found : Option Broadcast) (db : Db)
    → Tallied bid db
    → AllTallied bid (run_found world fuel bid found db)
run_found-Tallied world fuel bid none db h = h
run_found-Tallied world fuel bid (some bc) db h = elim (Bool-cases (is_sending bc.status)) [
  | inl t ↦ rw t (drain-Tallied world bid fuel 0 _ _ (snapshot-Tallied world.now bid bc db h))
  | inr f ↦ rw f h
]

taken :
    (bid : ℕ) (o : Option (Counters × Db)) (c : Counters) (db : Db)
    → o ≡ some (c, db)
    → AllTallied bid o
    → Tallied bid db
taken bid none c db e h = absurd (never e)
  where
    never : ◌≡◌ {A = Option (Counters × Db)} none (some (c, db)) → ⊥
    never k = cc
taken bid (some (c', db')) c db e h = let same : db' ≡ db = cc in rw (sym same) h

-- Where the counters of a broadcast agree with the rows of its recipients and the ids of the rows are
-- a key below the next id, both still hold after a run of the job, whatever Telegram answers and
-- however the run is stopped.
pub run_broadcast-Tallied :
    (world : World) (fuel bid : ℕ) (db : Db) (c : Counters) (db' : Db)
    → Tallied bid db
    → run_broadcast world fuel bid db ≡ some (c, db')
    → Tallied bid db'
unfolding run_broadcast
run_broadcast-Tallied world fuel bid db c db' h e =
    taken bid _ c db' e (run_found-Tallied world fuel bid (find_broadcast bid db) db h)
