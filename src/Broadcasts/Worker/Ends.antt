-- ===== src/Broadcasts/Worker/Ends.antt =====
-- A pass of the job settles recipients that were pending, so the job ends.
use pix_vpn_service.Prelude.{
  ℕ, zero, suc, ◌+◌, ◌≤◌, ◌≡◌, refl, sym, ap, Bool, true, false, Option, none, some, List, [], ◌∷◌,
  arith, inl, inr, Bool-cases, All, length, select_where, count_where, count-length,
  length-select_where, ◌==◌,
}
use pix_vpn_service.Db.{Db, User}
use pix_vpn_service.Db.Contact.{Broadcast, BroadcastRecipient}
use pix_vpn_service.Broadcasts.{is_sending, find_broadcast}
use pix_vpn_service.Broadcasts.Audience.{
  is_of, is_pending_of, insert_recipient, insert_recipients, is_target, snapshot,
}
use pix_vpn_service.Broadcasts.Messages.{World}
use pix_vpn_service.Broadcasts.Worker.{
  Counters, record_outcome, send_batch, cancel_meanwhile, Pass, stops, goes_on, work_batch,
  work_if_sending, pass, drain, drain_after, run_found, run_broadcast, copy_after, counted,
  message_to,
}
use pix_vpn_service.Broadcasts.Worker.Settling.{
  pending_count, Waits, next_batch-Waits, pending_after, send_batch-pending,
}

-- A pass after which the loop goes on has fewer recipients pending.
abbrev GoesDown : ℕ → ℕ → Pass → Type 0
GoesDown bid before p =
    (c : Counters) (db : Db) → p ≡ goes_on c db → pending_count bid db + 1 ≤ before

stops-GoesDown : (bid before : ℕ) (c : Counters) (db : Db) → GoesDown bid before (stops c db)
stops-GoesDown bid before c db c' db' e = absurd (never e)
  where
    never : stops c db ≡ goes_on c' db' → ⊥
    never h = cc

work_batch-GoesDown :
    (world : World) (bid : ℕ) (bc : Broadcast) (batch : List (BroadcastRecipient × ℕ))
    (c : Counters) (db : Db)
    → All (λ x. Waits bid db.broadcast_recipients x.0) batch
    → GoesDown bid (pending_count bid db) (work_batch world bid bc batch c db)
work_batch-GoesDown world bid bc [] c db h = stops-GoesDown bid _ c _
work_batch-GoesDown world bid bc ((r, tg) ∷ rest) c db h = λ c' db' e.
    unfold send_batch in
    let envelope = world.send (message_to world bc tg) in
    let first = record_outcome bid bc r.id envelope db in
    let out = send_batch world bid (copy_after bc envelope) rest (counted envelope c) first in
    let same : out.1 ≡ db' = cc in
    rw (sym same) (
      omega (
        arith,
        h.0,
        pending_after bid bc r.id envelope db,
        send_batch-pending world bid (copy_after bc envelope) rest (counted envelope c) first,
      ))

work_if_sending-GoesDown :
    (world : World) (bid : ℕ) (found : Option Broadcast) (c : Counters) (db : Db)
    → GoesDown bid (pending_count bid db) (work_if_sending world bid found c db)
work_if_sending-GoesDown world bid none c db = stops-GoesDown bid _ c db
work_if_sending-GoesDown world bid (some bc) c db = elim (Bool-cases (is_sending bc.status)) [
  | inl t ↦ rw t (work_batch-GoesDown world bid bc _ c db (next_batch-Waits bid db))
  | inr f ↦ rw f (stops-GoesDown bid _ c db)
]

cancel_meanwhile-recipients :
    (now bid : ℕ) (x : Bool) (db : Db)
    → (cancel_meanwhile now bid x db).broadcast_recipients ≡ db.broadcast_recipients
cancel_meanwhile-recipients now bid false db = refl
cancel_meanwhile-recipients now bid true db = refl

pass-GoesDown :
    (world : World) (bid n : ℕ) (c : Counters) (db : Db)
    → GoesDown bid (pending_count bid db) (pass world bid n c db)
unfolding pass
pass-GoesDown world bid n c db = elim (Bool-cases (world.stop_flag n)) [
  | inl t ↦ rw t (stops-GoesDown bid _ c _)
  | inr f ↦ rw f (λ c' db' e.
      let db0 = cancel_meanwhile world.now bid (world.cancelled n) db in
      let same : pending_count bid db0 ≡ pending_count bid db =
        ap (count_where (is_pending_of bid))
          (cancel_meanwhile-recipients world.now bid (world.cancelled n) db) in
      omega (arith, work_if_sending-GoesDown world bid (find_broadcast bid db0) c db0 c' db' e))
]

abbrev Ended : Option (Counters × Db) → Type 0
Ended o = (out : Counters × Db) × (o ≡ some out)

drain_after-Ended :
    (next : Counters → Db → Option (Counters × Db)) (p : Pass)
    → ((c : Counters) (db : Db) → p ≡ goes_on c db → Ended (next c db))
    → Ended (drain_after next p)
drain_after-Ended next (stops c db) h = ((c, db), refl)
drain_after-Ended next (goes_on c db) h = h c db refl

drain-Ended :
    (world : World) (bid fuel n : ℕ) (c : Counters) (db : Db)
    → pending_count bid db + 1 ≤ fuel
    → Ended (drain world bid fuel n c db)
unfolding drain
drain-Ended world bid zero n c db enough = absurd (omega arith)
drain-Ended world bid (suc fuel) n c db enough =
    drain_after-Ended _ (pass world bid n c db) (λ c' db' e.
      let fewer : pending_count bid db' + 1 ≤ pending_count bid db =
        pass-GoesDown world bid n c db c' db' e in
      drain-Ended world bid fuel (n + 1) c' db' (omega arith))

insert_recipients-pending :
    (bid : ℕ) (us : List User) (db : Db)
    → pending_count bid (insert_recipients bid us db) ≤ pending_count bid db + length us
insert_recipients-pending bid [] db = omega arith
insert_recipients-pending bid (u ∷ us) db =
    ground (arith, insert_recipients-pending bid us (insert_recipient bid u db))

snapshot-pending :
    (now bid : ℕ) (bc : Broadcast) (db : Db)
    → pending_count bid (snapshot now bid bc db) ≤ length db.broadcast_recipients + length db.users
unfolding snapshot
snapshot-pending now bid bc db =
    let before = count-length (is_pending_of bid) db.broadcast_recipients in
    elim (Bool-cases (count_where (is_of bid) db.broadcast_recipients == 0)) [
      | inl t ↦ rw t (
          omega (
            arith,
            before,
            insert_recipients-pending bid
                (select_where (is_target now db.subscriptions bc.target) db.users) db,
            length-select_where (is_target now db.subscriptions bc.target) db.users,
          ))
      | inr f ↦ rw f (omega arith)
    ]

run_found-Ended :
    (world : World) (fuel bid : ℕ) (found : Option Broadcast) (db : Db)
    → length db.broadcast_recipients + length db.users + 1 ≤ fuel
    → Ended (run_found world fuel bid found db)
run_found-Ended world fuel bid none db enough = (_, refl)
run_found-Ended world fuel bid (some bc) db enough = elim (Bool-cases (is_sending bc.status)) [
  | inl t ↦
      rw t (drain-Ended world bid fuel 0 _ _ (omega (arith, snapshot-pending world.now bid bc db)))
  | inr f ↦ rw f (_, refl)
]

-- With more passes than the tables of recipients and users have rows together, the job ends, whatever
-- Telegram answers and whether or not the broadcast is cancelled meanwhile.
pub run_broadcast_ends :
    (world : World) (fuel bid : ℕ) (db : Db)
    → length db.broadcast_recipients + length db.users + 1 ≤ fuel
    → (out : Counters × Db) × (run_broadcast world fuel bid db ≡ some out)
unfolding run_broadcast
run_broadcast_ends world fuel bid db enough =
    run_found-Ended world fuel bid (find_broadcast bid db) db enough
