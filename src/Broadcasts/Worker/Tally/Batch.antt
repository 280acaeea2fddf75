-- ===== src/Broadcasts/Worker/Tally/Batch.antt =====
-- A batch of messages keeps the counters.
use pix_vpn_service.Prelude.{ℕ, List, [], ◌∷◌, arith, inl, inr, Bool-cases, All}
use pix_vpn_service.Db.{Db}
use pix_vpn_service.Db.Contact.{Broadcast, BroadcastRecipient}
use pix_vpn_service.Broadcasts.Messages.{Envelope, accepted, refused, World}
use pix_vpn_service.Broadcasts.Worker.{
  Counters, record_outcome, send_batch, copy_after, counted, message_to, is_new_photo, keep_photo,
}
use pix_vpn_service.Broadcasts.Worker.Settling.{Waits, recipients_after}
use pix_vpn_service.Broadcasts.Worker.Distinct.{Differs, IsDistinct, others-Waits}
use pix_vpn_service.Broadcasts.Worker.Tally.{Tallied, with_broadcast-Tallied, settled-Tallied}

record_outcome-Tallied :
    (bid : ℕ) (bc : Broadcast) (r : BroadcastRecipient) (e : Envelope) (db : Db)
    → Waits bid db.broadcast_recipients r
    → Tallied bid db
    → Tallied bid (record_outcome bid bc r.id e db)
unfolding record_outcome
record_outcome-Tallied bid bc r (refused c d) db waits h =
    settled-Tallied bid r (refused c d) db waits h
record_outcome-Tallied bid bc r (accepted file_id) db waits h =
    let one = settled-Tallied bid r (accepted file_id) db waits h in
    elim (Bool-cases (is_new_photo file_id bc)) [
      | inl t ↦ rw t (
          with_broadcast-Tallied bid (keep_photo file_id) _ (λ b. ground arith)
            (λ b k. record {
              total = ground (arith, k.total);
              sent = ground (arith, k.sent);
              failed = ground (arith, k.failed);
            })
            one)
      | inr f ↦ rw f one
    ]

rest-Waits :
    (bid : ℕ) (bc : Broadcast) (r : BroadcastRecipient) (e : Envelope) (db : Db)
    (rest : List (BroadcastRecipient × ℕ))
    → All (λ x. Waits bid db.broadcast_recipients x.0) rest
    → All (Differs r) rest
    → All (λ x. Waits bid (record_outcome bid bc r.id e db).broadcast_recipients x.0) rest
rest-Waits bid bc r e db [] waits differs = tt
rest-Waits bid bc r e db (x ∷ xs) waits differs = (
  rw (recipients_after bid bc r.id e db)
      (others-Waits bid e r x.0 db.broadcast_recipients differs.0 waits.0),
  rest-Waits bid bc r e db xs waits.1 differs.1,
)

pub send_batch-Tallied :
    (world : World) (bid : ℕ) (bc : Broadcast) (batch : List (BroadcastRecipient × ℕ))
    (c : Counters) (db : Db)
    → All (λ x. Waits bid db.broadcast_recipients x.0) batch
    → IsDistinct batch
    → Tallied bid db
    → Tallied bid (send_batch world bid bc batch c db).1
unfolding send_batch
send_batch-Tallied world bid bc [] c db waits distinct h = h
send_batch-Tallied world bid bc ((r, tg) ∷ rest) c db waits distinct h =
    let e = world.send (message_to world bc tg) in
    let db' = record_outcome bid bc r.id e db in
    send_batch-Tallied world bid (copy_after bc e) rest (counted e c) db'
      (rest-Waits bid bc r e db rest waits.1 distinct.0) distinct.1
      (record_outcome-Tallied bid bc r e db waits.0 h)
