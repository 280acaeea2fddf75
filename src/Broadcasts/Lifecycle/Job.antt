-- ===== src/Broadcasts/Lifecycle/Job.antt =====
-- The worker's job moves a broadcast along its states.
use pix_vpn_service.Prelude.{
  ℕ, ◌≡◌, refl, Bool, true, false, ◌==◌, Option, none, some, List, [], ◌∷◌, inl, inr, Bool-cases,
  arith, find-test, find-update_where,
}
use pix_vpn_service.Db.{Db}
use pix_vpn_service.Db.Contact.{Broadcast, BroadcastStatus, BroadcastRecipient}
use pix_vpn_service.Broadcasts.{is_sending, find_broadcast, with_broadcast}
use pix_vpn_service.Broadcasts.Audience.{next_batch}
use pix_vpn_service.Broadcasts.Messages.{Envelope, accepted, refused, World}
use pix_vpn_service.Broadcasts.Worker.{
  Counters, update_recipient, one_sent, one_failed, record_outcome, send_batch, cancel_if_sending,
  cancel_meanwhile, Pass, stops, goes_on, work_batch, work_if_sending, pass, copy_after, counted,
  message_to, is_new_photo, keep_photo, finalize, finalized,
}
use pix_vpn_service.Broadcasts.Lifecycle.{
  cancels, finishes, Reach, here, next, Tracks, with_broadcast-Tracks,
}

abbrev pub Sending : BroadcastStatus
Sending = BroadcastStatus.sending

-- The broadcast is in the table, and being sent.
pub record IsSent (bid : ℕ) (db : Db) : Type 0 where
  pub row : Broadcast
  pub found : find_broadcast bid db ≡ some row
  pub status : row.status ≡ Sending

pub IsSent-Tracks : (bid : ℕ) (db : Db) → IsSent bid db → Tracks bid Sending db
IsSent-Tracks bid db h = record { row = h.row; found = h.found; reached = rw h.status here }

pub with_broadcast-IsSent :
    (bid : ℕ) (f : Broadcast → Broadcast) (db : Db)
    → ((x : Broadcast) → (f x).id ≡ x.id)
    → ((x : Broadcast) → (f x).status ≡ x.status)
    → IsSent bid db
    → IsSent bid (with_broadcast bid f db)
with_broadcast-IsSent bid f db same keeps h =
    let is_it = λ (x : Broadcast). x.id == bid in
    let hit : (h.row.id == bid) ≡ true = find-test is_it db.broadcasts h.row h.found in
    record {
      row = f h.row;
      found =
          let k =
            find-update_where is_it is_it f db.broadcasts (λ x. rw (same x) refl) h.row h.found in
          ground (arith, k);
      status = rw (keeps h.row) h.status;
    }

update_recipient-IsSent :
    (bid rid : ℕ) (f : BroadcastRecipient → BroadcastRecipient) (db : Db)
    → IsSent bid db
    → IsSent bid (update_recipient rid f db)
update_recipient-IsSent bid rid f db h = record { row = h.row; found = h.found; status = h.status }

record_outcome-IsSent :
    (bid : ℕ) (bc : Broadcast) (rid : ℕ) (e : Envelope) (db : Db)
    → IsSent bid db
    → IsSent bid (record_outcome bid bc rid e db)
unfolding record_outcome
record_outcome-IsSent bid bc rid (refused c d) db h =
    with_broadcast-IsSent bid one_failed _ (λ x. refl) (λ x. refl)
      (update_recipient-IsSent bid rid _ db h)
record_outcome-IsSent bid bc rid (accepted file_id) db h =
    let one =
      with_broadcast-IsSent bid one_sent _ (λ x. refl) (λ x. refl)
        (update_recipient-IsSent bid rid _ db h) in
    elim (Bool-cases (is_new_photo file_id bc)) [
      | inl t ↦ rw t (
          with_broadcast-IsSent bid (keep_photo file_id) _ (λ x. ground arith) (λ x. ground arith)
            one)
      | inr f ↦ rw f one
    ]

send_batch-IsSent :
    (world : World) (bid : ℕ) (bc : Broadcast) (batch : List (BroadcastRecipient × ℕ))
    (c : Counters) (db : Db)
    → IsSent bid db
    → IsSent bid (send_batch world bid bc batch c db).1
unfolding send_batch
send_batch-IsSent world bid bc [] c db h = h
send_batch-IsSent world bid bc ((r, tg) ∷ rest) c db h =
    let e = world.send (message_to world bc tg) in
    send_batch-IsSent world bid (copy_after bc e) rest (counted e c) _
      (record_outcome-IsSent bid bc r.id e db h)

finalize-Tracks :
    (now bid : ℕ) (x : BroadcastStatus) (db : Db)
    → Reach Sending x
    → Tracks bid Sending db
    → Tracks bid Sending (finalize now bid x db)
finalize-Tracks now bid x db reached h =
    with_broadcast-Tracks bid (finalized now x) Sending db h.row (λ b. refl) h.found reached

cancelled_sending : Reach Sending BroadcastStatus.cancelled
cancelled_sending = next here (cancels Sending refl)

cancel_meanwhile-Tracks :
    (now bid : ℕ) (x : Bool) (db : Db)
    → IsSent bid db
    → Tracks bid Sending (cancel_meanwhile now bid x db)
cancel_meanwhile-Tracks now bid false db h = IsSent-Tracks bid db h
cancel_meanwhile-Tracks now bid true db h =
    with_broadcast-Tracks bid (cancel_if_sending now) Sending db h.row (λ b. ground arith) h.found
      (rw h.status cancelled_sending)

-- A pass that ends the job leaves a state that can be reached; else the broadcast is still being sent.
abbrev pub OnPass : ℕ → Pass → Type 0
OnPass bid (stops c db) = Tracks bid Sending db
OnPass bid (goes_on c db) = IsSent bid db

work_batch-OnPass :
    (world : World) (bid : ℕ) (bc : Broadcast) (batch : List (BroadcastRecipient × ℕ))
    (c : Counters) (db : Db)
    → IsSent bid db
    → OnPass bid (work_batch world bid bc batch c db)
work_batch-OnPass world bid bc [] c db h =
    finalize-Tracks world.now bid _ db (next here (finishes Sending refl)) (IsSent-Tracks bid db h)
work_batch-OnPass world bid bc (x ∷ xs) c db h = send_batch-IsSent world bid bc (x ∷ xs) c db h

pub is_sending-Sending : (a : BroadcastStatus) → is_sending a ≡ true → a ≡ Sending
is_sending-Sending a e = ground arith

work_if_sending-OnPass :
    (world : World) (bid : ℕ) (found : Option Broadcast) (c : Counters) (db : Db)
    → find_broadcast bid db ≡ found
    → Tracks bid Sending db
    → OnPass bid (work_if_sending world bid found c db)
work_if_sending-OnPass world bid none c db e h = h
work_if_sending-OnPass world bid (some bc) c db e h = elim (Bool-cases (is_sending bc.status)) [
  | inl t ↦ rw t (
      work_batch-OnPass world bid bc (next_batch bid db) c db
        (record { row = bc; found = e; status = is_sending-Sending bc.status t }))
  | inr f ↦ rw f h
]

pub pass-OnPass :
    (world : World) (bid n : ℕ) (c : Counters) (db : Db)
    → IsSent bid db
    → OnPass bid (pass world bid n c db)
unfolding pass
pass-OnPass world bid n c db h =
    let db' = cancel_meanwhile world.now bid (world.cancelled n) db in
    let k = cancel_meanwhile-Tracks world.now bid (world.cancelled n) db h in
    elim (Bool-cases (world.stop_flag n)) [
      | inl t ↦ rw t (finalize-Tracks world.now bid _ db' cancelled_sending k)
      | inr f ↦ rw f (work_if_sending-OnPass world bid _ c db' refl k)
    ]
