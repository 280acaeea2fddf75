-- ===== src/Broadcasts/Lifecycle/History.antt =====
-- Sequences of the administrator's requests and runs of the job.
use pix_vpn_service.Prelude.{
  ℕ, zero, suc, ◌+◌, ◌≡◌, refl, true, ◌==◌, Option, none, some, List, [], ◌∷◌, inl, inr, Bool-cases,
  length, count_where, select_where,
}
use pix_vpn_service.Db.{Db, User}
use pix_vpn_service.Db.Contact.{Broadcast, BroadcastStatus}
use pix_vpn_service.Broadcasts.{is_sending, find_broadcast}
use pix_vpn_service.Broadcasts.Audience.{
  is_of, insert_recipients, insert_recipient, is_target, started, snapshot,
}
use pix_vpn_service.Broadcasts.Messages.{World}
use pix_vpn_service.Broadcasts.Worker.{
  Counters, Pass, stops, goes_on, pass, drain, drain_after, run_found, run_broadcast,
}
use pix_vpn_service.Broadcasts.Lifecycle.{here, Reach-trans, Tracks, is_final, Reach-final}
use pix_vpn_service.Broadcasts.Lifecycle.Requests.{
  BroadcastRequest, handle_broadcast, handle_broadcast-Tracks,
}
use pix_vpn_service.Broadcasts.Lifecycle.Job.{
  IsSent, with_broadcast-IsSent, is_sending-Sending, OnPass, pass-OnPass,
}

abbrev AllTracks : ℕ → BroadcastStatus → Option (Counters × Db) → Type 0
AllTracks bid a none = Unit
AllTracks bid a (some (c, db)) = Tracks bid a db

drain_after-Tracks :
    (bid : ℕ) (next : Counters → Db → Option (Counters × Db)) (p : Pass)
    → ((c : Counters) (db : Db) → IsSent bid db → AllTracks bid BroadcastStatus.sending (next c db))
    → OnPass bid p
    → AllTracks bid BroadcastStatus.sending (drain_after next p)
drain_after-Tracks bid next (stops c db) each h = h
drain_after-Tracks bid next (goes_on c db) each h = each c db h

drain-Tracks :
    (world : World) (bid fuel n : ℕ) (c : Counters) (db : Db)
    → IsSent bid db
    → AllTracks bid BroadcastStatus.sending (drain world bid fuel n c db)
unfolding drain
drain-Tracks world bid zero n c db h = tt
drain-Tracks world bid (suc fuel) n c db h =
    drain_after-Tracks bid _ (pass world bid n c db)
      (λ c' db' k. drain-Tracks world bid fuel (n + 1) c' db' k) (pass-OnPass world bid n c db h)

insert_recipients-IsSent :
    (bid : ℕ) (us : List User) (db : Db) → IsSent bid db → IsSent bid (insert_recipients bid us db)
insert_recipients-IsSent bid [] db h = h
insert_recipients-IsSent bid (u ∷ us) db h =
    insert_recipients-IsSent bid us (insert_recipient bid u db)
      (record { row = h.row; found = h.found; status = h.status })

snapshot-IsSent :
    (now bid : ℕ) (bc : Broadcast) (db : Db) → IsSent bid db → IsSent bid (snapshot now bid bc db)
unfolding snapshot
snapshot-IsSent now bid bc db h =
    let us = select_where (is_target now db.subscriptions bc.target) db.users in
    let db' = insert_recipients bid us db in
    let start = started now (count_where (is_of bid) db'.broadcast_recipients) in
    elim (Bool-cases (count_where (is_of bid) db.broadcast_recipients == 0)) [
      | inl t ↦ rw t (
          with_broadcast-IsSent bid start db' (λ x. refl) (λ x. refl)
            (insert_recipients-IsSent bid us db h))
      | inr f ↦ rw f h
    ]

from_sending :
    (bid : ℕ) (a : BroadcastStatus) (o : Option (Counters × Db))
    → a ≡ BroadcastStatus.sending
    → AllTracks bid BroadcastStatus.sending o
    → AllTracks bid a o
from_sending bid a o same h = rw same h

run_found-Tracks :
    (world : World) (fuel bid : ℕ) (b : Broadcast) (db : Db)
    → find_broadcast bid db ≡ some b
    → AllTracks bid b.status (run_found world fuel bid (some b) db)
run_found-Tracks world fuel bid b db found = elim (Bool-cases (is_sending b.status)) [
  | inl t ↦
      let same : b.status ≡ BroadcastStatus.sending = is_sending-Sending b.status t in
      let sent : IsSent bid db = record { row = b; found = found; status = same } in
      let run = drain-Tracks world bid fuel 0 _ _ (snapshot-IsSent world.now bid b db sent) in
      rw t (from_sending bid b.status _ same run)
  | inr f ↦ rw f (record { row = b; found = found; reached = here })
]

-- What happens to the broadcast `bid`: a request of an administrator, or a run of the job.
pub data Event : Type 0 where
  asked : BroadcastRequest → Event
  ran : World → Event

abbrev run_db : Db → Option (Counters × Db) → Db
run_db db none = db
run_db db (some (c, db')) = db'

-- A run with the passes that it needs.
pub happen : ℕ → Event → Db → Db
happen bid (asked r) db = handle_broadcast bid r db
happen bid (ran world) db =
    let fuel = length db.broadcast_recipients + length db.users + 1 in
    run_db db (run_broadcast world fuel bid db)

pub play : ℕ → List Event → Db → Db
play bid [] db = db
play bid (e ∷ es) db = play bid es (happen bid e db)

run_db-Tracks :
    (bid : ℕ) (b : Broadcast) (db : Db) (o : Option (Counters × Db))
    → find_broadcast bid db ≡ some b
    → AllTracks bid b.status o
    → Tracks bid b.status (run_db db o)
run_db-Tracks bid b db none found h = record { row = b; found = found; reached = here }
run_db-Tracks bid b db (some (c, db')) found h = h

happen-Tracks :
    (bid : ℕ) (e : Event) (db : Db) (b : Broadcast)
    → find_broadcast bid db ≡ some b
    → Tracks bid b.status (happen bid e db)
unfolding happen run_broadcast
happen-Tracks bid (asked r) db b found = handle_broadcast-Tracks bid r db b found
happen-Tracks bid (ran world) db b found =
    let fuel = length db.broadcast_recipients + length db.users + 1 in
    let run : AllTracks bid b.status (run_found world fuel bid (find_broadcast bid db) db) =
      rw found (run_found-Tracks world fuel bid b db found) in
    run_db-Tracks bid b db _ found run

-- Through any sequence of requests and runs a broadcast stays in the table, and each state that it is
-- found in can be reached from the first one by the steps of `Step`: no request and no run skips a
-- state or goes back.
pub play-Tracks :
    (bid : ℕ) (es : List Event) (db : Db) (b : Broadcast)
    → find_broadcast bid db ≡ some b
    → Tracks bid b.status (play bid es db)
unfolding play
play-Tracks bid [] db b found = record { row = b; found = found; reached = here }
play-Tracks bid (e ∷ es) db b found =
    let now = happen-Tracks bid e db b found in
    let later = play-Tracks bid es (happen bid e db) now.row now.found in
    record { row = later.row; found = later.found; reached = Reach-trans now.reached later.reached }

-- So a broadcast that is done or cancelled stays so, whatever is asked or run.
pub play_final :
    (bid : ℕ) (es : List Event) (db : Db) (b : Broadcast)
    → find_broadcast bid db ≡ some b
    → is_final b.status ≡ true
    → (b' : Broadcast) × (find_broadcast bid (play bid es db) ≡ some b') × (b'.status ≡ b.status)
play_final bid es db b found final =
    let later = play-Tracks bid es db b found in
    (later.row, later.found, Reach-final final later.reached)
