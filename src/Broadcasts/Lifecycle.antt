-- ===== src/Broadcasts/Lifecycle.antt =====
-- The states of a broadcast, and that the administrator's requests and the worker's job refine them.
pub mod Requests
pub mod Job
pub mod History
use pix_vpn_service.Prelude.{
  ℕ, ◌≡◌, refl, Bool, true, false, not, ◌&&◌, ◌||◌, Option, none, some, arith, find, find-test,
  find-update_where, ◌==◌, if◌then◌else◌, List,
}
use pix_vpn_service.Db.{Db}
use pix_vpn_service.Db.Contact.{Broadcast, BroadcastStatus}
use pix_vpn_service.Broadcasts.{is_editable, is_sending, find_broadcast, with_broadcast}

-- A draft or scheduled broadcast may be scheduled, sent or cancelled; one that is being sent may be
-- cancelled, and gets done.
pub data Step : BroadcastStatus → BroadcastStatus → Type 0 where
  schedules : (a : BroadcastStatus) → is_editable a ≡ true → Step a BroadcastStatus.scheduled
  sends : (a : BroadcastStatus) → is_editable a ≡ true → Step a BroadcastStatus.sending
  cancels :
      (a : BroadcastStatus)
      → (is_editable a || is_sending a) ≡ true
      → Step a BroadcastStatus.cancelled
  finishes : (a : BroadcastStatus) → is_sending a ≡ true → Step a BroadcastStatus.done

pub data Reach (a : BroadcastStatus) : BroadcastStatus → Type 0 where
  here : Reach a a
  next : {b c : BroadcastStatus} → Reach a b → Step b c → Reach a c

pub Reach-trans : {a b c : BroadcastStatus} → Reach a b → Reach b c → Reach a c
Reach-trans p here = p
Reach-trans p (next q step) = next (Reach-trans p q) step

-- The broadcast is in the table, in a state that can be reached from this one.
pub record Tracks (bid : ℕ) (a : BroadcastStatus) (db : Db) : Type 0 where
  pub row : Broadcast
  pub found : find_broadcast bid db ≡ some row
  pub reached : Reach a row.status

-- An update of the row along the steps.
pub with_broadcast-Tracks :
    (bid : ℕ) (f : Broadcast → Broadcast) (a : BroadcastStatus) (db : Db) (b : Broadcast)
    → ((x : Broadcast) → (f x).id ≡ x.id)
    → find_broadcast bid db ≡ some b
    → Reach a (f b).status
    → Tracks bid a (with_broadcast bid f db)
with_broadcast-Tracks bid f a db b same found reached =
    let is_it = λ (x : Broadcast). x.id == bid in
    let hit : (b.id == bid) ≡ true = find-test is_it db.broadcasts b found in
    record {
      row = f b;
      found =
          let k = find-update_where is_it is_it f db.broadcasts (λ x. rw (same x) refl) b found in
          ground (arith, k);
      reached = reached;
    }

abbrev pub is_final : BroadcastStatus → Bool
is_final BroadcastStatus.done = true
is_final BroadcastStatus.cancelled = true
is_final _ = false

open-not_final : (a : BroadcastStatus) → (is_editable a || is_sending a) ≡ true → is_final a ≡ false
open-not_final a e = ground arith

Step-not_final : {a b : BroadcastStatus} → Step a b → is_final a ≡ false
Step-not_final (schedules a e) = open-not_final a (ground arith)
Step-not_final (sends a e) = open-not_final a (ground arith)
Step-not_final (cancels a e) = open-not_final a e
Step-not_final (finishes a e) = open-not_final a (ground arith)

-- There is no way out of the last two states.
pub Reach-final : {a b : BroadcastStatus} → is_final a ≡ true → Reach a b → b ≡ a
Reach-final final here = refl
Reach-final {a = a} final (next {b = b} p step) =
    let same : b ≡ a = Reach-final final p in
    let still : is_final b ≡ true = rw same final in absurd (not_both b still (Step-not_final step))
  where
    not_both : (b : BroadcastStatus) → is_final b ≡ true → is_final b ≡ false → ⊥
    not_both b t f = cc
