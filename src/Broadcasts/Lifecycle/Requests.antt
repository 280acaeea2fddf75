-- ===== src/Broadcasts/Lifecycle/Requests.antt =====
-- The administrator's requests move a broadcast along its states.
use pix_vpn_service.Prelude.{
  ℕ, ◌≡◌, refl, ◌∙◌, Bool, true, not, ◌||◌, Option, none, some, List, arith,
}
use pix_vpn_service.Db.{Db}
use pix_vpn_service.Db.Contact.{Broadcast, BroadcastStatus, Button}
use pix_vpn_service.Session.{
  Session, Error, Result, Action, return, query, or_raise, raise_if, modify, commit, ◌>>=◌, ◌>>◌,
  request, broadcast_not_found, broadcast_not_editable, broadcast_not_sendable,
  broadcast_not_schedulable, broadcast_not_cancellable,
}
use pix_vpn_service.Session.Steps.{query_then, raise_if_then, then_at}
use pix_vpn_service.Broadcasts.{
  BroadcastPatch, is_editable, is_sending, find_broadcast, with_broadcast, patched, rescheduled,
  replaced_buttons, sending_row, scheduled_row, cancelled_row, patch_broadcast, send_broadcast,
  schedule_broadcast, cancel_broadcast,
}
use pix_vpn_service.Broadcasts.Lifecycle.{
  schedules, sends, cancels, Reach, here, next, Tracks, with_broadcast-Tracks,
}

-- As last committed.
abbrev Saved {ℓ} : {A : Type ℓ} → ℕ → BroadcastStatus → A × Session → Type 0
Saved bid a (r, s) = Tracks bid a s.saved

module _ {A : Type 0} (bid : ℕ) (allowed : BroadcastStatus → Bool) (e : Error)
    (f : Broadcast → Broadcast) (tail : Broadcast → Action A) where
  -- The shape that the requests share.
  guarded : Action A
  guarded = do
    found ← query (find_broadcast bid)
    bc ← or_raise found broadcast_not_found
    raise_if (not (allowed bc.status)) e
    modify (with_broadcast bid f)
    tail bc

  guarded-Tracks :
      (db : Db) (b : Broadcast)
      → ((x : Broadcast) → (f x).id ≡ x.id)
      → ((x : Broadcast) → allowed x.status ≡ true → Reach x.status (f x).status)
      → ((x : Broadcast) (s : Session) → (tail x s).1.saved ≡ s.live)
      → find_broadcast bid db ≡ some b
      → Tracks bid b.status (guarded (record { live = db; saved = db })).1.saved
  unfolding guarded modify
  guarded-Tracks db b same moves commits found =
      let P = Saved {A = Result A} bid b.status in
      let s : Session = record { live = db; saved = db } in
      let kept : Tracks bid b.status db = record { row = b; found = found; reached = here } in
      query_then P _ _ s (
        rw found (
          then_at P _ _ s b s (unfold or_raise in unfold return in refl) (
            raise_if_then P _ _ _ s (λ refused. kept)
              (λ passed. then_at P _ _ s tt _ refl (
                rw (commits b (record s { live = with_broadcast bid f db })) (
                  with_broadcast-Tracks bid f b.status db b same found
                    (moves b (ground arith))))))))

-- A request about the broadcast `bid`.
pub data BroadcastRequest : Type 0 where
  patch_request : BroadcastPatch → BroadcastRequest
  send_request : BroadcastRequest
  schedule_request : (at_time : ℕ) → BroadcastRequest
  cancel_request : (now : ℕ) → BroadcastRequest

pub handle_broadcast : ℕ → BroadcastRequest → Db → Db
handle_broadcast bid (patch_request payload) db = (request (patch_broadcast bid payload) db).1
handle_broadcast bid send_request db = (request (send_broadcast bid) db).1
handle_broadcast bid (schedule_request at_time) db = (request (schedule_broadcast bid at_time) db).1
handle_broadcast bid (cancel_request now) db = (request (cancel_broadcast now bid) db).1

rescheduled-id : (o : Option ℕ) (x : Broadcast) → (rescheduled o x).id ≡ x.id
rescheduled-id none x = refl
rescheduled-id (some t) x = refl

replaced_buttons-id : (o : Option (List Button)) (x : Broadcast) → (replaced_buttons o x).id ≡ x.id
replaced_buttons-id none x = refl
replaced_buttons-id (some bs) x = refl

replaced_buttons-status :
    (o : Option (List Button)) (x : Broadcast) → (replaced_buttons o x).status ≡ x.status
replaced_buttons-status none x = refl
replaced_buttons-status (some bs) x = refl

rescheduled-moves :
    (o : Option ℕ) (a : BroadcastStatus) (x : Broadcast)
    → x.status ≡ a
    → is_editable a ≡ true
    → Reach a (rescheduled o x).status
rescheduled-moves none a x same e = rw same here
rescheduled-moves (some t) a x same e = next here (schedules a e)

pub handle_broadcast-Tracks :
    (bid : ℕ) (r : BroadcastRequest) (db : Db) (b : Broadcast)
    → find_broadcast bid db ≡ some b
    → Tracks bid b.status (handle_broadcast bid r db)
unfolding handle_broadcast guarded patch_broadcast send_broadcast schedule_broadcast
    cancel_broadcast commit request return ◌>>=◌
handle_broadcast-Tracks bid (patch_request payload) db b found =
    guarded-Tracks bid is_editable broadcast_not_editable (patched payload) (λ bc. commit) db b
      (λ x. rescheduled-id payload.scheduled_at _ ∙ replaced_buttons-id payload.buttons _)
      (λ x e.
        rescheduled-moves payload.scheduled_at x.status _
          (replaced_buttons-status payload.buttons _) e)
      (λ x s. refl) found
handle_broadcast-Tracks bid send_request db b found =
    guarded-Tracks bid is_editable broadcast_not_sendable sending_row (λ bc. commit) db b
      (λ x. refl) (λ x e. next here (sends x.status e)) (λ x s. refl) found
handle_broadcast-Tracks bid (schedule_request at_time) db b found =
    guarded-Tracks bid is_editable broadcast_not_schedulable (scheduled_row at_time) (λ bc. commit)
      db b (λ x. refl) (λ x e. next here (schedules x.status e)) (λ x s. refl) found
handle_broadcast-Tracks bid (cancel_request now) db b found =
    guarded-Tracks bid (λ a. is_editable a || is_sending a) broadcast_not_cancellable
      (cancelled_row now) (λ bc. commit >>= λ _. return (is_sending bc.status)) db b (λ x. refl)
      (λ x e. next here (cancels x.status e)) (λ x s. refl) found
