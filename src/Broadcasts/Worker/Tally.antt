-- ===== src/Broadcasts/Worker/Tally.antt =====
-- The counters of a broadcast agree with the rows of its recipients, and settling one row keeps this.
pub mod Batch
pub mod Runs
use pix_vpn_service.Prelude.{
  ℕ, zero, suc, ◌+◌, ◌≤◌, ◌≡◌, refl, sym, Bool, true, false, not, ◌&&◌, Option, none, some, List,
  [], ◌∷◌, arith, inl, inr, Bool-cases, All, All-map, find, find-updated, update_where, count_where,
  count-update_where, count-update_where_same, count_mono, count_split, count-never, ==_iff, ◌==◌,
  if◌then◌else◌, select_where,
}
use pix_vpn_service.Db.{Db, User}
use pix_vpn_service.Db.Contact.{Broadcast, BroadcastStatus, BroadcastRecipient, RecipientStatus}
use pix_vpn_service.Broadcasts.{with_broadcast, is_sending, find_broadcast}
use pix_vpn_service.Broadcasts.Audience.{
  is_of, is_waiting, is_pending_of, next_batch, insert_recipient, insert_recipients, is_target,
  started, first_snapshot, snapshot,
}
use pix_vpn_service.Broadcasts.Messages.{Envelope, accepted, refused, World, error_text}
use pix_vpn_service.Broadcasts.Worker.{
  Counters, update_recipient, sent_row, failed_row, one_sent, one_failed, record_outcome,
  send_batch, Pass, stops, goes_on, after_batch, work_batch, work_if_sending, pass, drain,
  drain_after, run_found, run_broadcast, copy_after, counted, message_to, is_new_photo, keep_photo,
  finalize,
}
use pix_vpn_service.Broadcasts.Worker.Settling.{
  Waits, settled_row, recipients_after, next_batch-Waits,
}
use pix_vpn_service.Broadcasts.Worker.Distinct.{
  has_id, Keyed, Differs, IsDistinct, next_batch-IsDistinct, others-Waits,
}

abbrev pub is_sent : RecipientStatus → Bool
is_sent RecipientStatus.sent = true
is_sent _ = false

abbrev pub is_failed : RecipientStatus → Bool
is_failed RecipientStatus.failed = true
is_failed _ = false

abbrev pub is_sent_of : ℕ → BroadcastRecipient → Bool
is_sent_of bid r = is_of bid r && is_sent r.status

abbrev pub is_failed_of : ℕ → BroadcastRecipient → Bool
is_failed_of bid r = is_of bid r && is_failed r.status

-- The counters of a broadcast are the numbers of its recipients, sent and failed ones among them.
pub record Agrees (bid : ℕ) (rows : List BroadcastRecipient) (bc : Broadcast) : Type 0 where
  pub total : bc.recipients_total ≡ count_where (is_of bid) rows
  pub sent : bc.sent ≡ count_where (is_sent_of bid) rows
  pub failed : bc.failed ≡ count_where (is_failed_of bid) rows

-- The ids of recipients are a primary key, below the next one, and the counters agree.
pub record Tallied (bid : ℕ) (db : Db) : Type 0 where
  pub keyed : Keyed db.broadcast_recipients
  pub fresh : (rid : ℕ) → db.next_id ≤ rid → count_where (has_id rid) db.broadcast_recipients ≡ 0
  pub agrees :
      (bc : Broadcast) → find_broadcast bid db ≡ some bc → Agrees bid db.broadcast_recipients bc

-- A change of the row that keeps its id and its counters.
pub with_broadcast-Tallied :
    (bid : ℕ) (f : Broadcast → Broadcast) (db : Db)
    → ((b : Broadcast) → (f b).id ≡ b.id)
    → ((b : Broadcast)
        → Agrees bid db.broadcast_recipients b
        → Agrees bid db.broadcast_recipients (f b))
    → Tallied bid db
    → Tallied bid (with_broadcast bid f db)
with_broadcast-Tallied bid f db same keeps h = record {
  keyed = h.keyed;
  fresh = h.fresh;
  agrees = λ bc e.
      let old =
        find-updated (λ (b : Broadcast). b.id == bid) f db.broadcasts bc (λ b. rw (same b) refl)
          e in
      rw old.2 (keeps old.0 (h.agrees old.0 old.1));
}

-- Of the rows with the id of a waiting one: one is pending, and there is no other.
record Alone (bid rid : ℕ) (rows : List BroadcastRecipient) : Type 0 where
  pub here : 1 ≤ count_where (λ x. has_id rid x && is_pending_of bid x) rows
  pub no_other : count_where (λ x. has_id rid x && not (is_pending_of bid x)) rows ≡ 0
  pub once : count_where (has_id rid) rows ≤ 1

alone :
    (bid : ℕ) (rows : List BroadcastRecipient) (r : BroadcastRecipient)
    → Keyed rows
    → Waits bid rows r
    → Alone bid r.id rows
alone bid rows r keyed h = record {
  here = h;
  no_other = omega (arith, h, keyed r.id, count_split (has_id r.id) (is_pending_of bid) rows);
  once = keyed r.id;
}

module _ (bid rid : ℕ) (f : BroadcastRecipient → BroadcastRecipient)
    (rows : List BroadcastRecipient) (only : Alone bid rid rows) where
  -- A test that pending rows pass only after the update is passed by one row more.
  count_gain :
      (q : BroadcastRecipient → Bool)
      → ((x : BroadcastRecipient) → q x ≡ true → is_pending_of bid x ≡ false)
      → ((x : BroadcastRecipient) → is_pending_of bid x ≡ true → q (f x) ≡ true)
      → count_where q (update_where (has_id rid) f rows) ≡ count_where q rows + 1
  count_gain q before after =
      let p = has_id rid in
      let was =
        count_mono (λ x. p x && q x) (λ x. p x && not (is_pending_of bid x)) rows
          (λ x. ground (arith, before x)) in
      let now =
        count_mono (λ x. p x && is_pending_of bid x) (λ x. p x && q (f x)) rows
          (λ x. ground (arith, after x)) in
      let most = count_mono (λ x. p x && q (f x)) p rows (λ x. ground arith) in
      omega
        (arith, was, now, most, only.here, only.no_other, only.once, count-update_where q p f rows)

  -- A test that neither pending nor updated rows pass is passed by as many.
  count_keep :
      (q : BroadcastRecipient → Bool)
      → ((x : BroadcastRecipient) → q x ≡ true → is_pending_of bid x ≡ false)
      → ((x : BroadcastRecipient) → q (f x) ≡ false)
      → count_where q (update_where (has_id rid) f rows) ≡ count_where q rows
  count_keep q before after =
      let p = has_id rid in
      let was =
        count_mono (λ x. p x && q x) (λ x. p x && not (is_pending_of bid x)) rows
          (λ x. ground (arith, before x)) in
      let now = count-never (λ x. p x && q (f x)) rows (λ x. ground (arith, after x)) in
      omega (arith, was, now, only.no_other, count-update_where q p f rows)

abbrev counted_row : Envelope → Broadcast → Broadcast
counted_row (accepted file_id) = one_sent
counted_row (refused c d) = one_failed

settled-Agrees :
    (bid rid : ℕ) (e : Envelope) (rows : List BroadcastRecipient) (bc : Broadcast)
    → Alone bid rid rows
    → Agrees bid rows bc
    → Agrees bid (update_where (has_id rid) (settled_row e) rows) (counted_row e bc)
settled-Agrees bid rid (accepted file_id) rows bc only h = record {
  total = rw (count-update_where_same (is_of bid) (has_id rid) sent_row rows (λ x. refl)) h.total;
  sent = omega (
    arith,
    h.sent,
    count_gain bid rid sent_row rows only (is_sent_of bid) (λ x. ground arith) (λ x. ground arith),
  );
  failed = omega (
    arith,
    h.failed,
    count_keep bid rid sent_row rows only (is_failed_of bid) (λ x. ground arith)
        (λ x. ground arith),
  );
}
settled-Agrees bid rid (refused c d) rows bc only h =
    let f = failed_row (error_text c d) in
    record {
      total = rw (count-update_where_same (is_of bid) (has_id rid) f rows (λ x. refl)) h.total;
      sent = omega (
        arith,
        h.sent,
        count_keep bid rid f rows only (is_sent_of bid) (λ x. ground arith) (λ x. ground arith),
      );
      failed = omega (
        arith,
        h.failed,
        count_gain bid rid f rows only (is_failed_of bid) (λ x. ground arith) (λ x. ground arith),
      );
    }

pub settled-Tallied :
    (bid : ℕ) (r : BroadcastRecipient) (e : Envelope) (db : Db)
    → Waits bid db.broadcast_recipients r
    → Tallied bid db
    → Tallied bid (with_broadcast bid (counted_row e) (update_recipient r.id (settled_row e) db))
settled-Tallied bid r e db waits h =
    let rows = db.broadcast_recipients in
    let ids = λ (rid : ℕ).
      count-update_where_same (has_id rid) (has_id r.id) (settled_row e) rows
        (λ x. same_id rid e x) in
    record {
      keyed = λ rid. omega (arith, ids rid, h.keyed rid);
      fresh = λ rid new. omega (arith, ids rid, h.fresh rid new);
      agrees = λ bc found.
          let old =
            find-updated (λ (b : Broadcast). b.id == bid) (counted_row e) db.broadcasts bc
              (λ b. counted_id e b) found in
          rw old.2 (
            settled-Agrees bid r.id e rows old.0 (alone bid rows r h.keyed waits)
              (h.agrees old.0 old.1));
    }
  where
    same_id :
        (rid : ℕ) (e : Envelope) (x : BroadcastRecipient)
        → has_id rid (settled_row e x) ≡ has_id rid x
    same_id rid (accepted file_id) x = refl
    same_id rid (refused c d) x = refl

    counted_id : (e : Envelope) (b : Broadcast) → ((counted_row e b).id == bid) ≡ (b.id == bid)
    counted_id (accepted file_id) b = refl
    counted_id (refused c d) b = refl
