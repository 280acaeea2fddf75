-- ===== src/Broadcasts/Worker/Settling.antt =====
-- The recipients of a batch are pending rows, and none of them is pending after it.
use pix_vpn_service.Prelude.{
  ℕ, ◌+◌, ◌≤◌, ◌≡◌, refl, true, false, ◌&&◌, Option, none, some, List, [], ◌∷◌, arith, inl, inr,
  Bool-cases, All, All-map, All-sort_by, All-first_of, update_where, select_where, count_where,
  count-update_where, count-never, ==_iff, ◌==◌,
}
use pix_vpn_service.Db.{Db, User}
use pix_vpn_service.Db.Contact.{Broadcast, BroadcastRecipient}
use pix_vpn_service.Broadcasts.Audience.{
  is_pending_of, join_user, join_users, by_id, pending_joined, next_batch, batch_size,
}
use pix_vpn_service.Broadcasts.Messages.{Envelope, accepted, refused, World, error_text}
use pix_vpn_service.Broadcasts.Worker.{
  Counters, sent_row, failed_row, record_outcome, send_batch, copy_after, counted, message_to,
  is_new_photo,
}

abbrev pub pending_count : ℕ → Db → ℕ
pending_count bid db = count_where (is_pending_of bid) db.broadcast_recipients

-- The recipient is a pending row of the table.
abbrev pub Waits : ℕ → List BroadcastRecipient → BroadcastRecipient → Type 0
Waits bid rows r = 1 ≤ count_where (λ x. (x.id == r.id) && is_pending_of bid x) rows

pub All-select-Waits :
    (bid : ℕ) (rows : List BroadcastRecipient)
    → All (Waits bid rows) (select_where (is_pending_of bid) rows)
All-select-Waits bid [] = tt
All-select-Waits bid (r ∷ rs) =
    let own : (r.id == r.id) ≡ true = (==_iff r.id r.id).1 refl in
    let later : All (Waits bid (r ∷ rs)) (select_where (is_pending_of bid) rs) =
      All-map (Waits bid rs) (Waits bid (r ∷ rs)) _ (λ x h. omega arith)
        (All-select-Waits bid rs) in
    elim (Bool-cases (is_pending_of bid r)) [
      | inl t ↦ rw t (ground arith, later)
      | inr f ↦ rw f later
    ]

join_user-All :
    (P : BroadcastRecipient → Type 0) (r : BroadcastRecipient) (o : Option User)
    (rest : List (BroadcastRecipient × ℕ))
    → P r
    → All (λ x. P x.0) rest
    → All (λ x. P x.0) (join_user r o rest)
join_user-All P r none rest h k = k
join_user-All P r (some u) rest h k = (h, k)

join_users-All :
    (P : BroadcastRecipient → Type 0) (us : List User) (rs : List BroadcastRecipient)
    → All P rs
    → All (λ x. P x.0) (join_users us rs)
unfolding join_users
join_users-All P us [] h = tt
join_users-All P us (r ∷ rs) h = join_user-All P r _ _ h.0 (join_users-All P us rs h.1)

-- Every recipient of the next batch is a pending row.
pub next_batch-Waits :
    (bid : ℕ) (db : Db) → All (λ x. Waits bid db.broadcast_recipients x.0) (next_batch bid db)
next_batch-Waits bid db =
    let P = λ (x : BroadcastRecipient × ℕ). Waits bid db.broadcast_recipients x.0 in
    All-first_of P batch_size _ (
      All-sort_by P by_id (pending_joined bid db) (
        join_users-All (Waits bid db.broadcast_recipients) db.users _
          (All-select-Waits bid db.broadcast_recipients)))

-- The row of a recipient after the answer.
abbrev pub settled_row : Envelope → BroadcastRecipient → BroadcastRecipient
settled_row (accepted file_id) = sent_row
settled_row (refused error_code description) = failed_row (error_text error_code description)

pub recipients_after :
    (bid : ℕ) (bc : Broadcast) (rid : ℕ) (e : Envelope) (db : Db)
    → (record_outcome bid bc rid e db).broadcast_recipients
      ≡ update_where (λ r. r.id == rid) (settled_row e) db.broadcast_recipients
unfolding record_outcome
recipients_after bid bc rid (refused c d) db = refl
recipients_after bid bc rid (accepted file_id) db = elim (Bool-cases (is_new_photo file_id bc)) [
  | inl t ↦ rw t refl
  | inr f ↦ rw f refl
]

settled-not_pending :
    (bid : ℕ) (e : Envelope) (r : BroadcastRecipient) → is_pending_of bid (settled_row e r) ≡ false
settled-not_pending bid (accepted file_id) r = ground arith
settled-not_pending bid (refused c d) r = ground arith

pub pending_after :
    (bid : ℕ) (bc : Broadcast) (rid : ℕ) (e : Envelope) (db : Db)
    → pending_count bid (record_outcome bid bc rid e db)
        + count_where (λ x. (x.id == rid) && is_pending_of bid x) db.broadcast_recipients
      ≤ pending_count bid db
pending_after bid bc rid e db =
    let rows = db.broadcast_recipients in
    let balance = count-update_where (is_pending_of bid) (λ r. r.id == rid) (settled_row e) rows in
    let none_left : count_where (λ x. (x.id == rid) && is_pending_of bid (settled_row e x)) rows
        ≡ 0 =
      count-never _ rows (λ x. ground (arith, settled-not_pending bid e x)) in
    rw (recipients_after bid bc rid e db) (omega arith)

pub send_batch-pending :
    (world : World) (bid : ℕ) (bc : Broadcast) (batch : List (BroadcastRecipient × ℕ))
    (c : Counters) (db : Db)
    → pending_count bid (send_batch world bid bc batch c db).1 ≤ pending_count bid db
unfolding send_batch
send_batch-pending world bid bc [] c db = omega arith
send_batch-pending world bid bc ((r, tg) ∷ rest) c db =
    let e = world.send (message_to world bc tg) in
    let later =
      send_batch-pending world bid (copy_after bc e) rest (counted e c)
        (record_outcome bid bc r.id e db) in
    omega (arith, pending_after bid bc r.id e db, later)
