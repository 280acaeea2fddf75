-- ===== src/Broadcasts/Worker/Distinct.antt =====
-- No recipient is twice in a batch.
use pix_vpn_service.Prelude.{
  ℕ, ◌+◌, ◌≤◌, ◌≡◌, refl, Bool, true, false, ◌&&◌, Option, none, some, List, [], ◌∷◌, arith, All,
  find, select_where, count_where, sort_by, count-select_where, count-sort_by, count-first_of,
  All-count_zero, update_where, count-update_where, count-never, ==_iff, ◌==◌, if◌then◌else◌,
}
use pix_vpn_service.Db.{Db, User}
use pix_vpn_service.Db.Contact.{BroadcastRecipient}
use pix_vpn_service.Broadcasts.Audience.{
  is_pending_of, join_user, join_users, by_id, pending_joined, next_batch, batch_size,
}
use pix_vpn_service.Broadcasts.Messages.{Envelope}
use pix_vpn_service.Broadcasts.Worker.Settling.{Waits, settled_row}

abbrev pub has_id : ℕ → BroadcastRecipient → Bool
has_id rid r = r.id == rid

abbrev pub Keyed : List BroadcastRecipient → Type 0
Keyed rows = (rid : ℕ) → count_where (has_id rid) rows ≤ 1

abbrev pub Differs : BroadcastRecipient → BroadcastRecipient × ℕ → Type 0
Differs r x = (x.0.id == r.id) ≡ false

abbrev pub IsDistinct : List (BroadcastRecipient × ℕ) → Type 0
IsDistinct [] = Unit
IsDistinct (x ∷ xs) = All (Differs x.0) xs × IsDistinct xs

count-join_user :
    (q : BroadcastRecipient → Bool) (r : BroadcastRecipient) (o : Option User)
    (rest : List (BroadcastRecipient × ℕ))
    → count_where (λ x. q x.0) (join_user r o rest)
      ≤ (if q r then 1 else 0) + count_where (λ x. q x.0) rest
count-join_user q r none rest = omega arith
count-join_user q r (some u) rest = omega arith

count-join_users :
    (q : BroadcastRecipient → Bool) (us : List User) (rs : List BroadcastRecipient)
    → count_where (λ x. q x.0) (join_users us rs) ≤ count_where q rs
unfolding join_users
count-join_users q us [] = omega arith
count-join_users q us (r ∷ rs) =
    let here = count-join_user q r (find (λ (u : User). u.id == r.user_id) us) (join_users us rs) in
    omega (arith, here, count-join_users q us rs)

count-next_batch :
    (q : BroadcastRecipient → Bool) (bid : ℕ) (db : Db)
    → count_where (λ x. q x.0) (next_batch bid db) ≤ count_where q db.broadcast_recipients
count-next_batch q bid db =
    let test = λ (x : BroadcastRecipient × ℕ). q x.0 in
    let rows = pending_joined bid db in
    let pending = select_where (is_pending_of bid) db.broadcast_recipients in
    omega (
      arith,
      count-first_of test batch_size (sort_by by_id rows),
      count-sort_by test by_id rows,
      count-join_users q db.users pending,
      count-select_where q (is_pending_of bid) db.broadcast_recipients,
    )

once-IsDistinct :
    (xs : List (BroadcastRecipient × ℕ))
    → ((rid : ℕ) → count_where (λ x. has_id rid x.0) xs ≤ 1)
    → IsDistinct xs
once-IsDistinct [] h = tt
once-IsDistinct (x ∷ xs) h =
    let own : (x.0.id == x.0.id) ≡ true = (==_iff x.0.id x.0.id).1 refl in
    let no_other : count_where (λ (y : BroadcastRecipient × ℕ). has_id x.0.id y.0) xs ≡ 0 =
      ground (arith, h x.0.id) in
    (
      All-count_zero (λ y. has_id x.0.id y.0) xs no_other,
      once-IsDistinct xs (λ rid. omega (arith, h rid)),
    )

pub next_batch-IsDistinct :
    (bid : ℕ) (db : Db) → Keyed db.broadcast_recipients → IsDistinct (next_batch bid db)
next_batch-IsDistinct bid db h =
    once-IsDistinct _ (λ rid. omega (arith, h rid, count-next_batch (has_id rid) bid db))

-- What is settled for one recipient leaves the others waiting.
pub others-Waits :
    (bid : ℕ) (e : Envelope) (r x : BroadcastRecipient) (rows : List BroadcastRecipient)
    → (x.id == r.id) ≡ false
    → Waits bid rows x
    → Waits bid (update_where (λ y. y.id == r.id) (settled_row e) rows) x
others-Waits bid e r x rows other h =
    let test = λ (y : BroadcastRecipient). (y.id == x.id) && is_pending_of bid y in
    let hit = λ (y : BroadcastRecipient). y.id == r.id in
    let none_lost : count_where (λ y. hit y && test y) rows ≡ 0 =
      count-never (λ y. hit y && test y) rows (λ y. ground arith) in
    omega (arith, none_lost, count-update_where test hit (settled_row e) rows)
