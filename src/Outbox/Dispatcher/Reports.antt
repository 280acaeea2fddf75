-- ===== src/Outbox/Dispatcher/Reports.antt =====
-- What a report to the backend does to the message that it is about.
use pix_vpn_service.Prelude.{
  ℕ, ◌+◌, ◌≤◌, ◌<◌, ◌≡◌, refl, Bool, true, false, ◌&&◌, String, Option, none, some, List, arith,
  inl, inr, Bool-cases, Option-cases, All, All-update_where, find, count_where, count_mono,
  count-never, count-update_where, count-update_where_le, count-update_where_same, update_where,
  ==_iff, ◌==◌, if◌then◌else◌,
}
use pix_vpn_service.Db.{Db, OutboxMessage}
use pix_vpn_service.Session.{
  Session, Result, ok, err, Action, return, raise, query, or_raise, modify, commit, request, ◌>>=◌,
  ◌>>◌, outbox_not_found,
}
use pix_vpn_service.Session.Steps.{then_at, fails_at}
use pix_vpn_service.Outbox.{
  is_pending, sent_row, failed_row, mark_sent, mark_failed, update_message,
}
use pix_vpn_service.Outbox.Dispatcher.{post_sent, post_failed, report}

abbrev pub is_it : ℕ → OutboxMessage → Bool
is_it i m = m.id == i

abbrev pub waits : ℕ → OutboxMessage → Bool
waits i m = (m.id == i) && is_pending m.status

-- How often an id is among those that Telegram took.
abbrev pub taken : ℕ → List ℕ → ℕ
taken i ids = count_where (λ j. j == i) ids

abbrev pub waiting : ℕ → Db → ℕ
waiting i db = count_where (waits i) db.outbox

-- At most one row has this id, and ids are given out in order.
pub record IsKeyed (i : ℕ) (db : Db) : Type 0 where
  pub single : count_where (λ (m : OutboxMessage). m.id == i) db.outbox ≤ 1
  pub fresh : All (λ (m : OutboxMessage). m.id < db.next_id) db.outbox

abbrev pub with_outbox : (List OutboxMessage → List OutboxMessage) → Db → Db
with_outbox f db = record db { outbox = f db.outbox }

-- An update keeps the ids.
pub updated-IsKeyed :
    (i : ℕ) (p : OutboxMessage → Bool) (f : OutboxMessage → OutboxMessage) (db : Db)
    → ((m : OutboxMessage) → (f m).id ≡ m.id)
    → IsKeyed i db
    → IsKeyed i (with_outbox (update_where p f) db)
updated-IsKeyed i p f db same h = record {
  single =
      let k = count-update_where_same (is_it i) p f db.outbox (λ m. rw (same m) refl) in
      omega (arith, h.single, k);
  fresh =
      All-update_where (λ m. m.id < db.next_id) (λ m. m.id < db.next_id) p f db.outbox
        (λ m old hit. rw (same m) old) (λ m old miss. old) h.fresh;
}

-- A change after which so many more of the message may wait.
pub record Moves (i k : ℕ) (db db' : Db) : Type 0 where
  pub keyed : IsKeyed i db'
  pub next : db'.next_id ≡ db.next_id
  pub fewer : waiting i db' ≤ waiting i db + k

pub sent_row-id : (now : ℕ) (tg : Option ℕ) (m : OutboxMessage) → (sent_row now tg m).id ≡ m.id
sent_row-id now none m = refl
sent_row-id now (some t) m = refl

sent_row-not_pending :
    (now : ℕ) (tg : Option ℕ) (m : OutboxMessage) → is_pending (sent_row now tg m).status ≡ false
sent_row-not_pending now none m = refl
sent_row-not_pending now (some t) m = refl

pub failed_row-id :
    (now : ℕ) (error : String) (m : OutboxMessage) → (failed_row now error m).id ≡ m.id
failed_row-id now error m = ground arith

stays : (i k : ℕ) (db : Db) → IsKeyed i db → Moves i k db db
stays i k db h = record { keyed = h; next = refl; fewer = omega arith }

sent-Moves :
    (i now mid : ℕ) (tg : Option ℕ) (db : Db)
    → IsKeyed i db
    → Moves i 0 db (with_outbox (update_where (is_it mid) (sent_row now tg)) db)
sent-Moves i now mid tg db h = record {
  keyed = updated-IsKeyed i (is_it mid) (sent_row now tg) db (sent_row-id now tg) h;
  next = refl;
  fewer =
      let k =
        count-update_where_le (waits i) (is_it mid) (sent_row now tg) db.outbox
          (λ m e. let f = sent_row-not_pending now tg m in absurd (ground arith)) in
      omega (arith, k);
}

failed-Moves :
    (i now mid : ℕ) (error : String) (db : Db)
    → IsKeyed i db
    → Moves i
        (if mid == i then 1 else 0)
        db
        (with_outbox (update_where (is_it mid) (failed_row now error)) db)
failed-Moves i now mid error db h =
    let f = failed_row now error in
    let keyed = updated-IsKeyed i (is_it mid) f db (failed_row-id now error) h in
    elim (Bool-cases (mid == i)) [
      | inl t ↦ record {
        keyed = keyed;
        next = refl;
        fewer =
            let most =
              count_mono (waits i) (is_it i) (update_where (is_it mid) f db.outbox)
                (λ m e. ground arith) in
            rw t (omega (arith, most, keyed.single));
      }
      | inr other ↦ record {
        keyed = keyed;
        next = refl;
        fewer =
            let k = count-update_where (waits i) (is_it mid) f db.outbox in
            let untouched =
              count-never (λ m. is_it mid m && waits i (f m)) db.outbox
                (λ m.
                  let e = failed_row-id now error m in
                  ground (arith, ==_iff m.id mid, ==_iff m.id i)) in
            rw other (omega (arith, k, untouched));
      }
    ]

-- The shape of the two reports.
unfoldable pub marked : ℕ → (OutboxMessage → OutboxMessage) → Action OutboxMessage
marked mid f = do
  found ← query (λ db. find (is_it mid) db.outbox)
  m ← or_raise found outbox_not_found
  modify (with_outbox (update_where (is_it mid) f))
  return (f m)

module _ (mid : ℕ) (f : OutboxMessage → OutboxMessage) (s : Session) where
  marked_missing :
      find (is_it mid) s.live.outbox ≡ none → marked mid f s ≡ (err outbox_not_found, s)
  unfolding marked query or_raise raise ◌>>=◌
  marked_missing e = rw e refl

  marked_found :
      (m : OutboxMessage)
      → find (is_it mid) s.live.outbox ≡ some m
      → marked mid f s
        ≡ (ok (f m), record s { live = with_outbox (update_where (is_it mid) f) s.live })
  unfolding marked query or_raise return modify ◌>>=◌
  marked_found m e = rw e refl

-- A report changes the row of its message, where there is one.
pub marked-request :
    (P : Db → Type 0) (mid : ℕ) (f : OutboxMessage → OutboxMessage) (db : Db)
    → (find (is_it mid) db.outbox ≡ none → P db)
    → P (with_outbox (update_where (is_it mid) f) db)
    → P (request (do marked mid f; commit) db).1
unfolding request commit
marked-request P mid f db missing changed =
    let s : Session = record { live = db; saved = db } in
    let Q = λ (o : Result (Unit {0}) × Session). P o.1.saved in
    elim (Option-cases (find (is_it mid) db.outbox)) [
      | inl e ↦ fails_at Q (marked mid f) _ s _ s (marked_missing mid f s e) (missing e)
      | inr (m, e) ↦ then_at Q (marked mid f) _ s (f m) _ (marked_found mid f s m e) changed
    ]

pub post_sent-Moves :
    (i now mid : ℕ) (tg : Option ℕ) (db : Db)
    → IsKeyed i db
    → Moves i 0 db (request (post_sent now mid tg) db).1
unfolding post_sent mark_sent marked update_message
post_sent-Moves i now mid tg db h =
    marked-request (Moves i 0 db) mid (sent_row now tg) db (λ e. stays i 0 db h)
      (sent-Moves i now mid tg db h)

pub post_failed-Moves :
    (i now mid : ℕ) (error : String) (db : Db)
    → IsKeyed i db
    → Moves i (if mid == i then 1 else 0) db (request (post_failed now mid error) db).1
unfolding post_failed mark_failed marked update_message
post_failed-Moves i now mid error db h =
    marked-request (Moves i (if mid == i then 1 else 0) db) mid (failed_row now error) db
      (λ e. stays i _ db h) (failed-Moves i now mid error db h)

pub report-Moves :
    (i k : ℕ) (reached : Bool) (action : Action (Unit {0})) (db : Db)
    → IsKeyed i db
    → Moves i k db (request action db).1
    → Moves i k db (report reached action db)
unfolding report
report-Moves i k true action db h moved = moved
report-Moves i k false action db h moved = stays i k db h
