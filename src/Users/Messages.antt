-- ===== src/Users/Messages.antt =====
-- Whom a message to many users reaches.
use pix_vpn_service.Prelude.{
  ℕ, ◌+◌, ◌≡◌, refl, ap, ◌∙◌, count-none, Bool, true, false, not, ◌&&◌, String, Option, none, some,
  List, [], ◌∷◌, arith, inl, inr, Bool-cases, find-test, count_where, select_where, ==_iff, ◌==◌,
  if◌then◌else◌,
}
use pix_vpn_service.Db.{Db, User, OutboxMessage}
use pix_vpn_service.Session.{Session, Result, ok, return, query, commit, ◌>>=◌}
use pix_vpn_service.Tables.{find_user, insert_outbox}
use pix_vpn_service.Outbox.{enqueue_message}
use pix_vpn_service.Users.{
  distinct_from, distinct, is_listed, listed_users, row_of, not_found, BulkMessage, message_user,
  message_each, bulk_message_users,
}

-- Each id that is listed and not seen before is kept one time.
count-distinct_from :
    (uid : ℕ) (seen ids : List ℕ)
    → count_where (λ i. i == uid) (distinct_from seen ids)
      ≡ (if is_listed ids uid && not (is_listed seen uid) then 1 else 0)
unfolding distinct_from
count-distinct_from uid seen [] = refl
count-distinct_from uid seen (i ∷ is) =
    ground (arith, count-distinct_from uid (i ∷ seen) is, count-distinct_from uid seen is)

-- Where the user is there and not banned.
abbrev pub is_reachable : Option User → Bool
is_reachable none = false
is_reachable (some u) = not u.is_banned

abbrev pub messages_to : ℕ → Db → ℕ
messages_to uid db = count_where (λ (m : OutboxMessage). m.user_id == uid) db.outbox

count-and :
    (uid : ℕ) (b : ℕ → Bool) (ids : List ℕ)
    → count_where (λ i. (i == uid) && b i) ids
      ≡ (if b uid then count_where (λ i. i == uid) ids else 0)
count-and uid b [] = ground arith
count-and uid b (i ∷ is) = elim (Bool-cases (i == uid)) [
  | inl t ↦ let same : i ≡ uid = (==_iff i uid).0 t in rw same (ground (arith, count-and uid b is))
  | inr f ↦ rw f (ground (arith, count-and uid b is))
]

-- The action succeeds and adds so many messages to the user.
record Sends {A : Type 0} (uid k : ℕ) (s : Session) (o : Result A × Session) : Type 0 where
  result : A
  succeeds : o.0 ≡ ok result
  sent : messages_to uid o.1.live ≡ messages_to uid s.live + k

module _ (now uid : ℕ) (text : String) (parse_mode : Option String) (rows : List User) where
  message_found-Sends :
      (i : ℕ) (o : Option User) (c : BulkMessage) (s : Session)
      → row_of rows i ≡ o
      → Sends uid
          (if (i == uid) && is_reachable o then 1 else 0)
          s
          (message_user now text parse_mode o c s)
  unfolding message_user enqueue_message insert_outbox return ◌>>=◌
  message_found-Sends i none c s e = record { result = c; succeeds = refl; sent = ground arith }
  message_found-Sends i (some u) c s e =
      let hit : (u.id == i) ≡ true = find-test (λ x. x.id == i) rows u e in
      elim (Bool-cases u.is_banned) [
        | inl t ↦ rw t (record { result = _; succeeds = refl; sent = ground arith })
        | inr f ↦ rw f (record { result = _; succeeds = refl; sent = ground arith })
      ]

  message_each-Sends :
      (ids : List ℕ) (c : BulkMessage) (s : Session)
      → Sends uid
          (count_where (λ i. (i == uid) && is_reachable (row_of rows i)) ids)
          s
          (message_each now text parse_mode rows ids c s)
  unfolding message_each
  message_each-Sends [] c s =
      unfold return in record { result = c; succeeds = refl; sent = omega arith }
  message_each-Sends (i ∷ is) c s =
      let one = message_found-Sends i (row_of rows i) c s refl in
      let s' = (message_user now text parse_mode (row_of rows i) c s).1 in
      let later = message_each-Sends is one.result s' in
      let whole : (message_each now text parse_mode rows (i ∷ is) c s)
          ≡ message_each now text parse_mode rows is one.result s' =
        unfold ◌>>=◌ in rw one.succeeds refl in
      record {
        result = later.result;
        succeeds = rw whole later.succeeds;
        sent = rw whole (omega (arith, later.sent, one.sent));
      }

find-listed :
    (uid : ℕ) (ids : List ℕ) (us : List User)
    → is_listed ids uid ≡ true
    → row_of (select_where (λ u. is_listed ids u.id) us) uid ≡ row_of us uid
find-listed uid ids [] h = refl
find-listed uid ids (u ∷ us) h = elim (Bool-cases (u.id == uid)) [
  | inl t ↦
      let same : u.id ≡ uid = (==_iff u.id uid).0 t in
      let kept : is_listed ids u.id ≡ true = rw same h in rw (kept, t) refl
  | inr f ↦ ground (arith, find-listed uid ids us h)
]

listed-distinct :
    (uid : ℕ) (ids : List ℕ) → is_listed ids uid ≡ true → is_listed (distinct ids) uid ≡ true
listed-distinct uid ids h = elim (Bool-cases (is_listed (distinct ids) uid)) [
  | inl t ↦ t
  | inr f ↦
      let one : count_where (λ i. i == uid) (distinct ids) ≡ 1 =
        count-distinct_from uid [] ids ∙ (rw h refl) in
      let nothing = count-none (λ i. i == uid) (distinct ids) f in absurd (omega arith)
]

count-distinct :
    (uid : ℕ) (ids : List ℕ)
    → count_where (λ i. i == uid) (distinct ids) ≡ (if is_listed ids uid then 1 else 0)
count-distinct uid ids =
    count-distinct_from uid [] ids
    ∙ elim (Bool-cases (is_listed ids uid)) [ inl t ↦ rw t refl | inr f ↦ rw f refl ]

reached-count :
    (uid : ℕ) (asked : List ℕ) (us : List User)
    → let D = distinct asked in
      count_where
        (λ i. (i == uid) && is_reachable (row_of (select_where (λ u. is_listed D u.id) us) i))
        D
      ≡ (if is_listed asked uid && is_reachable (row_of us uid) then 1 else 0)
reached-count uid asked us =
    let D = distinct asked in
    let rows = select_where (λ u. is_listed D u.id) us in
    count-and uid (λ i. is_reachable (row_of rows i)) D ∙ elim (Bool-cases (is_listed asked uid)) [
      | inl t ↦
          rw (count-distinct uid asked, t, find-listed uid D us (listed-distinct uid asked t)) refl
      | inr f ↦ rw (count-distinct uid asked, f) (ground arith)
    ]

-- A message to many users succeeds, and as committed one more message stands in the outbox for each
-- user who is listed, has a row and is not banned, however often the user is listed, and none more for
-- any other user.
pub bulk_message_users-Messages :
    (now : ℕ) (asked : List ℕ) (text : String) (parse_mode : Option String) (uid : ℕ) (s : Session)
    → let (r, s') = bulk_message_users now asked text parse_mode s in
      (c : BulkMessage) × (r
        ≡ ok (c, not_found (listed_users (distinct asked) s.live) (distinct asked)))
      × (messages_to uid s'.saved
          ≡ messages_to uid s.live
            + (if is_listed asked uid && is_reachable (find_user uid s.live) then 1 else 0))
unfolding bulk_message_users
bulk_message_users-Messages now asked text parse_mode uid s =
    let rows = listed_users (distinct asked) s.live in
    let start : BulkMessage = record { enqueued = 0; skipped_banned = 0 } in
    let loop = message_each-Sends now uid text parse_mode rows (distinct asked) start s in
    (
      loop.result,
      unfold ◌>>=◌ in unfold commit in unfold return in unfold query in rw loop.succeeds refl,
      unfold ◌>>=◌ in
          unfold commit in
          unfold return in
          unfold query in
          rw loop.succeeds (
            loop.sent
            ∙ ap (λ n. messages_to uid s.live + n) (reached-count uid asked s.live.users)),
    )
