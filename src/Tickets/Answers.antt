-- ===== src/Tickets/Answers.antt =====
-- What opening or closing a ticket twice answers.
use pix_vpn_service.Prelude.{
  ℕ, zero, suc, ◌≡◌, refl, sym, true, false, Bool, String, Option, none, some, List,
  find-update_where, find-test, update_where, ==_iff, ◌==◌, if◌then◌else◌,
}
use pix_vpn_service.Db.{Db, User}
use pix_vpn_service.Db.Contact.{Ticket}
use pix_vpn_service.Session.{
  Session, Result, ok, err, Action, return, raise, query, or_raise, raise_if, ◌>>=◌, modify,
  ticket_already_open, ticket_already_closed,
}
use pix_vpn_service.Session.Steps.{query_then, or_raise_then, raise_if_then, then_at}
use pix_vpn_service.Tickets.{
  find_active, find_ticket, new_ticket, insert_ticket, insert_if_unique, after_insert, try_codes,
  open_ticket, is_not_owner, user_by_tg, is_open, closed_row, update_ticket, close_ticket,
  generate_code,
}

-- A ticket that is returned is the user's open one.
abbrev IsActive : ℕ → Result Ticket × Session → Type 0
IsActive uid (r, s) = (t : Ticket) → r ≡ ok t → find_active uid s.live ≡ some t

not_ok-IsActive : (uid : ℕ) (e : _) (s : Session) → IsActive uid (err e, s)
not_ok-IsActive uid e s t failed = cc

module _ (now uid : ℕ) (kind : String) where
  collided-IsActive :
      (again : Action Ticket) (s : Session)
      → ((s' : Session) → IsActive uid (again s'))
      → IsActive uid (after_insert uid again none s)
  unfolding after_insert
  collided-IsActive again s h =
      let P = IsActive uid in
      query_then P _ _ s (raise_if_then P _ _ _ s (λ e. not_ok-IsActive uid _ s) (λ e. h s))

  unless_inserted-IsActive :
      (code : String) (again : Action Ticket) (violated : Bool) (s : Session)
      → ((s' : Session) → IsActive uid (again s'))
      → IsActive uid
          ((insert_if_unique violated (new_ticket now uid kind code) >>= after_insert uid again) s)
  unfolding insert_if_unique insert_ticket return ◌>>=◌
  unless_inserted-IsActive code again true s h = collided-IsActive again s h
  unless_inserted-IsActive code again false s h =
      unfold after_insert in
      λ t e.
        let same : new_ticket now uid kind code s.live.next_id ≡ t = cc in
        let own : (uid == uid) ≡ true = (==_iff uid uid).1 refl in rw (sym same) (rw own refl)

  try_codes-IsActive :
      (token_bytes : ℕ → List ℕ) (attempts : ℕ) (s : Session)
      → IsActive uid (try_codes now uid kind token_bytes attempts s)
  unfolding try_codes raise
  try_codes-IsActive token_bytes zero s = not_ok-IsActive uid _ s
  try_codes-IsActive token_bytes (suc attempts) s =
      let code = generate_code (token_bytes attempts) in
      query_then (IsActive uid) _ _ s
        (unless_inserted-IsActive code _ _ s (try_codes-IsActive token_bytes attempts))

  open_ticket-IsActive :
      (token_bytes : ℕ → List ℕ) (s : Session)
      → IsActive uid (open_ticket now uid kind token_bytes s)
  unfolding open_ticket
  open_ticket-IsActive token_bytes s =
      let P = IsActive uid in
      query_then P _ _ s (
        raise_if_then P _ _ _ s (λ e. not_ok-IsActive uid _ s)
          (λ e. try_codes-IsActive token_bytes 5 s))

still_open :
    (now uid : ℕ) (kind : String) (token_bytes : ℕ → List ℕ) (s : Session) (t : Ticket)
    → find_active uid s.live ≡ some t
    → open_ticket now uid kind token_bytes s ≡ (err ticket_already_open, s)
unfolding open_ticket query raise_if ◌>>=◌
still_open now uid kind token_bytes s t e = rw e refl

-- Once a user has opened a ticket, opening another is refused and changes nothing, whatever its kind
-- and whatever code it would get.
pub open_ticket_twice :
    (now uid : ℕ) (kind : String) (token_bytes : ℕ → List ℕ) (now' : ℕ) (kind' : String)
    (token_bytes' : ℕ → List ℕ) (s : Session) (t : Ticket)
    → let (r, s') = open_ticket now uid kind token_bytes s in
      r ≡ ok t → open_ticket now' uid kind' token_bytes' s' ≡ (err ticket_already_open, s')
open_ticket_twice now uid kind token_bytes now' kind' token_bytes' s t done =
    still_open now' uid kind' token_bytes' _ t
      (open_ticket-IsActive now uid kind token_bytes s t done)

-- Of a closed ticket, for its owner or for the staff.
record Closed (tid : ℕ) (tg : Option ℕ) (s : Session) : Type 0 where
  row : Ticket
  found : find_ticket tid s.live ≡ some row
  owner : is_not_owner tg (user_by_tg tg s.live) row ≡ false
  closed : is_open row.status ≡ false

refused_again :
    (now tid : ℕ) (by_whom : String) (tg : Option ℕ) (s : Session)
    → Closed tid tg s
    → close_ticket now tid by_whom tg s ≡ (err ticket_already_closed, s)
unfolding close_ticket query raise_if or_raise ◌>>=◌
refused_again now tid by_whom tg s c = rw c.found (rw c.owner (rw c.closed refl))

abbrev IsClosing : ℕ → Option ℕ → Result Ticket × Session → Type 0
IsClosing tid tg (r, s) = (t : Ticket) → r ≡ ok t → Closed tid tg s

is_not_owner-closed :
    (tg : Option ℕ) (user : Option User) (now : ℕ) (by_whom : String) (row : Ticket)
    → is_not_owner tg user (closed_row now by_whom row) ≡ is_not_owner tg user row
is_not_owner-closed none user now by_whom row = refl
is_not_owner-closed (some x) none now by_whom row = refl
is_not_owner-closed (some x) (some u) now by_whom row = refl

user_by_tg-same :
    (tg : Option ℕ) (db db' : Db) → db.users ≡ db'.users → user_by_tg tg db ≡ user_by_tg tg db'
user_by_tg-same none db db' e = refl
user_by_tg-same (some x) db db' e = rw e refl

update_ticket-Closed :
    (now tid : ℕ) (by_whom : String) (tg : Option ℕ) (s : Session) (row : Ticket)
    → find_ticket tid s.live ≡ some row
    → is_not_owner tg (user_by_tg tg s.live) row ≡ false
    → Closed tid tg (update_ticket tid (closed_row now by_whom) s).1
unfolding update_ticket modify
update_ticket-Closed now tid by_whom tg s row found owner =
    let is_it = λ (t : Ticket). t.id == tid in
    let db = record s.live {
      tickets = update_where is_it (closed_row now by_whom) s.live.tickets;
    } in
    let hit : (row.id == tid) ≡ true = find-test is_it s.live.tickets row found in
    record {
      row = if row.id == tid then closed_row now by_whom row else row;
      found = find-update_where is_it is_it _ s.live.tickets (λ t. refl) row found;
      owner = rw hit (
          rw (user_by_tg-same tg db s.live refl)
            (rw (is_not_owner-closed tg (user_by_tg tg s.live) now by_whom row) owner));
      closed = rw hit refl;
    }

close_ticket-IsClosing :
    (now tid : ℕ) (by_whom : String) (tg : Option ℕ) (s : Session)
    → IsClosing tid tg (close_ticket now tid by_whom tg s)
unfolding close_ticket return update_ticket modify
close_ticket-IsClosing now tid by_whom tg s =
    let P = IsClosing tid tg in
    query_then P _ _ s (
      or_raise_then P _ _ _ s (λ t failed. cc)
        (λ row found. query_then P _ _ s (
          raise_if_then P _ _ _ s (λ e t failed. cc)
            (λ owner.
              raise_if_then P _ _ _ s (λ e t failed. cc)
                (λ still_open.
                  then_at P _ _ s tt _ refl
                    (λ t e. update_ticket-Closed now tid by_whom tg s row found owner))))))

-- Once a ticket has been closed, by its owner or by the staff, closing it again for the same one is
-- refused and changes nothing.
pub close_ticket_twice :
    (now tid : ℕ) (by_whom : String) (tg : Option ℕ) (now' : ℕ) (by_whom' : String) (s : Session)
    (t : Ticket)
    → let (r, s') = close_ticket now tid by_whom tg s in
      r ≡ ok t → close_ticket now' tid by_whom' tg s' ≡ (err ticket_already_closed, s')
close_ticket_twice now tid by_whom tg now' by_whom' s t done =
    refused_again now' tid by_whom' tg _ (close_ticket-IsClosing now tid by_whom tg s t done)
