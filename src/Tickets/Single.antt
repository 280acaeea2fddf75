-- ===== src/Tickets/Single.antt =====
-- No user has two open tickets, and no two tickets have one code.
use pix_vpn_service.Prelude.{
  ℕ, zero, suc, ◌+◌, ◌≤◌, ◌≡◌, refl, sym, Bool, true, false, String, Option, none, some, List,
  count-none, count-update_where_le, count_where, str_eq, eq_iff, ◌==◌, Bool-cases, inl, inr,
  if◌then◌else◌, arith,
}
use pix_vpn_service.Db.{Db}
use pix_vpn_service.Db.Contact.{Ticket, TicketMessage}
use pix_vpn_service.Session.{Session, commit, Action, return, ◌>>=◌}
use pix_vpn_service.Session.Preserves.{Preserves, then_preserves, preserves_rules}
use pix_vpn_service.Session.Steps.{Ends, query_then}
use pix_vpn_service.Tickets.{
  is_active_of, has_code, violates_unique, new_ticket, insert_ticket, update_ticket, insert_message,
  insert_if_unique, after_insert, try_codes, open_ticket, closed_row, close_ticket, MessageBody,
  record_message, set_ticket_topic_thread_id, generate_code,
}

-- As the two unique indices of the table say.
pub record IsSingle (db : Db) : Type 0 where
  pub one_open : (uid : ℕ) → count_where (is_active_of uid) db.tickets ≤ 1
  pub one_code : (code : String) → count_where (has_code code) db.tickets ≤ 1

-- For the running request and as last committed.
pub record Singles (s : Session) : Type 0 where
  pub live : IsSingle s.live
  pub saved : IsSingle s.saved

update_ticket-Singles :
    (tid : ℕ) (f : Ticket → Ticket)
    → ((uid : ℕ) (t : Ticket) → is_active_of uid (f t) ≡ true → is_active_of uid t ≡ true)
    → ((t : Ticket) → (f t).code ≡ t.code)
    → Preserves Singles (update_ticket tid f)
unfolding update_ticket
update_ticket-Singles tid f active coded = record {
  from = λ s h. record {
    saved = h.saved;
    live = record {
      one_open = λ uid. omega (
        arith,
        h.live.one_open uid,
        count-update_where_le (is_active_of uid) (λ t. t.id == tid) f s.live.tickets (active uid),
      );
      one_code = λ code. omega (
        arith,
        h.live.one_code code,
        count-update_where_le (has_code code) (λ t. t.id == tid) f s.live.tickets
            (λ t e. rw (coded t) at e),
      );
    };
  };
}

insert_message-Singles : (make : ℕ → TicketMessage) → Preserves Singles (insert_message make)
unfolding insert_message
insert_message-Singles make = record {
  from = λ s h. record {
    live = record { one_open = h.live.one_open; one_code = h.live.one_code };
    saved = h.saved;
  };
}

pub commit-Singles : Preserves Singles commit
unfolding commit
commit-Singles = record { from = λ s h. record { live = h.live; saved = h.live } }

one_more_code :
    (code c : String) (ts : List Ticket)
    → code ≡ c
    → count_where (has_code code) ts ≡ 0
    → (if str_eq code c then 1 else 0) + count_where (has_code c) ts ≤ 1
one_more_code code c ts same none_coded =
    let unused : count_where (has_code c) ts ≡ 0 = rw (sym same) none_coded in ground arith

module _ (now uid : ℕ) (kind : String) where
  -- A ticket is inserted where the user has no open one and no ticket has the code.
  insert_if_unique-Singles :
      (code : String) (violated : Bool) (s : Session)
      → violates_unique code uid s.live ≡ violated
      → Singles s
      → Singles (insert_if_unique violated (new_ticket now uid kind code) s).1
  unfolding insert_if_unique insert_ticket return ◌>>=◌
  insert_if_unique-Singles code true s e h = h
  insert_if_unique-Singles code false s e h = record {
    saved = h.saved;
    live = record {
      one_open =
          λ x. ground (arith, h.live.one_open x, count-none (is_active_of uid) s.live.tickets);
      one_code = λ c. elim (Bool-cases (str_eq code c)) [
        | inr other ↦ ground (arith, h.live.one_code c)
        | inl same ↦
            one_more_code code c s.live.tickets ((eq_iff code c).0 same)
              (count-none (has_code code) s.live.tickets (ground arith))
      ];
    };
  }

  after_insert-Singles :
      (again : Action Ticket) (inserted : Option Ticket)
      → Preserves Singles again
      → Preserves Singles (after_insert uid again inserted)
  unfolding after_insert
  after_insert-Singles again (some t) h = search preserves_rules
  after_insert-Singles again none h = search preserves_rules

  try_codes-Singles :
      (token_bytes : ℕ → List ℕ) (attempts : ℕ)
      → Preserves Singles (try_codes now uid kind token_bytes attempts)
  unfolding try_codes
  try_codes-Singles token_bytes zero = search preserves_rules
  try_codes-Singles token_bytes (suc attempts) = record {
    from = λ s h.
        let code = generate_code (token_bytes attempts) in
        query_then (Ends Singles) _ _ s (
          then_preserves Singles _ _ s (insert_if_unique-Singles code _ s refl h)
            (λ inserted. after_insert-Singles _ inserted (try_codes-Singles token_bytes attempts)));
  }

  pub open_ticket-Singles :
      (token_bytes : ℕ → List ℕ) → Preserves Singles (open_ticket now uid kind token_bytes)
  unfolding open_ticket
  open_ticket-Singles token_bytes = search (preserves_rules, try_codes-Singles)

closes-Singles :
    (now tid : ℕ) (by_whom : String)
    → Preserves Singles (update_ticket tid (closed_row now by_whom))
closes-Singles now tid by_whom = update_ticket-Singles tid _ (λ uid t e. ground arith) (λ t. refl)

pub close_ticket-Singles :
    (now tid : ℕ) (by_whom : String) (tg : Option ℕ)
    → Preserves Singles (close_ticket now tid by_whom tg)
unfolding close_ticket
close_ticket-Singles now tid by_whom tg = search (preserves_rules, closes-Singles) depth 12

touches-Singles :
    (now tid : ℕ) → Preserves Singles (update_ticket tid (λ t. record t { updated_at = now }))
touches-Singles now tid = update_ticket-Singles tid _ (λ uid t e. e) (λ t. refl)

pub record_message-Singles :
    (now tid : ℕ) (body : MessageBody) → Preserves Singles (record_message now tid body)
unfolding record_message
record_message-Singles now tid body =
    search (preserves_rules, touches-Singles, insert_message-Singles) depth 10

attaches-Singles :
    (tid thread_id : ℕ)
    → Preserves Singles (update_ticket tid (λ t. record t { topic_thread_id = some thread_id }))
attaches-Singles tid thread_id = update_ticket-Singles tid _ (λ uid t e. e) (λ t. refl)

pub set_topic-Singles :
    (tid thread_id : ℕ) → Preserves Singles (set_ticket_topic_thread_id tid thread_id)
unfolding set_ticket_topic_thread_id
set_topic-Singles tid thread_id = search (preserves_rules, attaches-Singles) depth 10
