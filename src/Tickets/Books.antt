-- ===== src/Tickets/Books.antt =====
-- The ticket requests move no money.
use pix_vpn_service.Prelude.{
  ℕ, String, Bool, true, false, Option, none, some, List, zero, suc, arith,
}
use pix_vpn_service.Db.Contact.{Ticket, TicketMessage}
use pix_vpn_service.Session.{Action}
use pix_vpn_service.Session.Preserves.{Preserves, Preserves-bind, Preserves-query}
use pix_vpn_service.Ledger.{Books}
use pix_vpn_service.Ledger.Frame.{books_rules}
use pix_vpn_service.Tickets.{
  insert_ticket, update_ticket, insert_message, insert_if_unique, after_insert, try_codes,
  open_ticket, close_ticket, record_message, set_ticket_topic_thread_id,
}
use pix_vpn_service.Tickets.Requests.{
  TicketRequest, open_request, close_request, message_request, topic_request, handle_ticket,
  post_open, post_close, post_message, post_topic,
}

insert_ticket-Books : (make : ℕ → Ticket) → Preserves Books (insert_ticket make)
unfolding insert_ticket
insert_ticket-Books make = record { from = λ s b. ground arith }

update_ticket-Books : (tid : ℕ) (f : Ticket → Ticket) → Preserves Books (update_ticket tid f)
unfolding update_ticket
update_ticket-Books tid f = record { from = λ s b. ground arith }

insert_message-Books : (make : ℕ → TicketMessage) → Preserves Books (insert_message make)
unfolding insert_message
insert_message-Books make = record { from = λ s b. ground arith }

ruleset ticket_books = (books_rules, insert_ticket-Books, update_ticket-Books, insert_message-Books)

insert_if_unique-Books :
    (violated : Bool) (make : ℕ → Ticket) → Preserves Books (insert_if_unique violated make)
unfolding insert_if_unique
insert_if_unique-Books true make = search ticket_books
insert_if_unique-Books false make = search ticket_books

after_insert-Books :
    (uid : ℕ) (again : Action Ticket) (inserted : Option Ticket)
    → Preserves Books again
    → Preserves Books (after_insert uid again inserted)
unfolding after_insert
after_insert-Books uid again (some t) h = search ticket_books
after_insert-Books uid again none h = search ticket_books

try_codes-Books :
    (now uid : ℕ) (kind : String) (token_bytes : ℕ → List ℕ) (attempts : ℕ)
    → Preserves Books (try_codes now uid kind token_bytes attempts)
unfolding try_codes
try_codes-Books now uid kind token_bytes zero = search ticket_books
try_codes-Books now uid kind token_bytes (suc attempts) =
    Preserves-bind _ _ (Preserves-query _) (λ violated.
      Preserves-bind _ _ (insert_if_unique-Books violated _) (λ inserted.
        after_insert-Books uid _ inserted (try_codes-Books now uid kind token_bytes attempts)))

pub handle_ticket-Books : (now : ℕ) (r : TicketRequest) → Preserves Books (handle_ticket now r)
unfolding handle_ticket post_open post_close post_message post_topic open_ticket close_ticket
    record_message set_ticket_topic_thread_id
handle_ticket-Books now (open_request tg kind token_bytes) =
    search (ticket_books, try_codes-Books) depth 12
handle_ticket-Books now (close_request tid by_whom tg) = search ticket_books depth 12
handle_ticket-Books now (message_request tid body) = search ticket_books depth 12
handle_ticket-Books now (topic_request tid thread_id) = search ticket_books depth 12
