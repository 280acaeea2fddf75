-- ===== src/Outbox/Dispatcher/Requests.antt =====
-- The worker's requests to the backend about the outbox, and that they move no money.
use pix_vpn_service.Prelude.{ℕ, String, Option, List, arith}
use pix_vpn_service.Db.{OutboxMessage}
use pix_vpn_service.Session.{Action, return, modify, ◌>>=◌, ◌>>◌}
use pix_vpn_service.Session.Preserves.{Preserves}
use pix_vpn_service.Ledger.{Books}
use pix_vpn_service.Ledger.Frame.{books_rules}
use pix_vpn_service.Outbox.{fetch_pending, mark_sent, mark_failed, update_message}
use pix_vpn_service.Outbox.Dispatcher.{list_pending, post_sent, post_failed}

pub data OutboxRequest : Type 0 where
  pending_request : (limit : ℕ) → OutboxRequest
  sent_request : (message_id : ℕ) (tg_message_id : Option ℕ) → OutboxRequest
  failed_request : (message_id : ℕ) (error : String) → OutboxRequest

pub handle_outbox : ℕ → OutboxRequest → Action (Unit {0})
handle_outbox now (pending_request limit) = do list_pending now limit; return tt
handle_outbox now (sent_request message_id tg_message_id) = post_sent now message_id tg_message_id
handle_outbox now (failed_request message_id error) = post_failed now message_id error

set_outbox-Books :
    (f : List OutboxMessage → List OutboxMessage)
    → Preserves Books (modify (λ db. record db { outbox = f db.outbox }))
unfolding modify
set_outbox-Books f = record { from = λ s b. ground arith }

update_message-Books :
    (mid : ℕ) (f : OutboxMessage → OutboxMessage) → Preserves Books (update_message mid f)
unfolding update_message modify
update_message-Books mid f = record { from = λ s b. ground arith }

-- The claim writes the rows that it has read.
fetch_pending-Books : (now limit : ℕ) → Preserves Books (fetch_pending now limit)
unfolding fetch_pending modify ◌>>=◌
fetch_pending-Books now limit = record { from = λ s b. ground arith }

pub handle_outbox-Books : (now : ℕ) (r : OutboxRequest) → Preserves Books (handle_outbox now r)
unfolding handle_outbox list_pending post_sent post_failed mark_sent mark_failed
handle_outbox-Books now (pending_request limit) = search (books_rules, fetch_pending-Books)
handle_outbox-Books now (sent_request message_id tg) =
    search (books_rules, update_message-Books) depth 10
handle_outbox-Books now (failed_request message_id error) =
    search (books_rules, update_message-Books) depth 10
