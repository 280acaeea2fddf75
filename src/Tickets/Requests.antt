-- ===== src/Tickets/Requests.antt =====
-- The requests of backend/app/api/bot/tickets.py that change tickets, and sequences of them.
use pix_vpn_service.Prelude.{ℕ, String, Option, some, List, [], ◌∷◌}
use pix_vpn_service.Db.{Db}
use pix_vpn_service.Session.{Action, query, or_raise, ◌>>=◌, ◌>>◌, commit, request, user_not_found}
use pix_vpn_service.Session.Preserves.{Preserves, preserves_rules}
use pix_vpn_service.Tickets.{
  user_by_tg, MessageBody, open_ticket, close_ticket, record_message, set_ticket_topic_thread_id,
}
use pix_vpn_service.Tickets.Single.{
  IsSingle, Singles, commit-Singles, open_ticket-Singles, close_ticket-Singles,
  record_message-Singles, set_topic-Singles,
}

abbrev Done : Type 0
Done = Unit {0}

-- POST /tickets/open
unfoldable pub post_open : ℕ → ℕ → String → (ℕ → List ℕ) → Action Done
post_open now tg_user_id kind token_bytes = do
  found ← query (user_by_tg (some tg_user_id))
  user ← or_raise found user_not_found
  open_ticket now user.id kind token_bytes
  commit

-- POST /tickets/{ticket_id}/close
unfoldable pub post_close : ℕ → ℕ → String → Option ℕ → Action Done
post_close now ticket_id by_whom user_tg_id = do
  close_ticket now ticket_id by_whom user_tg_id
  commit

-- POST /tickets/{ticket_id}/messages
unfoldable pub post_message : ℕ → ℕ → MessageBody → Action Done
post_message now ticket_id body = do record_message now ticket_id body; commit

-- POST /tickets/{ticket_id}/topic
unfoldable pub post_topic : ℕ → ℕ → Action Done
post_topic ticket_id thread_id = do set_ticket_topic_thread_id ticket_id thread_id; commit

pub data TicketRequest : Type 0 where
  open_request : (tg_user_id : ℕ) → String → (token_bytes : ℕ → List ℕ) → TicketRequest
  close_request : (ticket_id : ℕ) → String → Option ℕ → TicketRequest
  message_request : (ticket_id : ℕ) → MessageBody → TicketRequest
  topic_request : (ticket_id thread_id : ℕ) → TicketRequest

unfoldable pub handle_ticket : ℕ → TicketRequest → Action Done
handle_ticket now (open_request tg kind token_bytes) = post_open now tg kind token_bytes
handle_ticket now (close_request tid by_whom tg) = post_close now tid by_whom tg
handle_ticket now (message_request tid body) = post_message now tid body
handle_ticket now (topic_request tid thread_id) = post_topic tid thread_id

pub serve_tickets : List (ℕ × TicketRequest) → Db → Db
serve_tickets [] db = db
serve_tickets ((now, r) ∷ rest) db = serve_tickets rest (request (handle_ticket now r) db).1

ruleset ticket_rules = (
  preserves_rules, commit-Singles, open_ticket-Singles, close_ticket-Singles,
  record_message-Singles, set_topic-Singles,
)

handle_ticket-Singles : (now : ℕ) (r : TicketRequest) → Preserves Singles (handle_ticket now r)
unfolding handle_ticket post_open post_close post_message post_topic
handle_ticket-Singles now (open_request tg kind token_bytes) = search ticket_rules depth 8
handle_ticket-Singles now (close_request tid by_whom tg) = search ticket_rules
handle_ticket-Singles now (message_request tid body) = search ticket_rules
handle_ticket-Singles now (topic_request tid thread_id) = search ticket_rules

-- From a database in which no user has two open tickets and no two tickets have one code, any
-- sequence of ticket requests leads to such a database, whatever random bytes the codes are drawn from.
pub serve_tickets-IsSingle :
    (rs : List (ℕ × TicketRequest)) (db : Db) → IsSingle db → IsSingle (serve_tickets rs db)
unfolding serve_tickets request
serve_tickets-IsSingle [] db h = h
serve_tickets-IsSingle ((now, r) ∷ rest) db h =
    let after : IsSingle (request (handle_ticket now r) db).1 =
      ((handle_ticket-Singles now r).from _ (record { live = h; saved = h })).saved in
    serve_tickets-IsSingle rest _ after
