-- ===== src/Tickets.antt =====
-- backend/app/services/ticket_service.py with its repositories: support tickets, at most one of them
-- open for each user, under codes that no two tickets share.
pub mod Single
pub mod Requests
pub mod Answers
pub mod Books
use Prim.Native.String.{◌++◌ as append, char_at}
use pix_vpn_service.Prelude.{
  ℕ, zero, suc, ◌+◌, ◌%◌, Bool, true, false, not, ◌&&◌, ◌||◌, String, Option, none, some, List, [],
  ◌∷◌, find, is_some, update_where, ◌==◌, str_eq, if◌then◌else◌,
}
use pix_vpn_service.Db.{Db, User}
use pix_vpn_service.Db.Contact.{TicketStatus, Ticket, TicketMessage}
use pix_vpn_service.Session.{
  ok, Action, return, raise, query, or_raise, ◌>>=◌, ◌>>◌, raise_if, modify, ticket_already_open,
  ticket_already_closed, ticket_not_found, code_generation_exhausted,
}

abbrev code_alphabet : String
code_alphabet = "0123456789ABCDEFGHIJKLMNOPQRSTUVWXYZ"

code_chars : List ℕ → String
code_chars [] = ""
code_chars (b ∷ bs) = String.◌∷◌ (char_at code_alphabet (b % 36)) (code_chars bs)

-- `_generate_code` from the random bytes that it draws.
unfoldable pub generate_code : List ℕ → String
unfolding code_chars
generate_code rand_bytes = append "TCK-" (code_chars rand_bytes)

abbrev pub is_open : TicketStatus → Bool
is_open TicketStatus.open_ticket = true
is_open TicketStatus.closed_ticket = false

-- The WHERE of `get_active_for_user`, which is also the partial unique index.
abbrev pub is_active_of : ℕ → Ticket → Bool
is_active_of user_id t = (t.user_id == user_id) && is_open t.status

abbrev pub find_active : ℕ → Db → Option Ticket
find_active user_id db = find (is_active_of user_id) db.tickets

abbrev pub find_ticket : ℕ → Db → Option Ticket
find_ticket tid db = find (λ t. t.id == tid) db.tickets

abbrev pub has_code : String → Ticket → Bool
has_code code t = str_eq t.code code

-- What the two unique indices of the table refuse.
abbrev pub violates_unique : String → ℕ → Db → Bool
violates_unique code user_id db =
    is_some (find (has_code code) db.tickets) || is_some (find_active user_id db)

abbrev pub new_ticket : ℕ → ℕ → String → String → ℕ → Ticket
new_ticket now user_id kind code n = record {
  id = n;
  code = code;
  user_id = user_id;
  kind = kind;
  status = TicketStatus.open_ticket;
  closed_by = none;
  closed_at = none;
  topic_thread_id = none;
  updated_at = now;
}

unfoldable pub insert_ticket : (ℕ → Ticket) → Action Ticket
insert_ticket make s =
    let db = s.live in
    let row = make db.next_id in
    (ok row, record s { live = record db { tickets = row ∷ db.tickets; next_id = db.next_id + 1 } })

unfoldable pub update_ticket : ℕ → (Ticket → Ticket) → Action (Unit {0})
unfolding modify
update_ticket tid f =
    modify λ db. record db { tickets = update_where (λ t. t.id == tid) f db.tickets }

-- `TicketMessageRepository.create`
unfoldable pub insert_message : (ℕ → TicketMessage) → Action TicketMessage
insert_message make s =
    let db = s.live in
    let row = make db.next_id in
    (
      ok row,
      record s {
        live = record db { ticket_messages = row ∷ db.ticket_messages; next_id = db.next_id + 1 };
      },
    )

-- An INSERT inside its savepoint: none is an IntegrityError, and leaves nothing behind.
unfoldable pub insert_if_unique : Bool → (ℕ → Ticket) → Action (Option Ticket)
insert_if_unique true make = return none
insert_if_unique false make = do row ← insert_ticket make; return (some row)

-- What follows an attempt: the ticket, or another attempt where the code was the collision.
unfoldable pub after_insert : ℕ → Action Ticket → Option Ticket → Action Ticket
after_insert user_id again (some ticket) = return ticket
after_insert user_id again none = do
  existing ← query (find_active user_id)
  raise_if (is_some existing) ticket_already_open
  again

module _ (now user_id : ℕ) (kind : String) (token_bytes : ℕ → List ℕ) where
  -- The loop over the attempts that are left. Each draws its own bytes.
  unfoldable pub try_codes : ℕ → Action Ticket
  try_codes zero = raise code_generation_exhausted
  try_codes (suc attempts) =
      let code = generate_code (token_bytes attempts) in
      query (violates_unique code user_id) >>= λ violated.
      insert_if_unique violated (new_ticket now user_id kind code)
      >>= after_insert user_id (try_codes attempts)

  -- `open_ticket`
  unfoldable pub open_ticket : Action Ticket
  open_ticket = do
    existing ← query (find_active user_id)
    raise_if (is_some existing) ticket_already_open
    try_codes 5

-- Whether the ticket is the user's, where a user is given.
abbrev pub is_not_owner : Option ℕ → Option User → Ticket → Bool
is_not_owner none user ticket = false
is_not_owner (some tg_id) none ticket = true
is_not_owner (some tg_id) (some user) ticket = not (ticket.user_id == user.id)

-- `UserRepository.get_by_tg_id`, where a Telegram id is given.
abbrev pub user_by_tg : Option ℕ → Db → Option User
user_by_tg none db = none
user_by_tg (some tg_id) db = find (λ (u : User). u.tg_id == tg_id) db.users

abbrev pub closed_row : ℕ → String → Ticket → Ticket
closed_row now by_whom t = record t {
  status = TicketStatus.closed_ticket;
  closed_by = some by_whom;
  closed_at = some now;
  updated_at = now;
}

-- `close_ticket`, with `mark_closed`
unfoldable pub close_ticket : ℕ → ℕ → String → Option ℕ → Action Ticket
close_ticket now ticket_id by_whom user_tg_id = do
  found ← query (find_ticket ticket_id)
  ticket ← or_raise found ticket_not_found
  user ← query (user_by_tg user_tg_id)
  raise_if (is_not_owner user_tg_id user ticket) ticket_not_found
  raise_if (not (is_open ticket.status)) ticket_already_closed
  update_ticket ticket_id (closed_row now by_whom)
  return (closed_row now by_whom ticket)

-- The columns of a message that the caller gives.
pub record MessageBody : Type 0 where
  pub direction : String
  pub message_type : String
  pub text : Option String
  pub photo_file_id : Option String
  pub sticker_file_id : Option String
  pub tg_message_id : Option ℕ

-- `record_message`, with `touch`
pub record_message : ℕ → ℕ → MessageBody → Action TicketMessage
record_message now ticket_id body = do
  found ← query (find_ticket ticket_id)
  ticket ← or_raise found ticket_not_found
  row ← insert_message λ n. record {
    id = n;
    ticket_id = ticket_id;
    direction = body.direction;
    message_type = body.message_type;
    text = body.text;
    photo_file_id = body.photo_file_id;
    sticker_file_id = body.sticker_file_id;
    tg_message_id = body.tg_message_id;
  }
  update_ticket ticket_id (λ t. record t { updated_at = now })
  return row

-- `get_ticket_by_thread`: the newest row of the thread.
pub get_ticket_by_thread : ℕ → Db → Option Ticket
get_ticket_by_thread thread_id db = find in_thread db.tickets
  where
    in_thread : Ticket → Bool
    in_thread t = elim t.topic_thread_id [ some x ↦ x == thread_id | none ↦ false ]

-- `set_ticket_topic_thread_id`
pub set_ticket_topic_thread_id : ℕ → ℕ → Action (Unit {0})
set_ticket_topic_thread_id ticket_id thread_id = do
  found ← query (find_ticket ticket_id)
  ticket ← or_raise found ticket_not_found
  update_ticket ticket_id (λ t. record t { topic_thread_id = some thread_id })
