-- ===== src/Users/Requests.antt =====
-- The requests about users as one type, and that they keep the books in order.
use pix_vpn_service.Prelude.{
  ℕ, ◌≡◌, refl, String, Option, none, some, List, [], ◌∷◌, All-update_where,
}
use pix_vpn_service.Prelude.Int.{ℤ, pos, ◌≤ℤ◌}
use pix_vpn_service.Db.{User}
use pix_vpn_service.Session.{Action, return, ◌>>◌, modify}
use pix_vpn_service.Session.Preserves.{Preserves, Preserves-bind}
use pix_vpn_service.Ledger.{Books, ledger_sum}
use pix_vpn_service.Ledger.Frame.{books_rules}
use pix_vpn_service.Balance.Books.{add_admin_adjust-Books}
use pix_vpn_service.Referral.Money.{enqueue_message-Books}
use pix_vpn_service.Users.{
  get_user_or_404, load_user, update_user, banned_row, unbanned_row, bot_ban, bot_unban, ban_user,
  unban_user, move_balance, set_user_balance, message_user, message_each, bulk_message_users,
  BulkMessage, BulkBan, ban_row, ban_each, bulk_ban_users,
}

pub data UserRequest : Type 0 where
  bot_ban_request : (tg_id : ℕ) (reason : String) → UserRequest
  bot_unban_request : (tg_id : ℕ) → UserRequest
  ban_request : (user_id : ℕ) (reason : String) → UserRequest
  unban_request : (user_id : ℕ) → UserRequest
  set_request : (user_id : ℕ) (target : ℤ) → UserRequest
  bulk_message_request :
      (asked : List ℕ) (text : String) → (parse_mode : Option String) → UserRequest
  bulk_ban_request : (asked : List ℕ) (reason : String) → UserRequest

pub handle_user : ℕ → UserRequest → Action (Unit {0})
handle_user now (bot_ban_request tg_id reason) = bot_ban tg_id reason
handle_user now (bot_unban_request tg_id) = bot_unban tg_id
handle_user now (ban_request user_id reason) = ban_user now user_id reason
handle_user now (unban_request user_id) = unban_user now user_id
handle_user now (set_request user_id target) = do set_user_balance now user_id target; return tt
handle_user now (bulk_message_request asked text parse_mode) = do
  bulk_message_users now asked text parse_mode
  return tt
handle_user now (bulk_ban_request asked reason) = do bulk_ban_users asked reason; return tt

-- A change of a user that leaves the id and the balance.
update_user-Books :
    (uid : ℕ) (f : User → User)
    → ((u : User) → (f u).id ≡ u.id)
    → ((u : User) → (f u).balance_kopecks ≡ u.balance_kopecks)
    → Preserves Books (update_user uid f)
unfolding update_user modify
update_user-Books uid f same_id same_balance = record {
  from = λ s b.
      let ts = s.live.balance_transactions in
      record {
        live = record {
          balanced =
              All-update_where (λ u. u.balance_kopecks ≡ ledger_sum u.id ts)
                (λ u. u.balance_kopecks ≡ ledger_sum u.id ts) _ f s.live.users
                (λ u old hit. rw (same_id u, same_balance u) old) (λ u old miss. old)
                b.live.balanced;
          audited = b.live.audited;
          solvent =
              All-update_where (λ u. pos 0 ≤ℤ u.balance_kopecks) (λ u. pos 0 ≤ℤ u.balance_kopecks) _
                f s.live.users (λ u old hit. rw (same_balance u) old) (λ u old miss. old)
                b.live.solvent;
          priced = b.live.priced;
          charged = b.live.charged;
          granted = b.live.granted;
        };
        saved = b.saved;
      };
}

ban-Books : (uid : ℕ) (reason : String) → Preserves Books (update_user uid (banned_row reason))
ban-Books uid reason = update_user-Books uid (banned_row reason) (λ u. refl) (λ u. refl)

unban-Books : (uid : ℕ) → Preserves Books (update_user uid unbanned_row)
unban-Books uid = update_user-Books uid unbanned_row (λ u. refl) (λ u. refl)

get_user-Books : (uid : ℕ) → Preserves Books (get_user_or_404 uid)
unfolding get_user_or_404
get_user-Books uid = search books_rules

load_user-Books : (tg_id : ℕ) → Preserves Books (load_user tg_id)
unfolding load_user
load_user-Books tg_id = search books_rules

ruleset user_books = (
  books_rules, ban-Books, unban-Books, get_user-Books, load_user-Books, enqueue_message-Books,
  add_admin_adjust-Books,
)

message_user-Books :
    (now : ℕ) (text : String) (parse_mode : Option String) (o : Option User) (c : BulkMessage)
    → Preserves Books (message_user now text parse_mode o c)
unfolding message_user
message_user-Books now text parse_mode none c = search books_rules
message_user-Books now text parse_mode (some u) c = search user_books

message_each-Books :
    (now : ℕ) (text : String) (parse_mode : Option String) (rows : List User) (ids : List ℕ)
    (c : BulkMessage)
    → Preserves Books (message_each now text parse_mode rows ids c)
unfolding message_each
message_each-Books now text parse_mode rows [] c = search books_rules
message_each-Books now text parse_mode rows (i ∷ is) c =
    Preserves-bind _ _ (message_user-Books now text parse_mode _ c)
      (λ c'. message_each-Books now text parse_mode rows is c')

ban_row-Books : (reason : String) (u : User) (c : BulkBan) → Preserves Books (ban_row reason u c)
unfolding ban_row
ban_row-Books reason u c = search user_books

ban_each-Books :
    (reason : String) (us : List User) (c : BulkBan) → Preserves Books (ban_each reason us c)
unfolding ban_each
ban_each-Books reason [] c = search books_rules
ban_each-Books reason (u ∷ us) c =
    Preserves-bind _ _ (ban_row-Books reason u c) (λ c'. ban_each-Books reason us c')

pub handle_user-Books : (now : ℕ) (r : UserRequest) → Preserves Books (handle_user now r)
unfolding handle_user bot_ban bot_unban ban_user unban_user set_user_balance move_balance
    bulk_message_users bulk_ban_users
handle_user-Books now (bot_ban_request tg_id reason) = search user_books
handle_user-Books now (bot_unban_request tg_id) = search user_books
handle_user-Books now (ban_request user_id reason) = search user_books depth 10
handle_user-Books now (unban_request user_id) = search user_books depth 10
handle_user-Books now (set_request user_id target) = search user_books depth 12
handle_user-Books now (bulk_message_request asked text parse_mode) =
    search (user_books, message_each-Books) depth 10
handle_user-Books now (bulk_ban_request asked reason) = search (user_books, ban_each-Books) depth 10
