-- ===== src/Users.antt =====
-- The administrator's requests about users (backend/app/api/admin/users.py): ban and unban, a balance
-- that is set to a value, and the requests about many users at once. Those of the bot about one user
-- (backend/app/api/bot/users.py) are here too. The rows of the logs are left out.
pub mod Messages
pub mod Exact
pub mod Requests
use pix_vpn_service.Prelude.{
  ℕ, ◌+◌, Bool, true, false, not, ◌||◌, String, Option, none, some, List, [], ◌∷◌, find, is_some,
  length, select_where, update_where, ◌==◌, if◌then◌else◌,
}
use pix_vpn_service.Prelude.Int.{ℤ, pos, ◌-ℤ◌, ltb_ℤ, is_zero}
use pix_vpn_service.Db.{Db, User, Payload}
use pix_vpn_service.Session.{
  Action, return, raise, query, or_raise, raise_if, modify, commit, ◌>>=◌, ◌>>◌, user_not_found,
  balance_target_too_high,
}
use pix_vpn_service.Tables.{find_user}
use pix_vpn_service.Balance.{add_admin_adjust}
use pix_vpn_service.Outbox.{enqueue_message}

-- `_get_user_or_404`
unfoldable pub get_user_or_404 : ℕ → Action User
unfolding query or_raise ◌>>=◌
get_user_or_404 user_id = do found ← query (find_user user_id); or_raise found user_not_found

-- `_load_user_for_update`
pub load_user : ℕ → Action User
load_user tg_id = do
  found ← query (λ db. find (λ (u : User). u.tg_id == tg_id) db.users)
  or_raise found user_not_found

abbrev pub banned_row : String → User → User
banned_row reason u = record u { is_banned = true; banned_reason = some reason }

abbrev pub unbanned_row : User → User
unbanned_row u = record u { is_banned = false; banned_reason = none }

unfoldable pub update_user : ℕ → (User → User) → Action (Unit {0})
unfolding modify
update_user uid f = modify λ db. record db { users = update_where (λ u. u.id == uid) f db.users }

-- POST /users/{tg_id}/ban and /unban of the bot: no message.
pub bot_ban : ℕ → String → Action (Unit {0})
bot_ban tg_id reason = do user ← load_user tg_id; update_user user.id (banned_row reason); commit

pub bot_unban : ℕ → Action (Unit {0})
bot_unban tg_id = do user ← load_user tg_id; update_user user.id unbanned_row; commit

-- `list(dict.fromkeys(ids))`: the first of each.
unfoldable pub distinct_from : List ℕ → List ℕ → List ℕ
distinct_from seen [] = []
distinct_from seen (i ∷ is) =
    let rest = distinct_from (i ∷ seen) is in
    let fewer = distinct_from seen is in
    if is_some (find (λ j. j == i) seen) then fewer else i ∷ rest

abbrev pub distinct : List ℕ → List ℕ
distinct ids = distinct_from [] ids

abbrev pub is_listed : List ℕ → ℕ → Bool
is_listed ids i = is_some (find (λ j. j == i) ids)

-- SELECT ... WHERE id IN (ids)
abbrev pub listed_users : List ℕ → Db → List User
listed_users ids db = select_where (λ u. is_listed ids u.id) db.users

-- `found.get(uid)`
abbrev pub row_of : List User → ℕ → Option User
row_of rows uid = find (λ u. u.id == uid) rows

abbrev pub not_found : List User → List ℕ → List ℕ
not_found rows ids = select_where (λ uid. not (is_some (row_of rows uid))) ids

pub record BulkMessage : Type 0 where
  pub enqueued : ℕ
  pub skipped_banned : ℕ

abbrev pub hard_cap : ℤ
hard_cap = pos 100000000

module _ (now : ℕ) where
  -- `ban_user`
  pub ban_user : ℕ → String → Action (Unit {0})
  ban_user user_id reason = do
    user ← get_user_or_404 user_id
    update_user user_id (banned_row reason)
    enqueue_message now user.id user.tg_id (Payload.user_banned_notice reason)
    commit

  -- `unban_user`
  pub unban_user : ℕ → Action (Unit {0})
  unban_user user_id = do
    user ← get_user_or_404 user_id
    update_user user_id unbanned_row
    enqueue_message now user.id user.tg_id Payload.user_unbanned_notice
    commit

  -- `set_balance` for a difference that is not zero.
  unfoldable pub move_balance : User → ℤ → Action ℤ
  move_balance user delta = do
    new_balance ← add_admin_adjust user.id delta
    enqueue_message now user.id user.tg_id (Payload.balance_admin_adjusted delta new_balance)
    commit
    return new_balance

  -- `set_balance`: the balance that it answers.
  unfoldable pub set_user_balance : ℕ → ℤ → Action ℤ
  unfolding move_balance
  set_user_balance user_id target = do
    raise_if (ltb_ℤ hard_cap target) balance_target_too_high
    user ← get_user_or_404 user_id
    let delta = target -ℤ user.balance_kopecks
    if is_zero delta then return user.balance_kopecks else move_balance user delta

  -- One turn of the loop of `bulk_message_users`.
  unfoldable pub message_user :
      String → Option String → Option User → BulkMessage → Action BulkMessage
  message_user text parse_mode none c = return c
  message_user text parse_mode (some u) c =
      if u.is_banned then return (record c { skipped_banned = c.skipped_banned + 1 }) else do
        enqueue_message now u.id u.tg_id (Payload.admin_direct_message text parse_mode)
        return (record c { enqueued = c.enqueued + 1 })

  unfoldable pub message_each :
      String → Option String → List User → List ℕ → BulkMessage → Action BulkMessage
  unfolding message_user
  message_each text parse_mode rows [] c = return c
  message_each text parse_mode rows (uid ∷ uids) c = do
    c' ← message_user text parse_mode (row_of rows uid) c
    message_each text parse_mode rows uids c'

  -- `bulk_message_users`, with the ids that were not found.
  unfoldable pub bulk_message_users :
      List ℕ → String → Option String → Action (BulkMessage × List ℕ)
  unfolding message_each
  bulk_message_users asked text parse_mode = do
    let user_ids = distinct asked
    rows ← query (listed_users user_ids)
    c ← message_each text parse_mode rows user_ids (record { enqueued = 0; skipped_banned = 0 })
    commit
    return (c, not_found rows user_ids)

pub record BulkBan : Type 0 where
  pub banned : ℕ
  pub already_banned : ℕ

-- One turn of the loop of `bulk_ban_users`.
pub ban_row : String → User → BulkBan → Action BulkBan
ban_row reason u c =
    if u.is_banned
    then return (record c { already_banned = c.already_banned + 1 })
    else do update_user u.id (banned_row reason); return (record c { banned = c.banned + 1 })

pub ban_each : String → List User → BulkBan → Action BulkBan
ban_each reason [] c = return c
ban_each reason (u ∷ us) c = do c' ← ban_row reason u c; ban_each reason us c'

-- `bulk_ban_users`
pub bulk_ban_users : List ℕ → String → Action (BulkBan × List ℕ)
bulk_ban_users asked reason = do
  let user_ids = distinct asked
  rows ← query (listed_users user_ids)
  c ← ban_each reason rows (record { banned = 0; already_banned = 0 })
  commit
  return (c, not_found rows user_ids)
