-- ===== src/Api/History.antt =====
-- What every history of requests keeps.
use pix_vpn_service.Prelude.{ℕ, ◌≡◌, Option, none, some, List, [], ◌∷◌}
use pix_vpn_service.Prelude.Int.{pos, ◌≤ℤ◌}
use pix_vpn_service.Db.{Db, User}
use pix_vpn_service.Session.{request}
use pix_vpn_service.Session.Preserves.{Preserves}
use pix_vpn_service.Env.{Env}
use pix_vpn_service.Tables.{find_user}
use pix_vpn_service.Ledger.{IsLedger, Books, ledger_sum}
use pix_vpn_service.Ledger.Posting.{locked_balance, locked_solvent}
use pix_vpn_service.Ledger.Frame.{books_rules}
use pix_vpn_service.Promo.Money.{validate_and_apply-Books}
use pix_vpn_service.Balance.Books.{add_admin_adjust-Books, purchase_with_balance-Books}
use pix_vpn_service.Referral.Money.{enqueue_message-Books, register_referral-Books}
use pix_vpn_service.Extension.Request.Money.{create_extension_payment-Books}
use pix_vpn_service.Payments.Create.Money.{
  create_subscription_payment-Books, create_topup_payment-Books,
}
use pix_vpn_service.Payments.Money.{process_webhook_payment-Books}
use pix_vpn_service.Trial.Money.{activate_free_trial-Books}
use pix_vpn_service.Maintenance.{expire_pending_payments-Books, mark_expired-Books}
use pix_vpn_service.Tickets.Books.{handle_ticket-Books}
use pix_vpn_service.Subscriptions.Books.{handle_subscription-Books}
use pix_vpn_service.Users.Requests.{handle_user-Books}
use pix_vpn_service.Outbox.Dispatcher.Requests.{handle_outbox-Books}
use pix_vpn_service.Notifications.Books.{run_task-Books}
use pix_vpn_service.Api.{
  user_by_tg_id, buy, start_purchase, topup_create, extend_subscription, apply_promo, webhook,
  adjust_balance, register_found, register_new, Request, buy_request, start_request, topup_request,
  extend_request, promo_request, webhook_request, adjust_request, referral_request, trial_request,
  ticket_request, subscription_request, user_request, outbox_request, remind_request,
  expire_request, mark_request, free_trial, expire_task, mark_task, handler, serve,
}

user_by_tg_id-Books : (tg_id : ℕ) → Preserves Books (user_by_tg_id tg_id)
unfolding user_by_tg_id
user_by_tg_id-Books tg_id = search books_rules

register_found-Books :
    (row : Option User) (referee : User) → Preserves Books (register_found row referee)
unfolding register_found
register_found-Books none referee = search books_rules
register_found-Books (some u) referee = search (books_rules, register_referral-Books)

ruleset endpoint_rules = (
  books_rules, user_by_tg_id-Books, purchase_with_balance-Books, create_subscription_payment-Books,
  create_topup_payment-Books, create_extension_payment-Books, validate_and_apply-Books,
  process_webhook_payment-Books, add_admin_adjust-Books, enqueue_message-Books,
  register_found-Books, activate_free_trial-Books, expire_pending_payments-Books,
  mark_expired-Books,
)

-- Every endpoint keeps the books in order.
handler-Books : (env : Env) (r : Request) → Preserves Books (handler env r)
unfolding handler buy start_purchase topup_create extend_subscription apply_promo webhook
    adjust_balance register_new free_trial expire_task mark_task
handler-Books env (buy_request tg t d promo) = search endpoint_rules
handler-Books env (start_request tg t d provider promo) = search endpoint_rules
handler-Books env (topup_request tg amount provider) = search endpoint_rules
handler-Books env (extend_request sid tg d provider code) = search endpoint_rules
handler-Books env (promo_request tg code) = search endpoint_rules
handler-Books env (webhook_request ext status raw) = search endpoint_rules
handler-Books env (adjust_request uid delta) = search endpoint_rules depth 8
handler-Books env (referral_request rid tg) = search endpoint_rules depth 8
handler-Books env (trial_request tg) = search endpoint_rules
handler-Books env (ticket_request r) = handle_ticket-Books env.now r
handler-Books env (subscription_request keys lower sid r) =
    handle_subscription-Books env.now keys lower sid r
handler-Books env (user_request r) = handle_user-Books env.now r
handler-Books env (outbox_request r) = handle_outbox-Books env.now r
handler-Books env (remind_request task) = search (books_rules, run_task-Books)
handler-Books env expire_request = search endpoint_rules
handler-Books env mark_request = search endpoint_rules

request-IsLedger :
    (env : Env) (r : Request) (db : Db) → IsLedger db → IsLedger (request (handler env r) db).1
unfolding request
request-IsLedger env r db h = ((handler-Books env r).from _ (record { live = h; saved = h })).saved

-- From a database whose books are in order, any sequence of requests, whatever the providers and
-- NorthLine answer to each, leaves the committed books in order.
pub serve-IsLedger : (rs : List (Env × Request)) (db : Db) → IsLedger db → IsLedger (serve rs db)
unfolding serve
serve-IsLedger [] db h = h
serve-IsLedger ((env, r) ∷ rest) db h = serve-IsLedger rest _ (request-IsLedger env r db h)

-- So after any sequence of requests a user's balance is the sum of the user's transactions, and is
-- not negative.
pub serve_balance :
    (rs : List (Env × Request)) (db : Db) (uid : ℕ) (u : User)
    → IsLedger db
    → find_user uid (serve rs db) ≡ some u
    → (u.balance_kopecks ≡ ledger_sum uid (serve rs db).balance_transactions)
      × (pos 0 ≤ℤ u.balance_kopecks)
serve_balance rs db uid u h found =
    let after : IsLedger (serve rs db) = serve-IsLedger rs db h in
    (locked_balance uid u _ _ found after.balanced, locked_solvent uid u _ found after.solvent)
