-- ===== src/Api.antt =====
-- The endpoints (backend/app/api/bot, backend/app/api/webhook, backend/app/api/admin/users.py) and the
-- worker's tasks, each as a request on the committed database, and sequences of such requests.
pub mod History
use pix_vpn_service.Prelude.{
  ℕ, Bool, true, false, not, String, Option, none, some, List, [], ◌∷◌, find, ◌==◌, str_eq,
  if◌then◌else◌,
}
use pix_vpn_service.Prelude.Int.{ℤ}
use pix_vpn_service.Db.{Db, User, Provider, Payload}
use pix_vpn_service.Session.{
  Session, Result, Action, return, query, or_raise, ◌>>=◌, ◌>>◌, commit, best_effort, request,
  user_not_found,
}
use pix_vpn_service.Env.{Env}
use pix_vpn_service.Tables.{find_user}
use pix_vpn_service.Promo.{validate_and_apply}
use pix_vpn_service.Balance.{add_admin_adjust, purchase_with_balance}
use pix_vpn_service.Outbox.{enqueue_message}
use pix_vpn_service.Referral.{register_referral}
use pix_vpn_service.Extension.Request.{create_extension_payment}
use pix_vpn_service.Payments.Create.{create_subscription_payment, create_topup_payment}
use pix_vpn_service.Payments.{process_webhook_payment}
use pix_vpn_service.Trial.{activate_free_trial}
use pix_vpn_service.Maintenance.{expire_pending_payments, mark_expired}
use pix_vpn_service.Tickets.Requests.{TicketRequest, handle_ticket}
use pix_vpn_service.Subscriptions.{Keys, SubscriptionRequest, handle_subscription}
use pix_vpn_service.Users.Requests.{UserRequest, handle_user}
use pix_vpn_service.Outbox.Dispatcher.Requests.{OutboxRequest, handle_outbox}
use pix_vpn_service.Notifications.{Task, run_task}

-- `UserService.get_by_tg_id`, and the 404 of the endpoints.
pub user_by_tg_id : ℕ → Action User
user_by_tg_id tg_id = do
  found ← query (λ db. find (λ (u : User). u.tg_id == tg_id) db.users)
  or_raise found user_not_found

abbrev Done : Type 0
Done = Unit {0}

module _ (env : Env) where
  -- POST /purchase/balance: the service commits by itself.
  pub buy : ℕ → ℕ → ℕ → Option ℕ → Action Done
  buy tg_id tariff_id duration_id promo_id = do
    user ← user_by_tg_id tg_id
    purchase_with_balance env user tariff_id duration_id promo_id
    return tt

  -- POST /purchase/start
  pub start_purchase : ℕ → ℕ → ℕ → Provider → Option ℕ → Action Done
  start_purchase tg_id tariff_id duration_id provider promo_id = do
    user ← user_by_tg_id tg_id
    create_subscription_payment env user.id tariff_id duration_id provider promo_id
    commit

  -- POST /topup/create
  pub topup_create : ℕ → ℤ → Provider → Action Done
  topup_create tg_id amount provider = do
    user ← user_by_tg_id tg_id
    create_topup_payment env user.id amount provider
    commit

  -- POST /subscriptions/{id}/extend
  pub extend_subscription : ℕ → ℕ → ℕ → Provider → Option String → Action Done
  extend_subscription subscription_id tg_id duration_id provider promo_code = do
    user ← user_by_tg_id tg_id
    create_extension_payment env subscription_id duration_id user provider promo_code
    commit

  -- POST /promo/apply
  pub apply_promo : ℕ → String → Action Done
  apply_promo tg_id code = do user ← user_by_tg_id tg_id; validate_and_apply env code user; commit

  -- POST /webhook/platega and /webhook/cryptobot behind the checks of the signature and the body.
  unfoldable pub webhook : String → String → String → Action Done
  webhook external_id status raw = do process_webhook_payment env external_id status raw; commit

  -- POST /free-trial: the service commits by itself.
  pub free_trial : ℕ → Action Done
  free_trial tg_id = do user ← user_by_tg_id tg_id; activate_free_trial env user; return tt

  -- The cron tasks of the worker.
  pub expire_task : Action Done
  expire_task = do expire_pending_payments env.now env.payment_pending_ttl_minutes; return tt

  pub mark_task : Action Done
  mark_task = do mark_expired env.now; return tt

  -- POST /users/{user_id}/balance/adjust of the admin panel
  pub adjust_balance : ℕ → ℤ → Action Done
  adjust_balance user_id delta = do
    found ← query (find_user user_id)
    user ← or_raise found user_not_found
    new_balance ← add_admin_adjust user.id delta
    enqueue_message env.now user.id user.tg_id (Payload.balance_admin_adjusted delta new_balance)
    commit

-- The referral step of POST /users, for the rows of both users.
pub register_found : Option User → User → Action Done
register_found none referee = return tt
register_found (some referrer) referee = best_effort (register_referral referrer referee true)

pub register_new : ℕ → ℕ → Action Done
register_new referrer_id tg_id = do
  referee ← user_by_tg_id tg_id
  referrer ← query (find_user referrer_id)
  if referrer_id == referee.id then return tt else register_found referrer referee
  commit

-- A request that a client, a provider, an admin or the worker's clock makes.
pub data Request : Type 0 where
  buy_request : (tg_id tariff_id duration_id : ℕ) → Option ℕ → Request
  start_request : (tg_id tariff_id duration_id : ℕ) → Provider → Option ℕ → Request
  topup_request : (tg_id : ℕ) → ℤ → Provider → Request
  extend_request : (subscription_id tg_id duration_id : ℕ) → Provider → Option String → Request
  promo_request : (tg_id : ℕ) → String → Request
  webhook_request : (external_id status raw : String) → Request
  adjust_request : (user_id : ℕ) → ℤ → Request
  referral_request : (referrer_id tg_id : ℕ) → Request
  trial_request : (tg_id : ℕ) → Request
  ticket_request : TicketRequest → Request
  subscription_request :
      Keys → (lower : String → String) → (sub_id : ℕ) → SubscriptionRequest → Request
  user_request : UserRequest → Request
  outbox_request : OutboxRequest → Request
  remind_request : Task → Request
  expire_request mark_request : Request

pub handler : Env → Request → Action Done
handler env (buy_request tg t d promo) = buy env tg t d promo
handler env (start_request tg t d provider promo) = start_purchase env tg t d provider promo
handler env (topup_request tg amount provider) = topup_create env tg amount provider
handler env (extend_request sid tg d provider code) = extend_subscription env sid tg d provider code
handler env (promo_request tg code) = apply_promo env tg code
handler env (webhook_request ext status raw) = webhook env ext status raw
handler env (adjust_request uid delta) = adjust_balance env uid delta
handler env (referral_request rid tg) = register_new rid tg
handler env (trial_request tg) = free_trial env tg
handler env (ticket_request r) = handle_ticket env.now r
handler env (subscription_request keys lower sid r) = handle_subscription env.now keys lower sid r
handler env (user_request r) = handle_user env.now r
handler env (outbox_request r) = handle_outbox env.now r
handler env (remind_request task) = do run_task env task; return tt
handler env expire_request = expire_task env
handler env mark_request = mark_task env

-- Requests one after the other, each with the answers that it gets from outside. A request that
-- raises is rolled back to its last commit.
pub serve : List (Env × Request) → Db → Db
serve [] db = db
serve ((env, r) ∷ rest) db = serve rest (request (handler env r) db).1
