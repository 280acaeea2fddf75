-- ===== src/Lib.antt =====
-- The backend of PIX VPN, a service that sells VPN subscriptions through a Telegram bot, modelled as
-- far as it moves money (users' balances, payments, subscriptions, promo codes, referrals and the
-- outbox of messages), with its support tickets and its broadcasts.
--
-- The parts, and the code that they are about:
--   Db          the tables (backend/app/db/models), one record for each row type; those of tickets,
--               broadcasts and reminders in Db/Contact;
--   Session     a request's view of the database: the live rows and the rows as last committed, and
--               actions that end in a result or an error (backend/app/db/session.py, the exceptions
--               of backend/app/core/exceptions.py). A request that raises loses what it has not
--               committed;
--   Tables      the queries and writes (backend/app/repositories, and the same statements where the
--               services write them out). `SELECT ... FOR UPDATE` is a read of the live row;
--   Env         what stands outside: the clock, the settings, the answers of NorthLine and of the
--               invoice providers, and the comparison of codes that PostgreSQL makes. They are
--               arguments of the model, a new one for each request. What Telegram answers to the
--               worker is given to a run of its jobs likewise;
--   Promo       backend/app/services/promo_service.py;
--   Tariffs     the lookups of backend/app/services/tariff_service.py, and the quote of a price with a
--               code, which balance_service.py and payment_service.py write out alike;
--   Balance     backend/app/services/balance_service.py;
--   Outbox      backend/app/services/outbox_service.py;
--   Referral    backend/app/services/referral_service.py;
--   Invoices, Payments   backend/app/services/payment_service.py; how the webhook reads words and
--               absent values is in Payments/Readings;
--   Extension   backend/app/services/extension_service.py, its request in Extension/Request;
--   Promo/Personal, Trial   backend/app/services/personal_promo_service.py and free_trial_service.py;
--   Tickets     backend/app/services/ticket_service.py, with the endpoints of
--               backend/app/api/bot/tickets.py in Tickets/Requests;
--   Html        backend/app/core/tg_html.py, of which backend/app/services/tg_html.py and
--               worker/app/tg_html.py are copies: Html/Scan and Html/Markup read the text, Html/Convert
--               is the loop with the stack of open tags;
--   Broadcasts  backend/app/api/admin/broadcasts.py; the job of worker/app/tasks/broadcasts.py in
--               Broadcasts/Worker, whom it writes to in Broadcasts/Audience, what it sends in
--               Broadcasts/Messages and Broadcasts/Keyboard;
--   Maintenance worker/app/tasks/expire_payments.py and worker/app/tasks/mark_expired.py;
--   Reconcile   backend/app/services/subscription_reconcile_service.py;
--   Idempotency backend/app/services/idempotency_service.py;
--   Subscriptions   the administrator's requests about one subscription
--               (backend/app/api/admin/subscriptions.py): delete, stop, resume, reconcile;
--   Users       the administrator's requests about users and the bot's bans
--               (backend/app/api/admin/users.py, backend/app/api/bot/users.py);
--   Notifications   worker/app/tasks/notify_expiring.py, notify_expired.py and
--               notify_trial_expiring.py;
--   Outbox/Telegram, Outbox/Dispatcher   worker/app/telegram_client.py and
--               worker/app/tasks/outbox_dispatcher.py, with the endpoints of
--               backend/app/api/bot/outbox.py that the dispatcher calls;
--   Api         the endpoints of backend/app/api and the cron tasks that touch these tables, as one
--               type of requests, and the sequences of them;
--   Ledger      the invariant that the services share: the books of balances and transactions;
--   Prelude     lists, options and integers;
--   Examples    a small database, and the theorems at it.
--
-- The services call each other as the code does: an endpoint calls a service, the webhook calls
-- Extension, Referral and Promo behind a payment, and all enqueue in Outbox. Theorems about an action
-- are put together from those about its parts by the rules of Session/Preserves and Session/Steps.
--
-- Amounts are integers in kopecks, ids and counters are natural numbers, a time is a number of
-- seconds. An operation reads the clock once, where the code may read it twice in a row. New rows take
-- the next free number as their id. The loop of the broadcast job runs on fuel, and ends where the
-- fuel is more than the rows of recipients and users together; a scan of a text runs on fuel for each
-- of its characters; every other loop runs over a list.
--
-- Not modelled: that requests run at the same time (each request here runs from the state that the
-- last one committed; only a cancellation may come between two passes of the broadcast job, and only
-- messages that are enqueued between two ticks of the dispatcher), the log tables, the wording of
-- messages and the rendering of payloads to texts, signatures of webhooks, the fields that no modelled
-- operation reads, photo uploads, and the parts of the repository that do not touch these tables:
-- texts, the administrator's listings, what is only forwarded to NorthLine (devices, branding), the bot
-- and the web pages.
pub mod Prelude
pub mod Db
pub mod Session
pub mod Tables
pub mod Ledger
pub mod Env
pub mod Promo
pub mod Tariffs
pub mod Balance
pub mod Html
pub mod Broadcasts
pub mod Maintenance
pub mod Notifications
pub mod Outbox
pub mod Referral
pub mod Invoices
pub mod Extension
pub mod Payments
pub mod Trial
pub mod Tickets
pub mod Subscriptions
pub mod Users
pub mod Reconcile
pub mod Idempotency
pub mod Api
pub mod Examples
