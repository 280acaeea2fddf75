-- ===== src/Examples/Worker.antt =====
-- The theorems about the worker's reminders and its dispatcher at small examples.
use pix_vpn_service.Prelude.{◌≤◌, ◌≡◌, refl, true, false, none, some, List, [], ◌∷◌, arith}
use pix_vpn_service.Db.{Db, Payload}
use pix_vpn_service.Db.Contact.{expiry_3d}
use pix_vpn_service.Outbox.{due_in_order, insert_by_due, first_rows, enqueue_message}
use pix_vpn_service.Outbox.Telegram.{http, object}
use pix_vpn_service.Outbox.Dispatcher.{Tick, arrives, Event, ticked, enqueued, tick, play}
use pix_vpn_service.Outbox.Dispatcher.Reports.{taken}
use pix_vpn_service.Outbox.Dispatcher.Once.{play-taken_once}
use pix_vpn_service.Outbox.Dispatcher.Settled.{held, tick-Settled}
use pix_vpn_service.Session.{request, query, return, commit, ◌>>=◌}
use pix_vpn_service.Tables.{insert_outbox}
use pix_vpn_service.Notifications.{
  Task, expiring_task, run_task, notify_expiring, remind_all, remind_each, remind, claim_notice,
  after_claim, send_payload, join_users,
}
use pix_vpn_service.Notifications.Once.{run_tasks, run_tasks-IsOnce}
use pix_vpn_service.Notifications.Reminders.{IsOnce, reminders}
use pix_vpn_service.Env.{Env}
use pix_vpn_service.Examples.{working, shop, running}

-- Anna's subscription ends in three days.
abbrev ending : Db
ending = record shop { subscriptions = record running { expires_at = some 260000 } ∷ [] }

abbrev two_runs : List (Env × Task)
two_runs = (working, expiring_task none) ∷ (working, expiring_task none) ∷ []

run_tasks-IsOnce_example : IsOnce expiry_3d 40 (run_tasks two_runs ending)
run_tasks-IsOnce_example =
    run_tasks-IsOnce expiry_3d 40 two_runs ending
      (record { backed = omega arith; single = omega arith })

-- The first run sends the reminder, and the second one nothing.
reminded_test : reminders expiry_3d 40 (run_tasks two_runs ending) ≡ 1
unfolding run_tasks run_task notify_expiring remind_all remind_each remind claim_notice after_claim
    send_payload join_users enqueue_message insert_outbox request query return commit ◌>>=◌
reminded_test = refl

-- Telegram takes every message, and no report arrives.
abbrev deaf : Tick
deaf = record {
  now = 5000;
  batch_size = 50;
  fetch = arrives;
  render = λ p. "text";
  telegram = λ m n.
      http 200 (
        object (record { ok = true; message_id = some 77; error_code = none; description = none }));
  report_arrives = λ m. false;
}

abbrev heard : Tick
heard = record deaf { report_arrives = λ m. true }

abbrev two_ticks : List Event
two_ticks =
    ticked deaf ∷ enqueued 5000 1 101 (Payload.payment_failed 31) ∷ ticked heard ∷ ticked heard ∷ []

-- The report of the first tick is lost.
play-taken_once_example : taken 60 (play two_ticks shop).0 ≤ 1
play-taken_once_example =
    play-taken_once 60 two_ticks shop (record { single = omega arith; fresh = (omega arith, tt) })

tick-Settled_example : held 60 (tick heard shop).1 ≡ 0
unfolding first_rows due_in_order insert_by_due
tick-Settled_example = tick-Settled 60 heard shop refl (λ m. refl) (omega arith)
