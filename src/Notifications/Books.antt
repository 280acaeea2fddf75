-- ===== src/Notifications/Books.antt =====
-- The reminders move no money.
use pix_vpn_service.Prelude.{ℕ, Bool, true, false, Option, List, [], ◌∷◌, String, arith}
use pix_vpn_service.Db.{Db, Subscription, Payload, PromoCode}
use pix_vpn_service.Db.Contact.{NotificationKind}
use pix_vpn_service.Session.{Action}
use pix_vpn_service.Session.Preserves.{Preserves, Preserves-bind}
use pix_vpn_service.Ledger.{Books}
use pix_vpn_service.Ledger.Frame.{books_rules}
use pix_vpn_service.Env.{Env}
use pix_vpn_service.Promo.Personal.{personal_code, issue_if_new}
use pix_vpn_service.Trial.Money.{issue_if_new-Books}
use pix_vpn_service.Referral.Money.{enqueue_message-Books}
use pix_vpn_service.Notifications.{
  Candidate, claim_notice, Counters, after_claim, remind, remind_each, remind_all, send_payload,
  notify_expiring, notify_expired, tell_trial_by, tell_trial, notify_trial_expiring, Task,
  expiring_task, expired_task, trial_task, run_task,
}

claim_notice-Books :
    (kind : NotificationKind) (s : Subscription) → Preserves Books (claim_notice kind s)
unfolding claim_notice
claim_notice-Books kind s = record { from = λ session b. ground arith }

issue-Books :
    (existing : Option PromoCode) (now uid : ℕ) (code : String)
    → Preserves Books (issue_if_new existing (personal_code now uid code 15 259200))
issue-Books existing now uid code = issue_if_new-Books existing _ (λ n. omega arith)

module _ (kind : NotificationKind) (tell : Candidate → Action (Unit {0}))
    (told : (row : Candidate) → Preserves Books (tell row)) where
  after_claim-Books :
      (row : Candidate) (c : Counters) (b : Bool) → Preserves Books (after_claim tell row c b)
  unfolding after_claim
  after_claim-Books row c true = search (books_rules, told)
  after_claim-Books row c false = search books_rules

  remind_each-Books :
      (rows : List Candidate) (c : Counters) → Preserves Books (remind_each kind tell rows c)
  unfolding remind_each remind
  remind_each-Books [] c = search books_rules
  remind_each-Books (row ∷ rows) c =
      Preserves-bind _ _ (search (books_rules, claim_notice-Books, after_claim-Books))
        (λ c'. remind_each-Books rows c')

  remind_all-Books : (fits : Db → Subscription → Bool) → Preserves Books (remind_all fits kind tell)
  unfolding remind_all
  remind_all-Books fits = search (books_rules, remind_each-Books)

send_payload-Books :
    (now : ℕ) (payload : ℕ → Payload) (row : Candidate)
    → Preserves Books (send_payload now payload row)
unfolding send_payload
send_payload-Books now payload row = search (books_rules, enqueue_message-Books)

tell_trial_by-Books :
    (env : Env) (row : Candidate) (b : Bool) → Preserves Books (tell_trial_by env row b)
unfolding tell_trial_by
tell_trial_by-Books env row true = search (books_rules, enqueue_message-Books)
tell_trial_by-Books env row false =
    search (books_rules, enqueue_message-Books, issue-Books) depth 10

tell_trial-Books : (env : Env) (row : Candidate) → Preserves Books (tell_trial env row)
unfolding tell_trial
tell_trial-Books env row = search (books_rules, tell_trial_by-Books)

pub run_task-Books : (env : Env) (task : Task) → Preserves Books (run_task env task)
unfolding run_task notify_expiring notify_expired notify_trial_expiring
run_task-Books env (expiring_task template) = remind_all-Books _ _ (send_payload-Books env.now _) _
run_task-Books env (expired_task template) = remind_all-Books _ _ (send_payload-Books env.now _) _
run_task-Books env trial_task = remind_all-Books _ _ (tell_trial-Books env) _
