-- ===== src/Notifications/Once.antt =====
-- A subscription is reminded at most one time of each kind.
use pix_vpn_service.Prelude.{
  ℕ, ◌≡◌, ap, Bool, true, false, List, [], ◌∷◌, arith, inl, inr, Bool-cases, count_where,
  count-none, ==_iff,
}
use pix_vpn_service.Db.{Db, Subscription}
use pix_vpn_service.Db.Contact.{NotificationKind, NotificationSent}
use pix_vpn_service.Session.{Session, Action, return, commit, request, ◌>>=◌}
use pix_vpn_service.Session.Preserves.{Preserves, Preserves-bind, preserves_rules}
use pix_vpn_service.Session.Steps.{Ends, then_each}
use pix_vpn_service.Env.{Env}
use pix_vpn_service.Notifications.{
  is_notice, is_reminded, Candidate, insert_notice, claim_notice, Counters, after_claim, remind,
  remind_each, remind_all, notify_expiring, notify_expired, notify_trial_expiring, Task,
  expiring_task, expired_task, trial_task, run_task,
}
use pix_vpn_service.Notifications.Reminders.{
  notices, IsOnce, Once, is_about, Tells, same_kind-eq, send_expiring-Tells, send_expired-Tells,
  tell_trial-Tells,
}

commit-Once : {kind : NotificationKind} {sid : ℕ} → Preserves (Once kind sid) commit
unfolding commit
commit-Once = record { from = λ s h. record { live = h.live; saved = h.live } }

-- A turn of the loop.
module _ (kind : NotificationKind) (sid : ℕ) (k : NotificationKind)
    (tell : Candidate → Action (Unit {0})) (tells : Tells k tell) where
  unnoticed :
      (row : Candidate) (s : Session)
      → is_about k kind sid row ≡ true
      → is_reminded k row.sub.id s.live ≡ false
      → notices kind sid s.live ≡ 0
  unnoticed row s t free =
      let alike : k ≡ kind = same_kind-eq k kind (ground arith) in
      let same : row.sub.id ≡ sid = (==_iff row.sub.id sid).0 (ground arith) in
      count-none (is_notice kind sid) s.live.notifications_sent (rw (← alike, ← same) free)

  -- With the notice claimed, and with no message behind it yet.
  told-IsOnce :
      (row : Candidate) (s : Session)
      → is_reminded k row.sub.id s.live ≡ false
      → IsOnce kind sid s.live
      → IsOnce kind sid (tell row (record s { live = insert_notice k row.sub s.live })).1.live
  told-IsOnce row s free h =
      let s' : Session = record s { live = insert_notice k row.sub s.live } in
      let sent = tells.sent row s' kind sid in
      let noticed =
        ap (λ (ns : List NotificationSent). count_where (is_notice kind sid) ns)
          (tells.notified row s') in
      elim (Bool-cases (is_about k kind sid row)) [
        | inl t ↦
            let none_yet : notices kind sid s.live ≡ 0 = unnoticed row s t free in
            record {
              backed = ground (arith, h.backed, sent, noticed, none_yet, t);
              single = ground (arith, noticed, none_yet, t);
            }
        | inr f ↦ record {
          backed = ground (arith, h.backed, sent, noticed, f);
          single = ground (arith, h.single, noticed, f);
        }
      ]

  remind-Once : (row : Candidate) (c : Counters) → Preserves (Once kind sid) (remind k tell row c)
  unfolding remind claim_notice after_claim ◌>>=◌
  remind-Once row c = record {
    from = λ s h. elim (Bool-cases (is_reminded k row.sub.id s.live)) [
      | inl t ↦ rw t (unfold return in h)
      | inr f ↦
          let s' : Session = record s { live = insert_notice k row.sub s.live } in
          let told : Once kind sid (tell row s').1 = record {
            live = told-IsOnce row s f h.live;
            saved = rw (tells.saved row s') h.saved;
          } in
          rw f (
            then_each (Ends (Once kind sid)) (tell row) _ s' (λ e failed. told)
              (λ a done. unfold return in told))
    ];
  }

  remind_each-Once :
      (rows : List Candidate) (c : Counters) → Preserves (Once kind sid) (remind_each k tell rows c)
  unfolding remind_each
  remind_each-Once [] c = search preserves_rules
  remind_each-Once (row ∷ rows) c =
      Preserves-bind _ _ (remind-Once row c) (λ c'. remind_each-Once rows c')

  remind_all-Once :
      (fits : Db → Subscription → Bool) → Preserves (Once kind sid) (remind_all fits k tell)
  unfolding remind_all
  remind_all-Once fits = search (preserves_rules, remind_each-Once, commit-Once)

run_task-Once :
    (kind : NotificationKind) (sid : ℕ) (env : Env) (task : Task)
    → Preserves (Once kind sid) (run_task env task)
unfolding run_task notify_expiring notify_expired notify_trial_expiring
run_task-Once kind sid env (expiring_task template) =
    remind_all-Once kind sid _ _ (send_expiring-Tells env.now template) _
run_task-Once kind sid env (expired_task template) =
    remind_all-Once kind sid _ _ (send_expired-Tells env.now template) _
run_task-Once kind sid env trial_task = remind_all-Once kind sid _ _ (tell_trial-Tells env) _

-- Runs of the tasks one after the other, each on what the last one committed.
unfoldable pub run_tasks : List (Env × Task) → Db → Db
run_tasks [] db = db
run_tasks ((env, task) ∷ rest) db = run_tasks rest (request (run_task env task) db).1

-- Where a subscription has at most one notice of a kind, and at most as many reminders of it in the
-- outbox as notices, so it is after any sequence of runs of the three tasks: no subscription is
-- reminded twice in one way.
pub run_tasks-IsOnce :
    (kind : NotificationKind) (sid : ℕ) (runs : List (Env × Task)) (db : Db)
    → IsOnce kind sid db
    → IsOnce kind sid (run_tasks runs db)
unfolding run_tasks request
run_tasks-IsOnce kind sid [] db h = h
run_tasks-IsOnce kind sid ((env, task) ∷ rest) db h =
    run_tasks-IsOnce kind sid rest _
      ((run_task-Once kind sid env task).from (record { live = db; saved = db })
        (record { live = h; saved = h })).saved
