-- ===== src/Notifications.antt =====
-- The worker's reminders (worker/app/tasks/notify_expiring.py, notify_expired.py and
-- notify_trial_expiring.py): a message about a subscription, one of each kind. The text is found in a
-- table that is not modelled, so that what `_resolve_template` returns is an argument.
pub mod Once
pub mod Reminders
pub mod Books
use pix_vpn_service.Prelude.{
  ℕ, ◌+◌, Bool, true, false, not, ◌&&◌, String, Option, none, some, List, [], ◌∷◌, find, is_some,
  length, select_where, sort_by, first_of, leb, ltb, ◌==◌, with_number, if◌then◌else◌,
}
use pix_vpn_service.Prelude.Int.{pos, ltb_ℤ}
use pix_vpn_service.Db.{
  Db, User, SubStatus, Subscription, Payment, PaymentStatus, Referral, PromoCode, Payload,
}
use pix_vpn_service.Db.Contact.{
  NotificationKind, expiry_3d, expiry_1d, expired, trial_expiring_24h, NotificationSent,
}
use pix_vpn_service.Session.{ok, Action, return, query, commit, ◌>>=◌, ◌>>◌}
use pix_vpn_service.Env.{Env}
use pix_vpn_service.Outbox.{enqueue_message}
use pix_vpn_service.Promo.Personal.{personal_code, issue_if_new}

abbrev pub same_kind : NotificationKind → NotificationKind → Bool
same_kind expiry_3d expiry_3d = true
same_kind expiry_1d expiry_1d = true
same_kind expired expired = true
same_kind trial_expiring_24h trial_expiring_24h = true
same_kind _ _ = false

abbrev pub is_notice : NotificationKind → ℕ → NotificationSent → Bool
is_notice kind sid n = (n.subscription_id == sid) && same_kind n.kind kind

-- EXISTS in `notifications_sent`.
abbrev pub is_reminded : NotificationKind → ℕ → Db → Bool
is_reminded kind sid db = is_some (find (is_notice kind sid) db.notifications_sent)

abbrev is_active : SubStatus → Bool
is_active SubStatus.active = true
is_active _ = false

abbrev has_expired : SubStatus → Bool
has_expired SubStatus.expired = true
has_expired _ = false

abbrev pub is_within : ℕ → ℕ → Option ℕ → Bool
is_within from to none = false
is_within from to (some t) = leb from t && leb t to

-- The WHERE of the three queries.
abbrev pub expires_soon : ℕ → Db → Subscription → Bool
expires_soon now db s =
    is_active s.status
    && is_within (now + 255600) (now + 262800) s.expires_at
    && not (is_reminded expiry_3d s.id db)

abbrev pub ended_lately : ℕ → Option ℕ → Bool
ended_lately now none = false
ended_lately now (some t) = leb now (t + 7200)

abbrev pub expired_lately : ℕ → Db → Subscription → Bool
expired_lately now db s =
    has_expired s.status && ended_lately now s.expires_at && not (is_reminded expired s.id db)

abbrev pub trial_expires_soon : ℕ → Db → Subscription → Bool
trial_expires_soon now db s =
    s.is_free_trial
    && is_active s.status
    && is_within (now + 82800) (now + 90000) s.expires_at
    && not (is_reminded trial_expiring_24h s.id db)

-- A row of a query: the subscription and its user's chat.
pub record Candidate : Type 0 where
  pub sub : Subscription
  pub tg_id : ℕ

abbrev pub with_user : Subscription → Option User → List Candidate → List Candidate
with_user s none rest = rest
with_user s (some u) rest = record { sub = s; tg_id = u.tg_id } ∷ rest

-- JOIN users
unfoldable pub join_users : List User → List Subscription → List Candidate
join_users us [] = []
join_users us (s ∷ ss) = with_user s (find (λ u. u.id == s.user_id) us) (join_users us ss)

abbrev or_zero : Option ℕ → ℕ
or_zero none = 0
or_zero (some t) = t

abbrev pub ends_first : Subscription → Subscription → Bool
ends_first a b = leb (or_zero a.expires_at) (or_zero b.expires_at)

-- ORDER BY expires_at LIMIT 500
abbrev pub candidates : (Db → Subscription → Bool) → Db → List Candidate
candidates fits db =
    first_of 500
      (join_users db.users (sort_by ends_first (select_where (fits db) db.subscriptions)))

abbrev pub insert_notice : NotificationKind → Subscription → Db → Db
insert_notice kind s db = record db {
  notifications_sent =
      record { user_id = s.user_id; subscription_id = s.id; kind = kind } ∷ db.notifications_sent;
}

-- INSERT ... ON CONFLICT DO NOTHING RETURNING id: whether the row was inserted.
unfoldable pub claim_notice : NotificationKind → Subscription → Action Bool
claim_notice kind s session =
    if is_reminded kind s.id session.live
    then (ok false, session)
    else (ok true, record session { live = insert_notice kind s session.live })

pub record Counters : Type 0 where
  pub candidates : ℕ
  pub sent : ℕ
  pub skipped : ℕ

-- What is left of a turn of the loop once the notice is claimed or not.
unfoldable pub after_claim :
    (Candidate → Action (Unit {0})) → Candidate → Counters → Bool → Action Counters
after_claim tell row c false = return (record c { skipped = c.skipped + 1 })
after_claim tell row c true = do tell row; return (record c { sent = c.sent + 1 })

unfoldable pub remind :
    NotificationKind → (Candidate → Action (Unit {0})) → Candidate → Counters → Action Counters
unfolding claim_notice after_claim
remind kind tell row c = do claimed ← claim_notice kind row.sub; after_claim tell row c claimed

unfoldable pub remind_each :
    NotificationKind → (Candidate → Action (Unit {0})) → List Candidate → Counters → Action Counters
unfolding remind
remind_each kind tell [] c = return c
remind_each kind tell (row ∷ rows) c = do c' ← remind kind tell row c; remind_each kind tell rows c'

abbrev pub no_counters : List Candidate → Counters
no_counters rows = record { candidates = length rows; sent = 0; skipped = 0 }

-- The frame that the three tasks share: the transaction commits at its end.
unfoldable pub remind_all :
    (Db → Subscription → Bool)
    → NotificationKind
    → (Candidate → Action (Unit {0}))
    → Action Counters
unfolding remind_each
remind_all fits kind tell = do
  rows ← query (candidates fits)
  c ← remind_each kind tell rows (no_counters rows)
  commit
  return c

unfoldable pub send_payload : ℕ → (ℕ → Payload) → Candidate → Action (Unit {0})
send_payload now payload row = do
  enqueue_message now row.sub.user_id row.tg_id (payload row.sub.id)
  return tt

-- `notify_expiring_subscriptions_task`
unfoldable pub notify_expiring : ℕ → Option String → Action Counters
unfolding remind_all send_payload
notify_expiring now template =
    remind_all (expires_soon now) expiry_3d
      (send_payload now (Payload.subscription_expiring_3d template))

-- `notify_expired_subscriptions_task`
unfoldable pub notify_expired : ℕ → Option String → Action Counters
unfolding remind_all send_payload
notify_expired now template =
    remind_all (expired_lately now) expired
      (send_payload now (Payload.subscription_expired template))

abbrev is_paid : PaymentStatus → Bool
is_paid PaymentStatus.paid = true
is_paid _ = false

-- `_HAS_AUTO_DISCOUNT_SQL`
abbrev pub has_auto_discount : ℕ → Db → Bool
has_auto_discount uid db =
    is_some (find (λ (r : Referral). r.referee_id == uid) db.referrals)
    && not (
        is_some (
          find
            (λ (p : Payment).
              (p.user_id == uid) && is_paid p.status && ltb_ℤ (pos 0) p.amount_kopecks)
            db.payments))

module _ (env : Env) where
  -- The code and the message that shows it, or the message alone.
  unfoldable pub tell_trial_by : Candidate → Bool → Action (Unit {0})
  unfolding issue_if_new
  tell_trial_by row true = do
    enqueue_message env.now row.sub.user_id row.tg_id (Payload.trial_expiring row.sub.id none)
    return tt
  tell_trial_by row false = do
    let code = with_number "TRIAL15_" row.sub.id
    existing ← query (λ db. find (λ (p : PromoCode). env.same_code p.code code) db.promo_codes)
    issue_if_new existing (personal_code env.now row.sub.user_id code 15 259200)
    enqueue_message env.now row.sub.user_id row.tg_id
        (Payload.trial_expiring row.sub.id (some code))
    return tt

  unfoldable pub tell_trial : Candidate → Action (Unit {0})
  unfolding tell_trial_by
  tell_trial row = do
    has_auto ← query (has_auto_discount row.sub.user_id)
    tell_trial_by row has_auto

  -- `notify_trial_expiring_subscriptions_task`, with its two counts of messages as one.
  unfoldable pub notify_trial_expiring : Action Counters
  unfolding remind_all tell_trial
  notify_trial_expiring = remind_all (trial_expires_soon env.now) trial_expiring_24h tell_trial

-- A run of one of the tasks.
pub data Task : Type 0 where
  expiring_task expired_task : (template : Option String) → Task
  trial_task : Task

unfoldable pub run_task : Env → Task → Action Counters
run_task env (expiring_task template) = notify_expiring env.now template
run_task env (expired_task template) = notify_expired env.now template
run_task env trial_task = notify_trial_expiring env
