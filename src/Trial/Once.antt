-- ===== src/Trial/Once.antt =====
-- A user has one free trial.
use pix_vpn_service.Prelude.{
  ℕ, ◌≡◌, refl, ◌==◌, ==_iff, true, false, Option, none, some, [], ◌∷◌, find, find-update_where,
  if◌then◌else◌,
}
use pix_vpn_service.Db.{
  Db, SubStatus, User, Tariff, Subscription, PromoCode, Referral, OutboxMessage,
}
use pix_vpn_service.Session.{
  Session, Result, ok, err, northline_unavailable, northline_client, free_trial_already_used,
  commit, request, return, or_raise, raise_if, query, ◌>>=◌,
}
use pix_vpn_service.Session.Preserves.{Preserves, preserves_rules}
use pix_vpn_service.Session.Steps.{Ends, query_then, then_at}
use pix_vpn_service.Env.{Env, KeyResponse}
use pix_vpn_service.Tables.{
  insert_subscription, update_subscription, update_referral, insert_outbox,
}
use pix_vpn_service.Outbox.{enqueue_message}
use pix_vpn_service.Promo.Personal.{insert_promo, issue_if_new, issue_personal_discount}
use pix_vpn_service.Trial.{
  is_trial_of, has_free_trial, free_tariffs, trial_subscription, trial_activated, tell_referrer,
  issue_bonus, issue_referrer_trial_bonus, fail_trial, deliver_trial, start_trial,
  activate_free_trial,
}

-- The user has a trial among the subscriptions.
record HasTrial (uid : ℕ) (db : Db) : Type 0 where
  row : Subscription
  found : find (is_trial_of uid) db.subscriptions ≡ some row

-- For the running request and as last committed.
record Trialled (uid : ℕ) (s : Session) : Type 0 where
  live : HasTrial uid s.live
  saved : HasTrial uid s.saved

module _ {uid : ℕ} where
  commit-Trialled : Preserves (Trialled uid) commit
  unfolding commit
  commit-Trialled = record { from = λ s h. record { live = h.live; saved = h.live } }

  update_subscription-Trialled :
      (sid : ℕ) (f : Subscription → Subscription)
      → ((r : Subscription) → is_trial_of uid (f r) ≡ is_trial_of uid r)
      → Preserves (Trialled uid) (update_subscription sid f)
  unfolding update_subscription
  update_subscription-Trialled sid f keeps = record {
    from = λ s h. record {
      live = record {
        row = if h.live.row.id == sid then f h.live.row else h.live.row;
        found =
            find-update_where (is_trial_of uid) (λ r. r.id == sid) f s.live.subscriptions keeps
              h.live.row h.live.found;
      };
      saved = h.saved;
    };
  }

  update_referral-Trialled :
      (rid : ℕ) (f : Referral → Referral) → Preserves (Trialled uid) (update_referral rid f)
  unfolding update_referral
  update_referral-Trialled rid f = record {
    from =
        λ s h. record { live = record { row = h.live.row; found = h.live.found }; saved = h.saved };
  }

  insert_promo-Trialled : (make : ℕ → PromoCode) → Preserves (Trialled uid) (insert_promo make)
  unfolding insert_promo
  insert_promo-Trialled make = record {
    from =
        λ s h. record { live = record { row = h.live.row; found = h.live.found }; saved = h.saved };
  }

  insert_outbox-Trialled :
      (make : ℕ → OutboxMessage) → Preserves (Trialled uid) (insert_outbox make)
  unfolding insert_outbox
  insert_outbox-Trialled make = record {
    from =
        λ s h. record { live = record { row = h.live.row; found = h.live.found }; saved = h.saved };
  }

ruleset trial_rules = (
  preserves_rules, commit-Trialled, update_referral-Trialled, insert_promo-Trialled,
  insert_outbox-Trialled,
)

module _ {uid : ℕ} (env : Env) where
  tell_referrer-Trialled :
      (row : Option User) (sid : ℕ) → Preserves (Trialled uid) (tell_referrer env row sid)
  unfolding tell_referrer enqueue_message
  tell_referrer-Trialled none sid = search trial_rules
  tell_referrer-Trialled (some u) sid = search trial_rules depth 8

  issue_if_new-Trialled :
      (row : Option PromoCode) (make : ℕ → PromoCode)
      → Preserves (Trialled uid) (issue_if_new row make)
  unfolding issue_if_new
  issue_if_new-Trialled none make = search trial_rules
  issue_if_new-Trialled (some p) make = search trial_rules

  issue_bonus-Trialled :
      (row : Option Referral) (sid : ℕ) → Preserves (Trialled uid) (issue_bonus env row sid)
  unfolding issue_bonus issue_personal_discount
  issue_bonus-Trialled none sid = search trial_rules
  issue_bonus-Trialled (some r) sid =
      search (trial_rules, issue_if_new-Trialled, tell_referrer-Trialled) depth 12

  issue_referrer_trial_bonus-Trialled :
      (user : User) (sid : ℕ) → Preserves (Trialled uid) (issue_referrer_trial_bonus env user sid)
  unfolding issue_referrer_trial_bonus
  issue_referrer_trial_bonus-Trialled user sid = search (trial_rules, issue_bonus-Trialled)

  failed-Trialled :
      (sid : ℕ)
      → Preserves
          (Trialled uid)
          (update_subscription sid (λ r. record r { status = SubStatus.failed }))
  failed-Trialled sid = update_subscription-Trialled sid _ (λ r. refl)

  activated-Trialled :
      (tariff : Tariff) (key : KeyResponse) (sid : ℕ)
      → Preserves (Trialled uid) (update_subscription sid (trial_activated env key tariff))
  activated-Trialled tariff key sid = update_subscription-Trialled sid _ (λ r. refl)

  fail_trial-Trialled : (sid : ℕ) → Preserves (Trialled uid) (fail_trial env sid)
  unfolding fail_trial
  fail_trial-Trialled sid = search (trial_rules, failed-Trialled)

  deliver_trial-Trialled :
      (user : User) (tariff : Tariff) (sid : ℕ) (r : Result KeyResponse)
      → Preserves (Trialled uid) (deliver_trial env user tariff sid r)
  unfolding deliver_trial
  deliver_trial-Trialled user tariff sid (ok key) =
      search (trial_rules, issue_referrer_trial_bonus-Trialled, activated-Trialled) depth 8
  deliver_trial-Trialled user tariff sid (err northline_unavailable) = fail_trial-Trialled sid
  deliver_trial-Trialled user tariff sid (err northline_client) = fail_trial-Trialled sid
  deliver_trial-Trialled user tariff sid (err e) = search trial_rules

start_trial-Trialled :
    (env : Env) (user : User) (tariff : Tariff) (s : Session)
    → Trialled user.id (start_trial env user tariff s).1
unfolding start_trial commit insert_subscription
start_trial-Trialled env user tariff s =
    let P = Ends (Trialled user.id) in
    let row = trial_subscription user tariff s.live.next_id in
    let own : (user.id == user.id) ≡ true = (==_iff user.id user.id).1 refl in
    then_at P _ _ s _ _ refl (
      then_at P _ _ _ tt _ refl (
        (deliver_trial-Trialled env user tariff _ _).from _ (record {
          live = record { row = row; found = rw own refl };
          saved = record { row = row; found = rw own refl };
        })))

-- A user who has a trial is refused another, and nothing changes.
refused :
    (env : Env) (user : User) (s : Session)
    → HasTrial user.id s.live
    → activate_free_trial env user s ≡ (err free_trial_already_used, s)
unfolding activate_free_trial query raise_if ◌>>=◌
refused env user s h = rw h.found refl

asked :
    (env : Env) (user : User) (t : Tariff) (s : Session)
    → has_free_trial user.id s.live ≡ false
    → free_tariffs s.live ≡ t ∷ []
    → Trialled user.id (activate_free_trial env user s).1
unfolding activate_free_trial return or_raise
asked env user t s fresh on_sale =
    let P = Ends (Trialled user.id) in
    query_then P _ _ s (
      rw fresh (
        then_at P _ _ s tt s (unfold raise_if in refl) (
          query_then P _ _ s (
            rw on_sale (
              then_at P _ _ s (some t) s refl
                (then_at P _ _ s t s refl (start_trial-Trialled env user t s)))))))

-- Once a request of a user without a trial for one has ended, where one free tariff is on sale, a second
-- request of the user is refused and changes nothing. So it is also where the first one failed because
-- NorthLine issued no key.
pub activate_free_trial_once :
    (env env' : Env) (user : User) (t : Tariff) (db : Db)
    → has_free_trial user.id db ≡ false
    → free_tariffs db ≡ t ∷ []
    → let db' = (request (activate_free_trial env user) db).1 in
      request (activate_free_trial env' user) db' ≡ (err free_trial_already_used, db')
unfolding request
activate_free_trial_once env env' user t db fresh on_sale =
    let s : Session = record { live = db; saved = db } in
    let left : Db = (activate_free_trial env user s).1.saved in
    let again : Session = record { live = left; saved = left } in
    rw (refused env' user again (asked env user t s fresh on_sale).saved) refl
