-- ===== src/Trial.antt =====
-- backend/app/services/free_trial_service.py: one free key for each user, and the code that the
-- user's referrer gets for it.
pub mod Money
pub mod Once
use pix_vpn_service.Prelude.{
  is_some, ℕ, ◌+◌, ◌*◌, Bool, true, false, ◌&&◌, not, Option, none, some, List, [], ◌∷◌,
  select_where, find, ◌==◌, if◌then◌else◌, with_number,
}
use pix_vpn_service.Db.{Db, User, Tariff, SubStatus, Subscription, Referral, Payload}
use pix_vpn_service.Session.{
  Error, Result, ok, err, Action, return, raise, query, or_raise, ◌>>=◌, ◌>>◌, raise_if, commit,
  best_effort, northline_unavailable, northline_client, tariff_not_found, free_trial_already_used,
  multiple_results_found,
}
use pix_vpn_service.Env.{Env, KeyRequest, KeyResponse}
use pix_vpn_service.Tables.{
  find_user, find_referral, insert_subscription, update_subscription, update_referral,
}
use pix_vpn_service.Balance.{day_seconds}
use pix_vpn_service.Outbox.{enqueue_message}
use pix_vpn_service.Extension.{nonzero, or_else}
use pix_vpn_service.Promo.Personal.{issue_personal_discount}

-- The WHERE of `SubscriptionRepository.has_free_trial`.
abbrev pub is_trial_of : ℕ → Subscription → Bool
is_trial_of user_id r = (r.user_id == user_id) && r.is_free_trial

abbrev pub has_free_trial : ℕ → Db → Bool
has_free_trial user_id db = is_some (find (is_trial_of user_id) db.subscriptions)

-- `scalar_one_or_none` of a query that no key limits to one row.
abbrev pub one_or_none : List Tariff → Action (Option Tariff)
one_or_none [] = return none
one_or_none (t ∷ []) = return (some t)
one_or_none (t ∷ u ∷ ts) = raise multiple_results_found

abbrev pub free_tariffs : Db → List Tariff
free_tariffs db = select_where (λ (t : Tariff). t.is_free_trial && t.is_active) db.tariffs

abbrev pub trial_days : Tariff → ℕ
trial_days tariff = or_else (nonzero tariff.free_trial_days) 5

abbrev pub trial_devices : Tariff → ℕ
trial_devices tariff = if tariff.devices == 0 then 1 else tariff.devices

abbrev pub trial_subscription : User → Tariff → ℕ → Subscription
trial_subscription user tariff n = record {
  id = n;
  user_id = user.id;
  tariff_id = tariff.id;
  tariff_duration_id = none;
  devices = trial_devices tariff;
  days = trial_days tariff;
  status = SubStatus.pending;
  provider_subscription_id = none;
  key_url = none;
  started_at = none;
  expires_at = none;
  deactivated_at = none;
  deactivation_reason = none;
  is_free_trial = true;
}

module _ (env : Env) where
  -- The message to the referrer, if the row is found and has a chat.
  pub tell_referrer : Option User → ℕ → Action (Unit {0})
  tell_referrer none sub_id = return tt
  tell_referrer (some referrer) sub_id = if referrer.tg_id == 0 then return tt else do
    enqueue_message env.now referrer.id referrer.tg_id
        (Payload.referrer_trial_bonus_promo (with_number "REFTRIAL15_" sub_id))
    return tt

  pub issue_bonus : Option Referral → ℕ → Action (Unit {0})
  issue_bonus none sub_id = return tt
  issue_bonus (some referral) sub_id =
      if is_some referral.trial_bonus_issued_at then return tt else do
        issue_personal_discount env referral.referrer_id (with_number "REFTRIAL15_" sub_id) 15
            (30 * day_seconds)
        update_referral referral.id (λ r. record r { trial_bonus_issued_at = some env.now })
        referrer ← query (find_user referral.referrer_id)
        tell_referrer referrer sub_id
        commit

  -- `_issue_referrer_trial_bonus`
  pub issue_referrer_trial_bonus : User → ℕ → Action (Unit {0})
  issue_referrer_trial_bonus user sub_id = do
    referral ← query (find_referral user.id)
    issue_bonus referral sub_id

  abbrev pub trial_activated : KeyResponse → Tariff → Subscription → Subscription
  trial_activated key tariff r = record r {
    status = SubStatus.active;
    provider_subscription_id = key.subscription_id;
    key_url = key.key;
    started_at = some env.now;
    expires_at = some (env.now + trial_days tariff * day_seconds);
  }

  pub fail_trial : ℕ → Action ℕ
  fail_trial sub_id = do
    update_subscription sub_id (λ r. record r { status = SubStatus.failed })
    commit
    raise northline_unavailable

  -- `activate_free_trial` after the answer of NorthLine.
  pub deliver_trial : User → Tariff → ℕ → Result KeyResponse → Action ℕ
  deliver_trial user tariff sub_id (ok key) = do
    update_subscription sub_id (trial_activated key tariff)
    commit
    best_effort (issue_referrer_trial_bonus user sub_id)
    return sub_id
  deliver_trial user tariff sub_id (err northline_unavailable) = fail_trial sub_id
  deliver_trial user tariff sub_id (err northline_client) = fail_trial sub_id
  deliver_trial user tariff sub_id (err e) = raise e

  abbrev pub ask_trial_key : Tariff → ℕ → Result KeyResponse
  ask_trial_key tariff sub_id = env.create_key (record {
    days = trial_days tariff;
    devices = trial_devices tariff;
    lte_gb = some tariff.lte_gb_per_month;
    unlimited_traffic = tariff.is_unlimited_traffic;
    tariff_code = some tariff.code;
    is_free_trial = true;
    subscription_id = sub_id;
    payment_id = none;
  })

  -- From the pending row on, which is committed before NorthLine is asked.
  pub start_trial : User → Tariff → Action ℕ
  start_trial user tariff = do
    sub ← insert_subscription (trial_subscription user tariff)
    commit
    deliver_trial user tariff sub.id (ask_trial_key tariff sub.id)

  -- `FreeTrialService.activate_free_trial`: the subscription's id.
  pub activate_free_trial : User → Action ℕ
  activate_free_trial user = do
    used ← query (has_free_trial user.id)
    raise_if used free_trial_already_used
    rows ← query free_tariffs
    found ← one_or_none rows
    tariff ← or_raise found tariff_not_found
    start_trial user tariff
