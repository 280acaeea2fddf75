-- ===== src/Subscriptions.antt =====
-- The administrator's requests about one subscription (backend/app/api/admin/subscriptions.py): delete
-- its key, stop and resume it, reconcile it with NorthLine. The rows that `record_admin_action` appends
-- to a log are left out.
pub mod Over
pub mod Pause
pub mod History
pub mod Books
use Prim.Native.String.{String, ◌++◌ as append}
use pix_vpn_service.Prelude.{
  ℕ, Bool, true, false, not, ◌==◌, Option, none, some, List, [], ◌∷◌, if◌then◌else◌,
}
use pix_vpn_service.Db.{Db, User, SubStatus, Subscription, Payload}
use pix_vpn_service.Session.{
  Error, Result, Action, return, raise, query, or_raise, answered_by, raise_if, commit, request,
  ◌>>=◌, ◌>>◌, subscription_not_found, invalid_subscription_status, northline_client,
  northline_unavailable, provider_subscription_id_missing,
}
use pix_vpn_service.Tables.{find_user, find_subscription, update_subscription}
use pix_vpn_service.Outbox.{enqueue_message}
use pix_vpn_service.Reconcile.{
  KeyAnswer, key_info, client_error, unavailable, Verdict, unknown_key, failed_check, shrinks,
  agrees, flips, extends, verdict, is_test_id, or_empty, deactivated_row, flipped_row,
}

-- What NorthLine's client answers about a key.
pub record Keys : Type 0 where
  pub delete_key : String → Result (Unit {0})
  pub stop_key : String → Result (Unit {0})
  pub resume_key : String → Result (Unit {0})
  pub get_key : String → KeyAnswer

-- `_get_sub_or_404`
unfoldable pub get_sub_or_404 : ℕ → Action Subscription
unfolding query or_raise ◌>>=◌
get_sub_or_404 sub_id = do
  found ← query (find_subscription sub_id)
  or_raise found subscription_not_found

-- `if sub.provider_subscription_id:`, the call.
unfoldable pub call_provider : (String → Result (Unit {0})) → Option String → Action (Unit {0})
unfolding return answered_by
call_provider f none = return tt
call_provider f (some String.[]) = return tt
call_provider f (some (String.◌∷◌ c s)) = answered_by (f (String.◌∷◌ c s))

unfoldable pub tell_found : ℕ → Payload → Option User → Action (Unit {0})
unfolding return enqueue_message ◌>>=◌
tell_found now payload none = return tt
tell_found now payload (some user) = do enqueue_message now user.id user.tg_id payload; return tt

-- The message to the owner, where there still is one.
unfoldable pub tell_user : ℕ → ℕ → Payload → Action (Unit {0})
unfolding query ◌>>=◌ tell_found
tell_user now user_id payload = do found ← query (find_user user_id); tell_found now payload found

abbrev pub is_active : SubStatus → Bool
is_active SubStatus.active = true
is_active _ = false

abbrev pub is_suspended : SubStatus → Bool
is_suspended SubStatus.suspended = true
is_suspended _ = false

abbrev pub suspended_row : ℕ → String → Subscription → Subscription
suspended_row now reason row = record row {
  status = SubStatus.suspended;
  deactivated_at = some now;
  deactivation_reason = some reason;
}

abbrev pub resumed_row : Subscription → Subscription
resumed_row row = record row {
  status = SubStatus.active;
  deactivated_at = none;
  deactivation_reason = none;
}

abbrev pub extended_row : ℕ → Subscription → Subscription
extended_row t row = record row { expires_at = some t }

-- The last is never answered.
pub data ReconcileAction : Type 0 where
  skipped_test provider_unknown_key status_flipped expires_extended : ReconcileAction
  expires_shrink_warned no_change api_error : ReconcileAction

-- `AdminSubReconcileResponse`, less the old values and the wording.
pub record ReconcileResponse : Type 0 where
  pub action : ReconcileAction
  pub new_status : SubStatus
  pub new_expires_at : Option ℕ

abbrev pub response_of : ReconcileAction → Subscription → ReconcileResponse
response_of action sub = record {
  action = action;
  new_status = sub.status;
  new_expires_at = sub.expires_at;
}

abbrev pub error_of : KeyAnswer → Error
error_of unavailable = northline_unavailable
error_of _ = northline_client

-- `reconcile_subscription` once NorthLine has answered.
unfoldable pub after_answer : ℕ → Subscription → KeyAnswer → Verdict → Action ReconcileResponse
after_answer now sub answer (unknown_key code) = do
  let row = deactivated_row now (append "Reconcile (admin): provider returned " code)
  update_subscription sub.id row
  commit
  return (response_of provider_unknown_key (row sub))
after_answer now sub answer failed_check = raise (error_of answer)
after_answer now sub answer (flips st provider_status) = do
  let row = flipped_row now st (append "Reconcile (admin): provider status=" provider_status)
  update_subscription sub.id row
  commit
  return (response_of status_flipped (row sub))
after_answer now sub answer (extends t) = do
  update_subscription sub.id (extended_row t)
  commit
  return (response_of expires_extended (extended_row t sub))
after_answer now sub answer shrinks = return (response_of expires_shrink_warned sub)
after_answer now sub answer agrees = return (response_of no_change sub)

module _ (now : ℕ) (keys : Keys) where
  -- `deactivate_subscription`: from any status.
  unfoldable pub deactivate_subscription : ℕ → String → Action Subscription
  deactivate_subscription sub_id reason = do
    sub ← get_sub_or_404 sub_id
    call_provider keys.delete_key sub.provider_subscription_id
    update_subscription sub_id (deactivated_row now reason)
    tell_user now sub.user_id (Payload.subscription_deactivated_by_admin sub.id reason)
    commit
    return (deactivated_row now reason sub)

  -- `stop_subscription`
  unfoldable pub stop_subscription : ℕ → String → Action Subscription
  stop_subscription sub_id reason = do
    sub ← get_sub_or_404 sub_id
    raise_if (not (is_active sub.status)) invalid_subscription_status
    call_provider keys.stop_key sub.provider_subscription_id
    update_subscription sub_id (suspended_row now reason)
    tell_user now sub.user_id (Payload.subscription_suspended_by_admin sub.id reason)
    commit
    return (suspended_row now reason sub)

  -- `resume_subscription`
  unfoldable pub resume_subscription : ℕ → Action Subscription
  resume_subscription sub_id = do
    sub ← get_sub_or_404 sub_id
    raise_if (not (is_suspended sub.status)) invalid_subscription_status
    call_provider keys.resume_key sub.provider_subscription_id
    update_subscription sub_id resumed_row
    tell_user now sub.user_id (Payload.subscription_resumed_by_admin sub.id)
    commit
    return (resumed_row sub)

  unfoldable pub check_key :
      (String → String) → Bool → Subscription → String → Action ReconcileResponse
  unfolding after_answer
  check_key lower true sub key = return (response_of skipped_test sub)
  check_key lower false sub key =
      let answer = keys.get_key key in
      after_answer now sub answer (verdict lower answer sub.expires_at)

  unfoldable pub check_sub :
      (String → String) → Subscription → Option String → Action ReconcileResponse
  unfolding check_key
  check_sub lower sub none = raise provider_subscription_id_missing
  check_sub lower sub (some String.[]) = raise provider_subscription_id_missing
  check_sub lower sub (some (String.◌∷◌ c s)) =
      let key = String.◌∷◌ c s in check_key lower (is_test_id (some key)) sub key

  -- `reconcile_subscription`
  unfoldable pub reconcile_subscription : (String → String) → ℕ → Action ReconcileResponse
  reconcile_subscription lower sub_id = do
    sub ← get_sub_or_404 sub_id
    check_sub lower sub sub.provider_subscription_id

-- A request about a subscription.
pub data SubscriptionRequest : Type 0 where
  deactivate_request : (reason : String) → SubscriptionRequest
  stop_request : (reason : String) → SubscriptionRequest
  resume_request : SubscriptionRequest
  reconcile_request : SubscriptionRequest

abbrev Done : Type 0
Done = Unit {0}

pub handle_subscription : ℕ → Keys → (String → String) → ℕ → SubscriptionRequest → Action Done
handle_subscription now keys lower sid (deactivate_request reason) = do
  deactivate_subscription now keys sid reason
  return tt
handle_subscription now keys lower sid (stop_request reason) = do
  stop_subscription now keys sid reason
  return tt
handle_subscription now keys lower sid resume_request = do
  resume_subscription now keys sid
  return tt
handle_subscription now keys lower sid reconcile_request = do
  reconcile_subscription now keys lower sid
  return tt
