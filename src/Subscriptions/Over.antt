-- ===== src/Subscriptions/Over.antt =====
-- A subscription that is neither active nor suspended, and what the parts of the administrator's
-- requests leave of it.
pub mod Requests
use Prim.Native.String.{String}
use pix_vpn_service.Prelude.{
  ℕ, ◌≡◌, refl, Bool, true, false, ◌||◌, Option, none, some, arith, find-test, All, All-find,
  All-update_where, str_eq, ltb, ◌+◌, ◌==◌, if◌then◌else◌,
}
use pix_vpn_service.Db.{User, SubStatus, Subscription, Payload}
use pix_vpn_service.Session.{
  subscription_not_found, Session, Action, Result, err, return, raise, modify, commit, answered_by,
  ◌>>=◌, ◌>>◌, query, or_raise,
}
use pix_vpn_service.Session.Preserves.{Preserves, preserves_rules}
use pix_vpn_service.Session.Steps.{Ends, raise_if_then}
use pix_vpn_service.Tables.{find_subscription, update_subscription, insert_outbox}
use pix_vpn_service.Outbox.{enqueue_message}
use pix_vpn_service.Reconcile.{
  KeyAnswer, Verdict, unknown_key, failed_check, shrinks, agrees, flips, extends, verdict,
  deactivated_row, flipped_row, unavailable, client_error, key_info, expiry_drift, or_empty,
  drift_seconds, is_test_id,
}
use pix_vpn_service.Subscriptions.{
  Keys, get_sub_or_404, call_provider, tell_found, tell_user, is_active, is_suspended,
  suspended_row, resumed_row, extended_row, deactivate_subscription, stop_subscription,
  resume_subscription, after_answer, check_key, check_sub, reconcile_subscription,
  SubscriptionRequest, deactivate_request, stop_request, resume_request, reconcile_request,
  handle_subscription,
}

abbrev pub is_running : SubStatus → Bool
is_running st = is_active st || is_suspended st

-- Of the row with this id.
abbrev pub IsOver : ℕ → Subscription → Type 0
IsOver sid r = (r.id == sid) ≡ true → is_running r.status ≡ false

-- For the running request and as last committed.
pub record Over (sid : ℕ) (s : Session) : Type 0 where
  pub live : All (IsOver sid) s.live.subscriptions
  pub saved : All (IsOver sid) s.saved.subscriptions

-- What a check of a key may change the status to.
abbrev pub FlipsOver : Verdict → Type 0
FlipsOver (flips st reason) = is_running st ≡ false
FlipsOver v = Unit

if-FlipsOver :
    (b : Bool) (v w : Verdict) → FlipsOver v → FlipsOver w → FlipsOver (if b then v else w)
if-FlipsOver true v w h k = h
if-FlipsOver false v w h k = k

drift-FlipsOver : (p l : Option ℕ) → FlipsOver (expiry_drift p l)
drift-FlipsOver none l = tt
drift-FlipsOver (some p) none = tt
drift-FlipsOver (some p) (some l) =
    if-FlipsOver (ltb (l + drift_seconds) p) (extends p)
      (if ltb (p + drift_seconds) l then shrinks else agrees) tt
      (if-FlipsOver (ltb (p + drift_seconds) l) shrinks agrees tt tt)

pub verdict-FlipsOver :
    (lower : String → String) (a : KeyAnswer) (l : Option ℕ) → FlipsOver (verdict lower a l)
verdict-FlipsOver lower unavailable l = tt
verdict-FlipsOver lower (client_error code) l =
    let c = lower (or_empty code) in
    if-FlipsOver (str_eq c "invalid_provider_key" || str_eq c "not_found")
      (unknown_key (or_empty code)) failed_check tt tt
verdict-FlipsOver lower (key_info status p) l =
    let st = lower (or_empty status) in
    if-FlipsOver (str_eq st "" || str_eq st "active") (expiry_drift p l) _ (drift-FlipsOver p l) (
      if-FlipsOver (str_eq st "suspended") (flips SubStatus.deactivated st)
        (flips SubStatus.expired st) refl refl)

pub flipped_row-IsOver :
    (sid now : ℕ) (st : SubStatus) (reason : String) (r : Subscription)
    → is_running st ≡ false
    → IsOver sid (flipped_row now st reason r)
flipped_row-IsOver sid now SubStatus.deactivated reason r h own = refl
flipped_row-IsOver sid now SubStatus.pending reason r h own = refl
flipped_row-IsOver sid now SubStatus.active reason r h own = h
flipped_row-IsOver sid now SubStatus.expired reason r h own = refl
flipped_row-IsOver sid now SubStatus.suspended reason r h own = h
flipped_row-IsOver sid now SubStatus.failed reason r h own = refl
flipped_row-IsOver sid now SubStatus.failed_provider reason r h own = refl

suspended-not_active : (st : SubStatus) → is_suspended st ≡ true → is_running st ≡ false → ⊥
suspended-not_active st h k = ground arith

active-not_over : (st : SubStatus) → is_active st ≡ true → is_running st ≡ false → ⊥
active-not_over st h k = ground arith

module _ {sid : ℕ} where
  pub update-Over :
      (i : ℕ) (f : Subscription → Subscription)
      → ((r : Subscription) → (r.id == i) ≡ true → IsOver sid r → IsOver sid (f r))
      → Preserves (Over sid) (update_subscription i f)
  unfolding update_subscription modify
  update-Over i f keeps = record {
    from = λ s h. record {
      live =
          All-update_where (IsOver sid) (IsOver sid) (λ r. r.id == i) f s.live.subscriptions
            (λ r old hit. keeps r hit old) (λ r old miss. old) h.live;
      saved = h.saved;
    };
  }

  pub commit-Over : Preserves (Over sid) commit
  unfolding commit
  commit-Over = record { from = λ s h. record { live = h.live; saved = h.live } }

  answered_by-Over : {A : Type 0} (r : Result A) → Preserves (Over sid) (answered_by r)
  unfolding answered_by
  answered_by-Over r = record { from = λ s h. h }

  pub call_provider-Over :
      (f : String → Result (Unit {0})) (key : Option String)
      → Preserves (Over sid) (call_provider f key)
  unfolding call_provider
  call_provider-Over f none = search preserves_rules
  call_provider-Over f (some String.[]) = search preserves_rules
  call_provider-Over f (some (String.◌∷◌ c s)) = search (preserves_rules, answered_by-Over)

  enqueue-Over :
      (now uid chat : ℕ) (payload : Payload)
      → Preserves (Over sid) (enqueue_message now uid chat payload)
  unfolding enqueue_message insert_outbox
  enqueue-Over now uid chat payload = record {
    from = λ s h. record { live = h.live; saved = h.saved };
  }

  tell_found-Over :
      (now : ℕ) (payload : Payload) (o : Option User)
      → Preserves (Over sid) (tell_found now payload o)
  unfolding tell_found
  tell_found-Over now payload none = search preserves_rules
  tell_found-Over now payload (some u) = search (preserves_rules, enqueue-Over)

  pub tell_user-Over :
      (now uid : ℕ) (payload : Payload) → Preserves (Over sid) (tell_user now uid payload)
  unfolding tell_user
  tell_user-Over now uid payload = search (preserves_rules, tell_found-Over)

  pub ruleset over_rules = (preserves_rules, commit-Over, call_provider-Over, tell_user-Over)

  pub deactivated-Over :
      (i now : ℕ) (reason : String)
      → Preserves (Over sid) (update_subscription i (deactivated_row now reason))
  deactivated-Over i now reason = update-Over i _ (λ r hit old own. refl)

  pub get_sub-Over : (i : ℕ) → Preserves (Over sid) (get_sub_or_404 i)
  unfolding get_sub_or_404
  get_sub-Over i = search preserves_rules

  pub deactivate-Over :
      (now : ℕ) (keys : Keys) (i : ℕ) (reason : String)
      → Preserves (Over sid) (deactivate_subscription now keys i reason)
  unfolding deactivate_subscription
  deactivate-Over now keys i reason = search (over_rules, deactivated-Over, get_sub-Over) depth 10
