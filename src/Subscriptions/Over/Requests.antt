-- ===== src/Subscriptions/Over/Requests.antt =====
-- A subscription that is neither active nor suspended is never given back by the administrator.
use Prim.Native.String.{String}
use pix_vpn_service.Prelude.{
  ℕ, ◌≡◌, refl, true, false, Option, none, some, arith, find-test, All-find, ◌==◌,
}
use pix_vpn_service.Db.{SubStatus, Subscription, Payload}
use pix_vpn_service.Session.{
  subscription_not_found, Session, Action, Result, err, return, raise, commit, ◌>>=◌, ◌>>◌, query,
  or_raise,
}
use pix_vpn_service.Session.Preserves.{Preserves, preserves_rules}
use pix_vpn_service.Session.Steps.{Ends, raise_if_then}
use pix_vpn_service.Tables.{find_subscription, update_subscription}
use pix_vpn_service.Reconcile.{
  KeyAnswer, Verdict, unknown_key, failed_check, shrinks, agrees, flips, extends, flipped_row,
  is_test_id,
}
use pix_vpn_service.Subscriptions.{
  Keys, get_sub_or_404, call_provider, tell_user, suspended_row, resumed_row, extended_row,
  stop_subscription, resume_subscription, after_answer, check_key, check_sub,
  reconcile_subscription, SubscriptionRequest, deactivate_request, stop_request, resume_request,
  reconcile_request, handle_subscription,
}
use pix_vpn_service.Subscriptions.Over.{
  is_running, IsOver, Over, FlipsOver, verdict-FlipsOver, flipped_row-IsOver, update-Over,
  over_rules, deactivated-Over, get_sub-Over, deactivate-Over,
}

-- The row that a request is about.
pub get_sub_then :
    {B : Type 0} (P : Result B × Session → Type 0) (i : ℕ) (k : Subscription → Action B)
    (s : Session)
    → P (err subscription_not_found, s)
    → ((sub : Subscription) → find_subscription i s.live ≡ some sub → P (k sub s))
    → P ((get_sub_or_404 i >>= k) s)
unfolding get_sub_or_404 or_raise return raise query ◌>>=◌
get_sub_then P i k s missing each = go (find_subscription i s.live) refl
  where
    go : (o : Option Subscription) → find_subscription i s.live ≡ o → P ((get_sub_or_404 i >>= k) s)
    go none e = rw e missing
    go (some sub) e = rw e (each sub e)

-- Where the found row is running, no row with its id is over.
running_not-own :
    (sid i : ℕ) (s : Session) (sub r : Subscription)
    → find_subscription i s.live ≡ some sub
    → Over sid s
    → is_running sub.status ≡ true
    → (r.id == i) ≡ true
    → (r.id == sid) ≡ true
    → ⊥
running_not-own sid i s sub r found h running hit own =
    let at_i : (sub.id == i) ≡ true = find-test (λ x. x.id == i) s.live.subscriptions sub found in
    let over = All-find (IsOver sid) (λ x. x.id == i) s.live.subscriptions sub h.live found in
    not_both sub.status running (over (ground arith))
  where
    not_both : (st : SubStatus) → is_running st ≡ true → is_running st ≡ false → ⊥
    not_both st t f = cc

module _ {sid : ℕ} where
  -- A change that gives back cannot be of this row.
  elsewhere-Over :
      (i : ℕ) (f : Subscription → Subscription)
      → ((r : Subscription) → (f r).id ≡ r.id)
      → ((r : Subscription) → (r.id == i) ≡ true → (r.id == sid) ≡ true → ⊥)
      → Preserves (Over sid) (update_subscription i f)
  elsewhere-Over i f same never =
      update-Over i f (λ r hit old own. absurd (never r hit (let e = same r in ground arith)))

  -- What the requests do once their guards are passed.
  changed-Over :
      (now i uid : ℕ) (call : String → Result (Unit {0})) (key : Option String)
      (f : Subscription → Subscription) (payload : Payload) (row : Subscription)
      → Preserves (Over sid) (update_subscription i f)
      → Preserves (Over sid) (do
        call_provider call key
        update_subscription i f
        tell_user now uid payload
        commit
        return row)
  changed-Over now i uid call key f payload row h = search over_rules depth 10

  stop-Over :
      (now : ℕ) (keys : Keys) (i : ℕ) (reason : String)
      → Preserves (Over sid) (stop_subscription now keys i reason)
  unfolding stop_subscription
  stop-Over now keys i reason = record {
    from = λ s h. get_sub_then (Ends (Over sid)) i _ s h λ sub found.
        raise_if_then (Ends (Over sid)) _ _ _ s (λ refused. h)
          λ passed.
            let change : Preserves (Over sid) (update_subscription i (suspended_row now reason)) =
              elsewhere-Over i _ (λ r. refl)
                (λ r. running_not-own sid i s sub r found h (ground arith)) in
            (changed-Over now i sub.user_id keys.stop_key sub.provider_subscription_id _ _ _
                change).from
              s h;
  }

  resume-Over :
      (now : ℕ) (keys : Keys) (i : ℕ) → Preserves (Over sid) (resume_subscription now keys i)
  unfolding resume_subscription
  resume-Over now keys i = record {
    from = λ s h. get_sub_then (Ends (Over sid)) i _ s h λ sub found.
        raise_if_then (Ends (Over sid)) _ _ _ s (λ refused. h)
          λ passed.
            let change : Preserves (Over sid) (update_subscription i resumed_row) =
              elsewhere-Over i _ (λ r. refl)
                (λ r. running_not-own sid i s sub r found h (ground arith)) in
            (changed-Over now i sub.user_id keys.resume_key sub.provider_subscription_id _ _ _
                change).from
              s h;
  }

  extended-Over : (i t : ℕ) → Preserves (Over sid) (update_subscription i (extended_row t))
  extended-Over i t = update-Over i _ (λ r hit old. old)

  after_answer-Over :
      (now : ℕ) (sub : Subscription) (a : KeyAnswer) (v : Verdict)
      → FlipsOver v
      → Preserves (Over sid) (after_answer now sub a v)
  unfolding after_answer
  after_answer-Over now sub a (unknown_key code) h = search (over_rules, deactivated-Over)
  after_answer-Over now sub a failed_check h = search over_rules
  after_answer-Over now sub a (flips st reason) h = search (
    over_rules,
    λ (text : String).
        update-Over sub.id (flipped_row now st text)
          (λ r hit old. flipped_row-IsOver sid now st text r h),
  )
  after_answer-Over now sub a (extends t) h = search (over_rules, extended-Over)
  after_answer-Over now sub a shrinks h = search over_rules
  after_answer-Over now sub a agrees h = search over_rules

  check_sub-Over :
      (now : ℕ) (keys : Keys) (lower : String → String) (sub : Subscription) (key : Option String)
      → Preserves (Over sid) (check_sub now keys lower sub key)
  unfolding check_sub check_key
  check_sub-Over now keys lower sub none = search over_rules
  check_sub-Over now keys lower sub (some String.[]) = search over_rules
  check_sub-Over now keys lower sub (some (String.◌∷◌ c s)) =
      let key = String.◌∷◌ c s in
      elim (is_test_id (some key))
        as (λ b. Preserves (Over sid) (check_key now keys lower b sub key)) [
          | true ↦ search over_rules
          | false ↦
              after_answer-Over now sub (keys.get_key key) _
                (verdict-FlipsOver lower (keys.get_key key) sub.expires_at)
        ]

  reconcile-Over :
      (now : ℕ) (keys : Keys) (lower : String → String) (i : ℕ)
      → Preserves (Over sid) (reconcile_subscription now keys lower i)
  unfolding reconcile_subscription
  reconcile-Over now keys lower i = search (over_rules, get_sub-Over, check_sub-Over)

  pub handle_subscription-Over :
      (now : ℕ) (keys : Keys) (lower : String → String) (i : ℕ) (r : SubscriptionRequest)
      → Preserves (Over sid) (handle_subscription now keys lower i r)
  unfolding handle_subscription
  handle_subscription-Over now keys lower i (deactivate_request reason) =
      search (preserves_rules, deactivate-Over)
  handle_subscription-Over now keys lower i (stop_request reason) =
      search (preserves_rules, stop-Over)
  handle_subscription-Over now keys lower i resume_request = search (preserves_rules, resume-Over)
  handle_subscription-Over now keys lower i reconcile_request =
      search (preserves_rules, reconcile-Over)
