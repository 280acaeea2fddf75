-- ===== src/Subscriptions/Pause.antt =====
-- Stopping a subscription, resuming it, and what a reconciliation in between does to it.
use Prim.Native.String.{String, ◌++◌ as append}
use pix_vpn_service.Prelude.{
  ℕ, ◌≡◌, refl, true, false, Bool, not, Option, none, some, arith, find, find-test,
  find-update_where, update_where, ==_iff, ◌==◌,
}
use pix_vpn_service.Db.{Db, User, SubStatus, Subscription, Payload}
use pix_vpn_service.Session.{
  Session, Error, Result, ok, err, return, modify, commit, answered_by, raise_if, query, or_raise,
  ◌>>=◌, ◌>>◌, invalid_subscription_status,
}
use pix_vpn_service.Session.Steps.{then_at}
use pix_vpn_service.Tables.{find_user, find_subscription, update_subscription, insert_outbox}
use pix_vpn_service.Outbox.{enqueue_message}
use pix_vpn_service.Reconcile.{key_info, is_test_id, deactivated_row}
use pix_vpn_service.Subscriptions.{
  Keys, get_sub_or_404, call_provider, tell_found, tell_user, is_active, is_suspended,
  suspended_row, resumed_row, stop_subscription, resume_subscription, after_answer, check_key,
  check_sub, reconcile_subscription,
}

-- The action succeeds with this row, which is then found under its id, live and as committed.
pub record Leaves (i : ℕ) (row : Subscription) (o : Result Subscription × Session) : Type 0 where
  pub result : o.0 ≡ ok row
  pub live : find_subscription i o.1.live ≡ some row
  pub saved : find_subscription i o.1.saved ≡ some row

find-updated_row :
    (i : ℕ) (f : Subscription → Subscription) (db : Db) (sub : Subscription)
    → ((x : Subscription) → (f x).id ≡ x.id)
    → find_subscription i db ≡ some sub
    → find (λ r. r.id == i) (update_where (λ r. r.id == i) f db.subscriptions) ≡ some (f sub)
find-updated_row i f db sub same found =
    let is_it = λ (x : Subscription). x.id == i in
    let hit : (sub.id == i) ≡ true = find-test is_it db.subscriptions sub found in
    let k = find-update_where is_it is_it f db.subscriptions (λ x. rw (same x) refl) sub found in
    ground (arith, k)

call_provider_ok :
    (f : String → Result (Unit {0})) (key : Option String) (s : Session)
    → ((k : String) → f k ≡ ok tt)
    → call_provider f key s ≡ (ok tt, s)
unfolding call_provider answered_by return
call_provider_ok f none s h = refl
call_provider_ok f (some String.[]) s h = refl
call_provider_ok f (some (String.◌∷◌ c k)) s h = rw (h (String.◌∷◌ c k)) refl

passed : (b : Bool) (e : Error) (s : Session) → b ≡ true → raise_if (not b) e s ≡ (ok tt, s)
unfolding raise_if
passed b e s t = rw t refl

-- A message to the owner and a commit leave the row as it is.
told-Leaves :
    (now i uid : ℕ) (payload : Payload) (row : Subscription) (s : Session)
    → find_subscription i s.live ≡ some row
    → Leaves i row ((do tell_user now uid payload; commit; return row) s)
unfolding tell_user tell_found enqueue_message insert_outbox commit return query ◌>>=◌
told-Leaves now i uid payload row s found = go (find_user uid s.live) refl
  where
    go :
        (o : Option User)
        → find_user uid s.live ≡ o
        → Leaves i row ((do tell_user now uid payload; commit; return row) s)
    go none e = rw e (record { result = refl; live = found; saved = found })
    go (some u) e = rw e (record { result = refl; live = found; saved = found })

module _ (now i : ℕ) (sub : Subscription) (s : Session)
    (found : find_subscription i s.live ≡ some sub) where
  changed-Leaves :
      (call : String → Result (Unit {0})) (key : Option String) (f : Subscription → Subscription)
      (uid : ℕ) (payload : Payload)
      → ((k : String) → call k ≡ ok tt)
      → ((x : Subscription) → (f x).id ≡ x.id)
      → Leaves i (f sub) (
          (do
            call_provider call key
            update_subscription i f
            tell_user now uid payload
            commit
            return (f sub))
            s)
  unfolding update_subscription modify
  changed-Leaves call key f uid payload answers same =
      let P = Leaves i (f sub) in
      then_at P _ _ s tt s (call_provider_ok call key s answers) (
        then_at P _ _ s tt _ refl
          (told-Leaves now i uid payload (f sub) _ (find-updated_row i f s.live sub same found)))

  found_sub : get_sub_or_404 i s ≡ (ok sub, s)
  unfolding get_sub_or_404 query or_raise return ◌>>=◌
  found_sub = rw found refl

  stop-Leaves :
      (keys : Keys) (reason : String)
      → ((k : String) → keys.stop_key k ≡ ok tt)
      → is_active sub.status ≡ true
      → Leaves i (suspended_row now reason sub) (stop_subscription now keys i reason s)
  unfolding stop_subscription
  stop-Leaves keys reason answers active =
      let P = Leaves i (suspended_row now reason sub) in
      then_at P _ _ s sub s found_sub (
        then_at P _ _ s tt s (passed _ _ s active) (
          changed-Leaves keys.stop_key sub.provider_subscription_id (suspended_row now reason)
            sub.user_id _ answers (λ x. refl)))

  resume-Leaves :
      (keys : Keys)
      → ((k : String) → keys.resume_key k ≡ ok tt)
      → is_suspended sub.status ≡ true
      → Leaves i (resumed_row sub) (resume_subscription now keys i s)
  unfolding resume_subscription
  resume-Leaves keys answers suspended =
      let P = Leaves i (resumed_row sub) in
      then_at P _ _ s sub s found_sub (
        then_at P _ _ s tt s (passed _ _ s suspended) (
          changed-Leaves keys.resume_key sub.provider_subscription_id resumed_row sub.user_id _
            answers (λ x. refl)))

  resume-refused :
      (keys : Keys)
      → is_suspended sub.status ≡ false
      → resume_subscription now keys i s ≡ (err invalid_subscription_status, s)
  unfolding resume_subscription raise_if ◌>>=◌
  resume-refused keys other = rw (found_sub, other) refl

-- Where NorthLine stops and resumes the key, resuming a subscription that was active when it was
-- stopped succeeds, and leaves its row, live and as committed, as it was before, with no time and no
-- reason of a deactivation.
pub resume-stop :
    (now now' i : ℕ) (sub : Subscription) (s : Session) (keys keys' : Keys) (reason : String)
    → find_subscription i s.live ≡ some sub
    → is_active sub.status ≡ true
    → ((k : String) → keys.stop_key k ≡ ok tt)
    → ((k : String) → keys'.resume_key k ≡ ok tt)
    → let s' = (stop_subscription now keys i reason s).1 in
      Leaves i
        (record sub {
          status = SubStatus.active;
          deactivated_at = none;
          deactivation_reason = none;
        })
        (resume_subscription now' keys' i s')
resume-stop now now' i sub s keys keys' reason found active stops resumes =
    let stopped = stop-Leaves now i sub s found keys reason stops active in
    resume-Leaves now' i (suspended_row now reason sub) _ stopped.live keys' resumes refl

module _ (now i : ℕ) (lower : String → String) (sub : Subscription) (s : Session)
    (found : find_subscription i s.live ≡ some sub) where
  row_id : sub.id ≡ i
  row_id = (==_iff sub.id i).0 (find-test (λ x. x.id == i) s.live.subscriptions sub found)

  -- A key that NorthLine reports as suspended.
  reconciled :
      (keys : Keys) (key : Option String) (expires_at : Option ℕ)
      → is_test_id key ≡ false
      → ((k : String) → keys.get_key k ≡ key_info (some "suspended") expires_at)
      → lower "suspended" ≡ "suspended"
      → (row : Subscription) × (find_subscription i (check_sub now keys lower sub key s).1.live
          ≡ some row)
        × (is_suspended row.status ≡ false)
  unfolding check_sub check_key after_answer update_subscription modify commit return ◌>>=◌
  reconciled keys none expires_at real answers same = absurd (unfold is_test_id in cc)
  reconciled keys (some String.[]) expires_at real answers same = absurd (unfold is_test_id in cc)
  reconciled keys (some (String.◌∷◌ c k)) expires_at real answers same =
      let key = String.◌∷◌ c k in
      rw (real, answers key, same, row_id)
        (
          deactivated_row now (append "Reconcile (admin): provider status=" "suspended") sub,
          find-updated_row i _ s.live sub (λ x. refl) found,
          refl,
        )

-- Where NorthLine reports a key that is not a test key as suspended, the administrator's reconciliation
-- of its subscription leaves the row so that to resume it is refused and changes nothing, also where
-- it was stopped before and could have been resumed.
pub resume-reconcile :
    (now now' i : ℕ) (lower : String → String) (sub : Subscription) (s : Session)
    (keys keys' : Keys) (expires_at : Option ℕ)
    → find_subscription i s.live ≡ some sub
    → is_test_id sub.provider_subscription_id ≡ false
    → ((k : String) → keys.get_key k ≡ key_info (some "suspended") expires_at)
    → lower "suspended" ≡ "suspended"
    → let s' = (reconcile_subscription now keys lower i s).1 in
      resume_subscription now' keys' i s' ≡ (err invalid_subscription_status, s')
unfolding reconcile_subscription
resume-reconcile now now' i lower sub s keys keys' expires_at found real answers same =
    let after =
      reconciled now i lower sub s found keys sub.provider_subscription_id expires_at real answers
        same in
    let state : (reconcile_subscription now keys lower i s).1
        ≡ (check_sub now keys lower sub sub.provider_subscription_id s).1 =
      unfold ◌>>=◌ in rw (found_sub now i sub s found) refl in
    rw state (resume-refused now' i after.0 _ after.1 keys' after.2)
