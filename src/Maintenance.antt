-- ===== src/Maintenance.antt =====
-- The worker's cron tasks that expire what has run out (worker/app/tasks/expire_payments.py and
-- worker/app/tasks/mark_expired.py).
use pix_vpn_service.Prelude.{
  ℕ, ◌+◌, ◌*◌, ◌≡◌, refl, sym, ap, Bool, true, false, ◌&&◌, ◌||◌, Option, none, some, List, [], ◌∷◌,
  arith, All-update_where, length, update_where, select_where, ltb, ◌==◌,
}
use pix_vpn_service.Prelude.Int.{pos, ◌≤ℤ◌}
use pix_vpn_service.Db.{Db, SubStatus, Subscription, PaymentStatus, Payment}
use pix_vpn_service.Session.{Session, ok, Action, return, query, modify, commit, ◌>>=◌, ◌>>◌}
use pix_vpn_service.Session.Preserves.{Preserves}
use pix_vpn_service.Ledger.{Books}
use pix_vpn_service.Ledger.Frame.{books_rules}

abbrev pub is_open_payment : PaymentStatus → Bool
is_open_payment PaymentStatus.pending = true
is_open_payment _ = false

-- `status = 'pending' AND created_at < now() - make_interval(mins => :ttl_minutes)`
abbrev pub is_stale : ℕ → ℕ → Payment → Bool
is_stale now ttl_minutes p = is_open_payment p.status && ltb (p.created_at + 60 * ttl_minutes) now

abbrev pub expired_payment : Payment → Payment
expired_payment p = record p { status = PaymentStatus.expired }

abbrev pub add_id : Option ℕ → List ℕ → List ℕ
add_id none ids = ids
add_id (some n) ids = n ∷ ids

unfoldable pub subscription_ids : List Payment → List ℕ
subscription_ids [] = []
subscription_ids (p ∷ ps) = add_id p.subscription_id (subscription_ids ps)

unfoldable pub has_id_in : List ℕ → ℕ → Bool
has_id_in [] n = false
has_id_in (x ∷ xs) n = (x == n) || has_id_in xs n

abbrev pub is_waiting_sub : SubStatus → Bool
is_waiting_sub SubStatus.pending = true
is_waiting_sub _ = false

-- `_expire_payments`: the rows of its RETURNING.
unfoldable pub expire_payments : ℕ → ℕ → Action (List Payment)
expire_payments now ttl_minutes = do
  rows ← query (λ db. select_where (is_stale now ttl_minutes) db.payments)
  modify (λ db. record db {
    payments = update_where (is_stale now ttl_minutes) expired_payment db.payments;
  })
  return rows

abbrev pub fails_with : List ℕ → Subscription → Bool
fails_with ids r = is_waiting_sub r.status && has_id_in ids r.id

-- `_fail_subscriptions`, which is not called for no ids: how many it changes.
unfoldable pub fail_subscriptions : List ℕ → Action ℕ
fail_subscriptions [] = return 0
fail_subscriptions (n ∷ ns) = do
  rows ← query (λ db. select_where (fails_with (n ∷ ns)) db.subscriptions)
  modify (λ db. record db {
    subscriptions =
        update_where (fails_with (n ∷ ns)) (λ r. record r { status = SubStatus.failed })
          db.subscriptions;
  })
  return (length rows)

-- `expire_pending_payments_task`: how many payments and subscriptions it changes.
unfoldable pub expire_pending_payments : ℕ → ℕ → Action (ℕ × ℕ)
unfolding expire_payments fail_subscriptions subscription_ids
expire_pending_payments now ttl_minutes = do
  rows ← expire_payments now ttl_minutes
  failed ← fail_subscriptions (subscription_ids rows)
  commit
  return (length rows, failed)

abbrev pub is_over : ℕ → Option ℕ → Bool
is_over now none = false
is_over now (some t) = ltb t now

abbrev pub is_active : SubStatus → Bool
is_active SubStatus.active = true
is_active _ = false

-- `status = 'active' AND expires_at < now()`
abbrev pub is_overdue : ℕ → Subscription → Bool
is_overdue now r = is_active r.status && is_over now r.expires_at

-- `mark_expired_subscriptions_task`: how many it marks.
unfoldable pub mark_expired : ℕ → Action ℕ
mark_expired now = do
  rows ← query (λ db. select_where (is_overdue now) db.subscriptions)
  modify (λ db. record db {
    subscriptions =
        update_where (is_overdue now) (λ r. record r { status = SubStatus.expired })
          db.subscriptions;
  })
  commit
  return (length rows)

-- An update after which no row fits leaves nothing to do for the next one.
none_left :
    {A : Type 0} (p : A → Bool) (f g : A → A) (xs : List A)
    → ((x : A) → p (f x) ≡ false)
    → (select_where p (update_where p f xs) ≡ [])
      × (update_where p g (update_where p f xs) ≡ update_where p f xs)
none_left p f g [] h = (refl, refl)
none_left p f g (x ∷ xs) h = let k = none_left p f g xs h in ground (arith, h x, k.0, k.1)

not_stale : (now ttl : ℕ) (p : Payment) → is_stale now ttl (expired_payment p) ≡ false
not_stale now ttl p = refl

-- No payment is stale, and an update of the stale ones changes nothing.
record IsQuiet (now ttl : ℕ) (db : Db) : Type 0 where
  rows : select_where (is_stale now ttl) db.payments ≡ []
  same : update_where (is_stale now ttl) expired_payment db.payments ≡ db.payments

abbrev report : ℕ → ℕ → Action (ℕ × ℕ)
report n failed = commit >>= λ _. return (n, failed)

finished :
    (now ttl n : ℕ) (ids : List ℕ) (s : Session)
    → IsQuiet now ttl s.live
    → let s' = ((fail_subscriptions ids >>= report n) s).1 in
      IsQuiet now ttl s'.live × (s'.saved ≡ s'.live)
unfolding fail_subscriptions commit return modify query ◌>>=◌
finished now ttl n [] s h = (h, refl)
finished now ttl n (i ∷ is) s h = (record { rows = h.rows; same = h.same }, refl)

nothing_to_do :
    (now ttl : ℕ) (s : Session)
    → IsQuiet now ttl s.live
    → s.saved ≡ s.live
    → expire_pending_payments now ttl s ≡ (ok (0, 0), s)
unfolding expire_pending_payments expire_payments fail_subscriptions subscription_ids commit return
    modify query ◌>>=◌
nothing_to_do now ttl s h committed =
    rw (h.rows, h.same) (ap (λ d. (ok (0, 0), record s { saved = d })) (sym committed))

-- Whatever the task changed, at the same moment there is nothing left for it to change: a second run
-- reports no payment and no subscription, and leaves the database as it is.
pub expire_pending_payments_again :
    (now ttl_minutes : ℕ) (s : Session)
    → let s' = (expire_pending_payments now ttl_minutes s).1 in
      expire_pending_payments now ttl_minutes s' ≡ (ok (0, 0), s')
unfolding expire_pending_payments expire_payments commit return modify query ◌>>=◌
expire_pending_payments_again now ttl_minutes s =
    let p = is_stale now ttl_minutes in
    let left =
      none_left p expired_payment expired_payment s.live.payments (not_stale now ttl_minutes) in
    let rows = select_where p s.live.payments in
    let s1 : Session = record s {
      live = record s.live { payments = update_where p expired_payment s.live.payments };
    } in
    let done =
      finished now ttl_minutes (length rows) (subscription_ids rows) s1
        (record { rows = left.0; same = left.1 }) in
    nothing_to_do now ttl_minutes _ done.0 done.1

-- Neither task touches the books.
expire_rows-Books :
    (now ttl : ℕ)
    → Preserves Books (
        modify λ db. record db {
          payments = update_where (is_stale now ttl) expired_payment db.payments;
        })
unfolding modify
expire_rows-Books now ttl = record {
  from = λ s b. record {
    live = record {
      balanced = b.live.balanced;
      audited = b.live.audited;
      solvent = b.live.solvent;
      priced = b.live.priced;
      charged =
          All-update_where IsPositive IsPositive (is_stale now ttl) expired_payment s.live.payments
            (λ p h hit. h) (λ p h miss. h) b.live.charged;
      granted = b.live.granted;
    };
    saved = b.saved;
  };
}
  where
    IsPositive : Payment → Type 0
    IsPositive p = pos 0 ≤ℤ p.amount_kopecks

update_subscriptions-Books :
    (p : Subscription → Bool) (f : Subscription → Subscription)
    → Preserves Books (modify λ db. record db { subscriptions = update_where p f db.subscriptions })
unfolding modify
update_subscriptions-Books p f = record { from = λ s b. ground arith }

fail_subscriptions-Books : (ids : List ℕ) → Preserves Books (fail_subscriptions ids)
unfolding fail_subscriptions
fail_subscriptions-Books [] = search books_rules
fail_subscriptions-Books (n ∷ ns) = search (books_rules, update_subscriptions-Books)

pub expire_pending_payments-Books :
    (now ttl : ℕ) → Preserves Books (expire_pending_payments now ttl)
unfolding expire_pending_payments expire_payments
expire_pending_payments-Books now ttl =
    search (books_rules, expire_rows-Books, fail_subscriptions-Books) depth 12

pub mark_expired-Books : (now : ℕ) → Preserves Books (mark_expired now)
unfolding mark_expired
mark_expired-Books now = search (books_rules, update_subscriptions-Books) depth 10
