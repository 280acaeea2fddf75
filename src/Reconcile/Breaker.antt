-- ===== src/Reconcile/Breaker.antt =====
-- Where NorthLine knows no key any more, the breaker keeps the subscriptions as they are.
use Prim.Native.String.{String}
use pix_vpn_service.Prelude.{
  ℕ, ◌+◌, ◌≤◌, ◌≡◌, refl, sym, Bool, true, false, not, Option, List, [], ◌∷◌, arith, inl, inr,
  Bool-cases, count_where, leb,
}
use pix_vpn_service.Db.{Db, Subscription}
use pix_vpn_service.Session.{Session, Result, err, missing_greenlet, Action, raise, ◌>>=◌, modify}
use pix_vpn_service.Session.Steps.{query_then}
use pix_vpn_service.Tables.{update_subscription}
use pix_vpn_service.Reconcile.{
  ReconcileResult, KeyAnswer, threshold, is_test_id, unknown_key, verdict, rollback, on_unknown,
  after_verdict, after_skip, verdict_of, reconcile_rows, batch_rows, reconcile_batch,
  reconcile_subscriptions, nothing_done,
}

-- The run raises behind its rollback, and leaves this database, live and committed.
abbrev pub Aborted : Db → Result ReconcileResult × Session → Type 0
Aborted db o = o ≡ (err missing_greenlet, record { live = db; saved = db })

abbrev pub is_real : Subscription → Bool
is_real sub = not (is_test_id sub.provider_subscription_id)

on_unknown-Aborted :
    (now : ℕ) (trips : Bool) (code : String) (sub : Subscription)
    (next : ℕ → ReconcileResult → Action ReconcileResult) (n : ℕ) (r : ReconcileResult)
    (s : Session)
    → (trips ≡ false
        → (s' : Session) → s'.saved ≡ s.saved
        → Aborted s.saved (next n (record r { flipped = r.flipped + 1 }) s'))
    → Aborted s.saved (on_unknown now trips code sub next n r s)
unfolding on_unknown rollback raise update_subscription modify ◌>>=◌
on_unknown-Aborted now true code sub next n r s later = refl
on_unknown-Aborted now false code sub next n r s later = later refl _ refl

module _ (now : ℕ) (lower : String → String) (get_key : String → KeyAnswer) (code : String → String)
    (none_known : (key : String) (e : Option ℕ)
      → verdict lower (get_key key) e ≡ unknown_key (code key)) where
  rows-Aborted :
      (rows : List Subscription) (n : ℕ) (r : ReconcileResult) (s : Session)
      → n ≤ 2
      → 3 ≤ n + count_where is_real rows
      → Aborted s.saved (reconcile_rows now lower get_key rows n r s)
  unfolding reconcile_rows verdict_of after_skip after_verdict
  rows-Aborted [] n r s few enough = absurd (omega arith)
  rows-Aborted (sub ∷ rest) n r s few enough =
      elim (Bool-cases (is_test_id sub.provider_subscription_id)) [
        | inl t ↦ rw t (rows-Aborted rest n _ s few (ground arith))
        | inr f ↦
            rw (f, none_known)
              (on_unknown-Aborted now (leb threshold (n + 1)) _ sub
                (reconcile_rows now lower get_key rest) (n + 1) _ s
                (λ calm s' same.
                  rw (sym same) (rows-Aborted rest (n + 1) _ s' (ground arith) (ground arith))))
      ]

  batch-Aborted :
      (rows : List Subscription) (s : Session)
      → 3 ≤ count_where is_real rows
      → Aborted s.saved (reconcile_batch now lower get_key rows s)
  batch-Aborted [] s enough = absurd (omega arith)
  batch-Aborted (sub ∷ rest) s enough =
      rows-Aborted (sub ∷ rest) 0 nothing_done s (omega arith) (omega (arith, enough))

-- Where NorthLine answers for each key that it does not know it, and at least three subscriptions of
-- the batch have a key that is not a test key, the run ends with the exception of the breaker, and leaves
-- the database as it was last committed: no subscription is changed.
pub reconcile_subscriptions-Aborted :
    (now : ℕ) (lower : String → String) (get_key : String → KeyAnswer) (code : String → String)
    (before : Subscription → Subscription → Bool) (batch_size : ℕ) (s : Session)
    → ((key : String) (e : Option ℕ) → verdict lower (get_key key) e ≡ unknown_key (code key))
    → 3 ≤ count_where is_real (batch_rows before batch_size s.live)
    → Aborted s.saved (reconcile_subscriptions now lower get_key before batch_size s)
unfolding reconcile_subscriptions
reconcile_subscriptions-Aborted now lower get_key code before batch_size s none_known enough =
    query_then (Aborted s.saved) _ _ s (batch-Aborted now lower get_key code none_known _ s enough)
