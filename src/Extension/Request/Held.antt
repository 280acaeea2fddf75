-- ===== src/Extension/Request/Held.antt =====
-- What NorthLine's answer to an extension leaves of the payments and the transactions: all of them,
-- where the request goes on.
use pix_vpn_service.Prelude.{ℕ, ◌≡◌, Option, none, some, List}
use pix_vpn_service.Prelude.Int.{ℤ}
use pix_vpn_service.Db.{Payment, Payload, BalanceTransaction, User, Subscription}
use pix_vpn_service.Session.{
  Session, Result, ok, err, Error, northline_unavailable, northline_client, return, raise, query,
  modify, caught, ◌>>=◌,
}
use pix_vpn_service.Session.Returns.{Returns, Returns-raise, Returns-bind}
use pix_vpn_service.Env.{Env}
use pix_vpn_service.Tables.{insert_outbox, update_subscription}
use pix_vpn_service.Outbox.{enqueue_message}
use pix_vpn_service.Extension.{notify, extend_after}
use pix_vpn_service.Extension.Request.{refund_and_raise}

-- The payments and the transactions are these.
abbrev pub Holds : List Payment → List BalanceTransaction → Session → Type 0
Holds ps ts s = (s.live.payments ≡ ps) × (s.live.balance_transactions ≡ ts)

module _ (env : Env) where
  notify-Holds :
      (ps : List Payment) (ts : List BalanceTransaction) (o : Option User) (payload : Payload)
      (s : Session)
      → Holds ps ts s
      → Holds ps ts (notify env o payload s).1
  unfolding notify enqueue_message insert_outbox return ◌>>=◌
  notify-Holds ps ts none payload s h = h
  notify-Holds ps ts (some u) payload s h = h

  pub extend_after-Holds :
      (ps : List Payment) (ts : List BalanceTransaction) (r : Result (Unit {0})) (p : Payment)
      (sub : Subscription) (s : Session)
      → Holds ps ts s
      → Holds ps ts (extend_after env r p sub s).1
  unfolding extend_after update_subscription modify query raise ◌>>=◌
  extend_after-Holds ps ts (err e) p sub s h = h
  extend_after-Holds ps ts (ok done) p sub s h = notify-Holds ps ts _ _ _ h

  -- An extension that NorthLine refuses is refunded, and the exception goes on.
  refund_raises :
      (p : Payment) (sid : ℕ) (amount : ℤ) (e : Error)
      → Returns (λ _. ⊥) (refund_and_raise env p sid amount e)
  unfolding refund_and_raise
  refund_raises p sid amount northline_unavailable = Returns-bind _ _ (λ _. Returns-raise _)
  refund_raises p sid amount northline_client = Returns-bind _ _ (λ _. Returns-raise _)
  refund_raises p sid amount e = Returns-raise e

  pub caught-Holds :
      (ps : List Payment) (ts : List BalanceTransaction) (r : Result (Unit {0})) (p : Payment)
      (sid : ℕ) (amount : ℤ) (s : Session) (a : Unit {0})
      → Holds ps ts s
      → (caught r (refund_and_raise env p sid amount) s).0 ≡ ok a
      → Holds ps ts (caught r (refund_and_raise env p sid amount) s).1
  unfolding caught
  caught-Holds ps ts (ok b) p sid amount s a h done = h
  caught-Holds ps ts (err e) p sid amount s a h done =
      absurd ((refund_raises p sid amount e).from s a done)
