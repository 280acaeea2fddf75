-- ===== src/Extension/Money.antt =====
-- Extensions and the books: what is debited or was paid is either used or refunded.
use pix_vpn_service.Prelude.{ℕ, ◌≡◌, refl, Option, none, some}
use pix_vpn_service.Prelude.Int.{ℤ, pos, ◌+ℤ◌, ◌≤ℤ◌}
use pix_vpn_service.Db.{User, Subscription, Payment, Payload}
use pix_vpn_service.Session.{
  Session, Error, Result, ok, err, northline_unavailable, northline_client, return,
}
use pix_vpn_service.Session.Preserves.{
  Preserves, Preserves-raise, Preserves-bind, Preserves-on_error, then_preserves,
}
use pix_vpn_service.Session.Steps.{Ends, then_at, query_then}
use pix_vpn_service.Env.{Env}
use pix_vpn_service.Tables.{find_user, set_balance, update_payment}
use pix_vpn_service.Ledger.{Books}
use pix_vpn_service.Ledger.Frame.{books_rules, commit-Books, update_payment-Held}
use pix_vpn_service.Ledger.Entries.{close_posting, set_balance-Held, +ℤ_solvent, find_user_solvent}
use pix_vpn_service.Referral.Money.{enqueue_message-Books}
use pix_vpn_service.Extension.{
  notify, extend_after, call_northline_extend, refund_found, refund_extension, refund_if_northline,
  apply_to_subscription, apply_extension_after_payment,
}

module _ (env : Env) where
  pub notify-Books :
      (user : Option User) (payload : Payload) → Preserves Books (notify env user payload)
  unfolding notify
  notify-Books none payload = search books_rules
  notify-Books (some user) payload = search (books_rules, enqueue_message-Books)

  extend_after-Books :
      (r : Result (Unit {0})) (payment : Payment) (sub : Subscription)
      → Preserves Books (extend_after env r payment sub)
  unfolding extend_after
  extend_after-Books (err e) payment sub = search books_rules
  extend_after-Books (ok done) payment sub = search (books_rules, notify-Books)

  pub call_northline_extend-Books :
      (payment : Payment) (sub : Subscription)
      → Preserves Books (call_northline_extend env payment sub)
  unfolding call_northline_extend
  call_northline_extend-Books payment sub = extend_after-Books _ payment sub

  refund_found-Books :
      (row : Option User) (payment : Payment) (sid : ℕ) (amount : ℤ) (s : Session)
      → find_user payment.user_id s.live ≡ row
      → pos 0 ≤ℤ amount
      → Books s
      → Books (refund_found env row payment sid amount s).1
  unfolding refund_found return set_balance update_payment
  refund_found-Books none payment sid amount s found h b = b
  refund_found-Books (some u) payment sid amount s found h b =
      then_at (Ends Books) _ _ s tt _ refl (
        then_at (Ends Books) _ _ _ tt _ refl (
          then_preserves Books _ _ _
            (close_posting payment.user_id u s.live.users s.live.balance_transactions _ _ _ refl
              found refl refl
              (+ℤ_solvent u.balance_kopecks amount (find_user_solvent payment.user_id u s found b)
                h)
              b.live.balanced b.live.audited b.live.solvent
              ((update_payment-Held payment.id _ (λ p. refl)).from _
                (set_balance-Held payment.user_id (u.balance_kopecks +ℤ amount) s b)))
            (λ _. Preserves-bind _ _ (enqueue_message-Books _ _ _ _) (λ _. commit-Books))))

  pub refund_extension-Books :
      (payment : Payment) (sid : ℕ) (amount : ℤ)
      → pos 0 ≤ℤ amount
      → Preserves Books (refund_extension env payment sid amount)
  unfolding refund_extension
  refund_extension-Books payment sid amount h = record {
    from =
        λ s b. query_then (Ends Books) _ _ s (refund_found-Books _ payment sid amount s refl h b);
  }

  refund_if_northline-Books :
      (payment : Payment) (sid : ℕ) (e : Error)
      → pos 0 ≤ℤ payment.amount_kopecks
      → Preserves Books (refund_if_northline env payment sid e)
  unfolding refund_if_northline
  refund_if_northline-Books payment sid northline_unavailable h =
      refund_extension-Books payment sid payment.amount_kopecks h
  refund_if_northline-Books payment sid northline_client h =
      refund_extension-Books payment sid payment.amount_kopecks h
  refund_if_northline-Books payment sid e h = Preserves-raise e

  apply_to_subscription-Books :
      (row : Option Subscription) (payment : Payment)
      → pos 0 ≤ℤ payment.amount_kopecks
      → Preserves Books (apply_to_subscription env row payment)
  unfolding apply_to_subscription
  apply_to_subscription-Books none payment h = search books_rules
  apply_to_subscription-Books (some sub) payment h =
      Preserves-on_error _ _ (call_northline_extend-Books payment sub)
        (λ e. refund_if_northline-Books payment sub.id e h)

  -- A paid extension is carried out, or refunded to the balance with its transaction.
  pub apply_extension-Books :
      (payment : Payment)
      → pos 0 ≤ℤ payment.amount_kopecks
      → Preserves Books (apply_extension_after_payment env payment)
  unfolding apply_extension_after_payment
  apply_extension-Books payment h = search (books_rules, apply_to_subscription-Books)
