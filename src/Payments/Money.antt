-- ===== src/Payments/Money.antt =====
-- The webhook and the books.
use pix_vpn_service.Prelude.{ℕ, ◌≡◌, refl, String, Option, none, some, All-find}
use pix_vpn_service.Prelude.Int.{ℤ, pos, ◌+ℤ◌, ◌≤ℤ◌}
use pix_vpn_service.Db.{User, Purpose, PaymentStatus, Subscription, Payment}
use pix_vpn_service.Session.{Session, Result, ok, err, return}
use pix_vpn_service.Session.Preserves.{Preserves, then_preserves}
use pix_vpn_service.Session.Steps.{Ends, query_then, if_step}
use pix_vpn_service.Env.{Env, KeyResponse}
use pix_vpn_service.Tables.{find_user}
use pix_vpn_service.Ledger.{Books}
use pix_vpn_service.Ledger.Frame.{hold, books_rules}
use pix_vpn_service.Ledger.Entries.{post_entry-Books, +ℤ_solvent, find_user_solvent}
use pix_vpn_service.Promo.{record_discount_activation}
use pix_vpn_service.Promo.Money.{record_discount_activation-Held}
use pix_vpn_service.Referral.Money.{apply_referrer_bonus-Books}
use pix_vpn_service.Extension.Money.{notify-Books, apply_extension-Books}
use pix_vpn_service.Payments.{
  already_terminal, is_terminal, bonus_for, apply_referral_bonus_safe, record_promo,
  record_promo_activation_safe, provision_after, provision_found, provision_subscription_key,
  credit_found, credit_topup, deliver_paid, run_hooks, after_paid, handle_paid, fail_subscription,
  handle_failed, handle_expired, handle_status, process_found, process_webhook_payment,
}
use pix_vpn_service.Payments.Readings.{classify}

record_discount-Books :
    (promo_id uid pid : ℕ) (d : ℤ) → Preserves Books (record_discount_activation promo_id uid pid d)
record_discount-Books promo_id uid pid d =
    hold (λ us ts. record_discount_activation-Held promo_id uid pid d)

module _ (env : Env) where
  bonus_for-Books :
      (row : Option User) (payment : Payment) → Preserves Books (bonus_for env row payment)
  unfolding bonus_for
  bonus_for-Books none payment = search books_rules
  bonus_for-Books (some user) payment = apply_referrer_bonus-Books env user payment

  bonus_safe-Books : (payment : Payment) → Preserves Books (apply_referral_bonus_safe env payment)
  unfolding apply_referral_bonus_safe
  bonus_safe-Books payment = search (books_rules, bonus_for-Books)

  record_promo-Books :
      (promo_id : Option ℕ) (payment : Payment)
      → Preserves Books (record_promo env promo_id payment)
  unfolding record_promo
  record_promo-Books none payment = search books_rules
  record_promo-Books (some promo_id) payment = search (books_rules, record_discount-Books)

  promo_safe-Books :
      (payment : Payment) → Preserves Books (record_promo_activation_safe env payment)
  unfolding record_promo_activation_safe
  promo_safe-Books payment = record_promo-Books _ payment

  provision_after-Books :
      (r : Result KeyResponse) (payment : Payment) (sub : Subscription)
      → Preserves Books (provision_after env r payment sub)
  unfolding provision_after
  provision_after-Books (err e) payment sub = search (books_rules, notify-Books)
  provision_after-Books (ok key) payment sub = search (books_rules, notify-Books)

  provision_found-Books :
      (row : Option Subscription) (payment : Payment)
      → Preserves Books (provision_found env row payment)
  unfolding provision_found
  provision_found-Books none payment = search books_rules
  provision_found-Books (some sub) payment = search (books_rules, provision_after-Books)

  provision-Books : (payment : Payment) → Preserves Books (provision_subscription_key env payment)
  unfolding provision_subscription_key
  provision-Books payment = search (books_rules, provision_found-Books)

  credit_found-Books :
      (row : Option User) (payment : Payment) (s : Session)
      → find_user payment.user_id s.live ≡ row
      → pos 0 ≤ℤ payment.amount_kopecks
      → Books s
      → Books (credit_found env row payment s).1
  unfolding credit_found return
  credit_found-Books none payment s found h b = b
  credit_found-Books (some u) payment s found h b =
      then_preserves Books _ _ s
        (post_entry-Books payment.user_id u (u.balance_kopecks +ℤ payment.amount_kopecks) _ s found
          (λ n. refl) (λ n. refl) (λ n. refl)
          (+ℤ_solvent u.balance_kopecks payment.amount_kopecks
            (find_user_solvent payment.user_id u s found b) h)
          b)
        (λ _. notify-Books env _ _)

  credit_topup-Books :
      (payment : Payment)
      → pos 0 ≤ℤ payment.amount_kopecks
      → Preserves Books (credit_topup env payment)
  unfolding credit_topup
  credit_topup-Books payment h = record {
    from = λ s b. query_then (Ends Books) _ _ s (credit_found-Books _ payment s refl h b);
  }

  deliver_paid-Books :
      (purpose : Purpose) (payment : Payment)
      → pos 0 ≤ℤ payment.amount_kopecks
      → Preserves Books (deliver_paid env purpose payment)
  unfolding deliver_paid
  deliver_paid-Books Purpose.subscription payment h = provision-Books payment
  deliver_paid-Books Purpose.topup payment h = credit_topup-Books payment h
  deliver_paid-Books _ payment h = search books_rules

  run_hooks-Books : (payment : Payment) → Preserves Books (run_hooks env payment)
  unfolding run_hooks
  run_hooks-Books payment = search (books_rules, bonus_safe-Books, promo_safe-Books)

  handle_paid-Books :
      (payment : Payment) (raw : String)
      → pos 0 ≤ℤ payment.amount_kopecks
      → Preserves Books (handle_paid env payment raw)
  unfolding handle_paid after_paid
  handle_paid-Books payment raw h =
      search (books_rules, deliver_paid-Books, apply_extension-Books, run_hooks-Books) depth 8

  fail_subscription-Books : (sid : Option ℕ) → Preserves Books (fail_subscription env sid)
  unfolding fail_subscription
  fail_subscription-Books none = search books_rules
  fail_subscription-Books (some sid) = search books_rules

  handle_failed-Books :
      (payment : Payment) (raw : String) → Preserves Books (handle_failed env payment raw)
  unfolding handle_failed
  handle_failed-Books payment raw =
      search (books_rules, fail_subscription-Books, notify-Books) depth 8

  handle_expired-Books :
      (payment : Payment) (raw : String) → Preserves Books (handle_expired payment raw)
  unfolding handle_expired
  handle_expired-Books payment raw = search books_rules

  handle_status-Books :
      (status : Option PaymentStatus) (payment : Payment) (raw : String)
      → pos 0 ≤ℤ payment.amount_kopecks
      → Preserves Books (handle_status env status payment raw)
  unfolding handle_status
  handle_status-Books (some PaymentStatus.paid) payment raw h = handle_paid-Books payment raw h
  handle_status-Books (some PaymentStatus.failed) payment raw h = handle_failed-Books payment raw
  handle_status-Books (some PaymentStatus.expired) payment raw h = handle_expired-Books payment raw
  handle_status-Books (some PaymentStatus.pending) payment raw h = search books_rules
  handle_status-Books (some PaymentStatus.refunded) payment raw h = search books_rules
  handle_status-Books none payment raw h = search books_rules

  process_found-Books :
      (row : Option Payment) (status raw : String) (s : Session)
      → ((p : Payment) → row ≡ some p → pos 0 ≤ℤ p.amount_kopecks)
      → Books s
      → Books (process_found env row status raw s).1
  unfolding process_found return
  process_found-Books none status raw s charged b = b
  process_found-Books (some p) status raw s charged b =
      if_step (Ends Books) (is_terminal p.status) (return already_terminal)
        (handle_status env (classify status) p raw) s b
        ((handle_status-Books (classify status) p raw (charged p refl)).from s b)

  -- Whatever a provider reports, and however NorthLine answers, the webhook keeps the books in order.
  pub process_webhook_payment-Books :
      (external_id status raw : String)
      → Preserves Books (process_webhook_payment env external_id status raw)
  unfolding process_webhook_payment
  process_webhook_payment-Books external_id status raw = record {
    from = λ s b. query_then (Ends Books) _ _ s (
        process_found-Books _ status raw s
          (λ p found.
            All-find (λ (r : Payment). pos 0 ≤ℤ r.amount_kopecks) _ s.live.payments p b.live.charged
              found)
          b);
  }
