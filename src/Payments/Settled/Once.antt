-- ===== src/Payments/Settled/Once.antt =====
-- The webhook acts once on a payment: what it does after it has settled the payment keeps it settled.
use pix_vpn_service.Prelude.{
  ℕ, ◌≡◌, ◌⊎◌, refl, String, Option, none, some, inl, inr, Bool-cases, ◌==◌, ==_iff,
  find-update_where, if◌then◌else◌,
}
use pix_vpn_service.Prelude.Int.{ℤ}
use pix_vpn_service.Db.{
  Db, User, Purpose, PaymentStatus, Subscription, Payment, PromoCode, Referral, Payload,
}
use pix_vpn_service.Session.{
  Session, Error, Result, ok, err, northline_unavailable, northline_client, return, ◌>>=◌, request,
  commit,
}
use pix_vpn_service.Session.Preserves.{Preserves, Preserves-raise, Preserves-on_error}
use pix_vpn_service.Session.Steps.{Ends, then_at, then_each, query_then}
use pix_vpn_service.Env.{Env, KeyResponse}
use pix_vpn_service.Tables.{has_external_id, find_external, update_payment}
use pix_vpn_service.Promo.{record_activation, record_checked, record_discount_activation}
use pix_vpn_service.Outbox.{enqueue_message}
use pix_vpn_service.Referral.{pay_bonus, pay_unpaid, apply_referrer_bonus}
use pix_vpn_service.Extension.{
  notify, extend_after, call_northline_extend, refund_found, refund_extension, refund_if_northline,
  apply_to_subscription, apply_extension_after_payment,
}
use pix_vpn_service.Payments.{
  already_terminal, is_terminal, paid_at_time, bonus_for, apply_referral_bonus_safe, record_promo,
  record_promo_activation_safe, provision_after, provision_found, provision_subscription_key,
  credit_found, credit_topup, deliver_paid, run_hooks, after_paid, handle_paid, handle_status,
  process_found, process_webhook_payment,
}
use pix_vpn_service.Api.{webhook}
use pix_vpn_service.Payments.Readings.{classify}
use pix_vpn_service.Payments.Settled.{OnPayments, payment_rules, IsSettled, update-IsSettled}

abbrev Settled : Db → String → Session → Type 0
Settled db ext = OnPayments db (IsSettled ext)

module _ (db : Db) (env : Env) (ext : String) where
  refunded-Settled :
      (pid : ℕ)
      → Preserves
          (Settled db ext)
          (update_payment pid (λ p. record p { status = PaymentStatus.refunded }))
  unfolding update_payment
  refunded-Settled pid = record {
    from = λ s h. record {
      rows =
          update-IsSettled ext pid (λ p. record p { status = PaymentStatus.refunded })
            s.live.payments (λ p. refl) (λ p. refl) h.rows;
      kept = h.kept;
    };
  }

  enqueue-Settled :
      (now uid chat : ℕ) (payload : Payload)
      → Preserves (Settled db ext) (enqueue_message now uid chat payload)
  unfolding enqueue_message
  enqueue-Settled now uid chat payload = search payment_rules

  notify-Settled :
      (user : Option User) (payload : Payload)
      → Preserves (Settled db ext) (notify env user payload)
  unfolding notify
  notify-Settled none payload = search payment_rules
  notify-Settled (some user) payload = search (payment_rules, enqueue-Settled)

  record_checked-Settled :
      (row : Option PromoCode) (uid pid : ℕ) (d : ℤ)
      → Preserves (Settled db ext) (record_checked row uid pid d)
  unfolding record_checked record_activation
  record_checked-Settled none uid pid d = search payment_rules
  record_checked-Settled (some promo) uid pid d = search payment_rules depth 8

  record_promo-Settled :
      (row : Option ℕ) (payment : Payment)
      → Preserves (Settled db ext) (record_promo env row payment)
  unfolding record_promo record_discount_activation
  record_promo-Settled none payment = search payment_rules
  record_promo-Settled (some pid) payment = search (payment_rules, record_checked-Settled)

  pay_bonus-Settled :
      (row : Option User) (referral : Referral) (referee : User) (payment : Payment)
      → Preserves (Settled db ext) (pay_bonus env row referral referee payment)
  unfolding pay_bonus
  pay_bonus-Settled none referral referee payment = search payment_rules
  pay_bonus-Settled (some u) referral referee payment =
      search (payment_rules, enqueue-Settled) depth 8

  pay_unpaid-Settled :
      (row : Option Referral) (referee : User) (payment : Payment)
      → Preserves (Settled db ext) (pay_unpaid env row referee payment)
  unfolding pay_unpaid
  pay_unpaid-Settled none referee payment = search payment_rules
  pay_unpaid-Settled (some referral) referee payment = search (payment_rules, pay_bonus-Settled)

  bonus_for-Settled :
      (row : Option User) (payment : Payment)
      → Preserves (Settled db ext) (bonus_for env row payment)
  unfolding bonus_for apply_referrer_bonus
  bonus_for-Settled none payment = search payment_rules
  bonus_for-Settled (some u) payment = search (payment_rules, pay_unpaid-Settled)

  run_hooks-Settled : (payment : Payment) → Preserves (Settled db ext) (run_hooks env payment)
  unfolding run_hooks apply_referral_bonus_safe record_promo_activation_safe
  run_hooks-Settled payment =
      search (payment_rules, bonus_for-Settled, record_promo-Settled) depth 8

  extend_after-Settled :
      (r : Result (Unit {0})) (payment : Payment) (sub : Subscription)
      → Preserves (Settled db ext) (extend_after env r payment sub)
  unfolding extend_after
  extend_after-Settled (err e) payment sub = search payment_rules
  extend_after-Settled (ok done) payment sub = search (payment_rules, notify-Settled)

  refund_found-Settled :
      (row : Option User) (payment : Payment) (sid : ℕ) (amount : ℤ)
      → Preserves (Settled db ext) (refund_found env row payment sid amount)
  unfolding refund_found
  refund_found-Settled none payment sid amount = search payment_rules
  refund_found-Settled (some u) payment sid amount =
      search (payment_rules, refunded-Settled, enqueue-Settled) depth 8

  refund-Settled :
      (payment : Payment) (sid : ℕ) (e : Error)
      → Preserves (Settled db ext) (refund_if_northline env payment sid e)
  unfolding refund_if_northline refund_extension
  refund-Settled payment sid northline_unavailable = search (payment_rules, refund_found-Settled)
  refund-Settled payment sid northline_client = search (payment_rules, refund_found-Settled)
  refund-Settled payment sid e = Preserves-raise e

  apply_to_subscription-Settled :
      (row : Option Subscription) (payment : Payment)
      → Preserves (Settled db ext) (apply_to_subscription env row payment)
  unfolding apply_to_subscription call_northline_extend
  apply_to_subscription-Settled none payment = search payment_rules
  apply_to_subscription-Settled (some sub) payment =
      Preserves-on_error _ _ (extend_after-Settled _ payment sub) (refund-Settled payment sub.id)

  apply_extension-Settled :
      (payment : Payment) → Preserves (Settled db ext) (apply_extension_after_payment env payment)
  unfolding apply_extension_after_payment
  apply_extension-Settled payment = search (payment_rules, apply_to_subscription-Settled)

  provision_after-Settled :
      (r : Result KeyResponse) (payment : Payment) (sub : Subscription)
      → Preserves (Settled db ext) (provision_after env r payment sub)
  unfolding provision_after
  provision_after-Settled (err e) payment sub = search (payment_rules, notify-Settled)
  provision_after-Settled (ok key) payment sub = search (payment_rules, notify-Settled)

  provision_found-Settled :
      (row : Option Subscription) (payment : Payment)
      → Preserves (Settled db ext) (provision_found env row payment)
  unfolding provision_found
  provision_found-Settled none payment = search payment_rules
  provision_found-Settled (some sub) payment = search (payment_rules, provision_after-Settled)

  credit_found-Settled :
      (row : Option User) (payment : Payment)
      → Preserves (Settled db ext) (credit_found env row payment)
  unfolding credit_found
  credit_found-Settled none payment = search payment_rules
  credit_found-Settled (some u) payment = search (payment_rules, notify-Settled)

  deliver_paid-Settled :
      (purpose : Purpose) (payment : Payment)
      → Preserves (Settled db ext) (deliver_paid env purpose payment)
  unfolding deliver_paid provision_subscription_key credit_topup
  deliver_paid-Settled Purpose.subscription payment =
      search (payment_rules, provision_found-Settled)
  deliver_paid-Settled Purpose.topup payment = search (payment_rules, credit_found-Settled)
  deliver_paid-Settled _ payment = search payment_rules

  after_paid-Settled : (payment : Payment) → Preserves (Settled db ext) (after_paid env payment)
  unfolding after_paid
  after_paid-Settled payment =
      search (payment_rules, apply_extension-Settled, deliver_paid-Settled, run_hooks-Settled)

  handle_paid-settles :
      (p : Payment) (raw : String) (s : Session)
      → find_external ext s.live ≡ some p
      → s.saved ≡ db
      → Settled db ext (handle_paid env p raw s).1
  unfolding handle_paid update_payment
  handle_paid-settles p raw s found began =
      let f = paid_at_time env.now raw in
      then_at (Ends (Settled db ext)) _ _ s tt _ refl (
        (after_paid-Settled (f p)).from _ (record {
          rows = (
            if p.id == p.id then f p else p,
            find-update_where (has_external_id ext) (λ r. r.id == p.id) f s.live.payments
                (λ r. refl) p found,
            rw ((==_iff p.id p.id).1 refl) refl,
          );
          kept = inl began;
        }))

  -- A settled payment is left alone, whatever the webhook reports.
  settled_ignored :
      (status raw : String) (s : Session)
      → IsSettled ext s.live.payments
      → process_webhook_payment env ext status raw s ≡ (ok already_terminal, s)
  unfolding process_webhook_payment process_found return ◌>>=◌
  settled_ignored status raw s (p, found, terminal) = rw (found, process_found) (rw terminal)

  process_settles :
      (status raw : String) (s : Session) (p : Payment)
      → find_external ext s.live ≡ some p
      → classify status ≡ some PaymentStatus.paid
      → s.saved ≡ db
      → Settled db ext (process_webhook_payment env ext status raw s).1
  unfolding process_webhook_payment process_found return handle_status
  process_settles status raw s p found paid began = query_then (Ends (Settled db ext)) _ _ s (
      rw (found, process_found)
        (elim (Bool-cases (is_terminal p.status)) [
          | inl terminal ↦ rw terminal (record { rows = (p, found, terminal); kept = inl began })
          | inr open_payment ↦
              rw (open_payment, paid, handle_status) (handle_paid-settles p raw s found began)
        ]))

-- In a session in which a known payment has been reported as paid, one more report is a duplicate.
pub webhook_repeated :
    (env env' : Env) (ext status status' raw raw' : String) (s : Session) (p : Payment)
    → find_external ext s.live ≡ some p
    → classify status ≡ some PaymentStatus.paid
    → let s' = (process_webhook_payment env ext status raw s).1 in
      process_webhook_payment env' ext status' raw' s' ≡ (ok already_terminal, s')
webhook_repeated env env' ext status status' raw raw' s p found paid =
    settled_ignored s.saved env' ext status' raw' _
      (process_settles s.saved env ext status raw s p found paid refl).rows

-- A request that failed and left the database as it was, or one after which reports are duplicates.
abbrev pub UndoneOrOnce : Db → String → Result (Unit {0}) × Db → Type 0
UndoneOrOnce db ext (r, db') =
    ((e : Error) × (r ≡ err e) × (db' ≡ db))
    ⊎ ((env : Env) (status raw : String)
        → let s : Session = record { live = db'; saved = db' } in
          process_webhook_payment env ext status raw s ≡ (ok already_terminal, s))

-- After a request that reports a known payment as paid either the request has failed and the database
-- is as it was, or every later report about the payment, by whatever status, is answered as a duplicate
-- and changes nothing.
pub webhook_once :
    (env : Env) (ext status raw : String) (db : Db) (p : Payment)
    → find_external ext db ≡ some p
    → classify status ≡ some PaymentStatus.paid
    → UndoneOrOnce db ext (request (webhook env ext status raw) db)
unfolding request webhook commit
webhook_once env ext status raw db p found paid =
    let s : Session = record { live = db; saved = db } in
    let settled = process_settles db env ext status raw s p found paid refl in
    then_each (λ o. UndoneOrOnce db ext (o.0, o.1.saved)) _ _ s
      (λ e failed. elim settled.kept [
        | inl same ↦ inl (e, refl, same)
        | inr rows ↦ inr (λ env' status' raw'. settled_ignored db env' ext status' raw' _ rows)
      ])
      (λ a done. inr (λ env' status' raw'. settled_ignored db env' ext status' raw' _ settled.rows))
