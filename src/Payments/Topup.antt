-- ===== src/Payments/Topup.antt =====
-- A top-up that its provider reports as paid is credited.
use pix_vpn_service.Prelude.{ℕ, ◌≡◌, refl, true, false, String, some}
use pix_vpn_service.Prelude.Int.{ℤ, ◌+ℤ◌}
use pix_vpn_service.Db.{Payment, PaymentStatus, Purpose, User}
use pix_vpn_service.Session.{Session, Result, ok, query, return, ◌>>=◌}
use pix_vpn_service.Session.Steps.{query_then, then_at}
use pix_vpn_service.Env.{Env}
use pix_vpn_service.Tables.{
  find_user, find_external, post_entry, set_balance, insert_transaction, insert_outbox,
  update_payment,
}
use pix_vpn_service.Outbox.{enqueue_message}
use pix_vpn_service.Extension.{notify}
use pix_vpn_service.Balance.Shown.{Shows, set_balance-Shows}
use pix_vpn_service.Referral.{is_topup}
use pix_vpn_service.Payments.Settled.Once.{webhook_repeated}
use pix_vpn_service.Payments.{
  Answer, settled, is_terminal, paid_at_time, credit_found, credit_topup, deliver_paid, run_hooks,
  after_paid, handle_paid, handle_status, process_found, process_webhook_payment,
}
use pix_vpn_service.Payments.Readings.{pays_extension, classify}

-- Answered as paid, and the user's row shows this balance.
abbrev Credited : ℕ → ℕ → ℤ → Result Answer × Session → Type 0
Credited pid uid b o = (o.0 ≡ ok (settled pid PaymentStatus.paid)) × Shows uid b o.1

module _ (env : Env) where
  credit_found-Shows :
      (p : Payment) (u : User) (s : Session)
      → find_user p.user_id s.live ≡ some u
      → Shows p.user_id (u.balance_kopecks +ℤ p.amount_kopecks) (credit_found env (some u) p s).1
  unfolding credit_found notify post_entry set_balance insert_transaction enqueue_message
      insert_outbox ◌>>=◌
  credit_found-Shows p u s found =
      let shown = set_balance-Shows p.user_id (u.balance_kopecks +ℤ p.amount_kopecks) u s found in
      record { user = shown.user; found = shown.found; balance = shown.balance }

  credit_topup_runs :
      (p : Payment) (u : User) (s : Session)
      → find_user p.user_id s.live ≡ some u
      → credit_topup env p s ≡ (ok tt, (credit_found env (some u) p s).1)
  unfolding credit_topup credit_found notify post_entry set_balance insert_transaction
      enqueue_message insert_outbox query return ◌>>=◌
  credit_topup_runs p u s found = rw found refl

  delivers_topup :
      (p : Payment) (q : Purpose) → q ≡ Purpose.topup → deliver_paid env q p ≡ credit_topup env p
  unfolding deliver_paid
  delivers_topup p q topup = rw topup refl

  no_extension : (p : Payment) → p.purpose ≡ Purpose.topup → pays_extension p ≡ false
  no_extension p topup = rw topup refl

  no_hooks : (p : Payment) → p.purpose ≡ Purpose.topup → run_hooks env p ≡ return tt
  unfolding run_hooks
  no_hooks p topup = let no_order : is_topup p.purpose ≡ true = rw topup refl in rw no_order refl

  after_paid-Credited :
      (p : Payment) (u : User) (s : Session)
      → p.purpose ≡ Purpose.topup
      → find_user p.user_id s.live ≡ some u
      → Credited p.id p.user_id (u.balance_kopecks +ℤ p.amount_kopecks) (after_paid env p s)
  unfolding after_paid return
  after_paid-Credited p u s topup found =
      rw (no_extension p topup, delivers_topup p p.purpose topup, no_hooks p topup)
        (then_at (Credited p.id p.user_id (u.balance_kopecks +ℤ p.amount_kopecks)) _ _ s tt _
          (credit_topup_runs p u s found)
          (then_at (Credited p.id p.user_id (u.balance_kopecks +ℤ p.amount_kopecks)) _ _ _ tt _ refl
            (refl, credit_found-Shows p u s found)))

  -- A webhook that reports as paid a top-up that is not settled yet, of a user who has a row, is
  -- answered so, and the user's row shows the old balance with the payment's amount added.
  pub topup-Credited :
      (ext status raw : String) (s : Session) (p : Payment) (u : User)
      → find_external ext s.live ≡ some p
      → is_terminal p.status ≡ false
      → p.purpose ≡ Purpose.topup
      → find_user p.user_id s.live ≡ some u
      → classify status ≡ some PaymentStatus.paid
      → ((process_webhook_payment env ext status raw s).0 ≡ ok (settled p.id PaymentStatus.paid))
        × Shows p.user_id
            (u.balance_kopecks +ℤ p.amount_kopecks)
            (process_webhook_payment env ext status raw s).1
  unfolding process_webhook_payment process_found handle_status handle_paid update_payment
  topup-Credited ext status raw s p u found open_payment topup user paid =
      query_then (Credited p.id p.user_id (u.balance_kopecks +ℤ p.amount_kopecks)) _ _ s (
        rw (found, open_payment, paid)
          (then_at (Credited p.id p.user_id _) _ _ s tt _ refl
            (after_paid-Credited (paid_at_time env.now raw p) u _ topup user)))

-- However often providers repeat their webhooks, a top-up is credited once: after a paid webhook and
-- one more webhook for the payment, by whatever status, the user's row shows the old balance with the
-- payment's amount added one time.
pub topup_once-Shows :
    (env env' : Env) (ext status status' raw raw' : String) (s : Session) (p : Payment) (u : User)
    → find_external ext s.live ≡ some p
    → is_terminal p.status ≡ false
    → p.purpose ≡ Purpose.topup
    → find_user p.user_id s.live ≡ some u
    → classify status ≡ some PaymentStatus.paid
    → let s' = (process_webhook_payment env ext status raw s).1 in
      Shows p.user_id
        (u.balance_kopecks +ℤ p.amount_kopecks)
        (process_webhook_payment env' ext status' raw' s').1
topup_once-Shows env env' ext status status' raw raw' s p u found open_payment topup user paid =
    rw (webhook_repeated env env' ext status status' raw raw' s p found paid)
      (topup-Credited env ext status raw s p u found open_payment topup user paid).1
