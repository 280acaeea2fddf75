-- ===== src/Payments/Settled.antt =====
-- A payment that the webhook has settled stays settled: providers repeat their webhooks.
pub mod Once
use pix_vpn_service.Prelude.{
  ℕ, ◌≡◌, ◌⊎◌, inl, inr, refl, ap, Bool, true, false, ◌&&◌, String, Option, none, some, List, arith,
  find, update_where, find-update_where, ◌==◌, ==_iff, if◌then◌else◌,
}
use pix_vpn_service.Prelude.Int.{ℤ}
use pix_vpn_service.Db.{
  Db, Payment, PaymentStatus, Subscription, PromoActivation, Referral, OutboxMessage,
  BalanceTransaction,
}
use pix_vpn_service.Session.{Session, commit}
use pix_vpn_service.Session.Preserves.{Preserves, preserves_rules}
use pix_vpn_service.Tables.{
  has_external_id, set_balance, insert_transaction, post_entry, update_subscription, update_payment,
  insert_activation, increment_activations, update_referral, insert_outbox,
}
use pix_vpn_service.Outbox.{enqueue_message}
use pix_vpn_service.Payments.{is_terminal}

-- What is known of the payments alone. What is committed is the database that the request began with,
-- or has such payments too.
pub record OnPayments (db : Db) (Q : List Payment → Type 0) (s : Session) : Type 0 where
  pub rows : Q s.live.payments
  pub kept : (s.saved ≡ db) ⊎ Q s.saved.payments

module _ {db : Db} {Q : List Payment → Type 0} where
  pub set_balance-OnPayments : (uid : ℕ) (b : ℤ) → Preserves (OnPayments db Q) (set_balance uid b)
  unfolding set_balance
  set_balance-OnPayments uid b = record { from = λ s h. record { rows = h.rows; kept = h.kept } }

  pub insert_transaction-OnPayments :
      (make : ℕ → BalanceTransaction) → Preserves (OnPayments db Q) (insert_transaction make)
  unfolding insert_transaction
  insert_transaction-OnPayments make = record {
    from = λ s h. record { rows = h.rows; kept = h.kept };
  }

  pub post_entry-OnPayments :
      (uid : ℕ) (b : ℤ) (make : ℕ → BalanceTransaction)
      → Preserves (OnPayments db Q) (post_entry uid b make)
  unfolding post_entry
  post_entry-OnPayments uid b make = record {
    from = λ s h. record { rows = h.rows; kept = h.kept };
  }

  pub update_subscription-OnPayments :
      (sid : ℕ) (f : Subscription → Subscription)
      → Preserves (OnPayments db Q) (update_subscription sid f)
  unfolding update_subscription
  update_subscription-OnPayments sid f = record {
    from = λ s h. record { rows = h.rows; kept = h.kept };
  }

  pub insert_activation-OnPayments :
      (make : ℕ → PromoActivation) → Preserves (OnPayments db Q) (insert_activation make)
  unfolding insert_activation
  insert_activation-OnPayments make = record {
    from = λ s h. record { rows = h.rows; kept = h.kept };
  }

  pub increment-OnPayments : (pid : ℕ) → Preserves (OnPayments db Q) (increment_activations pid)
  unfolding increment_activations
  increment-OnPayments pid = record { from = λ s h. record { rows = h.rows; kept = h.kept } }

  pub update_referral-OnPayments :
      (rid : ℕ) (f : Referral → Referral) → Preserves (OnPayments db Q) (update_referral rid f)
  unfolding update_referral
  update_referral-OnPayments rid f = record {
    from = λ s h. record { rows = h.rows; kept = h.kept };
  }

  pub insert_outbox-OnPayments :
      (make : ℕ → OutboxMessage) → Preserves (OnPayments db Q) (insert_outbox make)
  unfolding insert_outbox
  insert_outbox-OnPayments make = record { from = λ s h. record { rows = h.rows; kept = h.kept } }

  pub commit-OnPayments : Preserves (OnPayments db Q) commit
  unfolding commit
  commit-OnPayments = record { from = λ s h. record { rows = h.rows; kept = inr h.rows } }

pub ruleset payment_rules = (
  preserves_rules, set_balance-OnPayments, insert_transaction-OnPayments, post_entry-OnPayments,
  update_subscription-OnPayments, insert_activation-OnPayments, increment-OnPayments,
  update_referral-OnPayments, insert_outbox-OnPayments, commit-OnPayments,
)

-- The payment with this external id is there, and paid or refunded.
abbrev pub IsSettled : String → List Payment → Type 0
IsSettled ext ps =
    (p : Payment) × (find (has_external_id ext) ps ≡ some p) × (is_terminal p.status ≡ true)

terminal_if :
    (b : Bool) (p q : Payment)
    → is_terminal p.status ≡ true
    → is_terminal q.status ≡ true
    → is_terminal (if b then p else q).status ≡ true
terminal_if true p q hp hq = hp
terminal_if false p q hp hq = hq

-- An update that keeps the external ids and writes a terminal status keeps a payment settled.
pub update-IsSettled :
    (ext : String) (pid : ℕ) (f : Payment → Payment) (ps : List Payment)
    → ((p : Payment) → has_external_id ext (f p) ≡ has_external_id ext p)
    → ((p : Payment) → is_terminal (f p).status ≡ true)
    → IsSettled ext ps
    → IsSettled ext (update_where (λ p. p.id == pid) f ps)
update-IsSettled ext pid f ps same terminal (p, found, settled) = (
  _,
  find-update_where (has_external_id ext) (λ r. r.id == pid) f ps same p found,
  terminal_if (p.id == pid) (f p) p (terminal p) settled,
)
