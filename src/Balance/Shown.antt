-- ===== src/Balance/Shown.antt =====
-- What the balance of one user is, and the writes of the balance service that leave it alone.
use pix_vpn_service.Prelude.{
  ℕ, ◌≡◌, refl, true, Option, none, some, find-update_where, find-test, ◌==◌,
}
use pix_vpn_service.Prelude.Int.{ℤ}
use pix_vpn_service.Db.{User, Subscription, Payment, PromoCode, PromoActivation, BalanceTransaction}
use pix_vpn_service.Session.{Session, commit}
use pix_vpn_service.Session.Preserves.{Preserves, preserves_rules}
use pix_vpn_service.Tables.{
  find_user, with_balance, set_balance, insert_transaction, insert_subscription, insert_payment,
  update_subscription, update_payment, insert_activation, increment_activations,
}
use pix_vpn_service.Promo.{record_activation, record_checked, record_discount_activation}

-- The user is there, with this balance.
pub record Shows (uid : ℕ) (b : ℤ) (s : Session) : Type 0 where
  pub user : User
  pub found : find_user uid s.live ≡ some user
  pub balance : user.balance_kopecks ≡ b

pub set_balance-Shows :
    (uid : ℕ) (b : ℤ) (u : User) (s : Session)
    → find_user uid s.live ≡ some u
    → Shows uid b (set_balance uid b s).1
unfolding set_balance
set_balance-Shows uid b u s found = record {
  user = with_balance b u;
  found =
      let same : (u.id == uid) ≡ true = find-test (λ v. v.id == uid) s.live.users u found in
      rw same at (
        find-update_where (λ v. v.id == uid) (λ v. v.id == uid) (with_balance b) s.live.users
          (λ v. refl) u found);
  balance = refl;
}

module _ {uid : ℕ} {b : ℤ} where
  pub insert_subscription-Shows :
      (make : ℕ → Subscription) → Preserves (Shows uid b) (insert_subscription make)
  unfolding insert_subscription
  insert_subscription-Shows make = record {
    from = λ s h. record { user = h.user; found = h.found; balance = h.balance };
  }

  pub insert_payment-Shows : (make : ℕ → Payment) → Preserves (Shows uid b) (insert_payment make)
  unfolding insert_payment
  insert_payment-Shows make = record {
    from = λ s h. record { user = h.user; found = h.found; balance = h.balance };
  }

  pub insert_transaction-Shows :
      (make : ℕ → BalanceTransaction) → Preserves (Shows uid b) (insert_transaction make)
  unfolding insert_transaction
  insert_transaction-Shows make = record {
    from = λ s h. record { user = h.user; found = h.found; balance = h.balance };
  }

  pub update_subscription-Shows :
      (sid : ℕ) (f : Subscription → Subscription)
      → Preserves (Shows uid b) (update_subscription sid f)
  unfolding update_subscription
  update_subscription-Shows sid f = record {
    from = λ s h. record { user = h.user; found = h.found; balance = h.balance };
  }

  pub update_payment-Shows :
      (pid : ℕ) (f : Payment → Payment) → Preserves (Shows uid b) (update_payment pid f)
  unfolding update_payment
  update_payment-Shows pid f = record {
    from = λ s h. record { user = h.user; found = h.found; balance = h.balance };
  }

  pub insert_activation-Shows :
      (make : ℕ → PromoActivation) → Preserves (Shows uid b) (insert_activation make)
  unfolding insert_activation
  insert_activation-Shows make = record {
    from = λ s h. record { user = h.user; found = h.found; balance = h.balance };
  }

  pub increment-Shows : (pid : ℕ) → Preserves (Shows uid b) (increment_activations pid)
  unfolding increment_activations
  increment-Shows pid = record {
    from = λ s h. record { user = h.user; found = h.found; balance = h.balance };
  }

  pub commit-Shows : Preserves (Shows uid b) commit
  unfolding commit
  commit-Shows = record {
    from = λ s h. record { user = h.user; found = h.found; balance = h.balance };
  }

pub ruleset shown_rules = (
  preserves_rules, insert_subscription-Shows, insert_payment-Shows, insert_transaction-Shows,
  update_subscription-Shows, update_payment-Shows, insert_activation-Shows, increment-Shows,
  commit-Shows,
)

module _ {uid : ℕ} {b : ℤ} where
  record_activation-Shows :
      (promo : PromoCode) (user pid : ℕ) (d : ℤ)
      → Preserves (Shows uid b) (record_activation promo user pid d)
  unfolding record_activation
  record_activation-Shows promo user pid d = search shown_rules

  record_checked-Shows :
      (promo : Option PromoCode) (user pid : ℕ) (d : ℤ)
      → Preserves (Shows uid b) (record_checked promo user pid d)
  unfolding record_checked
  record_checked-Shows none user pid d = search shown_rules
  record_checked-Shows (some promo) user pid d = search (shown_rules, record_activation-Shows)

  -- Recording a discount changes no balance.
  pub record_discount_activation-Shows :
      (promo_id user pid : ℕ) (d : ℤ)
      → Preserves (Shows uid b) (record_discount_activation promo_id user pid d)
  unfolding record_discount_activation
  record_discount_activation-Shows promo_id user pid d = search (shown_rules, record_checked-Shows)
