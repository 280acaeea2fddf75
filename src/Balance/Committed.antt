-- ===== src/Balance/Committed.antt =====
-- A purchase from the balance ends with nothing that is not committed.
use pix_vpn_service.Prelude.{ℕ, ◌≡◌, refl, Option, none, some}
use pix_vpn_service.Prelude.Int.{ℤ}
use pix_vpn_service.Db.{User, Tariff, TariffDuration}
use pix_vpn_service.Session.{
  Session, Result, ok, err, Error, northline_unavailable, northline_client, return, raise, query,
  or_raise, modify, best_effort, commit, ◌>>=◌,
}
use pix_vpn_service.Session.Steps.{then_at, query_then, read_then, raise_if_then}
use pix_vpn_service.Env.{Env, KeyResponse}
use pix_vpn_service.Tables.{
  find_user, lock_user, set_balance, insert_transaction, insert_subscription, insert_payment,
  update_subscription, update_payment,
}
use pix_vpn_service.Tariffs.{Quote}
use pix_vpn_service.Tariffs.Quotes.{get_tariff-reads, get_duration-reads}
use pix_vpn_service.Balance.{
  Purchase, settle_promo, record_purchase, debit_purchase, refund_after_failure, deliver_key,
  deliver,
}
use pix_vpn_service.Balance.Charged.{lock_finds}

-- What is seen is what is committed.
abbrev pub IsSynced : {A : Type 0} → Result A × Session → Type 0
IsSynced (r, s) = s.saved ≡ s.live

record_purchase-IsSynced :
    (env : Env) (user : User) (tariff : Tariff) (duration : TariffDuration) (q : Quote) (b : ℤ)
    (s : Session)
    → IsSynced (record_purchase env user tariff duration q b s)
unfolding record_purchase insert_subscription insert_payment insert_transaction commit return ◌>>=◌
    settle_promo best_effort
record_purchase-IsSynced env user tariff duration q b s = go q.applied refl
  where
    go :
        (x : Option (ℕ × ℤ))
        → q.applied ≡ x
        → IsSynced (record_purchase env user tariff duration q b s)
    go none e = rw e refl
    go (some x) e = rw e refl

-- The first transaction commits at its end, and a refusal has written nothing.
pub debit_purchase-IsSynced :
    (env : Env) (user : User) (tid did : ℕ) (promo_id : Option ℕ) (u : User) (s : Session)
    → find_user user.id s.live ≡ some u
    → s.saved ≡ s.live
    → IsSynced (debit_purchase env user tid did promo_id s)
unfolding debit_purchase set_balance
debit_purchase-IsSynced env user tid did promo_id u s found same =
    read_then IsSynced _ _ s (get_tariff-reads tid s) (λ _ _. same)
      λ tariff _.
        read_then IsSynced _ _ s (get_duration-reads tid did s) (λ _ _. same)
          λ duration _. query_then IsSynced _ _ s (
            then_at IsSynced _ _ s u s (lock_finds user.id u s found) (
              raise_if_then IsSynced _ _ _ s (λ _. same)
                λ _.
                  then_at IsSynced _ _ s tt _ refl
                    (record_purchase-IsSynced env user tariff duration _ _ _)))

refund-IsSynced :
    (uid sid pid : ℕ) (price : ℤ) (u : User) (e : Error) (s : Session)
    → find_user uid s.live ≡ some u
    → IsSynced ((refund_after_failure uid sid pid price >>= λ _. raise {A = ℕ × ℤ × ℕ} e) s)
unfolding refund_after_failure lock_user query or_raise set_balance update_subscription
    update_payment insert_transaction modify commit return raise ◌>>=◌
refund-IsSynced uid sid pid price u e s found = rw found refl

pub deliver-IsSynced :
    (env : Env) (user u : User) (p : Purchase) (r : Result KeyResponse) (s : Session)
    → find_user user.id s.live ≡ some u
    → s.saved ≡ s.live
    → IsSynced (deliver env user p r s)
unfolding deliver deliver_key update_subscription commit return raise ◌>>=◌
deliver-IsSynced env user u p (ok key) s found same = refl
deliver-IsSynced env user u p (err northline_unavailable) s found same =
    refund-IsSynced user.id p.sub.id p.payment.id p.price u _ s found
deliver-IsSynced env user u p (err northline_client) s found same =
    refund-IsSynced user.id p.sub.id p.payment.id p.price u _ s found
deliver-IsSynced env user u p (err e) s found same = same
