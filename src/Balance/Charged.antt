-- ===== src/Balance/Charged.antt =====
-- What the first transaction of a purchase from the balance costs.
use pix_vpn_service.Prelude.{ℕ, ◌≡◌, refl, ◌⊎◌, Option, none, some}
use pix_vpn_service.Prelude.Int.{ℤ, ◌+ℤ◌, ◌-ℤ◌, int_laws}
use pix_vpn_service.Db.{User, Tariff, TariffDuration}
use pix_vpn_service.Session.{
  Session, Result, ok, err, Error, northline_unavailable, northline_client, return, ◌>>=◌,
  best_effort, commit, query, or_raise,
}
use pix_vpn_service.Session.Preserves.{Preserves}
use pix_vpn_service.Session.Steps.{then_at, query_then, read_then, raise_if_then}
use pix_vpn_service.Env.{Env, KeyRequest}
use pix_vpn_service.Tables.{
  find_user, find_duration, lock_user, set_balance, insert_transaction, insert_subscription,
  insert_payment,
}
use pix_vpn_service.Tariffs.{Quote, quote, chosen_promo}
use pix_vpn_service.Tariffs.Quotes.{get_tariff-reads, get_duration-reads, get_duration-finds}
use pix_vpn_service.Balance.{Purchase, settle_promo, record_purchase, debit_purchase}
use pix_vpn_service.Balance.Shown.{
  Shows, set_balance-Shows, shown_rules, record_discount_activation-Shows,
}

-- The client of NorthLine raises its own two errors only (backend/app/services/northline_client.py).
-- So it is while the bodies that NorthLine sends are the ones that its schemas describe.
abbrev pub RaisesItsOwn : Env → Type 0
RaisesItsOwn env =
    (r : KeyRequest) (e : Error)
    → env.create_key r ≡ err e
    → (e ≡ northline_unavailable) ⊎ (e ≡ northline_client)

-- An outcome that charges the price and returns what is left, or fails and charges nothing.
abbrev pub PaidOrKept : ℕ → ℤ → ℤ → Result (ℕ × ℤ × ℕ) × Session → Type 0
PaidOrKept uid b price (ok (sub_id, after, payment_id), s) =
    (after ≡ b -ℤ price) × Shows uid after s
PaidOrKept uid b price (err e, s) = Shows uid b s

-- The first transaction of a purchase: debited, or refused.
abbrev pub Debited : ℕ → ℤ → ℤ → Result Purchase × Session → Type 0
Debited uid b price (ok p, s) =
    (p.price ≡ price) × (p.balance_after ≡ b -ℤ price) × Shows uid (b -ℤ price) s
Debited uid b price (err e, s) = Shows uid b s

pub minus_plus : (a b : ℤ) → a -ℤ b +ℤ b ≡ a
minus_plus a b = grind int_laws

pub lock_finds :
    (uid : ℕ) (u : User) (s : Session) → find_user uid s.live ≡ some u → lock_user uid s ≡ (ok u, s)
unfolding lock_user query or_raise return ◌>>=◌
lock_finds uid u s found = rw found refl

module _ (env : Env) where
  settle_promo-Shows :
      {uid : ℕ} {b : ℤ} (applied : Option (ℕ × ℤ)) (user pid : ℕ) (d : ℤ)
      → Preserves (Shows uid b) (settle_promo env applied user pid d)
  unfolding settle_promo
  settle_promo-Shows none user pid d = search shown_rules
  settle_promo-Shows (some (promo, percent)) user pid d =
      search (shown_rules, record_discount_activation-Shows)

  record_purchase-Shows :
      {uid : ℕ} {b : ℤ} (user : User) (tariff : Tariff) (duration : TariffDuration) (q : Quote)
      (after : ℤ)
      → Preserves (Shows uid b) (record_purchase env user tariff duration q after)
  unfolding record_purchase
  record_purchase-Shows user tariff duration q after =
      search (shown_rules, settle_promo-Shows) depth 12

  -- The rows of a purchase are always written, for the quoted price.
  pub record_purchase_runs :
      (user : User) (tariff : Tariff) (duration : TariffDuration) (q : Quote) (b : ℤ) (s : Session)
      → (p : Purchase) × ((record_purchase env user tariff duration q b s).0 ≡ ok p)
        × (p.price ≡ q.price)
        × (p.balance_after ≡ b)
  unfolding record_purchase insert_subscription insert_payment insert_transaction commit return
      ◌>>=◌ settle_promo best_effort
  record_purchase_runs user tariff duration q b s = go q.applied refl
    where
      go :
          (x : Option (ℕ × ℤ))
          → q.applied ≡ x
          → (p : Purchase) × ((record_purchase env user tariff duration q b s).0 ≡ ok p)
            × (p.price ≡ q.price)
            × (p.balance_after ≡ b)
      go none e = rw e (_, refl, refl, refl)
      go (some x) e = rw e (_, refl, refl, refl)

  record_purchase-Debited :
      (user : User) (tariff : Tariff) (duration : TariffDuration) (q : Quote) (b : ℤ) (s : Session)
      → Shows user.id (b -ℤ q.price) s
      → Debited user.id b q.price (record_purchase env user tariff duration q (b -ℤ q.price) s)
  record_purchase-Debited user tariff duration q b s h =
      let (p, done, price, after) = record_purchase_runs user tariff duration q (b -ℤ q.price) s in
      go (record_purchase env user tariff duration q (b -ℤ q.price) s).0 p done price after
    where
      go :
          (r : Result Purchase) (p : Purchase)
          → r ≡ ok p
          → p.price ≡ q.price
          → p.balance_after ≡ b -ℤ q.price
          → Debited user.id b q.price
              (r, (record_purchase env user tariff duration q (b -ℤ q.price) s).1)
      go r p done price after =
          rw done
            (price, after, (record_purchase-Shows user tariff duration q (b -ℤ q.price)).from s h)

  pub debit_purchase-Debited :
      (user u : User) (tid did : ℕ) (promo_id : Option ℕ) (d : TariffDuration) (s : Session)
      → find_user user.id s.live ≡ some u
      → find_duration did s.live ≡ some d
      → Debited user.id u.balance_kopecks
          (quote d.price_kopecks (chosen_promo promo_id s.live)).price
          (debit_purchase env user tid did promo_id s)
  unfolding debit_purchase set_balance
  debit_purchase-Debited user u tid did promo_id d s found row =
      let kept : Shows user.id u.balance_kopecks s = record {
        user = u;
        found = found;
        balance = refl;
      } in
      let q = quote d.price_kopecks (chosen_promo promo_id s.live) in
      let P = Debited user.id u.balance_kopecks q.price in
      read_then P _ _ s (get_tariff-reads tid s) (λ _ _. kept)
        λ tariff _.
          read_then P _ _ s (get_duration-reads tid did s) (λ _ _. kept)
            λ duration hit.
              let same : duration ≡ d =
                same_row duration d (get_duration-finds tid did s duration hit) row in
              rw same (
                query_then P _ _ s (
                  then_at P _ _ s u s (lock_finds user.id u s found) (
                    raise_if_then P _ _ _ s (λ _. kept)
                      λ _. then_at P _ _ s tt _ refl (
                        record_purchase-Debited user tariff d q u.balance_kopecks _
                          (set_balance-Shows user.id _ u s found)))))
    where
      same_row :
          (a b : TariffDuration)
          → find_duration did s.live ≡ some a
          → find_duration did s.live ≡ some b
          → a ≡ b
      same_row a b h k = cc
