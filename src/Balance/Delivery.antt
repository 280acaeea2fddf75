-- ===== src/Balance/Delivery.antt =====
-- A purchase that can be paid for is delivered when NorthLine issues a key.
use pix_vpn_service.Prelude.{ℕ, ◌≡◌, refl, true, Option, some, arith, ==_iff}
use pix_vpn_service.Prelude.Int.{ℤ, ◌-ℤ◌, ◌≤ℤ◌, ltb_ℤ}
use pix_vpn_service.Db.{User, Tariff, TariffDuration}
use pix_vpn_service.Session.{
  Session, Result, ok, err, Error, return, ◌>>=◌, commit, query, or_raise,
}
use pix_vpn_service.Session.Steps.{then_at, then_each, query_then, raise_if_then}
use pix_vpn_service.Env.{Env, KeyRequest, KeyResponse}
use pix_vpn_service.Tables.{find_user, find_tariff, find_duration, set_balance, update_subscription}
use pix_vpn_service.Tariffs.{quote, chosen_promo, get_tariff_or_raise, get_duration_or_raise}
use pix_vpn_service.Balance.{Purchase, debit_purchase, deliver_key, deliver, purchase_with_balance}
use pix_vpn_service.Balance.Charged.{record_purchase_runs, lock_finds}

-- The action succeeded.
abbrev Succeeds : {A : Type 0} → Result A × Session → Type 0
Succeeds {A = A} o = (x : A) × (o.0 ≡ ok x)

on_sale_tariff :
    (tid : ℕ) (t : Tariff) (s : Session)
    → find_tariff tid s.live ≡ some t
    → t.is_active ≡ true
    → get_tariff_or_raise tid s ≡ (ok t, s)
unfolding get_tariff_or_raise query or_raise return ◌>>=◌
on_sale_tariff tid t s found active = rw found (rw active refl)

on_sale_duration :
    (did : ℕ) (d : TariffDuration) (s : Session)
    → find_duration did s.live ≡ some d
    → d.is_active ≡ true
    → get_duration_or_raise d.tariff_id did s ≡ (ok d, s)
unfolding get_duration_or_raise query or_raise return ◌>>=◌
on_sale_duration did d s found active =
    rw found (rw (active, (==_iff d.tariff_id d.tariff_id).1 refl) refl)

covered : (price b : ℤ) → price ≤ℤ b → ltb_ℤ b price ≡ true → ⊥
covered price b h short = ground arith

deliver_key-Succeeds :
    (env : Env) (p : Purchase) (key : KeyResponse) (s : Session)
    → Succeeds (deliver_key env p key s)
unfolding deliver_key update_subscription commit return ◌>>=◌
deliver_key-Succeeds env p key s = (_, refl)

deliver-Succeeds :
    (env : Env) (user : User) (p : Purchase) (r : Result KeyResponse) (key : KeyResponse)
    (s : Session)
    → r ≡ ok key
    → Succeeds (deliver env user p r s)
unfolding deliver
deliver-Succeeds env user p r key s issued = rw issued (deliver_key-Succeeds env p key s)

debit_purchase-Succeeds :
    (env : Env) (user u : User) (did : ℕ) (promo_id : Option ℕ) (t : Tariff) (d : TariffDuration)
    (s : Session)
    → find_user user.id s.live ≡ some u
    → find_tariff d.tariff_id s.live ≡ some t
    → t.is_active ≡ true
    → find_duration did s.live ≡ some d
    → d.is_active ≡ true
    → (quote d.price_kopecks (chosen_promo promo_id s.live)).price ≤ℤ u.balance_kopecks
    → Succeeds (debit_purchase env user d.tariff_id did promo_id s)
unfolding debit_purchase set_balance
debit_purchase-Succeeds env user u did promo_id t d s found tariff sold row on_sale enough =
    then_at Succeeds _ _ s t s (on_sale_tariff d.tariff_id t s tariff sold) (
      then_at Succeeds _ _ s d s (on_sale_duration did d s row on_sale) (
        query_then Succeeds _ _ s (
          then_at Succeeds _ _ s u s (lock_finds user.id u s found) (
            raise_if_then Succeeds _ _ _ s
              (λ short. absurd (
                covered (quote d.price_kopecks (chosen_promo promo_id s.live)).price
                  u.balance_kopecks enough short))
              λ _. then_at Succeeds _ _ s tt _ refl (
                let q = quote d.price_kopecks (chosen_promo promo_id s.live) in
                let (p, done, price, after) =
                  record_purchase_runs env user t d q (u.balance_kopecks -ℤ q.price) _ in
                (p, done))))))

-- Where the tariff and its duration are on sale, the user's balance covers the quoted price and
-- NorthLine issues a key for every request, a purchase from the balance succeeds.
pub purchase_with_balance-Succeeds :
    (env : Env) (user u : User) (did : ℕ) (promo_id : Option ℕ) (t : Tariff) (d : TariffDuration)
    (s : Session)
    → find_user user.id s.live ≡ some u
    → find_tariff d.tariff_id s.live ≡ some t
    → t.is_active ≡ true
    → find_duration did s.live ≡ some d
    → d.is_active ≡ true
    → (quote d.price_kopecks (chosen_promo promo_id s.live)).price ≤ℤ u.balance_kopecks
    → ((r : KeyRequest) → (key : KeyResponse) × (env.create_key r ≡ ok key))
    → (x : ℕ × ℤ × ℕ) × ((purchase_with_balance env user d.tariff_id did promo_id s).0 ≡ ok x)
unfolding purchase_with_balance
purchase_with_balance-Succeeds env user u did promo_id t d s found tariff sold row on_sale enough
      issues =
    let (paid, debited) =
      debit_purchase-Succeeds env user u did promo_id t d s found tariff sold row on_sale enough in
    then_each Succeeds _ _ s (λ e failed. absurd (contradict paid e debited failed))
      λ p done. deliver-Succeeds env user p _ _ _ (issues _).1
  where
    contradict : {r : Result Purchase} (p : Purchase) (e : Error) → r ≡ ok p → r ≡ err e → ⊥
    contradict p e h k = cc
