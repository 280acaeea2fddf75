-- ===== src/Balance/Outcome.antt =====
-- What a purchase from the balance costs, by how it ends.
use pix_vpn_service.Prelude.{ℕ, ◌≡◌, refl, sym, ◌⊎◌, inl, inr, Option, some}
use pix_vpn_service.Prelude.Int.{ℤ, ◌+ℤ◌, ◌-ℤ◌}
use pix_vpn_service.Db.{Db, User, TariffDuration}
use pix_vpn_service.Session.{
  Session, Result, ok, err, Error, northline_unavailable, northline_client, return, raise, ◌>>=◌,
  commit, request,
}
use pix_vpn_service.Session.Preserves.{Preserves, then_preserves}
use pix_vpn_service.Session.Steps.{Ends, then_at, then_each}
use pix_vpn_service.Env.{Env, KeyResponse}
use pix_vpn_service.Tables.{find_user, find_duration, set_balance, update_subscription}
use pix_vpn_service.Tariffs.{quote, chosen_promo}
use pix_vpn_service.Balance.{
  Purchase, refund_after_failure, deliver_key, deliver, purchase_with_balance,
}
use pix_vpn_service.Balance.Shown.{Shows, set_balance-Shows, shown_rules}
use pix_vpn_service.Balance.Committed.{IsSynced, debit_purchase-IsSynced, deliver-IsSynced}
use pix_vpn_service.Balance.Charged.{
  RaisesItsOwn, PaidOrKept, Debited, minus_plus, lock_finds, debit_purchase-Debited,
}

refund-Shows :
    (uid sid pid : ℕ) (price b : ℤ) (s : Session)
    → Shows uid b s
    → Shows uid (b +ℤ price) (refund_after_failure uid sid pid price s).1
unfolding refund_after_failure set_balance
refund-Shows uid sid pid price b s h = rw (sym h.balance) (
    then_at (Ends (Shows uid (h.user.balance_kopecks +ℤ price))) _ _ s h.user s
      (lock_finds uid h.user s h.found)
      (then_preserves (Shows uid (h.user.balance_kopecks +ℤ price)) _ _ s
        (set_balance-Shows uid _ h.user s h.found) (λ _. search shown_rules depth 12)))

deliver_key-Shows :
    (env : Env) (uid : ℕ) (b : ℤ) (p : Purchase) (key : KeyResponse)
    → Preserves (Shows uid b) (deliver_key env p key)
unfolding deliver_key
deliver_key-Shows env uid b p key = search shown_rules

deliver_key-Paid :
    (env : Env) (uid : ℕ) (b price : ℤ) (p : Purchase) (key : KeyResponse) (s : Session)
    → p.balance_after ≡ b -ℤ price
    → Shows uid p.balance_after (deliver_key env p key s).1
    → PaidOrKept uid b price (deliver_key env p key s)
unfolding deliver_key update_subscription commit return ◌>>=◌
deliver_key-Paid env uid b price p key s after shown = (after, shown)

-- The refund gives the price back, and the purchase fails.
refunded-Kept :
    (uid : ℕ) (b price : ℤ) (p : Purchase) (s : Session)
    → p.price ≡ price
    → Shows uid (b -ℤ price) s
    → PaidOrKept uid b price (
        (refund_after_failure uid p.sub.id p.payment.id p.price >>= λ _.
        raise northline_unavailable)
          s)
unfolding raise
refunded-Kept uid b price p s same shown =
    let whole : b -ℤ price +ℤ p.price ≡ b = rw same (minus_plus b price) in
    let back : Shows uid b (refund_after_failure uid p.sub.id p.payment.id p.price s).1 =
      rw whole at (refund-Shows uid p.sub.id p.payment.id p.price (b -ℤ price) s shown) in
    then_each (PaidOrKept uid b price) _ _ s (λ _ _. back) (λ _ _. back)

deliver-PaidOrKept :
    (env : Env) (user : User) (b price : ℤ) (p : Purchase) (r : Result KeyResponse) (s : Session)
    → ((e : Error) → r ≡ err e → (e ≡ northline_unavailable) ⊎ (e ≡ northline_client))
    → Debited user.id b price (ok p, s)
    → PaidOrKept user.id b price (deliver env user p r s)
unfolding deliver
deliver-PaidOrKept env user b price p (ok key) s own (same, after, shown) =
    deliver_key-Paid env user.id b price p key s after
      ((deliver_key-Shows env user.id p.balance_after p key).from s (rw after shown))
deliver-PaidOrKept env user b price p (err e) s own (same, after, shown) = elim (own e refl) [
  | inl unavailable ↦ rw unavailable (refunded-Kept user.id b price p s same shown)
  | inr client ↦ rw client (refunded-Kept user.id b price p s same shown)
]

Debited-err :
    (uid : ℕ) (b price : ℤ) (o : Result Purchase × Session) (e : Error)
    → o.0 ≡ err e
    → Debited uid b price o
    → Shows uid b o.1
Debited-err uid b price (r, s) e failed h =
    let as_failed : Debited uid b price (err e, s) = rw failed at h in as_failed

Debited-ok :
    (uid : ℕ) (b price : ℤ) (o : Result Purchase × Session) (p : Purchase)
    → o.0 ≡ ok p
    → Debited uid b price o
    → Debited uid b price (ok p, o.1)
Debited-ok uid b price (r, s) p done h = rw done at h

module _ (env : Env) (user u : User) (tid did : ℕ) (promo_id : Option ℕ) (d : TariffDuration)
    (s : Session) (own : RaisesItsOwn env) (found : find_user user.id s.live ≡ some u)
    (row : find_duration did s.live ≡ some d) where
  abbrev due : ℤ
  due = (quote d.price_kopecks (chosen_promo promo_id s.live)).price

  purchase_with_balance-PaidOrKept :
      PaidOrKept user.id u.balance_kopecks due (purchase_with_balance env user tid did promo_id s)
  unfolding purchase_with_balance
  purchase_with_balance-PaidOrKept =
      let debited = debit_purchase-Debited env user u tid did promo_id d s found row in
      then_each (PaidOrKept user.id u.balance_kopecks due) _ _ s
        (λ e failed. Debited-err user.id u.balance_kopecks due _ e failed debited)
        λ p done.
          deliver-PaidOrKept env user u.balance_kopecks due p _ _ (own _)
            (Debited-ok user.id u.balance_kopecks due _ p done debited)

  purchase_with_balance-IsSynced :
      s.saved ≡ s.live → IsSynced (purchase_with_balance env user tid did promo_id s)
  unfolding purchase_with_balance
  purchase_with_balance-IsSynced same =
      let debited = debit_purchase-Debited env user u tid did promo_id d s found row in
      let synced = debit_purchase-IsSynced env user tid did promo_id u s found same in
      then_each IsSynced _ _ s (λ e failed. synced)
        λ p done.
          let shown = (Debited-ok user.id u.balance_kopecks due _ p done debited).2 in
          deliver-IsSynced env user shown.user p _ _ shown.found synced

-- As committed, the user's row has this balance.
abbrev pub HasBalance : ℕ → ℤ → Db → Type 0
HasBalance uid b db = (u : User) × (find_user uid db ≡ some u) × (u.balance_kopecks ≡ b)

-- A request that charges the price and returns what is left, or fails and charges nothing.
abbrev pub ChargedOrKept : ℕ → ℤ → ℤ → Result (ℕ × ℤ × ℕ) × Db → Type 0
ChargedOrKept uid b price (ok (sub_id, after, payment_id), db) =
    (after ≡ b -ℤ price) × HasBalance uid after db
ChargedOrKept uid b price (err e, db) = HasBalance uid b db

as_committed :
    (uid : ℕ) (b price : ℤ) (o : Result (ℕ × ℤ × ℕ) × Session)
    → IsSynced o
    → PaidOrKept uid b price o
    → ChargedOrKept uid b price (o.0, o.1.saved)
as_committed uid b price (ok (sub_id, after, payment_id), s) same (left, shown) =
    (left, (shown.user, rw same shown.found, shown.balance))
as_committed uid b price (err e, s) same shown = (shown.user, rw same shown.found, shown.balance)

-- For a user with a row and a duration that exists, a request for a purchase from the balance either
-- succeeds, and then the balance that it returns is the user's balance less the quoted price and is
-- what the user's row shows as committed, or it fails, and then the committed row shows the balance
-- that it showed before. It is assumed that NorthLine's client raises its own two errors only.
pub purchase_with_balance-ChargedOrKept :
    (env : Env) (user u : User) (tid did : ℕ) (promo_id : Option ℕ) (d : TariffDuration) (db : Db)
    → RaisesItsOwn env
    → find_user user.id db ≡ some u
    → find_duration did db ≡ some d
    → ChargedOrKept user.id u.balance_kopecks
        (quote d.price_kopecks (chosen_promo promo_id db)).price
        (request (purchase_with_balance env user tid did promo_id) db)
unfolding request
purchase_with_balance-ChargedOrKept env user u tid did promo_id d db own found row =
    let s : Session = record { live = db; saved = db } in
    as_committed user.id u.balance_kopecks _ _
      (purchase_with_balance-IsSynced env user u tid did promo_id d s own found row refl)
      (purchase_with_balance-PaidOrKept env user u tid did promo_id d s own found row)
