-- ===== src/Promo/Money.antt =====
-- Promo codes and the books.
use pix_vpn_service.Prelude.{ℕ, String, List, All-find, ◌≡◌, refl, none, some, arith, Option}
use pix_vpn_service.Prelude.Int.{ℤ, pos, ◌+ℤ◌, ◌≤ℤ◌}
use pix_vpn_service.Db.{User, PromoType, PromoCode, BalanceTransaction}
use pix_vpn_service.Session.{Session, return, raise, raise_if, ◌>>=◌}
use pix_vpn_service.Session.Preserves.{Preserves, then_preserves}
use pix_vpn_service.Session.Steps.{Ends, query_then, or_raise_then, read_then, raise_if_then}
use pix_vpn_service.Env.{Env}
use pix_vpn_service.Ledger.{Books}
use pix_vpn_service.Ledger.Frame.{Held, held_rules, books_rules}
use pix_vpn_service.Ledger.Entries.{lock_then, post_entry-Books, +ℤ_solvent, find_user_solvent}
use pix_vpn_service.Promo.{
  apply_balance, apply_discount, apply_by_type, validate_and_apply, ensure_active_and_in_window,
  ensure_total_capacity, ensure_per_user_capacity, record_activation, record_checked,
  record_discount_activation,
}

module _ {us : List User} {ts : List BalanceTransaction} where
  record_activation-Held :
      (promo : PromoCode) (uid pid : ℕ) (d : ℤ)
      → Preserves (Held us ts) (record_activation promo uid pid d)
  unfolding record_activation
  record_activation-Held promo uid pid d = search held_rules

  record_checked-Held :
      (promo : Option PromoCode) (uid pid : ℕ) (d : ℤ)
      → Preserves (Held us ts) (record_checked promo uid pid d)
  unfolding record_checked
  record_checked-Held none uid pid d = search held_rules
  record_checked-Held (some promo) uid pid d = search (held_rules, record_activation-Held)

  -- Recording a discount moves no money.
  pub record_discount_activation-Held :
      (promo_id uid pid : ℕ) (d : ℤ)
      → Preserves (Held us ts) (record_discount_activation promo_id uid pid d)
  unfolding record_discount_activation
  record_discount_activation-Held promo_id uid pid d = search (held_rules, record_checked-Held)

-- A balance code credits its value and writes the transaction with it.
apply_balance-Books :
    (promo : PromoCode) (user : User) (s : Session)
    → pos 0 ≤ℤ promo.value
    → Books s
    → Books (apply_balance promo user s).1
unfolding apply_balance
apply_balance-Books promo user s value b = lock_then user.id _ s b λ u found.
    then_preserves Books _ _ s
      (post_entry-Books user.id u (u.balance_kopecks +ℤ promo.value) _ s found (λ n. refl)
        (λ n. refl) (λ n. refl)
        (+ℤ_solvent u.balance_kopecks promo.value (find_user_solvent user.id u s found b) value) b)
      (λ _. search books_rules)

apply_by_type-Books :
    (type : PromoType) (promo : PromoCode) (user : User) (s : Session)
    → pos 0 ≤ℤ promo.value
    → Books s
    → Books (apply_by_type type promo user s).1
unfolding apply_by_type apply_discount return raise
apply_by_type-Books PromoType.balance promo user s value b =
    apply_balance-Books promo user s value b
apply_by_type-Books PromoType.discount_percent promo user s value b = b
apply_by_type-Books (PromoType.other t) promo user s value b = b

pub ensure_active-reads :
    (env : Env) (promo : PromoCode) (s : Session) → (ensure_active_and_in_window env promo s).1 ≡ s
unfolding ensure_active_and_in_window raise_if ◌>>=◌
ensure_active-reads env promo s = ground arith

pub ensure_per_user-reads :
    (promo : PromoCode) (user : User) (s : Session) → (ensure_per_user_capacity promo user s).1 ≡ s
unfolding ensure_per_user_capacity raise_if ◌>>=◌
ensure_per_user-reads promo user s = ground arith

-- Applying a promo code, however it ends, keeps the books in order.
pub validate_and_apply-Books :
    (env : Env) (given : String) (user : User) → Preserves Books (validate_and_apply env given user)
unfolding validate_and_apply ensure_total_capacity
validate_and_apply-Books env given user = record {
  from = λ s b.
      raise_if_then (Ends Books) _ _ _ s (λ _. b)
        λ _. query_then (Ends Books) _ _ s (
          or_raise_then (Ends Books) _ _ _ s b λ existing _. query_then (Ends Books) _ _ s (
            or_raise_then (Ends Books) _ _ _ s b λ promo found.
              read_then (Ends Books) _ _ s (ensure_active-reads env promo s) (λ _ _. b)
                λ _ _.
                  raise_if_then (Ends Books) _ _ _ s (λ _. b)
                    λ _.
                      read_then (Ends Books) _ _ s (ensure_per_user-reads promo user s) (λ _ _. b)
                        λ _ _.
                          raise_if_then (Ends Books) _ _ _ s (λ _. b)
                            λ _.
                              apply_by_type-Books promo.type promo user s
                                (All-find (λ (p : PromoCode). pos 0 ≤ℤ p.value) _ s.live.promo_codes
                                  promo b.live.granted found)
                                b));
}
