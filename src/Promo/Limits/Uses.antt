-- ===== src/Promo/Limits/Uses.antt =====
-- Applying a code, and recording its use behind a payment, keep within its limits.
use pix_vpn_service.Prelude.{
  ℕ, ◌<◌, ◌≡◌, refl, sym, false, ◌||◌, String, none, some, arith, inl, inr, Bool-cases,
  Option-cases, find-test, ==_iff, leb, ◌==◌,
}
use mathlib.Core.Path.{subst}
use pix_vpn_service.Prelude.Int.{ℤ}
use pix_vpn_service.Db.{Db, User, PromoType, PromoCode}
use pix_vpn_service.Session.{
  Session, ok, return, raise, raise_if, query, modify, promo_not_for_this_user, ◌>>=◌, ◌>>◌,
}
use pix_vpn_service.Session.Preserves.{Preserves}
use pix_vpn_service.Session.Steps.{Ends, query_then, or_raise_then, read_then, raise_if_then}
use pix_vpn_service.Env.{Env}
use pix_vpn_service.Tables.{
  find_promo, count_user_activations, insert_activation, increment_activations, post_entry,
  set_balance, insert_transaction,
}
use pix_vpn_service.Ledger.Entries.{lock_step}
use pix_vpn_service.Promo.{
  is_exhausted, apply_balance, apply_discount, apply_by_type, validate_and_apply,
  ensure_total_capacity, ensure_per_user_capacity, record_activation, record_checked,
  record_discount_activation, is_for_other,
}
use pix_vpn_service.Promo.Money.{ensure_active-reads, ensure_per_user-reads}
use pix_vpn_service.Promo.Limits.{IsWithin, activated-IsWithin}

-- In the request that runs.
abbrev pub Within : ℕ → ℕ → Session → Type 0
Within pid uid s = IsWithin pid uid s.live.promo_codes s.live.promo_activations

module _ (pid uid : ℕ) (promo : PromoCode) (s : Session) where
  record_activation-Within :
      (user payment : ℕ) (d : ℤ)
      → find_promo promo.id s.live ≡ some promo
      → is_exhausted promo ≡ false
      → count_user_activations promo.id user s.live < promo.max_per_user
      → Within pid uid s
      → Within pid uid (record_activation promo user payment d s).1
  unfolding record_activation insert_activation increment_activations modify return ◌>>=◌
  record_activation-Within user payment d found room below h =
      activated-IsWithin promo _ s.live.promo_codes s.live.promo_activations uid pid found room refl
        below h

  record_checked-Within :
      (user payment : ℕ) (d : ℤ)
      → find_promo promo.id s.live ≡ some promo
      → Within pid uid s
      → Within pid uid (record_checked (some promo) user payment d s).1
  unfolding record_checked query return ◌>>=◌
  record_checked-Within user payment d found h =
      let full = leb promo.max_per_user (count_user_activations promo.id user s.live) in
      elim (Bool-cases (is_exhausted promo || full)) [
        | inl t ↦ rw t h
        | inr f ↦
            let room : is_exhausted promo ≡ false = ground arith in
            let below : count_user_activations promo.id user s.live < promo.max_per_user =
              ground arith in
            rw f (record_activation-Within user payment d found room below h)
      ]

  apply_balance-Within :
      (user : User)
      → find_promo promo.id s.live ≡ some promo
      → is_exhausted promo ≡ false
      → count_user_activations promo.id user.id s.live < promo.max_per_user
      → Within pid uid s
      → Within pid uid (apply_balance promo user s).1
  unfolding apply_balance post_entry set_balance insert_transaction insert_activation
      increment_activations modify return ◌>>=◌
  apply_balance-Within user found room below h =
      lock_step (Ends (Within pid uid)) user.id _ s h λ u locked.
        activated-IsWithin promo _ s.live.promo_codes s.live.promo_activations uid pid found room
          refl below h

  apply_by_type-Within :
      (type : PromoType) (user : User)
      → find_promo promo.id s.live ≡ some promo
      → is_exhausted promo ≡ false
      → count_user_activations promo.id user.id s.live < promo.max_per_user
      → Within pid uid s
      → Within pid uid (apply_by_type type promo user s).1
  unfolding apply_by_type apply_discount return raise
  apply_by_type-Within PromoType.balance user found room below h =
      apply_balance-Within user found room below h
  apply_by_type-Within PromoType.discount_percent user found room below h = h
  apply_by_type-Within (PromoType.other t) user found room below h = h

-- The row that is found has the id that it was looked up by.
refound :
    (i : ℕ) (promo : PromoCode) (db : Db)
    → find_promo i db ≡ some promo
    → find_promo promo.id db ≡ some promo
refound i promo db found =
    let hit = find-test (λ (p : PromoCode). p.id == i) db.promo_codes promo found in
    let it : promo.id ≡ i = (==_iff promo.id i).0 hit in
    subst (λ k. find_promo k db ≡ some promo) (sym it) found

record_checked_missing :
    (pid uid user payment : ℕ) (d : ℤ) (s : Session)
    → Within pid uid s
    → Within pid uid (record_checked none user payment d s).1
unfolding record_checked return
record_checked_missing pid uid user payment d s h = h

record_discount-Within :
    (pid uid promo_id user payment : ℕ) (d : ℤ)
    → Preserves (Within pid uid) (record_discount_activation promo_id user payment d)
unfolding record_discount_activation query ◌>>=◌
record_discount-Within pid uid promo_id user payment d = record {
  from = λ s h. elim (Option-cases (find_promo promo_id s.live)) [
    | inl e ↦ rw e (record_checked_missing pid uid user payment d s h)
    | inr (promo, e) ↦
        rw e
          (record_checked-Within pid uid promo s user payment d (refound promo_id promo s.live e) h)
  ];
}

may_use :
    (promo : PromoCode) (user : User) (s : Session) (a : Unit {0})
    → (ensure_per_user_capacity promo user s).0 ≡ ok a
    → count_user_activations promo.id user.id s.live < promo.max_per_user
unfolding ensure_per_user_capacity raise_if query ◌>>=◌
may_use promo user s a passed = ground arith

module _ (env : Env) (pid uid : ℕ) (user : User) where
  -- The last steps of `validate_and_apply`.
  limited-Within :
      (promo : PromoCode) (s : Session)
      → find_promo promo.id s.live ≡ some promo
      → is_exhausted promo ≡ false
      → Within pid uid s
      → Within pid uid
          ((do
            ensure_per_user_capacity promo user
            raise_if (is_for_other promo user) promo_not_for_this_user
            apply_by_type promo.type promo user)
            s).1
  limited-Within promo s found room h =
      let P = Ends (Within pid uid) in
      read_then P _ _ s (ensure_per_user-reads promo user s) (λ _ _. h)
        λ a passed.
          raise_if_then P _ _ _ s (λ _. h)
            λ _.
              apply_by_type-Within pid uid promo s promo.type user found room
                (may_use promo user s a passed) h

  validate_and_apply-Within :
      (given : String) → Preserves (Within pid uid) (validate_and_apply env given user)
  unfolding validate_and_apply ensure_total_capacity
  validate_and_apply-Within given = record {
    from = λ s h.
        let P = Ends (Within pid uid) in
        raise_if_then P _ _ _ s (λ _. h)
          λ _. query_then P _ _ s (
            or_raise_then P _ _ _ s h λ existing _. query_then P _ _ s (
              or_raise_then P _ _ _ s h λ promo found.
                read_then P _ _ s (ensure_active-reads env promo s) (λ _ _. h)
                  λ _ _.
                    raise_if_then P _ _ _ s (λ _. h)
                      λ room.
                        limited-Within promo s (refound existing.id promo s.live found) room h));
  }

-- Where the code with an id is activated as often as its limit at most, and by one user as often as its
-- limit for a user, both still hold after any user applies any code, however that ends, and after any
-- use of a discount is recorded behind a payment.
pub uses-Within :
    (env : Env) (pid uid : ℕ) (given : String) (user : User) (promo_id payer payment : ℕ) (d : ℤ)
    (s : Session)
    → Within pid uid s
    → Within pid uid (validate_and_apply env given user s).1
      × Within pid uid (record_discount_activation promo_id payer payment d s).1
uses-Within env pid uid given user promo_id payer payment d s h = (
  (validate_and_apply-Within env pid uid user given).from s h,
  (record_discount-Within pid uid promo_id payer payment d).from s h,
)
