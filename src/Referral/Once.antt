-- ===== src/Referral/Once.antt =====
-- The bonus of a referral is paid one time.
use pix_vpn_service.Prelude.{
  ℕ, ◌≡◌, refl, Bool, true, false, not, ◌||◌, some, inl, inr, Bool-cases, update_where,
  find-update_where, ==_iff, arith, ◌==◌,
}
use pix_vpn_service.Prelude.Int.{ℤ, pos, ◌+ℤ◌, leb_ℤ}
use pix_vpn_service.Db.{User, Payment, Referral}
use pix_vpn_service.Session.{Session, ok, return, query, modify, ◌>>=◌}
use pix_vpn_service.Env.{Env}
use pix_vpn_service.Tables.{
  find_user, find_referral, set_balance, insert_transaction, post_entry, update_referral,
  insert_outbox,
}
use pix_vpn_service.Balance.Shown.{Shows, set_balance-Shows}
use pix_vpn_service.Outbox.{enqueue_message}
use pix_vpn_service.Referral.{
  is_topup, referral_bonus_kopecks, bonus_paid_by, pay_bonus, pay_unpaid, apply_referrer_bonus,
}

-- A payment for which a bonus may be due.
abbrev pub earns : Payment → Bool
earns p = not (is_topup p.purpose || leb_ℤ p.amount_kopecks (pos 0))

-- The referral of this user has its bonus.
record IsPaid (uid : ℕ) (s : Session) : Type 0 where
  row : Referral
  found : find_referral uid s.live ≡ some row
  paid : row.bonus_paid ≡ true

paid_ignored :
    (env : Env) (referee : User) (p : Payment) (s : Session)
    → IsPaid referee.id s
    → apply_referrer_bonus env referee p s ≡ (ok tt, s)
unfolding apply_referrer_bonus pay_unpaid query return ◌>>=◌
paid_ignored env referee p s h =
    elim (Bool-cases (is_topup p.purpose || leb_ℤ p.amount_kopecks (pos 0))) [
      | inl t ↦ rw t refl
      | inr f ↦ rw (f, h.found, h.paid) refl
    ]

-- What a step of the payout leaves: the referrer's balance, and the referral with its bonus.
record Paid (uid : ℕ) (r : Referral) (b : ℤ) (s : Session) : Type 0 where
  shown : Shows r.referrer_id b s
  paid : IsPaid uid s

module _ (env : Env) (referee : User) (p : Payment) (r : Referral) (s : Session) where
  marked_paid :
      find_referral referee.id s.live ≡ some r
      → find_referral referee.id (record s.live {
        referrals = update_where (λ x. x.id == r.id) (bonus_paid_by env.now p) s.live.referrals;
      })
        ≡ some (bonus_paid_by env.now p r)
  marked_paid found =
      let itself : (r.id == r.id) ≡ true = (==_iff r.id r.id).1 refl in
      rw itself at (
        find-update_where (λ x. x.referee_id == referee.id) (λ x. x.id == r.id)
          (bonus_paid_by env.now p) s.live.referrals (λ x. refl) r found)

  pay_bonus-Paid :
      (u : User)
      → find_user r.referrer_id s.live ≡ some u
      → find_referral referee.id s.live ≡ some r
      → Paid referee.id r
          (u.balance_kopecks +ℤ referral_bonus_kopecks)
          (pay_bonus env (some u) r referee p s).1
  unfolding pay_bonus post_entry set_balance insert_transaction update_referral modify
      enqueue_message insert_outbox return ◌>>=◌
  pay_bonus-Paid u holds found =
      let b = u.balance_kopecks +ℤ referral_bonus_kopecks in
      let set = set_balance-Shows r.referrer_id b u s holds in
      record {
        shown = record { user = set.user; found = set.found; balance = set.balance };
        paid = record { row = _; found = marked_paid found; paid = refl };
      }

  apply_runs :
      (u : User)
      → earns p ≡ true
      → find_referral referee.id s.live ≡ some r
      → r.bonus_paid ≡ false
      → find_user r.referrer_id s.live ≡ some u
      → apply_referrer_bonus env referee p s ≡ pay_bonus env (some u) r referee p s
  unfolding apply_referrer_bonus pay_unpaid query ◌>>=◌
  apply_runs u due found unpaid holds =
      let f : (is_topup p.purpose || leb_ℤ p.amount_kopecks (pos 0)) ≡ false = ground arith in
      rw (f, found, unpaid, holds) refl

-- Where a user was invited by a user with a row and the bonus is not paid yet, a payment of a positive
-- amount that is no top-up adds 7000 kopecks (70 roubles) to the referrer's balance, and another
-- payment of the invited user, of whatever kind, then changes nothing and is no error. The docstrings
-- of the service and its test say 100 roubles.
pub apply_referrer_bonus_once :
    (env env' : Env) (referee : User) (p p' : Payment) (r : Referral) (u : User) (s : Session)
    → earns p ≡ true
    → find_referral referee.id s.live ≡ some r
    → r.bonus_paid ≡ false
    → find_user r.referrer_id s.live ≡ some u
    → let s' = (apply_referrer_bonus env referee p s).1 in
      Shows r.referrer_id (u.balance_kopecks +ℤ pos 7000) s'
      × (apply_referrer_bonus env' referee p' s' ≡ (ok tt, s'))
apply_referrer_bonus_once env env' referee p p' r u s due found unpaid holds =
    let done = pay_bonus-Paid env referee p r s u holds found in
    rw (apply_runs env referee p r s u due found unpaid holds)
      (done.shown, paid_ignored env' referee p' _ done.paid)
