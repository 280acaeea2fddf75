-- ===== src/Referral/Money.antt =====
-- Referrals and the books.
use pix_vpn_service.Prelude.{ℕ, ◌≡◌, refl, Bool, Option, none, some, List, arith}
use pix_vpn_service.Prelude.Int.{◌+ℤ◌}
use pix_vpn_service.Db.{BalanceTransaction, User, Payment, Payload, Referral}
use pix_vpn_service.Session.{Session, return}
use pix_vpn_service.Session.Preserves.{Preserves, then_preserves}
use pix_vpn_service.Session.Steps.{Ends, if_step, query_then}
use pix_vpn_service.Env.{Env}
use pix_vpn_service.Tables.{find_user}
use pix_vpn_service.Outbox.{enqueue_message}
use pix_vpn_service.Ledger.{Books}
use pix_vpn_service.Ledger.Frame.{Held, held_rules, books_rules}
use pix_vpn_service.Ledger.Entries.{post_entry-Books, +ℤ_solvent, find_user_solvent}
use pix_vpn_service.Referral.{
  register_referral, referral_bonus_kopecks, pay_bonus, pay_unpaid, apply_referrer_bonus,
}

pub enqueue_message-Held :
    (now uid chat : ℕ) (payload : Payload) {us : List User} {ts : List BalanceTransaction}
    → Preserves (Held us ts) (enqueue_message now uid chat payload)
unfolding enqueue_message
enqueue_message-Held now uid chat payload = search held_rules

pub enqueue_message-Books :
    (now uid chat : ℕ) (payload : Payload) → Preserves Books (enqueue_message now uid chat payload)
unfolding enqueue_message
enqueue_message-Books now uid chat payload = search books_rules

-- A registration moves no money.
pub register_referral-Books :
    (referrer referee : User) (is_new : Bool)
    → Preserves Books (register_referral referrer referee is_new)
unfolding register_referral
register_referral-Books referrer referee is_new = search books_rules depth 12

pay_bonus-Books :
    (env : Env) (row : Option User) (referral : Referral) (referee : User) (payment : Payment)
    (s : Session)
    → find_user referral.referrer_id s.live ≡ row
    → Books s
    → Books (pay_bonus env row referral referee payment s).1
unfolding pay_bonus return
pay_bonus-Books env none referral referee payment s found b = b
pay_bonus-Books env (some u) referral referee payment s found b =
    then_preserves Books _ _ s
      (post_entry-Books referral.referrer_id u (u.balance_kopecks +ℤ referral_bonus_kopecks) _ s
        found (λ n. refl) (λ n. refl) (λ n. refl)
        (+ℤ_solvent u.balance_kopecks referral_bonus_kopecks
          (find_user_solvent referral.referrer_id u s found b) (omega arith))
        b)
      (λ _. search (books_rules, enqueue_message-Books))

pay_unpaid-Books :
    (env : Env) (row : Option Referral) (referee : User) (payment : Payment)
    → Preserves Books (pay_unpaid env row referee payment)
unfolding pay_unpaid return
pay_unpaid-Books env none referee payment = search books_rules
pay_unpaid-Books env (some referral) referee payment = record {
  from = λ s b. query_then (Ends Books) _ _ s (
      if_step (Ends Books) referral.bonus_paid _ _ s b
        (pay_bonus-Books env _ referral referee payment s refl b));
}

-- The bonus is credited with its transaction.
pub apply_referrer_bonus-Books :
    (env : Env) (referee : User) (payment : Payment)
    → Preserves Books (apply_referrer_bonus env referee payment)
unfolding apply_referrer_bonus
apply_referrer_bonus-Books env referee payment = search (books_rules, pay_unpaid-Books)
