-- ===== src/Trial/Money.antt =====
-- A free trial moves no money.
use pix_vpn_service.Prelude.{ℕ, String, Option, none, some, List, [], ◌∷◌, arith}
use pix_vpn_service.Prelude.Int.{pos, ◌≤ℤ◌}
use pix_vpn_service.Db.{User, Tariff, PromoCode, Referral}
use pix_vpn_service.Session.{Result, ok, err, northline_unavailable, northline_client}
use pix_vpn_service.Session.Preserves.{Preserves}
use pix_vpn_service.Env.{Env, KeyResponse}
use pix_vpn_service.Ledger.{Books}
use pix_vpn_service.Ledger.Frame.{books_rules}
use pix_vpn_service.Referral.Money.{enqueue_message-Books}
use pix_vpn_service.Promo.Personal.{
  insert_promo, issue_if_new, issue_personal_discount, personal_code,
}
use pix_vpn_service.Trial.{
  one_or_none, tell_referrer, issue_bonus, issue_referrer_trial_bonus, fail_trial, deliver_trial,
  start_trial, activate_free_trial,
}

insert_promo-Books :
    (make : ℕ → PromoCode)
    → ((n : ℕ) → pos 0 ≤ℤ (make n).value)
    → Preserves Books (insert_promo make)
unfolding insert_promo
insert_promo-Books make h = record { from = λ s b. ground (arith, h s.live.next_id) }

pub issue_if_new-Books :
    (existing : Option PromoCode) (make : ℕ → PromoCode)
    → ((n : ℕ) → pos 0 ≤ℤ (make n).value)
    → Preserves Books (issue_if_new existing make)
unfolding issue_if_new
issue_if_new-Books (some p) make h = search books_rules
issue_if_new-Books none make h = insert_promo-Books make h

-- A personal code is worth a percentage that is not negative.
pub issue_personal_discount-Books :
    (env : Env) (uid : ℕ) (code : String) (percent seconds : ℕ)
    → Preserves Books (issue_personal_discount env uid code percent seconds)
unfolding issue_personal_discount
issue_personal_discount-Books env uid code percent seconds = search (
  books_rules,
  λ (row : Option PromoCode).
      issue_if_new-Books row (personal_code env.now uid code percent seconds) (λ n. omega arith),
)

module _ (env : Env) where
  tell_referrer-Books : (row : Option User) (sid : ℕ) → Preserves Books (tell_referrer env row sid)
  unfolding tell_referrer
  tell_referrer-Books none sid = search books_rules
  tell_referrer-Books (some u) sid = search (books_rules, enqueue_message-Books)

  issue_bonus-Books : (row : Option Referral) (sid : ℕ) → Preserves Books (issue_bonus env row sid)
  unfolding issue_bonus
  issue_bonus-Books none sid = search books_rules
  issue_bonus-Books (some r) sid =
      search (books_rules, issue_personal_discount-Books, tell_referrer-Books) depth 10

  issue_referrer_trial_bonus-Books :
      (user : User) (sid : ℕ) → Preserves Books (issue_referrer_trial_bonus env user sid)
  unfolding issue_referrer_trial_bonus
  issue_referrer_trial_bonus-Books user sid = search (books_rules, issue_bonus-Books)

  fail_trial-Books : (sid : ℕ) → Preserves Books (fail_trial env sid)
  unfolding fail_trial
  fail_trial-Books sid = search books_rules

  deliver_trial-Books :
      (user : User) (tariff : Tariff) (sid : ℕ) (r : Result KeyResponse)
      → Preserves Books (deliver_trial env user tariff sid r)
  unfolding deliver_trial
  deliver_trial-Books user tariff sid (ok key) =
      search (books_rules, issue_referrer_trial_bonus-Books)
  deliver_trial-Books user tariff sid (err northline_unavailable) = fail_trial-Books sid
  deliver_trial-Books user tariff sid (err northline_client) = fail_trial-Books sid
  deliver_trial-Books user tariff sid (err e) = search books_rules

  start_trial-Books :
      (user : User) (tariff : Tariff) → Preserves Books (start_trial env user tariff)
  unfolding start_trial
  start_trial-Books user tariff = search (books_rules, deliver_trial-Books)

  one_or_none-Books : (rows : List Tariff) → Preserves Books (one_or_none rows)
  one_or_none-Books [] = search books_rules
  one_or_none-Books (t ∷ []) = search books_rules
  one_or_none-Books (t ∷ u ∷ ts) = search books_rules

  pub activate_free_trial-Books : (user : User) → Preserves Books (activate_free_trial env user)
  unfolding activate_free_trial
  activate_free_trial-Books user =
      search (books_rules, one_or_none-Books, start_trial-Books) depth 10
