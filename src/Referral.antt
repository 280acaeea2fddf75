-- ===== src/Referral.antt =====
-- backend/app/services/referral_service.py with its repository.
pub mod Money
pub mod Once
use pix_vpn_service.Prelude.{
  ℕ, Bool, true, false, not, ◌&&◌, ◌||◌, String, Option, none, some, List, [], ◌∷◌, find,
  count_where, str_eq, ◌==◌, if◌then◌else◌,
}
use pix_vpn_service.Prelude.Int.{ℤ, pos, ◌+ℤ◌, ltb_ℤ, leb_ℤ}
use pix_vpn_service.Db.{
  Db, User, PaymentStatus, Purpose, Payment, Reason, BalanceTransaction, Referral, Payload,
}
use pix_vpn_service.Session.{
  Action, return, raise, query, ◌>>=◌, ◌>>◌, raise_if, referral_self, referral_already_exists,
  referee_already_has_purchase,
}
use pix_vpn_service.Env.{Env}
use pix_vpn_service.Tables.{find_user, find_referral, post_entry, insert_referral, update_referral}
use pix_vpn_service.Outbox.{enqueue_message}

-- `REFERRAL_BONUS_KOPECKS`: 70 roubles, where the docstrings and backend/tests/test_referral.py say 100.
abbrev pub referral_bonus_kopecks : ℤ
referral_bonus_kopecks = pos 7000

abbrev pub referral_auto_discount_percent : ℤ
referral_auto_discount_percent = pos 15

abbrev pub is_paid : PaymentStatus → Bool
is_paid PaymentStatus.paid = true
is_paid _ = false

abbrev pub is_topup : Purpose → Bool
is_topup Purpose.topup = true
is_topup _ = false

-- A payment of the user that counts as a purchase history.
abbrev pub counts_as_paid : ℕ → Payment → Bool
counts_as_paid uid p = (p.user_id == uid) && is_paid p.status && ltb_ℤ (pos 0) p.amount_kopecks

abbrev pub is_found : {A : Type 0} → Option A → Bool
is_found none = false
is_found (some a) = true

unfoldable pub has_paid_history : ℕ → Db → Bool
has_paid_history uid db = is_found (find (counts_as_paid uid) db.payments)

-- `register_referral`: the row, or none where the referee is not new.
pub register_referral : User → User → Bool → Action (Option Referral)
register_referral referrer referee is_new = if not is_new then return none else do
  raise_if (referrer.id == referee.id) referral_self
  existing ← query (find_referral referee.id)
  raise_if (is_found existing) referral_already_exists
  paid ← query (has_paid_history referee.id)
  raise_if paid referee_already_has_purchase
  row ← insert_referral λ n. record {
    id = n;
    referrer_id = referrer.id;
    referee_id = referee.id;
    bonus_paid = false;
    bonus_paid_at = none;
    referee_first_purchase_id = none;
    trial_bonus_issued_at = none;
  }
  return (some row)

abbrev discount_unless_paid : Option Referral → Bool → Option ℤ
discount_unless_paid none paid = none
discount_unless_paid (some r) paid = if paid then none else some referral_auto_discount_percent

-- `auto_discount_for_referee`
pub auto_discount_for_referee : User → Db → Option ℤ
auto_discount_for_referee user db =
    discount_unless_paid (find_referral user.id db) (has_paid_history user.id db)

-- `username or "друг"`
abbrev pub shown_name : Option String → String
shown_name none = "друг"
shown_name (some name) = if str_eq name "" then "друг" else name

abbrev pub bonus_paid_by : ℕ → Payment → Referral → Referral
bonus_paid_by now payment r = record r {
  bonus_paid = true;
  bonus_paid_at = some now;
  referee_first_purchase_id = some payment.id;
}

module _ (env : Env) where
  -- `apply_referrer_bonus` once the referrer's row is found.
  unfoldable pub pay_bonus : Option User → Referral → User → Payment → Action (Unit {0})
  pay_bonus none referral referee payment = return tt
  pay_bonus (some referrer) referral referee payment = do
    let new_balance = referrer.balance_kopecks +ℤ referral_bonus_kopecks
    post_entry referral.referrer_id new_balance λ n. record {
      id = n;
      user_id = referral.referrer_id;
      amount_kopecks = referral_bonus_kopecks;
      reason = Reason.referral_bonus;
      ref_payment_id = some payment.id;
      ref_subscription_id = none;
      balance_after_kopecks = new_balance;
    }
    update_referral referral.id (bonus_paid_by env.now payment)
    enqueue_message env.now referrer.id referrer.tg_id
        (Payload.referral_bonus_credited (shown_name referee.username))
    return tt

  unfoldable pub pay_unpaid : Option Referral → User → Payment → Action (Unit {0})
  pay_unpaid none referee payment = return tt
  pay_unpaid (some referral) referee payment = do
    referrer ← query (find_user referral.referrer_id)
    if referral.bonus_paid then return tt else pay_bonus referrer referral referee payment

  -- `apply_referrer_bonus`
  unfoldable pub apply_referrer_bonus : User → Payment → Action (Unit {0})
  apply_referrer_bonus referee payment = do
    referral ← query (find_referral referee.id)
    if is_topup payment.purpose || leb_ℤ payment.amount_kopecks (pos 0)
        then return tt
        else pay_unpaid referral referee payment

abbrev pub is_bonus : Reason → Bool
is_bonus Reason.referral_bonus = true
is_bonus _ = false

-- `ReferralRepository.sum_earned`
pub sum_earned : ℕ → List BalanceTransaction → ℤ
sum_earned uid [] = pos 0
sum_earned uid (t ∷ ts) =
    let rest = sum_earned uid ts in
    if (t.user_id == uid) && is_bonus t.reason then rest +ℤ t.amount_kopecks else rest

-- `get_stats`: how many users were invited, and what they earned.
pub get_stats : ℕ → Db → ℕ × ℤ
get_stats uid db = (
  count_where (λ (r : Referral). r.referrer_id == uid) db.referrals,
  sum_earned uid db.balance_transactions,
)
