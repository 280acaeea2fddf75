-- ===== src/Tables.antt =====
-- The queries and the writes of the repositories (backend/app/repositories) and of the services'
-- own statements: a select by key, an insert with a fresh id, an update of the rows with one id.
use pix_vpn_service.Prelude.{
  ℕ, ◌+◌, Bool, false, ◌&&◌, String, Option, none, some, ◌∷◌, find, update_where, count_where, ◌==◌,
  str_eq,
}
use pix_vpn_service.Prelude.Int.{ℤ}
use pix_vpn_service.Db.{
  Db, User, Tariff, TariffDuration, Subscription, Payment, BalanceTransaction, PromoCode,
  PromoActivation, Referral, OutboxMessage,
}
use pix_vpn_service.Session.{
  ok, Action, ◌>>=◌, ◌>>◌, return, query, or_raise, no_result_found, modify,
}

abbrev pub find_user : ℕ → Db → Option User
find_user uid db = find (λ u. u.id == uid) db.users

abbrev pub find_tariff : ℕ → Db → Option Tariff
find_tariff tid db = find (λ t. t.id == tid) db.tariffs

abbrev pub find_duration : ℕ → Db → Option TariffDuration
find_duration did db = find (λ d. d.id == did) db.durations

abbrev pub find_subscription : ℕ → Db → Option Subscription
find_subscription sid db = find (λ r. r.id == sid) db.subscriptions

-- `PaymentRepository.get_by_id`, `session.get(Payment, id)`
abbrev pub find_payment : ℕ → Db → Option Payment
find_payment pid db = find (λ p. p.id == pid) db.payments

-- `external_id` is compared in SQL, so a row without one never fits.
abbrev pub has_external_id : String → Payment → Bool
has_external_id ext p = elim p.external_id [ none ↦ false | some e ↦ str_eq e ext ]

abbrev pub find_external : String → Db → Option Payment
find_external ext db = find (has_external_id ext) db.payments

abbrev pub find_promo : ℕ → Db → Option PromoCode
find_promo pid db = find (λ p. p.id == pid) db.promo_codes

-- `ReferralRepository.get_by_referee`
abbrev pub find_referral : ℕ → Db → Option Referral
find_referral uid db = find (λ r. r.referee_id == uid) db.referrals

-- `PromoActivationRepository.count_user_activations`
abbrev pub count_user_activations : ℕ → ℕ → Db → ℕ
count_user_activations pid uid db =
    count_where (λ (a : PromoActivation). (a.promo_id == pid) && (a.user_id == uid))
      db.promo_activations

-- `_lock_user` of the balance and promo services: `scalar_one` raises where there is no row.
unfoldable pub lock_user : ℕ → Action User
unfolding ◌>>=◌ query or_raise
lock_user uid = do found ← query (find_user uid); or_raise found no_result_found

abbrev pub with_balance : ℤ → User → User
with_balance b u = record u { balance_kopecks = b }

unfoldable pub set_balance : ℕ → ℤ → Action (Unit {0})
unfolding modify
set_balance uid b =
    modify λ db. record db { users = update_where (λ u. u.id == uid) (with_balance b) db.users }

unfoldable pub insert_transaction : (ℕ → BalanceTransaction) → Action BalanceTransaction
insert_transaction make s =
    let db = s.live in
    let row = make db.next_id in
    (
      ok row,
      record s {
        live = record db {
          balance_transactions = row ∷ db.balance_transactions;
          next_id = db.next_id + 1;
        };
      },
    )

-- A balance that is set and the transaction that explains it, one after the other.
unfoldable pub post_entry : ℕ → ℤ → (ℕ → BalanceTransaction) → Action (Unit {0})
unfolding ◌>>=◌ set_balance insert_transaction
post_entry uid new_balance make = do set_balance uid new_balance; insert_transaction make; return tt

unfoldable pub insert_subscription : (ℕ → Subscription) → Action Subscription
insert_subscription make s =
    let db = s.live in
    let row = make db.next_id in
    (
      ok row,
      record s {
        live = record db { subscriptions = row ∷ db.subscriptions; next_id = db.next_id + 1 };
      },
    )

unfoldable pub update_subscription : ℕ → (Subscription → Subscription) → Action (Unit {0})
unfolding modify
update_subscription sid f =
    modify λ db. record db { subscriptions = update_where (λ r. r.id == sid) f db.subscriptions }

-- `PaymentRepository.create`
unfoldable pub insert_payment : (ℕ → Payment) → Action Payment
insert_payment make s =
    let db = s.live in
    let row = make db.next_id in
    (
      ok row,
      record s { live = record db { payments = row ∷ db.payments; next_id = db.next_id + 1 } },
    )

unfoldable pub update_payment : ℕ → (Payment → Payment) → Action (Unit {0})
unfolding modify
update_payment pid f =
    modify λ db. record db { payments = update_where (λ p. p.id == pid) f db.payments }

-- `PromoActivationRepository.create`
unfoldable pub insert_activation : (ℕ → PromoActivation) → Action PromoActivation
insert_activation make s =
    let db = s.live in
    let row = make db.next_id in
    (
      ok row,
      record s {
        live = record db {
          promo_activations = row ∷ db.promo_activations;
          next_id = db.next_id + 1;
        };
      },
    )

abbrev pub one_more : PromoCode → PromoCode
one_more p = record p { current_activations = p.current_activations + 1 }

-- `PromoCodeRepository.increment_activations`
unfoldable pub increment_activations : ℕ → Action (Unit {0})
unfolding modify
increment_activations pid =
    modify λ db. record db { promo_codes = update_where (λ p. p.id == pid) one_more db.promo_codes }

-- `ReferralRepository.create`
unfoldable pub insert_referral : (ℕ → Referral) → Action Referral
insert_referral make s =
    let db = s.live in
    let row = make db.next_id in
    (
      ok row,
      record s { live = record db { referrals = row ∷ db.referrals; next_id = db.next_id + 1 } },
    )

unfoldable pub update_referral : ℕ → (Referral → Referral) → Action (Unit {0})
unfolding modify
update_referral rid f =
    modify λ db. record db { referrals = update_where (λ r. r.id == rid) f db.referrals }

unfoldable pub insert_outbox : (ℕ → OutboxMessage) → Action OutboxMessage
insert_outbox make s =
    let db = s.live in
    let row = make db.next_id in
    (ok row, record s { live = record db { outbox = row ∷ db.outbox; next_id = db.next_id + 1 } })
