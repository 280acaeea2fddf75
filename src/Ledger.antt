-- ===== src/Ledger.antt =====
-- The money of the service: `users.balance_kopecks` against the rows of `balance_transactions`.
-- Every service that changes a balance writes one such row with it; what that amounts to is the
-- invariant here.
pub mod Posting
pub mod Frame
pub mod Entries
use pix_vpn_service.Prelude.{ℕ, ◌≡◌, List, [], ◌∷◌, All, ◌==◌, if◌then◌else◌}
use pix_vpn_service.Prelude.Int.{ℤ, pos, ◌+ℤ◌, ◌≤ℤ◌}
use pix_vpn_service.Db.{Db, User, TariffDuration, Payment, BalanceTransaction, PromoCode}
use pix_vpn_service.Session.{Session}

-- The sum of a user's transactions.
abbrev pub ledger_sum : ℕ → List BalanceTransaction → ℤ
ledger_sum uid [] = pos 0
ledger_sum uid (t ∷ ts) =
    if t.user_id == uid then ledger_sum uid ts +ℤ t.amount_kopecks else ledger_sum uid ts

-- Each transaction's `balance_after_kopecks` is the sum of its user's transactions up to it.
abbrev pub IsAudited : List BalanceTransaction → Type 0
IsAudited [] = Unit
IsAudited (t ∷ ts) =
    (t.balance_after_kopecks ≡ ledger_sum t.user_id ts +ℤ t.amount_kopecks) × IsAudited ts

-- Each user's balance is the sum of the user's transactions.
abbrev pub IsBalanced : List BalanceTransaction → List User → Type 0
IsBalanced ts = All (λ u. u.balance_kopecks ≡ ledger_sum u.id ts)

abbrev pub IsSolvent : List User → Type 0
IsSolvent = All (λ u. pos 0 ≤ℤ u.balance_kopecks)

abbrev pub IsPriced : List TariffDuration → Type 0
IsPriced = All (λ d. pos 0 ≤ℤ d.price_kopecks)

abbrev pub IsCharged : List Payment → Type 0
IsCharged = All (λ p. pos 0 ≤ℤ p.amount_kopecks)

abbrev pub IsGranted : List PromoCode → Type 0
IsGranted = All (λ p. pos 0 ≤ℤ p.value)

-- The last three are kept by the admin schemas (`Field(ge=0)`, `Field(ge=1)`) and by the services.
pub record IsLedger (db : Db) : Type 0 where
  pub balanced : IsBalanced db.balance_transactions db.users
  pub audited : IsAudited db.balance_transactions
  pub solvent : IsSolvent db.users
  pub priced : IsPriced db.durations
  pub charged : IsCharged db.payments
  pub granted : IsGranted db.promo_codes

-- The books are in order for the running request and as last committed.
pub record Books (s : Session) : Type 0 where
  pub live : IsLedger s.live
  pub saved : IsLedger s.saved
