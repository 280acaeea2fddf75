-- ===== src/Ledger/Posting.antt =====
-- One posting: a balance is changed and a transaction with the change is written.
use pix_vpn_service.Prelude.{
  ℕ, ◌≡◌, some, List, [], ◌∷◌, arith, All-find, find, find-test, update_where, ◌==◌, ==_iff,
}
use pix_vpn_service.Prelude.Int.{ℤ, pos, ◌+ℤ◌, ◌≤ℤ◌}
use pix_vpn_service.Db.{User, BalanceTransaction}
use pix_vpn_service.Tables.{with_balance}
use pix_vpn_service.Ledger.{ledger_sum, IsAudited, IsBalanced, IsSolvent}

-- A balance that was set to the sum with the new transaction matches it, and others are as before.
posting-IsBalanced :
    (uid : ℕ) (t : BalanceTransaction) (b : ℤ) (ts : List BalanceTransaction) (us : List User)
    → t.user_id ≡ uid
    → b ≡ ledger_sum uid ts +ℤ t.amount_kopecks
    → IsBalanced ts us
    → IsBalanced (t ∷ ts) (update_where (λ u. u.id == uid) (with_balance b) us)
posting-IsBalanced uid t b ts [] owner e h = tt
posting-IsBalanced uid t b ts (u ∷ us) owner e h =
    (ground (arith, ==_iff u.id uid), posting-IsBalanced uid t b ts us owner e h.1)

pub set_balance-IsSolvent :
    (uid : ℕ) (b : ℤ) (us : List User)
    → pos 0 ≤ℤ b
    → IsSolvent us
    → IsSolvent (update_where (λ u. u.id == uid) (with_balance b) us)
set_balance-IsSolvent uid b [] e h = tt
set_balance-IsSolvent uid b (u ∷ us) e h = (ground arith, set_balance-IsSolvent uid b us e h.1)

-- The user that `_lock_user` finds has the sum of the ledger for a balance.
pub locked_balance :
    (uid : ℕ) (u : User) (ts : List BalanceTransaction) (us : List User)
    → find (λ v. v.id == uid) us ≡ some u
    → IsBalanced ts us
    → u.balance_kopecks ≡ ledger_sum uid ts
locked_balance uid u ts us found h =
    let same : u.id ≡ uid = (==_iff u.id uid).0 (find-test (λ v. v.id == uid) us u found) in
    rw same at (All-find (λ v. v.balance_kopecks ≡ ledger_sum v.id ts) _ us u h found)

pub locked_solvent :
    (uid : ℕ) (u : User) (us : List User)
    → find (λ v. v.id == uid) us ≡ some u
    → IsSolvent us
    → pos 0 ≤ℤ u.balance_kopecks
locked_solvent uid u us found h = All-find (λ v. pos 0 ≤ℤ v.balance_kopecks) _ us u h found

-- A posting on the row that was found keeps the ledger balanced and audited.
pub posting :
    (uid : ℕ) (u : User) (t : BalanceTransaction) (ts : List BalanceTransaction) (us : List User)
    → find (λ v. v.id == uid) us ≡ some u
    → t.user_id ≡ uid
    → t.balance_after_kopecks ≡ u.balance_kopecks +ℤ t.amount_kopecks
    → IsBalanced ts us
    → IsAudited ts
    → IsBalanced
        (t ∷ ts)
        (update_where (λ v. v.id == uid) (with_balance t.balance_after_kopecks) us)
      × IsAudited (t ∷ ts)
posting uid u t ts us found owner after h audited =
    let total : u.balance_kopecks ≡ ledger_sum uid ts = locked_balance uid u ts us found h in
    let sum_after : t.balance_after_kopecks ≡ ledger_sum uid ts +ℤ t.amount_kopecks =
      rw total at after in
    (
      posting-IsBalanced uid t t.balance_after_kopecks ts us owner sum_after h,
      (rw owner sum_after, audited),
    )
