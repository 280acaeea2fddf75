-- ===== src/Ledger/Entries.antt =====
-- The writes that move money: a balance that is set, with the transaction that belongs to it.
use pix_vpn_service.Prelude.{
  ℕ, ◌≡◌, refl, false, some, inl, inr, find, Option-cases, List, arith, ◌==◌, update_where,
}
use pix_vpn_service.Prelude.Int.{ℤ, pos, ◌+ℤ◌, ◌-ℤ◌, neg, ltb_ℤ, int_laws, ◌≤ℤ◌}
use pix_vpn_service.Db.{User, BalanceTransaction}
use pix_vpn_service.Session.{Session, Result, err, no_result_found, Action, ◌>>=◌}
use pix_vpn_service.Session.Steps.{Ends}
use pix_vpn_service.Tables.{
  with_balance, find_user, post_entry, set_balance, insert_transaction, lock_user,
}
use pix_vpn_service.Ledger.{IsBalanced, IsAudited, IsSolvent, Books}
use pix_vpn_service.Ledger.Posting.{posting, locked_solvent, set_balance-IsSolvent}
use pix_vpn_service.Ledger.Frame.{Held}

-- Setting the balance of one user to `b` from books that are in order.
pub set_balance-Held :
    (uid : ℕ) (b : ℤ) (s : Session)
    → Books s
    → Held
        (update_where (λ u. u.id == uid) (with_balance b) s.live.users)
        s.live.balance_transactions
        (set_balance uid b s).1
unfolding set_balance
set_balance-Held uid b s books = record {
  users = refl;
  transactions = refl;
  priced = books.live.priced;
  charged = books.live.charged;
  granted = books.live.granted;
  saved = books.saved;
}

-- The transaction that belongs to a balance which was set closes the posting.
pub close_posting :
    (uid : ℕ) (u : User) (us : List User) (ts : List BalanceTransaction)
    (make : ℕ → BalanceTransaction) (t : BalanceTransaction) (s : Session)
    → make s.live.next_id ≡ t
    → find (λ v. v.id == uid) us ≡ some u
    → t.user_id ≡ uid
    → t.balance_after_kopecks ≡ u.balance_kopecks +ℤ t.amount_kopecks
    → pos 0 ≤ℤ t.balance_after_kopecks
    → IsBalanced ts us
    → IsAudited ts
    → IsSolvent us
    → Held (update_where (λ v. v.id == uid) (with_balance t.balance_after_kopecks) us) ts s
    → Books (insert_transaction make s).1
unfolding insert_transaction
close_posting uid u us ts make t s made found owner after solvent balanced audited all_solvent
      held =
    let posted = posting uid u t ts us found owner after balanced audited in
    record {
      live = record {
        balanced = rw (made, held.users, held.transactions) posted.0;
        audited = rw (made, held.transactions) posted.1;
        solvent =
            rw held.users
              (set_balance-IsSolvent uid t.balance_after_kopecks us solvent all_solvent);
        priced = held.priced;
        charged = held.charged;
        granted = held.granted;
      };
      saved = held.saved;
    }

-- A credit or a debit of the user that was found, with the transaction of the same amount.
pub post_entry-Books :
    (uid : ℕ) (u : User) (b : ℤ) (make : ℕ → BalanceTransaction) (s : Session)
    → find_user uid s.live ≡ some u
    → ((n : ℕ) → (make n).user_id ≡ uid)
    → ((n : ℕ) → (make n).balance_after_kopecks ≡ b)
    → ((n : ℕ) → b ≡ u.balance_kopecks +ℤ (make n).amount_kopecks)
    → pos 0 ≤ℤ b
    → Books s
    → Books (post_entry uid b make s).1
unfolding post_entry
post_entry-Books uid u b make s found owner after amount solvent books =
    let n : ℕ = s.live.next_id in
    close_posting uid u s.live.users s.live.balance_transactions make (make n)
      (set_balance uid b s).1 refl found (owner n) (rw (after n) (amount n)) (rw (after n) solvent)
      books.live.balanced books.live.audited books.live.solvent
      (rw (after n) (set_balance-Held uid b s books))

-- `_lock_user` finds a row or raises.
pub lock_step :
    {A : Type 0} (P : Result A × Session → Type 0) (uid : ℕ) (k : User → Action A) (s : Session)
    → P (err no_result_found, s)
    → ((u : User) → find_user uid s.live ≡ some u → P (k u s))
    → P ((lock_user uid >>= k) s)
unfolding lock_user ◌>>=◌
lock_step P uid k s missing each = elim (Option-cases (find_user uid s.live)) [
  | inl none_found ↦ rw none_found missing
  | inr (u, found) ↦ rw found (each u found)
]

pub lock_then :
    {A : Type 0} (uid : ℕ) (k : User → Action A) (s : Session)
    → Books s
    → ((u : User) → find_user uid s.live ≡ some u → Books (k u s).1)
    → Books ((lock_user uid >>= k) s).1
lock_then uid k s b each = lock_step (Ends Books) uid k s b each

pub find_user_solvent :
    (uid : ℕ) (u : User) (s : Session)
    → find_user uid s.live ≡ some u
    → Books s
    → pos 0 ≤ℤ u.balance_kopecks
find_user_solvent uid u s found b = locked_solvent uid u s.live.users found b.live.solvent

pub +ℤ_solvent : (a b : ℤ) → pos 0 ≤ℤ a → pos 0 ≤ℤ b → pos 0 ≤ℤ a +ℤ b
+ℤ_solvent a b h k = omega int_laws

pub -ℤ_neg : (a b : ℤ) → a -ℤ b ≡ a +ℤ neg b
-ℤ_neg a b = grind int_laws

pub -ℤ_solvent : (a b : ℤ) → ltb_ℤ a b ≡ false → pos 0 ≤ℤ a -ℤ b
unfolding ◌-ℤ◌
-ℤ_solvent a b h = ground arith
