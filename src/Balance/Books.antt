-- ===== src/Balance/Books.antt =====
-- The balance service and the books.
use pix_vpn_service.Prelude.{
  ℕ, ◌≡◌, refl, Option, none, some, inl, inr, Bool-cases, List, arith, find, update_where, ◌==◌,
}
use pix_vpn_service.Prelude.Int.{ℤ, pos, ◌+ℤ◌, ◌-ℤ◌, ◌≤ℤ◌, neg, is_zero}
use pix_vpn_service.Db.{User, Tariff, TariffDuration, BalanceTransaction}
use pix_vpn_service.Session.{
  Session, Result, ok, err, Error, northline_unavailable, northline_client, insufficient_balance,
  no_result_found, return, raise, ◌>>=◌, best_effort, commit,
}
use pix_vpn_service.Session.Preserves.{
  Preserves, Preserves-return, Preserves-raise, Preserves-bind, then_preserves,
}
use pix_vpn_service.Session.Steps.{Ends, then_at, then_each, query_then, read_then, raise_if_then}
use pix_vpn_service.Env.{Env, KeyResponse}
use pix_vpn_service.Tables.{
  with_balance, set_balance, insert_transaction, insert_subscription, insert_payment,
  update_subscription, update_payment,
}
use pix_vpn_service.Ledger.{Books, IsBalanced, IsAudited, IsSolvent}
use pix_vpn_service.Ledger.Frame.{
  Held, held_rules, books_rules, commit-Books, insert_subscription-Held, insert_payment-Held,
  update_subscription-Held, update_payment-Held,
}
use pix_vpn_service.Ledger.Entries.{
  lock_step, lock_then, post_entry-Books, close_posting, set_balance-Held, find_user_solvent,
  +ℤ_solvent, -ℤ_neg, -ℤ_solvent,
}
use pix_vpn_service.Promo.Money.{record_discount_activation-Held}
use pix_vpn_service.Tariffs.{Quote, quote, chosen_promo}
use pix_vpn_service.Tariffs.Quotes.{
  quote_bounds, get_tariff-reads, get_duration-reads, duration_priced,
}
use pix_vpn_service.Balance.{
  add_admin_adjust, Purchase, pending_subscription, paid_payment, settle_promo, record_purchase,
  debit_purchase, refund_after_failure, deliver_key, deliver, purchase_with_balance,
}

-- An administrator's adjustment, made or refused, keeps the books in order.
pub add_admin_adjust-Books : (uid : ℕ) (amount : ℤ) → Preserves Books (add_admin_adjust uid amount)
unfolding add_admin_adjust
add_admin_adjust-Books uid amount = record {
  from = λ s b. lock_then uid _ s b λ u found. elim (Bool-cases (is_zero amount)) [
    | inl nothing ↦ rw nothing (unfold return in b)
    | inr change ↦ rw change (
        raise_if_then (Ends Books) _ _ _ s (λ _. b)
          λ covered.
            then_preserves Books _ _ s
              (post_entry-Books uid u (u.balance_kopecks +ℤ amount) _ s found (λ n. refl)
                (λ n. refl) (λ n. refl) (ground arith) b)
              (λ _. search books_rules))
  ];
}

module _ (env : Env) where
  settle_promo-Held :
      {us : List User} {ts : List BalanceTransaction} (applied : Option (ℕ × ℤ)) (uid pid : ℕ)
      (d : ℤ)
      → Preserves (Held us ts) (settle_promo env applied uid pid d)
  unfolding settle_promo
  settle_promo-Held none uid pid d = search held_rules
  settle_promo-Held (some (promo, percent)) uid pid d =
      search (held_rules, record_discount_activation-Held)

  settle_promo_runs :
      (applied : Option (ℕ × ℤ)) (uid pid : ℕ) (d : ℤ) (s : Session)
      → settle_promo env applied uid pid d s ≡ (ok tt, (settle_promo env applied uid pid d s).1)
  unfolding settle_promo return best_effort
  settle_promo_runs none uid pid d s = refl
  settle_promo_runs (some (promo, percent)) uid pid d s = refl

  -- From a balance that was just set, the rows of a purchase end with the transaction that is due.
  record_purchase-Books :
      (user u : User) (tariff : Tariff) (duration : TariffDuration) (q : Quote) (b : ℤ)
      (us : List User) (ts : List BalanceTransaction) (s : Session)
      → find (λ v. v.id == user.id) us ≡ some u
      → b ≡ u.balance_kopecks +ℤ neg q.price
      → pos 0 ≤ℤ b
      → pos 0 ≤ℤ q.price
      → IsBalanced ts us
      → IsAudited ts
      → IsSolvent us
      → Held (update_where (λ v. v.id == user.id) (with_balance b) us) ts s
      → Books (record_purchase env user tariff duration q b s).1
  unfolding record_purchase insert_subscription insert_payment
  record_purchase-Books user u tariff duration q b us ts s found e solvent price balanced audited
        all_solvent held =
      let row = pending_subscription env user tariff duration in
      let s1 : Session = (insert_subscription row s).1 in
      let pay = paid_payment env user (row s.live.next_id) duration.price_kopecks q in
      let s2 : Session = (insert_payment pay s1).1 in
      then_at (Ends Books) _ _ s _ _ refl (
        then_at (Ends Books) _ _ s1 _ _ refl (
          then_at (Ends Books) _ _ s2 _ _ (settle_promo_runs _ _ _ _ _) (
            then_preserves Books _ _ _
              (close_posting user.id u us ts _ _ _ refl found refl e solvent balanced audited
                all_solvent
                ((settle_promo-Held _ _ _ _).from s2 (
                  (insert_payment-Held pay (λ n. price)).from s1
                    ((insert_subscription-Held row).from s held))))
              (λ _. Preserves-bind commit _ commit-Books (λ _. Preserves-return _)))))

  debit_purchase-Books :
      (user : User) (tid did : ℕ) (promo_id : Option ℕ)
      → Preserves Books (debit_purchase env user tid did promo_id)
  unfolding debit_purchase set_balance
  debit_purchase-Books user tid did promo_id = record {
    from = λ s b.
        read_then (Ends Books) _ _ s (get_tariff-reads tid s) (λ _ _. b)
          λ tariff _.
            read_then (Ends Books) _ _ s (get_duration-reads tid did s) (λ _ _. b)
              λ duration found_duration. query_then (Ends Books) _ _ s (
                let q = quote duration.price_kopecks (chosen_promo promo_id s.live) in
                lock_then user.id _ s b λ u found.
                  raise_if_then (Ends Books) _ _ _ s (λ _. b)
                    λ covered. then_at (Ends Books) _ _ s tt _ refl (
                      record_purchase-Books user u tariff duration q (u.balance_kopecks -ℤ q.price)
                        s.live.users s.live.balance_transactions _ found
                        (-ℤ_neg u.balance_kopecks q.price)
                        (-ℤ_solvent u.balance_kopecks q.price covered)
                        (quote_bounds duration.price_kopecks (chosen_promo promo_id s.live)
                          (duration_priced tid did s duration found_duration b.live.priced)).0
                        b.live.balanced b.live.audited b.live.solvent
                        (set_balance-Held user.id (u.balance_kopecks -ℤ q.price) s b)));
  }

refund-Books :
    (uid sid pid : ℕ) (price : ℤ) (s : Session)
    → pos 0 ≤ℤ price
    → Books s
    → Books (refund_after_failure uid sid pid price s).1
unfolding refund_after_failure set_balance update_subscription update_payment
refund-Books uid sid pid price s h b = lock_then uid _ s b λ u found.
    then_at (Ends Books) _ _ s tt _ refl (
      then_at (Ends Books) _ _ _ tt _ refl (
        then_at (Ends Books) _ _ _ tt _ refl (
          then_preserves Books _ _ _
            (close_posting uid u s.live.users s.live.balance_transactions _ _ _ refl found refl refl
              (+ℤ_solvent u.balance_kopecks price (find_user_solvent uid u s found b) h)
              b.live.balanced b.live.audited b.live.solvent
              ((update_payment-Held pid _ (λ p. refl)).from _ (
                (update_subscription-Held sid _).from _
                  (set_balance-Held uid (u.balance_kopecks +ℤ price) s b))))
            (λ _. search books_rules))))

abbrev HasPrice : Result Purchase × Session → Type 0
HasPrice o = (p : Purchase) → o.0 ≡ ok p → pos 0 ≤ℤ p.price

refused : (e : Error) (s : Session) → HasPrice (err e, s)
refused e s p h = cc

module _ (env : Env) where
  record_purchase_price :
      (user : User) (tariff : Tariff) (duration : TariffDuration) (q : Quote) (b : ℤ) (s : Session)
      → pos 0 ≤ℤ q.price
      → HasPrice (record_purchase env user tariff duration q b s)
  unfolding record_purchase settle_promo best_effort insert_subscription insert_payment
      insert_transaction commit return ◌>>=◌
  record_purchase_price user tariff duration q b s h p e = ground arith

  -- A purchase is never paid for with a negative price.
  purchase_price :
      (user : User) (tid did : ℕ) (promo_id : Option ℕ) (s : Session)
      → Books s
      → HasPrice (debit_purchase env user tid did promo_id s)
  unfolding debit_purchase set_balance
  purchase_price user tid did promo_id s b =
      read_then HasPrice _ _ s (get_tariff-reads tid s) (λ e _. refused e s)
        λ tariff _.
          read_then HasPrice _ _ s (get_duration-reads tid did s) (λ e _. refused e s)
            λ duration found. query_then HasPrice _ _ s (
              lock_step HasPrice user.id _ s (refused no_result_found s) λ u _.
                raise_if_then HasPrice _ _ _ s (λ _. refused insufficient_balance s)
                  λ _. then_at HasPrice _ _ s tt _ refl (
                    record_purchase_price user tariff duration _ _ _
                      (quote_bounds duration.price_kopecks (chosen_promo promo_id s.live)
                        (duration_priced tid did s duration found b.live.priced)).0))

deliver_key-Books :
    (env : Env) (p : Purchase) (key : KeyResponse) → Preserves Books (deliver_key env p key)
unfolding deliver_key
deliver_key-Books env p key = search books_rules

deliver-Books :
    (env : Env) (user : User) (p : Purchase) (r : Result KeyResponse) (s : Session)
    → pos 0 ≤ℤ p.price
    → Books s
    → Books (deliver env user p r s).1
unfolding deliver raise
deliver-Books env user p (ok key) s h b = let k = deliver_key-Books env p key in k.from s b
deliver-Books env user p (err northline_unavailable) s h b =
    then_preserves Books _ _ s (refund-Books user.id p.sub.id p.payment.id p.price s h b)
      (λ _. Preserves-raise northline_unavailable)
deliver-Books env user p (err northline_client) s h b =
    then_preserves Books _ _ s (refund-Books user.id p.sub.id p.payment.id p.price s h b)
      (λ _. Preserves-raise northline_unavailable)
deliver-Books env user p (err e) s h b = b

-- A purchase from the balance, whether it is delivered, refused or refunded, keeps the books in order.
pub purchase_with_balance-Books :
    (env : Env) (user : User) (tid did : ℕ) (promo_id : Option ℕ)
    → Preserves Books (purchase_with_balance env user tid did promo_id)
unfolding purchase_with_balance
purchase_with_balance-Books env user tid did promo_id = record {
  from = λ s b.
      let after : Books (debit_purchase env user tid did promo_id s).1 =
        (debit_purchase-Books env user tid did promo_id).from s b in
      then_each (Ends Books) _ _ s (λ e _. after)
        λ p done.
          deliver-Books env user p _ _ (purchase_price env user tid did promo_id s b p done) after;
}
