-- ===== src/Ledger/Frame.antt =====
-- The writes that move no money keep the books in order.
use pix_vpn_service.Prelude.{ℕ, ◌≡◌, refl, List, All-update_where, arith, ◌==◌, update_where}
use pix_vpn_service.Prelude.Int.{pos, ◌≤ℤ◌}
use pix_vpn_service.Db.{
  User, BalanceTransaction, Subscription, Payment, PromoCode, PromoActivation, Referral,
  OutboxMessage,
}
use pix_vpn_service.Session.{Session, Action, commit}
use pix_vpn_service.Session.Preserves.{Preserves, preserves_rules}
use pix_vpn_service.Tables.{
  lock_user, insert_subscription, update_subscription, insert_payment, update_payment,
  insert_activation, one_more, increment_activations, insert_referral, update_referral,
  insert_outbox,
}
use pix_vpn_service.Ledger.{
  IsLedger, IsBalanced, IsAudited, IsSolvent, IsPriced, IsCharged, IsGranted, Books,
}

-- The users and the transactions are these, and the rest of the invariant holds.
pub record Held (us : List User) (ts : List BalanceTransaction) (s : Session) : Type 0 where
  pub users : s.live.users ≡ us
  pub transactions : s.live.balance_transactions ≡ ts
  pub priced : IsPriced s.live.durations
  pub charged : IsCharged s.live.payments
  pub granted : IsGranted s.live.promo_codes
  pub saved : IsLedger s.saved

pub Held-Books :
    {us : List User} {ts : List BalanceTransaction} {s : Session}
    → Held us ts s
    → IsBalanced ts us
    → IsAudited ts
    → IsSolvent us
    → Books s
Held-Books h balanced audited solvent = record {
  live = record {
    balanced = rw (h.users, h.transactions) balanced;
    audited = rw h.transactions audited;
    solvent = rw h.users solvent;
    priced = h.priced;
    charged = h.charged;
    granted = h.granted;
  };
  saved = h.saved;
}

-- What holds the users and the transactions keeps the books.
pub hold :
    {A : Type 0} {m : Action A}
    → ((us : List User) (ts : List BalanceTransaction) → Preserves (Held us ts) m)
    → Preserves Books m
hold {m = m} keep = record {
  from = λ s b.
      Held-Books
        ((keep s.live.users s.live.balance_transactions).from s (record {
          users = refl;
          transactions = refl;
          priced = b.live.priced;
          charged = b.live.charged;
          granted = b.live.granted;
          saved = b.saved;
        }))
        b.live.balanced b.live.audited b.live.solvent;
}

update-IsCharged :
    (pid : ℕ) (f : Payment → Payment) (ps : List Payment)
    → ((p : Payment) → (f p).amount_kopecks ≡ p.amount_kopecks)
    → IsCharged ps
    → IsCharged (update_where (λ p. p.id == pid) f ps)
update-IsCharged pid f ps same h =
    All-update_where (λ p. pos 0 ≤ℤ p.amount_kopecks) (λ p. pos 0 ≤ℤ p.amount_kopecks) _ f ps
      (λ p old hit. rw (same p) old) (λ p old miss. old) h

one_more-IsGranted :
    (pid : ℕ) (ps : List PromoCode)
    → IsGranted ps
    → IsGranted (update_where (λ p. p.id == pid) one_more ps)
one_more-IsGranted pid ps h =
    All-update_where (λ p. pos 0 ≤ℤ p.value) (λ p. pos 0 ≤ℤ p.value) _ one_more ps
      (λ p old hit. old) (λ p old miss. old) h

module _ {us : List User} {ts : List BalanceTransaction} where
  pub insert_subscription-Held :
      (make : ℕ → Subscription) → Preserves (Held us ts) (insert_subscription make)
  unfolding insert_subscription
  insert_subscription-Held make = record { from = λ s held. ground arith }

  pub update_subscription-Held :
      (sid : ℕ) (f : Subscription → Subscription)
      → Preserves (Held us ts) (update_subscription sid f)
  unfolding update_subscription
  update_subscription-Held sid f = record { from = λ s held. ground arith }

  pub insert_payment-Held :
      (make : ℕ → Payment)
      → ((n : ℕ) → pos 0 ≤ℤ (make n).amount_kopecks)
      → Preserves (Held us ts) (insert_payment make)
  unfolding insert_payment
  insert_payment-Held make h = record { from = λ s held. ground (arith, h s.live.next_id) }

  pub update_payment-Held :
      (pid : ℕ) (f : Payment → Payment)
      → ((p : Payment) → (f p).amount_kopecks ≡ p.amount_kopecks)
      → Preserves (Held us ts) (update_payment pid f)
  unfolding update_payment
  update_payment-Held pid f h = record {
    from = λ s held. ground (arith, update-IsCharged pid f s.live.payments h);
  }

  pub insert_activation-Held :
      (make : ℕ → PromoActivation) → Preserves (Held us ts) (insert_activation make)
  unfolding insert_activation
  insert_activation-Held make = record { from = λ s held. ground arith }

  pub increment_activations-Held : (pid : ℕ) → Preserves (Held us ts) (increment_activations pid)
  unfolding increment_activations
  increment_activations-Held pid = record {
    from = λ s held. ground (arith, one_more-IsGranted pid s.live.promo_codes);
  }

  pub insert_referral-Held : (make : ℕ → Referral) → Preserves (Held us ts) (insert_referral make)
  unfolding insert_referral
  insert_referral-Held make = record { from = λ s held. ground arith }

  pub update_referral-Held :
      (rid : ℕ) (f : Referral → Referral) → Preserves (Held us ts) (update_referral rid f)
  unfolding update_referral
  update_referral-Held rid f = record { from = λ s held. ground arith }

  pub insert_outbox-Held : (make : ℕ → OutboxMessage) → Preserves (Held us ts) (insert_outbox make)
  unfolding insert_outbox
  insert_outbox-Held make = record { from = λ s held. ground arith }

pub insert_subscription-Books :
    (make : ℕ → Subscription) → Preserves Books (insert_subscription make)
insert_subscription-Books make = hold (λ us ts. insert_subscription-Held make)

pub update_subscription-Books :
    (sid : ℕ) (f : Subscription → Subscription) → Preserves Books (update_subscription sid f)
update_subscription-Books sid f = hold (λ us ts. update_subscription-Held sid f)

pub insert_payment-Books :
    (make : ℕ → Payment)
    → ((n : ℕ) → pos 0 ≤ℤ (make n).amount_kopecks)
    → Preserves Books (insert_payment make)
insert_payment-Books make h = hold (λ us ts. insert_payment-Held make h)

pub update_payment-Books :
    (pid : ℕ) (f : Payment → Payment)
    → ((p : Payment) → (f p).amount_kopecks ≡ p.amount_kopecks)
    → Preserves Books (update_payment pid f)
update_payment-Books pid f h = hold (λ us ts. update_payment-Held pid f h)

pub insert_activation-Books :
    (make : ℕ → PromoActivation) → Preserves Books (insert_activation make)
insert_activation-Books make = hold (λ us ts. insert_activation-Held make)

pub increment_activations-Books : (pid : ℕ) → Preserves Books (increment_activations pid)
increment_activations-Books pid = hold (λ us ts. increment_activations-Held pid)

pub insert_referral-Books : (make : ℕ → Referral) → Preserves Books (insert_referral make)
insert_referral-Books make = hold (λ us ts. insert_referral-Held make)

pub update_referral-Books :
    (rid : ℕ) (f : Referral → Referral) → Preserves Books (update_referral rid f)
update_referral-Books rid f = hold (λ us ts. update_referral-Held rid f)

pub insert_outbox-Books : (make : ℕ → OutboxMessage) → Preserves Books (insert_outbox make)
insert_outbox-Books make = hold (λ us ts. insert_outbox-Held make)

pub commit-Books : Preserves Books commit
unfolding commit
commit-Books = record { from = λ s b. record { live = b.live; saved = b.live } }

pub lock_user-Books : (uid : ℕ) → Preserves Books (lock_user uid)
unfolding lock_user
lock_user-Books uid = search preserves_rules

pub ruleset held_rules = (
  preserves_rules, insert_subscription-Held, update_subscription-Held, insert_payment-Held,
  update_payment-Held, insert_activation-Held, increment_activations-Held, insert_referral-Held,
  update_referral-Held, insert_outbox-Held,
)

pub ruleset books_rules = (
  preserves_rules, commit-Books, lock_user-Books, insert_subscription-Books,
  update_subscription-Books, insert_payment-Books, update_payment-Books, insert_activation-Books,
  increment_activations-Books, insert_referral-Books, update_referral-Books, insert_outbox-Books,
)
