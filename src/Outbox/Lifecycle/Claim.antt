-- ===== src/Outbox/Lifecycle/Claim.antt =====
-- `fetch_pending`: what a claim takes, and that no message is tried more than five times.
use pix_vpn_service.Prelude.{
  ℕ, zero, suc, ◌≤◌, ◌≡◌, refl, true, false, ◌||◌, List, [], ◌∷◌, inl, inr, Bool-cases, arith, All,
  All-update_where, length, update_where, ◌==◌,
}
use pix_vpn_service.Db.{OutboxMessage}
use pix_vpn_service.Session.{Session, ok, ◌>>=◌, modify}
use pix_vpn_service.Outbox.{
  is_due, insert_by_due, due_in_order, first_rows, is_among, claimed, claim_rows, fetch_pending,
}
use pix_vpn_service.Outbox.Lifecycle.{IsRetriable}

-- No two rows have one id: it is the primary key.
abbrev pub IsKeyed : List OutboxMessage → Type 0
IsKeyed [] = Unit
IsKeyed (m ∷ ms) = All (λ x. (m.id == x.id) ≡ false) ms × IsKeyed ms

among-insert :
    (m x : OutboxMessage) (ms : List OutboxMessage)
    → is_among (insert_by_due m ms) x ≡ ((m.id == x.id) || is_among ms x)
unfolding is_among insert_by_due
among-insert m x [] = refl
among-insert m x (y ∷ ys) = ground (arith, among-insert m x ys)

-- Of the rows in order only due ones are among the rows that are taken.
other_not-among :
    (now : ℕ) (x : OutboxMessage) (ms : List OutboxMessage)
    → All (λ y. (x.id == y.id) ≡ false) ms
    → is_among (due_in_order now ms) x ≡ false
unfolding due_in_order
other_not-among now x [] h = unfold is_among in refl
other_not-among now x (m ∷ ms) h =
    ground (arith, other_not-among now x ms h.1, among-insert m x (due_in_order now ms))

among-first :
    (n : ℕ) (x : OutboxMessage) (ms : List OutboxMessage)
    → is_among (first_rows n ms) x ≡ true
    → is_among ms x ≡ true
unfolding is_among first_rows
among-first zero x ms h = cc
among-first (suc n) x [] h = cc
among-first (suc n) x (m ∷ ms) h = ground (arith, among-first n x ms)

abbrev TakenIsDue : ℕ → List OutboxMessage → OutboxMessage → Type 0
TakenIsDue now ms x = is_among (due_in_order now ms) x ≡ true → is_due now x ≡ true

taken_tail :
    (now : ℕ) (m : OutboxMessage) (ms : List OutboxMessage) (x : OutboxMessage)
    → (m.id == x.id) ≡ false
    → TakenIsDue now ms x
    → TakenIsDue now (m ∷ ms) x
unfolding due_in_order
taken_tail now m ms x other h taken = h (ground (arith, among-insert m x (due_in_order now ms)))

All-both :
    (P Q R : OutboxMessage → Type 0) (xs : List OutboxMessage)
    → ((x : OutboxMessage) → P x → Q x → R x)
    → All P xs
    → All Q xs
    → All R xs
All-both P Q R [] k hp hq = tt
All-both P Q R (x ∷ xs) k hp hq = (k x hp.0 hq.0, All-both P Q R xs k hp.1 hq.1)

taken_head :
    (now : ℕ) (m : OutboxMessage) (ms : List OutboxMessage)
    → All (λ y. (m.id == y.id) ≡ false) ms
    → TakenIsDue now (m ∷ ms) m
unfolding due_in_order
taken_head now m ms keyed taken = elim (Bool-cases (is_due now m)) [
  | inl due ↦ due
  | inr early ↦ absurd (not_taken early)
]
  where
    not_taken : is_due now m ≡ false → ⊥
    not_taken early = ground (arith, other_not-among now m ms keyed)

All-taken_due : (now : ℕ) (ms : List OutboxMessage) → IsKeyed ms → All (TakenIsDue now ms) ms
All-taken_due now [] h = tt
All-taken_due now (m ∷ ms) h = (
  taken_head now m ms h.0,
  All-both (λ x. (m.id == x.id) ≡ false) (TakenIsDue now ms) (TakenIsDue now (m ∷ ms)) ms
      (λ x other due. taken_tail now m ms x other due) h.0 (All-taken_due now ms h.1),
)

claimed-IsRetriable :
    (now : ℕ) (m : OutboxMessage) → is_due now m ≡ true → IsRetriable m → IsRetriable (claimed m)
claimed-IsRetriable now m due h = record { tried = ground (arith, h.waiting); waiting = λ e. cc }

-- Where no two messages have one id, a claim keeps every message within five attempts, and a waiting
-- one below five.
pub fetch_pending-AllRetriable :
    (now limit : ℕ) (s : Session)
    → IsKeyed s.live.outbox
    → All IsRetriable s.live.outbox
    → All IsRetriable (fetch_pending now limit s).1.live.outbox
unfolding fetch_pending ◌>>=◌ modify
fetch_pending-AllRetriable now limit s keyed h =
    let ms = s.live.outbox in
    All-update_where (λ x. IsRetriable x × TakenIsDue now ms x) IsRetriable _ claimed ms
      (λ x old hit.
        claimed-IsRetriable now x (old.1 (among-first limit x (due_in_order now ms) hit)) old.0)
      (λ x old miss. old.0)
      (All-both IsRetriable (TakenIsDue now ms) (λ x. IsRetriable x × TakenIsDue now ms x) ms
        (λ x r d. (r, d)) h (All-taken_due now ms keyed))

same_id-among :
    (rows : List OutboxMessage) (x y : OutboxMessage)
    → x.id ≡ y.id
    → is_among rows x ≡ is_among rows y
unfolding is_among
same_id-among [] x y e = refl
same_id-among (m ∷ ms) x y e = ground (arith, same_id-among ms x y e)

due-among :
    (now : ℕ) (rows : List OutboxMessage) (x : OutboxMessage) (ms : List OutboxMessage)
    → All (λ y. is_due now y ≡ true → is_among rows y ≡ false) ms
    → is_among (due_in_order now ms) x ≡ true
    → is_among rows x ≡ false
unfolding due_in_order
due-among now rows x [] h taken = unfold is_among in cc
due-among now rows x (m ∷ ms) h taken = ground (
  arith,
  h.0,
  due-among now rows x ms h.1,
  among-insert m x (due_in_order now ms),
  same_id-among rows m x,
)

claimed-not-due :
    (now : ℕ) (rows ms : List OutboxMessage)
    → All
        (λ y. is_due now y ≡ true → is_among rows y ≡ false)
        (update_where (is_among rows) claimed ms)
claimed-not-due now rows [] = tt
claimed-not-due now rows (m ∷ ms) = (ground arith, claimed-not-due now rows ms)

-- A message that a second claim takes was not taken by the claim before it, at whatever times and
-- with whatever limits the two are made.
pub fetch_pending_exclusive :
    (now limit now' limit' : ℕ) (s : Session) (x : OutboxMessage)
    → let rows = first_rows limit (due_in_order now s.live.outbox) in
      let s' = (fetch_pending now limit s).1 in
      is_among (first_rows limit' (due_in_order now' s'.live.outbox)) x ≡ true
      → is_among rows x ≡ false
unfolding fetch_pending ◌>>=◌ modify
fetch_pending_exclusive now limit now' limit' s x taken =
    let rows = first_rows limit (due_in_order now s.live.outbox) in
    due-among now' rows x (update_where (is_among rows) claimed s.live.outbox)
      (claimed-not-due now' rows s.live.outbox) (among-first limit' x _ taken)

length-first_rows : (n : ℕ) (ms : List OutboxMessage) → length (first_rows n ms) ≤ n
unfolding first_rows
length-first_rows zero ms = omega arith
length-first_rows (suc n) [] = omega arith
length-first_rows (suc n) (m ∷ ms) = omega (arith, length-first_rows n ms)

length-claim_rows : (ms : List OutboxMessage) → length (claim_rows ms) ≡ length ms
unfolding claim_rows
length-claim_rows [] = refl
length-claim_rows (m ∷ ms) = omega (arith, length-claim_rows ms)

-- A claim succeeds, and returns at most `limit` messages.
pub fetch_pending_limit :
    (now limit : ℕ) (s : Session)
    → (rows : List OutboxMessage) × ((fetch_pending now limit s).0 ≡ ok rows)
      × (length rows ≤ limit)
unfolding fetch_pending ◌>>=◌ modify
fetch_pending_limit now limit s =
    let taken = first_rows limit (due_in_order now s.live.outbox) in
    (
      claim_rows taken,
      refl,
      omega (
        arith,
        length-claim_rows taken,
        length-first_rows limit (due_in_order now s.live.outbox),
      ),
    )
