-- ===== src/Users/Exact.antt =====
-- A balance that is set is the balance that is shown, and setting it once more does nothing.
use pix_vpn_service.Prelude.{
  ℕ, ◌≡◌, refl, true, false, some, arith, inl, inr, Bool-cases, Option-cases, find-test, ==_iff,
  ◌==◌,
}
use pix_vpn_service.Prelude.Int.{ℤ, ◌+ℤ◌, ◌-ℤ◌, ltb_ℤ, is_zero, int_laws, -ℤ_parts, eq_of_parts}
use pix_vpn_service.Db.{User, Payload, BalanceTransaction}
use pix_vpn_service.Session.{
  Session, Error, Result, ok, err, Action, return, raise, query, or_raise, raise_if, modify, commit,
  ◌>>=◌, ◌>>◌, user_not_found, balance_target_too_high,
}
use pix_vpn_service.Session.Steps.{raise_if_then, then_each}
use pix_vpn_service.Tables.{find_user, set_balance, insert_transaction, post_entry, insert_outbox}
use pix_vpn_service.Ledger.Entries.{lock_step}
use pix_vpn_service.Balance.Shown.{Shows, set_balance-Shows}
use pix_vpn_service.Balance.{add_admin_adjust}
use pix_vpn_service.Outbox.{enqueue_message}
use pix_vpn_service.Users.{get_user_or_404, hard_cap, move_balance, set_user_balance}

-- An action that succeeds returns this balance, and the user's row shows it.
abbrev Sets : ℕ → ℤ → Result ℤ × Session → Type 0
Sets uid target (r, s) = (b : ℤ) → r ≡ ok b → (b ≡ target) × Shows uid target s

failed-Sets : (uid : ℕ) (target : ℤ) (e : Error) (s : Session) → Sets uid target (err e, s)
failed-Sets uid target e s b failed = cc

difference : (a b : ℤ) → a +ℤ (b -ℤ a) ≡ b
difference a b = omega int_laws

no_difference : (a b : ℤ) → is_zero (b -ℤ a) ≡ true → a ≡ b
no_difference a b h = ground (arith, -ℤ_parts b a, eq_of_parts a b)

posted-Shows :
    (uid : ℕ) (b : ℤ) (make : ℕ → BalanceTransaction) (u : User) (s : Session)
    → find_user uid s.live ≡ some u
    → Shows uid b (post_entry uid b make s).1
unfolding post_entry set_balance insert_transaction modify ◌>>=◌
posted-Shows uid b make u s found =
    let k : Shows uid b (set_balance uid b s).1 = set_balance-Shows uid b u s found in
    record { user = k.user; found = k.found; balance = k.balance }

returned-Sets : (uid : ℕ) (b : ℤ) (s : Session) → Shows uid b s → Sets uid b (return b s)
unfolding return
returned-Sets uid b s h b' e = (cc, h)

-- The message and the commit keep it.
told-Sets :
    (now uid chat : ℕ) (payload : Payload) (target b : ℤ) (s : Session)
    → b ≡ target
    → Shows uid target s
    → Sets uid target ((do enqueue_message now uid chat payload; commit; return b) s)
unfolding enqueue_message insert_outbox commit return ◌>>=◌
told-Sets now uid chat payload target b s same h b' e =
    (cc, record { user = h.user; found = h.found; balance = h.balance })

-- The adjustment by the difference, which is not zero.
adjusted-Sets :
    (uid : ℕ) (target : ℤ) (u : User) (s : Session)
    → find_user uid s.live ≡ some u
    → is_zero (target -ℤ u.balance_kopecks) ≡ false
    → Sets uid target (add_admin_adjust uid (target -ℤ u.balance_kopecks) s)
unfolding add_admin_adjust
adjusted-Sets uid target u s found moves =
    let P = Sets uid target in
    lock_step P uid _ s (failed-Sets uid target _ s) λ v found'.
      let same : v ≡ u = cc in
      let exact : v.balance_kopecks +ℤ (target -ℤ u.balance_kopecks) ≡ target =
        rw same (difference u.balance_kopecks target) in
      rw (moves, exact)
        (raise_if_then P _ _ _ s (λ e. failed-Sets uid target _ s)
          λ e.
            then_each P _ _ s (λ x h. failed-Sets uid target x _)
              λ done h. returned-Sets uid target _ (posted-Shows uid target _ u s found))

moved-Sets :
    (now uid : ℕ) (target : ℤ) (u : User) (s : Session)
    → u.id ≡ uid
    → find_user uid s.live ≡ some u
    → is_zero (target -ℤ u.balance_kopecks) ≡ false
    → Sets uid target (move_balance now u (target -ℤ u.balance_kopecks) s)
unfolding move_balance
moved-Sets now uid target u s own found moves = rw own (
    then_each (Sets uid target) _ _ s (λ x h. failed-Sets uid target x _)
      λ b h.
        let done = adjusted-Sets uid target u s found moves b h in
        told-Sets now uid u.tg_id _ target b _ done.0 done.1)

get_user_then :
    {B : Type 0} (P : Result B × Session → Type 0) (uid : ℕ) (k : User → Action B) (s : Session)
    → P (err user_not_found, s)
    → ((u : User) → find_user uid s.live ≡ some u → P (k u s))
    → P ((get_user_or_404 uid >>= k) s)
unfolding get_user_or_404 or_raise return raise query ◌>>=◌
get_user_then P uid k s missing each = elim (Option-cases (find_user uid s.live)) [
  | inl none_found ↦ rw none_found missing
  | inr (u, found) ↦ rw found (each u found)
]

set-Sets :
    (now uid : ℕ) (target : ℤ) (s : Session) → Sets uid target (set_user_balance now uid target s)
unfolding set_user_balance
set-Sets now uid target s =
    let P = Sets uid target in
    raise_if_then P _ _ _ s (λ e. failed-Sets uid target _ s)
      λ e. get_user_then P uid _ s (failed-Sets uid target _ s) λ u found.
        let own : u.id ≡ uid =
          (==_iff u.id uid).0 (find-test (λ x. x.id == uid) s.live.users u found) in
        elim (Bool-cases (is_zero (target -ℤ u.balance_kopecks))) [
          | inl t ↦
              let same = no_difference u.balance_kopecks target t in
              let h : Shows uid target s = record { user = u; found = found; balance = same } in
              rw (t, same) (returned-Sets uid target s h)
          | inr f ↦ rw f (moved-Sets now uid target u s own found f)
        ]

-- Where the user's row shows the target already, the request changes nothing.
still-set :
    (now uid : ℕ) (target : ℤ) (s : Session)
    → ltb_ℤ hard_cap target ≡ false
    → Shows uid target s
    → set_user_balance now uid target s ≡ (ok target, s)
unfolding set_user_balance get_user_or_404 raise_if query or_raise return ◌>>=◌
still-set now uid target s capped h =
    let nothing : is_zero (target -ℤ target) ≡ true = ground (arith, -ℤ_parts target target) in
    rw (capped, h.found, h.balance, nothing) refl

too_high :
    (now uid : ℕ) (target : ℤ) (s : Session)
    → ltb_ℤ hard_cap target ≡ true
    → set_user_balance now uid target s ≡ (err balance_target_too_high, s)
unfolding set_user_balance raise_if ◌>>=◌
too_high now uid target s t = rw t refl

-- Once a balance has been set, the answer is the value that was asked for and the user's row shows it,
-- and setting it to this value once more gives the same answer and changes nothing: no transaction and
-- no message are added.
pub set_user_balance_again :
    (now now' uid : ℕ) (target b : ℤ) (s : Session)
    → let (r, s') = set_user_balance now uid target s in
      r ≡ ok b
      → (b ≡ target) × Shows uid target s' × (set_user_balance now' uid target s' ≡ (ok target, s'))
set_user_balance_again now now' uid target b s done =
    let set = set-Sets now uid target s b done in
    elim (Bool-cases (ltb_ℤ hard_cap target)) [
      | inl t ↦ absurd (refused (too_high now uid target s t) done)
      | inr f ↦ (set.0, set.1, still-set now' uid target _ f set.1)
    ]
  where
    refused :
        set_user_balance now uid target s ≡ (err balance_target_too_high, s)
        → (set_user_balance now uid target s).0 ≡ ok b
        → ⊥
    refused e e' = cc
