-- ===== src/Outbox/Lifecycle.antt =====
-- How often a message is tried, and when.
pub mod Claim
use pix_vpn_service.Prelude.{
  ℕ, zero, suc, ◌+◌, ◌*◌, ◌^◌, ◌≤◌, ◌<◌, min, ◌≡◌, refl, Bool, true, false, String, Option, none,
  some, List, [], ◌∷◌, arith, All, All-update_where, find, update_where, leb, ◌==◌, if◌then◌else◌,
}
use native.Mathlib.Nat.{one-le-pow, pow-le-pow_right}
use pix_vpn_service.Db.{OutboxMessage, OutboxStatus, Payload}
use pix_vpn_service.Session.{Session, ok, err, Result, ◌>>=◌, return, modify}
use pix_vpn_service.Session.Preserves.{Preserves, preserves_rules}
use pix_vpn_service.Tables.{insert_outbox}
use pix_vpn_service.Outbox.{
  new_message, enqueue_message, exponential_backoff_minutes, max_attempts, is_pending, failed_row,
  sent_row, update_message, mark_sent, mark_failed,
}

-- The delay before a retry is between one minute and an hour.
pub exponential_backoff_bounds :
    (n : ℕ) → (1 ≤ exponential_backoff_minutes n) × (exponential_backoff_minutes n ≤ 60)
unfolding exponential_backoff_minutes
exponential_backoff_bounds zero = (omega arith, omega arith)
exponential_backoff_bounds (suc n) =
    let positive : 1 ≤ 2 ^ suc n = one-le-pow (suc n) 2 (omega arith) in (omega arith, omega arith)

-- A later retry waits no shorter.
pub exponential_backoff_mono :
    (m n : ℕ) → m ≤ n → exponential_backoff_minutes m ≤ exponential_backoff_minutes n
unfolding exponential_backoff_minutes
exponential_backoff_mono zero zero h = omega arith
exponential_backoff_mono zero (suc n) h =
    let positive : 1 ≤ 2 ^ suc n = one-le-pow (suc n) 2 (omega arith) in omega arith
exponential_backoff_mono (suc m) zero h = absurd (omega arith)
exponential_backoff_mono (suc m) (suc n) h =
    let grows : 2 ^ suc m ≤ 2 ^ suc n = pow-le-pow_right {n = 2} (omega arith) h in omega arith

-- Tried at most five times, and less than five times while it waits.
pub record IsRetriable (m : OutboxMessage) : Type 0 where
  pub tried : m.attempts ≤ max_attempts
  pub waiting : is_pending m.status ≡ true → m.attempts < max_attempts

pub failed_row-IsRetriable :
    (now : ℕ) (error : String) (m : OutboxMessage)
    → IsRetriable m
    → IsRetriable (failed_row now error m)
failed_row-IsRetriable now error m h = ground arith

pub sent_row-IsRetriable :
    (now : ℕ) (tg : Option ℕ) (m : OutboxMessage) → IsRetriable m → IsRetriable (sent_row now tg m)
sent_row-IsRetriable now none m h = record { tried = h.tried; waiting = λ e. cc }
sent_row-IsRetriable now (some tg) m h = record { tried = h.tried; waiting = λ e. cc }

-- What is known of the outbox alone.
pub record OnOutbox (Q : List OutboxMessage → Type 0) (s : Session) : Type 0 where
  pub rows : Q s.live.outbox

abbrev pub AllRetriable : Session → Type 0
AllRetriable = OnOutbox (All IsRetriable)

update_message-AllRetriable :
    (mid : ℕ) (f : OutboxMessage → OutboxMessage)
    → ((m : OutboxMessage) → IsRetriable m → IsRetriable (f m))
    → Preserves AllRetriable (update_message mid f)
unfolding update_message modify
update_message-AllRetriable mid f keep = record {
  from = λ s h. record {
    rows =
        All-update_where IsRetriable IsRetriable _ f s.live.outbox (λ m old hit. keep m old)
          (λ m old miss. old) h.rows;
  };
}

-- A report of a failure, of any message, keeps every message within five attempts, and a waiting one
-- below five.
pub mark_failed-AllRetriable :
    (now mid : ℕ) (error : String) → Preserves AllRetriable (mark_failed now mid error)
unfolding mark_failed
mark_failed-AllRetriable now mid error =
    search (preserves_rules, update_message-AllRetriable, failed_row-IsRetriable)

pub mark_sent-AllRetriable :
    (now mid : ℕ) (tg : Option ℕ) → Preserves AllRetriable (mark_sent now mid tg)
unfolding mark_sent
mark_sent-AllRetriable now mid tg =
    search (preserves_rules, update_message-AllRetriable, sent_row-IsRetriable)

pub enqueue-AllRetriable :
    (now uid chat : ℕ) (payload : Payload)
    → Preserves AllRetriable (enqueue_message now uid chat payload)
unfolding enqueue_message insert_outbox
enqueue-AllRetriable now uid chat payload = record {
  from =
      λ s h. record { rows = (record { tried = omega arith; waiting = λ e. omega arith }, h.rows) };
}
