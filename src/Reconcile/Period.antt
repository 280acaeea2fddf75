-- ===== src/Reconcile/Period.antt =====
-- A reconciliation never shortens a subscription.
use Prim.Native.String.{String}
use pix_vpn_service.Prelude.{
  str_eq, ◌||◌, ℕ, ◌+◌, ◌≤◌, ◌≡◌, refl, Bool, true, false, Option, none, some, List, [], ◌∷◌, arith,
  inl, inr, Bool-cases, All, All-sort_by, All-first_of, All-select_where, All-update_where,
  select_where, leb, ltb, ◌==◌, if◌then◌else◌,
}
use pix_vpn_service.Db.{Db, SubStatus, Subscription}
use pix_vpn_service.Session.{Session, Action, modify, commit}
use pix_vpn_service.Session.Preserves.{Preserves, Preserves-bind, preserves_rules}
use pix_vpn_service.Session.Steps.{Ends, query_then}
use pix_vpn_service.Tables.{update_subscription}
use pix_vpn_service.Reconcile.{
  ReconcileResult, or_empty, KeyAnswer, key_info, client_error, unavailable, threshold,
  drift_seconds, is_test_id, Verdict, unknown_key, failed_check, shrinks, agrees, flips, extends,
  expiry_drift, verdict, rollback, deactivated_row, flipped_row, on_unknown, after_verdict,
  after_skip, verdict_of, reconcile_rows, is_checked, batch_rows, reconcile_batch,
  reconcile_subscriptions, nothing_done,
}

-- The row with this id, where it has an end, does not end before `t`.
abbrev pub EndsAfter : ℕ → ℕ → Subscription → Type 0
EndsAfter sid t r = (r.id == sid) ≡ true → (x : ℕ) × (r.expires_at ≡ some x) × (t ≤ x)

-- For the running request and as last committed.
pub record Lasts (sid t : ℕ) (s : Session) : Type 0 where
  pub live : All (EndsAfter sid t) s.live.subscriptions
  pub saved : All (EndsAfter sid t) s.saved.subscriptions

-- A new end is later than the one that the row has.
abbrev IsLater : Option ℕ → Verdict → Type 0
IsLater local_exp (extends p) = (x : ℕ) × (local_exp ≡ some x) × (x ≤ p)
IsLater local_exp v = Unit

drift-IsLater : (p l : Option ℕ) → IsLater l (expiry_drift p l)
drift-IsLater none l = tt
drift-IsLater (some p) none = tt
drift-IsLater (some p) (some l) = elim (Bool-cases (ltb (l + drift_seconds) p)) [
  | inl longer ↦ rw longer (l, refl, ground arith)
  | inr f ↦ elim (Bool-cases (ltb (p + drift_seconds) l)) [
    | inl s ↦ rw (f, s) tt
    | inr g ↦ rw (f, g) tt
  ]
]

if-IsLater :
    (b : Bool) (l : Option ℕ) (v w : Verdict)
    → IsLater l v
    → IsLater l w
    → IsLater l (if b then v else w)
if-IsLater true l v w h k = h
if-IsLater false l v w h k = k

verdict-IsLater :
    (lower : String → String) (a : KeyAnswer) (l : Option ℕ) → IsLater l (verdict lower a l)
verdict-IsLater lower unavailable l = tt
verdict-IsLater lower (client_error code) l =
    let c = lower (or_empty code) in
    if-IsLater (str_eq c "invalid_provider_key" || str_eq c "not_found") l
      (unknown_key (or_empty code)) failed_check tt tt
verdict-IsLater lower (key_info status p) l =
    let st = lower (or_empty status) in
    let other =
      if str_eq st "suspended"
      then flips SubStatus.deactivated st
      else flips SubStatus.expired st in
    if-IsLater (str_eq st "" || str_eq st "active") l (expiry_drift p l) other (drift-IsLater p l) (
      if-IsLater (str_eq st "suspended") l (flips SubStatus.deactivated st)
        (flips SubStatus.expired st) tt tt)

longest :
    {t : ℕ} (l : Option ℕ) (x p : ℕ)
    → l ≡ some x
    → t ≤ x
    → ((y : ℕ) × (l ≡ some y) × (y ≤ p))
    → t ≤ p
longest l x p e h (y, e', k) = let same : x ≡ y = cc in omega arith

-- A change of the status and of what goes with it keeps the end.
flipped_row-Lasts :
    (sid t now : ℕ) (x : SubStatus) (reason : String) (r : Subscription)
    → EndsAfter sid t r
    → EndsAfter sid t (flipped_row now x reason r)
flipped_row-Lasts sid t now SubStatus.deactivated reason r h = h
flipped_row-Lasts sid t now SubStatus.pending reason r h = h
flipped_row-Lasts sid t now SubStatus.active reason r h = h
flipped_row-Lasts sid t now SubStatus.expired reason r h = h
flipped_row-Lasts sid t now SubStatus.suspended reason r h = h
flipped_row-Lasts sid t now SubStatus.failed reason r h = h
flipped_row-Lasts sid t now SubStatus.failed_provider reason r h = h

module _ {sid t : ℕ} where
  update_subscription-Lasts :
      (i : ℕ) (f : Subscription → Subscription)
      → ((r : Subscription) → (r.id == i) ≡ true → EndsAfter sid t r → EndsAfter sid t (f r))
      → Preserves (Lasts sid t) (update_subscription i f)
  unfolding update_subscription modify
  update_subscription-Lasts i f keeps = record {
    from = λ s h. record {
      live =
          All-update_where (EndsAfter sid t) (EndsAfter sid t) (λ r. r.id == i) f
            s.live.subscriptions (λ r old hit. keeps r hit old) (λ r old miss. old) h.live;
      saved = h.saved;
    };
  }

  commit-Lasts : Preserves (Lasts sid t) commit
  unfolding commit
  commit-Lasts = record { from = λ s h. record { live = h.live; saved = h.live } }

  rollback-Lasts : Preserves (Lasts sid t) rollback
  unfolding rollback
  rollback-Lasts = record { from = λ s h. record { live = h.saved; saved = h.saved } }

  deactivated-Lasts :
      (i now : ℕ) (reason : String)
      → Preserves (Lasts sid t) (update_subscription i (deactivated_row now reason))
  deactivated-Lasts i now reason = update_subscription-Lasts i _ (λ r hit old. old)

  flipped-Lasts :
      (i now : ℕ) (x : SubStatus) (reason : String)
      → Preserves (Lasts sid t) (update_subscription i (flipped_row now x reason))
  flipped-Lasts i now x reason =
      update_subscription-Lasts i _ (λ r hit old. flipped_row-Lasts sid t now x reason r old)

  ruleset lasting =
      (preserves_rules, commit-Lasts, rollback-Lasts, deactivated-Lasts, flipped-Lasts)

  on_unknown-Lasts :
      (now : ℕ) (trips : Bool) (code : String) (sub : Subscription)
      (next : ℕ → ReconcileResult → Action ReconcileResult) (n : ℕ) (r : ReconcileResult)
      → ((n' : ℕ) (r' : ReconcileResult) → Preserves (Lasts sid t) (next n' r'))
      → Preserves (Lasts sid t) (on_unknown now trips code sub next n r)
  unfolding on_unknown
  on_unknown-Lasts now true code sub next n r each = search lasting
  on_unknown-Lasts now false code sub next n r each = search lasting

  -- A verdict about a row that, where it is the one, does not end before `t`.
  after_verdict-Lasts :
      (now : ℕ) (v : Verdict) (sub : Subscription)
      (next : ℕ → ReconcileResult → Action ReconcileResult) (n : ℕ) (r : ReconcileResult)
      → IsLater sub.expires_at v
      → EndsAfter sid t sub
      → ((n' : ℕ) (r' : ReconcileResult) → Preserves (Lasts sid t) (next n' r'))
      → Preserves (Lasts sid t) (after_verdict now sub v next n r)
  unfolding after_verdict
  after_verdict-Lasts now (unknown_key code) sub next n r later h each =
      on_unknown-Lasts now (leb threshold (n + 1)) code sub next (n + 1) r each
  after_verdict-Lasts now failed_check sub next n r later h each = each _ _
  after_verdict-Lasts now (flips x st) sub next n r later h each = search lasting
  after_verdict-Lasts now (extends p) sub next n r later h each =
      let longer : Preserves (Lasts sid t)
          (update_subscription sub.id (λ row. record row { expires_at = some p })) =
        update_subscription-Lasts sub.id _ (λ row hit old mine.
          let own : (sub.id == sid) ≡ true = ground arith in
          let ends = h own in (p, refl, longest sub.expires_at ends.0 p ends.1 ends.2 later)) in
      Preserves-bind _ _ longer (λ done. each _ _)
  after_verdict-Lasts now shrinks sub next n r later h each = each _ _
  after_verdict-Lasts now agrees sub next n r later h each = each _ _

  after_skip-Lasts :
      (now : ℕ) (test : Bool) (v : Verdict) (sub : Subscription)
      (next : ℕ → ReconcileResult → Action ReconcileResult) (n : ℕ) (r : ReconcileResult)
      → IsLater sub.expires_at v
      → EndsAfter sid t sub
      → ((n' : ℕ) (r' : ReconcileResult) → Preserves (Lasts sid t) (next n' r'))
      → Preserves (Lasts sid t) (after_skip now test sub v next n r)
  unfolding after_skip
  after_skip-Lasts now true v sub next n r later h each = each _ _
  after_skip-Lasts now false v sub next n r later h each =
      after_verdict-Lasts now v sub next n _ later h each

  module _ (now : ℕ) (lower : String → String) (get_key : String → KeyAnswer) where
    rows-Lasts :
        (rows : List Subscription) (n : ℕ) (r : ReconcileResult)
        → All (EndsAfter sid t) rows
        → Preserves (Lasts sid t) (reconcile_rows now lower get_key rows n r)
    unfolding reconcile_rows verdict_of
    rows-Lasts [] n r h = search lasting
    rows-Lasts (sub ∷ rest) n r h =
        let a = get_key (or_empty sub.provider_subscription_id) in
        after_skip-Lasts now (is_test_id sub.provider_subscription_id)
          (verdict lower a sub.expires_at) sub (reconcile_rows now lower get_key rest) n r
          (verdict-IsLater lower a sub.expires_at) h.0 (λ n' r'. rows-Lasts rest n' r' h.1)

    batch-Lasts :
        (rows : List Subscription)
        → All (EndsAfter sid t) rows
        → Preserves (Lasts sid t) (reconcile_batch now lower get_key rows)
    batch-Lasts [] h = search lasting
    batch-Lasts (sub ∷ rest) h = rows-Lasts (sub ∷ rest) 0 nothing_done h

batch_rows-EndsAfter :
    (sid t : ℕ) (before : Subscription → Subscription → Bool) (batch_size : ℕ) (db : Db)
    → All (EndsAfter sid t) db.subscriptions
    → All (EndsAfter sid t) (batch_rows before batch_size db)
batch_rows-EndsAfter sid t before batch_size db h =
    let P = EndsAfter sid t in
    All-first_of P batch_size _ (
      All-sort_by P before (select_where is_checked db.subscriptions)
        (All-select_where P is_checked db.subscriptions h))

-- Where each row with an id ends at `t` or later, live and as last committed, so it does after a
-- reconciliation, whatever NorthLine answers.
pub reconcile_subscriptions-Lasts :
    (sid t now : ℕ) (lower : String → String) (get_key : String → KeyAnswer)
    (before : Subscription → Subscription → Bool) (batch_size : ℕ) (s : Session)
    → Lasts sid t s
    → Lasts sid t (reconcile_subscriptions now lower get_key before batch_size s).1
unfolding reconcile_subscriptions
reconcile_subscriptions-Lasts sid t now lower get_key before batch_size s h =
    query_then (Ends (Lasts sid t)) _ _ s (
      (batch-Lasts now lower get_key _
          (batch_rows-EndsAfter sid t before batch_size s.live h.live)).from
        s h)
