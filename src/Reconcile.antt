-- ===== src/Reconcile.antt =====
-- backend/app/services/subscription_reconcile_service.py: the active subscriptions against what
-- NorthLine says of their keys, with a breaker for the case that NorthLine knows none of them.
pub mod Breaker
pub mod Period
use Prim.Native.String.{String, ◌++◌ as append}
use pix_vpn_service.Prelude.{
  ℕ, ◌+◌, Bool, true, false, not, ◌&&◌, ◌||◌, Option, none, some, List, [], ◌∷◌, is_some, sort_by,
  first_of, select_where, ltb, leb, str_eq, if◌then◌else◌,
}
use pix_vpn_service.Db.{Db, SubStatus, Subscription}
use pix_vpn_service.Session.{
  Action, ok, return, raise, missing_greenlet, query, commit, ◌>>=◌, ◌>>◌,
}
use pix_vpn_service.Tables.{update_subscription}
use pix_vpn_service.Html.Scan.{after_prefix}

pub record ReconcileResult : Type 0 where
  pub checked : ℕ
  pub skipped_test : ℕ
  pub flipped : ℕ
  pub extended : ℕ
  pub shrink_warned : ℕ
  pub api_errors : ℕ

-- What `NorthLineClient.get_key` returns or raises.
pub data KeyAnswer : Type 0 where
  key_info : (status : Option String) (expires_at : Option ℕ) → KeyAnswer
  client_error : (error_code : Option String) → KeyAnswer
  unavailable : KeyAnswer

abbrev pub threshold : ℕ
threshold = 3

abbrev pub drift_seconds : ℕ
drift_seconds = 3600

-- `_is_test_subscription_id`
unfoldable pub is_test_id : Option String → Bool
unfolding after_prefix
is_test_id none = true
is_test_id (some String.[]) = true
is_test_id (some (String.◌∷◌ c s)) =
    let id = String.◌∷◌ c s in
    is_some (after_prefix "nlsub_test_" id) || is_some (after_prefix "test_" id)

abbrev pub or_empty : Option String → String
or_empty none = ""
or_empty (some s) = s

-- What a check of one subscription comes to.
pub data Verdict : Type 0 where
  unknown_key : (error_code : String) → Verdict
  failed_check shrinks agrees : Verdict
  flips : SubStatus → (provider_status : String) → Verdict
  extends : (expires_at : ℕ) → Verdict

abbrev pub expiry_drift : Option ℕ → Option ℕ → Verdict
expiry_drift none local_exp = agrees
expiry_drift (some p) none = agrees
expiry_drift (some p) (some l) =
    if ltb (l + drift_seconds) p
    then extends p
    else if ltb (p + drift_seconds) l
    then shrinks
    else agrees

-- `str.lower` is given from outside, as Python's tables of Unicode define it.
abbrev pub verdict : (String → String) → KeyAnswer → Option ℕ → Verdict
verdict lower unavailable local_exp = failed_check
verdict lower (client_error error_code) local_exp =
    let code = lower (or_empty error_code) in
    if str_eq code "invalid_provider_key" || str_eq code "not_found"
    then unknown_key (or_empty error_code)
    else failed_check
verdict lower (key_info status expires_at) local_exp =
    let provider_status = lower (or_empty status) in
    if str_eq provider_status "" || str_eq provider_status "active"
    then expiry_drift expires_at local_exp
    else if str_eq provider_status "suspended"
    then flips SubStatus.deactivated provider_status
    else flips SubStatus.expired provider_status

-- `session.rollback()`
unfoldable pub rollback : Action (Unit {0})
rollback s = (ok tt, record s { live = s.saved })

abbrev Next : Type 0
Next = ℕ → ReconcileResult → Action ReconcileResult

abbrev pub deactivated_row : ℕ → String → Subscription → Subscription
deactivated_row now reason row = record row {
  status = SubStatus.deactivated;
  deactivated_at = some now;
  deactivation_reason = some reason;
}

-- Only a row that becomes deactivated gets a time and a reason.
abbrev pub flipped_row : ℕ → SubStatus → String → Subscription → Subscription
flipped_row now SubStatus.deactivated reason row = deactivated_row now reason row
flipped_row now st reason row = record row { status = st }

abbrev pub unknown_reason : String → String
unknown_reason code = append "Reconcile: provider returned " code

abbrev pub drift_reason : String → String
drift_reason provider_status = append "Reconcile: provider status=" provider_status

-- The breaker trips before the row is changed. A rollback expires the rows that the session has loaded,
-- and the next statement reads `sub.id`: SQLAlchemy cannot load it again outside of an await and raises,
-- so that neither the alert nor the result comes.
unfoldable pub on_unknown :
    ℕ → Bool → String → Subscription → Next → ℕ → ReconcileResult → Action ReconcileResult
on_unknown now true code sub next n r = do rollback; raise missing_greenlet
on_unknown now false code sub next n r = do
  update_subscription sub.id (deactivated_row now (unknown_reason code))
  next n (record r { flipped = r.flipped + 1 })

-- The rest of the loop's body; `n` counts the unknown keys in a row.
unfoldable pub after_verdict :
    ℕ → Subscription → Verdict → Next → ℕ → ReconcileResult → Action ReconcileResult
unfolding on_unknown
after_verdict now sub (unknown_key code) next n r =
    on_unknown now (leb threshold (n + 1)) code sub next (n + 1) r
after_verdict now sub failed_check next n r = next 0 (record r { api_errors = r.api_errors + 1 })
after_verdict now sub (flips st provider_status) next n r = do
  update_subscription sub.id (flipped_row now st (drift_reason provider_status))
  next 0 (record r { flipped = r.flipped + 1 })
after_verdict now sub (extends t) next n r = do
  update_subscription sub.id (λ row. record row { expires_at = some t })
  next 0 (record r { extended = r.extended + 1 })
after_verdict now sub shrinks next n r = next 0 (record r { shrink_warned = r.shrink_warned + 1 })
after_verdict now sub agrees next n r = next 0 r

-- A test key is skipped, and does not reset the count.
unfoldable pub after_skip :
    ℕ → Bool → Subscription → Verdict → Next → ℕ → ReconcileResult → Action ReconcileResult
unfolding after_verdict
after_skip now true sub v next n r = next n (record r { skipped_test = r.skipped_test + 1 })
after_skip now false sub v next n r =
    after_verdict now sub v next n (record r { checked = r.checked + 1 })

abbrev is_active_status : SubStatus → Bool
is_active_status SubStatus.active = true
is_active_status _ = false

-- The WHERE of the query.
abbrev pub is_checked : Subscription → Bool
is_checked sub = is_active_status sub.status && is_some sub.provider_subscription_id

abbrev pub nothing_done : ReconcileResult
nothing_done = record {
  checked = 0;
  skipped_test = 0;
  flipped = 0;
  extended = 0;
  shrink_warned = 0;
  api_errors = 0;
}

-- The rows of a batch; `before` compares the times of their last updates.
abbrev pub batch_rows : (Subscription → Subscription → Bool) → ℕ → Db → List Subscription
batch_rows before batch_size db =
    first_of batch_size (sort_by before (select_where is_checked db.subscriptions))

unfoldable pub verdict_of : (String → String) → (String → KeyAnswer) → Subscription → Verdict
verdict_of lower get_key sub =
    verdict lower (get_key (or_empty sub.provider_subscription_id)) sub.expires_at

module _ (now : ℕ) (lower : String → String) (get_key : String → KeyAnswer) where
  unfoldable pub reconcile_rows : List Subscription → ℕ → ReconcileResult → Action ReconcileResult
  unfolding after_skip verdict_of
  reconcile_rows [] n r = do commit; return r
  reconcile_rows (sub ∷ rest) n r =
      after_skip now (is_test_id sub.provider_subscription_id) sub (verdict_of lower get_key sub)
        (reconcile_rows rest) n r

  abbrev pub reconcile_batch : List Subscription → Action ReconcileResult
  reconcile_batch [] = return nothing_done
  reconcile_batch (sub ∷ rest) = reconcile_rows (sub ∷ rest) 0 nothing_done

  -- `reconcile_subscriptions`
  unfoldable pub reconcile_subscriptions :
      (Subscription → Subscription → Bool) → ℕ → Action ReconcileResult
  unfolding reconcile_rows
  reconcile_subscriptions before batch_size = do
    rows ← query (batch_rows before batch_size)
    reconcile_batch rows
