-- ===== src/Session.antt =====
-- A database session (backend/app/db/session.py): what the running request sees, and what the last
-- commit left. An exception ends the request and its uncommitted writes are rolled back
-- (`get_session`); an exception that is caught inside the request keeps them.
pub mod Preserves
pub mod Steps
pub mod Returns
use pix_vpn_service.Prelude.{
  ℕ, ◌+◌, Bool, true, false, Option, none, some, List, ◌∷◌, if◌then◌else◌,
}
use pix_vpn_service.Db.{
  Db, User, Subscription, Payment, BalanceTransaction, PromoCode, PromoActivation, Referral,
  OutboxMessage,
}

pub record Session : Type 0 where
  pub live : Db
  pub saved : Db

-- The classes of `backend/app/core/exceptions.py`, of the services and of SQLAlchemy that the model
-- raises.
pub data Error : Type 0 where
  insufficient_balance northline_unavailable northline_client : Error
  tariff_not_found tariff_duration_not_found duration_not_found user_not_found : Error
  subscription_not_found subscription_not_extendable : Error
  promo_not_found promo_invalid : Error
  promo_inactive promo_not_started promo_expired promo_max_total promo_max_per_user : Error
  promo_not_for_this_user promo_invalid_type : Error
  topup_amount_too_small payment_provider_unavailable unknown_provider : Error
  referral_self referral_already_exists referee_already_has_purchase : Error
  no_result_found multiple_results_found outbox_not_found : Error
  free_trial_already_used : Error
  ticket_already_open ticket_already_closed ticket_not_found code_generation_exhausted : Error
  broadcast_not_found broadcast_not_editable broadcast_not_sendable : Error
  broadcast_not_schedulable broadcast_not_cancellable : Error
  missing_greenlet : Error
  provider_subscription_id_missing invalid_subscription_status balance_target_too_high : Error

pub data Result (A : Type 0) : Type 0 where
  ok : A → Result A
  err : Error → Result A

abbrev pub Action : Type 0 → Type 0
Action A = Session → Result A × Session

module _ {A : Type 0} where
  unfoldable pub return : A → Action A
  return a s = (ok a, s)

  unfoldable pub raise : Error → Action A
  raise e s = (err e, s)

  -- A query on what the session sees.
  unfoldable pub query : (Db → A) → Action A
  query f s = (ok (f s.live), s)

  -- What a call outside returned or raised.
  unfoldable pub answered_by : Result A → Action A
  answered_by r s = (r, s)

  unfoldable pub or_raise : Option A → Error → Action A
  unfolding raise return
  or_raise none e = raise e
  or_raise (some a) e = return a

abbrev pub continue : {A B : Type 0} → Result A → (A → Action B) → Action B
continue (ok a) f s = f a s
continue (err e) f s = (err e, s)

infixl 5 ◌>>=◌ ◌>>◌
unfoldable pub ◌>>=◌ : {A B : Type 0} → Action A → (A → Action B) → Action B
unfolding return raise query
◌>>=◌ m f s = let (r, s') = m s in continue r f s'

abbrev pub ◌>>◌ : {A B : Type 0} → Action A → Action B → Action B
m >> k = m >>= λ _. k

unfoldable pub raise_if : Bool → Error → Action (Unit {0})
raise_if b e s = (if b then err e else ok tt, s)

-- A write: the new state of what the session sees.
unfoldable pub modify : (Db → Db) → Action (Unit {0})
modify f s = (ok tt, record s { live = f s.live })

-- `session.commit()`
unfoldable pub commit : Action (Unit {0})
commit s = (ok tt, record s { saved = s.live })

-- `try: m except Exception: log`: the exception is dropped, and the writes stay in the session.
unfoldable pub best_effort : {A : Type 0} → Action A → Action (Unit {0})
best_effort m s = (ok tt, (m s).1)

-- `try: m except ...: handler`, for the exceptions that `m` raises in the model.
unfoldable pub caught : {A : Type 0} → Result A → (Error → Action A) → Action A
caught (ok a) handler s = (ok a, s)
caught (err e) handler s = handler e s

unfoldable pub on_error : {A : Type 0} → Action A → (Error → Action A) → Action A
unfolding caught
on_error m handler s = let (r, s') = m s in caught r handler s'

-- A request: the session of `get_session`, from one committed database to the next.
unfoldable pub request : {A : Type 0} → Action A → Db → Result A × Db
request m db = let (r, s) = m (record { live = db; saved = db }) in (r, s.saved)
