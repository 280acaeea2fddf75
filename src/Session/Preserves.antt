-- ===== src/Session/Preserves.antt =====
-- Invariants of actions: one rule for each way to build an action.
use pix_vpn_service.Prelude.{Bool, true, false, Option, none, some, if◌then◌else◌}
use pix_vpn_service.Db.{Db}
use pix_vpn_service.Session.{
  Session, Error, Result, ok, err, Action, return, raise, query, or_raise, ◌>>=◌, raise_if,
  best_effort, caught, on_error, continue,
}

-- However `m` ends, it leaves `P` true of the session where it was true before.
pub record Preserves {A : Type 0} (P : Session → Type 0) (m : Action A) : Type 0 where
  pub from : (s : Session) → P s → P (m s).1

module _ {A : Type 0} {P : Session → Type 0} where
  pub Preserves-return : (a : A) → Preserves P (return a)
  unfolding return
  Preserves-return a = record { from = λ s h. h }

  pub Preserves-raise : (e : Error) → Preserves P (raise {A = A} e)
  unfolding raise
  Preserves-raise e = record { from = λ s h. h }

  pub Preserves-query : (f : Db → A) → Preserves P (query f)
  unfolding query
  Preserves-query f = record { from = λ s h. h }

  pub Preserves-or_raise : (o : Option A) (e : Error) → Preserves P (or_raise o e)
  unfolding or_raise
  Preserves-or_raise none e = record { from = λ s h. h }
  Preserves-or_raise (some a) e = record { from = λ s h. h }

  pub Preserves-if :
      (b : Bool) (m n : Action A) → Preserves P m → Preserves P n → Preserves P (if b then m else n)
  Preserves-if true m n km kn = km
  Preserves-if false m n km kn = kn

  pub Preserves-best_effort : (m : Action A) → Preserves P m → Preserves P (best_effort m)
  unfolding best_effort
  Preserves-best_effort m km = record { from = λ s h. km.from s h }

  Preserves-caught :
      (r : Result A) (handler : Error → Action A)
      → ((e : Error) → Preserves P (handler e))
      → Preserves P (caught r handler)
  unfolding caught
  Preserves-caught (ok a) handler kh = record { from = λ s h. h }
  Preserves-caught (err e) handler kh = record { from = λ s h. (kh e).from s h }

  pub Preserves-on_error :
      (m : Action A) (handler : Error → Action A)
      → Preserves P m
      → ((e : Error) → Preserves P (handler e))
      → Preserves P (on_error m handler)
  unfolding on_error
  Preserves-on_error m handler km kh = record {
    from = λ s h. let (r, s') = m s in (Preserves-caught r handler kh).from s' (km.from s h);
  }

module _ {P : Session → Type 0} where
  pub Preserves-raise_if : (b : Bool) (e : Error) → Preserves P (raise_if b e)
  unfolding raise_if
  Preserves-raise_if b e = record { from = λ s h. h }

module _ {A B : Type 0} {P : Session → Type 0} where
  Preserves-continue :
      (r : Result A) (f : A → Action B) → ((a : A) → Preserves P (f a)) → Preserves P (continue r f)
  Preserves-continue (ok a) f kf = record { from = λ s h. (kf a).from s h }
  Preserves-continue (err e) f kf = record { from = λ s h. h }

  pub Preserves-bind :
      (m : Action A) (f : A → Action B)
      → Preserves P m
      → ((a : A) → Preserves P (f a))
      → Preserves P (m >>= f)
  unfolding ◌>>=◌
  Preserves-bind m f km kf = record {
    from = λ s h. let (r, s') = m s in (Preserves-continue r f kf).from s' (km.from s h);
  }

module _ {A B : Type 0} (P : Session → Type 0) (m : Action A) (f : A → Action B) (s : Session) where
  -- What holds after a first action is kept by what follows it.
  pub then_preserves : P (m s).1 → ((a : A) → Preserves P (f a)) → P ((m >>= f) s).1
  unfolding ◌>>=◌
  then_preserves h kf = let (r, s') = m s in (Preserves-continue r f kf).from s' h

pub ruleset preserves_rules = (
  Preserves-return, Preserves-raise, Preserves-query, Preserves-or_raise, Preserves-if,
  Preserves-best_effort, Preserves-on_error, Preserves-raise_if, Preserves-bind,
)
