-- ===== src/Session/Returns.antt =====
-- What holds of the value that an action returns, from whatever session it starts.
use pix_vpn_service.Prelude.{◌≡◌, refl}
use pix_vpn_service.Session.{
  Session, Error, Result, ok, err, Action, return, raise, ◌>>=◌, continue, caught, on_error,
}

-- If `m` returns a value, the value has the property.
pub record Returns {A : Type 0} (Q : A → Type 0) (m : Action A) : Type 0 where
  pub from : (s : Session) (x : A) → (m s).0 ≡ ok x → Q x

module _ {A : Type 0} {Q : A → Type 0} where
  pub Returns-return : (a : A) → Q a → Returns Q (return a)
  unfolding return
  Returns-return a h = record { from = λ s x e. got a x h e }
    where
      got : (a x : A) → Q a → ok a ≡ ok x → Q x
      got a x h e = let same : a ≡ x = cc in rw same at h

  pub Returns-raise : (e : Error) → Returns Q (raise e)
  unfolding raise
  Returns-raise e = record { from = λ s x failed. absurd (never x failed) }
    where
      never : (x : A) → err e ≡ ok x → ⊥
      never x failed = cc

  pub Returns-on_error :
      (m : Action A) (handler : Error → Action A)
      → Returns Q m
      → ((e : Error) → Returns Q (handler e))
      → Returns Q (on_error m handler)
  unfolding on_error caught
  Returns-on_error m handler hm hh = record { from = λ s. go s (m s).0 (hm.from s) (m s).1 }
    where
      go :
          (s : Session) (r : Result A)
          → ((x : A) → r ≡ ok x → Q x)
          → (s' : Session) (x : A) → (caught r handler s').0 ≡ ok x
          → Q x
      go s (ok a) h s' x e = h x e
      go s (err y) h s' x e = (hh y).from s' x e

module _ {A B : Type 0} {Q : B → Type 0} (R : A → Type 0) where
  pub Returns-then :
      (m : Action A) (f : A → Action B)
      → Returns R m
      → ((a : A) → R a → Returns Q (f a))
      → Returns Q (m >>= f)
  unfolding ◌>>=◌
  Returns-then m f hm hf = record { from = λ s. go (m s).0 (hm.from s) (m s).1 }
    where
      go :
          (r : Result A)
          → ((a : A) → r ≡ ok a → R a)
          → (s' : Session) (x : B) → (continue r f s').0 ≡ ok x
          → Q x
      go (ok a) h s' x e = (hf a (h a refl)).from s' x e
      go (err y) h s' x e = absurd (never x e)
        where
          never : (x : B) → err y ≡ ok x → ⊥
          never x e = cc

module _ {A B : Type 0} {Q : B → Type 0} where
  pub Returns-bind :
      (m : Action A) (f : A → Action B) → ((a : A) → Returns Q (f a)) → Returns Q (m >>= f)
  Returns-bind m f hf =
      Returns-then (λ _. Unit {0}) m f (record { from = λ s x e. tt }) (λ a _. hf a)
