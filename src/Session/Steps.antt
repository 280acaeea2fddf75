-- ===== src/Session/Steps.antt =====
-- What holds of the outcome of a block, by its first action: a block is proved in the order in
-- which it runs. An outcome is the result with the session that is left.
use pix_vpn_service.Prelude.{◌≡◌, refl, Bool, true, false, Option, none, some, if◌then◌else◌}
use pix_vpn_service.Db.{Db}
use pix_vpn_service.Session.{
  Session, Error, Result, ok, err, Action, query, or_raise, ◌>>=◌, raise_if, continue,
}

-- Of the session alone.
abbrev pub Ends : {B : Type 0} → (Session → Type 0) → Result B × Session → Type 0
Ends P o = P o.1

module _ {A B : Type 0} (P : Result B × Session → Type 0) where
  pub query_then :
      (f : Db → A) (k : A → Action B) (s : Session) → P (k (f s.live) s) → P ((query f >>= k) s)
  unfolding ◌>>=◌
  query_then f k s h = h

  pub or_raise_then :
      (o : Option A) (e : Error) (k : A → Action B) (s : Session)
      → P (err e, s)
      → ((a : A) → o ≡ some a → P (k a s))
      → P ((or_raise o e >>= k) s)
  unfolding ◌>>=◌ or_raise
  or_raise_then none e k s h found = h
  or_raise_then (some a) e k s h found = found a refl

  -- After an action that leaves the session as it was.
  pub read_then :
      (m : Action A) (k : A → Action B) (s : Session)
      → (m s).1 ≡ s
      → ((e : Error) → (m s).0 ≡ err e → P (err e, s))
      → ((a : A) → (m s).0 ≡ ok a → P (k a s))
      → P ((m >>= k) s)
  unfolding ◌>>=◌
  read_then m k s same h each = go (m s).0 refl
    where
      go : (r : Result A) → (m s).0 ≡ r → P (continue r k (m s).1)
      go (ok a) e = rw same (each a e)
      go (err x) e = rw same (h x e)

  -- An action with a known outcome is followed by the rest in the state that it left.
  pub then_at :
      (m : Action A) (k : A → Action B) (s : Session) (a : A) (s' : Session)
      → m s ≡ (ok a, s')
      → P (k a s')
      → P ((m >>= k) s)
  unfolding ◌>>=◌
  then_at m k s a s' e h = rw e h

  -- An action that fails is followed by nothing.
  pub fails_at :
      (m : Action A) (k : A → Action B) (s : Session) (e : Error) (s' : Session)
      → m s ≡ (err e, s')
      → P (err e, s')
      → P ((m >>= k) s)
  unfolding ◌>>=◌
  fails_at m k s e s' same h = rw same h

  -- An action is followed by the rest in whatever state it left.
  pub then_each :
      (m : Action A) (k : A → Action B) (s : Session)
      → ((e : Error) → (m s).0 ≡ err e → P (err e, (m s).1))
      → ((a : A) → (m s).0 ≡ ok a → P (k a (m s).1))
      → P ((m >>= k) s)
  unfolding ◌>>=◌
  then_each m k s h each = go (m s).0 refl
    where
      go : (r : Result A) → (m s).0 ≡ r → P (continue r k (m s).1)
      go (ok a) e = each a e
      go (err x) e = h x e

module _ {B : Type 0} (P : Result B × Session → Type 0) where
  pub raise_if_then :
      (b : Bool) (e : Error) (k : Unit {0} → Action B) (s : Session)
      → (b ≡ true → P (err e, s))
      → (b ≡ false → P (k tt s))
      → P ((raise_if b e >>= k) s)
  unfolding ◌>>=◌ raise_if
  raise_if_then true e k s h passed = h refl
  raise_if_then false e k s h passed = passed refl

module _ {B : Type 0} (P : Result B × Session → Type 0) where
  pub if_step :
      (b : Bool) (m n : Action B) (s : Session) → P (m s) → P (n s) → P ((if b then m else n) s)
  if_step true m n s hm hn = hm
  if_step false m n s hm hn = hn
