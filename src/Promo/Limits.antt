-- ===== src/Promo/Limits.antt =====
-- The limits of a promo code: how often it is activated, and how often by one user.
pub mod Uses
use pix_vpn_service.Prelude.{
  ℕ, ◌+◌, ◌≤◌, ◌<◌, ◌≡◌, refl, sym, ◌∙◌, Bool, true, false, not, ◌&&◌, ◌||◌, String, Option, none,
  some, List, [], ◌∷◌, arith, inl, inr, Bool-cases, find, find-test, find-updated, update_where,
  count_where, ==_iff, leb, ◌==◌, if◌then◌else◌,
}
use mathlib.Core.Path.{subst}
use pix_vpn_service.Db.{Db, User, PromoType, PromoCode, PromoActivation}
use pix_vpn_service.Session.{Session, Action, return, raise, raise_if, query, modify, ◌>>=◌, ◌>>◌}
use pix_vpn_service.Session.Preserves.{Preserves, then_preserves, preserves_rules}
use pix_vpn_service.Tables.{one_more}
use pix_vpn_service.Promo.{is_exhausted}

abbrev pub is_use : ℕ → ℕ → PromoActivation → Bool
is_use pid uid a = (a.promo_id == pid) && (a.user_id == uid)

abbrev pub Fits : Option ℕ → ℕ → Type 0
Fits none n = Unit
Fits (some m) n = n ≤ m

-- The code with this id is activated as often as it may be at most, and by this user so.
pub record IsWithin (pid uid : ℕ) (ps : List PromoCode) (uses : List PromoActivation) : Type 0 where
  pub total :
      (p : PromoCode)
      → find (λ q. q.id == pid) ps ≡ some p
      → Fits p.max_total_activations p.current_activations
  pub of_user :
      (p : PromoCode)
      → find (λ q. q.id == pid) ps ≡ some p
      → count_where (is_use pid uid) uses ≤ p.max_per_user

one_more-Fits :
    (m : Option ℕ) (p : PromoCode)
    → p.max_total_activations ≡ m
    → is_exhausted p ≡ false
    → Fits m (p.current_activations + 1)
one_more-Fits none p e h = tt
one_more-Fits (some m) p e h =
    let k : leb m p.current_activations ≡ false = rw e at h in ground (arith, k)

pub some_once : (o : Option PromoCode) (p q : PromoCode) → o ≡ some p → o ≡ some q → p ≡ q
some_once o p q h k = cc

elsewhere :
    (pid other : ℕ) (ps : List PromoCode)
    → (other == pid) ≡ false
    → find (λ p. p.id == pid) (update_where (λ p. p.id == other) one_more ps)
      ≡ find (λ p. p.id == pid) ps
elsewhere pid other [] h = refl
elsewhere pid other (p ∷ ps) h =
    ground (arith, elsewhere pid other ps h, ==_iff p.id pid, ==_iff p.id other, ==_iff other pid)

-- One more use of a code that is not exhausted, by a user who may use it once more.
module _ (promo : PromoCode) (a : PromoActivation) (ps : List PromoCode)
    (uses : List PromoActivation) (uid : ℕ) where
  abbrev pub updated : List PromoCode
  updated = update_where (λ p. p.id == promo.id) one_more ps

  used-IsWithin :
      find (λ p. p.id == promo.id) ps ≡ some promo
      → is_exhausted promo ≡ false
      → a.promo_id ≡ promo.id
      → count_where (is_use promo.id a.user_id) uses < promo.max_per_user
      → IsWithin promo.id uid ps uses
      → IsWithin promo.id uid updated (a ∷ uses)
  used-IsWithin found room of_promo below h = record {
    total = λ q hit.
        let one = find-updated (λ p. p.id == promo.id) one_more ps q (λ x. refl) hit in
        let same : one.0 ≡ promo = some_once _ _ _ one.1 found in
        rw (one.2, same) (one_more-Fits promo.max_total_activations promo refl room);
    of_user = λ q hit.
        let one = find-updated (λ p. p.id == promo.id) one_more ps q (λ x. refl) hit in
        let same : one.0 ≡ promo = some_once _ _ _ one.1 found in
        let before = h.of_user promo found in
        rw (one.2, same)
          (elim (Bool-cases (a.user_id == uid)) [
            | inl t ↦
                let it : a.user_id ≡ uid = (==_iff a.user_id uid).0 t in
                ground (arith, rw it at below, t)
            | inr f ↦ ground (arith, before, f)
          ]);
  }

  unused-IsWithin :
      (pid : ℕ)
      → (promo.id == pid) ≡ false
      → a.promo_id ≡ promo.id
      → IsWithin pid uid ps uses
      → IsWithin pid uid updated (a ∷ uses)
  unused-IsWithin pid other of_promo h = record {
    total = λ q hit. h.total q (sym (elsewhere pid promo.id ps other) ∙ hit);
    of_user = λ q hit.
        let before = h.of_user q (sym (elsewhere pid promo.id ps other) ∙ hit) in
        let apart : (a.promo_id == pid) ≡ false = rw of_promo other in
        ground (arith, before, apart);
  }

  pub activated-IsWithin :
      (pid : ℕ)
      → find (λ p. p.id == promo.id) ps ≡ some promo
      → is_exhausted promo ≡ false
      → a.promo_id ≡ promo.id
      → count_where (is_use promo.id a.user_id) uses < promo.max_per_user
      → IsWithin pid uid ps uses
      → IsWithin pid uid updated (a ∷ uses)
  activated-IsWithin pid found room of_promo below h = elim (Bool-cases (promo.id == pid)) [
    | inl t ↦
        let it : promo.id ≡ pid = (==_iff promo.id pid).0 t in
        subst (λ i. IsWithin i uid updated (a ∷ uses)) it
          (used-IsWithin found room of_promo below (subst (λ i. IsWithin i uid ps uses) (sym it) h))
    | inr f ↦ unused-IsWithin pid f of_promo h
  ]
