-- ===== src/Promo/Personal.antt =====
-- backend/app/services/personal_promo_service.py: a discount code for one user.
use pix_vpn_service.Prelude.{ℕ, ◌+◌, true, String, Option, none, some, ◌∷◌, find}
use pix_vpn_service.Prelude.Int.{pos}
use pix_vpn_service.Db.{PromoType, PromoCode}
use pix_vpn_service.Session.{ok, Action, ◌>>=◌, return, query}
use pix_vpn_service.Env.{Env}

-- `session.add` and `flush` of a code. Its text is not in the table, or the service returns the row
-- that has it; so the UNIQUE constraint holds, and no other request runs in between.
unfoldable pub insert_promo : (ℕ → PromoCode) → Action PromoCode
insert_promo make s =
    let db = s.live in
    let row = make db.next_id in
    (
      ok row,
      record s {
        live = record db { promo_codes = row ∷ db.promo_codes; next_id = db.next_id + 1 };
      },
    )

abbrev pub personal_code : ℕ → ℕ → String → ℕ → ℕ → ℕ → PromoCode
personal_code now user_id code percent valid_seconds n = record {
  id = n;
  code = code;
  type = PromoType.discount_percent;
  value = pos percent;
  max_total_activations = some 1;
  max_per_user = 1;
  current_activations = 0;
  valid_from = some now;
  valid_until = some (now + valid_seconds);
  is_active = true;
  user_id = some user_id;
}

unfoldable pub issue_if_new : Option PromoCode → (ℕ → PromoCode) → Action PromoCode
issue_if_new (some existing) make = return existing
issue_if_new none make = insert_promo make

module _ (env : Env) where
  -- `issue_personal_discount`
  unfoldable pub issue_personal_discount : ℕ → String → ℕ → ℕ → Action PromoCode
  issue_personal_discount user_id code percent valid_seconds = do
    existing ← query (λ db. find (λ (p : PromoCode). env.same_code p.code code) db.promo_codes)
    issue_if_new existing (personal_code env.now user_id code percent valid_seconds)
