-- ===== src/Promo.antt =====
-- backend/app/services/promo_service.py: the price under a discount, the checks of a promo code, and
-- its two effects, a credit of the balance or a discount that is recorded once the payment is paid.
pub mod Price
pub mod Money
pub mod Limits
pub mod Personal
use Prim.Native.Char.{code as char_code}
use Prim.Native.String.{String}
use pix_vpn_service.Prelude.{
  ℕ, ◌/◌, Bool, true, false, not, ◌&&◌, ◌||◌, Option, none, some, find, ltb, leb, ◌==◌,
  if◌then◌else◌,
}
use pix_vpn_service.Prelude.Int.{ℤ, pos, negsuc, ◌+ℤ◌, ◌-ℤ◌, ◌*ℤ◌, leb_ℤ, floor_div}
use pix_vpn_service.Db.{User, PromoType, PromoCode, PromoActivation, promo_bonus}
use pix_vpn_service.Session.{
  Action, return, raise, query, or_raise, ◌>>=◌, ◌>>◌, raise_if, promo_not_found, promo_inactive,
  promo_not_started, promo_expired, promo_max_total, promo_max_per_user, promo_not_for_this_user,
  promo_invalid_type,
}
use pix_vpn_service.Env.{Env}
use pix_vpn_service.Tables.{
  find_promo, count_user_activations, lock_user, post_entry, insert_activation,
  increment_activations,
}

unfoldable pub compute_discounted_price : ℤ → ℤ → ℤ
compute_discounted_price price percent =
    if leb_ℤ percent (pos 0)
    then price
    else if leb_ℤ (pos 100) percent
    then pos 0
    else floor_div (price *ℤ (pos 100 -ℤ percent)) 100

pub record PromoApplyResult : Type 0 where
  pub type : PromoType
  pub amount_kopecks : Option ℤ
  pub percent : Option ℤ
  pub promo_id : Option ℕ
  pub balance_kopecks : Option ℤ

-- `str.isspace` of one character.
unfoldable pub is_space : ℕ → Bool
is_space c =
    (leb 9 c && leb c 13)
    || (leb 28 c && leb c 32)
    || c == 0x85
    || c == 0xa0
    || c == 0x1680
    || (leb 0x2000 c && leb c 0x200a)
    || c == 0x2028
    || c == 0x2029
    || c == 0x202f
    || c == 0x205f
    || c == 0x3000

unfoldable pub strip_start : String → String
unfolding is_space
strip_start String.[] = String.[]
strip_start (String.◌∷◌ c s) = if is_space (char_code c) then strip_start s else String.◌∷◌ c s

unfoldable pub is_empty : String → Bool
is_empty String.[] = true
is_empty (String.◌∷◌ c s) = false

unfoldable pub strip_end : String → String
unfolding is_space is_empty
strip_end String.[] = String.[]
strip_end (String.◌∷◌ c s) =
    let rest = strip_end s in
    if is_empty rest && is_space (char_code c) then String.[] else String.◌∷◌ c rest

-- `str.strip()`
unfoldable pub strip : String → String
unfolding strip_start strip_end
strip s = strip_end (strip_start s)

abbrev pub is_before : ℕ → Option ℕ → Bool
is_before now none = false
is_before now (some t) = ltb now t

abbrev pub is_after : ℕ → Option ℕ → Bool
is_after now none = false
is_after now (some t) = ltb t now

abbrev pub is_exhausted : PromoCode → Bool
is_exhausted promo = elim promo.max_total_activations [
  | none ↦ false
  | some m ↦ leb m promo.current_activations
]

module _ (env : Env) where
  -- `_ensure_active_and_in_window`
  unfoldable pub ensure_active_and_in_window : PromoCode → Action (Unit {0})
  ensure_active_and_in_window promo = do
    raise_if (not promo.is_active) promo_inactive
    raise_if (is_before env.now promo.valid_from) promo_not_started
    raise_if (is_after env.now promo.valid_until) promo_expired

-- `_ensure_total_capacity`
unfoldable pub ensure_total_capacity : PromoCode → Action (Unit {0})
ensure_total_capacity promo = raise_if (is_exhausted promo) promo_max_total

-- `_ensure_per_user_capacity`
unfoldable pub ensure_per_user_capacity : PromoCode → User → Action (Unit {0})
ensure_per_user_capacity promo user = do
  per_user ← query (count_user_activations promo.id user.id)
  raise_if (leb promo.max_per_user per_user) promo_max_per_user

-- `promo.user_id is not None and promo.user_id != user.id`
abbrev pub is_for_other : PromoCode → User → Bool
is_for_other promo user = elim promo.user_id [ none ↦ false | some uid ↦ not (uid == user.id) ]

-- `_apply_balance`
pub apply_balance : PromoCode → User → Action PromoApplyResult
apply_balance promo user = do
  let amount = promo.value
  locked_user ← lock_user user.id
  let new_balance = locked_user.balance_kopecks +ℤ amount
  post_entry user.id new_balance λ n. record {
    id = n;
    user_id = user.id;
    amount_kopecks = amount;
    reason = promo_bonus;
    ref_payment_id = none;
    ref_subscription_id = none;
    balance_after_kopecks = new_balance;
  }
  insert_activation λ n. record {
    id = n;
    promo_id = promo.id;
    user_id = user.id;
    payment_id = none;
    amount_applied_kopecks = amount;
  }
  increment_activations promo.id
  return (record {
    type = PromoType.balance;
    amount_kopecks = some amount;
    percent = none;
    promo_id = some promo.id;
    balance_kopecks = some new_balance;
  })

-- `_apply_discount`
unfoldable pub apply_discount : PromoCode → Action PromoApplyResult
apply_discount promo = return (record {
  type = PromoType.discount_percent;
  amount_kopecks = none;
  percent = some promo.value;
  promo_id = some promo.id;
  balance_kopecks = none;
})

-- The dispatch on `promo.type`.
unfoldable pub apply_by_type : PromoType → PromoCode → User → Action PromoApplyResult
apply_by_type PromoType.balance promo user = apply_balance promo user
apply_by_type PromoType.discount_percent promo user = apply_discount promo
apply_by_type (PromoType.other t) promo user = raise promo_invalid_type

module _ (env : Env) where
  -- `PromoService.validate_and_apply`
  unfoldable pub validate_and_apply : String → User → Action PromoApplyResult
  validate_and_apply given user = do
    let normalized_code = strip given
    raise_if (is_empty normalized_code) promo_not_found
    found ←
        query (λ db. find (λ (p : PromoCode). env.same_code p.code normalized_code) db.promo_codes)
    existing ← or_raise found promo_not_found
    row ← query (find_promo existing.id)
    promo ← or_raise row promo_not_found
    ensure_active_and_in_window env promo
    ensure_total_capacity promo
    ensure_per_user_capacity promo user
    raise_if (is_for_other promo user) promo_not_for_this_user
    apply_by_type promo.type promo user

-- The part of `record_discount_activation` behind the two limits.
unfoldable pub record_activation : PromoCode → ℕ → ℕ → ℤ → Action (Option PromoActivation)
record_activation promo user_id payment_id discount = do
  activation ← insert_activation λ n. record {
    id = n;
    promo_id = promo.id;
    user_id = user_id;
    payment_id = some payment_id;
    amount_applied_kopecks = discount;
  }
  increment_activations promo.id
  return (some activation)

-- `record_discount_activation` on the locked row. An expired or inactive promo is only logged.
unfoldable pub record_checked : Option PromoCode → ℕ → ℕ → ℤ → Action (Option PromoActivation)
record_checked none user_id payment_id discount = return none
record_checked (some promo) user_id payment_id discount = do
  per_user ← query (count_user_activations promo.id user_id)
  if is_exhausted promo || leb promo.max_per_user per_user
      then return none
      else record_activation promo user_id payment_id discount

-- `PromoService.record_discount_activation`
unfoldable pub record_discount_activation : ℕ → ℕ → ℕ → ℤ → Action (Option PromoActivation)
record_discount_activation promo_id user_id payment_id discount = do
  promo ← query (find_promo promo_id)
  record_checked promo user_id payment_id discount
