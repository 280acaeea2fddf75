-- ===== src/Examples/Idempotency.antt =====
-- A request that is made twice under one key.
use pix_vpn_service.Prelude.{◌≡◌, refl}
use pix_vpn_service.Session.{ok, user_not_found, return, raise, query, modify, ◌>>=◌}
use pix_vpn_service.Idempotency.{
  get_or_set, reserve_missing, after_reserve, compute, reserve, store_response, get_or_set_again,
}
use pix_vpn_service.Examples.{at_shop}

get_or_set_again_example :
    let s' = (get_or_set "k1" "topup" (return "{}") at_shop).1 in
    get_or_set "k1" "topup" (raise user_not_found) s' ≡ (ok "{}", s')
unfolding get_or_set reserve_missing after_reserve compute reserve store_response modify query
    return ◌>>=◌
get_or_set_again_example =
    get_or_set_again "k1" "topup" (return "{}") at_shop "{}" "topup" (raise user_not_found)
      (λ s. refl) refl
