-- ===== src/Examples/Reconcile.antt =====
-- The theorems about the reconciliation at small examples.
use Prim.Native.String.{String}
use pix_vpn_service.Prelude.{refl, Bool, true, some, [], ◌∷◌, arith}
use pix_vpn_service.Db.{Db, Subscription}
use pix_vpn_service.Session.{Session}
use pix_vpn_service.Html.Scan.{after_prefix}
use pix_vpn_service.Reconcile.{
  KeyAnswer, client_error, key_info, is_test_id, reconcile_subscriptions,
}
use pix_vpn_service.Reconcile.Breaker.{Aborted, reconcile_subscriptions-Aborted}
use pix_vpn_service.Reconcile.Period.{Lasts, reconcile_subscriptions-Lasts}
use pix_vpn_service.Examples.{running, shop, at_shop}

abbrev three_running : Db
three_running = record shop {
  subscriptions = running ∷ record running { id = 41 } ∷ record running { id = 42 } ∷ [];
}

abbrev at_outage : Session
at_outage = record { live = three_running; saved = three_running }

abbrev unchanged : String → String
unchanged s = s

abbrev any_order : Subscription → Subscription → Bool
any_order a b = true

-- NorthLine knows no key.
abbrev outage : String → KeyAnswer
outage key = client_error (some "not_found")

abbrev shorter : String → KeyAnswer
shorter key = key_info (some "active") (some 10)

reconcile_subscriptions-Aborted_example :
    Aborted three_running (reconcile_subscriptions 60 unchanged outage any_order 200 at_outage)
unfolding is_test_id after_prefix
reconcile_subscriptions-Aborted_example =
    reconcile_subscriptions-Aborted 60 unchanged outage (λ key. "not_found") any_order 200 at_outage
      (λ key e. refl) (omega arith)

reconcile_subscriptions-Lasts_example :
    Lasts 40 5000 (reconcile_subscriptions 60 unchanged shorter any_order 200 at_shop).1
reconcile_subscriptions-Lasts_example =
    reconcile_subscriptions-Lasts 40 5000 60 unchanged shorter any_order 200 at_shop (record {
      live = ((λ own. (5000, refl, omega arith)), tt);
      saved = ((λ own. (5000, refl, omega arith)), tt);
    })
