-- ===== src/Payments/Create/Money.antt =====
-- The creation of a payment and the books.
use pix_vpn_service.Prelude.{ℕ, ◌≡◌, false, Option, none, some, arith, All-find}
use pix_vpn_service.Prelude.Int.{ℤ, pos, ltb_ℤ, ◌≤ℤ◌}
use pix_vpn_service.Db.{TariffDuration, Purpose, Provider, Meta}
use pix_vpn_service.Session.Preserves.{Preserves, then_preserves}
use pix_vpn_service.Session.Steps.{Ends, query_then, or_raise_then, raise_if_then}
use pix_vpn_service.Env.{Env}
use pix_vpn_service.Tables.{find_duration}
use pix_vpn_service.Ledger.{Books}
use pix_vpn_service.Ledger.Frame.{books_rules, insert_subscription-Books}
use pix_vpn_service.Tariffs.{chosen_promo}
use pix_vpn_service.Tariffs.Quotes.{quote_bounds}
use pix_vpn_service.Extension.Request.Money.{create_invoice-Books}
use pix_vpn_service.Payments.Create.{
  duration_of, open_payment, create_subscription_payment, create_topup_payment,
}

duration_of-some :
    (tid : ℕ) (row : Option TariffDuration) (d : TariffDuration)
    → duration_of tid row ≡ some d
    → row ≡ some d
duration_of-some tid row d h = ground arith

topup-nonneg : (a : ℤ) → ltb_ℤ a (pos 1000) ≡ false → pos 0 ≤ℤ a
topup-nonneg a h = ground arith

module _ (env : Env) where
  open_payment-Books :
      (uid : ℕ) (sid : Option ℕ) (purpose : Purpose) (provider : Provider) (amount : ℤ)
      (extra : Meta)
      → pos 0 ≤ℤ amount
      → Preserves Books (open_payment env uid sid purpose provider amount extra)
  unfolding open_payment
  open_payment-Books uid sid purpose provider amount extra h =
      search (books_rules, create_invoice-Books) depth 8

  -- A payment for a subscription is opened, at the quoted price, without touching any balance.
  pub create_subscription_payment-Books :
      (uid tid did : ℕ) (provider : Provider) (promo_id : Option ℕ)
      → Preserves Books (create_subscription_payment env uid tid did provider promo_id)
  unfolding create_subscription_payment
  create_subscription_payment-Books uid tid did provider promo_id = record {
    from = λ s b. query_then (Ends Books) _ _ s (
        query_then (Ends Books) _ _ s (
          or_raise_then (Ends Books) _ _ _ s b λ tariff _.
            or_raise_then (Ends Books) _ _ _ s b λ d found. query_then (Ends Books) _ _ s (
              then_preserves Books _ _ s ((insert_subscription-Books _).from s b) λ sub.
                open_payment-Books uid _ Purpose.subscription provider _ _
                  (quote_bounds d.price_kopecks (chosen_promo promo_id s.live) (
                    All-find (λ (r : TariffDuration). pos 0 ≤ℤ r.price_kopecks) _ s.live.durations d
                      b.live.priced
                      (duration_of-some tid (find_duration did s.live) d found))).0)));
  }

  -- A top-up is opened without touching any balance.
  pub create_topup_payment-Books :
      (uid : ℕ) (amount : ℤ) (provider : Provider)
      → Preserves Books (create_topup_payment env uid amount provider)
  unfolding create_topup_payment
  create_topup_payment-Books uid amount provider = record {
    from = λ s b.
        raise_if_then (Ends Books) _ _ _ s (λ _. b)
          λ enough.
            (open_payment-Books uid none Purpose.topup provider amount _
                (topup-nonneg amount enough)).from
              s b;
  }
