-- ===== src/Extension/Request/Money.antt =====
-- The request for an extension and the books.
use pix_vpn_service.Prelude.{ℕ, ◌≡◌, refl, String, Option, none, some, arith, All-find}
use pix_vpn_service.Prelude.Int.{ℤ, pos, ◌-ℤ◌, ◌≤ℤ◌}
use pix_vpn_service.Db.{User, TariffDuration, Subscription, Provider, PaymentStatus, Meta, Payment}
use pix_vpn_service.Session.{Session, Error, northline_unavailable, northline_client}
use pix_vpn_service.Session.Preserves.{
  Preserves, Preserves-raise, Preserves-bind, Preserves-return, Preserves-on_error, then_preserves,
}
use pix_vpn_service.Session.Steps.{Ends, then_at, query_then, or_raise_then, raise_if_then}
use pix_vpn_service.Env.{Env}
use pix_vpn_service.Tables.{find_duration, set_balance, insert_payment}
use pix_vpn_service.Ledger.{Books}
use pix_vpn_service.Ledger.Frame.{books_rules, insert_payment-Held}
use pix_vpn_service.Ledger.Entries.{close_posting, set_balance-Held, -ℤ_neg, -ℤ_solvent}
use pix_vpn_service.Promo.Money.{validate_and_apply-Books}
use pix_vpn_service.Invoices.{create_invoice_for_provider}
use pix_vpn_service.Extension.Pricing.{extension_price-nonneg}
use pix_vpn_service.Extension.Money.{call_northline_extend-Books, refund_extension-Books}
use pix_vpn_service.Extension.Request.{
  of_tariff, apply_code, resolve_promo, extension_payment, refund_and_raise, record_extension,
  extend_via_balance, extend_via_provider, extend_via, create_extension_payment,
}

of_tariff-some :
    (tid : ℕ) (row : Option TariffDuration) (d : TariffDuration)
    → of_tariff tid row ≡ some d
    → row ≡ some d
of_tariff-some tid row d h = ground arith

module _ (env : Env) where
  apply_code-Books : (code : String) (user : User) → Preserves Books (apply_code env code user)
  unfolding apply_code
  apply_code-Books code user = search (books_rules, validate_and_apply-Books)

  resolve_promo-Books :
      (code : Option String) (user : User) → Preserves Books (resolve_promo env code user)
  unfolding resolve_promo
  resolve_promo-Books none user = search books_rules
  resolve_promo-Books (some code) user = search (books_rules, apply_code-Books)

  refund_and_raise-Books :
      (payment : Payment) (sid : ℕ) (amount : ℤ) (e : Error)
      → pos 0 ≤ℤ amount
      → Preserves Books (refund_and_raise env payment sid amount e)
  unfolding refund_and_raise
  refund_and_raise-Books payment sid amount northline_unavailable h =
      search (books_rules, refund_extension-Books)
  refund_and_raise-Books payment sid amount northline_client h =
      search (books_rules, refund_extension-Books)
  refund_and_raise-Books payment sid amount e h = Preserves-raise e

  extend_via_balance-Books :
      (user : User) (sub : Subscription) (amount : ℤ) (extra : Meta)
      → pos 0 ≤ℤ amount
      → Preserves Books (extend_via_balance env user sub amount extra)
  unfolding extend_via_balance record_extension set_balance insert_payment
  extend_via_balance-Books user sub amount extra h = record {
    from = λ s b. query_then (Ends Books) _ _ s (
        or_raise_then (Ends Books) _ _ _ s b λ u found.
          raise_if_then (Ends Books) _ _ _ s (λ _. b)
            λ covered.
              let balance : ℤ = u.balance_kopecks -ℤ amount in
              let s1 : Session = (set_balance user.id balance s).1 in
              let row =
                extension_payment env user sub Provider.balance amount PaymentStatus.paid
                  (some env.now) extra in
              then_at (Ends Books) _ _ s tt s1 refl (
                then_at (Ends Books) _ _ s1 _ _ refl (
                  then_preserves Books _ _ _
                    (close_posting user.id u s.live.users s.live.balance_transactions _ _ _ refl
                      found refl (-ℤ_neg u.balance_kopecks amount)
                      (-ℤ_solvent u.balance_kopecks amount covered) b.live.balanced b.live.audited
                      b.live.solvent
                      ((insert_payment-Held row (λ n. h)).from s1
                        (set_balance-Held user.id balance s b)))
                    (λ _.
                      Preserves-bind _ _
                        (Preserves-on_error _ _ (call_northline_extend-Books env _ sub)
                          (λ e. refund_and_raise-Books _ sub.id amount e h))
                        (λ _. Preserves-return _)))));
  }

  pub create_invoice-Books :
      (provider : Provider) (pid : ℕ) (amount : ℤ)
      → Preserves Books (create_invoice_for_provider env provider pid amount)
  unfolding create_invoice_for_provider
  create_invoice-Books Provider.balance pid amount = search books_rules
  create_invoice-Books _ pid amount = search books_rules

  extend_via_provider-Books :
      (user : User) (sub : Subscription) (provider : Provider) (amount : ℤ) (extra : Meta)
      → pos 0 ≤ℤ amount
      → Preserves Books (extend_via_provider env user sub provider amount extra)
  unfolding extend_via_provider
  extend_via_provider-Books user sub provider amount extra h =
      search (books_rules, create_invoice-Books) depth 8

  extend_via-Books :
      (provider : Provider) (user : User) (sub : Subscription) (amount : ℤ) (extra : Meta)
      → pos 0 ≤ℤ amount
      → Preserves Books (extend_via env provider user sub amount extra)
  unfolding extend_via
  extend_via-Books Provider.balance user sub amount extra h =
      extend_via_balance-Books user sub amount extra h
  extend_via-Books provider user sub amount extra h =
      extend_via_provider-Books user sub provider amount extra h

  -- A request for an extension keeps the books in order, also where it is refused or refunded.
  pub create_extension_payment-Books :
      (sid did : ℕ) (user : User) (provider : Provider) (code : Option String)
      → Preserves Books (create_extension_payment env sid did user provider code)
  unfolding create_extension_payment
  create_extension_payment-Books sid did user provider code = record {
    from = λ s b. query_then (Ends Books) _ _ s (
        or_raise_then (Ends Books) _ _ _ s b λ sub _.
          raise_if_then (Ends Books) _ _ _ s (λ _. b)
            λ _.
              raise_if_then (Ends Books) _ _ _ s (λ _. b)
                λ _. query_then (Ends Books) _ _ s (
                  or_raise_then (Ends Books) _ _ _ s b λ d found.
                    let priced : pos 0 ≤ℤ d.price_kopecks =
                      All-find (λ (r : TariffDuration). pos 0 ≤ℤ r.price_kopecks) _ s.live.durations
                        d b.live.priced
                        (of_tariff-some sub.tariff_id (find_duration did s.live) d found) in
                    then_preserves Books _ _ s ((resolve_promo-Books code user).from s b)
                      (λ applied.
                        extend_via-Books provider user sub _ _ (
                          extension_price-nonneg d.price_kopecks applied.discount_percent
                            priced))));
  }
