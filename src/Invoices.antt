-- ===== src/Invoices.antt =====
-- backend/app/services/payment_service.py, `_create_invoice_for_provider`: which providers there are.
-- The clients of the providers are in the environment.
use pix_vpn_service.Prelude.{ℕ, some}
use pix_vpn_service.Prelude.Int.{ℤ}
use pix_vpn_service.Db.{Provider, Payment}
use pix_vpn_service.Session.{
  Action, raise, or_raise, payment_provider_unavailable, unknown_provider,
}
use pix_vpn_service.Env.{Env, Invoice}

module _ (env : Env) where
  unfoldable pub create_invoice_for_provider : Provider → ℕ → ℤ → Action Invoice
  create_invoice_for_provider Provider.balance payment_id amount = raise unknown_provider
  create_invoice_for_provider (Provider.other name) payment_id amount = raise unknown_provider
  create_invoice_for_provider provider payment_id amount =
      or_raise
        (env.create_invoice
          (record { provider = provider; payment_id = payment_id; amount_kopecks = amount }))
        payment_provider_unavailable

-- The payment with the provider's invoice.
abbrev pub invoiced : Invoice → Payment → Payment
invoiced invoice p = record p {
  external_id = some invoice.external_id;
  extra = record (p.extra) {
    payment_url = some invoice.payment_url;
    provider_response = some invoice.raw;
  };
}
