-- ===== src/Env.antt =====
-- What the services are given from outside: the clock (one reading for an operation), PostgreSQL's
-- comparison of CITEXT columns, the answers of the NorthLine API and of the payment providers as
-- their clients report them (`none` for an invoice that the provider did not create), and a setting.
use pix_vpn_service.Prelude.{ℕ, String, Bool, Option}
use pix_vpn_service.Prelude.Int.{ℤ}
use pix_vpn_service.Db.{Provider}
use pix_vpn_service.Session.{Result}

-- The arguments of `NorthLineClient.create_key` that depend on the request.
pub record KeyRequest : Type 0 where
  pub days : ℕ
  pub devices : ℕ
  pub lte_gb : Option ℕ
  pub unlimited_traffic : Bool
  pub tariff_code : Option String
  pub is_free_trial : Bool
  pub subscription_id : ℕ
  pub payment_id : Option ℕ

pub record KeyResponse : Type 0 where
  pub subscription_id : Option String
  pub key : Option String

pub record ExtendRequest : Type 0 where
  pub subscription_id : Option String
  pub days : ℕ
  pub payment_id : ℕ

-- `order_id` is `payment-{id}`.
pub record InvoiceRequest : Type 0 where
  pub provider : Provider
  pub payment_id : ℕ
  pub amount_kopecks : ℤ

pub record Invoice : Type 0 where
  pub external_id : String
  pub payment_url : String
  pub raw : String

pub record Env : Type 0 where
  pub now : ℕ
  pub same_code : String → String → Bool
  pub create_key : KeyRequest → Result KeyResponse
  pub extend_key : ExtendRequest → Result (Unit {0})
  pub create_invoice : InvoiceRequest → Option Invoice
  pub payment_pending_ttl_minutes : ℕ
