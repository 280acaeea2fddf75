-- ===== src/Extension/Request/Charge.antt =====
-- What an extension costs.
use pix_vpn_service.Prelude.{
  ℕ, ◌≡◌, refl, String, Bool, true, false, Option, none, some, List, ◌∷◌, arith, find,
  find-update_where, ==_iff, ◌==◌, str_eq, if◌then◌else◌,
}
use pix_vpn_service.Prelude.Int.{ℤ, neg}
use pix_vpn_service.Db.{
  Db, Payment, BalanceTransaction, User, TariffDuration, Subscription, PaymentStatus, Provider,
  Meta,
}
use pix_vpn_service.Session.{
  Session, Result, ok, err, Error, promo_invalid, return, raise, modify, on_error, ◌>>=◌,
}
use pix_vpn_service.Session.Steps.{query_then, or_raise_then, raise_if_then, then_at, then_each}
use pix_vpn_service.Session.Returns.{
  Returns, Returns-return, Returns-raise, Returns-on_error, Returns-bind,
}
use pix_vpn_service.Env.{Env, Invoice}
use pix_vpn_service.Tables.{
  find_duration, set_balance, insert_payment, insert_transaction, update_payment,
}
use pix_vpn_service.Invoices.{create_invoice_for_provider, invoiced}
use pix_vpn_service.Extension.{
  Applied, nothing_applied, compute_extension_price, ExtensionPaymentResult, call_northline_extend,
}
use pix_vpn_service.Extension.Request.Held.{Holds, extend_after-Holds, caught-Holds}
use pix_vpn_service.Extension.Request.{
  of_tariff, extension_payment, apply_code, resolve_promo, record_extension, extend_via_balance,
  extend_via_provider, extend_via, refund_and_raise, create_extension_payment,
}

abbrev NoDiscount : Applied → Type 0
NoDiscount a = a.discount_percent ≡ none

-- What the provider is asked for, or what the transaction of the user takes off.
abbrev Collects : Env → Provider → User → ℤ → ExtensionPaymentResult → Db → Type 0
Collects env Provider.balance user amount x db =
    (t : BalanceTransaction) × (rest : List BalanceTransaction) × (db.balance_transactions
      ≡ t ∷ rest)
    × (t.user_id ≡ user.id)
    × (t.amount_kopecks ≡ neg amount)
    × (t.ref_payment_id ≡ some x.payment_id)
Collects env provider user amount x db =
    (i : Invoice) × (env.create_invoice
        (record { provider = provider; payment_id = x.payment_id; amount_kopecks = amount })
      ≡ some i)
    × (x.payment_url ≡ some i.payment_url)

-- The answer, the payment's row and what is collected are all for this amount.
pub record Billed (env : Env) (provider : Provider) (user : User) (amount : ℤ)
    (x : ExtensionPaymentResult) (db : Db) : Type 0 where
  pub answered : x.amount_kopecks ≡ amount
  pub payment : Payment
  pub stored : find (λ p. p.id == x.payment_id) db.payments ≡ some payment
  pub recorded : payment.amount_kopecks ≡ amount
  pub collected : Collects env provider user amount x db

abbrev Charged : Env → Provider → User → ℤ → Result ExtensionPaymentResult × Session → Type 0
Charged env provider user amount o =
    (x : ExtensionPaymentResult) → o.0 ≡ ok x → Billed env provider user amount x o.1.live

refused :
    (env : Env) (provider : Provider) (user : User) (amount : ℤ) (e : Error) (s : Session)
    → Charged env provider user amount (err e, s)
refused env provider user amount e s x failed = absurd (never x failed)
  where
    never : (x : ExtensionPaymentResult) → err e ≡ ok x → ⊥
    never x h = cc

granted :
    (env : Env) (provider : Provider) (user : User) (amount : ℤ) (a : ExtensionPaymentResult)
    (s : Session)
    → Billed env provider user amount a s.live
    → Charged env provider user amount (ok a, s)
granted env provider user amount a s h x done = let same : a ≡ x = cc in rw same at h

same_duration :
    (tid : ℕ) (d duration : TariffDuration) (row : Option TariffDuration)
    → row ≡ some d
    → of_tariff tid row ≡ some duration
    → duration ≡ d
same_duration tid d duration row found chosen = ground (arith, found)

own : (i : ℕ) → (i == i) ≡ true
own i = (==_iff i i).1 refl

module _ (env : Env) where
  apply_code-NoDiscount :
      (code : String) (user : User) → Returns NoDiscount (apply_code env code user)
  unfolding apply_code
  apply_code-NoDiscount code user =
      Returns-on_error _ _ (Returns-bind _ _ (λ r. Returns-return _ refl))
        (λ e. Returns-raise promo_invalid)

  resolve_promo-NoDiscount :
      (code : Option String) (user : User) → Returns NoDiscount (resolve_promo env code user)
  unfolding resolve_promo
  resolve_promo-NoDiscount none user = Returns-return nothing_applied refl
  resolve_promo-NoDiscount (some code) user = by_test (str_eq code "")
    where
      by_test :
          (b : Bool)
          → Returns NoDiscount (if b then return nothing_applied else apply_code env code user)
      by_test true = Returns-return nothing_applied refl
      by_test false = apply_code-NoDiscount code user

  -- NorthLine's answer and what follows on it.
  extended-Charged :
      (ps : List Payment) (ts : List BalanceTransaction) (p : Payment) (user : User)
      (sub : Subscription) (amount : ℤ) (x : ExtensionPaymentResult) (s : Session)
      → ((s' : Session) → Holds ps ts s' → Billed env Provider.balance user amount x s'.live)
      → Holds ps ts s
      → Charged env Provider.balance user amount (
          (on_error (call_northline_extend env p sub) (refund_and_raise env p sub.id amount)
              >>= λ _. return x)
            s)
  unfolding on_error call_northline_extend return
  extended-Charged ps ts p user sub amount x s billed h =
      let m = call_northline_extend env p sub in
      let left : Session = (on_error m (refund_and_raise env p sub.id amount) s).1 in
      then_each (Charged env Provider.balance user amount) _ _ s
        (λ e _. refused env Provider.balance user amount e left)
        λ a done. granted env Provider.balance user amount x left (
          billed left (
            caught-Holds env ps ts _ p sub.id amount _ a (extend_after-Holds env ps ts _ p sub s h)
              done))

  extend_via_balance-Charged :
      (user : User) (sub : Subscription) (amount : ℤ) (extra : Meta) (s : Session)
      → Charged env Provider.balance user amount (extend_via_balance env user sub amount extra s)
  unfolding extend_via_balance record_extension set_balance insert_payment insert_transaction
  extend_via_balance-Charged user sub amount extra s =
      let P = Charged env Provider.balance user amount in
      query_then P _ _ s (
        or_raise_then P _ _ _ s (refused env Provider.balance user amount _ s) λ u _.
          raise_if_then P _ _ _ s (λ _. refused env Provider.balance user amount _ s)
            λ _. then_at P _ _ s tt _ refl (
              then_at P _ _ _ _ _ refl (
                then_at P _ _ _ _ _ refl (
                  extended-Charged _ _ _ user sub amount _ _
                    (λ s' same. record {
                      answered = refl;
                      payment =
                          extension_payment env user sub Provider.balance amount PaymentStatus.paid
                            (some env.now) extra s.live.next_id;
                      stored = rw same.0 (rw (own s.live.next_id) refl);
                      recorded = refl;
                      collected = (_, _, same.1, refl, refl, refl);
                    })
                    (refl, refl)))))

  -- With the provider's invoice.
  invoiced-Charged :
      (provider : Provider) (user : User) (amount : ℤ) (row : Payment) (s : Session)
      → find (λ p. p.id == row.id) s.live.payments ≡ some row
      → row.amount_kopecks ≡ amount
      → Charged env provider user amount (
          (create_invoice_for_provider env provider row.id amount >>= λ invoice.
          update_payment row.id (invoiced invoice) >>= λ _. return (record {
            payment_id = row.id;
            amount_kopecks = amount;
            payment_url = some invoice.payment_url;
            key_url = none;
          }))
            s)
  unfolding create_invoice_for_provider update_payment modify raise return ◌>>=◌
  invoiced-Charged Provider.balance user amount row s stored same =
      refused env Provider.balance user amount _ s
  invoiced-Charged (Provider.other name) user amount row s stored same =
      refused env (Provider.other name) user amount _ s
  invoiced-Charged provider user amount row s stored same =
      or_raise_then (Charged env provider user amount) _ _ _ s
        (refused env provider user amount _ s)
        λ i asked.
          granted env provider user amount _ (update_payment row.id (invoiced i) s).1 (record {
            answered = refl;
            payment = if row.id == row.id then invoiced i row else row;
            stored =
                find-update_where (λ p. p.id == row.id) (λ p. p.id == row.id) (invoiced i)
                  s.live.payments (λ p. refl) row stored;
            recorded = rw (own row.id) same;
            collected = (i, asked, refl);
          })

  extend_via_provider-Charged :
      (provider : Provider) (user : User) (sub : Subscription) (amount : ℤ) (extra : Meta)
      (s : Session)
      → Charged env provider user amount (extend_via_provider env user sub provider amount extra s)
  unfolding extend_via_provider insert_payment update_payment modify create_invoice_for_provider
  extend_via_provider-Charged provider user sub amount extra s =
      then_at (Charged env provider user amount) _ _ s _ _ refl (
        invoiced-Charged provider user amount
          (extension_payment env user sub provider amount PaymentStatus.pending none extra
            s.live.next_id)
          _ (rw (own s.live.next_id) refl) refl)

  extend_via-Charged :
      (provider : Provider) (user : User) (sub : Subscription) (amount : ℤ) (extra : Meta)
      (s : Session)
      → Charged env provider user amount (extend_via env provider user sub amount extra s)
  unfolding extend_via
  extend_via-Charged Provider.balance user sub amount extra s =
      extend_via_balance-Charged user sub amount extra s
  extend_via-Charged provider user sub amount extra s =
      extend_via_provider-Charged provider user sub amount extra s

  -- A granted extension is charged at the full price of its duration, also where a discount code is
  -- given: so much says the answer, the payment's row, and the invoice that the provider is asked for
  -- or, where the balance pays, the transaction that takes it off.
  pub create_extension_payment-Costs :
      (sid did : ℕ) (user : User) (provider : Provider) (code : Option String) (d : TariffDuration)
      (s : Session) (x : ExtensionPaymentResult)
      → find_duration did s.live ≡ some d
      → (create_extension_payment env sid did user provider code s).0 ≡ ok x
      → Billed env provider user d.price_kopecks x
          (create_extension_payment env sid did user provider code s).1.live
  unfolding create_extension_payment compute_extension_price
  create_extension_payment-Costs sid did user provider code d s x found =
      let P = Charged env provider user d.price_kopecks in
      let no = refused env provider user d.price_kopecks in
      query_then P _ _ s
        (or_raise_then P _ _ _ s (no _ s) λ sub _.
          raise_if_then P _ _ _ s (λ _. no _ s)
            λ _.
              raise_if_then P _ _ _ s (λ _. no _ s)
                λ _. query_then P _ _ s (
                  or_raise_then P _ _ _ s (no _ s) λ duration chosen.
                    let same : duration ≡ d =
                      same_duration sub.tariff_id d duration (find_duration did s.live) found
                        chosen in
                    rw same (
                      then_each P (resolve_promo env code user) _ s
                        (λ e _. no e (resolve_promo env code user s).1)
                        λ a done.
                          rw ((resolve_promo-NoDiscount code user).from s a done)
                            (extend_via-Charged provider user sub d.price_kopecks _ _))))
        x
