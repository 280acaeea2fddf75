-- ===== src/Examples/Delivery.antt =====
-- The theorems about the webhook and the outbox at the example shop.
use pix_vpn_service.Prelude.{◌≡◌, refl, false, [], ◌∷◌, ◌≤◌, arith, All}
use pix_vpn_service.Db.{PaymentStatus, OutboxMessage}
use pix_vpn_service.Session.{Session, request, ok, modify, ◌>>=◌}
use pix_vpn_service.Session.Preserves.{Preserves}
use pix_vpn_service.Outbox.{
  exponential_backoff_minutes, fetch_pending, mark_failed, first_rows, due_in_order, is_among,
  insert_by_due,
}
use pix_vpn_service.Outbox.Lifecycle.{
  IsRetriable, AllRetriable, exponential_backoff_mono, mark_failed-AllRetriable,
}
use pix_vpn_service.Outbox.Lifecycle.Claim.{fetch_pending-AllRetriable, fetch_pending_exclusive}
use pix_vpn_service.Prelude.Int.{pos, ◌+ℤ◌}
use pix_vpn_service.Balance.Shown.{Shows}
use pix_vpn_service.Payments.Topup.{topup-Credited, topup_once-Shows}
use pix_vpn_service.Payments.{settled, process_webhook_payment}
use pix_vpn_service.Payments.Readings.{classify}
use pix_vpn_service.Payments.Settled.Once.{UndoneOrOnce, webhook_once}
use pix_vpn_service.Api.{webhook}
use pix_vpn_service.Examples.{
  working, broken, boris, open_topup, waiting, open_extension, shop, at_shop,
}

-- The extension that NorthLine refuses is refunded.
webhook_once_example : UndoneOrOnce shop "ext-2" (request (webhook broken "ext-2" "Paid" "{}") shop)
unfolding classify
webhook_once_example = webhook_once broken "ext-2" "Paid" "{}" shop open_extension refl refl

exponential_backoff_mono_example : exponential_backoff_minutes 2 ≤ exponential_backoff_minutes 5
exponential_backoff_mono_example = exponential_backoff_mono 2 5 (omega arith)

mark_failed-AllRetriable_example : Preserves AllRetriable (mark_failed 1000 60 "403: blocked")
mark_failed-AllRetriable_example = mark_failed-AllRetriable 1000 60 "403: blocked"

waiting-IsRetriable : IsRetriable waiting
waiting-IsRetriable = record { tried = omega arith; waiting = λ e. omega arith }

fetch_pending-AllRetriable_example : All IsRetriable (fetch_pending 1000 50 at_shop).1.live.outbox
fetch_pending-AllRetriable_example =
    fetch_pending-AllRetriable 1000 50 at_shop (tt, tt) (waiting-IsRetriable, tt)

abbrev also_waiting : OutboxMessage
also_waiting = record waiting { id = 61; send_after = 950 }

abbrev at_queue : Session
at_queue = record at_shop { live = record shop { outbox = also_waiting ∷ waiting ∷ [] } }

-- The first claim takes the older message only, and leaves the other to the second.
fetch_pending_exclusive_example :
    is_among (first_rows 1 (due_in_order 1000 at_queue.live.outbox)) also_waiting ≡ false
unfolding is_among first_rows due_in_order insert_by_due fetch_pending ◌>>=◌ modify
fetch_pending_exclusive_example = fetch_pending_exclusive 1000 1 1010 5 at_queue also_waiting refl

topup-Credited_example :
    ((process_webhook_payment working "ext-1" "paid" "{}" at_shop).0
      ≡ ok (settled 30 PaymentStatus.paid))
    × Shows 2 (pos 0 +ℤ pos 20000) (process_webhook_payment working "ext-1" "paid" "{}" at_shop).1
unfolding classify
topup-Credited_example =
    topup-Credited working "ext-1" "paid" "{}" at_shop open_topup boris refl refl refl refl refl

topup_once-Shows_example :
    let s' = (process_webhook_payment working "ext-1" "Success" "{}" at_shop).1 in
    Shows 2 (pos 0 +ℤ pos 20000) (process_webhook_payment broken "ext-1" "paid" "{}" s').1
unfolding classify
topup_once-Shows_example =
    topup_once-Shows working broken "ext-1" "Success" "paid" "{}" "{}" at_shop open_topup boris refl
      refl refl refl refl
