-- ===== src/Examples/Admin.antt =====
-- The theorems about the administrator's requests at small examples.
use Prim.Native.String.{String}
use pix_vpn_service.Prelude.{◌+◌, ◌≡◌, refl, none, some, [], ◌∷◌, All}
use pix_vpn_service.Prelude.Int.{pos, ◌+ℤ◌, ◌-ℤ◌}
use pix_vpn_service.Db.{Db, SubStatus}
use pix_vpn_service.Session.{
  ok, err, invalid_subscription_status, query, or_raise, raise_if, return, modify, commit, ◌>>=◌,
}
use pix_vpn_service.Html.Scan.{after_prefix}
use pix_vpn_service.Tables.{lock_user, post_entry, set_balance, insert_transaction, insert_outbox}
use pix_vpn_service.Balance.{add_admin_adjust}
use pix_vpn_service.Balance.Shown.{Shows}
use pix_vpn_service.Outbox.{enqueue_message}
use pix_vpn_service.Reconcile.{key_info, is_test_id}
use pix_vpn_service.Subscriptions.{
  Keys, resume_request, reconcile_request, stop_subscription, resume_subscription,
  reconcile_subscription,
}
use pix_vpn_service.Subscriptions.Over.{IsOver}
use pix_vpn_service.Subscriptions.History.{Call, serve_subscriptions, serve_subscriptions-IsOver}
use pix_vpn_service.Subscriptions.Pause.{Leaves, resume-stop, resume-reconcile}
use pix_vpn_service.Users.{
  BulkMessage, distinct, listed_users, not_found, bulk_message_users, get_user_or_404, move_balance,
  set_user_balance,
}
use pix_vpn_service.Users.Messages.{messages_to, bulk_message_users-Messages}
use pix_vpn_service.Users.Exact.{set_user_balance_again}
use pix_vpn_service.Examples.{running, shop, at_shop}

abbrev unchanged : String → String
unchanged s = s

-- NorthLine does as it is asked and says that every key is suspended.
abbrev obliging : Keys
obliging = record {
  delete_key = λ k. ok tt;
  stop_key = λ k. ok tt;
  resume_key = λ k. ok tt;
  get_key = λ k. key_info (some "suspended") none;
}

abbrev after_deletion : Db
after_deletion = record shop {
  subscriptions = record running { status = SubStatus.deactivated } ∷ [];
}

abbrev resume_call : Call
resume_call = record { now = 60; keys = obliging; sub_id = 40; asked = resume_request }

abbrev reconcile_call : Call
reconcile_call = record { now = 70; keys = obliging; sub_id = 40; asked = reconcile_request }

serve_subscriptions-IsOver_example :
    All
      (IsOver 40)
      (serve_subscriptions unchanged
        (resume_call ∷ reconcile_call ∷ [])
        after_deletion).subscriptions
serve_subscriptions-IsOver_example =
    serve_subscriptions-IsOver 40 unchanged (resume_call ∷ reconcile_call ∷ []) after_deletion
      ((λ own. refl), tt)

resume-stop_example :
    Leaves 40
      (record running {
        status = SubStatus.active;
        deactivated_at = none;
        deactivation_reason = none;
      })
      (resume_subscription 70 obliging 40 (stop_subscription 60 obliging 40 "pause" at_shop).1)
resume-stop_example =
    resume-stop 60 70 40 running at_shop obliging obliging "pause" refl refl (λ k. refl) (λ k. refl)

resume-reconcile_example :
    let s' = (reconcile_subscription 60 obliging unchanged 40 at_shop).1 in
    resume_subscription 70 obliging 40 s' ≡ (err invalid_subscription_status, s')
unfolding is_test_id after_prefix
resume-reconcile_example =
    resume-reconcile 60 70 40 unchanged running at_shop obliging obliging none refl refl (λ k. refl)
      refl

-- Anna is asked for two times, and a user who does not exist once.
bulk_message_users-Messages_example :
    let (r, s') = bulk_message_users 60 (1 ∷ 9 ∷ 1 ∷ []) "hello" none at_shop in
    (c : BulkMessage) × (r
      ≡ ok (
        c,
        not_found (listed_users (distinct (1 ∷ 9 ∷ 1 ∷ [])) shop) (distinct (1 ∷ 9 ∷ 1 ∷ [])),
      ))
    × (messages_to 1 s'.saved ≡ messages_to 1 shop + 1)
bulk_message_users-Messages_example =
    bulk_message_users-Messages 60 (1 ∷ 9 ∷ 1 ∷ []) "hello" none 1 at_shop

set_user_balance_again_example :
    let s' = (set_user_balance 60 1 (pos 7000) at_shop).1 in
    (pos 7000 ≡ pos 7000)
    × Shows 1 (pos 7000) s'
    × (set_user_balance 70 1 (pos 7000) s' ≡ (ok (pos 7000), s'))
unfolding set_user_balance move_balance get_user_or_404 query or_raise raise_if return modify commit
    ◌>>=◌ add_admin_adjust lock_user post_entry set_balance insert_transaction enqueue_message
    insert_outbox ◌+ℤ◌ ◌-ℤ◌
set_user_balance_again_example = set_user_balance_again 60 70 1 (pos 7000) (pos 7000) at_shop refl
