-- ===== src/Subscriptions/Books.antt =====
-- The administrator's requests about subscriptions move no money.
use Prim.Native.String.{String}
use pix_vpn_service.Prelude.{ℕ, Option, none, some, Bool, true, false}
use pix_vpn_service.Db.{User, Subscription, Payload}
use pix_vpn_service.Session.{Result, answered_by}
use pix_vpn_service.Session.Preserves.{Preserves}
use pix_vpn_service.Ledger.{Books}
use pix_vpn_service.Ledger.Frame.{books_rules}
use pix_vpn_service.Reconcile.{
  KeyAnswer, Verdict, unknown_key, failed_check, shrinks, agrees, flips, extends, is_test_id,
}
use pix_vpn_service.Subscriptions.{
  Keys, get_sub_or_404, call_provider, tell_found, tell_user, deactivate_subscription,
  stop_subscription, resume_subscription, after_answer, check_key, check_sub,
  reconcile_subscription, SubscriptionRequest, deactivate_request, stop_request, resume_request,
  reconcile_request, handle_subscription,
}

answered_by-Books : (r : Result (Unit {0})) → Preserves Books (answered_by r)
unfolding answered_by
answered_by-Books r = record { from = λ s b. b }

call_provider-Books :
    (f : String → Result (Unit {0})) (key : Option String) → Preserves Books (call_provider f key)
unfolding call_provider
call_provider-Books f none = search books_rules
call_provider-Books f (some String.[]) = search books_rules
call_provider-Books f (some (String.◌∷◌ c s)) = search (answered_by-Books)

tell_found-Books :
    (now : ℕ) (payload : Payload) (o : Option User) → Preserves Books (tell_found now payload o)
unfolding tell_found
tell_found-Books now payload none = search books_rules
tell_found-Books now payload (some u) = search books_rules

tell_user-Books : (now uid : ℕ) (payload : Payload) → Preserves Books (tell_user now uid payload)
unfolding tell_user
tell_user-Books now uid payload = search (books_rules, tell_found-Books)

get_sub-Books : (i : ℕ) → Preserves Books (get_sub_or_404 i)
unfolding get_sub_or_404
get_sub-Books i = search books_rules

ruleset sub_books = (books_rules, get_sub-Books, call_provider-Books, tell_user-Books)

after_answer-Books :
    (now : ℕ) (sub : Subscription) (a : KeyAnswer) (v : Verdict)
    → Preserves Books (after_answer now sub a v)
unfolding after_answer
after_answer-Books now sub a (unknown_key code) = search books_rules
after_answer-Books now sub a failed_check = search books_rules
after_answer-Books now sub a (flips st reason) = search books_rules
after_answer-Books now sub a (extends t) = search books_rules
after_answer-Books now sub a shrinks = search books_rules
after_answer-Books now sub a agrees = search books_rules

check_key-Books :
    (now : ℕ) (keys : Keys) (lower : String → String) (test : Bool) (sub : Subscription)
    (key : String)
    → Preserves Books (check_key now keys lower test sub key)
unfolding check_key
check_key-Books now keys lower true sub key = search books_rules
check_key-Books now keys lower false sub key = after_answer-Books now sub _ _

check_sub-Books :
    (now : ℕ) (keys : Keys) (lower : String → String) (sub : Subscription) (key : Option String)
    → Preserves Books (check_sub now keys lower sub key)
unfolding check_sub
check_sub-Books now keys lower sub none = search books_rules
check_sub-Books now keys lower sub (some String.[]) = search books_rules
check_sub-Books now keys lower sub (some (String.◌∷◌ c s)) =
    check_key-Books now keys lower (is_test_id (some (String.◌∷◌ c s))) sub (String.◌∷◌ c s)

pub handle_subscription-Books :
    (now : ℕ) (keys : Keys) (lower : String → String) (sid : ℕ) (r : SubscriptionRequest)
    → Preserves Books (handle_subscription now keys lower sid r)
unfolding handle_subscription deactivate_subscription stop_subscription resume_subscription
    reconcile_subscription
handle_subscription-Books now keys lower sid (deactivate_request reason) = search sub_books depth 12
handle_subscription-Books now keys lower sid (stop_request reason) = search sub_books depth 12
handle_subscription-Books now keys lower sid resume_request = search sub_books depth 12
handle_subscription-Books now keys lower sid reconcile_request =
    search (sub_books, check_sub-Books) depth 12
