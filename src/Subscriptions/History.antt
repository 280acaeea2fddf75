-- ===== src/Subscriptions/History.antt =====
-- Sequences of the administrator's requests about subscriptions.
use Prim.Native.String.{String}
use pix_vpn_service.Prelude.{ℕ, List, [], ◌∷◌, All}
use pix_vpn_service.Db.{Db}
use pix_vpn_service.Session.{request}
use pix_vpn_service.Subscriptions.{Keys, SubscriptionRequest, handle_subscription}
use pix_vpn_service.Subscriptions.Over.{IsOver}
use pix_vpn_service.Subscriptions.Over.Requests.{handle_subscription-Over}

-- When a request comes, what NorthLine answers to it, and which subscription it is about.
pub record Call : Type 0 where
  pub now : ℕ
  pub keys : Keys
  pub sub_id : ℕ
  pub asked : SubscriptionRequest

-- Requests one after the other, each on what the last one committed.
pub serve_subscriptions : (String → String) → List Call → Db → Db
serve_subscriptions lower [] db = db
serve_subscriptions lower (c ∷ cs) db =
    serve_subscriptions lower cs
      (request (handle_subscription c.now c.keys lower c.sub_id c.asked) db).1

-- Where the row with an id is neither active nor suspended, so it is after any sequence of the
-- administrator's requests about subscriptions, whatever NorthLine answers: what is deleted, expired
-- or failed is never given back.
pub serve_subscriptions-IsOver :
    (sid : ℕ) (lower : String → String) (cs : List Call) (db : Db)
    → All (IsOver sid) db.subscriptions
    → All (IsOver sid) (serve_subscriptions lower cs db).subscriptions
unfolding serve_subscriptions request
serve_subscriptions-IsOver sid lower [] db h = h
serve_subscriptions-IsOver sid lower (c ∷ cs) db h =
    serve_subscriptions-IsOver sid lower cs _
      ((handle_subscription-Over c.now c.keys lower c.sub_id c.asked).from
        (record { live = db; saved = db }) (record { live = h; saved = h })).saved
