-- ===== src/Examples/Broadcasts.antt =====
-- The theorems about broadcasts, their texts, tickets, the free trial and the cron tasks.
use pix_vpn_service.Prelude.{
  ℕ, ◌≡◌, refl, sym, true, false, none, some, List, [], ◌∷◌, Option, arith, All,
}
use pix_vpn_service.Db.{Db, Tariff}
use pix_vpn_service.Db.Contact.{Button, Broadcast, BroadcastStatus, Target, Ticket}
use pix_vpn_service.Session.{
  Session, ok, err, ticket_already_open, ticket_already_closed, free_trial_already_used, ◌>>=◌,
  query, return, raise_if, or_raise, modify, request,
}
use Prim.Native.String.{String}
use pix_vpn_service.Html.Markup.{
  Unicode, tokens, tokens_from, match_tag, tag_opened, tag_named, attrs_from,
}
use pix_vpn_service.Html.Convert.{pieces, unescape_from}
use pix_vpn_service.Html.Nesting.{Closes, pieces-Closes}
use pix_vpn_service.Html.Written.{IsWritten, has_char}
use pix_vpn_service.Html.Scan.{is_letter, is_name_char, between, span, cut_at, after_prefix}
use pix_vpn_service.Maintenance.{expire_pending_payments, expire_pending_payments_again}
use pix_vpn_service.Trial.{activate_free_trial}
use pix_vpn_service.Trial.Once.{activate_free_trial_once}
use pix_vpn_service.Tickets.{
  try_codes, insert_if_unique, insert_ticket, after_insert, generate_code, update_ticket,
  closed_row, open_ticket, close_ticket, new_ticket,
}
use pix_vpn_service.Tickets.Single.{IsSingle}
use pix_vpn_service.Tickets.Requests.{
  TicketRequest, open_request, close_request, serve_tickets, serve_tickets-IsSingle,
}
use pix_vpn_service.Tickets.Answers.{open_ticket_twice, close_ticket_twice}
use pix_vpn_service.Broadcasts.{find_broadcast}
use pix_vpn_service.Broadcasts.Keyboard.{
  UrlButton, build_reply_markup, flat_buttons, flatten, Fits, rows_from, build_reply_markup_rows,
}
use pix_vpn_service.Broadcasts.Audience.{snapshot}
use pix_vpn_service.Broadcasts.Messages.{World, accepted}
use pix_vpn_service.Broadcasts.Worker.{
  Counters, no_counters, run_broadcast, drain, pass, send_batch, record_outcome,
}
use pix_vpn_service.Broadcasts.Worker.Ends.{run_broadcast_ends}
use pix_vpn_service.Broadcasts.Worker.Tally.{Agrees, Tallied}
use pix_vpn_service.Broadcasts.Worker.Tally.Runs.{run_broadcast-Tallied}
use pix_vpn_service.Broadcasts.Lifecycle.{Tracks}
use pix_vpn_service.Broadcasts.Lifecycle.Requests.{cancel_request, send_request}
use pix_vpn_service.Broadcasts.Lifecycle.History.{Event, asked, ran, play, play-Tracks, play_final}
use pix_vpn_service.Examples.{working, broken, anna, plus, shop, at_shop}

abbrev ascii : Unicode
ascii = record { is_word = is_letter; lower = λ s. s; fold = λ c. c }

abbrev greeting : String
greeting = "<p>Hi <b>there</p>"

pieces-Closes_example : All IsWritten (pieces ascii greeting) × Closes "b" 0 (pieces ascii greeting)
unfolding has_char unescape_from after_prefix tokens tokens_from match_tag tag_opened tag_named span
    is_name_char is_letter between cut_at attrs_from
pieces-Closes_example = pieces-Closes ascii greeting "b" (tt, (refl, (tt, (refl, (tt, tt)))))

abbrev site : Button
site = record { text = some "Site"; url = some "https://pix" }

abbrev site_button : UrlButton
site_button = record { text = "Site"; url = "https://pix" }

build_reply_markup_rows_example :
    let rows = (site_button ∷ site_button ∷ []) ∷ (site_button ∷ []) ∷ [] in
    (flatten rows ≡ flat_buttons (site ∷ site ∷ site ∷ [])) × All (Fits 4) rows
unfolding build_reply_markup flat_buttons rows_from
build_reply_markup_rows_example =
    build_reply_markup_rows (site ∷ site ∷ site ∷ []) 2
      ((site_button ∷ site_button ∷ []) ∷ (site_button ∷ []) ∷ []) refl

abbrev news : Broadcast
news = record {
  id = 90;
  html_text = "<p>News</p>";
  photo_file_id = none;
  photo_path = none;
  buttons = some (site ∷ []);
  buttons_per_row = 1;
  target = Target.all;
  status = BroadcastStatus.sending;
  scheduled_at = none;
  started_at = none;
  finished_at = none;
  recipients_total = 0;
  sent = 0;
  failed = 0;
}

abbrev old_news : Broadcast
old_news = record news { id = 91; status = BroadcastStatus.cancelled }

abbrev newsroom : Db
newsroom = record shop { broadcasts = news ∷ old_news ∷ [] }

-- Telegram takes every message.
abbrev calm : World
calm = record {
  now = 1000;
  exists_on_disk = λ path. false;
  unicode = ascii;
  send = λ message. accepted none;
  stop_flag = λ n. false;
  cancelled = λ n. false;
}

run_broadcast_ends_example : (out : Counters × Db) × (run_broadcast calm 3 90 newsroom ≡ some out)
run_broadcast_ends_example = run_broadcast_ends calm 3 90 newsroom (omega arith)

newsroom-Tallied : Tallied 90 newsroom
newsroom-Tallied = record {
  keyed = λ rid. omega arith;
  fresh = λ rid new. refl;
  agrees = λ bc e. agree bc e;
}
  where
    agree : (bc : Broadcast) → some news ≡ some bc → Agrees 90 [] bc
    agree bc e =
        let same : news ≡ bc = cc in
        rw (sym same) (record { total = refl; sent = refl; failed = refl })

abbrev outcome : Option (Counters × Db) → Counters × Db
outcome none = (no_counters, newsroom)
outcome (some out) = out

run_broadcast-Tallied_example : Tallied 90 (outcome (run_broadcast calm 3 90 newsroom)).1
unfolding run_broadcast drain pass send_batch record_outcome snapshot
run_broadcast-Tallied_example =
    run_broadcast-Tallied calm 3 90 newsroom (outcome (run_broadcast calm 3 90 newsroom)).0
      (outcome (run_broadcast calm 3 90 newsroom)).1 newsroom-Tallied refl

abbrev week : List Event
week = ran calm ∷ asked (cancel_request 2000) ∷ asked send_request ∷ []

play-Tracks_example : Tracks 90 BroadcastStatus.sending (play 90 week newsroom)
play-Tracks_example = play-Tracks 90 week newsroom news refl

play_final_example :
    (b' : Broadcast) × (find_broadcast 91 (play 91 week newsroom) ≡ some b')
    × (b'.status ≡ BroadcastStatus.cancelled)
play_final_example = play_final 91 week newsroom old_news refl refl

expire_pending_payments_again_example :
    let s' = (expire_pending_payments 9000 30 at_shop).1 in
    expire_pending_payments 9000 30 s' ≡ (ok (0, 0), s')
expire_pending_payments_again_example = expire_pending_payments_again 9000 30 at_shop

abbrev trial : Tariff
trial = record plus { id = 5; code = "free"; is_free_trial = true; free_trial_days = some 3 }

abbrev trial_shop : Db
trial_shop = record shop { tariffs = trial ∷ plus ∷ [] }

activate_free_trial_once_example :
    let db' = (request (activate_free_trial broken anna) trial_shop).1 in
    request (activate_free_trial working anna) db' ≡ (err free_trial_already_used, db')
activate_free_trial_once_example =
    activate_free_trial_once broken working anna trial trial_shop refl refl

abbrev desk : List (ℕ × TicketRequest)
desk = (1, open_request 101 "support" (λ n. n ∷ [])) ∷ (2, close_request 100 "user" (some 101)) ∷ []

serve_tickets-IsSingle_example : IsSingle (serve_tickets desk shop)
serve_tickets-IsSingle_example =
    serve_tickets-IsSingle desk shop
      (record { one_open = λ uid. omega arith; one_code = λ code. omega arith })

abbrev opened_ticket : Ticket
opened_ticket = new_ticket 1 1 "support" "TCK-4" 100

open_ticket_twice_example :
    let s' = (open_ticket 1 1 "support" (λ n. n ∷ []) at_shop).1 in
    open_ticket 2 1 "idea" (λ n. 7 ∷ []) s' ≡ (err ticket_already_open, s')
unfolding open_ticket try_codes insert_if_unique insert_ticket after_insert generate_code query
    return raise_if ◌>>=◌
open_ticket_twice_example =
    open_ticket_twice 1 1 "support" (λ n. n ∷ []) 2 "idea" (λ n. 7 ∷ []) at_shop opened_ticket refl

abbrev at_desk : Session
at_desk = let db = record shop { tickets = opened_ticket ∷ [] } in record { live = db; saved = db }

close_ticket_twice_example :
    let s' = (close_ticket 2 100 "user" (some 101) at_desk).1 in
    close_ticket 3 100 "user" (some 101) s' ≡ (err ticket_already_closed, s')
unfolding close_ticket update_ticket modify query or_raise raise_if return ◌>>=◌
close_ticket_twice_example =
    close_ticket_twice 2 100 "user" (some 101) 3 "user" at_desk (closed_row 2 "user" opened_ticket)
      refl
