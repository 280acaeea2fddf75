-- ===== src/Notifications/Reminders.antt =====
-- The reminders of a subscription that stand in the outbox, and what the tasks send behind a notice.
use Prim.Native.String.{String}
use pix_vpn_service.Prelude.{
  ℕ, ◌+◌, ◌≤◌, ◌≡◌, refl, Bool, true, false, ◌&&◌, Option, none, some, ◌∷◌, arith, inl, inr,
  Option-cases, with_number, find, count_where, ◌==◌, if◌then◌else◌,
}
use pix_vpn_service.Db.{Db, Payload, OutboxMessage, PromoCode}
use pix_vpn_service.Db.Contact.{NotificationKind, expiry_3d, expiry_1d, expired, trial_expiring_24h}
use pix_vpn_service.Session.{Session, Action, return, query, ◌>>=◌}
use pix_vpn_service.Env.{Env}
use pix_vpn_service.Tables.{insert_outbox}
use pix_vpn_service.Outbox.{new_message, enqueue_message}
use pix_vpn_service.Promo.Personal.{insert_promo, issue_if_new}
use pix_vpn_service.Notifications.{
  same_kind, is_notice, Candidate, send_payload, tell_trial_by, tell_trial, has_auto_discount,
}

-- The message reminds of this subscription in this way.
abbrev pub is_reminder : NotificationKind → ℕ → Payload → Bool
is_reminder expiry_3d sid (Payload.subscription_expiring_3d template n) = n == sid
is_reminder expired sid (Payload.subscription_expired template n) = n == sid
is_reminder trial_expiring_24h sid (Payload.trial_expiring n code) = n == sid
is_reminder _ _ _ = false

abbrev pub notices : NotificationKind → ℕ → Db → ℕ
notices kind sid db = count_where (is_notice kind sid) db.notifications_sent

abbrev pub reminders : NotificationKind → ℕ → Db → ℕ
reminders kind sid db =
    count_where (λ (m : OutboxMessage). is_reminder kind sid m.payload) db.outbox

-- Each message has its notice, of which there is at most one.
pub record IsOnce (kind : NotificationKind) (sid : ℕ) (db : Db) : Type 0 where
  pub backed : reminders kind sid db ≤ notices kind sid db
  pub single : notices kind sid db ≤ 1

-- For the running request and as last committed.
pub record Once (kind : NotificationKind) (sid : ℕ) (s : Session) : Type 0 where
  pub live : IsOnce kind sid s.live
  pub saved : IsOnce kind sid s.saved

abbrev pub is_about : NotificationKind → NotificationKind → ℕ → Candidate → Bool
is_about k kind sid row = (row.sub.id == sid) && same_kind k kind

-- What is sent behind a notice: one message of its kind at most, and nothing else of notices.
pub record Tells (k : NotificationKind) (tell : Candidate → Action (Unit {0})) : Type 0 where
  pub notified :
      (row : Candidate) (s : Session)
      → (tell row s).1.live.notifications_sent ≡ s.live.notifications_sent
  pub saved : (row : Candidate) (s : Session) → (tell row s).1.saved ≡ s.saved
  pub sent :
      (row : Candidate) (s : Session) (kind : NotificationKind) (sid : ℕ)
      → reminders kind sid (tell row s).1.live
        ≤ reminders kind sid s.live + (if is_about k kind sid row then 1 else 0)

pub same_kind-eq : (k kind : NotificationKind) → same_kind k kind ≡ true → k ≡ kind
same_kind-eq expiry_3d expiry_3d h = refl
same_kind-eq expiry_3d expiry_1d h = cc
same_kind-eq expiry_3d expired h = cc
same_kind-eq expiry_3d trial_expiring_24h h = cc
same_kind-eq expiry_1d expiry_3d h = cc
same_kind-eq expiry_1d expiry_1d h = refl
same_kind-eq expiry_1d expired h = cc
same_kind-eq expiry_1d trial_expiring_24h h = cc
same_kind-eq expired expiry_3d h = cc
same_kind-eq expired expiry_1d h = cc
same_kind-eq expired expired h = refl
same_kind-eq expired trial_expiring_24h h = cc
same_kind-eq trial_expiring_24h expiry_3d h = cc
same_kind-eq trial_expiring_24h expiry_1d h = cc
same_kind-eq trial_expiring_24h expired h = cc
same_kind-eq trial_expiring_24h trial_expiring_24h h = refl

pub send_expiring-Tells :
    (now : ℕ) (template : Option String)
    → Tells expiry_3d (send_payload now (Payload.subscription_expiring_3d template))
unfolding send_payload enqueue_message insert_outbox return ◌>>=◌
send_expiring-Tells now template = record {
  notified = λ row s. refl;
  saved = λ row s. refl;
  sent = λ row s kind sid. elim kind [
    | expiry_3d ↦ ground arith
    | expiry_1d ↦ ground arith
    | expired ↦ ground arith
    | trial_expiring_24h ↦ ground arith
  ];
}

pub send_expired-Tells :
    (now : ℕ) (template : Option String)
    → Tells expired (send_payload now (Payload.subscription_expired template))
unfolding send_payload enqueue_message insert_outbox return ◌>>=◌
send_expired-Tells now template = record {
  notified = λ row s. refl;
  saved = λ row s. refl;
  sent = λ row s kind sid. elim kind [
    | expiry_3d ↦ ground arith
    | expiry_1d ↦ ground arith
    | expired ↦ ground arith
    | trial_expiring_24h ↦ ground arith
  ];
}

trial_message :
    (sid n : ℕ) (code : Option String) (kind : NotificationKind) (before : ℕ)
    → (if is_reminder kind sid (Payload.trial_expiring n code) then 1 else 0) + before
      ≤ before + (if (n == sid) && same_kind trial_expiring_24h kind then 1 else 0)
trial_message sid n code expiry_3d before = ground arith
trial_message sid n code expiry_1d before = ground arith
trial_message sid n code expired before = ground arith
trial_message sid n code trial_expiring_24h before = ground arith

-- One message stands on top of the outbox, and the rest is as it was.
record Tops (row : Candidate) (s s' : Session) : Type 0 where
  pub notified : s'.live.notifications_sent ≡ s.live.notifications_sent
  pub saved : s'.saved ≡ s.saved
  pub message : OutboxMessage
  pub code : Option String
  pub shows : message.payload ≡ Payload.trial_expiring row.sub.id code
  pub top : s'.live.outbox ≡ message ∷ s.live.outbox

module _ (env : Env) where
  tell_trial_by-Tops :
      (row : Candidate) (b : Bool) (s : Session) → Tops row s (tell_trial_by env row b s).1
  unfolding tell_trial_by issue_if_new insert_promo enqueue_message insert_outbox query return ◌>>=◌
  tell_trial_by-Tops row true s = record {
    notified = refl;
    saved = refl;
    message = _;
    code = none;
    shows = refl;
    top = refl;
  }
  tell_trial_by-Tops row false s =
      let code = with_number "TRIAL15_" row.sub.id in
      let text = Payload.trial_expiring row.sub.id (some code) in
      let message = new_message env.now row.sub.user_id row.tg_id text in
      let found = find (λ (p : PromoCode). env.same_code p.code code) s.live.promo_codes in
      elim (Option-cases found) [
        | inl e ↦ rw e (record {
          notified = refl;
          saved = refl;
          message = message (s.live.next_id + 1);
          code = some code;
          shows = refl;
          top = refl;
        })
        | inr (p, e) ↦ rw e (record {
          notified = refl;
          saved = refl;
          message = message s.live.next_id;
          code = some code;
          shows = refl;
          top = refl;
        })
      ]

  pub tell_trial-Tells : Tells trial_expiring_24h (tell_trial env)
  unfolding tell_trial query ◌>>=◌
  tell_trial-Tells = record {
    notified =
        λ row s. (tell_trial_by-Tops row (has_auto_discount row.sub.user_id s.live) s).notified;
    saved = λ row s. (tell_trial_by-Tops row (has_auto_discount row.sub.user_id s.live) s).saved;
    sent = λ row s kind sid.
        let on_top = tell_trial_by-Tops row (has_auto_discount row.sub.user_id s.live) s in
        rw (on_top.top, on_top.shows)
          (trial_message sid row.sub.id on_top.code kind (reminders kind sid s.live));
  }
