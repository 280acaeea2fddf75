-- ===== src/Outbox/Telegram.antt =====
-- worker/app/telegram_client.py: one call of the Bot API, with one more attempt where Telegram asks to
-- slow down. What the two attempts meet is given from outside; the waiting in between is left out.
use pix_vpn_service.Prelude.{
  ℕ, Bool, false, String, Option, none, some, with_number, ◌==◌, if◌then◌else◌,
}
use Prim.Native.String.{◌++◌ as append}

-- The keys of a response that are read. A number is kept as its text.
pub record Body : Type 0 where
  pub ok : Bool
  pub message_id : Option ℕ
  pub error_code : Option String
  pub description : Option String

-- What `response.json()` makes of the response.
pub data Content : Type 0 where
  not_json not_object : Content
  object : Body → Content

pub data Reply : Type 0 where
  network_error : (text : String) → Reply
  http : (status : ℕ) → Content → Reply

pub record Envelope : Type 0 where
  pub ok : Bool
  pub message_id : Option ℕ
  pub error_code : Option String
  pub description : Option String

abbrev pub refusal : String → String → Envelope
refusal code text = record {
  ok = false;
  message_id = none;
  error_code = some code;
  description = some text;
}

abbrev pub or_status : ℕ → Option String → Option String
or_status status none = some (with_number "" status)
or_status status (some code) = some code

-- `_parse_envelope`
unfoldable pub parse_envelope : ℕ → Content → Envelope
parse_envelope status not_json =
    refusal (with_number "" status) (append (with_number "non-json response (status=" status) ")")
parse_envelope status not_object = refusal (with_number "" status) "unexpected response shape"
parse_envelope status (object b) = record {
  ok = b.ok;
  message_id = b.message_id;
  error_code = if b.ok then none else or_status status b.error_code;
  description = b.description;
}

unfoldable pub last_reply : Reply → Envelope
unfolding parse_envelope
last_reply (network_error text) = refusal "-1" (append "network error: " text)
last_reply (http status content) = parse_envelope status content

unfoldable pub after_first : Reply → Reply → Envelope
unfolding last_reply
after_first (network_error text) second = last_reply (network_error text)
after_first (http status content) second =
    if status == 429 then last_reply second else parse_envelope status content

-- `_call`, for what the first and the second attempt meet.
unfoldable pub call : Reply → Reply → Envelope
unfolding after_first
call first second = after_first first second
