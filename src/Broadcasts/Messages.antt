-- ===== src/Broadcasts/Messages.antt =====
-- What the worker sends and what it is given from outside (`_send_one` of
-- worker/app/tasks/broadcasts.py).
use pix_vpn_service.Prelude.{
  ℕ, zero, suc, String, Bool, true, false, ◌&&◌, Option, none, some, List, if◌then◌else◌,
}
use Prim.Native.String.{◌++◌ as append}
use pix_vpn_service.Broadcasts.{or_else}
use pix_vpn_service.Html.Markup.{Unicode}
use pix_vpn_service.Broadcasts.Keyboard.{UrlButton}

-- What `_send_one` asks of Telegram: a photo that it knows, a photo from the disk, or a text.
pub data Picture : Type 0 where
  known_photo : (file_id : String) → Picture
  photo_upload : (path : String) → Picture
  no_photo : Picture

pub record Message : Type 0 where
  pub chat_id : ℕ
  pub html_text : String
  pub picture : Picture
  pub keyboard : Option (List (List UrlButton))

-- The answer: the file id of an uploaded photo, or a refusal, which a raised exception also is.
pub data Envelope : Type 0 where
  accepted : (new_file_id : Option String) → Envelope
  refused : (error_code : String) (description : Option String) → Envelope

-- What the worker is given from outside: the clock, the disk, Python's tables of Unicode, Telegram, and
-- for each pass the stop flag of Redis (false where Redis fails) and whether an administrator has
-- cancelled the broadcast since the pass before.
pub record World : Type 0 where
  pub now : ℕ
  pub exists_on_disk : String → Bool
  pub unicode : Unicode
  pub send : Message → Envelope
  pub stop_flag : ℕ → Bool
  pub cancelled : ℕ → Bool

-- An empty text counts as none.
abbrev pub is_set : Option String → Bool
is_set none = false
is_set (some String.[]) = false
is_set (some (String.◌∷◌ c s)) = true

abbrev pub picture_from_disk : (String → Bool) → Option String → Picture
picture_from_disk exists_on_disk none = no_photo
picture_from_disk exists_on_disk (some path) =
    if is_set (some path) && exists_on_disk path then photo_upload path else no_photo

abbrev pub picture_of : (String → Bool) → Option String → Option String → Picture
picture_of exists_on_disk none path = picture_from_disk exists_on_disk path
picture_of exists_on_disk (some file_id) path =
    if is_set (some file_id) then known_photo file_id else picture_from_disk exists_on_disk path

-- `err[:1000]`
abbrev pub truncate : ℕ → String → String
truncate zero s = String.[]
truncate (suc n) String.[] = String.[]
truncate (suc n) (String.◌∷◌ c s) = String.◌∷◌ c (truncate n s)

abbrev pub error_text : String → Option String → String
error_text error_code description = truncate 1000 (
    append error_code
      (append ": " (if is_set description then or_else description "" else "unknown")))
