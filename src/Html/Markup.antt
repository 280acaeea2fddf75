-- ===== src/Html/Markup.antt =====
-- The tags of a text with their attributes, and what becomes of a tag (`_attrs_to_dict`,
-- `_render_open_tag`, `_render_close_tag` and the two regular expressions).
use Prim.Native.Char.{Char}
use Prim.Native.String.{String, ◌++◌ as append}
use pix_vpn_service.Prelude.{
  ℕ, zero, suc, Bool, true, false, not, ◌||◌, Option, none, some, List, [], ◌∷◌, str_eq,
  if◌then◌else◌,
}
use pix_vpn_service.Html.Scan.{
  is_char, is_empty, size, is_space, is_letter, is_name_char, span, cut_at, after_prefix, strip,
  split, is_among,
}

-- Python's tables of Unicode: `\w`, `str.lower`, and the case folding of `re.IGNORECASE`.
pub record Unicode : Type 0 where
  pub is_word : Char → Bool
  pub lower : String → String
  pub fold : Char → Char

abbrev pub Attrs : Type 0
Attrs = List (String × String)

-- A text that a scan has read, with what is left of the input.
abbrev Scanned : Type 0 → Type 0
Scanned A = Option (A × String)

abbrev bare_value : String × String → Scanned String
bare_value (String.[], rest) = none
bare_value (String.◌∷◌ c v, rest) = some (String.◌∷◌ c v, rest)

abbrev first_some {ℓ} : {A : Type ℓ} → Option A → Option A → Option A
first_some (some a) o = some a
first_some none o = o

abbrev quoted_after : ℕ → Option String → Scanned String
quoted_after quote none = none
quoted_after quote (some s) = cut_at quote s

-- A value in double quotes, in single quotes, or bare.
attr_value : String → Scanned String
attr_value s =
    let double = quoted_after 34 (after_prefix "\"" s) in
    let single = quoted_after 39 (after_prefix "'" s) in
    let bare = bare_value (span (λ c. not (is_space c || is_char 62 c)) s) in
    first_some double (first_some single bare)

abbrev with_key : String → Scanned String → Scanned (String × String)
with_key key none = none
with_key key (some (v, rest)) = some ((key, v), rest)

abbrev attr_after : String → Option String → Scanned (String × String)
unfolding attr_value
attr_after key none = none
attr_after key (some s) = with_key key (attr_value (span is_space s).1)

-- `_ATTR_RE` at the start of a text.
match_attr : Unicode → String → Scanned (String × String)
unfolding attr_value
match_attr unicode String.[] = none
match_attr unicode (String.◌∷◌ c s) =
    let is_key = λ (x : Char). unicode.is_word x || is_char 58 x || is_char 46 x || is_char 45 x in
    let (more, rest) = span is_key s in
    let found =
      attr_after (unicode.lower (String.◌∷◌ c more)) (after_prefix "=" (span is_space rest).1) in
    if is_letter c || is_char 95 c || is_char 58 c then found else none

tail_of : String → String
tail_of String.[] = String.[]
tail_of (String.◌∷◌ c s) = s

-- `_attrs_to_dict`: the pairs in their order, on fuel for each character.
unfoldable pub attrs_from : Unicode → ℕ → String → Attrs
unfolding match_attr tail_of attr_value
attrs_from unicode zero s = []
attrs_from unicode (suc fuel) s = elim (match_attr unicode s) [
  | some (pair, rest) ↦ pair ∷ attrs_from unicode fuel rest
  | none ↦ attrs_from unicode fuel (tail_of s)
]

-- `attrs.get(key, "")`: the last of several values.
pub get_attr : String → Attrs → String
get_attr key [] = ""
get_attr key ((k, v) ∷ rest) =
    let later = get_attr key rest in
    if is_among key (keys rest) then later else if str_eq k key then v else ""
  where
    keys : Attrs → List String
    keys [] = []
    keys ((k, v) ∷ rest) = k ∷ keys rest

pub data Token : Type 0 where
  text : String → Token
  start_tag : (name : String) (attrs : Attrs) → Token
  end_tag : (name : String) → Token

abbrev tag_token : Unicode → Bool → String → Option (String × String) → Scanned Token
tag_token unicode closing name none = none
tag_token unicode closing name (some (raw, rest)) =
    some
      (if closing then end_tag name else start_tag name (attrs_from unicode (size raw) raw), rest)

unfoldable pub tag_named : Unicode → Bool → String → Scanned Token
unfolding attrs_from
tag_named unicode closing String.[] = none
tag_named unicode closing (String.◌∷◌ c s) =
    let (more, rest) = span is_name_char s in
    let found = tag_token unicode closing (unicode.lower (String.◌∷◌ c more)) (cut_at 62 rest) in
    if is_letter c then found else none

unfoldable pub tag_opened : Unicode → Option String → Scanned Token
unfolding tag_named
tag_opened unicode none = none
tag_opened unicode (some s) = elim (after_prefix "/" s) [
  | some rest ↦ tag_named unicode true rest
  | none ↦ tag_named unicode false s
]

-- `_TAG_RE` at the start of a text.
unfoldable pub match_tag : Unicode → String → Scanned Token
unfolding tag_opened
match_tag unicode s = tag_opened unicode (after_prefix "<" s)

abbrev add_char : Char → List Token → List Token
add_char c (text t ∷ ts) = text (String.◌∷◌ c t) ∷ ts
add_char c ts = text (String.◌∷◌ c String.[]) ∷ ts

abbrev add_first : String → List Token → List Token
add_first String.[] ts = ts
add_first (String.◌∷◌ c s) ts = add_char c ts

-- `_TAG_RE.finditer` with the text between the matches, on fuel for each character.
unfoldable pub tokens_from : Unicode → ℕ → String → List Token
unfolding match_tag
tokens_from unicode zero s = []
tokens_from unicode (suc fuel) s = elim (match_tag unicode s) [
  | some (tag, rest) ↦ tag ∷ tokens_from unicode fuel rest
  | none ↦ add_first s (tokens_from unicode fuel (tail_of s))
]

unfoldable pub tokens : Unicode → String → List Token
unfolding tokens_from
tokens unicode s = tokens_from unicode (size s) s

unfoldable pub escape_char : Char → String
escape_char c =
    if is_char 38 c
    then "&amp;"
    else if is_char 60 c
    then "&lt;"
    else if is_char 62 c
    then "&gt;"
    else if is_char 34 c
    then "&quot;"
    else if is_char 39 c
    then "&#x27;"
    else String.◌∷◌ c String.[]

-- `html.escape(s, quote=True)`
unfoldable pub escape : String → String
unfolding escape_char
escape String.[] = String.[]
escape (String.◌∷◌ c s) = append (escape_char c) (escape s)

-- `_ALLOWED_BARE`
abbrev pub allowed_bare : List String
allowed_bare =
    "b" ∷ "strong" ∷ "i" ∷ "em" ∷ "u" ∷ "ins" ∷ "s" ∷ "strike" ∷ "del" ∷ "code" ∷ "pre"
    ∷ "blockquote" ∷ "tg-spoiler" ∷ []

-- `_UNWRAP`
abbrev pub unwrap : List String
unwrap = "p" ∷ "div" ∷ "section" ∷ "article" ∷ "header" ∷ "footer" ∷ []

-- `_BREAK`
abbrev pub break : List String
break = "br" ∷ "hr" ∷ []

-- The names for which `_render_close_tag` gives a tag.
unfoldable pub has_close : String → Bool
unfolding is_among
has_close name =
    is_among name allowed_bare
    || str_eq name "a"
    || str_eq name "tg-emoji"
    || str_eq name "span"
    || str_eq name "code"

abbrev pub attr_text : String → String → String
attr_text before value = append before (append (escape value) "\"")

unfoldable pub language_of : Option String → String → String
unfolding escape
language_of (some rest) lang = attr_text " class=\"" lang
language_of none lang = ""

-- `_render_open_tag`: none for the empty text, else what follows the name in the tag.
unfoldable pub render_open_tag : String → Attrs → Option String
unfolding escape language_of
render_open_tag name attrs =
    let href = strip (get_attr "href" attrs) in
    let emoji_id = strip (get_attr "emoji-id" attrs) in
    let lang = get_attr "class" attrs in
    if str_eq name "a"
    then if is_empty href then none else some (attr_text " href=\"" href)
    else if str_eq name "tg-emoji"
    then if is_empty emoji_id then none else some (attr_text " emoji-id=\"" emoji_id)
    else if str_eq name "span"
    then if is_among "tg-spoiler" (split lang) then some " class=\"tg-spoiler\"" else none
    else if str_eq name "code"
    then some (language_of (after_prefix "language-" lang) lang)
    else if is_among name allowed_bare
    then some ""
    else none
