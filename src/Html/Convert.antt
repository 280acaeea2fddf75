-- ===== src/Html/Convert.antt =====
-- `to_telegram_html`: the tags of the text with a stack of the open ones.
use Prim.Native.String.{String, ◌++◌ as append}
use pix_vpn_service.Prelude.{
  ℕ, zero, suc, ◌+◌, Bool, true, false, ◌&&◌, Option, none, some, List, [], ◌∷◌, ◌++◌, str_eq, leb,
  if◌then◌else◌,
}
use pix_vpn_service.Html.Scan.{is_char, is_empty, size, after_prefix, strip, is_among, put_before}
use pix_vpn_service.Html.Markup.{
  Unicode, Token, text, start_tag, end_tag, tokens, has_close, unwrap, break, render_open_tag,
}

-- An element of `out`.
pub data Piece : Type 0 where
  raw : String → Piece
  opened : (name : String) (attr_text : String) → Piece
  closed : (name : String) → Piece
  line_break : Piece
  paragraph : Piece

-- `open_stack`, the last element first: a name, and whether its tag was put out.
abbrev pub OpenStack : Type 0
OpenStack = List (String × Bool)

-- Whether the last open tag of the name was put out, and the stack without it.
unfoldable pub pop : String → OpenStack → Bool × OpenStack
pop name [] = (false, [])
pop name ((n, had_open) ∷ rest) =
    let (found, left) = pop name rest in
    if str_eq n name then (had_open, rest) else (found, (n, had_open) ∷ left)

-- `_render_close_tag`
abbrev pub render_close_tag : String → Bool → List Piece
render_close_tag name had_open = if had_open && has_close name then closed name ∷ [] else []

-- What a closing tag puts out, by whether it is `p` and whether it is in `_UNWRAP`.
abbrev pub end_pieces : (is_p is_unwrapped : Bool) → String → Bool → List Piece
end_pieces true _ name had_open = paragraph ∷ []
end_pieces false true name had_open = []
end_pieces false false name had_open = render_close_tag name had_open

abbrev pub open_pieces : String → Option String → List Piece
open_pieces name none = []
open_pieces name (some extra) = opened name extra ∷ []

abbrev pub is_some_text : Option String → Bool
is_some_text none = false
is_some_text (some s) = true

-- What an opening tag puts out, and on the stack, by whether it is in `_BREAK` and in `_UNWRAP`.
abbrev pub start_pieces : (is_break is_unwrapped : Bool) → String → Option String → List Piece
start_pieces true _ name rendered = line_break ∷ []
start_pieces false true name rendered = []
start_pieces false false name rendered = open_pieces name rendered

abbrev pub start_stack :
    (is_break is_unwrapped : Bool) → String → Option String → OpenStack → OpenStack
start_stack true _ name rendered stack = stack
start_stack false true name rendered stack = (name, false) ∷ stack
start_stack false false name rendered stack = (name, is_some_text rendered) ∷ stack

-- The tags that the user forgot to close, the last one first.
unfoldable pub close_all : OpenStack → List Piece
close_all [] = []
close_all ((name, had_open) ∷ rest) =
    (if had_open then render_close_tag name true else []) ++ close_all rest

-- The loop over the matches, and the closing of what is left.
unfoldable pub convert : List Token → OpenStack → List Piece
unfolding pop close_all
convert [] stack = close_all stack
convert (text s ∷ ts) stack = raw s ∷ convert ts stack
convert (end_tag name ∷ ts) stack =
    let (had_open, left) = pop name stack in
    end_pieces (str_eq name "p") (is_among name unwrap) name had_open ++ convert ts left
convert (start_tag name attrs ∷ ts) stack =
    let rendered = render_open_tag name attrs in
    let is_break = is_among name break in
    let is_unwrapped = is_among name unwrap in
    start_pieces is_break is_unwrapped name rendered
    ++ convert ts (start_stack is_break is_unwrapped name rendered stack)

show_piece : Piece → String
show_piece (raw s) = s
show_piece (opened name extra) = append "<" (append name (append extra ">"))
show_piece (closed name) = append "</" (append name ">")
show_piece line_break = "\n"
show_piece paragraph = "\n\n"

-- `"".join(out)`
join : List Piece → String
unfolding show_piece
join [] = ""
join (x ∷ xs) = append (show_piece x) (join xs)

-- `re.sub(r"\n{3}", "\n\n", s)`, after a run of `n` line breaks.
collapse : ℕ → String → String
collapse n String.[] = String.[]
collapse n (String.◌∷◌ c s) =
    let rest = collapse (if is_char 10 c then n + 1 else 0) s in
    if is_char 10 c && leb 2 n then rest else String.◌∷◌ c rest

-- The body of an escaped tag: up to `&gt;`, with no `&lt;` before it.
escaped_body : String → Option (String × String)
escaped_body String.[] = none
escaped_body (String.◌∷◌ c s) =
    let later = put_before c (escaped_body s) in
    elim (after_prefix "&gt;" (String.◌∷◌ c s)) [
      | some rest ↦ some ("", rest)
      | none ↦ elim (after_prefix "&lt;" (String.◌∷◌ c s)) [ some rest ↦ none | none ↦ later ]
    ]

fold_text : Unicode → String → String
fold_text unicode String.[] = String.[]
fold_text unicode (String.◌∷◌ c s) = String.◌∷◌ (unicode.fold c) (fold_text unicode s)

starts_with_one : List String → String → Bool
starts_with_one [] s = false
starts_with_one (x ∷ xs) s =
    let others = starts_with_one xs s in
    elim (after_prefix x s) [ some rest ↦ true | none ↦ others ]

-- `_TG_TAGS`: a prefix of the body, so a longer name that begins like one of these fits too.
abbrev tg_tags : List String
tg_tags =
    "tg-emoji" ∷ "tg-spoiler" ∷ "span" ∷ "b" ∷ "strong" ∷ "i" ∷ "em" ∷ "u" ∷ "s" ∷ "code" ∷ "pre"
    ∷ "blockquote" ∷ "a" ∷ []

starts_with_tag : Unicode → String → Bool
unfolding starts_with_one fold_text
starts_with_tag unicode body =
    let named = λ (s : String). starts_with_one tg_tags (fold_text unicode s) in
    elim (after_prefix "/" body) [ some rest ↦ named rest | none ↦ named body ]

-- `str.replace`, on fuel for each character.
replace_from : ℕ → String → String → String → String
replace_from zero old new s = String.[]
replace_from (suc fuel) old new String.[] = String.[]
replace_from (suc fuel) old new (String.◌∷◌ c s) = elim (after_prefix old (String.◌∷◌ c s)) [
  | some rest ↦ append new (replace_from fuel old new rest)
  | none ↦ String.◌∷◌ c (replace_from fuel old new s)
]

-- `_unescape_tag`
unescape_tag : String → String
unfolding replace_from
unescape_tag inner =
    let quoted = replace_from (size inner) "&quot;" "\"" inner in
    append "<" (append (replace_from (size quoted) "&amp;" "&" quoted) ">")

abbrev fitting_body : Unicode → Option (String × String) → Option (String × String)
fitting_body unicode none = none
fitting_body unicode (some (body, rest)) =
    if starts_with_tag unicode body then some (body, rest) else none

abbrev body_after : Unicode → Option String → Option (String × String)
unfolding escaped_body starts_with_tag
body_after unicode none = none
body_after unicode (some s) = fitting_body unicode (escaped_body s)

-- The `re.sub` of the escaped tags, on fuel for each character.
unfoldable pub unescape_from : Unicode → ℕ → String → String
unfolding unescape_tag escaped_body starts_with_tag
unescape_from unicode zero s = String.[]
unescape_from unicode (suc fuel) String.[] = String.[]
unescape_from unicode (suc fuel) (String.◌∷◌ c s) =
    elim (body_after unicode (after_prefix "&lt;" (String.◌∷◌ c s))) [
      | some (body, rest) ↦ append (unescape_tag body) (unescape_from unicode fuel rest)
      | none ↦ String.◌∷◌ c (unescape_from unicode fuel s)
    ]

abbrev pub tokens_of : Unicode → String → List Token
unfolding unescape_from
tokens_of unicode src = tokens unicode (unescape_from unicode (size src) src)

-- The pieces of a text.
unfoldable pub pieces : Unicode → String → List Piece
unfolding convert unescape_from
pieces unicode src = convert (tokens_of unicode src) []

-- `to_telegram_html`: the empty text, also for a missing one, stays empty.
pub to_telegram_html : Unicode → String → String
unfolding pieces join collapse
to_telegram_html unicode src =
    if is_empty src then "" else strip (collapse 0 (join (pieces unicode src)))
