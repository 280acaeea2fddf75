-- ===== src/Html/Written.antt =====
-- The characters `<` and `>` in what `to_telegram_html` puts out.
use Prim.Native.Char.{Char}
use Prim.Native.String.{String, ◌++◌ as append}
use Prim.Native.String.append.{nil as append_nil, cons as append_cons}
use pix_vpn_service.Prelude.{
  ℕ, ◌≡◌, refl, Bool, true, false, ◌&&◌, ◌||◌, Option, none, some, List, [], ◌∷◌, ◌++◌, str_eq, inl,
  inr, Bool-cases, arith, All, if◌then◌else◌,
}
use pix_vpn_service.Html.Scan.{is_char, is_among, is_empty, strip, after_prefix, split}
use pix_vpn_service.Html.Markup.{
  Token, text, start_tag, end_tag, has_close, allowed_bare, unwrap, break, render_open_tag,
  escape_char, escape, attr_text, language_of, get_attr,
}
use pix_vpn_service.Html.Convert.{
  is_some_text, Piece, raw, opened, closed, OpenStack, pop, render_close_tag, end_pieces,
  start_pieces, close_all, convert,
}

-- Whether a character with this code stands in the text.
unfoldable pub has_char : ℕ → String → Bool
has_char n String.[] = false
has_char n (String.◌∷◌ c s) = is_char n c || has_char n s

-- A text without `<`.
abbrev pub IsPlain : Token → Type 0
IsPlain (text s) = has_char 60 s ≡ false
IsPlain _ = Unit

has_char-append : (n : ℕ) (a b : String) → has_char n (append a b) ≡ (has_char n a || has_char n b)
unfolding has_char
has_char-append n String.[] b = rw (append_nil b) refl
has_char-append n (String.◌∷◌ c a) b = rw (append_cons c a b) ground (arith, has_char-append n a b)

-- A text with neither `<` nor `>`.
abbrev pub IsBare : String → Type 0
IsBare s = (has_char 60 s ≡ false) × (has_char 62 s ≡ false)

append-IsBare : (a b : String) → IsBare a → IsBare b → IsBare (append a b)
append-IsBare a b ha hb =
    (rw (has_char-append 60 a b, ha.0) hb.0, rw (has_char-append 62 a b, ha.1) hb.1)

either_IsBare :
    (b : Bool) (s other : String)
    → IsBare s
    → (b ≡ false → IsBare other)
    → IsBare (if b then s else other)
either_IsBare true s other h k = h
either_IsBare false s other h k = k refl

escape_char-IsBare : (c : Char) → IsBare (escape_char c)
unfolding has_char escape_char
escape_char-IsBare c =
    either_IsBare (is_char 38 c) "&amp;" _ (refl, refl)
      λ _.
        either_IsBare (is_char 60 c) "&lt;" _ (refl, refl)
          λ f.
            either_IsBare (is_char 62 c) "&gt;" _ (refl, refl)
              λ g.
                either_IsBare (is_char 34 c) "&quot;" _ (refl, refl)
                  λ _.
                    either_IsBare (is_char 39 c) "&#x27;" _ (refl, refl) λ _. rw (f, g) (refl, refl)

escape-IsBare : (s : String) → IsBare (escape s)
unfolding has_char escape
escape-IsBare String.[] = (refl, refl)
escape-IsBare (String.◌∷◌ c s) =
    append-IsBare (escape_char c) (escape s) (escape_char-IsBare c) (escape-IsBare s)

attr_text-IsBare : (before value : String) → IsBare before → IsBare (attr_text before value)
unfolding has_char
attr_text-IsBare before value h =
    append-IsBare before _ h (append-IsBare (escape value) "\"" (escape-IsBare value) (refl, refl))

-- What follows the name in a tag has no `<` and no `>`.
abbrev IsBareTag : Option String → Type 0
IsBareTag none = Unit
IsBareTag (some extra) = IsBare extra

either_IsBareTag :
    (b : Bool) (o other : Option String)
    → IsBareTag o
    → IsBareTag other
    → IsBareTag (if b then o else other)
either_IsBareTag true o other h k = h
either_IsBareTag false o other h k = k

language_of-IsBare : (after : Option String) (lang : String) → IsBare (language_of after lang)
unfolding language_of has_char
language_of-IsBare none lang = (refl, refl)
language_of-IsBare (some rest) lang = attr_text-IsBare _ lang (refl, refl)

render_open_tag-IsBareTag :
    (name : String) (attrs : List (String × String)) → IsBareTag (render_open_tag name attrs)
unfolding render_open_tag has_char
render_open_tag-IsBareTag name attrs =
    let href = strip (get_attr "href" attrs) in
    let emoji_id = strip (get_attr "emoji-id" attrs) in
    let lang = get_attr "class" attrs in
    either_IsBareTag (str_eq name "a") _ _
      (either_IsBareTag (is_empty href) none _ tt (attr_text-IsBare _ href (refl, refl)))
      (either_IsBareTag (str_eq name "tg-emoji") _ _
        (either_IsBareTag (is_empty emoji_id) none _ tt (attr_text-IsBare _ emoji_id (refl, refl)))
        (either_IsBareTag (str_eq name "span") _ _
          (either_IsBareTag (is_among "tg-spoiler" (split lang)) _ none (refl, refl) tt)
          (either_IsBareTag (str_eq name "code") _ _
            (language_of-IsBare (after_prefix "language-" lang) lang)
            (either_IsBareTag (is_among name allowed_bare) (some "") none (refl, refl) tt))))

pub render_open_tag-has_close :
    (name : String) (attrs : List (String × String))
    → is_some_text (render_open_tag name attrs) ≡ true
    → has_close name ≡ true
unfolding render_open_tag has_close
render_open_tag-has_close name attrs h = elim (Bool-cases (is_among name allowed_bare)) [
  | inl t ↦ rw t refl
  | inr f ↦ elim (Bool-cases (str_eq name "a")) [
    | inl t ↦ rw (f, t) refl
    | inr fa ↦ elim (Bool-cases (str_eq name "tg-emoji")) [
      | inl t ↦ rw (f, fa, t) refl
      | inr fe ↦ elim (Bool-cases (str_eq name "span")) [
        | inl t ↦ rw (f, fa, fe, t) refl
        | inr fs ↦ elim (Bool-cases (str_eq name "code")) [
          | inl t ↦ rw (f, fa, fe, fs, t) refl
          | inr fc ↦
              let dropped : render_open_tag name attrs ≡ none = rw (f, fa, fe, fs, fc) refl in
              absurd (not_true (rw dropped at h))
        ]
      ]
    ]
  ]
]
  where
    not_true : false ≡ true → ⊥
    not_true e = cc

-- A text without `<`, or a tag with a name that Telegram knows and with bare attributes.
abbrev pub IsWritten : Piece → Type 0
IsWritten (raw s) = has_char 60 s ≡ false
IsWritten (opened name extra) = (has_close name ≡ true) × IsBare extra
IsWritten (closed name) = has_close name ≡ true
IsWritten _ = Unit

both : (xs ys : List Piece) → All IsWritten xs → All IsWritten ys → All IsWritten (xs ++ ys)
both [] ys h k = k
both (x ∷ xs) ys h k = (h.0, both xs ys h.1 k)

closing-Written : (name : String) (had_open : Bool) → All IsWritten (render_close_tag name had_open)
closing-Written name had_open = elim (Bool-cases (had_open && has_close name)) [
  | inl t ↦ rw t (ground (arith, t), tt)
  | inr f ↦ rw f tt
]

ending-Written :
    (is_p is_unwrapped : Bool) (name : String) (had_open : Bool)
    → All IsWritten (end_pieces is_p is_unwrapped name had_open)
ending-Written true u name had_open = (tt, tt)
ending-Written false true name had_open = tt
ending-Written false false name had_open = closing-Written name had_open

opening-Written :
    (is_break is_unwrapped : Bool) (name : String) (rendered : Option String)
    → (is_some_text rendered ≡ true → has_close name ≡ true)
    → IsBareTag rendered
    → All IsWritten (start_pieces is_break is_unwrapped name rendered)
opening-Written true u name rendered closes bare = (tt, tt)
opening-Written false true name rendered closes bare = tt
opening-Written false false name none closes bare = tt
opening-Written false false name (some extra) closes bare = ((closes refl, bare), tt)

close_all-Written : (stack : OpenStack) → All IsWritten (close_all stack)
unfolding close_all
close_all-Written [] = tt
close_all-Written ((name, false) ∷ rest) = close_all-Written rest
close_all-Written ((name, true) ∷ rest) =
    both _ _ (closing-Written name true) (close_all-Written rest)

pub convert-Written :
    (ts : List Token) (stack : OpenStack) → All IsPlain ts → All IsWritten (convert ts stack)
unfolding convert
convert-Written [] stack h = close_all-Written stack
convert-Written (text s ∷ ts) stack h = (h.0, convert-Written ts stack h.1)
convert-Written (end_tag name ∷ ts) stack h =
    let (had_open, left) = pop name stack in
    both _ _ (ending-Written (str_eq name "p") (is_among name unwrap) name had_open)
      (convert-Written ts left h.1)
convert-Written (start_tag name attrs ∷ ts) stack h =
    let rendered = render_open_tag name attrs in
    both _ _
      (opening-Written (is_among name break) (is_among name unwrap) name rendered
        (render_open_tag-has_close name attrs) (render_open_tag-IsBareTag name attrs))
      (convert-Written ts _ h.1)
