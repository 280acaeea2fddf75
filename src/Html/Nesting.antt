-- ===== src/Html/Nesting.antt =====
-- The tags that `to_telegram_html` puts out: their nesting, name by name.
use Prim.Native.String.{String}
use pix_vpn_service.Prelude.{
  ℕ, suc, ◌+◌, ◌-◌, ◌≤◌, ◌≡◌, refl, sym, Bool, true, false, ◌&&◌, Option, none, some, List, [], ◌∷◌,
  ◌++◌, str_eq, eq_iff, inl, inr, Bool-cases, arith, All, if◌then◌else◌,
}
use pix_vpn_service.Html.Scan.{is_among}
use pix_vpn_service.Html.Markup.{
  Unicode, Token, text, start_tag, end_tag, has_close, unwrap, break, render_open_tag,
}
use pix_vpn_service.Html.Written.{IsPlain, IsWritten, render_open_tag-has_close, convert-Written}
use pix_vpn_service.Html.Convert.{
  Piece, opened, closed, OpenStack, pop, render_close_tag, end_pieces, is_some_text, start_pieces,
  start_stack, close_all, convert, tokens_of, pieces,
}

-- Read from the left with `depth` tags of the name open: no tag is closed when none is open, and at the
-- end none is open.
abbrev pub Closes : String → ℕ → List Piece → Type 0
Closes name depth [] = depth ≡ 0
Closes name depth (opened n extra ∷ xs) =
    Closes name (if str_eq n name then suc depth else depth) xs
Closes name depth (closed n ∷ xs) =
    (str_eq n name ≡ true → 1 ≤ depth) × Closes name (if str_eq n name then depth - 1 else depth) xs
Closes name depth (x ∷ xs) = Closes name depth xs

-- How many tags of the name are put out and on the stack.
abbrev depth_of : String → OpenStack → ℕ
depth_of name [] = 0
depth_of name ((n, had_open) ∷ rest) =
    (if str_eq n name && had_open then 1 else 0) + depth_of name rest

-- What is put out has a closing tag.
abbrev IsClosable : String × Bool → Type 0
IsClosable (n, had_open) = had_open ≡ true → (has_close n ≡ true) × (is_among n unwrap ≡ false)

same_test : (n name m : String) → str_eq n name ≡ true → str_eq n m ≡ str_eq name m
same_test n name m e = let same : n ≡ name = (eq_iff n name).0 e in rw same refl

depth-pop :
    (m name : String) (stack : OpenStack)
    → depth_of m stack
      ≡ (if str_eq name m && (pop name stack).0 then 1 else 0) + depth_of m (pop name stack).1
unfolding pop
depth-pop m name [] = ground arith
depth-pop m name ((n, had_open) ∷ rest) = ground (arith, same_test n name m, depth-pop m name rest)

pop-IsClosable :
    (name : String) (stack : OpenStack)
    → All IsClosable stack
    → IsClosable (name, (pop name stack).0) × All IsClosable (pop name stack).1
unfolding pop
pop-IsClosable name [] h = ((λ e. cc), tt)
pop-IsClosable name ((n, had_open) ∷ rest) h = elim (Bool-cases (str_eq n name)) [
  | inl t ↦ let same : n ≡ name = (eq_iff n name).0 t in rw t (rw (sym same) h.0, h.1)
  | inr f ↦ let k = pop-IsClosable name rest h.1 in rw f (k.0, (h.0, k.1))
]

closing-Closes :
    (m name : String) (depth : ℕ) (xs : List Piece)
    → has_close name ≡ true
    → Closes m depth xs
    → Closes m ((if str_eq name m && true then 1 else 0) + depth) (render_close_tag name true ++ xs)
closing-Closes m name depth xs closes h = elim (Bool-cases (str_eq name m)) [
  | inl t ↦
      let at_one : 1 + depth - 1 ≡ depth = omega arith in
      rw (closes, t) ((λ e. omega arith), rw at_one h)
  | inr f ↦
      let at_zero : 0 + depth ≡ depth = omega arith in rw (closes, f) ((λ e. cc), rw at_zero h)
]

close_all-Closes :
    (m : String) (stack : OpenStack)
    → All IsClosable stack
    → Closes m (depth_of m stack) (close_all stack)
unfolding close_all
close_all-Closes m [] h = refl
close_all-Closes m ((n, false) ∷ rest) h =
    let same : (if str_eq n m && false then 1 else 0) + depth_of m rest ≡ depth_of m rest =
      ground arith in
    rw same (close_all-Closes m rest h.1)
close_all-Closes m ((n, true) ∷ rest) h =
    closing-Closes m n (depth_of m rest) (close_all rest) (h.0 refl).0 (close_all-Closes m rest h.1)

at_depth : (m : String) (d d' : ℕ) (xs : List Piece) → d ≡ d' → Closes m d' xs → Closes m d xs
at_depth m d d' xs same h = rw same h

end_tag-Closes :
    (m name : String) (is_p is_unwrapped had_open : Bool) (depth : ℕ) (xs : List Piece)
    → (had_open ≡ true → (has_close name ≡ true) × (is_p ≡ false) × (is_unwrapped ≡ false))
    → Closes m depth xs
    → Closes m
        ((if str_eq name m && had_open then 1 else 0) + depth)
        (end_pieces is_p is_unwrapped name had_open ++ xs)
end_tag-Closes m name true u true depth xs k h = absurd (never (k refl).1)
  where
    never : true ≡ false → ⊥
    never e = cc
end_tag-Closes m name false true true depth xs k h = absurd (never (k refl).2)
  where
    never : true ≡ false → ⊥
    never e = cc
end_tag-Closes m name false false true depth xs k h = closing-Closes m name depth xs (k refl).0 h
end_tag-Closes m name true u false depth xs k h = at_depth m _ depth xs (ground arith) h
end_tag-Closes m name false true false depth xs k h = at_depth m _ depth xs (ground arith) h
end_tag-Closes m name false false false depth xs k h = at_depth m _ depth xs (ground arith) h

start_tag-Closes :
    (m name : String) (is_break is_unwrapped : Bool) (rendered : Option String) (stack : OpenStack)
    (xs : List Piece)
    → Closes m (depth_of m (start_stack is_break is_unwrapped name rendered stack)) xs
    → Closes m (depth_of m stack) (start_pieces is_break is_unwrapped name rendered ++ xs)
start_tag-Closes m name true u rendered stack xs h = h
start_tag-Closes m name false true rendered stack xs h = at_depth m _ _ xs (ground arith) h
start_tag-Closes m name false false none stack xs h = at_depth m _ _ xs (ground arith) h
start_tag-Closes m name false false (some extra) stack xs h = at_depth m _ _ xs (ground arith) h

start_stack-IsClosable :
    (name : String) (is_break is_unwrapped : Bool) (rendered : Option String) (stack : OpenStack)
    → is_among name unwrap ≡ is_unwrapped
    → (is_some_text rendered ≡ true → has_close name ≡ true)
    → All IsClosable stack
    → All IsClosable (start_stack is_break is_unwrapped name rendered stack)
start_stack-IsClosable name true u rendered stack e closes h = h
start_stack-IsClosable name false true rendered stack e closes h = ((λ x. cc), h)
start_stack-IsClosable name false false rendered stack e closes h = ((λ x. (closes x, e)), h)

not_p : (name : String) → is_among name unwrap ≡ false → str_eq name "p" ≡ false
unfolding is_among
not_p name e = elim (Bool-cases (str_eq name "p")) [
  | inr f ↦ f
  | inl t ↦ let never : true ≡ false = rw t at e in cc
]

convert-Closes :
    (m : String) (ts : List Token) (stack : OpenStack)
    → All IsClosable stack
    → Closes m (depth_of m stack) (convert ts stack)
unfolding convert
convert-Closes m [] stack h = close_all-Closes m stack h
convert-Closes m (text s ∷ ts) stack h = convert-Closes m ts stack h
convert-Closes m (end_tag name ∷ ts) stack h =
    let k = pop-IsClosable name stack h in
    let (had_open, left) = pop name stack in
    let out =
      end_pieces (str_eq name "p") (is_among name unwrap) name had_open ++ convert ts left in
    at_depth m _ _ out (depth-pop m name stack) (
      end_tag-Closes m name (str_eq name "p") (is_among name unwrap) had_open (depth_of m left)
        (convert ts left) (λ e. let c = k.0 e in (c.0, not_p name c.1, c.1))
        (convert-Closes m ts left k.1))
convert-Closes m (start_tag name attrs ∷ ts) stack h =
    let rendered = render_open_tag name attrs in
    let is_break = is_among name break in
    let is_unwrapped = is_among name unwrap in
    start_tag-Closes m name is_break is_unwrapped rendered stack _ (
      convert-Closes m ts _ (
        start_stack-IsClosable name is_break is_unwrapped rendered stack refl
          (render_open_tag-has_close name attrs) h))

-- For a text in which, once its escaped tags are unescaped, each `<` begins a tag that the converter
-- reads: in what is put out each `<` begins a tag that the converter wrote, with a name of Telegram's
-- and with neither `<` nor `>` in its attributes; and for each name, read from the left, no closing tag
-- stands where no tag of the name is open, and at the end every tag is closed.
pub pieces-Closes :
    (unicode : Unicode) (src name : String)
    → All IsPlain (tokens_of unicode src)
    → All IsWritten (pieces unicode src) × Closes name 0 (pieces unicode src)
unfolding pieces
pieces-Closes unicode src name plain = (
  convert-Written (tokens_of unicode src) [] plain,
  convert-Closes name (tokens_of unicode src) [] tt,
)
