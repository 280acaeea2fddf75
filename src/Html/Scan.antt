-- ===== src/Html/Scan.antt =====
-- The texts of the converter as strings of characters: Python's methods that it calls, and its two
-- regular expressions as the left-to-right scans that they are.
use Prim.Native.Char.{code, Char}
use Prim.Native.String.{String}
use pix_vpn_service.Prelude.{
  ℕ, suc, Bool, true, false, ◌&&◌, ◌||◌, Option, none, some, List, [], ◌∷◌, str_eq, leb, ◌==◌,
  if◌then◌else◌,
}

abbrev pub is_char : ℕ → Char → Bool
is_char n c = code c == n

abbrev pub is_empty : String → Bool
is_empty String.[] = true
is_empty (String.◌∷◌ c s) = false

abbrev pub size : String → ℕ
size String.[] = 0
size (String.◌∷◌ c s) = suc (size s)

unfoldable pub between : ℕ → ℕ → Char → Bool
between a b c = leb a (code c) && leb (code c) b

-- `str.isspace` and `\s`
pub is_space : Char → Bool
unfolding between
is_space c =
    between 9 13 c
    || between 28 32 c
    || is_char 133 c
    || is_char 160 c
    || is_char 5760 c
    || between 8192 8202 c
    || is_char 8232 c
    || is_char 8233 c
    || is_char 8239 c
    || is_char 8287 c
    || is_char 12288 c

unfoldable pub is_letter : Char → Bool
unfolding between
is_letter c = between 65 90 c || between 97 122 c

-- `[A-Za-z0-9-]`
unfoldable pub is_name_char : Char → Bool
unfolding between is_letter
is_name_char c = is_letter c || between 48 57 c || is_char 45 c

-- The longest prefix of characters that fit, and the rest.
unfoldable pub span : (Char → Bool) → String → String × String
span p String.[] = (String.[], String.[])
span p (String.◌∷◌ c s) =
    let (taken, rest) = span p s in
    if p c then (String.◌∷◌ c taken, rest) else (String.[], String.◌∷◌ c s)

abbrev pub put_before : Char → Option (String × String) → Option (String × String)
put_before c none = none
put_before c (some (before, after)) = some (String.◌∷◌ c before, after)

-- The text before the first character with this code and the text after it, where there is one.
unfoldable pub cut_at : ℕ → String → Option (String × String)
cut_at n String.[] = none
cut_at n (String.◌∷◌ c s) =
    let later = put_before c (cut_at n s) in if is_char n c then some (String.[], s) else later

-- The text after a prefix, where the text has it.
unfoldable pub after_prefix : String → String → Option String
after_prefix String.[] s = some s
after_prefix (String.◌∷◌ p ps) String.[] = none
after_prefix (String.◌∷◌ p ps) (String.◌∷◌ c s) =
    let rest = after_prefix ps s in if code p == code c then rest else none

pub lstrip : String → String
unfolding is_space
lstrip String.[] = String.[]
lstrip (String.◌∷◌ c s) = let rest = lstrip s in if is_space c then rest else String.◌∷◌ c s

pub rstrip : String → String
unfolding is_space
rstrip String.[] = String.[]
rstrip (String.◌∷◌ c s) =
    let rest = rstrip s in if is_space c && is_empty rest then String.[] else String.◌∷◌ c rest

-- `str.strip`
pub strip : String → String
unfolding lstrip rstrip
strip s = lstrip (rstrip s)

abbrev add_word : String → List String → List String
add_word w ws = if is_empty w then ws else w ∷ ws

split_from : String → String × List String
split_from String.[] = (String.[], [])
split_from (String.◌∷◌ c s) =
    let (w, ws) = split_from s in
    if is_space c then (String.[], add_word w ws) else (String.◌∷◌ c w, ws)

-- `str.split()`
pub split : String → List String
unfolding split_from
split s = let (w, ws) = split_from s in add_word w ws

-- `in` for a set or a list of texts.
unfoldable pub is_among : String → List String → Bool
is_among s [] = false
is_among s (x ∷ xs) = str_eq s x || is_among s xs
