-- ===== src/Base/Text.antt =====
-- Functions of package strings: TrimSpace, Split at a character, EqualFold and ToLower.
pub mod Trimming
use Prim.Native.Char.{Char, code}
use mathlib.Core.Option
use mcp_from_scratch.Base.Decimal.{codes}
use mcp_from_scratch.Base.{
  ℕ, zero, suc, ◌++◌, ◌+◌, ◌/◌, ◌%◌, String, Bool, true, false, ◌&&◌, ◌||◌, List, [], ◌∷◌, ◌==◌,
  leb, eqb, if◌then◌else◌, ltb, map, Option, none, some,
}

-- unicode.IsSpace
unfoldable pub is_space : ℕ → Bool
is_space c =
    (leb 9 c && leb c 13)
    || eqb c 32
    || eqb c 0x85
    || eqb c 0xa0
    || eqb c 0x1680
    || (leb 0x2000 c && leb c 0x200a)
    || eqb c 0x2028
    || eqb c 0x2029
    || eqb c 0x202f
    || eqb c 0x205f
    || eqb c 0x3000

trim_left : (ℕ → Bool) → String → String
trim_left test String.[] = String.[]
trim_left test (String.◌∷◌ c s) =
    let rest = trim_left test s in if test (code c) then rest else String.◌∷◌ c s

trim_right : (ℕ → Bool) → String → String
trim_right test String.[] = String.[]
trim_right test (String.◌∷◌ c s) =
    let rest = trim_right test s in
    if rest == "" && test (code c) then String.[] else String.◌∷◌ c rest

-- The text without the characters at its ends that the test accepts.
unfoldable pub trim : (ℕ → Bool) → String → String
unfolding trim_left trim_right
trim test s = trim_right test (trim_left test s)

unfoldable pub trim_space : String → String
unfolding trim is_space
trim_space s = trim is_space s

utf8_of : ℕ → List ℕ
utf8_of c =
    if ltb c 0x80
    then c ∷ []
    else if ltb c 0x800
    then (0xc0 + c / 64) ∷ (0x80 + c % 64) ∷ []
    else if ltb c 0x10000
    then (0xe0 + c / 4096) ∷ (0x80 + (c / 64) % 64) ∷ (0x80 + c % 64) ∷ []
    else (0xf0 + c / 262144)
      ∷ (0x80 + (c / 4096) % 64)
      ∷ (0x80 + (c / 64) % 64)
      ∷ (0x80 + c % 64)
      ∷ []

-- []byte(s), the UTF-8 encoding.
unfoldable pub bytes_of : String → List ℕ
unfolding utf8_of
bytes_of String.[] = []
bytes_of (String.◌∷◌ c s) = utf8_of (code c) ++ bytes_of s

abbrev pub push_front : Char → List String → List String
push_front c [] = String.◌∷◌ c String.[] ∷ []
push_front c (part ∷ parts) = String.◌∷◌ c part ∷ parts

-- s + t, by the characters of s.
abbrev pub in_front : String → String → String
in_front String.[] t = t
in_front (String.◌∷◌ c s) t = String.◌∷◌ c (in_front s t)

-- strings.Split at one character; never the empty list.
unfoldable pub split : ℕ → String → List String
split separator String.[] = "" ∷ []
split separator (String.◌∷◌ c s) =
    let rest = split separator s in if eqb (code c) separator then "" ∷ rest else push_front c rest

-- The part of a text before the first separator, strings.SplitN(s, sep, 2)[0].
unfoldable pub before : ℕ → String → String
before separator String.[] = ""
before separator (String.◌∷◌ c s) =
    let rest = before separator s in if eqb (code c) separator then "" else String.◌∷◌ c rest

lower : ℕ → ℕ
lower c = if leb b'A' c && leb c b'Z' then c + 32 else c

-- The two letters outside ASCII that fold with a letter of ASCII.
fold : ℕ → ℕ
unfolding lower
fold c = if eqb c 0x17f then b's' else if eqb c 0x212a then b'k' else lower c

-- strings.EqualFold for a second text of ASCII letters.
equal_codes : List ℕ → List ℕ → Bool
unfolding fold
equal_codes [] [] = true
equal_codes (a ∷ s) (b ∷ t) = eqb (fold a) (fold b) && equal_codes s t
equal_codes _ _ = false

unfoldable pub equal_fold : String → String → Bool
unfolding equal_codes
equal_fold s t = equal_codes (codes s) (codes t)

abbrev hex_digits : List Char
hex_digits =
    "0" ∷ "1" ∷ "2" ∷ "3" ∷ "4" ∷ "5" ∷ "6" ∷ "7" ∷ "8" ∷ "9" ∷ "a" ∷ "b" ∷ "c" ∷ "d" ∷ "e" ∷ "f"
    ∷ []

abbrev char_at : List Char → ℕ → Char
char_at [] n = "0"
char_at (c ∷ cs) zero = c
char_at (c ∷ cs) (suc n) = char_at cs n

-- hex.EncodeToString
unfoldable pub hex : List ℕ → String
hex [] = ""
hex (b ∷ bytes) =
    String.◌∷◌ (char_at hex_digits (b / 16)) (String.◌∷◌ (char_at hex_digits (b % 16)) (hex bytes))

abbrev put_word : String → List String → List String
put_word w ws = if w == "" then ws else w ∷ ws

-- The word that a text starts with, and the words behind it.
words_of : String → String × List String
unfolding is_space
words_of String.[] = ("", [])
words_of (String.◌∷◌ c s) =
    let rest = words_of s in
    if is_space (code c) then ("", put_word rest.0 rest.1) else (String.◌∷◌ c rest.0, rest.1)

-- strings.Fields
unfoldable pub words : String → List String
unfolding words_of
words s = put_word (words_of s).0 (words_of s).1

-- What stands before the first character that the test accepts, and what stands behind it.
unfoldable pub cut : (ℕ → Bool) → String → Option (String × String)
cut test String.[] = none
cut test (String.◌∷◌ c s) =
    let rest = Option.map (λ (p : String × String). (String.◌∷◌ c p.0, p.1)) (cut test s) in
    if test (code c) then some ("", s) else rest

-- len(s), the number of bytes in UTF-8.
unfoldable pub byte_length : String → ℕ
byte_length String.[] = 0
byte_length (String.◌∷◌ c s) =
    let rest = byte_length s in
    if ltb (code c) 0x80
    then rest + 1
    else if ltb (code c) 0x800
    then rest + 2
    else if ltb (code c) 0x10000
    then rest + 3
    else rest + 4

lower_code : ℕ → ℕ
lower_code c =
    if leb b'A' c && leb c b'Z'
    then c + 32
    else if eqb c 0x130
    then b'i'
    else if eqb c 0x212a
    then b'k'
    else c

-- The code points of strings.ToLower(s), for the letters whose lower case is in ASCII.
unfoldable pub lower_codes : String → List ℕ
unfolding lower_code
lower_codes s = map lower_code (codes s)
