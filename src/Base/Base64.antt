-- ===== src/Base/Base64.antt =====
-- base64.RawURLEncoding: unpadded, over the URL alphabet. Like the package, decoding skips line
-- breaks and does not look at the bits that a last group leaves over.
use Prim.Native.Char.{Char, code}
use mcp_from_scratch.Base.Decimal.{codes}
use mcp_from_scratch.Base.{
  ℕ, zero, suc, ◌+◌, ◌-◌, ◌*◌, ◌/◌, ◌%◌, ◌<◌, String, ◌≡◌, refl, ap, ◌≢◌, Bool, true, false, not,
  ◌&&◌, ◌||◌, Option, none, some, List, [], ◌∷◌, arith, leb, eqb, if◌then◌else◌, All,
}

alphabet : String
alphabet = "ABCDEFGHIJKLMNOPQRSTUVWXYZabcdefghijklmnopqrstuvwxyz0123456789-_"

letter_of : String → ℕ → Char
letter_of String.[] n = "A"
letter_of (String.◌∷◌ c s) zero = c
letter_of (String.◌∷◌ c s) (suc n) = letter_of s n

letter : ℕ → Char
unfolding letter_of alphabet
letter n = letter_of alphabet n

-- The value of a letter.
sextet : ℕ → Option ℕ
sextet c =
    if leb b'A' c && leb c b'Z'
    then some (c - 65)
    else if leb b'a' c && leb c b'z'
    then some (c - 71)
    else if leb b'0' c && leb c b'9'
    then some (c + 4)
    else if eqb c b'-'
    then some 62
    else if eqb c b'_'
    then some 63
    else none

to_sextets : List ℕ → List ℕ
to_sextets [] = []
to_sextets (a ∷ []) = a / 4 ∷ a % 4 * 16 ∷ []
to_sextets (a ∷ b ∷ []) = a / 4 ∷ (a % 4 * 16 + b / 16) ∷ b % 16 * 4 ∷ []
to_sextets (a ∷ b ∷ c ∷ rest) =
    a / 4 ∷ (a % 4 * 16 + b / 16) ∷ (b % 16 * 4 + c / 64) ∷ c % 64 ∷ to_sextets rest

text_of : List ℕ → String
unfolding letter
text_of [] = String.[]
text_of (x ∷ xs) = String.◌∷◌ (letter x) (text_of xs)

unfoldable pub encode : List ℕ → String
unfolding text_of to_sextets
encode bytes = text_of (to_sextets bytes)

abbrev push : ℕ → Option (List ℕ) → Option (List ℕ)
push x none = none
push x (some xs) = some (x ∷ xs)

abbrev push_sextet : Option ℕ → Option (List ℕ) → Option (List ℕ)
push_sextet none xs = none
push_sextet (some x) xs = push x xs

sextets : List ℕ → Option (List ℕ)
unfolding sextet
sextets [] = some []
sextets (c ∷ cs) =
    let rest = sextets cs in if eqb c 10 || eqb c 13 then rest else push_sextet (sextet c) rest

from_sextets : List ℕ → Option (List ℕ)
from_sextets [] = some []
from_sextets (p ∷ []) = none
from_sextets (p ∷ q ∷ []) = some ((p * 4 + q / 16) ∷ [])
from_sextets (p ∷ q ∷ r ∷ []) = some ((p * 4 + q / 16) ∷ (q % 16 * 16 + r / 4) ∷ [])
from_sextets (p ∷ q ∷ r ∷ s ∷ rest) =
    push (p * 4 + q / 16) (push (q % 16 * 16 + r / 4) (push (r % 4 * 64 + s) (from_sextets rest)))

abbrev grouped : Option (List ℕ) → Option (List ℕ)
grouped none = none
grouped (some xs) = from_sextets xs

unfoldable pub decode : String → Option (List ℕ)
unfolding sextets from_sextets
decode text = grouped (sextets (codes text))

abbrev pub Bytes : List ℕ → Type 0
Bytes = All (λ b. b < 256)

below : ℕ → (ℕ → Bool) → Bool
below zero p = true
below (suc n) p = p n && below n p

below_sound : (n : ℕ) (p : ℕ → Bool) (x : ℕ) → below n p ≡ true → x < n → p x ≡ true
unfolding below
below_sound zero p x h lt = absurd (omega arith)
below_sound (suc n) p x h lt = ground (arith, below_sound n p x)

abbrev is_value : ℕ → Option ℕ → Bool
is_value x none = false
is_value x (some y) = eqb x y

abbrev letter_ok : ℕ → Bool
letter_ok x =
    is_value x (sextet (code (letter x)))
    && not (eqb (code (letter x)) 10 || eqb (code (letter x)) 13)

letter_table : below 64 letter_ok ≡ true
unfolding below sextet letter
letter_table = refl

letter_sound :
    (x : ℕ)
    → x < 64
    → (sextet (code (letter x)) ≡ some x)
      × ((eqb (code (letter x)) 10 || eqb (code (letter x)) 13) ≡ false)
letter_sound x h =
    let table = below_sound 64 letter_ok x letter_table h in (ground arith, ground arith)

sextets-text_of : (xs : List ℕ) → All (λ x. x < 64) xs → sextets (codes (text_of xs)) ≡ some xs
unfolding sextets text_of
sextets-text_of [] h = refl
sextets-text_of (x ∷ xs) h =
    rw ((letter_sound x h.0).1, (letter_sound x h.0).0, sextets-text_of xs h.1) refl

to_sextets-small : (bytes : List ℕ) → Bytes bytes → All (λ x. x < 64) (to_sextets bytes)
unfolding to_sextets
to_sextets-small [] h = tt
to_sextets-small (a ∷ []) h = omega arith
to_sextets-small (a ∷ b ∷ []) h = omega arith
to_sextets-small (a ∷ b ∷ c ∷ rest) h =
    (omega arith, (omega arith, (omega arith, (omega arith, to_sextets-small rest h.1.1.1))))

from_sextets-to_sextets :
    (bytes : List ℕ) → Bytes bytes → from_sextets (to_sextets bytes) ≡ some bytes
unfolding from_sextets to_sextets
from_sextets-to_sextets [] h = refl
from_sextets-to_sextets (a ∷ []) h = ground arith
from_sextets-to_sextets (a ∷ b ∷ []) h = ground arith
from_sextets-to_sextets (a ∷ b ∷ c ∷ rest) h =
    rw (from_sextets-to_sextets rest h.1.1.1) (ground arith)

-- Bytes are decoded as they were encoded.
pub decode-encode : (bytes : List ℕ) → Bytes bytes → decode (encode bytes) ≡ some bytes
unfolding decode encode
decode-encode bytes h =
    rw (sextets-text_of (to_sextets bytes) (to_sextets-small bytes h))
      (from_sextets-to_sextets bytes h)

decode-nil : decode "" ≡ some []
unfolding decode sextets from_sextets
decode-nil = refl

pub encode-ne-nil : (b : ℕ) (bytes : List ℕ) → Bytes (b ∷ bytes) → encode (b ∷ bytes) ≢ ""
encode-ne-nil b bytes h e = cc (decode-encode (b ∷ bytes) h, ap decode e, decode-nil)
