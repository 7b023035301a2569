-- ===== src/Base/Decimal.antt =====
-- strconv over the integers of the program: FormatInt and Itoa print, ParseInt and Atoi read.
use Prim.Native.Char.{Char, code}
use Prim.Native.Nat.{ℕ, zero, suc, ◌+◌, ◌-◌, ◌*◌, ◌/◌, ◌%◌, ◌^◌, ◌<◌}
use Prim.Native.String.{String}
use mathlib.Core.Path.{◌≡◌, refl, ◌∙◌}
use mathlib.Core.Logic.{inl, inr}
use mathlib.Core.Bool.{Bool, true, false, ◌&&◌}
use mathlib.Core.Option.{Option, none, some}
use mathlib.Core.List.{List, [], ◌∷◌}
use native.Mathlib.Omega.{arith}
use mcp_from_scratch.Base.Lists.{All}
use mcp_from_scratch.Base.Tests.{ltb, leb, if◌then◌else◌, Bool-cases}

-- `negsuc n` is -(n + 1).
pub data ℤ : Type 0 where
  pos : ℕ → ℤ
  negsuc : ℕ → ℤ

abbrev pub is_negative : ℤ → Bool
is_negative (pos n) = false
is_negative (negsuc n) = true

abbrev pub InInt64 : ℤ → Type 0
InInt64 (pos n) = n < 2 ^ 63
InInt64 (negsuc n) = n < 2 ^ 63

-- The code points of a text: its bytes, if it is ASCII.
abbrev pub codes : String → List ℕ
codes String.[] = []
codes (String.◌∷◌ c s) = code c ∷ codes s

abbrev digit : ℕ → Char
digit zero = "0"
digit (suc zero) = "1"
digit (suc (suc zero)) = "2"
digit (suc (suc (suc zero))) = "3"
digit (suc (suc (suc (suc zero)))) = "4"
digit (suc (suc (suc (suc (suc zero))))) = "5"
digit (suc (suc (suc (suc (suc (suc zero)))))) = "6"
digit (suc (suc (suc (suc (suc (suc (suc zero))))))) = "7"
digit (suc (suc (suc (suc (suc (suc (suc (suc zero)))))))) = "8"
digit (suc (suc (suc (suc (suc (suc (suc (suc (suc n))))))))) = "9"

code-digit : (d : ℕ) → d < 10 → code (digit d) ≡ d + 48
code-digit zero h = refl
code-digit (suc zero) h = refl
code-digit (suc (suc zero)) h = refl
code-digit (suc (suc (suc zero))) h = refl
code-digit (suc (suc (suc (suc zero)))) h = refl
code-digit (suc (suc (suc (suc (suc zero))))) h = refl
code-digit (suc (suc (suc (suc (suc (suc zero)))))) h = refl
code-digit (suc (suc (suc (suc (suc (suc (suc zero))))))) h = refl
code-digit (suc (suc (suc (suc (suc (suc (suc (suc zero)))))))) h = refl
code-digit (suc (suc (suc (suc (suc (suc (suc (suc (suc n))))))))) h = ground arith

-- The digits of a number in front of a text; `n < fuel` is enough.
format_from : ℕ → ℕ → String → String
format_from zero n s = s
format_from (suc fuel) n s =
    let more = format_from fuel (n / 10) (String.◌∷◌ (digit (n % 10)) s) in
    if ltb n 10 then String.◌∷◌ (digit n) s else more

unfoldable pub format_nat : ℕ → String
unfolding format_from
format_nat n = format_from (suc n) n String.[]

unfoldable pub format_int : ℤ → String
unfolding format_nat
format_int (pos n) = format_nat n
format_int (negsuc n) = String.◌∷◌ "-" (format_nat (suc n))

unfoldable pub is_digit : ℕ → Bool
is_digit c = leb 48 c && leb c 57

-- The digits of a text read after the value `v`.
digits_from : ℕ → List ℕ → Option ℕ
unfolding is_digit
digits_from v [] = some v
digits_from v (c ∷ cs) =
    let rest = digits_from (v * 10 + (c - 48)) cs in if is_digit c then rest else none

digits : List ℕ → Option ℕ
unfolding digits_from
digits [] = none
digits (c ∷ cs) = digits_from 0 (c ∷ cs)

abbrev at_most : ℕ → Option ℕ → Option ℕ
at_most limit none = none
at_most limit (some n) = if leb n limit then some n else none

abbrev positive : Option ℕ → Option ℤ
positive none = none
positive (some n) = some (pos n)

abbrev negative : Option ℕ → Option ℤ
negative none = none
negative (some zero) = some (pos 0)
negative (some (suc n)) = some (negsuc n)

-- An optional sign, then at least one digit, and the value in the range of int64.
unfoldable pub parse_int : List ℕ → Option ℤ
unfolding digits
parse_int [] = none
parse_int (c ∷ cs) =
    if c_is 43
    then positive (at_most (2 ^ 63 - 1) (digits cs))
    else if c_is 45
    then negative (at_most (2 ^ 63) (digits cs))
    else positive (at_most (2 ^ 63 - 1) (digits (c ∷ cs)))
  where
    c_is : ℕ → Bool
    c_is k = leb c k && leb k c

format_from-step :
    (fuel n : ℕ) (s : String)
    → n < fuel
    → digits_from 0 (codes (format_from fuel n s)) ≡ digits_from n (codes s)
unfolding digits_from format_from
format_from-step zero n s h = absurd (omega arith)
format_from-step (suc fuel) n s h = elim (Bool-cases (ltb n 10)) [
  | inl low ↦ rw low (ground (arith, code-digit n))
  | inr high ↦ rw high (
      format_from-step fuel (n / 10) (String.◌∷◌ (digit (n % 10)) s) (ground arith)
      ∙ ground (arith, code-digit (n % 10)))
]

-- What is printed begins with a digit.
format_from-head :
    (fuel n : ℕ) (s : String)
    → n < fuel
    → (c : ℕ) × (t : List ℕ) × (codes (format_from fuel n s) ≡ c ∷ t) × (is_digit c ≡ true)
unfolding format_from
format_from-head zero n s h = absurd (omega arith)
format_from-head (suc fuel) n s h = elim (Bool-cases (ltb n 10)) [
  | inl low ↦ rw low (code (digit n), codes s, refl, digit-is_digit n (ground arith))
  | inr high ↦
      rw high (format_from-head fuel (n / 10) (String.◌∷◌ (digit (n % 10)) s) (ground arith))
]
  where
    digit-is_digit : (d : ℕ) → d < 10 → is_digit (code (digit d)) ≡ true
    digit-is_digit d h = rw (code-digit d h) (unfold is_digit in ground arith)

digits-cons : (l : List ℕ) (c : ℕ) (t : List ℕ) → l ≡ c ∷ t → digits l ≡ digits_from 0 l
unfolding digits
digits-cons l c t e = rw e

digits-format_nat : (n : ℕ) → digits (codes (format_nat n)) ≡ some n
unfolding digits format_nat
digits-format_nat n =
    let (c, t, e, d) = format_from-head (suc n) n String.[] (omega arith) in
    digits-cons (codes (format_from (suc n) n String.[])) c t e
    ∙ format_from-step (suc n) n String.[] (omega arith)

parse_int-unsigned :
    (l : List ℕ) (c : ℕ) (t : List ℕ) (n : ℕ)
    → l ≡ c ∷ t
    → is_digit c ≡ true
    → digits l ≡ some n
    → n < 2 ^ 63
    → parse_int l ≡ some (pos n)
unfolding parse_int is_digit
parse_int-unsigned l c t n e d v h = ground arith

-- An integer of 64 bits is read back from its decimal text.
pub parse_int-format_int : (z : ℤ) → InInt64 z → parse_int (codes (format_int z)) ≡ some z
unfolding format_int format_nat
parse_int-format_int (pos n) h =
    let (c, t, e, d) = format_from-head (suc n) n String.[] (omega arith) in
    parse_int-unsigned _ c t n e d (digits-format_nat n) h
parse_int-format_int (negsuc n) h = unfold parse_int in ground (arith, digits-format_nat (suc n))

format_from-small :
    (fuel n : ℕ) (s : String)
    → All (λ c. c < 256) (codes s)
    → All (λ c. c < 256) (codes (format_from fuel n s))
unfolding format_from
format_from-small zero n s h = h
format_from-small (suc fuel) n s h = elim (Bool-cases (ltb n 10)) [
  | inl low ↦ rw low (rw (code-digit n (ground arith)) (ground arith), h)
  | inr high ↦ rw high (
      format_from-small fuel (n / 10) (String.◌∷◌ (digit (n % 10)) s)
        (rw (code-digit (n % 10) (omega arith)) (omega arith), h))
]

-- A printed number is made of bytes.
pub format_nat-small : (n : ℕ) → All (λ c. c < 256) (codes (format_nat n))
unfolding format_nat
format_nat-small n = format_from-small (suc n) n String.[] tt

pub parse_int-format_nat : (n : ℕ) → n < 2 ^ 63 → parse_int (codes (format_nat n)) ≡ some (pos n)
unfolding format_int
parse_int-format_nat n h = parse_int-format_int (pos n) h
