-- ===== src/Protocol/Ids.antt =====
-- RequestID of internal/protocol/types.go. The three fields of the source are one data type: the
-- field that the kind does not use is always zero there.
use mcp_from_scratch.Base.Decimal.{
  pos, negsuc, ℤ, codes, format_int, parse_int, parse_int-format_int, InInt64,
}
use mcp_from_scratch.Base.{◌==◌, eqb, false, true, Bool, String, ◌≡◌, refl, Option, none, some}
use mcp_from_scratch.Json.{Json, num, str, Raw}

pub data RequestId : Type 0 where
  unset : RequestId
  number : ℤ → RequestId
  text : String → RequestId

unfoldable pub is_string : RequestId → Bool
is_string (text s) = true
is_string (number n) = false
is_string unset = false

unfoldable pub to_string : RequestId → String
to_string (text s) = s
to_string (number n) = format_int n
to_string unset = ""

-- `none`: an identifier that was never set cannot be encoded.
unfoldable pub marshal_id : RequestId → Raw
marshal_id (number n) = some (num (format_int n))
marshal_id (text s) = some (str s)
marshal_id unset = none

same_integer : ℤ → ℤ → Bool
same_integer (pos m) (pos n) = eqb m n
same_integer (negsuc m) (negsuc n) = eqb m n
same_integer _ _ = false

-- Equality of the struct, as the keys of a Go map are compared.
unfoldable pub same_id : RequestId → RequestId → Bool
unfolding same_integer
same_id unset unset = true
same_id (number m) (number n) = same_integer m n
same_id (text s) (text t) = s == t
same_id _ _ = false

abbrev number_or_none : Option ℤ → Option RequestId
number_or_none none = none
number_or_none (some n) = some (number n)

unfoldable pub unmarshal_id : Json → Option RequestId
unmarshal_id (str s) = some (text s)
unmarshal_id (num literal) = number_or_none (parse_int (codes literal))
unmarshal_id _ = none

-- A Go int64, which is what `number` holds in the program.
abbrev pub IsId : RequestId → Type 0
IsId unset = ⊥
IsId (number n) = InInt64 n
IsId (text s) = Unit {0}

abbrev pub decode_marshalled : Raw → Option RequestId
decode_marshalled none = none
decode_marshalled (some v) = unmarshal_id v

-- An identifier that is a text or a 64-bit number is read back from its encoding.
pub unmarshal_id-marshal_id :
    (id : RequestId) → IsId id → decode_marshalled (marshal_id id) ≡ some id
unfolding marshal_id unmarshal_id
unmarshal_id-marshal_id unset h = absurd h
unmarshal_id-marshal_id (text s) h = refl
unmarshal_id-marshal_id (number n) h = rw (parse_int-format_int n h)
