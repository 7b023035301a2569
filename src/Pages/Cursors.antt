-- ===== src/Pages/Cursors.antt =====
-- The cursors of the lists, and what a client reads that follows them.
use mcp_from_scratch.Base.Base64.{decode, decode-encode, encode-ne-nil, Bytes}
use mcp_from_scratch.Base.Decimal.{codes, format_nat, format_nat-small, parse_int-format_nat}
use mcp_from_scratch.Pages.{
  bytes_prefix, offset_prefix, offset_of, cut_offset, cut_prefix, decode_cursor, next_cursor,
}
use mcp_from_scratch.Base.{
  ℕ, ◌^◌, ◌<◌, ◌≡◌, refl, ap, ◌≢◌, false, some, List, [], ◌∷◌, ◌++◌, arith, ◌==◌, eq_iff, ok,
}

bytes_prefix-append : (ps bytes : List ℕ) → bytes_prefix ps (ps ++ bytes) ≡ some bytes
unfolding bytes_prefix
bytes_prefix-append [] bytes = refl
bytes_prefix-append (p ∷ ps) bytes = ground (arith, bytes_prefix-append ps bytes)

cursor-Bytes : (n : ℕ) → Bytes (offset_prefix ++ codes (format_nat n))
cursor-Bytes n = (
  omega arith,
  (
    omega arith,
    (omega arith, (omega arith, (omega arith, (omega arith, (omega arith, format_nat-small n))))),
  ),
)

next_cursor-ne-nil : (n : ℕ) → next_cursor n ≢ ""
unfolding next_cursor
next_cursor-ne-nil n = encode-ne-nil b'o' _ (cursor-Bytes n)

cursor_text : (n : ℕ) → n < 2 ^ 63 → cut_prefix (decode (next_cursor n)) ≡ ok n
unfolding next_cursor cut_prefix cut_offset offset_of bytes_prefix
cursor_text n h =
    rw (decode-encode (offset_prefix ++ codes (format_nat n)) (cursor-Bytes n))
      (rw (parse_int-format_nat n h) refl)

-- The cursor that a page hands out for an offset below 2^63 is read back as that offset.
pub decode_cursor-next_cursor : (n : ℕ) → n < 2 ^ 63 → decode_cursor (next_cursor n) ≡ ok n
unfolding decode_cursor
decode_cursor-next_cursor n h =
    ground (arith, eq_iff (next_cursor n) "", next_cursor-ne-nil n, cursor_text n)

pub next_cursor_injective :
    (m n : ℕ) → m < 2 ^ 63 → n < 2 ^ 63 → next_cursor m ≡ next_cursor n → m ≡ n
next_cursor_injective m n h k e =
    cc (decode_cursor-next_cursor m h, decode_cursor-next_cursor n k, ap decode_cursor e)

pub next_cursor_given : (n : ℕ) → (next_cursor n == "") ≡ false
next_cursor_given n = ground (arith, eq_iff (next_cursor n) "", next_cursor-ne-nil n)
