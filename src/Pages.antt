-- ===== src/Pages.antt =====
-- internal/mcpserver/catalogs.go: the pages of the three lists, and their cursors.
pub mod Cursors
use text.Mathlib.Text.{is_lt}
use Prim.Native.String.{compare}
use mcp_from_scratch.Base.Base64.{encode, decode}
use mcp_from_scratch.Base.Decimal.{ℤ, pos, negsuc, codes, format_nat, parse_int}
use mcp_from_scratch.Json.Decode.{string_member}
use mcp_from_scratch.Protocol.Errors.{RpcError, new_error, invalid_params}
use mcp_from_scratch.Metadata.{RequestMeta, decode_params}
use mcp_from_scratch.Envelope.{cacheable_result}
use mcp_from_scratch.Base.{
  ℕ, ◌+◌, ◌-◌, ◌*◌, min, String, Option, none, some, List, [], ◌∷◌, ◌++◌, map, arith, ◌==◌, ltb,
  eqb, if◌then◌else◌, length, take, drop, Map, Result, ok, err, or_fail,
}
use mcp_from_scratch.Base.{◌>>=◌}
use mcp_from_scratch.Json.{Json, str, arr, Fields, Raw, array}

abbrev pub catalog_page_size : ℕ
catalog_page_size = 2

abbrev pub list_ttl_millis : ℕ
list_ttl_millis = 5 * 60 * 1000

bytes_prefix : List ℕ → List ℕ → Option (List ℕ)
bytes_prefix [] bytes = some bytes
bytes_prefix (p ∷ ps) [] = none
bytes_prefix (p ∷ ps) (b ∷ bytes) =
    let rest = bytes_prefix ps bytes in if eqb p b then rest else none

abbrev offset_prefix : List ℕ
offset_prefix = codes "offset:"

bad_cursor : RpcError
bad_cursor = new_error invalid_params "invalid cursor"

offset_of : Option ℤ → Result RpcError ℕ
unfolding bad_cursor
offset_of (some (pos n)) = ok n
offset_of (some (negsuc n)) = err bad_cursor
offset_of none = err bad_cursor

cut_offset : Option (List ℕ) → Result RpcError ℕ
unfolding bad_cursor offset_of
cut_offset none = err bad_cursor
cut_offset (some digits) = offset_of (parse_int digits)

cut_prefix : Option (List ℕ) → Result RpcError ℕ
unfolding bad_cursor cut_offset
cut_prefix none = err bad_cursor
cut_prefix (some bytes) = cut_offset (bytes_prefix offset_prefix bytes)

unfoldable pub decode_cursor : String → Result RpcError ℕ
unfolding cut_prefix bytes_prefix
decode_cursor cursor = if cursor == "" then ok 0 else cut_prefix (decode cursor)

abbrev cursor_of : Option (Fields × RequestMeta) → Option String
cursor_of none = none
cursor_of (some (fields, meta)) = string_member "cursor" fields

unfoldable pub decode_list_offset : Raw → Result RpcError ℕ
unfolding decode_cursor
decode_list_offset raw =
    or_fail (cursor_of (decode_params raw)) (new_error invalid_params "invalid list params")
    >>= decode_cursor

unfoldable pub next_cursor : ℕ → String
next_cursor end_offset = encode (offset_prefix ++ codes (format_nat end_offset))

module _ {A : Type 0} where
  -- The page from an offset, and the cursor of the next, empty behind the last.
  unfoldable pub paginate : List A → ℕ → Result RpcError (List A × String)
  paginate values offset =
      let stop = min (offset + catalog_page_size) (length values) in
      let page = take (stop - offset) (drop offset values) in
      if ltb (length values) offset
      then err (new_error invalid_params "cursor is outside the current list")
      else ok (page, if eqb stop (length values) then "" else next_cursor stop)

-- sort.Slice by a text key; the keys of a map are distinct, so that its order is the only one.
sort_insert {ℓ} : {A : Type ℓ} → String → A → List (String × A) → List (String × A)
sort_insert k a [] = (k, a) ∷ []
sort_insert k a ((j, b) ∷ rest) =
    if is_lt (compare k j) then (k, a) ∷ (j, b) ∷ rest else (j, b) ∷ sort_insert k a rest

sorted {ℓ} : {A : Type ℓ} → Map A → List (String × A)
unfolding sort_insert
sorted [] = []
sorted ((k, a) ∷ m) = sort_insert k a (sorted m)

unfoldable pub snapshot {ℓ} : {A : Type ℓ} → Map A → List A
unfolding sorted
snapshot m = map (λ e. e.1) (sorted m)

abbrev next_member : String → List (String × Json)
next_member next = if next == "" then [] else ("nextCursor", str next) ∷ []

module _ {A : Type 0} where
  -- A list result: the page under its name, then the cursor unless it is empty.
  unfoldable pub list_page : String → (A → Json) → List A → Raw → Result RpcError Json
  list_page name encode_item values raw = do
    offset ← decode_list_offset raw
    found ← paginate values offset
    ok (
        cacheable_result list_ttl_millis
          ((name, arr (array (map encode_item found.0))) ∷ next_member found.1))
