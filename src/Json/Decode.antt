-- ===== src/Json/Decode.antt =====
-- What json.Unmarshal makes of a parsed value for the struct members that the program declares:
-- `none` is a type error, an absent or null member leaves the zero value.
use mcp_from_scratch.Base.Decimal.{ℤ, pos, codes, parse_int}
use mcp_from_scratch.Base.{String, Bool, false, Option, none, some, List, [], ◌∷◌}
use mcp_from_scratch.Json.{null, bool, num, str, arr, obj, Items, nil, cons, Fields, end, Raw, get}

infixl 5 ◌>>=◌
abbrev pub ◌>>=◌ {ℓ κ} : {A : Type ℓ} {B : Type κ} → Option A → (A → Option B) → Option B
none >>= f = none
some a >>= f = f a

-- An empty message is a syntax error; null is an object with no member for a struct or a map.
unfoldable pub as_struct : Raw → Option Fields
as_struct (some null) = some end
as_struct (some (obj fs)) = some fs
as_struct _ = none

abbrev as_string : Raw → Option String
as_string none = some ""
as_string (some null) = some ""
as_string (some (str s)) = some s
as_string (some _) = none

unfoldable pub string_member : String → Fields → Option String
string_member k fs = as_string (get k fs)

abbrev as_bool : Raw → Option Bool
as_bool none = some false
as_bool (some null) = some false
as_bool (some (bool b)) = some b
as_bool (some _) = none

unfoldable pub bool_member : String → Fields → Option Bool
bool_member k fs = as_bool (get k fs)

abbrev as_map : Raw → Option (Option Fields)
as_map none = some none
as_map (some null) = some none
as_map (some (obj fs)) = some (some fs)
as_map (some _) = none

-- A map or a pointer to a struct: nil (`none`) if absent or null.
unfoldable pub map_member : String → Fields → Option (Option Fields)
map_member k fs = as_map (get k fs)

abbrev pub members : Option Fields → Fields
members none = end
members (some fs) = fs

-- A struct held by value: its zero value if absent or null.
unfoldable pub struct_member : String → Fields → Option Fields
unfolding map_member
struct_member k fs = do found ← map_member k fs; some (members found)

pub string_items : Items → Option (List String)
string_items nil = some []
string_items (cons (str s) vs) = do rest ← string_items vs; some (s ∷ rest)
string_items (cons null vs) = do rest ← string_items vs; some ("" ∷ rest)
string_items (cons _ vs) = none

abbrev as_strings : Raw → Option (List String)
as_strings none = some []
as_strings (some null) = some []
as_strings (some (arr vs)) = string_items vs
as_strings (some _) = none

-- A member of type []string; nil and the empty slice are both `[]`.
unfoldable pub strings_member : String → Fields → Option (List String)
unfolding string_items
strings_member k fs = as_strings (get k fs)

-- An int: 0 if absent or null.
abbrev pub integer_member : Raw → Option ℤ
integer_member none = some (pos 0)
integer_member (some null) = some (pos 0)
integer_member (some (num literal)) = parse_int (codes literal)
integer_member (some _) = none
