-- ===== src/Json.antt =====
-- JSON as encoding/json holds it once a text is parsed: what a `json.RawMessage`, an `any` or a
-- `map[string]any` of the program stands for. A number keeps its literal, as `json.Number` does.
-- Objects are read by key; the parser's handling of repeated keys and of letter case is not
-- modelled.
pub mod Decode
use mcp_from_scratch.Base.{
  String, ◌==◌, Bool, true, false, Option, none, some, List, [], ◌∷◌, if◌then◌else◌,
}

mutual
  pub data Json : Type 0 where
    null : Json
    bool : Bool → Json
    num : String → Json
    str : String → Json
    arr : Items → Json
    obj : Fields → Json

  pub data Items : Type 0 where
    nil : Items
    cons : Json → Items → Items

  pub data Fields : Type 0 where
    end : Fields
    field : String → Json → Fields → Fields

-- A Go `json.RawMessage` that may be empty: an absent member is `none`.
abbrev pub Raw : Type 0
Raw = Option Json

abbrev pub object : List (String × Json) → Fields
object [] = end
object ((k, v) ∷ fs) = field k v (object fs)

abbrev pub array : List Json → Items
array [] = nil
array (v ∷ vs) = cons v (array vs)

abbrev pub strings : List String → Items
strings [] = nil
strings (s ∷ ss) = cons (str s) (strings ss)

unfoldable pub get : String → Fields → Option Json
get k end = none
get k (field j v fs) = if j == k then some v else get k fs

-- fields[k] = v
unfoldable pub put : String → Json → Fields → Fields
put k v end = field k v end
put k v (field j w fs) = if j == k then field k v fs else field j w (put k v fs)

-- delete(fields, k)
unfoldable pub delete : String → Fields → Fields
delete k end = end
delete k (field j v fs) = let rest = delete k fs in if j == k then rest else field j v rest

-- A member with `omitempty`: left out if its text is empty.
abbrev pub omit_empty : String → String → Fields → Fields
omit_empty k s fs = if s == "" then fs else field k (str s) fs

-- len(object) == 0
abbrev pub is_empty : Fields → Bool
is_empty end = true
is_empty (field k v fs) = false
