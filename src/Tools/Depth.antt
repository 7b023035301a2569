-- ===== src/Tools/Depth.antt =====
-- The depth check is the nesting of the value, computed without a token in sight.
use Prim.Native.Nat.{max}
use mathlib.Core.List.{append_assoc, append-nil}
use mcp_from_scratch.Tools.{
  Token, closing, tokens, item_tokens, field_tokens, depth_loop, too_deep, validate_json_depth,
}
use mcp_from_scratch.Base.{
  ℕ, suc, ◌+◌, ◌≤◌, ◌≡◌, ◌↔◌, List, [], ◌∷◌, ◌++◌, arith, leb, if◌then◌else◌, ok, err,
}
use mcp_from_scratch.Json.{
  Json, null, bool, num, str, arr, obj, Items, nil, cons, Fields, end, field,
}

mutual
  pub nesting : Json → ℕ
  nesting null = 0
  nesting (bool b) = 0
  nesting (num n) = 0
  nesting (str s) = 0
  nesting (arr vs) = suc (item_nesting vs)
  nesting (obj fs) = suc (field_nesting fs)

  pub item_nesting : Items → ℕ
  item_nesting nil = 0
  item_nesting (cons v vs) = max (nesting v) (item_nesting vs)

  pub field_nesting : Fields → ℕ
  field_nesting end = 0
  field_nesting (field k v fs) = max (nesting v) (field_nesting fs)

-- What the loop answers on a value, before the tokens behind it.
abbrev Passes : ℕ → ℕ → ℕ → List Token → List Token → Type 0
Passes limit depth height before rest =
    depth_loop limit depth before
    ≡ (if leb (depth + height) limit then depth_loop limit depth rest else err (too_deep limit))

mutual
  unfolding depth_loop tokens item_tokens field_tokens nesting item_nesting field_nesting

  passes :
      (limit depth : ℕ) (v : Json) (rest : List Token)
      → depth ≤ limit
      → Passes limit depth (nesting v) (tokens v ++ rest) rest
  passes limit depth null rest h = ground arith
  passes limit depth (bool b) rest h = ground arith
  passes limit depth (num n) rest h = ground arith
  passes limit depth (str s) rest h = ground arith
  passes limit depth (arr vs) rest h =
      rw append_assoc (ground (arith, items_walk limit (depth + 1) vs (closing ∷ rest)))
  passes limit depth (obj fs) rest h =
      rw append_assoc (ground (arith, fields_walk limit (depth + 1) fs (closing ∷ rest)))

  items_walk :
      (limit depth : ℕ) (vs : Items) (rest : List Token)
      → depth ≤ limit
      → Passes limit depth (item_nesting vs) (item_tokens vs ++ rest) rest
  items_walk limit depth nil rest h = ground arith
  items_walk limit depth (cons v vs) rest h = rw append_assoc (
      ground (arith, passes limit depth v (item_tokens vs ++ rest), items_walk limit depth vs rest))

  fields_walk :
      (limit depth : ℕ) (fs : Fields) (rest : List Token)
      → depth ≤ limit
      → Passes limit depth (field_nesting fs) (field_tokens fs ++ rest) rest
  fields_walk limit depth end rest h = ground arith
  fields_walk limit depth (field k v fs) rest h = rw append_assoc (
      ground
        (arith, passes limit depth v (field_tokens fs ++ rest), fields_walk limit depth fs rest))

-- A JSON value passes the check exactly if its nesting is within the limit.
pub validate_json_depth_exact :
    (v : Json) (limit : ℕ) → (validate_json_depth v limit ≡ ok tt) ↔ (nesting v ≤ limit)
unfolding validate_json_depth depth_loop
validate_json_depth_exact v limit =
    let p = rw append-nil at (passes limit 0 v [] (omega arith)) in
    ((λ h. ground (arith, p)), (λ h. ground (arith, p)))
