-- ===== src/Host/Oauth/Challenge/Scopes.antt =====
-- unionScopes of internal/host/oauth.go: the scopes that a token is asked for.
use text.Mathlib.TextEquality.{path_by_compare}
use mcp_from_scratch.Host.Oauth.Challenge.{insert_scope, scope_set, union_scopes}
use mcp_from_scratch.Base.{
  String, ◌≡◌, refl, not, ◌&&◌, ◌||◌, List, [], ◌∷◌, ◌++◌, arith, ◌==◌, eq_iff, member,
}

member-insert_scope :
    (t v : String) (xs : List String) → member t (insert_scope v xs) ≡ (v == t || member t xs)
unfolding insert_scope
member-insert_scope t v [] = refl
member-insert_scope t v (x ∷ xs) =
    ground
      (arith, member-insert_scope t v xs, path_by_compare v x, eq_iff v t, eq_iff x t, eq_iff v x)

member-scope_set :
    (t : String) (vs : List String) → member t (scope_set vs) ≡ (not (t == "") && member t vs)
unfolding scope_set
member-scope_set t [] = ground arith
member-scope_set t (v ∷ vs) = ground (
  arith,
  member-scope_set t vs,
  member-insert_scope t v (scope_set vs),
  eq_iff v t,
  eq_iff v "",
  eq_iff t "",
)

member-append :
    (t : String) (xs ys : List String) → member t (xs ++ ys) ≡ (member t xs || member t ys)
member-append t [] ys = refl
member-append t (x ∷ xs) ys = ground (arith, member-append t xs ys)

-- A scope is asked for if it is not empty and either the caller or the challenge names it.
pub member-union_scopes :
    (t : String) (left right : List String)
    → member t (union_scopes left right) ≡ (not (t == "") && (member t left || member t right))
unfolding union_scopes
member-union_scopes t left right =
    ground (arith, member-scope_set t (left ++ right), member-append t left right)
