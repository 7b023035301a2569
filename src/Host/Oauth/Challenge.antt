-- ===== src/Host/Oauth/Challenge.antt =====
-- internal/host/oauth.go: the WWW-Authenticate challenges of a response, and the scopes.
-- strings.ToLower is written out for the letters whose lower case is in ASCII.
pub mod Parts
pub mod Scopes
use Prim.Native.Char.{code}
use Prim.Native.Nat.{Ordering}
use mathlib.Core.Option
use Prim.Native.String.{compare}
use mcp_from_scratch.Protocol.Errors.{Message, plain, quoting}
use mcp_from_scratch.Base.Text.{trim_space, equal_fold, words, cut, lower_codes, push_front}
use mcp_from_scratch.Base.Decimal.{codes}
use mcp_from_scratch.Base.{
  ℕ, String, Bool, true, false, not, ◌&&◌, ◌||◌, Option, none, some, List, [], ◌∷◌, ◌++◌, map,
  arith, ◌==◌, leb, eqb, if◌then◌else◌, is_some, member, Map, lookup, insert, Result, ok, err,
}
use mcp_from_scratch.Base.{◌>>=◌}

abbrev malformed : Message
malformed = plain "malformed Bearer challenge"

-- The pieces of a header between the commas outside quoted texts, from a state of the scan; `none`
-- if a quoted text is not ended.
unfoldable pub pieces : Bool → Bool → String → Option (List String)
pieces quoted escaped String.[] = if quoted || escaped then none else some ("" ∷ [])
pieces quoted true (String.◌∷◌ c s) = Option.map (push_front c) (pieces quoted false s)
pieces true false (String.◌∷◌ c s) =
    let ended = Option.map (push_front c) (pieces false false s) in
    let escape = Option.map (push_front c) (pieces true true s) in
    let inside = Option.map (push_front c) (pieces true false s) in
    if eqb (code c) 0x5c then escape else if eqb (code c) 0x22 then ended else inside
pieces false false (String.◌∷◌ c s) =
    let quoting = Option.map (push_front c) (pieces true false s) in
    let next = Option.map (λ ps. "" ∷ ps) (pieces false false s) in
    let outside = Option.map (push_front c) (pieces false false s) in
    if eqb (code c) 0x22 then quoting else if eqb (code c) 0x2c then next else outside

abbrev trimmed : Option (List String) → Result Message (List String)
trimmed none = err malformed
trimmed (some parts) = ok (map trim_space parts)

unfoldable pub split_auth_params : String → Result Message (List String)
unfolding pieces
split_auth_params value = if value == "" then ok [] else trimmed (pieces false false value)

token_symbols : List ℕ
token_symbols = codes "!#$%&'*+-.^_`|~"

abbrev elem : ℕ → List ℕ → Bool
elem n [] = false
elem n (x ∷ xs) = eqb x n || elem n xs

token_char : ℕ → Bool
unfolding token_symbols
token_char c = (leb b'a' c && leb c b'z') || (leb b'0' c && leb c b'9') || elem c token_symbols

all_token_chars : List ℕ → Bool
unfolding token_char
all_token_chars [] = true
all_token_chars (c ∷ cs) = token_char c && all_token_chars cs

-- The code points are those of a text in lower case.
unfoldable pub valid_auth_token : List ℕ → Bool
unfolding all_token_chars
valid_auth_token [] = false
valid_auth_token (c ∷ cs) = all_token_chars (c ∷ cs)

is_blank : ℕ → Bool
is_blank c = eqb c 32 || eqb c 9

abbrev named : Option (String × String) → Option (String × String)
named none = none
named (some (name, rest)) =
    if is_some (cut (eqb b'=') name)
    then none
    else if valid_auth_token (lower_codes name)
    then some (name, trim_space rest)
    else none

-- The scheme that a part names and what follows it.
unfoldable pub split_challenge_start : String → Option (String × String)
unfolding cut is_blank valid_auth_token lower_codes
split_challenge_start value = named (cut is_blank (trim_space value))

same_codes : List ℕ → List ℕ → Bool
same_codes [] [] = true
same_codes (a ∷ s) (b ∷ t) = eqb a b && same_codes s t
same_codes _ _ = false

-- The parameters of the one Bearer challenge that is met, and whether it is the current one.
pub record Scan : Type 0 where
  pub bearer : Option (List String)
  pub current : Bool

abbrev params : Option (List String) → List String
params none = []
params (some ps) = ps

abbrev begin_challenge : String → String → Scan → Result Message Scan
begin_challenge name rest scan =
    if not (equal_fold name "Bearer")
    then ok (record scan { current = false })
    else if is_some scan.bearer
    then err (plain "multiple Bearer challenges")
    else ok (record { bearer = some (if rest == "" then [] else rest ∷ []); current = true })

abbrev scan_started : String → Scan → Option (String × String) → Result Message Scan
scan_started part scan (some (name, rest)) = begin_challenge name rest scan
scan_started part scan none =
    if scan.current
    then ok (record scan { bearer = some (params scan.bearer ++ part ∷ []) })
    else ok scan

unfoldable pub scan_part : String → Scan → Result Message Scan
unfolding split_challenge_start equal_fold
scan_part part scan = scan_started part scan (split_challenge_start part)

scan_parts : List String → Scan → Result Message Scan
unfolding scan_part
scan_parts [] scan = ok scan
scan_parts (part ∷ parts) scan = do next ← scan_part part scan; scan_parts parts next

unfoldable pub scan_values :
    List String → Option (List String) → Result Message (Option (List String))
unfolding scan_parts split_auth_params
scan_values [] bearer = ok bearer
scan_values (value ∷ values) bearer = do
  parts ← split_auth_params value
  scan ← scan_parts parts (record { bearer = bearer; current = false })
  scan_values values scan.bearer

module _ (unquote : String → Option String) where
  abbrev unquoted : Option String → Result Message String
  unquoted none = err malformed
  unquoted (some s) = ok s

  quoted_value : String → Bool
  quoted_value String.[] = false
  quoted_value (String.◌∷◌ c s) = eqb (code c) 0x22

  unfoldable pub param_value : String → Result Message String
  unfolding quoted_value cut
  param_value raw =
      if quoted_value raw
      then unquoted (unquote raw)
      else if is_some (cut (λ c. eqb c 32 || eqb c 9 || eqb c b',') raw)
      then err malformed
      else ok raw

  abbrev once : String → String → Map String → Result Message (Map String)
  once key value critical =
      if is_some (lookup key critical)
      then err (quoting "duplicate Bearer challenge parameter " key "")
      else ok (insert key value critical)

  -- The two parameters that the client uses, under their names.
  add_param : List ℕ → String → Map String → Result Message (Map String)
  add_param name value critical =
      if same_codes name (codes "resource_metadata")
      then once "resource_metadata" value critical
      else if same_codes name (codes "scope")
      then once "scope" value critical
      else ok critical

  abbrev read_pair : Option (String × String) → Map String → Result Message (Map String)
  read_pair none critical = err malformed
  read_pair (some (left, right)) critical =
      let name = lower_codes (trim_space left) in
      if valid_auth_token name
      then (param_value (trim_space right) >>= λ value. add_param name value critical)
      else err malformed

  unfoldable pub read_params : List String → Map String → Result Message (Map String)
  unfolding add_param same_codes param_value lower_codes cut valid_auth_token
  read_params [] critical = ok critical
  read_params (param ∷ params) critical =
      read_pair (cut (eqb b'=') param) critical >>= λ next. read_params params next

  abbrev or_empty : Option String → String
  or_empty none = ""
  or_empty (some s) = s

  abbrev read_bearer : Option (List String) → Result Message (String × List String)
  read_bearer none = err (plain "oauth response did not contain a Bearer challenge")
  read_bearer (some params) = do
    critical ← read_params params []
    ok (or_empty (lookup "resource_metadata" critical), words (or_empty (lookup "scope" critical)))

  -- The URL of the metadata and the scopes that the challenges of a response name.
  unfoldable pub parse_bearer_challenges : List String → Result Message (String × List String)
  unfolding scan_values read_params words
  parse_bearer_challenges [] = ok ("", [])
  parse_bearer_challenges (value ∷ values) = do
    bearer ← scan_values (value ∷ values) none
    read_bearer bearer

-- A set of texts in the order of sort.Strings.
unfoldable pub insert_scope : String → List String → List String
insert_scope v [] = v ∷ []
insert_scope v (x ∷ xs) =
    let rest = insert_scope v xs in
    elim (compare v x) [ Ordering.lt ↦ v ∷ x ∷ xs | Ordering.eq ↦ x ∷ xs | Ordering.gt ↦ x ∷ rest ]

unfoldable pub scope_set : List String → List String
unfolding insert_scope
scope_set [] = []
scope_set (v ∷ vs) = let rest = scope_set vs in if v == "" then rest else insert_scope v rest

unfoldable pub union_scopes : List String → List String → List String
unfolding scope_set
union_scopes left right = scope_set (left ++ right)

unfoldable pub contains_all : List String → List String → Bool
contains_all have [] = true
contains_all have (v ∷ want) = member v have && contains_all have want
