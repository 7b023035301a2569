-- ===== src/Protocol/Extensions.antt =====
-- internal/protocol/extensions.go: the negotiation of namespaced extensions.
use mcp_from_scratch.Base.Regex.{Regex, seq, many, char, some_of, one_of, range, matches}
use mcp_from_scratch.Protocol.Errors.{Message, quoting}
use mcp_from_scratch.Base.{
  ℕ, String, ◌≡◌, refl, Bool, true, false, not, ◌||◌, none, [], ◌∷◌, arith, eq_iff, eqb,
  if◌then◌else◌, is_some, Map, lookup, Result, ok, err,
}
use mcp_from_scratch.Json.{Json, obj}

abbrev pub Extensions : Type 0
Extensions = Map Json

lower : ℕ → Bool
lower c = range b'a' b'z' c

digit : ℕ → Bool
digit c = range b'0' b'9' c

-- ^[a-z][a-z0-9-]*(?:\.[a-z][a-z0-9-]*)+/[a-z][a-z0-9]*(?:[._-][a-z0-9]+)*$
extension_id_pattern : Regex
unfolding lower digit
extension_id_pattern =
    seq label (seq (some_of (seq (char b'.') label)) (seq (char b'/') (seq name (many suffix))))
  where
    label : Regex
    label = seq (one_of lower) (many (one_of (λ c. lower c || digit c || eqb c b'-')))

    name : Regex
    name = seq (one_of lower) (many (one_of (λ c. lower c || digit c)))

    suffix : Regex
    suffix =
        seq (one_of (λ c. eqb c b'.' || eqb c b'_' || eqb c b'-'))
          (some_of (one_of (λ c. lower c || digit c)))

unfoldable pub valid_extension_id : String → Bool
unfolding extension_id_pattern
valid_extension_id id = matches extension_id_pattern id

-- A settings value decodes into a map, and is not null.
abbrev pub is_object : Json → Bool
is_object (obj fs) = true
is_object _ = false

unfoldable pub validate : Extensions → Result Message (Unit {0})
validate [] = ok tt
validate ((id, settings) ∷ rest) =
    let next = validate rest in
    if not (valid_extension_id id)
    then err (quoting "invalid extension identifier " id "")
    else if not (is_object settings)
    then err (quoting "extension " id " settings must be a JSON object")
    else next

-- The loop ranges over the server's settings.
unfoldable pub intersect_extensions : Extensions → Extensions → Extensions
intersect_extensions client [] = []
intersect_extensions client ((id, settings) ∷ server) =
    let rest = intersect_extensions client server in
    if is_some (lookup id client) then (id, settings) ∷ rest else rest

-- What is negotiated is what both sides offer, with the server's settings.
lookup-intersect_extensions :
    (client server : Extensions) (id : String)
    → lookup id (intersect_extensions client server)
      ≡ (if is_some (lookup id client) then lookup id server else none)
unfolding intersect_extensions lookup
lookup-intersect_extensions client [] id = ground arith
lookup-intersect_extensions client ((j, v) ∷ server) id =
    ground (arith, eq_iff j id, lookup-intersect_extensions client server id)

abbrev IsValid : Extensions → Type 0
IsValid extensions = validate extensions ≡ ok tt

-- Negotiation keeps validity, whatever the client offers.
intersect_extensions-IsValid :
    (client server : Extensions)
    → validate server ≡ ok tt
    → validate (intersect_extensions client server) ≡ ok tt
unfolding intersect_extensions validate
intersect_extensions-IsValid client [] h = refl
intersect_extensions-IsValid client ((j, v) ∷ server) h =
    ground (arith, intersect_extensions-IsValid client server)
