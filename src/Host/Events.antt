-- ===== src/Host/Events.antt =====
-- readSSEData of internal/host/subscriptions.go, and the writer of internal/mcpserver/http.go that it
-- reads from. A reader is what is left of its input, cut at the line ends: the last piece is the one
-- that no line end follows.
pub mod RoundTrip
use Prim.Native.Char.{code}
use mcp_from_scratch.Protocol.Errors.{Message, plain}
use mcp_from_scratch.Base.Text.{in_front, split}
use mcp_from_scratch.Base.{
  String, Bool, true, false, not, ◌&&◌, Option, none, some, List, [], ◌∷◌, ◌++◌, arith, ◌==◌, eqb,
  if◌then◌else◌, Result, ok, err,
}

-- strings.TrimSuffix(line, "\r")
unfoldable pub trim_return : String → String
trim_return String.[] = ""
trim_return (String.◌∷◌ c s) =
    let rest = trim_return s in if s == "" && eqb (code c) 13 then "" else String.◌∷◌ c rest

-- strings.CutPrefix
unfoldable pub strip_prefix : String → String → Option String
strip_prefix String.[] s = some s
strip_prefix (String.◌∷◌ p ps) String.[] = none
strip_prefix (String.◌∷◌ p ps) (String.◌∷◌ c s) =
    let rest = strip_prefix ps s in if eqb (code p) (code c) then rest else none

-- strings.Join(lines, "\n")
unfoldable pub join_lines : List String → String
join_lines [] = ""
join_lines (l ∷ ls) =
    let rest = join_lines ls in elim ls [ [] ↦ l | _ ∷ _ ↦ in_front l (String.◌∷◌ "\n" rest) ]

abbrev one_space : Option String → String → String
one_space (some s) whole = s
one_space none whole = whole

abbrev with_value : List String → Option String → List String
with_value found none = found
with_value found (some value) = found ++ one_space (strip_prefix " " value) value ∷ []

-- The lines of data with those of one more line.
add_line : List String → String → List String
unfolding strip_prefix
add_line found line = with_value found (strip_prefix "data:" line)

abbrev is_nil : List String → Bool
is_nil [] = true
is_nil (l ∷ ls) = false

abbrev end_of_input : Message
end_of_input = plain "EOF"

-- The last piece: reading it ends with an error, which counts if there is no data.
last_line : List String → String → Result Message (String × List String)
unfolding add_line trim_return join_lines
last_line found piece =
    if piece == ""
    then err end_of_input
    else if trim_return piece == "" && not (is_nil found)
    then ok (join_lines found, "" ∷ [])
    else if is_nil (add_line found (trim_return piece))
    then err end_of_input
    else ok (join_lines (add_line found (trim_return piece)), "" ∷ [])

-- The data of the next event, and the reader behind it.
unfoldable pub read_from : List String → List String → Result Message (String × List String)
unfolding last_line add_line trim_return join_lines
read_from found [] = err end_of_input
read_from found (piece ∷ []) = last_line found piece
read_from found (piece ∷ next ∷ pieces) =
    let rest = read_from (add_line found (trim_return piece)) (next ∷ pieces) in
    if trim_return piece == "" && not (is_nil found)
    then ok (join_lines found, next ∷ pieces)
    else rest

unfoldable pub read_sse_data : List String → Result Message (String × List String)
unfolding read_from
read_sse_data pieces = read_from [] pieces

-- bufio.NewReader
unfoldable pub new_reader : String → List String
unfolding split
new_reader input = split 10 input

-- What writeSSEMessage writes for the text of a message.
unfoldable pub write_sse_message : String → String
write_sse_message payload = in_front "data: " (in_front payload "\n\n")
