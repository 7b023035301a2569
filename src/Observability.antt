-- ===== src/Observability.antt =====
-- internal/mcpserver/observability.go: the trace fields of a request, its log level, and the removal
-- of secrets from what is logged.
pub mod Redaction
pub mod Gate
use mathlib.Core.Option
use mcp_from_scratch.Base.Decimal.{codes}
use mcp_from_scratch.Base.Regex.{Regex, seq, either, one_of, char, range, times, up_to, matches}
use mcp_from_scratch.Base.Text.{trim_space, split, before, cut, byte_length, lower_codes}
use mcp_from_scratch.Metadata.{RequestMeta, decode_params, log_level_rank}
use mcp_from_scratch.Protocol.Requests.{Notification}
use mcp_from_scratch.Runtime.{RequestRuntime, Situation, Floats, emit_notification}
use mcp_from_scratch.Base.{
  ℕ, String, Bool, true, false, not, ◌&&◌, ◌||◌, Option, none, some, List, [], ◌∷◌, arith, ◌==◌,
  ltb, leb, eqb, if◌then◌else◌, is_some, length, member, get_elem?,
}
use mcp_from_scratch.Json.{
  Json, null, bool, num, str, arr, obj, Items, nil, cons, Fields, end, field, Raw, object,
}

pub record TraceContext : Type 0 where
  pub trace_parent : String
  pub trace_state : String
  pub baggage : String

-- requestObservability
pub record RequestObservability : Type 0 where
  pub trace : TraceContext
  pub log_level : String

hex_digit : Regex
hex_digit = one_of (λ c. range b'0' b'9' c || range b'a' b'f' c)

-- ^00-[0-9a-f]{32}-[0-9a-f]{16}-[0-9a-f]{2}$
trace_parent_pattern : Regex
unfolding hex_digit
trace_parent_pattern = seq (char b'0') (
    seq (char b'0') (
      seq (char b'-') (
        seq (times 32 hex_digit)
          (seq (char b'-') (seq (times 16 hex_digit) (seq (char b'-') (times 2 hex_digit)))))))

key_char : Regex
key_char = one_of (λ c.
    range b'a' b'z' c || range b'0' b'9' c || eqb c b'_' || eqb c b'*' || eqb c b'/' || eqb c b'-')

letter : Regex
letter = one_of (λ c. range b'a' b'z' c)

-- ^(?:[a-z][a-z0-9_*/-]{0,255}|[a-z0-9][a-z0-9_*/-]{0,240}@[a-z][a-z0-9_*/-]{0,13})$
trace_state_key_pattern : Regex
unfolding key_char letter
trace_state_key_pattern = either (seq letter (up_to 255 key_char)) (
    seq (one_of (λ c. range b'a' b'z' c || range b'0' b'9' c))
      (seq (up_to 240 key_char) (seq (char b'@') (seq letter (up_to 13 key_char)))))

abbrev part_is : ℕ → String → List String → Bool
part_is i text parts = elim (get_elem? parts i) [ none ↦ false | some part ↦ part == text ]

unfoldable pub valid_trace_parent : String → String
unfolding trace_parent_pattern split
valid_trace_parent value =
    if value == "" || not (matches trace_parent_pattern value)
    then ""
    else if part_is 1 "00000000000000000000000000000000" (split b'-' value)
        || part_is 2 "0000000000000000" (split b'-' value)
    then ""
    else value

has_line_end : String → Bool
has_line_end value = is_some (cut (λ c. eqb c 13 || eqb c 10) value)

state_chars : List ℕ → Bool
state_chars [] = true
state_chars (c ∷ cs) = not (ltb c 0x20 || ltb 0x7e c || eqb c b',' || eqb c b'=') && state_chars cs

abbrev last_code : ℕ → List ℕ → ℕ
last_code c [] = c
last_code c (d ∷ ds) = last_code d ds

-- A text that is not empty, and its code points.
abbrev state_value : List ℕ → Bool
state_value [] = false
state_value (c ∷ cs) = not (eqb c 32) && not (eqb (last_code c cs) 32) && state_chars (c ∷ cs)

valid_trace_state_value : String → Bool
unfolding state_chars
valid_trace_state_value value = state_value (codes value)

abbrev state_member : List String → Option (String × String) → Option String
state_member seen none = none
state_member seen (some (key, value)) =
    if matches trace_state_key_pattern key && valid_trace_state_value value && not (member key seen)
    then some key
    else none

state_members : List String → List String → Bool
unfolding cut trim_space trace_state_key_pattern valid_trace_state_value
state_members seen [] = true
state_members seen (m ∷ ms) = elim (state_member seen (cut (eqb b'=') (trim_space m))) [
  | none ↦ false
  | some key ↦ state_members (key ∷ seen) ms
]

unfoldable pub valid_trace_state : String → String
unfolding state_members has_line_end byte_length split
valid_trace_state value =
    if value == "" || ltb 512 (byte_length value) || has_line_end value
    then ""
    else if ltb 32 (length (split b',' value))
    then ""
    else if state_members [] (split b',' value)
    then value
    else ""

abbrev baggage_pair : Option (String × String) → Bool
baggage_pair none = false
baggage_pair (some (key, value)) = not (key == "")

baggage_members : List String → Bool
unfolding cut trim_space before
baggage_members [] = true
baggage_members (m ∷ ms) =
    baggage_pair (cut (eqb b'=') (before b';' (trim_space m))) && baggage_members ms

unfoldable pub valid_baggage : String → String
unfolding baggage_members has_line_end byte_length split
valid_baggage value =
    if value == "" || ltb 8192 (byte_length value) || has_line_end value
    then ""
    else if baggage_members (split b',' value)
    then value
    else ""

abbrev observed : RequestMeta → RequestObservability
observed meta = record {
  trace = record {
    trace_parent = valid_trace_parent meta.trace_parent;
    trace_state = valid_trace_state meta.trace_state;
    baggage = valid_baggage meta.baggage;
  };
  log_level = if is_some (log_level_rank meta.log_level) then meta.log_level else "";
}

abbrev observing :
    Option RequestObservability → Option (Fields × RequestMeta) → Option RequestObservability
observing before none = before
observing before (some (fields, meta)) = some (observed meta)

-- The value in the context: what was there stays if the params do not decode.
unfoldable pub with_observability_context :
    Option RequestObservability → Raw → Option RequestObservability
unfolding valid_trace_parent valid_trace_state valid_baggage
with_observability_context before raw = observing before (decode_params raw)

unfoldable pub trace_from_context : Option RequestObservability → TraceContext
trace_from_context none = record { trace_parent = ""; trace_state = ""; baggage = "" }
trace_from_context (some o) = o.trace

unfoldable pub starts : List ℕ → List ℕ → Bool
starts [] t = true
starts (a ∷ s) [] = false
starts (a ∷ s) (b ∷ t) = eqb a b && starts s t

unfoldable pub contains_codes : List ℕ → List ℕ → Bool
unfolding starts
contains_codes [] s = starts s []
contains_codes (b ∷ t) s = starts s (b ∷ t) || contains_codes t s

unfoldable pub any_contained : List ℕ → List String → Bool
unfolding contains_codes
any_contained key [] = false
any_contained key (word ∷ words) = contains_codes key (codes word) || any_contained key words

abbrev without_separators : List ℕ → List ℕ
without_separators [] = []
without_separators (c ∷ cs) =
    let rest = without_separators cs in if eqb c b'_' || eqb c b'-' then rest else c ∷ rest

abbrev sensitive_words : List String
sensitive_words =
    "authorization" ∷ "token" ∷ "password" ∷ "secret" ∷ "requeststate" ∷ "arguments" ∷ []

unfoldable pub sensitive_log_key : String → Bool
unfolding any_contained lower_codes
sensitive_log_key key = any_contained (without_separators (lower_codes key)) sensitive_words

abbrev pub redacted_value : Json
redacted_value = str "[REDACTED]"

unfoldable mutual
  pub redact_json_value : Json → Json
  redact_json_value null = null
  redact_json_value (bool b) = bool b
  redact_json_value (num n) = num n
  redact_json_value (str s) = str s
  redact_json_value (arr vs) = arr (redact_items vs)
  redact_json_value (obj fs) = obj (redact_fields fs)

  pub redact_items : Items → Items
  redact_items nil = nil
  redact_items (cons v vs) = cons (redact_json_value v) (redact_items vs)

  pub redact_fields : Fields → Fields
  redact_fields end = end
  redact_fields (field k v fs) =
      field k (if sensitive_log_key k then redacted_value else redact_json_value v)
        (redact_fields fs)

-- `none` is a value that json.Marshal refuses.
unfoldable pub redact_value : Raw → Json
unfolding redact_json_value redact_items redact_fields
redact_value none = redacted_value
redact_value (some v) = redact_json_value v

unfoldable pub log_notification : String → String → Raw → Notification
unfolding redact_value
log_notification level logger detail = record {
  jsonrpc = "2.0";
  method = "notifications/message";
  params = some (
      obj (
        object
          (("level", str level) ∷ ("logger", str logger) ∷ ("data", redact_value detail) ∷ [])));
}

abbrev at_most : Option ℕ → Option ℕ → Bool
at_most (some wanted) (some actual) = leb wanted actual
at_most (some wanted) none = false
at_most none actual = false

-- Whether the request asked for messages of the level.
unfoldable pub log_enabled : Option RequestObservability → String → Bool
log_enabled none level = false
log_enabled (some o) level =
    not (o.log_level == "") && at_most (log_level_rank o.log_level) (log_level_rank level)

module _ {F : Type 0} (floats : Floats F) where
  unfoldable pub log :
      Situation
      → Option RequestObservability
      → String
      → String
      → Raw
      → Option (RequestRuntime F)
      → Bool × Option (RequestRuntime F)
  unfolding log_enabled log_notification emit_notification
  log at o level logger detail r =
      if not at.given || not (log_enabled o level)
      then (false, r)
      else emit_notification floats at (log_notification level logger detail) r
