-- ===== src/Host/Discovery.antt =====
-- internal/host/compatibility.go: what an answer to server/discover says. time.Parse is written out
-- for the layout 2006-01-02.
pub mod Meaning
use mcp_from_scratch.Base.Decimal.{is_digit, pos, codes}
use mcp_from_scratch.Protocol.Ids.{RequestId, number}
use mcp_from_scratch.Host.Client.{Answer}
use mcp_from_scratch.Json.Decode.{
  as_struct, string_member, map_member, struct_member, strings_member, ◌>>=◌ as and_then,
}
use mcp_from_scratch.Base.{
  ℕ, ◌+◌, ◌-◌, ◌*◌, ◌%◌, String, Bool, false, not, ◌&&◌, ◌||◌, Option, none, some, List, [], ◌∷◌,
  ◌==◌, leb, eqb, if◌then◌else◌, is_some, member,
}
use mcp_from_scratch.Json.{Raw}

abbrev equals : Option RequestId → ℕ → Bool
equals (some (number (pos n))) value = eqb n value
equals _ value = false

-- integerIDEquals
unfoldable pub integer_id_equals : Option RequestId → ℕ → Bool
integer_id_equals id value = equals id value

unfoldable pub valid_discovery_envelope : Answer → ℕ → Bool
unfolding integer_id_equals
valid_discovery_envelope answer id =
    answer.jsonrpc == "2.0" && integer_id_equals answer.id id && not (is_some answer.error)

unfoldable pub valid_rpc_error_envelope : Answer → ℕ → Bool
unfolding integer_id_equals
valid_rpc_error_envelope answer id =
    answer.jsonrpc == "2.0" && integer_id_equals answer.id id && is_some answer.error

pub record Discovered : Type 0 where
  pub result_type : String
  pub supported_versions : List String
  pub has_capabilities : Bool
  pub server_name : String
  pub server_version : String

decode_modern : Raw → Option Discovered
decode_modern raw = and_then (as_struct raw) λ fields.
    and_then (string_member "resultType" fields) λ type.
      and_then (strings_member "supportedVersions" fields) λ versions.
        and_then (map_member "capabilities" fields) λ capabilities.
          and_then (struct_member "_meta" fields) λ meta.
            and_then (struct_member "io.modelcontextprotocol/serverInfo" meta) λ info.
              and_then (string_member "name" info) λ name.
                and_then (string_member "version" info) λ version. some (record {
                  result_type = type;
                  supported_versions = versions;
                  has_capabilities = is_some capabilities;
                  server_name = name;
                  server_version = version;
                })

abbrev announces : String → Option Discovered → Bool
announces requested none = false
announces requested (some d) =
    d.result_type == "complete"
    && d.has_capabilities
    && not (d.server_name == "")
    && not (d.server_version == "")
    && member requested d.supported_versions

unfoldable pub valid_modern_discovery : Raw → String → Bool
unfolding decode_modern
valid_modern_discovery raw requested = announces requested (decode_modern raw)

pub record Initialized : Type 0 where
  pub protocol_version : String
  pub has_capabilities : Bool
  pub server_name : String
  pub server_version : String

decode_initialized : Raw → Option Initialized
decode_initialized raw = and_then (as_struct raw) λ fields.
    and_then (string_member "protocolVersion" fields) λ protocol.
      and_then (map_member "capabilities" fields) λ capabilities.
        and_then (struct_member "serverInfo" fields) λ info.
          and_then (string_member "name" info) λ name.
            and_then (string_member "version" info) λ version. some (record {
              protocol_version = protocol;
              has_capabilities = is_some capabilities;
              server_name = name;
              server_version = version;
            })

abbrev two : ℕ → ℕ → Option ℕ
two a b = if is_digit a && is_digit b then some ((a - 48) * 10 + (b - 48)) else none

is_leap : ℕ → Bool
is_leap y = eqb (y % 4) 0 && (not (eqb (y % 100) 0) || eqb (y % 400) 0)

days_in : ℕ → ℕ → ℕ
unfolding is_leap
days_in y m =
    if eqb m 2
    then (if is_leap y then 29 else 28)
    else if eqb m 4 || eqb m 6 || eqb m 9 || eqb m 11
    then 30
    else 31

-- Year, month and day as one number, if they are a date.
abbrev date_of : ℕ → ℕ → ℕ → Option ℕ
date_of y m d =
    if leb 1 m && leb m 12 && leb 1 d && leb d (days_in y m)
    then some (y * 10000 + m * 100 + d)
    else none

abbrev date_codes : List ℕ → Option ℕ
date_codes (a ∷ b ∷ c ∷ d ∷ h ∷ e ∷ f ∷ i ∷ g ∷ j ∷ []) =
    if eqb h b'-' && eqb i b'-'
    then (and_then (two a b) λ century. and_then (two c d) λ years.
        and_then (two e f)
          λ month. and_then (two g j) λ day. date_of (century * 100 + years) month day)
    else none
date_codes _ = none

-- time.Parse("2006-01-02", s)
unfoldable pub parse_date : String → Option ℕ
unfolding days_in is_digit
parse_date s = date_codes (codes s)

abbrev not_after : Option ℕ → Bool
not_after none = false
not_after (some date) = leb date 20251125

abbrev is_legacy : Option Initialized → Bool
is_legacy none = false
is_legacy (some i) =
    not_after (parse_date i.protocol_version)
    && i.has_capabilities
    && not (i.server_name == "")
    && not (i.server_version == "")

unfoldable pub valid_legacy_discovery : Raw → Bool
unfolding decode_initialized parse_date
valid_legacy_discovery raw = is_legacy (decode_initialized raw)

abbrev is_initialized : Option Initialized → Bool
is_initialized none = false
is_initialized (some i) =
    not (i.protocol_version == "") && i.has_capabilities && not (i.server_name == "")

unfoldable pub valid_legacy_initialize_result : Raw → Bool
unfolding decode_initialized
valid_legacy_initialize_result raw = is_initialized (decode_initialized raw)

abbrev pub first_common : String → List String → List String → Option String
first_common requested advertised [] = none
first_common requested advertised (v ∷ supported) =
    let rest = first_common requested advertised supported in
    if v == requested then rest else if member v advertised then some v else rest

-- Absent data are marshalled as null.
unfoldable pub advertised : Raw → Option (List String)
advertised none = some []
advertised (some v) = and_then (as_struct (some v)) λ fields. strings_member "supported" fields

abbrev pub common_in : Option (List String) → List String → String → Option String
common_in none supported requested = none
common_in (some versions) supported requested = first_common requested versions supported

unfoldable pub advertised_common_version : Raw → List String → String → Option String
unfolding advertised
advertised_common_version detail supported requested =
    common_in (advertised detail) supported requested
