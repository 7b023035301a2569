-- ===== src/Host/Discovery/Meaning.antt =====
-- What an answer to server/discover says when internal/host/compatibility.go takes it for a modern or
-- for an old description.
use mcp_from_scratch.Json.Decode.{
  as_struct, string_member, map_member, struct_member, strings_member, ◌>>=◌ as and_then,
}
use mcp_from_scratch.Host.Discovery.{
  Discovered, Initialized, decode_modern, announces, valid_modern_discovery, decode_initialized,
  parse_date, not_after, is_legacy, valid_legacy_discovery,
}
use mcp_from_scratch.Base.{
  ℕ, ◌≤◌, String, ◌≡◌, refl, ap, ◌∙◌, ◌≢◌, true, false, Option, none, some, List, arith, is_some,
  ◌==◌, eq_iff, member,
}
use mcp_from_scratch.Json.{Raw, Fields}

-- The members of a server's description of itself: a name and a version, neither empty.
pub record Introduces (info : Fields) : Type 0 where
  pub name : String
  pub version : String
  pub has_name : string_member "name" info ≡ some name
  pub has_version : string_member "version" info ≡ some version
  pub named : name ≢ ""
  pub versioned : version ≢ ""

-- A complete result that lists the version, with capabilities, of a server that tells in the metadata
-- who it is.
pub record Announces (raw : Raw) (version : String) : Type 0 where
  pub fields : Fields
  pub versions : List String
  pub capabilities : Fields
  pub meta : Fields
  pub info : Fields
  pub is_object : as_struct raw ≡ some fields
  pub complete : string_member "resultType" fields ≡ some "complete"
  pub has_versions : strings_member "supportedVersions" fields ≡ some versions
  pub listed : member version versions ≡ true
  pub has_capabilities : map_member "capabilities" fields ≡ some (some capabilities)
  pub has_meta : struct_member "_meta" fields ≡ some meta
  pub has_info : struct_member "io.modelcontextprotocol/serverInfo" meta ≡ some info
  pub introduced : Introduces info

-- A result of an old initialize: a version that is a date of at most 2025-11-25, capabilities, and a
-- server that tells who it is.
pub record Dates (raw : Raw) : Type 0 where
  pub fields : Fields
  pub version : String
  pub date : ℕ
  pub capabilities : Fields
  pub info : Fields
  pub is_object : as_struct raw ≡ some fields
  pub has_version : string_member "protocolVersion" fields ≡ some version
  pub dated : parse_date version ≡ some date
  pub not_later : date ≤ 20251125
  pub has_capabilities : map_member "capabilities" fields ≡ some (some capabilities)
  pub has_info : struct_member "serverInfo" fields ≡ some info
  pub introduced : Introduces info

then-some :
    {A B : Type 0} (o : Option A) (f : A → Option B) (b : B)
    → and_then o f ≡ some b
    → (a : A) × (o ≡ some a) × (f a ≡ some b)
then-some none f b h = cc
then-some (some a) f b h = (a, refl, h)

given : {A : Type 0} (o : Option A) → is_some o ≡ true → (a : A) × (o ≡ some a)
given none h = cc
given (some a) h = (a, refl)

announces-some :
    (version : String) (o : Option Discovered)
    → announces version o ≡ true
    → (d : Discovered) × (o ≡ some d) × (announces version (some d) ≡ true)
announces-some version none h = cc
announces-some version (some d) h = (d, refl, h)

is_legacy-some :
    (o : Option Initialized)
    → is_legacy o ≡ true
    → (i : Initialized) × (o ≡ some i) × (is_legacy (some i) ≡ true)
is_legacy-some none h = cc
is_legacy-some (some i) h = (i, refl, h)

not_after-some :
    (o : Option ℕ) → not_after o ≡ true → (date : ℕ) × (o ≡ some date) × (date ≤ 20251125)
not_after-some none h = cc
not_after-some (some date) h = (date, refl, ground arith)

introduces :
    (info : Fields) (name version : String)
    → string_member "name" info ≡ some name
    → string_member "version" info ≡ some version
    → (name == "") ≡ false
    → (version == "") ≡ false
    → Introduces info
introduces info name version n v named versioned = record {
  name = name;
  version = version;
  has_name = n;
  has_version = v;
  named = λ e. ground (arith, eq_iff name "");
  versioned = λ e. ground (arith, eq_iff version "");
}

described :
    (version : String) (d : Discovered)
    → announces version (some d) ≡ true
    → (d.result_type ≡ "complete")
      × (d.has_capabilities ≡ true)
      × ((d.server_name == "") ≡ false)
      × ((d.server_version == "") ≡ false)
      × (member version d.supported_versions ≡ true)
described version d h = (
  ground (arith, eq_iff d.result_type "complete"),
  ground arith,
  ground arith,
  ground arith,
  ground arith,
)

initialized :
    (i : Initialized)
    → is_legacy (some i) ≡ true
    → (not_after (parse_date i.protocol_version) ≡ true)
      × (i.has_capabilities ≡ true)
      × ((i.server_name == "") ≡ false)
      × ((i.server_version == "") ≡ false)
initialized i h = (ground arith, ground arith, ground arith, ground arith)

pub valid_modern_discovery-Announces :
    (raw : Raw) (version : String)
    → valid_modern_discovery raw version ≡ true
    → Announces raw version
unfolding valid_modern_discovery decode_modern
valid_modern_discovery-Announces raw version h =
    let (d, decoded, good) = announces-some version (decode_modern raw) h in
    let (fields, object, e0) = then-some (as_struct raw) _ d decoded in
    let (type, types, e1) = then-some (string_member "resultType" fields) _ d e0 in
    let (versions, lists, e2) = then-some (strings_member "supportedVersions" fields) _ d e1 in
    let (capabilities, has, e3) = then-some (map_member "capabilities" fields) _ d e2 in
    let (meta, has_meta, e4) = then-some (struct_member "_meta" fields) _ d e3 in
    let (info, has_info, e5) =
      then-some (struct_member "io.modelcontextprotocol/serverInfo" meta) _ d e4 in
    let (name, names, e6) = then-some (string_member "name" info) _ d e5 in
    let (own, owns, e7) = then-some (string_member "version" info) _ d e6 in
    let (complete, filled, named, versioned, listed) =
      described version _ (ap (announces version) e7 ∙ good) in
    let (cs, some_cs) = given capabilities filled in
    record {
      fields = fields;
      versions = versions;
      capabilities = cs;
      meta = meta;
      info = info;
      is_object = object;
      complete = types ∙ ap some complete;
      has_versions = lists;
      listed = listed;
      has_capabilities = has ∙ ap some some_cs;
      has_meta = has_meta;
      has_info = has_info;
      introduced = introduces info name own names owns named versioned;
    }

pub valid_legacy_discovery-Dates : (raw : Raw) → valid_legacy_discovery raw ≡ true → Dates raw
unfolding valid_legacy_discovery decode_initialized
valid_legacy_discovery-Dates raw h =
    let (i, decoded, good) = is_legacy-some (decode_initialized raw) h in
    let (fields, object, e0) = then-some (as_struct raw) _ i decoded in
    let (version, versions, e1) = then-some (string_member "protocolVersion" fields) _ i e0 in
    let (capabilities, has, e2) = then-some (map_member "capabilities" fields) _ i e1 in
    let (info, has_info, e3) = then-some (struct_member "serverInfo" fields) _ i e2 in
    let (name, names, e4) = then-some (string_member "name" info) _ i e3 in
    let (own, owns, e5) = then-some (string_member "version" info) _ i e4 in
    let (early, filled, named, versioned) =
      initialized
        (record {
          protocol_version = version;
          has_capabilities = is_some capabilities;
          server_name = name;
          server_version = own;
        })
        (ap is_legacy e5 ∙ good) in
    let (cs, some_cs) = given capabilities filled in
    let (date, dated, small) = not_after-some (parse_date version) early in
    record {
      fields = fields;
      version = version;
      date = date;
      capabilities = cs;
      info = info;
      is_object = object;
      has_version = versions;
      dated = dated;
      not_later = small;
      has_capabilities = has ∙ ap some some_cs;
      has_info = has_info;
      introduced = introduces info name own names owns named versioned;
    }
