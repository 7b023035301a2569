-- ===== src/Environment.antt =====
-- What the server calls and this library does not define: the JSON Schema package
-- github.com/google/jsonschema-go, the HMAC-SHA-256 digest, the text of a time, and the number of
-- bytes of a JSON text, which its value does not tell.
use mcp_from_scratch.Base.{ℕ, List, String, Bool}
use mcp_from_scratch.Json.{Json, Fields}

-- A resolved schema is given by the schema that was resolved. A resolution may fail.
pub record Environment : Type 0 where
  pub resolves : Fields → Bool
  pub conforms : Fields → Json → Bool
  pub text_size : Json → ℕ
  pub hmac_sha256 : List ℕ → List ℕ → List ℕ
  pub format_time : ℕ → String
