-- ===== src/Tools/Calls.antt =====
-- What is known of a tool call that succeeds, and of a tool that is registered.
use mcp_from_scratch.Environment.{Environment}
use mcp_from_scratch.Envelope.{ToolResult}
use mcp_from_scratch.Protocol.Errors.{Message}
use mcp_from_scratch.Tools.{
  max_nesting, max_tool_argument_bytes, ToolInvocation, RegisteredTool, validate_json_depth,
  checked_object, matched, checked_size, validate_tool_arguments, checked_structured,
  checked_output, invoke, as_tool_error,
}
use mcp_from_scratch.Tools.Depth.{nesting, validate_json_depth_exact}
use mcp_from_scratch.Base.{
  ◌≤◌, String, ◌≡◌, refl, sym, ap, subst, ◌∙◌, inl, inr, true, Option, none, some, arith, Result,
  ok, err, Result-cases, bind-ok, ok_injective,
}
use mcp_from_scratch.Json.{Json, null, bool, num, str, arr, obj, Fields, Raw}

-- A structured result conforms to the output schema, if the tool declares one.
abbrev pub OutputFits : Environment → Option Fields → Raw → Type 0
OutputFits env none v = Unit {0}
OutputFits env (some schema) none = ⊥
OutputFits env (some schema) (some v) = env.conforms schema v ≡ true

-- The arguments that reach a tool: an object of bounded size and nesting that the schema admits.
pub record ArgumentsFit (env : Environment) (schema : Fields) (fs : Fields) : Type 0 where
  pub sized : env.text_size (obj fs) ≤ max_tool_argument_bytes
  pub nested : nesting (obj fs) ≤ max_nesting
  pub conforming : env.conforms schema (obj fs) ≡ true

module _ (env : Environment) where
  checked_object-ok :
      (schema : Fields) (v : Json)
      → checked_object env schema v ≡ ok tt
      → (nesting v ≤ max_nesting) × (env.conforms schema v ≡ true)
  unfolding checked_object matched
  checked_object-ok schema v h = elim (Result-cases (validate_json_depth v max_nesting)) [
    | inl (e, d) ↦ absurd (ground (arith, d))
    | inr (u, d) ↦ ((validate_json_depth_exact v max_nesting).0 d, ground (arith, d))
  ]

  validate_tool_arguments-ok :
      (schema : Fields) (raw : Raw)
      → validate_tool_arguments env schema raw ≡ ok tt
      → (fs : Fields) × (raw ≡ some (obj fs)) × ArgumentsFit env schema fs
  unfolding validate_tool_arguments checked_size
  validate_tool_arguments-ok schema none h = absurd (cc)
  validate_tool_arguments-ok schema (some null) h = absurd (cc)
  validate_tool_arguments-ok schema (some (bool b)) h = absurd (ground arith)
  validate_tool_arguments-ok schema (some (num n)) h = absurd (ground arith)
  validate_tool_arguments-ok schema (some (str s)) h = absurd (ground arith)
  validate_tool_arguments-ok schema (some (arr vs)) h = absurd (ground arith)
  validate_tool_arguments-ok schema (some (obj fs)) h =
      let (nested, conforming) = checked_object-ok schema (obj fs) (ground arith) in
      (fs, refl, record { sized = ground arith; nested = nested; conforming = conforming })

  checked_structured-ok :
      (name : String) (schema : Fields) (result r : ToolResult) (v : Raw)
      → checked_structured env name schema result v ≡ ok r
      → (r ≡ result) × OutputFits env (some schema) v
  unfolding checked_structured
  checked_structured-ok name schema result r none h = absurd (cc)
  checked_structured-ok name schema result r (some v) h = ground arith

  checked_output-ok :
      (name : String) (schema : Option Fields) (result r : ToolResult)
      → checked_output env name schema result ≡ ok r
      → (result ≡ r) × OutputFits env schema r.structured_content
  unfolding checked_output
  checked_output-ok name none result r h = (ok_injective h, tt)
  checked_output-ok name (some schema) result r h =
      let (same, fits) = checked_structured-ok name schema result r result.structured_content h in
      (
        sym same,
        subst (λ (s : ToolResult). OutputFits env (some schema) s.structured_content) (sym same)
            fits,
      )

  as_tool_error-ok :
      (m : Result Message (Unit {0})) (u : Unit {0}) → as_tool_error env m ≡ ok u → m ≡ ok tt
  as_tool_error-ok (ok a) u h = refl
  as_tool_error-ok (err m) u h = absurd (cc)

  -- The call of a registered tool through its own function, callTool, succeeds only on arguments
  -- that are an object within the size and nesting limits and conform to the input schema; its
  -- result is what that function returned and conforms to the output schema. A call of deferred_echo
  -- that is answered by a task does not come here.
  pub invoke-ok :
      (name : String) (entry : RegisteredTool) (invocation : ToolInvocation) (r : ToolResult)
      → invoke env name entry invocation ≡ ok r
      → (fs : Fields) × (invocation.arguments ≡ some (obj fs))
        × ArgumentsFit env entry.input_schema fs
        × (entry.tool.call invocation ≡ ok r)
        × OutputFits env entry.output_schema r.structured_content
  unfolding invoke
  invoke-ok name entry invocation r h =
      let (u, checked, rest) =
        bind-ok
          (as_tool_error env (validate_tool_arguments env entry.input_schema invocation.arguments))
          _ h in
      let (result, called, output) = bind-ok (entry.tool.call invocation) _ rest in
      let (fs, same, fits) =
        validate_tool_arguments-ok entry.input_schema invocation.arguments
          (as_tool_error-ok _ u checked) in
      let (final, conforms) = checked_output-ok name entry.output_schema result r output in
      (fs, same, fits, called ∙ ap ok final, conforms)
