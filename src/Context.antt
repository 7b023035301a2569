-- ===== src/Context.antt =====
-- The context.Context values that the server reads, and internal/mcpserver/principal.go.
use mcp_from_scratch.Base.{String, Option, none, some, ◌==◌, if◌then◌else◌}

pub data ContextError : Type 0 where
  canceled deadline_exceeded : ContextError

-- ctx.Err() and the values under the keys of the package; `principal` is the empty text or `none`
-- where no transport authenticated the caller.
pub record Context : Type 0 where
  pub error : Option ContextError
  pub principal : Option String

-- `none` is the nil context.
abbrev pub Ctx : Type 0
Ctx = Option Context

abbrev pub background : Context
background = record { error = none; principal = none }

unfoldable pub context_err : Ctx → Option ContextError
context_err none = none
context_err (some ctx) = ctx.error

abbrev or_background : Ctx → Context
or_background none = background
or_background (some ctx) = ctx

unfoldable pub with_execution_principal : Ctx → String → Ctx
with_execution_principal ctx principal =
    some (record (or_background ctx) { principal = some principal })

abbrev non_empty : Option String → Option String
non_empty none = none
non_empty (some p) = if p == "" then none else some p

-- `none` is `ok == false`.
unfoldable pub execution_principal : Ctx → Option String
execution_principal none = none
execution_principal (some ctx) = non_empty ctx.principal
