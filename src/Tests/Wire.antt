-- ===== src/Tests/Wire.antt =====
-- Identifiers, extensions, cursors and lists on concrete inputs.
use mcp_from_scratch.Protocol.Extensions.{Extensions}
use mcp_from_scratch.Host.Listing.{list_all, listed, serve_page}
use mcp_from_scratch.Host.Listing.Complete.{list_all-serve_page}
use mcp_from_scratch.Tools.{validate_json_depth}
use mcp_from_scratch.Tools.Depth.{nesting, validate_json_depth_exact}
use mcp_from_scratch.Base.{ℕ, ◌≤◌, ◌≡◌, ◌↔◌, List, [], ◌∷◌, arith, ok}
use mcp_from_scratch.Json.{null, str, arr, obj, nil, cons, end, field}

abbrev client_extensions : Extensions
client_extensions = ("io.modelcontextprotocol/tasks", str "ignored") ∷ []

abbrev five : List ℕ
five = 1 ∷ 2 ∷ 3 ∷ 4 ∷ 5 ∷ []

list_all-serve_page_example : list_all (serve_page five) 6 "" [] [] ≡ listed five
list_all-serve_page_example = list_all-serve_page five (omega arith) 6 (omega arith)

validate_json_depth_exact_example :
    (validate_json_depth (arr (cons (obj (field "a" null end)) nil)) 2 ≡ ok tt)
    ↔ (nesting (arr (cons (obj (field "a" null end)) nil)) ≤ 2)
validate_json_depth_exact_example =
    validate_json_depth_exact (arr (cons (obj (field "a" null end)) nil)) 2
