-- ===== src/Host/Listing.antt =====
-- listAllTools of internal/host/demo.go: the client's walk along the pages of a list. A request is
-- the cursor that it carries; `serve` is the server's answer to it, a page and its next cursor.
pub mod Complete
use mcp_from_scratch.Protocol.Errors.{RpcError}
use mcp_from_scratch.Pages.{decode_cursor, paginate}
use mcp_from_scratch.Base.{
  ℕ, zero, suc, String, List, ◌∷◌, ◌++◌, arith, ◌==◌, if◌then◌else◌, member, Result, ok, err,
}
use mcp_from_scratch.Base.{◌>>=◌}

-- `unfinished` means that the fuel ran out.
pub data Listing (A : Type 0) : Type 0 where
  listed : List A → Listing A
  failed : RpcError → Listing A
  repeated : String → Listing A
  unfinished : Listing A

module _ {A : Type 0} (serve : String → Result RpcError (List A × String)) where
  unfoldable pub list_all : ℕ → String → List String → List A → Listing A
  list_all zero cursor seen found = unfinished
  list_all (suc fuel) cursor seen found = elim (serve cursor) [
    | err e ↦ failed e
    | ok (page, next) ↦
        if next == ""
        then listed (found ++ page)
        else if member next seen
        then repeated next
        else list_all fuel next (next ∷ seen) (found ++ page)
  ]

-- The server's answer to a list request, up to the encoding of the items.
unfoldable pub serve_page : {A : Type 0} → List A → String → Result RpcError (List A × String)
serve_page values cursor = decode_cursor cursor >>= paginate values
