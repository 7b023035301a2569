-- ===== src/Host/Client/Sending.antt =====
-- What the transport of net/http makes of the header values that newRequest of internal/host/demo.go
-- sets: the checks of RoundTrip, and the blanks that textproto trims.
use mcp_from_scratch.Base.Decimal.{codes}
use mcp_from_scratch.Base.Text.{trim}
use mcp_from_scratch.Base.Text.Trimming.{
  FirstKept, LastKept, trim-kept, starts_kept, starts_kept-FirstKept, ends_kept, ends_kept-LastKept,
}
use mcp_from_scratch.Http.{HttpCall}
use mcp_from_scratch.Base.{
  ℕ, ◌≤◌, String, ◌≡◌, refl, ◌≢◌, ◌⊎◌, Bool, true, not, ◌&&◌, ◌||◌, Option, none, some, List, [],
  ◌∷◌, arith, ltb, eqb, if◌then◌else◌, All,
}

-- A space, a tab, a line feed or a carriage return.
abbrev pub is_blank : ℕ → Bool
is_blank c = eqb c 32 || eqb c 9 || eqb c 10 || eqb c 13

-- httpguts.ValidHeaderFieldValue
no_controls : List ℕ → Bool
no_controls [] = true
no_controls (c ∷ cs) = not ((ltb c 32 && not (eqb c 9)) || eqb c 127) && no_controls cs

-- The call as the server receives it; `none` if net/http refuses to send it.
unfoldable pub transmitted : HttpCall → Option HttpCall
unfolding no_controls trim
transmitted call =
    if no_controls (codes call.header_version)
      && no_controls (codes call.header_method)
      && no_controls (codes call.header_name)
    then some (record call {
      header_version = trim is_blank call.header_version;
      header_method = trim is_blank call.header_method;
      header_name = trim is_blank call.header_name;
    })
    else none

-- A header value without control characters, that neither starts nor ends with a blank.
pub record Clean (value : String) : Type 0 where
  pub printable : All (λ (c : ℕ). ((32 ≤ c) ⊎ (c ≡ 9)) × (c ≢ 127)) (codes value)
  pub first_kept : FirstKept is_blank value
  pub last_kept : LastKept is_blank value

no_controls-printable :
    (cs : List ℕ) → All (λ (c : ℕ). ((32 ≤ c) ⊎ (c ≡ 9)) × (c ≢ 127)) cs → no_controls cs ≡ true
unfolding no_controls
no_controls-printable [] h = refl
no_controls-printable (c ∷ cs) h = rw (no_controls-printable cs h.1) (ground (arith, h.0))

pub transmitted-Clean :
    (call : HttpCall)
    → Clean call.header_version
    → Clean call.header_method
    → Clean call.header_name
    → transmitted call ≡ some call
unfolding transmitted
transmitted-Clean call version method name =
    rw
      (
        no_controls-printable (codes call.header_version) version.printable,
        no_controls-printable (codes call.header_method) method.printable,
        no_controls-printable (codes call.header_name) name.printable,
        trim-kept is_blank call.header_version version.first_kept version.last_kept,
        trim-kept is_blank call.header_method method.first_kept method.last_kept,
        trim-kept is_blank call.header_name name.first_kept name.last_kept,
      )
      refl

-- A given text, by computation.
pub clean :
    (value : String)
    → All (λ (c : ℕ). ((32 ≤ c) ⊎ (c ≡ 9)) × (c ≢ 127)) (codes value)
    → starts_kept is_blank value ≡ true
    → ends_kept is_blank value ≡ true
    → Clean value
clean value printable first last = record {
  printable = printable;
  first_kept = starts_kept-FirstKept is_blank value first;
  last_kept = ends_kept-LastKept is_blank value last;
}
