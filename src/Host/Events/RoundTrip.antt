-- ===== src/Host/Events/RoundTrip.antt =====
-- The events that the server writes are the data that the client reads.
use Prim.Native.Char.{code}
use mcp_from_scratch.Base.Decimal.{codes}
use mcp_from_scratch.Base.Text.{in_front, split}
use mcp_from_scratch.Host.Events.{
  trim_return, strip_prefix, join_lines, read_from, read_sse_data, new_reader, write_sse_message,
}
use mcp_from_scratch.Base.{
  ℕ, String, ◌≡◌, refl, sym, ap, subst, ◌∙◌, inl, inr, Bool, true, false, not, ◌&&◌, List, [], ◌∷◌,
  arith, ◌==◌, eqb, Bool-cases, ok,
}

-- No line end and no carriage return: json.Marshal writes both as escapes.
abbrev pub one_line : List ℕ → Bool
one_line [] = true
one_line (c ∷ cs) = not (eqb c 10) && not (eqb c 13) && one_line cs

abbrev pub OneLine : String → Type 0
OneLine s = one_line (codes s) ≡ true

trim_return-OneLine : (s : String) → OneLine s → trim_return s ≡ s
unfolding trim_return
trim_return-OneLine String.[] h = refl
trim_return-OneLine (String.◌∷◌ c s) h = ground (arith, trim_return-OneLine s)

split-in_front :
    (s rest : String) → OneLine s → split 10 (in_front s (String.◌∷◌ "\n" rest)) ≡ s ∷ split 10 rest
unfolding split
split-in_front String.[] rest h = refl
split-in_front (String.◌∷◌ c s) rest h = elim (Bool-cases (eqb (code c) 10)) [
  | inl end_ ↦ absurd (ground arith)
  | inr other ↦ rw (other, split-in_front s rest (ground arith)) refl
]

split-cons : (s : String) → (p : String) × (ps : List String) × (split 10 s ≡ p ∷ ps)
unfolding split
split-cons String.[] = ("", [], refl)
split-cons (String.◌∷◌ c s) =
    let (p, ps, e) = split-cons s in
    elim (Bool-cases (eqb (code c) 10)) [
      | inl end_ ↦ ("", p ∷ ps, rw (end_, e) refl)
      | inr other ↦ (String.◌∷◌ c p, ps, rw (other, e) refl)
    ]

in_front_assoc : (s t u : String) → in_front (in_front s t) u ≡ in_front s (in_front t u)
in_front_assoc String.[] t u = refl
in_front_assoc (String.◌∷◌ c s) t u = ap (λ x. String.◌∷◌ c x) (in_front_assoc s t u)

pub written_lines :
    (payload rest : String)
    → OneLine payload
    → new_reader (in_front (write_sse_message payload) rest)
      ≡ in_front "data: " payload ∷ "" ∷ new_reader rest
unfolding new_reader write_sse_message split
written_lines payload rest h =
    ap (split 10) (
      in_front_assoc "data: " (in_front payload "\n\n") rest
      ∙ ap (in_front "data: ") (in_front_assoc payload "\n\n" rest)
      ∙ sym (in_front_assoc "data: " payload (in_front "\n\n" rest)))
    ∙ split-in_front (in_front "data: " payload) (in_front "\n" rest) h

and_false : (b : Bool) → (b && false) ≡ false
and_false true = refl
and_false false = refl

-- Reading an event that the server has written for a text without line ends gives that text, and
-- leaves the reader before what was written next.
pub read_sse_data-write_sse_message :
    (payload rest : String)
    → OneLine payload
    → read_sse_data (new_reader (in_front (write_sse_message payload) rest))
      ≡ ok (payload, new_reader rest)
unfolding read_sse_data new_reader read_from trim_return strip_prefix join_lines
read_sse_data-write_sse_message payload rest h =
    let (p, ps, e) = split-cons rest in
    rw (written_lines payload rest h) (
      rw (trim_return-OneLine (in_front "data: " payload) h) (
        rw (and_false (in_front "data: " payload == "")) (
          subst (λ (q : List String). read_from (payload ∷ []) ("" ∷ q) ≡ ok (payload, q)) (sym e)
            refl)))
