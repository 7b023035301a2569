-- ===== src/Host/Oauth/Challenge/Parts.antt =====
-- splitAuthParams of internal/host/oauth.go: a header is cut at its commas outside quoted texts.
use Prim.Native.Char.{Char, code}
use mathlib.Core.Option
use text.Mathlib.TextEquality.{Char-path}
use mcp_from_scratch.Base.Text.{trim_space, in_front, push_front}
use mcp_from_scratch.Host.Oauth.Challenge.{pieces, trimmed, split_auth_params}
use mcp_from_scratch.Base.{
  String, ◌≡◌, refl, sym, ap, subst, ◌∙◌, ◌≢◌, inl, inr, Bool, true, false, Option, none, some,
  List, [], ◌∷◌, map, arith, ◌==◌, eq_iff, eqb, Bool-cases, All, ok,
}

-- strings.Join(parts, ",")
abbrev pub joined : List String → String
joined [] = ""
joined (p ∷ []) = p
joined (p ∷ q ∷ ps) = in_front p (String.◌∷◌ "," (joined (q ∷ ps)))

mutual
  -- A part of a header: characters that are neither a quotation mark nor a comma, and quoted texts.
  pub data Part : String → Type 0 where
    ends : Part ""
    bare : (c : Char) (s : String) → code c ≢ 0x22 → code c ≢ 0x2c → Part s → Part (String.◌∷◌ c s)
    quotes : (c : Char) (s : String) → code c ≡ 0x22 → Quoted s → Part (String.◌∷◌ c s)

  -- The rest of a quoted text, which the next quotation mark without a backslash before it ends, and
  -- the rest of the part behind it.
  pub data Quoted : String → Type 0 where
    closes : (c : Char) (s : String) → code c ≡ 0x22 → Part s → Quoted (String.◌∷◌ c s)
    escapes :
        (c d : Char) (s : String)
        → code c ≡ 0x5c
        → Quoted s
        → Quoted (String.◌∷◌ c (String.◌∷◌ d s))
    content :
        (c : Char) (s : String) → code c ≢ 0x22 → code c ≢ 0x5c → Quoted s → Quoted (String.◌∷◌ c s)

-- The scan does not cut a whole part.
abbrev Whole : String → Type 0
Whole p = pieces false false p ≡ some (p ∷ [])

abbrev Head : Bool → Bool → List String → Type 0
Head quoted escaped [] = ⊥
Head quoted escaped (p ∷ ps) = (pieces quoted escaped p ≡ some (p ∷ [])) × All Whole ps

abbrev Cut : Bool → Bool → String → Type 0
Cut quoted escaped s =
    (ps : List String)
    → pieces quoted escaped s ≡ some ps
    → Head quoted escaped ps × (joined ps ≡ s)

joined-push :
    (c : Char) (p : String) (ps : List String)
    → joined (String.◌∷◌ c p ∷ ps) ≡ String.◌∷◌ c (joined (p ∷ ps))
joined-push c p [] = refl
joined-push c p (q ∷ ps) = refl

-- One more character of the first part.
abbrev Longer : Bool → Bool → Char → String → List String → Type 0
Longer quoted escaped c s ps =
    (p : String) × (rest : List String) × (ps ≡ String.◌∷◌ c p ∷ rest)
    × (pieces quoted escaped p ≡ some (p ∷ []))
    × All Whole rest
    × (joined ps ≡ String.◌∷◌ c s)

Longer-from :
    (quoted escaped : Bool) (c : Char) (s : String) (ps : List String) (o : Option (List String))
    → pieces quoted escaped s ≡ o
    → Cut quoted escaped s
    → Option.map (push_front c) o ≡ some ps
    → Longer quoted escaped c s ps
Longer-from quoted escaped c s ps none e ih h = cc
Longer-from quoted escaped c s ps (some []) e ih h = absurd (ih [] e).0
Longer-from quoted escaped c s ps (some (p ∷ rest)) e ih h =
    let same : ps ≡ String.◌∷◌ c p ∷ rest = cc in
    (
      p,
      rest,
      same,
      (ih (p ∷ rest) e).0.0,
      (ih (p ∷ rest) e).0.1,
      rw same (joined-push c p rest ∙ ap (λ t. String.◌∷◌ c t) (ih (p ∷ rest) e).1),
    )

longer :
    (quoted escaped : Bool) (c : Char) (s : String) (ps : List String)
    → Cut quoted escaped s
    → Option.map (push_front c) (pieces quoted escaped s) ≡ some ps
    → Longer quoted escaped c s ps
longer quoted escaped c s ps ih h = Longer-from quoted escaped c s ps _ refl ih h

-- The first character does not end the part, and leads to the state of the rest.
grown :
    (quoted escaped q' e' : Bool) (c : Char) (s : String) (ps : List String)
    → Cut q' e' s
    → ((t : String)
        → pieces quoted escaped (String.◌∷◌ c t) ≡ Option.map (push_front c) (pieces q' e' t))
    → pieces quoted escaped (String.◌∷◌ c s) ≡ some ps
    → Head quoted escaped ps × (joined ps ≡ String.◌∷◌ c s)
grown quoted escaped q' e' c s ps ih step h =
    let (p, rest, same, first, others, join) = longer q' e' c s ps ih (sym (step s) ∙ h) in
    (
      subst (Head quoted escaped) (sym same)
          (step p ∙ ap (Option.map (push_front c)) first, others),
      join,
    )

ended_from :
    (c : Char) (s : String) (ps : List String) (o : Option (List String))
    → pieces false false s ≡ o
    → Cut false false s
    → "," ≡ c
    → Option.map (λ (qs : List String). "" ∷ qs) o ≡ some ps
    → Head false false ps × (joined ps ≡ String.◌∷◌ c s)
unfolding pieces
ended_from c s ps none e ih comma h = cc
ended_from c s ps (some []) e ih comma h = absurd (ih [] e).0
ended_from c s ps (some (p ∷ rest)) e ih comma h =
    let same : ps ≡ "" ∷ p ∷ rest = cc in
    (
      subst (Head false false) (sym same) (refl, (ih (p ∷ rest) e).0),
      rw same (
          ap (λ t. String.◌∷◌ "," t) (ih (p ∷ rest) e).1 ∙ ap (λ (d : Char). String.◌∷◌ d s) comma),
    )

Cut-empty : (quoted escaped : Bool) → Cut quoted escaped ""
unfolding pieces
Cut-empty false false ps h = let same : ps ≡ "" ∷ [] = cc in (rw same (refl, tt), rw same refl)
Cut-empty true false ps h = absurd (ground arith)
Cut-empty false true ps h = absurd (ground arith)
Cut-empty true true ps h = absurd (ground arith)

Cut-quoted :
    (c : Char) (s : String)
    → Cut false false s
    → Cut true false s
    → Cut true true s
    → Cut true false (String.◌∷◌ c s)
unfolding pieces
Cut-quoted c s outside inside escaped ps h = elim (Bool-cases (eqb (code c) 0x5c)) [
  | inl slash ↦ grown true false true true c s ps escaped (λ t. rw slash refl) h
  | inr other ↦ elim (Bool-cases (eqb (code c) 0x22)) [
    | inl quote ↦ grown true false false false c s ps outside (λ t. rw (other, quote) refl) h
    | inr plain ↦ grown true false true false c s ps inside (λ t. rw (other, plain) refl) h
  ]
]

Cut-plain :
    (c : Char) (s : String)
    → Cut false false s
    → Cut true false s
    → Cut false false (String.◌∷◌ c s)
unfolding pieces
Cut-plain c s outside inside ps h = elim (Bool-cases (eqb (code c) 0x22)) [
  | inl quote ↦ grown false false true false c s ps inside (λ t. rw quote refl) h
  | inr other ↦ elim (Bool-cases (eqb (code c) 0x2c)) [
    | inl comma ↦
        ended_from c s ps (pieces false false s) refl outside (Char-path "," c (ground arith)) (
          let e : pieces false false (String.◌∷◌ c s)
              ≡ Option.map (λ (qs : List String). "" ∷ qs) (pieces false false s) =
            rw (other, comma) refl in
          sym e ∙ h)
    | inr plain ↦ grown false false false false c s ps outside (λ t. rw (other, plain) refl) h
  ]
]

cuts : (s : String) → Cut false false s × Cut true false s × Cut true true s × Cut false true s
unfolding pieces
cuts String.[] =
    (Cut-empty false false, Cut-empty true false, Cut-empty true true, Cut-empty false true)
cuts (String.◌∷◌ c s) =
    let (outside, inside, after, odd) = cuts s in
    (
      Cut-plain c s outside inside,
      Cut-quoted c s outside inside after,
      λ ps h. grown true true true false c s ps inside (λ t. refl) h,
      λ ps h. grown false true false false c s ps outside (λ t. refl) h,
    )

Whole-parts :
    (s : String) (ps : List String)
    → pieces false false s ≡ some ps
    → All Whole ps × (joined ps ≡ s)
Whole-parts s [] h = absurd ((cuts s).0 [] h).0
Whole-parts s (p ∷ ps) h = (((cuts s).0 (p ∷ ps) h).0, ((cuts s).0 (p ∷ ps) h).1)

abbrev One : Bool → Bool → String → Type 0
One quoted escaped s = pieces quoted escaped s ≡ some (s ∷ [])

One-rest :
    (quoted escaped : Bool) (c : Char) (s : String)
    → Option.map (push_front c) (pieces quoted escaped s) ≡ some (String.◌∷◌ c s ∷ [])
    → Cut quoted escaped s
    → One quoted escaped s
One-rest quoted escaped c s h ih =
    let (p, rest, same, one, others, join) = longer quoted escaped c s (String.◌∷◌ c s ∷ []) ih h in
    let e : p ≡ s = cc in subst (One quoted escaped) e one

not_ended :
    (c : Char) (s : String) (o : Option (List String))
    → Option.map (λ (qs : List String). "" ∷ qs) o ≡ some (String.◌∷◌ c s ∷ [])
    → ⊥
not_ended c s none h = cc
not_ended c s (some ps) h = cc

-- A character behind a backslash, and the rest of the quoted text.
abbrev After : String → Type 0
After s = (d : Char) × (t : String) × (s ≡ String.◌∷◌ d t) × Quoted t

Part-plain :
    (c : Char) (s : String)
    → (One false false s → Part s)
    → (One true false s → Quoted s)
    → One false false (String.◌∷◌ c s)
    → Part (String.◌∷◌ c s)
unfolding pieces
Part-plain c s outside within h = elim (Bool-cases (eqb (code c) 0x22)) [
  | inl quote ↦
      quotes c s (ground arith) (within (One-rest true false c s (rw quote at h) (cuts s).1))
  | inr other ↦ elim (Bool-cases (eqb (code c) 0x2c)) [
    | inl comma ↦ absurd (not_ended c s (pieces false false s) (rw (other, comma) at h))
    | inr free ↦
        bare c s (ground arith) (ground arith)
          (outside (One-rest false false c s (rw (other, free) at h) (cuts s).0))
  ]
]

Quoted-inside :
    (c : Char) (s : String)
    → (One false false s → Part s)
    → (One true false s → Quoted s)
    → (One true true s → After s)
    → One true false (String.◌∷◌ c s)
    → Quoted (String.◌∷◌ c s)
unfolding pieces
Quoted-inside c s outside within behind h = elim (Bool-cases (eqb (code c) 0x5c)) [
  | inl slash ↦
      let (d, t, same, rest) = behind (One-rest true true c s (rw slash at h) (cuts s).2) in
      subst (λ (u : String). Quoted (String.◌∷◌ c u)) (sym same) (escapes c d t (ground arith) rest)
  | inr other ↦ elim (Bool-cases (eqb (code c) 0x22)) [
    | inl quote ↦
        closes c s (ground arith)
          (outside (One-rest false false c s (rw (other, quote) at h) (cuts s).0))
    | inr free ↦
        content c s (ground arith) (ground arith)
          (within (One-rest true false c s (rw (other, free) at h) (cuts s).1))
  ]
]

grammar :
    (s : String)
    → (One false false s → Part s) × (One true false s → Quoted s) × (One true true s → After s)
unfolding pieces
grammar String.[] = (λ h. ends, λ h. absurd (ground arith), λ h. absurd (ground arith))
grammar (String.◌∷◌ c s) =
    let (outside, within, behind) = grammar s in
    (
      Part-plain c s outside within,
      Quoted-inside c s outside within behind,
      λ h. (c, s, refl, within (One-rest true false c s h (cuts s).1)),
    )

All-Part : (ps : List String) → All Whole ps → All Part ps
All-Part [] h = tt
All-Part (p ∷ ps) h = ((grammar p).0 h.0, All-Part ps h.1)

trimmed-ok :
    (value : String) (parts : List String) (o : Option (List String))
    → pieces false false value ≡ o
    → trimmed o ≡ ok parts
    → (ps : List String) × (parts ≡ map trim_space ps) × (joined ps ≡ value) × All Part ps
trimmed-ok value parts none e h = cc
trimmed-ok value parts (some ps) e h =
    (ps, cc, (Whole-parts value ps e).1, All-Part ps (Whole-parts value ps e).0)

-- A header that is not empty and is accepted is cut into its parts at commas only: the parts, before
-- they are trimmed and joined by commas again, are the header, and each of them is a sequence of
-- characters other than quotation marks and commas, and of ended quoted texts, in which a backslash
-- takes the next character with it.
pub split_auth_params-Part :
    (value : String) (parts : List String)
    → value ≢ ""
    → split_auth_params value ≡ ok parts
    → (ps : List String) × (parts ≡ map trim_space ps) × (joined ps ≡ value) × All Part ps
unfolding split_auth_params
split_auth_params-Part value parts given h =
    trimmed-ok value parts (pieces false false value) refl
      (rw (let e : (value == "") ≡ false = ground (arith, eq_iff value "") in e) at h)
