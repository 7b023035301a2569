-- ===== src/Base/Text/Trimming.antt =====
-- When strings.Trim leaves a text as it is.
use Prim.Native.Char.{Char, code}
use mcp_from_scratch.Base.Text.{in_front, trim_left, trim_right, trim}
use mcp_from_scratch.Base.{
  ℕ, String, ◌≡◌, refl, ap, subst, ◌∙◌, Bool, true, false, ◌&&◌, ◌==◌, eq_iff, Bool-cases, inl, inr,
  not, if◌then◌else◌,
}

-- The test accepts neither the first nor the last character.
abbrev pub FirstKept : (ℕ → Bool) → String → Type 0
FirstKept test s = (c : Char) (t : String) → s ≡ String.◌∷◌ c t → test (code c) ≡ false

abbrev pub LastKept : (ℕ → Bool) → String → Type 0
LastKept test s = (t : String) (c : Char) → s ≡ in_front t (String.◌∷◌ c "") → test (code c) ≡ false

trim_left-kept : (test : ℕ → Bool) (s : String) → FirstKept test s → trim_left test s ≡ s
unfolding trim_left
trim_left-kept test String.[] h = refl
trim_left-kept test (String.◌∷◌ c s) h = rw (h c s refl) refl

not_blank : (c : Char) (s : String) → (String.◌∷◌ c s == "") ≡ false
not_blank c s = elim (Bool-cases (String.◌∷◌ c s == "")) [
  | inr other ↦ other
  | inl same ↦ absurd (let e : String.◌∷◌ c s ≡ "" = (eq_iff (String.◌∷◌ c s) "").0 same in cc)
]

last_or_more :
    (test : ℕ → Bool) (c : Char) (s : String)
    → LastKept test (String.◌∷◌ c s)
    → (s == "" && test (code c)) ≡ false
last_or_more test c String.[] h = h "" c refl
last_or_more test c (String.◌∷◌ d s) h = rw (not_blank d s) refl

trim_right-kept : (test : ℕ → Bool) (s : String) → LastKept test s → trim_right test s ≡ s
unfolding trim_right
trim_right-kept test String.[] h = refl
trim_right-kept test (String.◌∷◌ c s) h =
    rw
      (
        trim_right-kept test s (λ t d e. h (String.◌∷◌ c t) d (ap (λ u. String.◌∷◌ c u) e)),
        last_or_more test c s h,
      )
      refl

pub trim-kept :
    (test : ℕ → Bool) (s : String) → FirstKept test s → LastKept test s → trim test s ≡ s
unfolding trim
trim-kept test s first last =
    ap (trim_right test) (trim_left-kept test s first) ∙ trim_right-kept test s last

-- Tests of the first and of the last character of a given text.
abbrev pub starts_kept : (ℕ → Bool) → String → Bool
starts_kept test String.[] = true
starts_kept test (String.◌∷◌ c s) = not (test (code c))

abbrev pub ends_kept : (ℕ → Bool) → String → Bool
ends_kept test String.[] = true
ends_kept test (String.◌∷◌ c s) =
    let rest = ends_kept test s in if s == "" then not (test (code c)) else rest

not_of : (b : Bool) → not b ≡ true → b ≡ false
not_of true h = cc
not_of false h = refl

pub starts_kept-FirstKept :
    (test : ℕ → Bool) (s : String) → starts_kept test s ≡ true → FirstKept test s
starts_kept-FirstKept test String.[] h c t e = cc
starts_kept-FirstKept test (String.◌∷◌ b s) h c t e =
    let same : b ≡ c = cc in
    subst (λ (x : Char). test (code x) ≡ false) same (not_of (test (code b)) h)

pub ends_kept-LastKept : (test : ℕ → Bool) (s : String) → ends_kept test s ≡ true → LastKept test s
ends_kept-LastKept test String.[] h String.[] c e = cc
ends_kept-LastKept test String.[] h (String.◌∷◌ d t) c e = cc
ends_kept-LastKept test (String.◌∷◌ b s) h String.[] c e =
    let same : b ≡ c = cc in
    let blank : s ≡ "" = cc in
    let short : ends_kept test (String.◌∷◌ b "") ≡ true =
      subst (λ (u : String). ends_kept test (String.◌∷◌ b u) ≡ true) blank h in
    subst (λ (x : Char). test (code x) ≡ false) same (not_of (test (code b)) short)
ends_kept-LastKept test (String.◌∷◌ b String.[]) h (String.◌∷◌ d String.[]) c e = cc
ends_kept-LastKept test (String.◌∷◌ b String.[]) h (String.◌∷◌ d (String.◌∷◌ x t)) c e = cc
ends_kept-LastKept test (String.◌∷◌ b (String.◌∷◌ a s)) h (String.◌∷◌ d t) c e =
    ends_kept-LastKept test (String.◌∷◌ a s) (rw (not_blank a s) at h) t c cc
