-- ===== src/Base/Regex.antt =====
-- The part of package regexp that the program's patterns use, anchored at both ends.
use mcp_from_scratch.Base.Decimal.{codes}
use mcp_from_scratch.Base.{
  ℕ, zero, suc, String, Bool, true, false, ◌&&◌, ◌||◌, List, [], ◌∷◌, leb, eqb, if◌then◌else◌,
}

pub data Regex : Type 0 where
  never : Regex
  empty : Regex
  one_of : (ℕ → Bool) → Regex
  seq : Regex → Regex → Regex
  either : Regex → Regex → Regex
  many : Regex → Regex

nullable : Regex → Bool
nullable never = false
nullable empty = true
nullable (one_of p) = false
nullable (seq r s) = nullable r && nullable s
nullable (either r s) = nullable r || nullable s
nullable (many r) = true

-- What is left to match after one character.
after : Regex → ℕ → Regex
unfolding nullable
after never c = never
after empty c = never
after (one_of p) c = if p c then empty else never
after (seq r s) c = if nullable r then either (seq (after r c) s) (after s c) else seq (after r c) s
after (either r s) c = either (after r c) (after s c)
after (many r) c = seq (after r c) (many r)

matches_codes : Regex → List ℕ → Bool
unfolding after
matches_codes r [] = nullable r
matches_codes r (c ∷ cs) = matches_codes (after r c) cs

unfoldable pub matches : Regex → String → Bool
unfolding matches_codes
matches r s = matches_codes r (codes s)

abbrev pub range : ℕ → ℕ → ℕ → Bool
range lo hi c = leb lo c && leb c hi

abbrev pub char : ℕ → Regex
char k = one_of (eqb k)

-- r+
abbrev pub some_of : Regex → Regex
some_of r = seq r (many r)

-- r{n}
abbrev pub times : ℕ → Regex → Regex
times zero r = empty
times (suc n) r = seq r (times n r)

-- r{0,n}
abbrev pub up_to : ℕ → Regex → Regex
up_to zero r = empty
up_to (suc n) r = either empty (seq r (up_to n r))
