-- ===== src/Base/Lists.antt =====
-- Lists measured by native numbers, and the checks and loops that the program makes over slices.
use Prim.Native.Nat.{ℕ, zero, suc, ◌+◌, ◌-◌}
use Prim.Native.String.{String}
use mathlib.Core.Path.{◌≡◌, refl}
use mathlib.Core.Bool.{Bool, true, false, ◌&&◌, ◌||◌}
use mathlib.Core.List.{List, [], ◌∷◌, ◌++◌, map}
use mathlib.Core.Option.{Option, none, some}
use native.Mathlib.Omega.{arith}
use text.Mathlib.Text.{◌==◌}

module _ {ℓ} {A : Type ℓ} where
  abbrev pub length : List A → ℕ
  length [] = 0
  length (x ∷ xs) = suc (length xs)

  abbrev pub take : ℕ → List A → List A
  take zero xs = []
  take (suc n) [] = []
  take (suc n) (x ∷ xs) = x ∷ take n xs

  abbrev pub drop : ℕ → List A → List A
  drop zero xs = xs
  drop (suc n) [] = []
  drop (suc n) (x ∷ xs) = drop n xs

  abbrev pub get_elem? : List A → ℕ → Option A
  get_elem? [] i = none
  get_elem? (x ∷ xs) zero = some x
  get_elem? (x ∷ xs) (suc i) = get_elem? xs i

  abbrev pub all : (A → Bool) → List A → Bool
  all p [] = true
  all p (x ∷ xs) = p x && all p xs

  pub take-append-drop : (n : ℕ) (xs : List A) → take n xs ++ drop n xs ≡ xs
  take-append-drop zero xs = refl
  take-append-drop (suc n) [] = refl
  take-append-drop (suc n) (x ∷ xs) = rw (take-append-drop n xs)

  pub length-append : (xs ys : List A) → length (xs ++ ys) ≡ length xs + length ys
  length-append [] ys = omega arith
  length-append (x ∷ xs) ys = omega (arith, length-append xs ys)

  pub length-drop : (n : ℕ) (xs : List A) → length (drop n xs) ≡ length xs - n
  length-drop zero xs = omega arith
  length-drop (suc n) [] = omega arith
  length-drop (suc n) (x ∷ xs) = omega (arith, length-drop n xs)

module _ {ℓ κ} {A : Type ℓ} {B : Type κ} where
  pub get_elem?-map :
      (f : A → B) (xs : List A) (i : ℕ) (a : A)
      → get_elem? xs i ≡ some a
      → get_elem? (map f xs) i ≡ some (f a)
  get_elem?-map f [] i a h = cc
  get_elem?-map f (x ∷ xs) zero a h = cc
  get_elem?-map f (x ∷ xs) (suc i) a h = get_elem?-map f xs i a h

module _ {ℓ κ} {A : Type ℓ} (P : A → Type κ) where
  abbrev pub All : List A → Type κ
  All [] = Unit
  All (x ∷ xs) = P x × All xs

-- A linear search for a text, as `range` loops with a comparison make it.
abbrev pub member : String → List String → Bool
member t [] = false
member t (x ∷ xs) = x == t || member t xs

pub All-map {ℓ κ} :
    {A : Type ℓ} (P : A → Type κ) (f : A → A)
    → ((a : A) → P a → P (f a))
    → (xs : List A) → All P xs
    → All P (map f xs)
All-map P f step [] h = tt
All-map P f step (x ∷ xs) h = (step x h.0, All-map P f step xs h.1)
