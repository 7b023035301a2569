-- ===== src/Base/Actions.antt =====
-- Go methods that return a value or an error and change the state of the program on the way: what
-- was changed before an error stays changed. Their properties are triples with one postcondition
-- for a value and one for an error.
use mcp_from_scratch.Base.{◌≡◌, refl, Bool, true, false, Result, ok, err, if◌then◌else◌}

abbrev pub Action {ℓ} : Type ℓ → Type ℓ → Type ℓ → Type ℓ
Action E S A = S → Result E A × S

module _ {ℓ} {E S A : Type ℓ} where
  abbrev pub return : A → Action E S A
  return a s = (ok a, s)

  abbrev pub fail : E → Action E S A
  fail e s = (err e, s)

  abbrev pub lift : Result E A → Action E S A
  lift r s = (r, s)

  -- A deferred call: it runs whether the action succeeds or not.
  abbrev pub after_which : (S → S) → Result E A × S → Result E A × S
  after_which clean (r, s) = (r, clean s)

  abbrev pub deferring : Action E S A → (S → S) → Action E S A
  deferring m clean s = after_which clean (m s)

  abbrev pub Ends : (E → S → Type ℓ) → (A → S → Type ℓ) → Result E A × S → Type ℓ
  Ends X Q (ok a, s) = Q a s
  Ends X Q (err e, s) = X e s

  -- From a state in which `P` holds.
  pub record Triple (P : S → Type ℓ) (m : Action E S A) (X : E → S → Type ℓ) (Q : A → S → Type ℓ)
      : Type ℓ where
    pub run : (s : S) → P s → Ends X Q (m s)

module _ {ℓ} {E S A B : Type ℓ} where
  abbrev pub continue : Result E A × S → (A → Action E S B) → Result E B × S
  continue (ok a, s) f = f a s
  continue (err e, s) f = (err e, s)

  infixl 5 ◌>>=◌
  abbrev pub ◌>>=◌ : Action E S A → (A → Action E S B) → Action E S B
  ◌>>=◌ m f s = continue (m s) f

module _ {ℓ} {E S A B : Type ℓ} {X : E → S → Type ℓ} {Q : B → S → Type ℓ} where
  Ends-continue :
      (R : A → S → Type ℓ) (f : A → Action E S B) (t : Result E A × S)
      → Ends X R t
      → ((a : A) → Triple (R a) (f a) X Q)
      → Ends X Q (continue t f)
  Ends-continue R f (ok a, s) h k = (k a).run s h
  Ends-continue R f (err e, s) h k = h

module _ {ℓ} {E S A B : Type ℓ} {P : S → Type ℓ} {X : E → S → Type ℓ} {Q : B → S → Type ℓ} where
  pub Triple-bind :
      (R : A → S → Type ℓ) (m : Action E S A) (f : A → Action E S B)
      → Triple P m X R
      → ((a : A) → Triple (R a) (f a) X Q)
      → Triple P (m >>= f) X Q
  Triple-bind R m f t k = record { run = λ s h. Ends-continue R f (m s) (t.run s h) k }

module _ {ℓ} {E S A : Type ℓ} where
  Ends-after :
      {Q' : A → S → Type ℓ} {X' : E → S → Type ℓ} (X : E → S → Type ℓ) (Q : A → S → Type ℓ)
      (clean : S → S) (t : Result E A × S)
      → ((a : A) (s : S) → Q' a s → Q a (clean s))
      → ((e : E) (s : S) → X' e s → X e (clean s))
      → Ends X' Q' t
      → Ends X Q (after_which clean t)
  Ends-after X Q clean (ok a, s) q x h = q a s h
  Ends-after X Q clean (err e, s) q x h = x e s h

module _ {ℓ} {E S A : Type ℓ} {X : E → S → Type ℓ} {Q : A → S → Type ℓ} where
  Ends-to :
      {Q' : A → S → Type ℓ} {X' : E → S → Type ℓ} (t : Result E A × S)
      → ((a : A) (s : S) → Q' a s → Q a s)
      → ((e : E) (s : S) → X' e s → X e s)
      → Ends X' Q' t
      → Ends X Q t
  Ends-to (ok a, s) q x h = q a s h
  Ends-to (err e, s) q x h = x e s h

module _ {ℓ} {E S A : Type ℓ} {P : S → Type ℓ} {X : E → S → Type ℓ} {Q : A → S → Type ℓ} where
  pub Triple-return : (a : A) → ((s : S) → P s → Q a s) → Triple P (return a) X Q
  Triple-return a h = record { run = h }

  pub Triple-fail : (e : E) → ((s : S) → P s → X e s) → Triple P (fail e) X Q
  Triple-fail e h = record { run = h }

  pub Triple-lift :
      (r : Result E A)
      → ((a : A) (s : S) → r ≡ ok a → P s → Q a s)
      → ((e : E) (s : S) → P s → X e s)
      → Triple P (lift r) X Q
  Triple-lift (ok a) h x = record { run = λ s p. h a s refl p }
  Triple-lift (err e) h x = record { run = λ s p. x e s p }

  pub Triple-if :
      (b : Bool) (m n : Action E S A)
      → (b ≡ true → Triple P m X Q)
      → (b ≡ false → Triple P n X Q)
      → Triple P (if b then m else n) X Q
  Triple-if true m n t f = t refl
  Triple-if false m n t f = f refl

  pub Triple-from :
      {P' : S → Type ℓ} (m : Action E S A)
      → ((s : S) → P s → P' s)
      → Triple P' m X Q
      → Triple P m X Q
  Triple-from m i t = record { run = λ s p. t.run s (i s p) }

  pub Triple-to :
      {Q' : A → S → Type ℓ} {X' : E → S → Type ℓ} (m : Action E S A)
      → ((a : A) (s : S) → Q' a s → Q a s)
      → ((e : E) (s : S) → X' e s → X e s)
      → Triple P m X' Q'
      → Triple P m X Q
  Triple-to m q x t = record { run = λ s p. Ends-to (m s) q x (t.run s p) }

  pub Triple-deferring :
      {Q' : A → S → Type ℓ} {X' : E → S → Type ℓ} (m : Action E S A) (clean : S → S)
      → ((a : A) (s : S) → Q' a s → Q a (clean s))
      → ((e : E) (s : S) → X' e s → X e (clean s))
      → Triple P m X' Q'
      → Triple P (deferring m clean) X Q
  Triple-deferring m clean q x t = record {
    run = λ s p. Ends-after X Q clean (m s) q x (t.run s p);
  }
