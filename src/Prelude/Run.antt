-- ===== src/Prelude/Run.antt =====
-- Code that works on a state and may fault. `none` is the end of the process: a failed `assert`,
-- or a string function called with NULL.
use mathlib.Core.Bool.{Bool, true, false}
use mathlib.Core.Option.{Option, none, some}
use mathlib.Core.Path.{◌≡◌, refl}

abbrev pub Run : Type 0 → Type 0 → Type 0
Run S A = S → Option (A × S)

module _ {S : Type 0} where
  abbrev pub pure : {A : Type 0} → A → Run S A
  pure a s = some (a, s)

  abbrev pub fault : {A : Type 0} → Run S A
  fault s = none

  infixl 5 ◌>>=◌ ◌>>◌
  abbrev pub ◌>>=◌ : {A B : Type 0} → Run S A → (A → Run S B) → Run S B
  ◌>>=◌ m f s = elim (m s) [ none ↦ none | some (a, s') ↦ f a s' ]

  abbrev pub ◌>>◌ : {A B : Type 0} → Run S A → Run S B → Run S B
  m >> k = m >>= λ _. k

  abbrev pub gets : {A : Type 0} → (S → A) → Run S A
  gets f s = some (f s, s)

  abbrev pub modify : (S → S) → Run S (Unit {0})
  modify f s = some (tt, f s)

  abbrev pub assert : Bool → Run S (Unit {0})
  assert true s = some (tt, s)
  assert false s = none

  -- A pointer that must not be NULL.
  abbrev pub deref : {A : Type 0} → Option A → Run S A
  deref none s = none
  deref (some a) s = some (a, s)

module _ {S A : Type 0} where
  pub bind_pure : (m : Run S A) (s : S) → (m >>= λ a. pure a) s ≡ m s
  bind_pure m s = step (m s)
    where
      step : (o : Option (A × S)) → ((λ _. o) >>= λ a. pure a) s ≡ o
      step none = refl
      step (some (a, t)) = refl

module _ {S A B C : Type 0} where
  pub bind_assoc :
      (m : Run S A) (f : A → Run S B) (g : B → Run S C) (s : S)
      → ((m >>= f) >>= g) s ≡ (m >>= λ a. f a >>= g) s
  bind_assoc m f g s = step (m s)
    where
      step : (o : Option (A × S)) → (((λ _. o) >>= f) >>= g) s ≡ ((λ _. o) >>= λ a. f a >>= g) s
      step none = refl
      step (some (a, t)) = refl

-- A run that ends, with what holds of its result and of the state after it.
pub data Returns {S A : Type 0} (P : A → S → Type 0) : Option (A × S) → Type 0 where
  returns : (a : A) (s : S) → P a s → Returns P (some (a, s))

module _ {S A B : Type 0} {P : A → S → Type 0} {Q : B → S → Type 0} where
  pub Returns-bind :
      (m : Run S A) (f : A → Run S B) (s : S)
      → Returns P (m s)
      → ((a : A) (s' : S) → P a s' → Returns Q (f a s'))
      → Returns Q ((m >>= f) s)
  Returns-bind m f s r k = step (m s) r
    where
      step :
          (o : Option (A × S))
          → Returns P o
          → Returns Q (elim o [ none ↦ none | some (a, s') ↦ f a s' ])
      step o (returns a s' p) = k a s' p

module _ {S A : Type 0} where
  pub Returns-weaken :
      {P Q : A → S → Type 0} {o : Option (A × S)}
      → Returns P o
      → ((a : A) (s : S) → P a s → Q a s)
      → Returns Q o
  Returns-weaken (returns a s p) k = returns a s (k a s p)

  -- The result written out.
  pub Returns-some :
      {P : A → S → Type 0} {o : Option (A × S)}
      → Returns P o
      → (a : A) × (s : S) × (o ≡ some (a, s)) × P a s
  Returns-some (returns a s p) = (a, s, refl, p)

  pub Returns-at : {P : A → S → Type 0} {a : A} {s : S} → Returns P (some (a, s)) → P a s
  Returns-at (returns a s p) = p
