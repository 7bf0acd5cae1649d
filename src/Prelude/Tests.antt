-- ===== src/Prelude/Tests.antt =====
-- Boolean tests on the native numbers, the conditional, and splits that keep the equation.
use Prim.Native.Nat.{ℕ, zero, suc, ◌<◌, compare, Ordering}
use mathlib.Core.Path.{◌≡◌, refl, ap, ◌∙◌}
use mathlib.Core.Logic.{◌↔◌, ◌⊎◌, inl, inr}
use mathlib.Core.Bool.{Bool, true, false, ◌&&◌}
use mathlib.Core.Option.{Option, none, some}
use native.Mathlib.Omega.{arith}

abbrev pub ltb : ℕ → ℕ → Bool
ltb a b = elim (compare a b) [ Ordering.lt ↦ true | _ ↦ false ]

abbrev pub leb : ℕ → ℕ → Bool
leb a b = elim (compare a b) [ Ordering.gt ↦ false | _ ↦ true ]

infix 50 ◌==◌
abbrev pub ◌==◌ : ℕ → ℕ → Bool
a == b = elim (compare a b) [ Ordering.eq ↦ true | _ ↦ false ]

infix 1 if◌then◌else◌
abbrev pub if◌then◌else◌ {ℓ} : {A : Type ℓ} → Bool → A → A → A
if true then x else y = x
if false then x else y = y

pub ==_iff : (a b : ℕ) → ((a == b) ≡ true) ↔ (a ≡ b)
==_iff a b = ground arith

pub Bool-cases : (b : Bool) → (b ≡ true) ⊎ (b ≡ false)
Bool-cases true = inl refl
Bool-cases false = inr refl

pub Option-cases {ℓ} : {A : Type ℓ} (o : Option A) → (o ≡ none) ⊎ ((a : A) × (o ≡ some a))
Option-cases none = inl refl
Option-cases (some a) = inr (a, refl)

-- A test that holds of all numbers below `n`.
abbrev pub all_below : (ℕ → Bool) → ℕ → Bool
all_below f zero = true
all_below f (suc n) = f n && all_below f n

pub all_below-at : (f : ℕ → Bool) (n : ℕ) → all_below f n ≡ true → (i : ℕ) → i < n → f i ≡ true
all_below-at f zero e i h = absurd (omega (arith, h))
all_below-at f (suc n) e i h = by_place (λ r k. all_below-at f n r i k) (i == n) refl
  where
    last : (b : Bool) → f n ≡ b → f n ≡ true
    last true eb = eb
    last false eb = absurd (ground (arith, e, eb))

    rest : (b : Bool) → all_below f n ≡ b → all_below f n ≡ true
    rest true eb = eb
    rest false eb = absurd (ground (arith, e, eb))

    by_place : (all_below f n ≡ true → i < n → f i ≡ true) → (b : Bool) → (i == n) ≡ b → f i ≡ true
    by_place below true eb = ap f (ground (arith, eb)) ∙ last (f n) refl
    by_place below false eb = below (rest (all_below f n) refl) (ground (arith, eb, h))
