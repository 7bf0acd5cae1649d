-- ===== src/Prelude/Float/Bounds.antt =====
-- How far a rounded quotient is from the quotient.
use Prim.Native.Nat.{ℕ, zero, suc, ◌+◌, ◌*◌, ◌/◌, ◌%◌, ◌^◌, ◌≤◌, ◌<◌}
use mathlib.Core.Path.{◌≡◌, refl}
use mathlib.Core.Logic.{◌⊎◌, inl, inr}
use native.Mathlib.Omega.{arith}
use native.Mathlib.Nat.{two-pow-succ, div-add-mod', div-mul-le_self, mul-le-mul_left}
use gmrender_resurrect.Prelude.Float.{scale, scale_fuel, nearest, round_quot}

scale_least : (f q : ℕ) → (scale f q ≡ 0) ⊎ (2 ^ 23 * 2 ^ scale f q ≤ q)
unfolding scale
scale_least zero q = inl refl
scale_least (suc f) q = elim (scale_least f (q / 2)) [
  | inl e ↦ ground (arith, e, two-pow-succ (scale f (q / 2)))
  | inr h ↦ ground (arith, h, two-pow-succ (scale f (q / 2)))
]

-- The fuel is enough for what 2^24 times a power of it bounds.
pub scale-lt : (f q : ℕ) → q < 2 ^ 24 * 2 ^ f → q < 2 ^ 24 * 2 ^ scale f q
unfolding scale
scale-lt zero q h = h
scale-lt (suc f) q h =
    ground (arith, scale-lt f (q / 2), h, two-pow-succ f, two-pow-succ (scale f (q / 2)))

nearest-cases : (n d : ℕ) → (nearest n d ≡ n / d) ⊎ ((nearest n d ≡ n / d + 1) × (d ≤ 2 * (n % d)))
unfolding nearest
nearest-cases n d = ground arith

-- The product with the divisor is at most half a divisor above the dividend.
nearest-le : (n d : ℕ) → 2 * (nearest n d * d) ≤ 2 * n + d
nearest-le n d = elim (nearest-cases n d) [
  | inl e ↦ rw e (omega (arith, div-add-mod' n d))
  | inr (e, h) ↦ rw e (omega (arith, h, div-add-mod' n d, add-mul (n / d) d))
]
  where
    add-mul : (q d : ℕ) → (q + 1) * d ≡ q * d + d
    add-mul q d = omega arith

regroup : (m d p : ℕ) → m * p * d ≡ m * (d * p)
regroup m d p = omega arith

-- The mantissa of 24 bits keeps the quotient up to one part in 2^24, and half a unit.
pub round_quot-le : (n d : ℕ) → 2 ^ 24 * (round_quot n d * d) ≤ (2 ^ 24 + 1) * n + 2 ^ 23 * d
unfolding round_quot
round_quot-le n d = bound (scale scale_fuel (n / d)) (scale_least scale_fuel (n / d))
  where
    unscaled : (k : ℕ) → k ≡ 0 → d * 2 ^ k ≡ d
    unscaled k e = rw e (omega arith)

    commuted : (q d : ℕ) → d * q ≡ q * d
    commuted q d = omega arith

    grouped : (d p : ℕ) → d * (2 ^ 23 * p) ≡ 2 ^ 23 * (d * p)
    grouped d p = omega arith

    bound :
        (k : ℕ)
        → (k ≡ 0) ⊎ (2 ^ 23 * 2 ^ k ≤ n / d)
        → 2 ^ 24 * (nearest n (d * 2 ^ k) * 2 ^ k * d) ≤ (2 ^ 24 + 1) * n + 2 ^ 23 * d
    bound k (inl e) =
        omega
          (arith, regroup (nearest n (d * 2 ^ k)) d (2 ^ k), nearest-le n (d * 2 ^ k), unscaled k e)
    bound k (inr h) = omega (
      arith,
      regroup (nearest n (d * 2 ^ k)) d (2 ^ k),
      nearest-le n (d * 2 ^ k),
      mul-le-mul_left d h,
      div-mul-le_self n d,
      commuted (n / d) d,
      grouped d (2 ^ k),
    )
