-- ===== src/Prelude/Bits.antt =====
-- An unsigned word as a set of bit numbers, digit by digit: `word & (1 << n)` and
-- `word |= (1 << n)`.
use Prim.Native.Nat.{ℕ, zero, suc, ◌+◌, ◌*◌, ◌/◌, ◌%◌}
use mathlib.Core.Bool.{Bool, true}
use mathlib.Core.Logic.{◌≢◌}
use mathlib.Core.Path.{◌≡◌, refl, ap, ◌∙◌}
use native.Mathlib.Omega.{arith}
use gmrender_resurrect.Prelude.Tests.{◌==◌, if◌then◌else◌}

-- `word & (1 << n)` is not zero.
unfoldable pub test_bit : ℕ → ℕ → Bool
test_bit word zero = word % 2 == 1
test_bit word (suc n) = test_bit (word / 2) n

-- `word | (1 << n)`
unfoldable pub set_bit : ℕ → ℕ → ℕ
set_bit word zero = if word % 2 == 1 then word else word + 1
set_bit word (suc n) = set_bit (word / 2) n * 2 + word % 2

pub test_bit-set_bit_self : (word n : ℕ) → test_bit (set_bit word n) n ≡ true
unfolding test_bit set_bit
test_bit-set_bit_self word zero = ground arith
test_bit-set_bit_self word (suc n) =
    let half : (set_bit (word / 2) n * 2 + word % 2) / 2 ≡ set_bit (word / 2) n = omega arith in
    ap (λ w. test_bit w n) half ∙ test_bit-set_bit_self (word / 2) n

pub test_bit-set_bit_ne : (word n m : ℕ) → n ≢ m → test_bit (set_bit word n) m ≡ test_bit word m
unfolding test_bit set_bit
test_bit-set_bit_ne word zero zero h = absurd (h refl)
test_bit-set_bit_ne word zero (suc m) h = ap (λ w. test_bit w m) (ground arith)
test_bit-set_bit_ne word (suc n) zero h = ground arith
test_bit-set_bit_ne word (suc n) (suc m) h =
    let half : (set_bit (word / 2) n * 2 + word % 2) / 2 ≡ set_bit (word / 2) n = omega arith in
    ap (λ w. test_bit w m) half ∙ test_bit-set_bit_ne (word / 2) n m (λ e. h (ap suc e))
