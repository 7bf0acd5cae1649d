-- ===== src/Prelude/Float.antt =====
-- The type float of C as IEEE 754 binary32, rounded to the nearest with ties to even. A finite value
-- is counted in units of 2^-149, the smallest positive float; the sign of zero is not kept.
pub mod Bounds
use Prim.Native.Nat.{ℕ, zero, suc, ◌+◌, ◌*◌, ◌/◌, ◌%◌, ◌^◌}
use mathlib.Core.Bool.{Bool, true, false, ◌&&◌, ◌||◌}
use mathlib.Core.Option.{Option, none, some}
use gmrender_resurrect.Prelude.Tests.{ltb, leb, ◌==◌, if◌then◌else◌}
use gmrender_resurrect.Prelude.Int.{ℤ, pos, negsuc, pos_part, neg_part, sub_ℕ, ◌+ℤ◌, ltb_ℤ}

pub data Float : Type 0 where
  number : ℤ → Float
  infinity minus_infinity nan : Float

-- The units of 1.
abbrev pub one : ℕ
one = 2 ^ 149

-- The bits of a mantissa, and the units of the first magnitude that is too large.
abbrev pub precision : ℕ
precision = 2 ^ 24

abbrev pub overflow : ℕ
overflow = 2 ^ 277

-- How often `q` is halved until it has 24 bits; `fuel` bounds that from above.
unfoldable pub scale : ℕ → ℕ → ℕ
scale zero q = 0
scale (suc fuel) q = let more = scale fuel (q / 2) in if ltb q precision then 0 else suc more

-- No quotient reaches 2^554 units, which 530 halvings bring below 2^24.
abbrev pub scale_fuel : ℕ
scale_fuel = 530

-- `n / d` rounded to a whole number, ties to even.
unfoldable pub nearest : ℕ → ℕ → ℕ
nearest n d =
    if ltb (2 * (n % d)) d
    then n / d
    else if ltb d (2 * (n % d))
    then n / d + 1
    else n / d + n / d % 2

-- `n / d` units rounded to a float's 24 bits.
unfoldable pub round_quot : ℕ → ℕ → ℕ
unfolding scale nearest
round_quot n d = let k = scale scale_fuel (n / d) in nearest n (d * 2 ^ k) * 2 ^ k

-- The float of a sign and a rounded magnitude.
unfoldable pub signed : Bool → ℕ → Float
signed negative n =
    if ltb n overflow
    then number (if negative then sub_ℕ 0 n else pos n)
    else if negative
    then minus_infinity
    else infinity

abbrev pub magnitude : ℤ → ℕ
magnitude a = pos_part a + neg_part a

abbrev pub is_negative : ℤ → Bool
is_negative (pos n) = false
is_negative (negsuc n) = true

abbrev pub differ : Bool → Bool → Bool
differ true b = if b then false else true
differ false b = b

abbrev pub negate : ℤ → ℤ
negate a = sub_ℕ (neg_part a) (pos_part a)

-- The float of an integer, and a literal that is one.
unfoldable pub of_int : ℤ → Float
unfolding signed round_quot
of_int n = signed (is_negative n) (round_quot (magnitude n * one) 1)

unfoldable pub fneg : Float → Float
fneg (number a) = number (negate a)
fneg infinity = minus_infinity
fneg minus_infinity = infinity
fneg nan = nan

-- `+`
unfoldable pub fadd : Float → Float → Float
unfolding signed round_quot ◌+ℤ◌
fadd (number a) (number b) = signed (is_negative (a +ℤ b)) (round_quot (magnitude (a +ℤ b)) 1)
fadd nan y = nan
fadd (number a) y = y
fadd infinity minus_infinity = nan
fadd infinity nan = nan
fadd infinity y = infinity
fadd minus_infinity infinity = nan
fadd minus_infinity nan = nan
fadd minus_infinity y = minus_infinity

-- `-`
unfoldable pub fsub : Float → Float → Float
unfolding fadd fneg
fsub x y = fadd x (fneg y)

abbrev is_nan : Float → Bool
is_nan nan = true
is_nan _ = false

abbrev is_zero : Float → Bool
is_zero (number a) = magnitude a == 0
is_zero _ = false

abbrev below_zero : Float → Bool
below_zero (number a) = is_negative a
below_zero minus_infinity = true
below_zero _ = false

abbrev endless : Bool → Float
endless true = minus_infinity
endless false = infinity

-- `*`; with an infinite factor the sign decides.
unfoldable pub fmul : Float → Float → Float
unfolding signed round_quot
fmul (number a) (number b) =
    signed (differ (is_negative a) (is_negative b)) (round_quot (magnitude a * magnitude b) one)
fmul x y =
    if (is_nan x || is_nan y) || (is_zero x || is_zero y)
    then nan
    else endless (differ (below_zero x) (below_zero y))

-- `/` by a finite number that is not zero; the program divides by no other.
unfoldable pub fdiv : Float → Float → Float
unfolding signed round_quot
fdiv (number a) (number b) =
    signed (differ (is_negative a) (is_negative b)) (round_quot (magnitude a * one) (magnitude b))
fdiv nan y = nan
fdiv x y = if is_nan y then nan else endless (differ (below_zero x) (below_zero y))

-- `<`, which is false of a NaN.
unfoldable pub flt : Float → Float → Bool
flt (number a) (number b) = ltb_ℤ a b
flt nan y = false
flt x nan = false
flt infinity y = false
flt x minus_infinity = false
flt minus_infinity y = true
flt x infinity = true

-- `(int)`, which drops the fraction; `none` where C leaves the result undefined.
unfoldable pub to_int : Float → Option ℤ
to_int (number (pos n)) = if ltb (n / one) (2 ^ 31) then some (pos (n / one)) else none
to_int (number (negsuc n)) =
    if leb (suc n / one) (2 ^ 31) then some (sub_ℕ 0 (suc n / one)) else none
to_int _ = none
