-- ===== src/Control/Volume/Decibels.antt =====
-- The decibels of the levels from 0 to 100: the way back to the level, their order, and the number
-- that the variable VolumeDB shows.
use gmrender_resurrect.Prelude.{
  ℕ, zero, suc, ◌-◌, ◌≤◌, ◌<◌, ◌≡◌, refl, arith, Bool, true, false, ◌||◌, Option, none, some, ltb,
  ◌==◌, if◌then◌else◌, all_below, all_below-at,
}
use gmrender_resurrect.Prelude.Int.{ℤ, pos, negsuc, pos_part, ◌≤ℤ◌}
use gmrender_resurrect.Prelude.Float.{Float, number, infinity, minus_infinity, nan, flt}
use mathlib.Core.Path.{subst}
use gmrender_resurrect.Control.Volume.{
  clamp_level, slope, volume_level_to_decibel, volume_decibel_to_level, decibel_units,
  volume_db_range,
}

-- The levels that rounding takes to just below a whole number of levels.
abbrev is_low : ℕ → Bool
is_low n =
    n == 1
    || n == 2
    || n == 6
    || n == 7
    || n == 11
    || n == 12
    || n == 16
    || n == 17
    || n == 22
    || n == 27
    || n == 32

-- The level that comes back for a level.
unfoldable pub returned : ℕ → ℕ
returned n = if is_low n then n - 1 else n

is_level : ℕ → Option ℤ → Bool
is_level n (some (pos m)) = m == n
is_level n _ = false

pub clamp_level-le : (volume : ℤ) → pos_part (clamp_level volume) < 101
clamp_level-le (pos n) = ground arith
clamp_level-le (negsuc n) = ground arith

unfoldable comes_back : ℕ → Bool
unfolding is_level returned slope volume_decibel_to_level
comes_back n = is_level (returned n) (volume_decibel_to_level (slope n))

all_come_back : all_below comes_back 101 ≡ true
unfolding comes_back
all_come_back = refl

is_level-eq : (n : ℕ) (r : Option ℤ) → is_level n r ≡ true → r ≡ some (pos n)
unfolding is_level
is_level-eq n (some (pos m)) e = ground (arith, e)
is_level-eq n (some (negsuc m)) e = absurd (ground (arith, e))
is_level-eq n none e = absurd (ground (arith, e))

-- A level turned into decibels and back is the level, cut to the range from 0 to 100, but for eleven
-- levels below 33, which come back one lower.
pub level_from_decibel-decibel :
    (volume : ℤ)
    → volume_decibel_to_level (volume_level_to_decibel volume)
      ≡ some (pos (returned (pos_part (clamp_level volume))))
unfolding volume_level_to_decibel comes_back
level_from_decibel-decibel volume = is_level-eq _ _ (
    all_below-at comes_back 101 all_come_back (pos_part (clamp_level volume))
      (clamp_level-le volume))

in_db_range : Option ℤ → Bool
in_db_range (some (pos m)) = m == 0
in_db_range (some (negsuc m)) = ltb m 15360
in_db_range none = false

unfoldable units_fit : ℕ → Bool
unfolding in_db_range slope decibel_units
units_fit n = in_db_range (decibel_units (slope n))

all_units_fit : all_below units_fit 101 ≡ true
unfolding units_fit
all_units_fit = refl

unfoldable rises : ℕ → Bool
unfolding slope flt
rises n = flt (slope n) (slope (suc n))

all_rise : all_below rises 100 ≡ true
unfolding rises
all_rise = refl

flt_trans : (x y z : Float) → flt x y ≡ true → flt y z ≡ true → flt x z ≡ true
unfolding flt
flt_trans (number a) (number b) (number c) e f = ground (arith, e, f)
flt_trans (number a) (number b) infinity e f = refl
flt_trans (number a) infinity z e f = absurd (ground (arith, f))
flt_trans minus_infinity (number b) (number c) e f = refl
flt_trans minus_infinity y infinity e f = refl
flt_trans minus_infinity infinity z e f = absurd (ground (arith, f))
flt_trans x y minus_infinity e f = absurd (ground (arith, f))
flt_trans x y nan e f = absurd (ground (arith, f))
flt_trans x minus_infinity z e f = absurd (ground (arith, e))
flt_trans x nan z e f = absurd (ground (arith, e))
flt_trans infinity y z e f = absurd (ground (arith, e))
flt_trans nan y z e f = absurd (ground (arith, e))

abbrev InDbRange : Option ℤ → Type 0
InDbRange r = (d : ℤ) × (r ≡ some d) × (volume_db_range.min ≤ℤ d) × (d ≤ℤ volume_db_range.max)

in_db_range-some : (r : Option ℤ) → in_db_range r ≡ true → InDbRange r
unfolding in_db_range
in_db_range-some none e = absurd (ground (arith, e))
in_db_range-some (some (pos m)) e = (pos m, refl, omega arith, ground (arith, e))
in_db_range-some (some (negsuc m)) e = (negsuc m, refl, ground (arith, e), omega arith)

-- The decibels of a level, in 1/256, are a whole number from -15360 to 0, the range that the table of
-- the variables declares for VolumeDB.
pub decibel_units-range :
    (volume : ℤ)
    → (d : ℤ) × (decibel_units (volume_level_to_decibel volume) ≡ some d)
      × (volume_db_range.min ≤ℤ d)
      × (d ≤ℤ volume_db_range.max)
unfolding volume_level_to_decibel units_fit
decibel_units-range volume = in_db_range-some _ (
    all_below-at units_fit 101 all_units_fit (pos_part (clamp_level volume))
      (clamp_level-le volume))

less : (n m : ℕ) → ltb n m ≡ true → n < m
less n m e = ground (arith, e)

not_less : (n m : ℕ) → ltb n m ≡ false → n < suc m → m ≡ n
not_less n m e h = ground (arith, e, h)

slope_mono : (n m : ℕ) → n < m → m ≤ 100 → flt (slope n) (slope m) ≡ true
unfolding rises
slope_mono n zero h k = absurd (omega (arith, h))
slope_mono n (suc m) h k = by_place (slope_mono n m) (ltb n m) refl
  where
    last : flt (slope m) (slope (suc m)) ≡ true
    last = all_below-at rises 100 all_rise m (omega (arith, k))

    by_place :
        (n < m → m ≤ 100 → flt (slope n) (slope m) ≡ true)
        → (b : Bool) → ltb n m ≡ b
        → flt (slope n) (slope (suc m)) ≡ true
    by_place below true e =
        flt_trans (slope n) (slope m) (slope (suc m)) (below (less n m e) (omega (arith, k))) last
    by_place below false e =
        subst (λ i. flt (slope i) (slope (suc m)) ≡ true) (not_less n m e h) last

clamp_level-pos : (n : ℕ) → n ≤ 100 → pos_part (clamp_level (pos n)) ≡ n
clamp_level-pos n h = ground (arith, h)

-- Of two levels from 0 to 100 the greater has the greater decibels.
pub volume_level_to_decibel_mono :
    (n m : ℕ)
    → n < m
    → m ≤ 100
    → flt (volume_level_to_decibel (pos n)) (volume_level_to_decibel (pos m)) ≡ true
unfolding volume_level_to_decibel
volume_level_to_decibel_mono n m h k =
    rw (clamp_level-pos n (omega (arith, h, k))) (rw (clamp_level-pos m k) (slope_mono n m h k))
