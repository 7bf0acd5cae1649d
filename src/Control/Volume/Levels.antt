-- ===== src/Control/Volume/Levels.antt =====
-- The range of the levels, and the way from a level to its decibels and back.
use gmrender_resurrect.Prelude.{
  ℕ, zero, suc, ◌+◌, ◌-◌, ◌*◌, ◌/◌, ◌^◌, ◌≤◌, ◌<◌, ◌≡◌, ◌≢◌, refl, sym, ap, ◌∙◌, arith, Bool, true,
  false, Option, some, if◌then◌else◌,
}
use gmrender_resurrect.Prelude.Int.{ℤ, pos, negsuc, ◌+ℤ◌}
use gmrender_resurrect.Prelude.Float
use gmrender_resurrect.Prelude.Float.{
  Float, number, infinity, minus_infinity, nan, one, overflow, round_quot, signed, of_int, fadd,
  fsub, fneg, fmul, fdiv, flt, to_int,
}
use gmrender_resurrect.Prelude.Float.Bounds.{round_quot-le}
use gmrender_resurrect.Control.Volume.{vol_min_db, vol_mid_db, vol_max_db, volume_decibel_to_level}
use mathlib.Core.Path.{subst}

-- A float that is a quotient rounded.
record Near (r : Float) (n d : ℕ) : Type 0 where
  units : ℕ
  value : r ≡ number (pos units)
  units-le : 2 ^ 24 * (units * d) ≤ (2 ^ 24 + 1) * n + 2 ^ 23 * d

signed-Near : (n d : ℕ) → round_quot n d < overflow → Near (signed false (round_quot n d)) n d
unfolding signed
signed-Near n d h = record {
  units = round_quot n d;
  value = ground (arith, h);
  units-le = round_quot-le n d;
}

fadd-Near : (a b : ℤ) (x : ℕ) → a +ℤ b ≡ pos x → x < 2 ^ 200 → Near (fadd (number a) (number b)) x 1
unfolding fadd
fadd-Near a b x e h =
    subst (λ c. Near (signed (Float.is_negative c) (round_quot (Float.magnitude c) 1)) x 1) (sym e)
      (subst (λ n. Near (signed false (round_quot n 1)) x 1) (add_zero x)
        (signed-Near x 1 (omega (arith, round_quot-le x 1, h))))
  where
    add_zero : (n : ℕ) → n ≡ n + 0
    add_zero n = omega arith

pos_add : (a b : ℕ) → pos a +ℤ pos b ≡ pos (a + b)
unfolding ◌+ℤ◌
pos_add a b = ground arith

neg_add : (n b : ℕ) → suc n ≤ b → negsuc n +ℤ pos b ≡ pos (b - suc n)
unfolding ◌+ℤ◌
neg_add n b h = ground arith

-- Times 50, the points of either half of the range.
fmul-Near :
    (x : ℕ) → x < 2 ^ 200 → Near (fmul (number (pos x)) (of_int (pos 50))) (50 * one * x) one
unfolding fmul of_int
fmul-Near x h =
    subst (λ n. Near (signed false (round_quot n one)) (50 * one * x) one) (swap x)
      (signed-Near (50 * one * x) one (omega (arith, round_quot-le (50 * one * x) one, h)))
  where
    swap : (n : ℕ) → 50 * one * n ≡ (n + 0) * (50 * one)
    swap n = omega arith

-- Over a whole number of decibels.
fdiv-Near :
    (x d : ℕ)
    → round_quot (one * x) (suc d) < overflow
    → Near (fdiv (number (pos x)) (number (pos (suc d)))) (one * x) (suc d)
unfolding fdiv
fdiv-Near x d h =
    subst (λ n. Near (signed false (round_quot n (suc d + 0))) (one * x) (suc d)) (swap x)
      (subst (λ e. Near (signed false (round_quot (one * x) e)) (one * x) (suc d)) (add_zero d)
        (signed-Near (one * x) (suc d) h))
  where
    swap : (n : ℕ) → one * n ≡ (n + 0) * one
    swap n = omega arith

    add_zero : (n : ℕ) → suc n ≡ suc n + 0
    add_zero n = omega arith

to_int-pos : (x : ℕ) → x / one < 2 ^ 31 → to_int (number (pos x)) ≡ some (pos (x / one))
unfolding to_int
to_int-pos x h = ground (arith, h)

-- A level that is there and at most `m`.
abbrev LevelUpTo : ℕ → Option ℤ → Type 0
LevelUpTo m r = (k : ℕ) × (r ≡ some (pos k)) × (k ≤ m)

-- The lower slope, at `x` units above its end.
lower-level :
    (x : ℕ)
    → x ≤ 40 * one + 2 ^ 140
    → LevelUpTo 50
        (to_int (fdiv (fmul (number (pos x)) (of_int (pos 50))) (number (pos (40 * one)))))
lower-level x h =
    let p = fmul-Near x (omega (arith, h)) in
    let q =
      fdiv-Near p.units (40 * one - 1)
        (omega (arith, p.units-le, round_quot-le (one * p.units) (40 * one), h)) in
    (
      q.units / one,
      rw p.value (rw q.value (to_int-pos q.units (omega (arith, q.units-le, p.units-le, h)))),
      omega (arith, q.units-le, p.units-le, h),
    )

-- The upper slope, at `x` units above its end.
upper-level :
    (x : ℕ)
    → x ≤ 20 * one + 2 ^ 140
    → LevelUpTo 100 (
        to_int (
          fadd
            (fdiv (fmul (number (pos x)) (of_int (pos 50))) (number (pos (20 * one))))
            (of_int (pos 50))))
unfolding of_int ◌+ℤ◌
upper-level x h =
    let p = fmul-Near x (omega (arith, h)) in
    let q =
      fdiv-Near p.units (20 * one - 1)
        (omega (arith, p.units-le, round_quot-le (one * p.units) (20 * one), h)) in
    let r =
      fadd-Near (pos q.units) (pos (50 * one)) (q.units + 50 * one) (pos_add q.units (50 * one))
        (omega (arith, q.units-le, p.units-le, h)) in
    let small : r.units / one ≤ 100 = omega (arith, r.units-le, q.units-le, p.units-le, h) in
    (
      r.units / one,
      rw p.value (rw q.value (rw r.value (to_int-pos r.units (omega (arith, small))))),
      small,
    )

abbrev on_lower : Float → Option ℤ
on_lower decibel =
    to_int (fdiv (fmul (fsub decibel vol_min_db) (of_int (pos 50))) (fsub vol_mid_db vol_min_db))

abbrev on_upper : Float → Option ℤ
on_upper decibel = to_int (
    fadd (fdiv (fmul (fsub decibel vol_mid_db) (of_int (pos 50))) (fsub vol_max_db vol_mid_db))
      (of_int (pos 50)))

-- By the guards: what is left is the two slopes.
level_by_slopes :
    (decibel : Float)
    → (flt decibel vol_min_db ≡ false
        → flt decibel vol_mid_db ≡ true
        → LevelUpTo 100 (on_lower decibel))
    → (flt vol_max_db decibel ≡ false
        → flt decibel vol_mid_db ≡ false
        → LevelUpTo 100 (on_upper decibel))
    → LevelUpTo 100 (volume_decibel_to_level decibel)
unfolding volume_decibel_to_level
level_by_slopes decibel lower upper =
    at_tests (flt decibel vol_min_db) refl (flt vol_max_db decibel) refl (flt decibel vol_mid_db)
      refl
  where
    at_tests :
        (b : Bool)
        → flt decibel vol_min_db ≡ b
        → (c : Bool) → flt vol_max_db decibel ≡ c
        → (d : Bool) → flt decibel vol_mid_db ≡ d
        → LevelUpTo 100 (
            if b
            then some (pos 0)
            else if c
            then some (pos 100)
            else if d
            then on_lower decibel
            else on_upper decibel)
    at_tests true e c f d g = (0, refl, omega arith)
    at_tests false e true f d g = (100, refl, omega arith)
    at_tests false e false f true g = lower e g
    at_tests false e false f false g = upper f g

flt-false : (n k : ℕ) → flt (number (negsuc n)) (number (negsuc k)) ≡ false → n ≤ k
unfolding flt
flt-false n k e = ground (arith, e)

flt-true : (n k : ℕ) → flt (number (negsuc n)) (number (negsuc k)) ≡ true → k < n
unfolding flt
flt-true n k e = ground (arith, e)

-- Below 0, in 2^-149 decibels.
negative-lower :
    (n : ℕ)
    → flt (number (negsuc n)) vol_min_db ≡ false
    → flt (number (negsuc n)) vol_mid_db ≡ true
    → LevelUpTo 100 (on_lower (number (negsuc n)))
unfolding vol_min_db vol_mid_db fsub fneg
negative-lower n e f =
    let above = flt-false n (60 * one - 1) e in
    let below = flt-true n (20 * one - 1) f in
    let p =
      fadd-Near (negsuc n) (pos (60 * one)) (60 * one - suc n)
        (neg_add n (60 * one) (omega (arith, above))) (omega arith) in
    let (k, q, h) = lower-level p.units (omega (arith, p.units-le, below)) in
    (k, ap at_lower p.value ∙ q, omega (arith, h))
  where
    at_lower : Float → Option ℤ
    at_lower r = to_int (fdiv (fmul r (of_int (pos 50))) (number (pos (40 * one))))

negative-upper :
    (n : ℕ)
    → flt (number (negsuc n)) vol_mid_db ≡ false
    → LevelUpTo 100 (on_upper (number (negsuc n)))
unfolding vol_max_db vol_mid_db fsub fneg
negative-upper n f =
    let above = flt-false n (20 * one - 1) f in
    let p =
      fadd-Near (negsuc n) (pos (20 * one)) (20 * one - suc n)
        (neg_add n (20 * one) (omega (arith, above))) (omega arith) in
    let (k, q, h) = upper-level p.units (omega (arith, p.units-le)) in
    (k, ap at_upper p.value ∙ q, h)
  where
    at_upper : Float → Option ℤ
    at_upper r =
        to_int (fadd (fdiv (fmul r (of_int (pos 50))) (number (pos (20 * one)))) (of_int (pos 50)))

above-max : (n : ℕ) → flt vol_max_db (number (pos (suc n))) ≢ false
unfolding vol_max_db flt
above-max n e = ground (arith, e)

above-mid : (n : ℕ) → flt (number (pos (suc n))) vol_mid_db ≢ true
unfolding vol_mid_db flt
above-mid n e = ground (arith, e)

-- Every float but a NaN has a level, from 0 to 100.
pub volume_decibel_to_level-range :
    (decibel : Float)
    → decibel ≢ nan
    → (level : ℕ) × (volume_decibel_to_level decibel ≡ some (pos level)) × (level ≤ 100)
unfolding volume_decibel_to_level flt vol_min_db vol_mid_db vol_max_db
volume_decibel_to_level-range nan h = absurd (h refl)
volume_decibel_to_level-range infinity h = (100, refl, omega arith)
volume_decibel_to_level-range minus_infinity h = (0, refl, omega arith)
volume_decibel_to_level-range (number (pos zero)) h = (100, refl, omega arith)
volume_decibel_to_level-range (number (pos (suc n))) h =
    level_by_slopes (number (pos (suc n))) (λ e f. absurd (above-mid n f))
      (λ e f. absurd (above-max n e))
volume_decibel_to_level-range (number (negsuc n)) h =
    level_by_slopes (number (negsuc n)) (negative-lower n) (λ e f. negative-upper n f)
