-- ===== src/Transport/Time/Reading.antt =====
-- What `parse_upnp_time` reads from a text that `print_upnp_time` wrote.
use mathlib.Core.Path.{subst}
use gmrender_resurrect.Prelude.{
  ℕ, zero, suc, ◌+◌, ◌-◌, ◌*◌, ◌/◌, ◌%◌, ◌^◌, ◌<◌, ◌≤◌, ◌≡◌, ◌≢◌, refl, ap, ◌∙◌, arith, Bool, true,
  false, ◌||◌, not, none, some, [], ◌∷◌, ◌++◌, length, length-append, take_all, ltb,
}
use gmrender_resurrect.Prelude.Text.{Bytes, is_empty}
use gmrender_resurrect.Prelude.Int.{pos, ◌+ℤ◌}
use gmrender_resurrect.Transport.Time.{
  decimal, skip_space, read_digits, read_signed, scan_int, scan_int2, scan_colon, scan_second,
  scan_minute, scan_time, with_int, total_seconds, parse_upnp_time, print_upnp_time, scale, one_sec,
}
use gmrender_resurrect.Transport.Time.Text.{two_digits, time_text, print_upnp_time-text}

-- The number that digits spell behind `n`.
unfoldable value : ℕ → Bytes → ℕ
value n [] = n
value n (c ∷ s) = value (n * 10 + (c - b'0')) s

abbrev AreDigits : Bytes → Type 0
AreDigits [] = Unit {0}
AreDigits (c ∷ s) = (b'0' ≤ c) × (c ≤ b'9') × AreDigits s

value-snoc : (n : ℕ) (s : Bytes) (c : ℕ) → value n (s ++ (c ∷ [])) ≡ value n s * 10 + (c - b'0')
unfolding value
value-snoc n [] c = refl
value-snoc n (d ∷ s) c = value-snoc (n * 10 + (d - b'0')) s c

AreDigits-snoc : (s : Bytes) (c : ℕ) → AreDigits s → b'0' ≤ c → c ≤ b'9' → AreDigits (s ++ (c ∷ []))
AreDigits-snoc [] c a l u = (l, u, tt)
AreDigits-snoc (d ∷ s) c a l u = (a.0, a.1, AreDigits-snoc s c a.2 l u)

-- What is known of the digits of a number.
record Spells (k n : ℕ) (s : Bytes) : Type 0 where
  digits : AreDigits s
  short : length s ≤ k
  some_digit : s ≢ []
  value_eq : value 0 s ≡ n

decimal_small : (k n : ℕ) → ltb n 10 ≡ true → (b'0' + n) ∷ [] ≡ decimal (suc k) n
unfolding decimal
decimal_small k n e = ground (arith, e)

decimal_large :
    (k n : ℕ) → ltb n 10 ≡ false → decimal k (n / 10) ++ ((b'0' + n % 10) ∷ []) ≡ decimal (suc k) n
unfolding decimal
decimal_large k n e = ground (arith, e)

one_digit : (k n : ℕ) → n < 10 → Spells (suc k) n ((b'0' + n) ∷ [])
unfolding value
one_digit k n h = record {
  digits = (omega arith, omega (arith, h), tt);
  short = omega arith;
  some_digit = λ e. cc;
  value_eq = omega arith;
}

snoc_digit :
    (k n : ℕ) (s : Bytes) → Spells k (n / 10) s → Spells (suc k) n (s ++ ((b'0' + n % 10) ∷ []))
snoc_digit k n s h = record {
  digits = AreDigits-snoc s (b'0' + n % 10) h.digits (omega arith) (omega arith);
  short = omega (arith, h.short, length-append {0} s ((b'0' + n % 10) ∷ []));
  some_digit = not_empty s;
  value_eq = ground (arith, value-snoc 0 s (b'0' + n % 10), h.value_eq);
}
  where
    not_empty : (s : Bytes) → s ++ ((b'0' + n % 10) ∷ []) ≢ []
    not_empty [] e = cc
    not_empty (c ∷ s) e = cc

width_left : (k n : ℕ) → n < 10 ^ suc k → ltb n 10 ≡ false → 0 < k
width_left zero n h e = absurd (ground (arith, h, e))
width_left (suc k) n h e = omega arith

tenth-lt : (k n : ℕ) → n < 10 ^ suc k → n / 10 < 10 ^ k
tenth-lt k n h = omega (arith, h)

decimal-Spells : (k n : ℕ) → n < 10 ^ k → 0 < k → Spells k n (decimal k n)
decimal-Spells zero n h p = absurd (omega (arith, p))
decimal-Spells (suc k) n h p =
    by_test (ltb n 10) refl λ e. decimal-Spells k (n / 10) (tenth-lt k n h) (width_left k n h e)
  where
    by_test :
        (b : Bool)
        → ltb n 10 ≡ b
        → (ltb n 10 ≡ false → Spells k (n / 10) (decimal k (n / 10)))
        → Spells (suc k) n (decimal (suc k) n)
    by_test true e deeper =
        subst (Spells (suc k) n) (decimal_small k n e) (one_digit k n (ground (arith, e)))
    by_test false e deeper =
        subst (Spells (suc k) n) (decimal_large k n e) (snoc_digit k n _ (deeper e))

-- Reading digits that the width has room for.
read_digits-value :
    (ds rest : Bytes) (width n : ℕ) (seen : Bool)
    → AreDigits ds
    → read_digits (length ds + width) (ds ++ rest) n seen
      ≡ read_digits width rest (value n ds) (seen || not (is_empty ds))
unfolding read_digits value
read_digits-value [] rest width n seen a = ground arith
read_digits-value (c ∷ ds) rest width n seen a =
    let wider : length (c ∷ ds) + width ≡ suc (length ds + width) = omega arith in
    ap (λ w. read_digits w ((c ∷ ds) ++ rest) n seen) wider
    ∙ ground (arith, a.0, a.1, read_digits-value ds rest width (n * 10 + (c - b'0')) true a.2)

read_digits-colon :
    (width n : ℕ) (seen : Bool) (rest : Bytes)
    → read_digits width (b':' ∷ rest) n seen ≡ (n, seen, b':' ∷ rest)
unfolding read_digits
read_digits-colon zero n seen rest = refl
read_digits-colon (suc width) n seen rest = ground arith

scan_int2-two_digits :
    (k : ℕ) (rest : Bytes) → k < 60 → scan_int2 (two_digits k ++ rest) ≡ some (pos k, rest)
unfolding scan_int2 read_signed skip_space read_digits
scan_int2-two_digits k rest h = ground arith

scan_int-digits :
    (ds rest : Bytes)
    → AreDigits ds
    → ds ≢ []
    → scan_int (ds ++ (b':' ∷ rest)) ≡ some (pos (value 0 ds), b':' ∷ rest)
unfolding scan_int read_signed skip_space
scan_int-digits [] rest a ne = absurd (ne refl)
scan_int-digits (c ∷ ds) rest a ne = ground (
  arith,
  a.0,
  a.1,
  read_digits-value (c ∷ ds) (b':' ∷ rest) (length (b':' ∷ rest)) 0 false a,
  read_digits-colon (length (b':' ∷ rest)) (value 0 (c ∷ ds)) true rest,
  length-append {0} (c ∷ ds) (b':' ∷ rest),
)

scan_time-text :
    (hour minute second : ℕ)
    → hour < 10 ^ 10
    → minute < 60
    → second < 60
    → scan_time (decimal 10 hour ++ (b':' ∷ (two_digits minute ++ (b':' ∷ two_digits second))))
      ≡ (pos hour, pos minute, pos second)
unfolding scan_time scan_minute scan_second scan_colon
scan_time-text hour minute second h m s =
    let spelled = decimal-Spells 10 hour h (omega arith) in
    ground (
      arith,
      scan_int-digits (decimal 10 hour) (two_digits minute ++ (b':' ∷ two_digits second))
          spelled.digits spelled.some_digit,
      spelled.value_eq,
      scan_int2-two_digits minute (b':' ∷ two_digits second) m,
      scan_int2-two_digits second [] s,
    )

-- What was printed.
whole_text :
    (n : ℕ)
    → n < 2147483648 * 1000000000
    → time_text (pos n)
      ≡ decimal 10 (n / 3600000000000)
        ++ (b':' ∷ (two_digits (n / 60000000000 % 60) ++ (b':' ∷ two_digits (n / 1000000000 % 60))))
unfolding time_text
whole_text n h =
    let spelled = decimal-Spells 10 (n / 3600000000000) (omega (arith, h)) (omega arith) in
    take_all 31 _ (
      omega (
        arith,
        spelled.short,
        length-append {0} (decimal 10 (n / 3600000000000)) (
            b':'
            ∷ (two_digits (n / 60000000000 % 60) ++ (b':' ∷ two_digits (n / 1000000000 % 60)))),
      ))

seconds_fit :
    (hour minute second : ℕ)
    → 3600 * hour + 60 * minute + second < 2 ^ 31
    → with_int (pos hour) (λ h. elim (total_seconds h (pos minute) (pos second)) [
      | none ↦ none
      | some seconds ↦ some (scale one_sec seconds)
    ])
      ≡ some (pos (one_sec * (3600 * hour + 60 * minute + second)))
unfolding with_int total_seconds ◌+ℤ◌
seconds_fit hour minute second h = ground arith

fields_total :
    (n : ℕ)
    → 3600 * (n / 3600000000000) + 60 * (n / 60000000000 % 60) + n / 1000000000 % 60
      ≡ n / 1000000000
fields_total n = omega arith

-- A time that is printed and read again comes back without the part of a second, if its seconds
-- fit an int.
pub parse_upnp_time-print_upnp_time :
    (n : ℕ)
    → n / 1000000000 < 2 ^ 31
    → parse_upnp_time (print_upnp_time 32 (pos n)) ≡ some (pos (1000000000 * (n / 1000000000)))
unfolding parse_upnp_time
parse_upnp_time-print_upnp_time n h =
    ap parse_upnp_time (print_upnp_time-text (pos n) ∙ whole_text n (omega (arith, h)))
    ∙ ap
        (λ t. with_int t.0 λ hour. elim (total_seconds hour t.1 t.2) [
          | none ↦ none
          | some seconds ↦ some (scale one_sec seconds)
        ])
        (scan_time-text (n / 3600000000000) (n / 60000000000 % 60) (n / 1000000000 % 60)
          (omega (arith, h)) (omega arith) (omega arith))
    ∙ seconds_fit (n / 3600000000000) (n / 60000000000 % 60) (n / 1000000000 % 60)
        (omega (arith, h))
    ∙ ap (λ seconds. some (pos (one_sec * seconds))) (fields_total n)
