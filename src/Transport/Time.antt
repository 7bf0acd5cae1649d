-- ===== src/Transport/Time.antt =====
-- src/upnp_transport.c: the times of UPnP, `print_upnp_time` and `parse_upnp_time`, with the parts
-- of snprintf and sscanf that they use. A time is in nanoseconds.
pub mod Text
pub mod Named
pub mod Reading
use gmrender_resurrect.Prelude.{
  ℕ, zero, suc, ◌+◌, ◌-◌, ◌*◌, ◌/◌, ◌%◌, ◌^◌, Bool, true, false, ◌&&◌, ◌||◌, Option, none, some, [],
  ◌∷◌, ◌++◌, ltb, leb, ◌==◌, if◌then◌else◌, length, take,
}
use gmrender_resurrect.Prelude.Text.{Bytes}
use gmrender_resurrect.Prelude.Int.{ℤ, pos, negsuc, sub_ℕ, ◌+ℤ◌}

-- The decimal digits of `n`, at most `k` of them.
unfoldable pub decimal : ℕ → ℕ → Bytes
decimal zero n = []
decimal (suc k) n =
    if ltb n 10 then (b'0' + n) ∷ [] else decimal k (n / 10) ++ ((b'0' + n % 10) ∷ [])

-- An int has ten digits at most.
abbrev pub int_digits : ℕ
int_digits = 10

-- `%d`
unfoldable pub print_int : ℤ → Bytes
print_int (pos n) = decimal int_digits n
print_int (negsuc n) = b'-' ∷ decimal int_digits (suc n)

-- `%02d`
unfoldable pub print_int2 : ℤ → Bytes
print_int2 (pos n) = if ltb n 10 then b'0' ∷ decimal int_digits n else decimal int_digits n
print_int2 (negsuc n) = b'-' ∷ decimal int_digits (suc n)

abbrev pub negate : ℕ → ℤ
negate n = sub_ℕ 0 n

-- `divide_leave_remainder`: the quotient, and the remainder left in `*val`. C rounds to zero.
unfoldable pub divide_leave_remainder : ℤ → ℕ → ℤ × ℤ
divide_leave_remainder (pos n) divisor = (pos (n / divisor), pos (n % divisor))
divide_leave_remainder (negsuc n) divisor = (negate (suc n / divisor), negate (suc n % divisor))

abbrev pub one_sec : ℕ
one_sec = 1000000000

-- `print_upnp_time` into a buffer of `size` bytes.
unfoldable pub print_upnp_time : ℕ → ℤ → Bytes
unfolding decimal print_int print_int2 divide_leave_remainder
print_upnp_time size t =
    let (hour, t1) = divide_leave_remainder t (3600 * one_sec) in
    let (minute, t2) = divide_leave_remainder t1 (60 * one_sec) in
    let (second, t3) = divide_leave_remainder t2 one_sec in
    take (size - 1) (print_int hour ++ (b':' ∷ (print_int2 minute ++ (b':' ∷ print_int2 second))))

abbrev is_space : ℕ → Bool
is_space c = c == 32 || (leb 9 c && leb c 13)

abbrev pub is_digit : ℕ → Bool
is_digit c = leb b'0' c && leb c b'9'

unfoldable pub skip_space : Bytes → Bytes
skip_space [] = []
skip_space (c ∷ s) = let rest = skip_space s in if is_space c then rest else c ∷ s

-- Digits, `width` at most, behind `n`: the number read, whether there was a digit, and the rest.
unfoldable pub read_digits : ℕ → Bytes → ℕ → Bool → ℕ × Bool × Bytes
read_digits zero s n seen = (n, seen, s)
read_digits (suc width) [] n seen = (n, seen, [])
read_digits (suc width) (c ∷ s) n seen =
    let more = read_digits width s (n * 10 + (c - b'0')) true in
    if is_digit c then more else (n, seen, c ∷ s)

abbrev as_int : (ℕ → ℤ) → ℕ × Bool × Bytes → Option (ℤ × Bytes)
as_int sign (n, true, rest) = some (sign n, rest)
as_int sign (n, false, rest) = none

-- An integer with its sign, which counts for the width.
unfoldable pub read_signed : ℕ → Bytes → Option (ℤ × Bytes)
unfolding read_digits
read_signed width [] = none
read_signed width (c ∷ s) =
    if c == b'-'
    then as_int negate (read_digits (width - 1) s 0 false)
    else if c == b'+'
    then as_int pos (read_digits (width - 1) s 0 false)
    else as_int pos (read_digits width (c ∷ s) 0 false)

-- `%d`, and `%02d`, which reads two characters at most.
unfoldable pub scan_int : Bytes → Option (ℤ × Bytes)
unfolding skip_space read_signed
scan_int s = read_signed (length s) (skip_space s)

unfoldable pub scan_int2 : Bytes → Option (ℤ × Bytes)
unfolding skip_space read_signed
scan_int2 s = read_signed 2 (skip_space s)

-- A `:` of the format.
unfoldable pub scan_colon : Bytes → Option Bytes
scan_colon [] = none
scan_colon (c ∷ s) = if c == b':' then some s else none

-- The fields after the hour; the scan stops at the first that does not match, and leaves 0.
unfoldable pub scan_second : Bytes → ℤ
unfolding scan_int2 scan_colon
scan_second s = elim (scan_colon s) [
  | none ↦ pos 0
  | some s1 ↦ elim (scan_int2 s1) [ none ↦ pos 0 | some (second, _) ↦ second ]
]

unfoldable pub scan_minute : Bytes → ℤ × ℤ
unfolding scan_int2 scan_colon scan_second
scan_minute s = elim (scan_colon s) [
  | none ↦ (pos 0, pos 0)
  | some s1 ↦ elim (scan_int2 s1) [
    | none ↦ (pos 0, pos 0)
    | some (minute, rest) ↦ (minute, scan_second rest)
  ]
]

unfoldable pub scan_time : Bytes → ℤ × ℤ × ℤ
unfolding scan_int scan_minute
scan_time s = elim (scan_int s) [
  | none ↦ (pos 0, pos 0, pos 0)
  | some (hour, rest) ↦ let (minute, second) = scan_minute rest in (hour, minute, second)
]

abbrev pub scale : ℕ → ℤ → ℤ
scale k (pos n) = pos (k * n)
scale k (negsuc n) = negate (k * suc n)

-- A result of C's int; `none` where it does not fit.
unfoldable pub with_int : ℤ → (ℤ → Option ℤ) → Option ℤ
with_int (pos n) k = if ltb n (2 ^ 31) then k (pos n) else none
with_int (negsuc n) k = if ltb n (2 ^ 31) then k (negsuc n) else none

-- `hour * 3600 + minute * 60 + second`
unfoldable pub total_seconds : ℤ → ℤ → ℤ → Option ℤ
unfolding with_int ◌+ℤ◌
total_seconds hour minute second = with_int (scale 3600 hour) λ a.
    with_int (scale 60 minute)
      λ b. with_int (a +ℤ b) λ c. with_int (c +ℤ second) λ seconds. some seconds

-- `parse_upnp_time`: a fault where a number that `sscanf` reads or a sum does not fit an int.
unfoldable pub parse_upnp_time : Bytes → Option ℤ
unfolding scan_time with_int total_seconds
parse_upnp_time time_string =
    let (hour, minute, second) = scan_time time_string in
    with_int hour λ h. elim (total_seconds h minute second) [
      | none ↦ none
      | some seconds ↦ some (scale one_sec seconds)
    ]
