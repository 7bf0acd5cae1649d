-- ===== src/Control/Numbers.antt =====
-- The conversion of a C string to an int by `atoi`, as glibc does it, on a machine whose long has 64
-- bits and whose int has 32.
use gmrender_resurrect.Prelude.{ℕ, ◌-◌, ◌^◌, Bool, [], ◌∷◌, ltb, ◌==◌, if◌then◌else◌, length}
use gmrender_resurrect.Prelude.Text.{Bytes}
use gmrender_resurrect.Prelude.Int.{as_int, ℤ, pos, sub_ℕ}
use gmrender_resurrect.Transport.Time.{skip_space, read_digits}

-- The number of the leading digits.
abbrev digits_value : Bytes → ℕ
digits_value s = (read_digits (length s) s 0 Bool.false).0

abbrev at_most : ℕ → ℕ → ℕ
at_most limit n = if ltb limit n then limit else n

-- `strtol` in base 10 on a text without leading space; a value out of range is cut.
unfoldable pub strtol : Bytes → ℤ
unfolding read_digits
strtol [] = pos 0
strtol (c ∷ s) =
    if c == b'-'
    then sub_ℕ 0 (at_most (2 ^ 63) (digits_value s))
    else if c == b'+'
    then pos (at_most (2 ^ 63 - 1) (digits_value s))
    else pos (at_most (2 ^ 63 - 1) (digits_value (c ∷ s)))

unfoldable pub atoi : Bytes → ℤ
unfolding strtol as_int skip_space
atoi s = as_int (strtol (skip_space s))
