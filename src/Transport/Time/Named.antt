-- ===== src/Transport/Time/Named.antt =====
-- The nanoseconds that a text names, as `parse_upnp_time` is to compute them.
use gmrender_resurrect.Prelude.{
  ◌≡◌, ◌∙◌, ap, arith, Option, none, some, Bool, ◌&&◌, leb, if◌then◌else◌,
}
use gmrender_resurrect.Prelude.Text.{Bytes}
use gmrender_resurrect.Prelude.Int.{ℤ, pos, negsuc, ◌+ℤ◌}
use gmrender_resurrect.Transport.Time.{
  parse_upnp_time, scan_time, scale, with_int, total_seconds, one_sec,
}

-- Whether a number is one of C's int.
unfoldable pub is_int : ℤ → Bool
is_int (pos n) = leb n 2147483647
is_int (negsuc n) = leb n 2147483647

-- The nanoseconds of a time with the fields of the format `%d:%02d:%02d`, if the hours and the
-- sums on the way to the seconds are ints.
unfoldable pub nanoseconds : ℤ → ℤ → ℤ → Option ℤ
unfolding is_int ◌+ℤ◌
nanoseconds h m s =
    if is_int h
      && is_int (scale 3600 h)
      && is_int (scale 60 m)
      && is_int (scale 3600 h +ℤ scale 60 m)
      && is_int (scale 3600 h +ℤ scale 60 m +ℤ s)
    then some (scale 1000000000 (scale 3600 h +ℤ scale 60 m +ℤ s))
    else none

unfoldable pub time_named : Bytes → Option ℤ
unfolding nanoseconds scan_time
time_named target = let (h, m, s) = scan_time target in nanoseconds h m s

with_int-eq : (n : ℤ) (k : ℤ → Option ℤ) → with_int n k ≡ (if is_int n then k n else none)
unfolding with_int is_int
with_int-eq (pos n) k = ground arith
with_int-eq (negsuc n) k = ground arith

total_seconds-eq :
    (h m s : ℤ)
    → total_seconds h m s ≡ (
        if is_int (scale 3600 h)
        then (if is_int (scale 60 m)
            then (if is_int (scale 3600 h +ℤ scale 60 m)
                then (if is_int (scale 3600 h +ℤ scale 60 m +ℤ s)
                    then some (scale 3600 h +ℤ scale 60 m +ℤ s)
                    else none)
                else none)
            else none)
        else none)
unfolding total_seconds
total_seconds-eq h m s =
    let last = λ (c : ℤ). with_int (c +ℤ s) λ seconds. some seconds in
    let middle = λ (b : ℤ). with_int (scale 3600 h +ℤ b) last in
    with_int-eq (scale 3600 h) (λ a.
      with_int (scale 60 m) λ b. with_int (a +ℤ b) λ c. with_int (c +ℤ s) λ seconds. some seconds)
    ∙ ap (λ r. if is_int (scale 3600 h) then r else none)
        (with_int-eq (scale 60 m) middle
          ∙ ap (λ r. if is_int (scale 60 m) then r else none)
              (with_int-eq (scale 3600 h +ℤ scale 60 m) last
                ∙ ap (λ r. if is_int (scale 3600 h +ℤ scale 60 m) then r else none)
                    (with_int-eq (scale 3600 h +ℤ scale 60 m +ℤ s) (λ seconds. some seconds))))

nanoseconds-eq :
    (h m s : ℤ)
    → (with_int h λ hour. elim (total_seconds hour m s) [
      | none ↦ none
      | some seconds ↦ some (scale one_sec seconds)
    ])
      ≡ nanoseconds h m s
unfolding nanoseconds
nanoseconds-eq h m s =
    with_int-eq h (λ hour. elim (total_seconds hour m s) [
      | none ↦ none
      | some seconds ↦ some (scale one_sec seconds)
    ])
    ∙ ground (arith, total_seconds-eq h m s)

pub time_named-eq : (target : Bytes) → parse_upnp_time target ≡ time_named target
unfolding parse_upnp_time time_named
time_named-eq target = nanoseconds-eq (scan_time target).0 (scan_time target).1 (scan_time target).2
