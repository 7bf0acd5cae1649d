-- ===== src/Transport/Time/Text.antt =====
-- The text that `print_upnp_time` writes, in hours, minutes and seconds of the whole time.
use gmrender_resurrect.Prelude.{
  ℕ, zero, suc, ◌+◌, ◌/◌, ◌%◌, ◌<◌, ◌≡◌, refl, ap, ◌∙◌, arith, [], ◌∷◌, ◌++◌, take,
}
use gmrender_resurrect.Prelude.Text.{Bytes, codes}
use gmrender_resurrect.Prelude.Int.{ℤ, pos, negsuc}
use gmrender_resurrect.Transport.Time.{
  print_upnp_time, divide_leave_remainder, decimal, int_digits, print_int, print_int2, negate,
}

-- Two digits, for a number below 60, and with a sign.
abbrev pub two_digits : ℕ → Bytes
two_digits k = (b'0' + k / 10) ∷ (b'0' + k % 10) ∷ []

abbrev pub below_zero : Bytes → ℕ → Bytes
below_zero none_text zero = none_text
below_zero none_text (suc k) = b'-' ∷ decimal int_digits (suc k)

-- Hours, minutes and seconds. Each field of a time before zero has a sign.
unfoldable pub time_text : ℤ → Bytes
unfolding decimal
time_text (pos n) = take 31 (
    decimal 10 (n / 3600000000000)
    ++ (b':' ∷ (two_digits (n / 60000000000 % 60) ++ (b':' ∷ two_digits (n / 1000000000 % 60)))))
time_text (negsuc n) = take 31 (
    below_zero (codes "0") (suc n / 3600000000000)
    ++ (b':'
        ∷ (below_zero (codes "00") (suc n / 60000000000 % 60)
            ++ (b':' ∷ below_zero (codes "00") (suc n / 1000000000 % 60)))))

two_digits-eq : (k : ℕ) → k < 60 → print_int2 (pos k) ≡ two_digits k
unfolding print_int2 decimal
two_digits-eq k h = ground arith

negate-suc : (k : ℕ) → negate (suc k) ≡ negsuc k
negate-suc k = ground arith

below_zero-eq : (k : ℕ) → print_int2 (negate k) ≡ below_zero (codes "00") k
unfolding print_int2 decimal
below_zero-eq zero = refl
below_zero-eq (suc k) = ap print_int2 (negate-suc k)

below_zero_sign : (k : ℕ) → print_int (negate k) ≡ below_zero (codes "0") k
unfolding print_int decimal
below_zero_sign zero = refl
below_zero_sign (suc k) = ap print_int (negate-suc k)

minutes_eq : (n : ℕ) → (n % 3600000000000) / 60000000000 ≡ n / 60000000000 % 60
minutes_eq n = omega arith

seconds_eq : (n : ℕ) → ((n % 3600000000000) % 60000000000) / 1000000000 ≡ n / 1000000000 % 60
seconds_eq n = omega arith

abbrev fields : Bytes → Bytes → Bytes → Bytes
fields h m s = take 31 (h ++ (b':' ∷ (m ++ (b':' ∷ s))))

fields_eq : {h h' m m' s s' : Bytes} → h ≡ h' → m ≡ m' → s ≡ s' → fields h m s ≡ fields h' m' s'
fields_eq {h' = h'} {m = m} {m' = m'} {s = s} eh em es =
    ap (λ h. fields h m s) eh ∙ ap (λ m. fields h' m s) em ∙ ap (fields h' m') es

minute_left :
    (r : ℕ)
    → divide_leave_remainder (negate r) 60000000000
      ≡ (negate (r / 60000000000), negate (r % 60000000000))
unfolding divide_leave_remainder
minute_left zero = refl
minute_left (suc k) = ap (λ t. divide_leave_remainder t 60000000000) (negate-suc k)

second_left :
    (r : ℕ)
    → divide_leave_remainder (negate r) 1000000000
      ≡ (negate (r / 1000000000), negate (r % 1000000000))
unfolding divide_leave_remainder
second_left zero = refl
second_left (suc k) = ap (λ t. divide_leave_remainder t 1000000000) (negate-suc k)

-- The text that is printed for a time.
pub print_upnp_time-text : (t : ℤ) → print_upnp_time 32 t ≡ time_text t
unfolding print_upnp_time divide_leave_remainder time_text
print_upnp_time-text (pos n) =
    fields_eq refl
      (ap (λ k. print_int2 (pos k)) (minutes_eq n)
        ∙ two_digits-eq (n / 60000000000 % 60) (omega arith))
      (ap (λ k. print_int2 (pos k)) (seconds_eq n)
        ∙ two_digits-eq (n / 1000000000 % 60) (omega arith))
print_upnp_time-text (negsuc n) =
    fields_eq (below_zero_sign (suc n / 3600000000000))
      (ap (λ d. print_int2 d.0) (minute_left (suc n % 3600000000000))
        ∙ ap (λ k. print_int2 (negate k)) (minutes_eq (suc n))
        ∙ below_zero-eq (suc n / 60000000000 % 60))
      (ap (λ d. print_int2 (divide_leave_remainder d.1 1000000000).0)
          (minute_left (suc n % 3600000000000))
        ∙ ap (λ d. print_int2 d.0) (second_left ((suc n % 3600000000000) % 60000000000))
        ∙ ap (λ k. print_int2 (negate k)) (seconds_eq (suc n))
        ∙ below_zero-eq (suc n / 1000000000 % 60))
