-- ===== src/Clock/RoundTrip.antt =====
-- Parsing reads back what formatting writes, and gives only times of the calendar.
use filestor.Base.{
  ℕ, ◌≤◌, ◌<◌, ◌≡◌, true, [], ◌∷◌, ◌++◌, some, within, Text, arith, append_assoc, append-nil,
}
use filestor.Clock.{
  Time, days_in, two_digits, four_digits, format_month, format_time, two_number, one_or_two_number,
  year_number, skip, ranged, read_month, read_day, parse_month, parse_time, in_month,
}

pub record IsValid (t : Time) : Type 0 where
  pub year_ok : t.year < 10000
  pub month_lo : 1 ≤ t.month
  pub month_hi : t.month ≤ 12
  pub day_lo : 1 ≤ t.day
  pub day_hi : t.day ≤ days_in t.month t.year
  pub hour_ok : t.hour < 24
  pub minute_ok : t.minute < 60

days_in-le : (m y : ℕ) → days_in m y ≤ 31
unfolding days_in
days_in-le m y = ground arith

two_number-two_digits : (n : ℕ) (s : Text) → n < 100 → two_number (two_digits n ++ s) ≡ some (n, s)
unfolding two_number two_digits
two_number-two_digits n s h = ground arith

one_or_two_number-two_digits :
    (n : ℕ) (s : Text) → n < 100 → one_or_two_number (two_digits n ++ s) ≡ some (n, s)
unfolding one_or_two_number two_digits
one_or_two_number-two_digits n s h = ground arith

year_number-four_digits :
    (n : ℕ) (s : Text) → n < 10000 → year_number (four_digits n ++ s) ≡ some (n, s)
unfolding year_number four_digits
year_number-four_digits n s h = ground arith

within_ok : (lo hi n : ℕ) → lo ≤ n → n ≤ hi → within lo hi n ≡ true
within_ok lo hi n h k = ground arith

ranged_ok : (lo hi n : ℕ) (s : Text) → lo ≤ n → n ≤ hi → ranged lo hi (n, s) ≡ some (n, s)
ranged_ok lo hi n s h k = ground arith

read_month-format_month :
    (y m : ℕ) (s : Text)
    → y < 10000
    → 1 ≤ m
    → m ≤ 12
    → read_month (format_month y m ++ s) ≡ some (y, m, s)
unfolding read_month format_month skip
read_month-format_month y m s hy lo hi =
    rw (append_assoc, year_number-four_digits y _ hy, two_number-two_digits m s (omega arith))
      (rw (ranged_ok 1 12 m s lo hi))

two_number-two_digits_end : (n : ℕ) → n < 100 → two_number (two_digits n) ≡ some (n, [])
two_number-two_digits_end n h = rw (append-nil) at (two_number-two_digits n [] h)

in_month_ok : (t : Time) → IsValid t → in_month t ≡ some t
in_month_ok t v = rw (within_ok 1 (days_in t.month t.year) t.day v.day_lo v.day_hi)

-- At the push layout, the text that Format writes of a time of the calendar parses back to the
-- time.
pub parse_time-format_time : (t : Time) → IsValid t → parse_time (format_time t) ≡ some t
unfolding parse_time read_day format_time skip
parse_time-format_time t v =
    rw (read_month-format_month t.year t.month _ v.year_ok v.month_lo v.month_hi) (
      rw (two_number-two_digits t.day _ (omega (arith, v.day_hi, days_in-le t.month t.year))) (
        rw (one_or_two_number-two_digits t.hour _ (omega arith)) (
          rw (ranged_ok 0 23 t.hour (b':' ∷ two_digits t.minute) (omega arith) (omega arith)) (
            rw (two_number-two_digits_end t.minute (omega arith))
              (rw (ranged_ok 0 59 t.minute [] (omega arith) (omega arith)) (in_month_ok t v))))))

pub parse_month-format_month :
    (y m : ℕ) → y < 10000 → 1 ≤ m → m ≤ 12 → parse_month (format_month y m) ≡ some (y, m)
unfolding parse_month
parse_month-format_month y m hy lo hi =
    rw (← append-nil (format_month y m), read_month-format_month y m [] hy lo hi)
