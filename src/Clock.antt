-- ===== src/Clock.antt =====
-- Wall-clock times: the layouts pushTimeLayout "2006-01-02T15:04" (push.go) and
-- browseMonthLayout "2006-01" (browse.go), as Go's time.Parse and Time.Format read and write them.
-- A text is the list of its code points; a time has no zone, as time.Parse gives UTC.
pub mod RoundTrip
pub mod Accepted
use filestor.Base.{
  ℕ, zero, suc, ◌+◌, ◌-◌, ◌*◌, ◌/◌, ◌%◌, ◌≡◌, refl, Bool, true, false, ◌&&◌, ◌||◌, not, List, [],
  ◌∷◌, ◌++◌, Option, none, some, leb, ltb, ◌==◌, within, if◌then◌else◌, Text, codes,
}

pub record Time : Type 0 where
  pub year : ℕ
  pub month : ℕ
  pub day : ℕ
  pub hour : ℕ
  pub minute : ℕ

unfoldable pub is_leap : ℕ → Bool
is_leap y = y % 4 == 0 && (not (y % 100 == 0) || y % 400 == 0)

-- daysIn of Go's time package
unfoldable pub days_in : ℕ → ℕ → ℕ
unfolding is_leap
days_in month year =
    if month == 2
    then if is_leap year then 29 else 28
    else if month == 4 || month == 6 || month == 9 || month == 11
    then 30
    else 31

abbrev pub digit : ℕ → ℕ
digit n = b'0' + n % 10

abbrev pub is_digit : ℕ → Bool
is_digit c = within b'0' b'9' c

abbrev pub value_of : ℕ → ℕ
value_of c = c - b'0'

-- "%02d" and "%04d" of a number in range
unfoldable pub two_digits : ℕ → Text
two_digits n = digit (n / 10) ∷ digit n ∷ []

unfoldable pub four_digits : ℕ → Text
four_digits n = digit (n / 1000) ∷ digit (n / 100) ∷ digit (n / 10) ∷ digit n ∷ []

-- browseMonthLayout
unfoldable pub format_month : ℕ → ℕ → Text
format_month year month = four_digits year ++ (b'-' ∷ two_digits month)

-- pushTimeLayout
unfoldable pub format_time : Time → Text
format_time t =
    format_month t.year t.month
    ++ (b'-' ∷ (two_digits t.day ++ (b'T' ∷ (two_digits t.hour ++ (b':' ∷ two_digits t.minute)))))

infixl 5 ◌>>=◌
abbrev pub ◌>>=◌ {ℓ κ} : {A : Type ℓ} {B : Type κ} → Option A → (A → Option B) → Option B
some a >>= f = f a
none >>= f = none

-- getnum(value, true): two digits, and what follows them
unfoldable pub two_number : Text → Option (ℕ × Text)
two_number (a ∷ b ∷ s) =
    if is_digit a && is_digit b then some (value_of a * 10 + value_of b, s) else none
two_number _ = none

-- getnum(value, false): one or two digits
unfoldable pub one_or_two_number : Text → Option (ℕ × Text)
one_or_two_number [] = none
one_or_two_number (a ∷ []) = if is_digit a then some (value_of a, []) else none
one_or_two_number (a ∷ b ∷ s) =
    if not (is_digit a)
    then none
    else if not (is_digit b)
    then some (value_of a, b ∷ s)
    else some (value_of a * 10 + value_of b, s)

-- stdLongYear: exactly four digits
unfoldable pub year_number : Text → Option (ℕ × Text)
year_number (a ∷ b ∷ c ∷ d ∷ s) =
    if is_digit a && is_digit b && is_digit c && is_digit d
    then some (value_of a * 1000 + value_of b * 100 + value_of c * 10 + value_of d, s)
    else none
year_number _ = none

-- a literal character of the layout
unfoldable pub skip : ℕ → Text → Option Text
skip l [] = none
skip l (c ∷ s) = if c == l then some s else none

-- a number that the layout holds to a range
abbrev pub ranged : ℕ → ℕ → ℕ × Text → Option (ℕ × Text)
ranged lo hi (n, s) = if within lo hi n then some (n, s) else none

abbrev pub at_end : Text → Option (Unit {0})
at_end [] = some tt
at_end (c ∷ s) = none

-- the year and the month, and what follows them
unfoldable pub read_month : Text → Option (ℕ × ℕ × Text)
read_month s = do
  (year, s) ← year_number s
  s ← skip b'-' s
  (month, s) ← (two_number s >>= ranged 1 12)
  some (year, month, s)

-- and the day: its range is checked when the whole text is read
unfoldable pub read_day : Text → Option (ℕ × ℕ × ℕ × Text)
read_day s = do
  (year, month, s) ← read_month s
  s ← skip b'-' s
  (day, s) ← two_number s
  some (year, month, day, s)

abbrev pub in_month : Time → Option Time
in_month t = if within 1 (days_in t.month t.year) t.day then some t else none

-- time.Parse(browseMonthLayout, s)
unfoldable pub parse_month : Text → Option (ℕ × ℕ)
parse_month s = do (year, month, s) ← read_month s; _ ← at_end s; some (year, month)

-- time.Parse("2006-01-02", s)
unfoldable pub parse_date : Text → Option Time
parse_date s = do
  (year, month, day, s) ← read_day s
  _ ← at_end s
  in_month (record { year = year; month = month; day = day; hour = 0; minute = 0 })

-- time.Parse(pushTimeLayout, s)
unfoldable pub parse_time : Text → Option Time
parse_time s = do
  (year, month, day, s) ← read_day s
  s ← skip b'T' s
  (hour, s) ← (one_or_two_number s >>= ranged 0 23)
  s ← skip b':' s
  (minute, s) ← (two_number s >>= ranged 0 59)
  _ ← at_end s
  in_month (record { year = year; month = month; day = day; hour = hour; minute = minute })
