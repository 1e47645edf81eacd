-- ===== src/Browse/Calendar.antt =====
-- The calendar (browse.go: buildBrowseCalendar; server.go: handleBrowse). A day is a date of the
-- local calendar; the month is its year and its number, as handleBrowse passes the first day.
pub mod Grid
pub mod Groups
use filestor.Base.{
  ℕ, zero, suc, ◌+◌, ◌-◌, ◌*◌, ◌/◌, ◌%◌, Bool, true, false, ◌&&◌, ◌||◌, not, List, [], ◌∷◌, ◌++◌,
  reverse, map, Option, none, some, ltb, leb, ◌==◌, if◌then◌else◌, take, drop, Text, codes, text_eq,
  to_lower, has_prefix, lookup, insert,
}
use filestor.Clock.{
  Time, is_leap, days_in, four_digits, two_digits, format_month, parse_time, parse_month,
  parse_date,
}
use filestor.Bundle.{BundleMeta, is_uuid_v4}
use filestor.Workspace.Listing.{text_lt}

pub record Date : Type 0 where
  pub year : ℕ
  pub month : ℕ
  pub day : ℕ

-- calDay; day 0 is a blank cell
pub record CalDay : Type 0 where
  pub day : ℕ
  pub date : Text
  pub bundles : ℕ
  pub today : Bool
  pub selected : Bool

-- calDir
pub record CalDir : Type 0 where
  pub time : Text
  pub title : Text
  pub id : Text

-- calDayGroup
pub record CalDayGroup : Type 0 where
  pub date : Text
  pub bundles : List CalDir
  pub selected : Bool
  pub today : Bool

-- browseData
pub record BrowseData : Type 0 where
  pub month : Text
  pub month_label : Text
  pub prev_month : Text
  pub next_month : Text
  pub weeks : List (List CalDay)
  pub selected_day : Text
  pub selected_missing : Bool
  pub year : Text
  pub day_groups : List CalDayGroup

-- Format("20060102") and Format(browseDayLayout)
abbrev pub day_key : ℕ → ℕ → ℕ → Text
day_key y m d = four_digits y ++ (two_digits m ++ two_digits d)

abbrev pub format_date : ℕ → ℕ → ℕ → Text
format_date y m d = format_month y m ++ (b'-' ∷ two_digits d)

abbrev pub key_of : Option Date → Text
key_of none = []
key_of (some d) = day_key d.year d.month d.day

-- slices.SortStableFunc by the time's text
unfoldable pub insert_by_time : BundleMeta → List BundleMeta → List BundleMeta
insert_by_time b [] = b ∷ []
insert_by_time b (c ∷ cs) =
    let later = insert_by_time b cs in if text_lt c.time b.time then c ∷ later else b ∷ c ∷ cs

unfoldable pub sort_by_time : List BundleMeta → List BundleMeta
unfolding insert_by_time
sort_by_time [] = []
sort_by_time (b ∷ bs) = insert_by_time b (sort_by_time bs)

-- counts and groupsByKey; the groups are in the order of `ordered`
pub record Days : Type 0 where
  pub counts : List (Text × ℕ)
  pub groups : List (Text × CalDayGroup)

abbrev pub or_zero : Option ℕ → ℕ
or_zero none = 0
or_zero (some n) = n

abbrev pub group_of : Text → Text → Text → Time → Option CalDayGroup → CalDayGroup
group_of key selected today t (some g) = g
group_of key selected today t none = record {
  date = format_date t.year t.month t.day;
  bundles = [];
  selected = text_eq key selected;
  today = text_eq key today;
}

-- a bundle's entry under its day
abbrev pub dir_of : BundleMeta → Time → CalDir
dir_of b t = record {
  time = two_digits t.hour ++ (b':' ∷ two_digits t.minute);
  title = b.title;
  id = to_lower b.id;
}

-- one bundle whose time is read
abbrev pub add_at : Text → Text → Text → BundleMeta → Time → Days → Days
add_at month selected today b t s =
    let key = day_key t.year t.month t.day in
    let g = group_of key selected today t (lookup key s.groups) in
    record {
      counts =
          if has_prefix month b.time
          then insert key (or_zero (lookup key s.counts) + 1) s.counts
          else s.counts;
      groups = insert key (record g { bundles = dir_of b t ∷ g.bundles }) s.groups;
    }

abbrev pub add_parsed : Text → Text → Text → BundleMeta → Option Time → Days → Days
add_parsed month selected today b none s = s
add_parsed month selected today b (some t) s = add_at month selected today b t s

-- the loop over the sorted bundles
unfoldable pub add_bundles : Text → Text → Text → List BundleMeta → Days → Days
unfolding parse_time is_uuid_v4 to_lower
add_bundles month selected today [] s = s
add_bundles month selected today (b ∷ bs) s = add_bundles month selected today bs (
    if is_uuid_v4 (to_lower b.id)
    then add_parsed month selected today b (parse_time b.time) s
    else s)

-- The column of a month's first day, Monday first: the days since a Monday, modulo 7. The Gregorian
-- calendar repeats after 400 years, which are whole weeks.
abbrev pub days_before_month : ℕ → ℕ → ℕ
days_before_month y zero = 0
days_before_month y (suc zero) = 0
days_before_month y (suc (suc m)) = days_before_month y (suc m) + days_in (suc m) y

unfoldable pub first_column : ℕ → ℕ → ℕ
unfolding days_in
first_column y m =
    let before = y + 399 in
    (before * 365 + before / 4 + before / 400 - before / 100 + days_before_month y m) % 7

abbrev pub blank : CalDay
blank = record { day = 0; date = []; bundles = 0; today = false; selected = false }

abbrev pub blanks : ℕ → List CalDay
blanks zero = []
blanks (suc n) = blank ∷ blanks n

-- week[i] = cell
abbrev pub set_cell : ℕ → CalDay → List CalDay → List CalDay
set_cell i cell [] = []
set_cell zero cell (c ∷ cs) = cell ∷ cs
set_cell (suc i) cell (c ∷ cs) = c ∷ set_cell i cell cs

-- The loop over the days from d on, with the week that is being filled.
module _ (offset : ℕ) (cell : ℕ → CalDay) where
  unfoldable pub weeks_from : ℕ → ℕ → List CalDay → List (List CalDay)
  weeks_from zero d week = week ∷ []
  weeks_from (suc left) d week =
      let column = (offset + d - 1) % 7 in
      let same_week = weeks_from left (d + 1) (set_cell column (cell d) week) in
      let new_week = weeks_from left (d + 1) (set_cell column (cell d) (blanks 7)) in
      if column == 0 && ltb 1 d then week ∷ new_week else same_week

abbrev pub month_names : List Text
month_names =
    codes "January"
    ∷ codes "February"
    ∷ codes "March"
    ∷ codes "April"
    ∷ codes "May"
    ∷ codes "June"
    ∷ codes "July"
    ∷ codes "August"
    ∷ codes "September"
    ∷ codes "October"
    ∷ codes "November"
    ∷ codes "December"
    ∷ []

abbrev pub first_or_blank : List Text → Text
first_or_blank [] = []
first_or_blank (n ∷ ns) = n

-- Format("January 2006")
abbrev pub month_label_of : ℕ → ℕ → Text
month_label_of y m = first_or_blank (drop (m - 1) month_names) ++ (b' ' ∷ four_digits y)

-- AddDate(0, -1, 0) and AddDate(0, 1, 0) of a first day, from year 1 on
abbrev pub month_before : ℕ → ℕ → ℕ × ℕ
month_before y m = if m == 1 then (y - 1, 12) else (y, m - 1)

abbrev pub month_after : ℕ → ℕ → ℕ × ℕ
month_after y m = if m == 12 then (y + 1, 1) else (y, m + 1)

abbrev pub no_days : Days
no_days = record { counts = []; groups = [] }

abbrev pub is_missing : Option CalDayGroup → Bool
is_missing none = true
is_missing (some g) = false

abbrev pub selected_text : Option Date → Text
selected_text none = []
selected_text (some d) = format_date d.year d.month d.day

abbrev pub missing_day : Option Date → Days → Bool
missing_day none s = false
missing_day (some d) s = is_missing (lookup (day_key d.year d.month d.day) s.groups)

abbrev pub cell_of : ℕ → ℕ → Text → Text → Days → ℕ → CalDay
cell_of y m selected today s d =
    let key = day_key y m d in
    record {
      day = d;
      date = format_date y m d;
      bundles = or_zero (lookup key s.counts);
      today = text_eq key today;
      selected = text_eq key selected;
    }

abbrev pub joined_month : ℕ × ℕ → Text
joined_month (y, m) = format_month y m

-- the days of the bundles of a year
abbrev pub days_of : ℕ → ℕ → Option Date → List BundleMeta → Date → Days
days_of y m selected year_bundles now =
    add_bundles (format_month y m) (key_of selected) (key_of (some now)) (sort_by_time year_bundles)
      no_days

-- the weeks of a month
unfoldable pub month_weeks : ℕ → ℕ → Text → Text → Days → List (List CalDay)
unfolding weeks_from first_column days_in
month_weeks y m selected today s =
    weeks_from (first_column y m) (cell_of y m selected today s) (days_in m y) 1 (blanks 7)

-- buildBrowseCalendar
unfoldable pub build_browse_calendar : ℕ → ℕ → Option Date → List BundleMeta → Date → BrowseData
unfolding add_bundles sort_by_time month_weeks
build_browse_calendar y m selected year_bundles now =
    let s = days_of y m selected year_bundles now in
    record {
      month = format_month y m;
      month_label = month_label_of y m;
      prev_month = joined_month (month_before y m);
      next_month = joined_month (month_after y m);
      weeks = month_weeks y m (key_of selected) (key_of (some now)) s;
      selected_day = selected_text selected;
      selected_missing = missing_day selected s;
      year = four_digits y;
      day_groups = reverse (map (λ g. g.1) s.groups);
    }

abbrev pub date_of : Option Time → Option Date
date_of none = none
date_of (some t) = some (record { year = t.year; month = t.month; day = t.day })

abbrev pub shown_month : Option (ℕ × ℕ) → Option Date → Date → ℕ × ℕ
shown_month (some month) day now = month
shown_month none (some d) now = (d.year, d.month)
shown_month none none now = (now.year, now.month)

abbrev pub in_shown_month : ℕ × ℕ → Option Date → Option Date
in_shown_month (y, m) none = none
in_shown_month (y, m) (some d) = if d.year == y && d.month == m then some d else none

abbrev pub is_empty : Text → Bool
is_empty [] = true
is_empty (c ∷ s) = false

-- handleBrowse, on the query's month and day: the month shown, and the day selected
unfoldable pub choose_month : Text → Text → Date → (ℕ × ℕ) × Option Date
unfolding parse_month parse_date
choose_month month day now =
    let chosen = date_of (parse_date day) in
    let shown = shown_month (parse_month month) chosen now in
    (shown, if is_empty month && is_empty day then some now else in_shown_month shown chosen)
