-- ===== src/Tests/Calendars.antt =====
-- The calendar of February 2024 (browse.go).
use filestor.Base.{
  Bool, true, ◌&&◌, ℕ, ◌≡◌, refl, List, [], ◌∷◌, Option, none, some, map, length, Text, codes,
  text_eq,
}
use filestor.Clock.{days_in}
use filestor.Bundle.{BundleMeta}
use filestor.Browse.Calendar.{CalDir, Date, first_column, build_browse_calendar, choose_month}
use filestor.Browse.Calendar.Groups.{count_shown, listed, build_browse_calendar-listed}

abbrev leap_day : Date
leap_day = record { year = 2024; month = 2; day = 29 }

abbrev bundle : Text → BundleMeta
bundle time = record {
  id = codes "00010203-0405-4f07-bf09-0A0b0c0d0e0f";
  title = codes "t";
  time = time;
}

abbrev bundles : List BundleMeta
bundles =
    bundle (codes "2024-02-29T10:00")
    ∷ bundle (codes "2024-02-30T10:00")
    ∷ bundle (codes "2024-02-29T09:05")
    ∷ bundle (codes "2024-01-31T23:59")
    ∷ []

-- a Thursday
first_column_test : first_column 2024 2 ≡ 3
unfolding first_column
first_column_test = refl

count_test : count_shown (λ date d. true) bundles ≡ 3
unfolding count_shown filestor.Bundle.is_uuid_v4 filestor.Base.to_lower filestor.Bundle.is_hex
    filestor.Clock.parse_time filestor.Clock.read_day filestor.Clock.read_month
    filestor.Clock.year_number filestor.Clock.skip filestor.Clock.two_number
    filestor.Clock.one_or_two_number days_in
count_test = refl

day_groups_test :
    map (λ g. g.date) (build_browse_calendar 2024 2 (some leap_day) bundles leap_day).day_groups
    ≡ codes "2024-02-29" ∷ codes "2024-01-31" ∷ []
unfolding build_browse_calendar filestor.Workspace.Listing.text_lt filestor.Bundle.is_hex
    filestor.Clock.read_day filestor.Clock.read_month filestor.Clock.year_number filestor.Clock.skip
    filestor.Clock.two_number filestor.Clock.one_or_two_number filestor.Base.insert text_eq
    filestor.Clock.four_digits filestor.Clock.two_digits filestor.Base.lookup
    filestor.Clock.format_month
day_groups_test = refl

choose_month_test : choose_month (codes "2024-01") (codes "2024-02-29") leap_day ≡ ((2024, 1), none)
unfolding choose_month filestor.Clock.read_month filestor.Clock.read_day filestor.Clock.year_number
    filestor.Clock.skip filestor.Clock.two_number days_in
choose_month_test = refl

abbrev february : ℕ
february = 2

-- under its own day, at its own time
abbrev pub is_ten_o_clock : Text → CalDir → Bool
is_ten_o_clock date d = text_eq date (codes "2024-02-29") && text_eq d.time (codes "10:00")

build_browse_calendar-listed_example :
    listed is_ten_o_clock
      (build_browse_calendar 2024 february (some leap_day) bundles leap_day).day_groups
    ≡ count_shown is_ten_o_clock bundles
build_browse_calendar-listed_example =
    build_browse_calendar-listed is_ten_o_clock 2024 2 (some leap_day) bundles leap_day
