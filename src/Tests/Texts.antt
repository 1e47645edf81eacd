-- ===== src/Tests/Texts.antt =====
-- Names, titles, times, ids and keys on concrete texts (upload.go, push.go, bundle.go).
use filestor.Base.{
  ℕ, ◌≤◌, ◌<◌, ◌≡◌, refl, ◌⊎◌, Bool, true, false, List, [], ◌∷◌, ◌++◌, Option, none, some, All,
  length, Text, codes, split, trim, to_lower, take, drop, ◌==◌, trim_space, is_space,
  trim_space_bytes, arith,
}
use filestor.Names.File.{sanitize_workspace_name}
use filestor.Names.File.Accepted.{
  IsFileName, sanitize_workspace_name-IsFileName, IsFileName-sanitize_workspace_name,
}
use filestor.Names.Title.{sanitize_push_title}
use filestor.Names.Title.Folded.{IsTitle}
use filestor.Names.Title.Accepted.{sanitize_push_title-IsTitle}
use filestor.Clock.{Time, digit, format_time, format_month, parse_time}
use filestor.Clock.RoundTrip.{IsValid, parse_time-format_time}
use filestor.Bundle.{is_uuid_v4, new_uuid_v4, bundle_prefix, content_root, parse_bundle_id}
use filestor.Bundle.Keys.{parse_bundle_id-bundle_prefix}
use filestor.Browse.{video, preview_kind}

abbrev no_wide : ℕ → Bool
no_wide c = false

sanitize_workspace_name_test : sanitize_workspace_name (codes "a/b\\c.pdf ") ≡ some (codes "c.pdf")
unfolding sanitize_workspace_name
sanitize_workspace_name_test = refl

sanitize_workspace_name-IsFileName_example : IsFileName (codes "c.pdf")
sanitize_workspace_name-IsFileName_example =
    sanitize_workspace_name-IsFileName (codes "a/b\\c.pdf ") sanitize_workspace_name_test

trimmed : trim_space (codes "c.pdf") ≡ codes "c.pdf"
unfolding trim_space filestor.Base.trim_right
trimmed = refl

IsFileName-sanitize_workspace_name_example :
    sanitize_workspace_name (codes "c.pdf") ≡ some (codes "c.pdf")
IsFileName-sanitize_workspace_name_example =
    IsFileName-sanitize_workspace_name sanitize_workspace_name-IsFileName_example trimmed

sanitize_push_title_test :
    sanitize_push_title no_wide (codes " -Q1 / report.. ") ≡ some (codes "Q1-report")
unfolding sanitize_push_title
sanitize_push_title_test = refl

sanitize_push_title-IsTitle_example : IsTitle no_wide (codes "Q1-report")
sanitize_push_title-IsTitle_example =
    sanitize_push_title-IsTitle no_wide (codes " -Q1 / report.. ") sanitize_push_title_test

abbrev leap_day : Time
leap_day = record { year = 2024; month = 2; day = 29; hour = 9; minute = 5 }

leap_day-IsValid : IsValid leap_day
unfolding filestor.Clock.days_in
leap_day-IsValid = record {
  year_ok = omega arith;
  month_lo = omega arith;
  month_hi = omega arith;
  day_lo = omega arith;
  day_hi = omega arith;
  hour_ok = omega arith;
  minute_ok = omega arith;
}

format_time_test : format_time leap_day ≡ codes "2024-02-29T09:05"
unfolding format_time format_month filestor.Clock.four_digits filestor.Clock.two_digits
format_time_test = refl

parse_time-format_time_example : parse_time (format_time leap_day) ≡ some leap_day
parse_time-format_time_example = parse_time-format_time leap_day leap_day-IsValid

parse_time_test : parse_time (codes "2024-02-29T9:05") ≡ some leap_day
unfolding parse_time filestor.Clock.read_day filestor.Clock.read_month filestor.Clock.year_number
    filestor.Clock.skip filestor.Clock.two_number filestor.Clock.one_or_two_number
    filestor.Clock.days_in
parse_time_test = refl

parse_time_refuses : parse_time (codes "2023-02-29T09:05") ≡ none
unfolding parse_time filestor.Clock.read_day filestor.Clock.read_month filestor.Clock.year_number
    filestor.Clock.skip filestor.Clock.two_number filestor.Clock.one_or_two_number
    filestor.Clock.days_in
parse_time_refuses = refl

abbrev an_id : Text
an_id = codes "00010203-0405-4F07-bf09-0a0b0c0d0e0f"

an_id-is_uuid_v4 : is_uuid_v4 (to_lower an_id) ≡ true
unfolding is_uuid_v4 to_lower filestor.Bundle.is_hex
an_id-is_uuid_v4 = refl

bundle_prefix_test :
    bundle_prefix an_id ≡ codes "content/00/01/00010203-0405-4f07-bf09-0a0b0c0d0e0f"
unfolding bundle_prefix to_lower
bundle_prefix_test = refl

parse_bundle_id-bundle_prefix_example :
    (parse_bundle_id (bundle_prefix an_id ++ b'/' ∷ []) ≡ some (to_lower an_id))
    × (parse_bundle_id (bundle_prefix an_id) ≡ some (to_lower an_id))
parse_bundle_id-bundle_prefix_example = parse_bundle_id-bundle_prefix an_id an_id-is_uuid_v4

abbrev a_prefix : Text
a_prefix = codes "content/00/01/00010203-0405-4F07-bf09-0a0b0c0d0e0f/"

parse_bundle_id_test : parse_bundle_id a_prefix ≡ some (to_lower an_id)
unfolding parse_bundle_id split trim filestor.Base.trim_right filestor.Base.text_eq is_uuid_v4
    to_lower filestor.Bundle.is_hex
parse_bundle_id_test = refl

preview_kind_test : preview_kind (codes "a.b.MP4") ≡ video
unfolding preview_kind filestor.Base.text_eq filestor.Names.File.after_last
preview_kind_test = refl

-- a byte of a rune that a space's encoding also ends with, and an ideographic space
trimmed_bytes :
    (trim_space_bytes (0xe5 ∷ 0x88 ∷ 0xa0 ∷ 10 ∷ []) ≡ 0xe5 ∷ 0x88 ∷ 0xa0 ∷ [])
    × (trim_space_bytes (0xe3 ∷ 0x80 ∷ 0x80 ∷ b'a' ∷ 0xc2 ∷ 0xa0 ∷ []) ≡ b'a' ∷ [])
unfolding trim_space_bytes
trimmed_bytes = (refl, refl)
