-- ===== src/Analyze/Time.antt =====
-- parseAnalyzeTime (analyze.go): the time that a tool call sets.
use filestor.Base.{
  ◌≡◌, refl, ap, subst, ◌∙◌, inl, inr, Option, none, some, if◌then◌else◌, length, ◌==◌, Text,
  trim_space, some_injective, Bool-cases,
}
use filestor.Clock.{Time, format_time, parse_time, parse_date}
use filestor.Clock.RoundTrip.{IsValid, parse_time-format_time}
use filestor.Clock.Accepted.{parse_time_inv, parse_date_inv}

abbrev pub written : Option Time → Option Text
written none = none
written (some t) = some (format_time t)

abbrev pub time_or_date : Option Time → Option Time → Option Text
time_or_date (some t) date = some (format_time t)
time_or_date none date = written date

-- parseAnalyzeTime; none is "invalid time"
unfoldable pub parse_analyze_time : Text → Option Text
unfolding trim_space parse_date
parse_analyze_time text =
    let s = trim_space text in
    if length s == 0 then none else time_or_date (parse_time s) (parse_date s)

-- a text that Format writes of a time of the calendar
pub record IsTime (w : Text) : Type 0 where
  pub time : Time
  pub valid : IsValid time
  pub text : w ≡ format_time time

IsTime-format_time : (t : Time) → IsValid t → IsTime (format_time t)
IsTime-format_time t v = record { time = t; valid = v; text = refl }

time_or_date-IsTime :
    (a b : Option Time) {w : Text}
    → ((t : Time) → a ≡ some t → IsValid t)
    → ((t : Time) → b ≡ some t → IsValid t)
    → time_or_date a b ≡ some w
    → IsTime w
time_or_date-IsTime (some t) b f g h =
    subst IsTime (some_injective h) (IsTime-format_time t (f t refl))
time_or_date-IsTime none (some t) f g h =
    subst IsTime (some_injective h) (IsTime-format_time t (g t refl))
time_or_date-IsTime none none f g h = cc

-- Every time that parseAnalyzeTime accepts it returns as the text that Format writes of a time of
-- the calendar.
pub parse_analyze_time-IsTime :
    (text : Text) {w : Text} → parse_analyze_time text ≡ some w → IsTime w
unfolding parse_analyze_time
parse_analyze_time-IsTime text h = elim (Bool-cases (length (trim_space text) == 0)) [
  | inl e ↦ cc (rw e at h)
  | inr e ↦
      time_or_date-IsTime (parse_time (trim_space text)) (parse_date (trim_space text))
        (λ t k. (parse_time_inv (trim_space text) k).0)
        (λ t k. (parse_date_inv (trim_space text) k).0) (rw e at h)
]

-- A push accepts the time.
pub IsTime-parse_time : {w : Text} (v : IsTime w) → parse_time w ≡ some v.time
IsTime-parse_time v = ap parse_time v.text ∙ parse_time-format_time v.time v.valid
