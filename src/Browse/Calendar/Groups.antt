-- ===== src/Browse/Calendar/Groups.antt =====
-- The list of days of a year (browse.go: buildBrowseCalendar).
use filestor.Base.{
  ℕ, ◌+◌, ◌≡◌, refl, sym, ap, ◌∙◌, inl, inr, Bool, true, false, List, [], ◌∷◌, ◌++◌, reverse,
  reverse-cons, map, Option, none, some, if◌then◌else◌, All, All-insert, Bool-cases, Option-cases,
  Text, text_eq, text_eq_iff, to_lower, lookup, insert, arith,
}
use filestor.Clock.{Time, parse_time, format_month, two_digits, four_digits}
use filestor.Bundle.{BundleMeta, is_uuid_v4}
use filestor.Workspace.Listing.{text_lt}
use filestor.Browse.Calendar.{
  CalDir, CalDayGroup, Days, Date, day_key, format_date, dir_of, key_of, add_at, add_parsed,
  add_bundles, no_days, insert_by_time, sort_by_time, days_of, build_browse_calendar,
}

-- a day's key, 20060102, as its date, 2006-01-02
abbrev dashed : Text → Text
dashed (a ∷ b ∷ c ∷ d ∷ e ∷ f ∷ rest) = a ∷ b ∷ c ∷ d ∷ b'-' ∷ e ∷ f ∷ b'-' ∷ rest
dashed s = s

dashed-day_key : (y m d : ℕ) → dashed (day_key y m d) ≡ format_date y m d
unfolding four_digits two_digits format_month
dashed-day_key y m d = refl

-- every group has the date of its key
abbrev Dated : List (Text × CalDayGroup) → Type 0
Dated groups = All (λ e. e.1.date ≡ dashed e.0) groups

Dated-lookup :
    (key : Text) (groups : List (Text × CalDayGroup)) (g : CalDayGroup)
    → Dated groups
    → lookup key groups ≡ some g
    → g.date ≡ dashed key
unfolding lookup
Dated-lookup key [] g d e = cc
Dated-lookup key ((k, h) ∷ groups) g d e = elim (Bool-cases (text_eq k key)) [
  | inl f ↦ let same = (text_eq_iff k key).0 f in cc (rw f at e)
  | inr f ↦ Dated-lookup key groups g d.1 (rw f at e)
]

module _ (p : Text → CalDir → Bool) where
  abbrev pub one_if : Bool → ℕ
  one_if b = if b then 1 else 0

  -- the bundles of a day that pass the test
  unfoldable pub passing : Text → List CalDir → ℕ
  passing date [] = 0
  passing date (d ∷ ds) = one_if (p date d) + passing date ds

  -- the bundles listed under all days that pass the test with their day
  unfoldable pub listed : List CalDayGroup → ℕ
  unfolding passing
  listed [] = 0
  listed (g ∷ gs) = passing g.date g.bundles + listed gs

  -- one for a bundle with a time that passes the test as it is to be listed
  abbrev pub shown_at : BundleMeta → Option Time → ℕ
  shown_at b none = 0
  shown_at b (some t) = one_if (p (format_date t.year t.month t.day) (dir_of b t))

  -- the same for bundles that the calendar can show: those with a bundle's id and a time that reads
  abbrev pub shown : BundleMeta → ℕ
  shown b = if is_uuid_v4 (to_lower b.id) then shown_at b (parse_time b.time) else 0

  unfoldable pub count_shown : List BundleMeta → ℕ
  count_shown [] = 0
  count_shown (b ∷ bs) = shown b + count_shown bs

  abbrev size_of : Option CalDayGroup → ℕ
  size_of none = 0
  size_of (some g) = passing g.date g.bundles

  abbrev listed_in : List (Text × CalDayGroup) → ℕ
  listed_in groups = listed (map (λ g. g.1) groups)

  listed-insert :
      (key : Text) (g : CalDayGroup) (n : ℕ) (groups : List (Text × CalDayGroup))
      → passing g.date g.bundles ≡ size_of (lookup key groups) + n
      → listed_in (insert key g groups) ≡ listed_in groups + n
  unfolding listed insert lookup
  listed-insert key g n [] e = omega (arith, e)
  listed-insert key g n ((k, h) ∷ groups) e = elim (Bool-cases (text_eq k key)) [
    | inl f ↦ rw f (omega (arith, rw f at e))
    | inr f ↦ rw f (omega (arith, listed-insert key g n groups (rw f at e)))
  ]

  passing-grown :
      (date day : Text) (d : CalDir) (ds : List CalDir)
      → date ≡ day
      → passing date (d ∷ ds) ≡ passing date ds + one_if (p day d)
  unfolding passing
  passing-grown date day d ds e =
      let grown : passing date (d ∷ ds) ≡ passing date ds + one_if (p date d) = omega arith in
      grown ∙ ap (λ x. passing date ds + one_if (p x d)) e

  module _ (month selected today : Text) where
    abbrev Grown : Days → Days → ℕ → Type 0
    Grown s s' n = Dated s'.groups × (listed_in s'.groups ≡ listed_in s.groups + n)

    add_at-listed :
        (b : BundleMeta) (t : Time) (s : Days)
        → Dated s.groups
        → Grown s (add_at month selected today b t s) (shown_at b (some t))
    unfolding passing
    add_at-listed b t s d =
        let key = day_key t.year t.month t.day in
        let date = sym (dashed-day_key t.year t.month t.day) in
        elim (Option-cases (lookup key s.groups)) [
          | inl e ↦ rw e (
            All-insert (λ e. e.1.date ≡ dashed e.0) key _ s.groups date d,
            listed-insert key _ _ s.groups (rw e (omega arith)),
          )
          | inr (g, e) ↦
              let same = Dated-lookup key s.groups g d e in
              rw e (
                All-insert (λ e. e.1.date ≡ dashed e.0) key _ s.groups same d,
                listed-insert key _ _ s.groups
                    (rw e (passing-grown g.date _ (dir_of b t) g.bundles (same ∙ sym date))),
              )
        ]

    add_one-listed :
        (b : BundleMeta) (u : Bool) (t : Option Time) (s : Days)
        → Dated s.groups
        → Grown s
            (if u then add_parsed month selected today b t s else s)
            (if u then shown_at b t else 0)
    add_one-listed b false t s d = (d, omega arith)
    add_one-listed b true none s d = (d, omega arith)
    add_one-listed b true (some t) s d = add_at-listed b t s d

    add_bundles-listed :
        (bs : List BundleMeta) (s : Days)
        → Dated s.groups
        → listed_in (add_bundles month selected today bs s).groups
          ≡ listed_in s.groups + count_shown bs
    unfolding add_bundles count_shown
    add_bundles-listed [] s d = omega arith
    add_bundles-listed (b ∷ bs) s d =
        let t = parse_time b.time in
        let u = is_uuid_v4 (to_lower b.id) in
        let (d', one) = add_one-listed b u t s d in
        add_bundles-listed bs (if u then add_parsed month selected today b t s else s) d'
        ∙ omega (arith, one)

  count_shown-insert :
      (b : BundleMeta) (cs : List BundleMeta)
      → count_shown (insert_by_time b cs) ≡ shown b + count_shown cs
  unfolding count_shown insert_by_time
  count_shown-insert b [] = refl
  count_shown-insert b (c ∷ cs) = elim (Bool-cases (text_lt c.time b.time)) [
    | inl e ↦ rw e (omega (arith, count_shown-insert b cs))
    | inr e ↦ rw e refl
  ]

  count_shown-sort : (bs : List BundleMeta) → count_shown (sort_by_time bs) ≡ count_shown bs
  unfolding count_shown sort_by_time
  count_shown-sort [] = refl
  count_shown-sort (b ∷ bs) =
      count_shown-insert b (sort_by_time bs) ∙ ap (λ n. shown b + n) (count_shown-sort bs)

  listed-append : (gs hs : List CalDayGroup) → listed (gs ++ hs) ≡ listed gs + listed hs
  unfolding listed
  listed-append [] hs = omega arith
  listed-append (g ∷ gs) hs = omega (arith, listed-append gs hs)

  listed-reverse : (gs : List CalDayGroup) → listed (reverse gs) ≡ listed gs
  unfolding listed
  listed-reverse [] = refl
  listed-reverse (g ∷ gs) =
      ap listed (reverse-cons g gs)
      ∙ omega (arith, listed-append (reverse gs) (g ∷ []), listed-reverse gs)

  -- For every test on a date and an entry (time, title, id): of all the entries that the days of
  -- the year list, as many pass it with their day's date as there are bundles, with a UUID and a
  -- time that reads, whose own date and entry pass it. So no bundle is lost, none is listed twice,
  -- and none under another day.
  pub build_browse_calendar-listed :
      (y m : ℕ) (selected : Option Date) (year_bundles : List BundleMeta) (now : Date)
      → listed (build_browse_calendar y m selected year_bundles now).day_groups
        ≡ count_shown year_bundles
  unfolding build_browse_calendar listed
  build_browse_calendar-listed y m selected year_bundles now =
      let days = days_of y m selected year_bundles now in
      listed-reverse (map (λ g. g.1) days.groups)
      ∙ omega (
        arith,
        add_bundles-listed (format_month y m) (key_of selected) (key_of (some now))
            (sort_by_time year_bundles) no_days tt,
        count_shown-sort year_bundles,
      )
