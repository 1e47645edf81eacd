-- ===== src/Clock/Accepted.antt =====
-- The texts that time.Parse accepts at the push layout.
use filestor.Base.{
  ℕ, ◌+◌, ◌*◌, ◌≤◌, ◌<◌, ◌≡◌, refl, ap, sym, ◌∙◌, ◌⊎◌, inl, inr, Bool, true, false, ◌&&◌, [], ◌∷◌,
  ◌++◌, Option, none, some, if◌then◌else◌, Text, arith, append_assoc, append-nil, Bool-cases,
  some_injective,
}
use mathlib.Core.Path.{subst}
use filestor.Clock.{
  Time, days_in, digit, is_digit, value_of, two_digits, four_digits, format_month, format_time,
  two_number, one_or_two_number, year_number, skip, ranged, read_month, read_day, parse_date,
  parse_time, ◌>>=◌, at_end, in_month,
}
use filestor.Clock.RoundTrip.{IsValid}

-- A bind that succeeds: the goal from the value that the first part gave.
>>=-elim {ℓ κ μ} :
    {A : Type ℓ} {B : Type κ} {C : Type μ} (m : Option A) (f : A → Option B) {b : B}
    → (m >>= f) ≡ some b
    → ((a : A) → m ≡ some a → f a ≡ some b → C)
    → C
>>=-elim (some a) f h k = k a refl h
>>=-elim none f h k = cc

two_number_inv :
    (s : Text) {n : ℕ} {r : Text} → two_number s ≡ some (n, r) → (n < 100) × (s ≡ two_digits n ++ r)
unfolding two_number two_digits
two_number_inv [] h = cc
two_number_inv (a ∷ []) h = cc
two_number_inv (a ∷ b ∷ s) h = ground arith

is_digit_value : (c : ℕ) → is_digit c ≡ true → (value_of c < 10) × (c ≡ b'0' + value_of c)
is_digit_value c h = ground arith

four_digits_value :
    (w x y z : ℕ)
    → w < 10
    → x < 10
    → y < 10
    → z < 10
    → four_digits (w * 1000 + x * 100 + y * 10 + z)
      ≡ (b'0' + w) ∷ (b'0' + x) ∷ (b'0' + y) ∷ (b'0' + z) ∷ []
unfolding four_digits
four_digits_value w x y z hw hx hy hz = ground arith

and_inv :
    (a b c d : Bool) → (a && b && c && d) ≡ true → (a ≡ true) × (b ≡ true) × (c ≡ true) × (d ≡ true)
and_inv a b c d h = ground arith

if_some_inv {ℓ} :
    {A : Type ℓ} (b : Bool) (x : A) {y : A}
    → (if b then some x else none) ≡ some y
    → (b ≡ true) × (x ≡ y)
if_some_inv true x h = (refl, some_injective h)
if_some_inv false x h = cc

four_chars :
    (a b c d : ℕ) (s : Text)
    → (is_digit a && is_digit b && is_digit c && is_digit d) ≡ true
    → let n = value_of a * 1000 + value_of b * 100 + value_of c * 10 + value_of d in
      (n < 10000) × (a ∷ b ∷ c ∷ d ∷ s ≡ four_digits n ++ s)
four_chars a b c d s h =
    let (ha, hb, hc, hd) = and_inv _ _ _ _ h in
    let (la, ea) = is_digit_value a ha in
    let (lb, eb) = is_digit_value b hb in
    let (lc, ec) = is_digit_value c hc in
    let (ld, ed) = is_digit_value d hd in
    (omega arith, rw (four_digits_value _ _ _ _ la lb lc ld) (rw (← ea, ← eb, ← ec, ← ed)))

year_number_inv :
    (s : Text) {n : ℕ} {r : Text}
    → year_number s ≡ some (n, r)
    → (n < 10000) × (s ≡ four_digits n ++ r)
unfolding year_number
year_number_inv (a ∷ b ∷ c ∷ d ∷ s) {n} {r} h =
    let (t, e) = if_some_inv _ _ h in
    subst (λ x. (x.0 < 10000) × (a ∷ b ∷ c ∷ d ∷ s ≡ four_digits x.0 ++ x.1)) e
      (four_chars a b c d s t)
year_number_inv [] h = cc
year_number_inv (a ∷ []) h = cc
year_number_inv (a ∷ b ∷ []) h = cc
year_number_inv (a ∷ b ∷ c ∷ []) h = cc

one_or_two_number_inv :
    (s : Text) {n : ℕ} {r : Text}
    → one_or_two_number s ≡ some (n, r)
    → (s ≡ two_digits n ++ r) ⊎ ((n < 10) × (s ≡ digit n ∷ r))
unfolding one_or_two_number two_digits
one_or_two_number_inv [] h = cc
one_or_two_number_inv (a ∷ []) h = inr (ground arith)
one_or_two_number_inv (a ∷ b ∷ s) h = elim (Bool-cases (is_digit b)) [
  | inl d ↦ inl (ground arith)
  | inr d ↦ inr (ground arith)
]

skip_inv : (l : ℕ) (s : Text) {r : Text} → skip l s ≡ some r → s ≡ l ∷ r
unfolding skip
skip_inv l [] h = cc
skip_inv l (c ∷ s) h = ground arith

ranged_inv :
    (lo hi : ℕ) (x : ℕ × Text) {n : ℕ} {r : Text}
    → ranged lo hi x ≡ some (n, r)
    → (lo ≤ n) × (n ≤ hi) × (x ≡ (n, r))
ranged_inv lo hi (m, s) h = ground arith

at_end_inv : (s : Text) {u : Unit {0}} → at_end s ≡ some u → s ≡ []
at_end_inv [] h = refl
at_end_inv (c ∷ s) h = cc

in_month_inv :
    (t : Time) {u : Time}
    → in_month t ≡ some u
    → (t ≡ u) × (1 ≤ t.day) × (t.day ≤ days_in t.month t.year)
in_month_inv t h = ground arith

-- read_month accepts a month in range, and nothing but the canonical text in front of the rest.
read_month_inv :
    (s : Text) {y m : ℕ} {r : Text}
    → read_month s ≡ some (y, m, r)
    → (y < 10000) × (1 ≤ m) × (m ≤ 12) × (s ≡ format_month y m ++ r)
unfolding read_month format_month
read_month_inv s {y} {m} {r} h = >>=-elim (year_number s) _ h λ ys g1 h1.
    >>=-elim (skip b'-' ys.1) _ h1 λ r2 g2 h2.
      >>=-elim (two_number r2 >>= ranged 1 12) _ h2 λ ms g3 h3.
        >>=-elim (two_number r2) _ g3 λ x g4 h4.
          let (hy, ey) = year_number_inv s g1 in
          let (hx, ex) = two_number_inv r2 g4 in
          let (lo, hi, em) = ranged_inv 1 12 x {n = ms.0} {r = ms.1} h4 in
          let es = skip_inv b'-' ys.1 g2 in
          let tail = es ∙ ap (◌∷◌ b'-') (ex ∙ ap (λ z. two_digits z.0 ++ z.1) em) in
          subst (λ t. (t.0 < 10000) × (1 ≤ t.1) × (t.1 ≤ 12) × (s ≡ format_month t.0 t.1 ++ t.2))
            (some_injective h3)
            (
              hy,
              lo,
              hi,
              ey
                  ∙ ap (λ u. four_digits ys.0 ++ u) tail
                  ∙ sym (append_assoc (four_digits ys.0) (b'-' ∷ two_digits ms.0) ms.1),
            )

read_day_inv :
    (s : Text) {y m d : ℕ} {r : Text}
    → read_day s ≡ some (y, m, d, r)
    → (y < 10000) × (1 ≤ m) × (m ≤ 12) × (s ≡ format_month y m ++ (b'-' ∷ (two_digits d ++ r)))
unfolding read_day
read_day_inv s {y} {m} {d} {r} h = >>=-elim (read_month s) _ h λ ym g1 h1.
    >>=-elim (skip b'-' ym.2) _ h1 λ r2 g2 h2. >>=-elim (two_number r2) _ h2 λ ds g3 h3.
      let (hy, lo, hi, em) = read_month_inv s g1 in
      let (hd, ed) = two_number_inv r2 g3 in
      let es = skip_inv b'-' ym.2 g2 in
      subst
        (λ t.
          (t.0 < 10000)
          × (1 ≤ t.1)
          × (t.1 ≤ 12)
          × (s ≡ format_month t.0 t.1 ++ (b'-' ∷ (two_digits t.2 ++ t.3))))
        (some_injective h3)
        (hy, lo, hi, em ∙ ap (λ u. format_month ym.0 ym.1 ++ u) (es ∙ ap (◌∷◌ b'-') ed))

-- How the texts at the push layout read: a date, 'T', an hour, ':' and a minute.
abbrev pub stamp : Time → Text → Text
stamp t hour =
    format_month t.year t.month
    ++ (b'-' ∷ (two_digits t.day ++ (b'T' ∷ (hour ++ (b':' ∷ two_digits t.minute)))))

hour_inv :
    (s : Text) {x : ℕ × Text} {n : ℕ} {r : Text}
    → one_or_two_number s ≡ some x
    → x ≡ (n, r)
    → (s ≡ two_digits n ++ r) ⊎ ((n < 10) × (s ≡ digit n ∷ r))
hour_inv s g e = one_or_two_number_inv s (g ∙ ap some e)

-- What time.Parse accepts at the push layout is a time of the calendar, and the text is the one
-- that Format writes of it, or that text with one digit for an hour below ten.
pub parse_time_inv :
    (s : Text) {t : Time}
    → parse_time s ≡ some t
    → IsValid t × ((s ≡ format_time t) ⊎ ((t.hour < 10) × (s ≡ stamp t (digit t.hour ∷ []))))
unfolding parse_time format_time
parse_time_inv s {t} h = >>=-elim (read_day s) _ h λ ds g1 h1.
    >>=-elim (skip b'T' ds.3) _ h1 λ r2 g2 h2.
      >>=-elim (one_or_two_number r2 >>= ranged 0 23) _ h2 λ hs g3 h3.
        >>=-elim (one_or_two_number r2) _ g3 λ hour g4 h4.
          >>=-elim (skip b':' hs.1) _ h3 λ r5 g5 h5.
            >>=-elim (two_number r5 >>= ranged 0 59) _ h5 λ ms g6 h6.
              >>=-elim (two_number r5) _ g6 λ minute g7 h7. >>=-elim (at_end ms.1) _ h6 λ u g8 h8.
                let (hy, mlo, mhi, es) = read_day_inv s g1 in
                let (hlo, hhi, eh) = ranged_inv 0 23 hour h4 in
                let (nlo, nhi, en) = ranged_inv 0 59 minute h7 in
                let (nn, e5) = two_number_inv r5 (g7 ∙ ap some en) in
                let rest =
                  skip_inv b':' hs.1 g5
                  ∙ ap (◌∷◌ b':') (
                      e5
                      ∙ ap (λ z. two_digits ms.0 ++ z) (at_end_inv ms.1 g8)
                      ∙ append-nil (two_digits ms.0)) in
                let (same, dlo, dhi) = in_month_inv _ h8 in
                let front = λ (z : Text) (e : r2 ≡ z).
                  es
                  ∙ ap (λ w. format_month ds.0 ds.1 ++ (b'-' ∷ (two_digits ds.2 ++ w)))
                      (skip_inv b'T' ds.3 g2 ∙ ap (◌∷◌ b'T') e) in
                subst
                  (λ v.
                    IsValid v
                    × ((s ≡ format_time v) ⊎ ((v.hour < 10) × (s ≡ stamp v (digit v.hour ∷ [])))))
                  same
                  (
                    record {
                      year_ok = hy;
                      month_lo = mlo;
                      month_hi = mhi;
                      day_lo = dlo;
                      day_hi = dhi;
                      hour_ok = omega arith;
                      minute_ok = omega arith;
                    },
                    elim (hour_inv r2 g4 eh) [
                      | inl two ↦ inl (front _ (two ∙ ap (λ z. two_digits hs.0 ++ z) rest))
                      | inr one ↦ inr (one.0, front _ (one.1 ∙ ap (◌∷◌ (digit hs.0)) rest))
                    ],
                  )

-- What time.Parse accepts at the layout of a day is the text of a day of the calendar, at midnight.
pub parse_date_inv :
    (s : Text) {t : Time}
    → parse_date s ≡ some t
    → IsValid t
      × (s ≡ format_month t.year t.month ++ (b'-' ∷ two_digits t.day))
      × (t.hour ≡ 0)
      × (t.minute ≡ 0)
unfolding parse_date
parse_date_inv s {t} h = >>=-elim (read_day s) _ h λ ds g1 h1.
    >>=-elim (at_end ds.3) _ h1 λ u g2 h2.
      let (hy, mlo, mhi, es) = read_day_inv s g1 in
      let (same, dlo, dhi) = in_month_inv _ h2 in
      subst
        (λ v.
          IsValid v
          × (s ≡ format_month v.year v.month ++ (b'-' ∷ two_digits v.day))
          × (v.hour ≡ 0)
          × (v.minute ≡ 0))
        same
        (
          record {
            year_ok = hy;
            month_lo = mlo;
            month_hi = mhi;
            day_lo = dlo;
            day_hi = dhi;
            hour_ok = omega arith;
            minute_ok = omega arith;
          },
          es
              ∙ ap (λ w. format_month ds.0 ds.1 ++ (b'-' ∷ (two_digits ds.2 ++ w)))
                  (at_end_inv ds.3 g2)
              ∙ ap (λ w. format_month ds.0 ds.1 ++ (b'-' ∷ w)) (append-nil (two_digits ds.2)),
          refl,
          refl,
        )
