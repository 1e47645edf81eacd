-- ===== src/Analyze/Paging/Bounds.antt =====
-- What a page holds (analyze.go: pagedText).
use filestor.Base.{
  ℕ, zero, suc, ◌+◌, ◌-◌, ◌≤◌, ◌<◌, min, ◌≡◌, refl, sym, ap, ◌∙◌, ◌⊎◌, inl, inr, Bool, true, false,
  List, [], ◌∷◌, some, ltb, ◌==◌, length, take, drop, Text, join, cut_back, length-cut_back,
  length-take, Bool-cases, not-ltb→le, ltb→lt, le→not-ltb, arith,
}
use filestor.Analyze.{Page, page_of}
use filestor.Analyze.Paging.{
  analyze_text_max_bytes, text_lines, fit_lines, cut_body, page_at, paged_text, from_one,
  page_limit, read_file_max_bytes,
}

length-drop : {A : Type 0} (n : ℕ) (xs : List A) → length (drop n xs) ≡ length xs - n
length-drop zero xs = omega arith
length-drop (suc n) [] = omega arith
length-drop (suc n) (x ∷ xs) = omega (arith, length-drop n xs)

take-take : {A : Type 0} (n m : ℕ) (xs : List A) → n ≤ m → take n (take m xs) ≡ take n xs
take-take zero m xs h = refl
take-take (suc n) zero xs h = absurd (omega arith)
take-take (suc n) (suc m) [] h = refl
take-take (suc n) (suc m) (x ∷ xs) h = ap (◌∷◌ x) (take-take n m xs (omega arith))

take-length : {A : Type 0} (n : ℕ) (xs : List A) → length xs ≤ n → take n xs ≡ xs
take-length zero [] h = refl
take-length zero (x ∷ xs) h = absurd (omega arith)
take-length (suc n) [] h = refl
take-length (suc n) (x ∷ xs) h = ap (◌∷◌ x) (take-length n xs (omega arith))

-- The lines that fit: a prefix, one at least, whose text fits unless it is one line.
record IsFit (n : ℕ) (lines kept : List Text) : Type 0 where
  prefix : kept ≡ take (length kept) lines
  some_line : 1 ≤ length kept
  no_more : length kept ≤ n
  fits : (length (join b'\n' kept) ≤ analyze_text_max_bytes) ⊎ (length kept ≡ 1)

fit_lines-IsFit :
    (n : ℕ) (lines : List Text) → 1 ≤ n → n ≤ length lines → IsFit n lines (fit_lines n lines)
unfolding fit_lines
fit_lines-IsFit zero lines lo hi = absurd (omega arith)
fit_lines-IsFit (suc zero) [] lo hi = absurd (omega arith)
fit_lines-IsFit (suc zero) (l ∷ lines) lo hi = record {
  prefix = refl;
  some_line = omega arith;
  no_more = omega arith;
  fits = inr refl;
}
fit_lines-IsFit (suc (suc n)) lines lo hi =
    elim (Bool-cases
      (ltb analyze_text_max_bytes (length (join b'\n' (take (suc (suc n)) lines))))) [
        | inl e ↦ rw e (
            let f = fit_lines-IsFit (suc n) lines (omega arith) (omega arith) in
            record {
              prefix = f.prefix;
              some_line = f.some_line;
              no_more = omega (arith, f.no_more);
              fits = f.fits;
            })
        | inr e ↦ rw e (
            let long : length (take (suc (suc n)) lines) ≡ suc (suc n) =
              omega (arith, length-take (suc (suc n)) lines) in
            record {
              prefix = ap (λ k. take k lines) (sym long);
              some_line = omega arith;
              no_more = omega arith;
              fits = inl (not-ltb→le _ _ e);
            })
      ]

from_one-pos : (n : ℕ) → 1 ≤ from_one n
from_one-pos n = ground arith

page_limit-pos : (n : ℕ) → 1 ≤ page_limit n
page_limit-pos zero = omega arith
page_limit-pos (suc n) = omega arith

-- The lines from one number to another, counted from one.
abbrev pub lines_between : List Text → ℕ → ℕ → List Text
lines_between lines first last = take (last + 1 - first) (drop (first - 1) lines)

-- A page of some lines from `offset` on, `limit` at most.
pub record IsPage (lines : List Text) (truncated : Bool) (offset limit : ℕ) (p : Page)
    : Type 0 where
  pub end : ℕ
  pub capped : Bool
  pub body : Text
  pub is_page : p ≡ page_of offset end (length lines) capped truncated body
  pub goes_on : offset ≤ end
  pub in_file : end ≤ length lines
  pub in_limit : end < offset + limit
  pub in_reply : length body ≤ analyze_text_max_bytes
  pub whole :
      (body ≡ join b'\n' (lines_between lines offset end))
      ⊎ ((end ≡ offset)
          × (body ≡ cut_back analyze_text_max_bytes (join b'\n' (lines_between lines offset end))))

cut_body-fits : (b : Text) → length (cut_body b) ≤ analyze_text_max_bytes
cut_body-fits b = elim (Bool-cases (ltb analyze_text_max_bytes (length b))) [
  | inl e ↦ rw e (length-cut_back analyze_text_max_bytes b)
  | inr e ↦ rw e (not-ltb→le _ _ e)
]

cut_body_cases :
    (b : Text)
    → (cut_body b ≡ b)
      ⊎ ((analyze_text_max_bytes < length b) × (cut_body b ≡ cut_back analyze_text_max_bytes b))
cut_body_cases b = elim (Bool-cases (ltb analyze_text_max_bytes (length b))) [
  | inl e ↦ inr (ltb→lt _ _ e, rw e refl)
  | inr e ↦ inl (rw e refl)
]

capped-IsPage :
    (lines : List Text) (truncated : Bool) (offset limit m : ℕ) (kept : List Text)
    → 1 ≤ offset
    → offset + m ≤ length lines + 1
    → m ≤ limit
    → let sel = take m (drop (offset - 1) lines) in
      IsFit (length sel) sel kept
      → IsPage lines truncated offset limit (
          page_of offset
            (offset + length kept - 1)
            (length lines)
            true
            truncated
            (cut_body (join b'\n' kept)))
capped-IsPage lines truncated offset limit m kept lo here few f =
    let rest = drop (offset - 1) lines in
    let short : length kept ≤ m = omega (arith, f.no_more, length-take m rest) in
    let count : offset + length kept - 1 + 1 - offset ≡ length kept = omega arith in
    let same : kept ≡ lines_between lines offset (offset + length kept - 1) =
      f.prefix ∙ take-take (length kept) m rest short ∙ ap (λ n. take n rest) (sym count) in
    record {
      end = offset + length kept - 1;
      capped = true;
      body = cut_body (join b'\n' kept);
      is_page = refl;
      goes_on = omega (arith, f.some_line);
      in_file = omega arith;
      in_limit = omega (arith, f.some_line);
      in_reply = cut_body-fits (join b'\n' kept);
      whole = elim (cut_body_cases (join b'\n' kept)) [
        | inl e ↦ inl (e ∙ ap (join b'\n') same)
        | inr (long, e) ↦ elim f.fits [
          | inl fits ↦ absurd (omega arith)
          | inr one ↦
              inr (omega arith, e ∙ ap (λ k. cut_back analyze_text_max_bytes (join b'\n' k)) same)
        ]
      ];
    }

page_at-IsPage :
    (lines : List Text) (truncated : Bool) (offset limit : ℕ)
    → 1 ≤ offset
    → 1 ≤ limit
    → offset ≤ length lines
    → IsPage lines truncated offset limit (page_at lines truncated offset limit)
unfolding page_at
page_at-IsPage lines truncated offset limit lo pos here =
    let end = min (offset + limit - 1) (length lines) in
    let m = end - (offset - 1) in
    let rest = drop (offset - 1) lines in
    let sel = take m rest in
    let count : length sel ≡ m =
      omega (arith, length-take m rest, length-drop (offset - 1) lines) in
    elim (Bool-cases (ltb analyze_text_max_bytes (length (join b'\n' sel)))) [
      | inr e ↦ rw e (record {
        end = end;
        capped = false;
        body = join b'\n' sel;
        is_page = refl;
        goes_on = omega arith;
        in_file = omega arith;
        in_limit = omega arith;
        in_reply = not-ltb→le _ _ e;
        whole = inl (ap (λ n. join b'\n' (take n rest)) (omega arith));
      })
      | inl e ↦ rw e (
          capped-IsPage lines truncated offset limit m (fit_lines (length sel) sel) lo (omega arith)
            (omega arith) (fit_lines-IsFit (length sel) sel (omega arith) (omega arith)))
    ]

-- For an offset that the readable lines of the file reach, read_file answers with a page of at
-- most the limit and of at most 64 KiB, from the offset to a line of the file not before it. Its
-- body is those lines, or one line cut back to fit.
pub paged_text-IsPage :
    (bytes : Text) (offset limit : ℕ)
    → let lines = text_lines (take read_file_max_bytes bytes) in
      from_one offset ≤ length lines
      → IsPage lines
          (ltb read_file_max_bytes (length bytes))
          (from_one offset)
          (page_limit limit)
          (paged_text (some bytes) offset limit)
unfolding paged_text
paged_text-IsPage bytes offset limit here =
    let lines = text_lines (take read_file_max_bytes bytes) in
    let pos = from_one-pos offset in
    let some_line : (length lines == 0) ≡ false = ground (arith, pos, here) in
    rw (some_line, le→not-ltb (length lines) (from_one offset) here)
      (page_at-IsPage lines _ (from_one offset) (page_limit limit) pos (page_limit-pos limit) here)
