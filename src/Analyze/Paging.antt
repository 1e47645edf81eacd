-- ===== src/Analyze/Paging.antt =====
-- read_file's pages (analyze.go: pagedText). A file is its bytes; the header's wording is not modelled.
pub mod Bounds
pub mod Lines
use filestor.Base.{
  ℕ, zero, suc, ◌+◌, ◌-◌, ◌*◌, min, Bool, true, false, List, [], ◌∷◌, Option, none, some, ltb, ◌==◌,
  if◌then◌else◌, length, take, drop, Text, split, join, cut_back, is_utf8,
}
use filestor.Analyze.{Page, unreadable, empty_file, past_the_end, page_of}

abbrev pub read_file_max_bytes : ℕ
read_file_max_bytes = 8 * 1024 * 1024

abbrev pub read_file_default_limit : ℕ
read_file_default_limit = 200

abbrev pub read_file_max_limit : ℕ
read_file_max_limit = 500

abbrev pub analyze_text_max_bytes : ℕ
analyze_text_max_bytes = 64 * 1024

-- a trailing newline does not start a new line
abbrev pub drop_last_empty : List Text → List Text
drop_last_empty [] = []
drop_last_empty ([] ∷ []) = []
drop_last_empty (t ∷ ts) = t ∷ drop_last_empty ts

unfoldable pub text_lines : Text → List Text
text_lines bytes = drop_last_empty (split b'\n' bytes)

abbrev pub from_one : ℕ → ℕ
from_one zero = 1
from_one (suc n) = suc n

abbrev pub page_limit : ℕ → ℕ
page_limit zero = read_file_default_limit
page_limit (suc n) = min (suc n) read_file_max_limit

-- The first lines of a page, as many as fit the reply, one at least: from a number of lines down.
unfoldable pub fit_lines : ℕ → List Text → List Text
fit_lines zero lines = []
fit_lines (suc zero) lines = take 1 lines
fit_lines (suc (suc n)) lines =
    let fewer = fit_lines (suc n) lines in
    if ltb analyze_text_max_bytes (length (join b'\n' (take (suc (suc n)) lines)))
    then fewer
    else take (suc (suc n)) lines

-- a single line over the cap is cut back to valid UTF-8
abbrev pub cut_body : Text → Text
cut_body body =
    if ltb analyze_text_max_bytes (length body) then cut_back analyze_text_max_bytes body else body

-- from `end :=` on
unfoldable pub page_at : List Text → Bool → ℕ → ℕ → Page
unfolding fit_lines
page_at lines truncated offset limit =
    let total = length lines in
    let end = min (offset + limit - 1) total in
    let sel = take (end - (offset - 1)) (drop (offset - 1) lines) in
    let kept = fit_lines (length sel) sel in
    if ltb analyze_text_max_bytes (length (join b'\n' sel))
    then page_of offset (offset + length kept - 1) total true truncated (cut_body (join b'\n' kept))
    else page_of offset end total false truncated (join b'\n' sel)

abbrev pub page_of_lines : List Text → Bool → ℕ → ℕ → Page
page_of_lines lines truncated offset limit =
    if length lines == 0
    then empty_file
    else if ltb (length lines) offset
    then past_the_end
    else page_at lines truncated offset limit

-- pagedText, on what opening and reading the file gives
unfoldable pub paged_text : Option Text → ℕ → ℕ → Page
unfolding text_lines page_at
paged_text none offset limit = unreadable
paged_text (some bytes) offset limit =
    page_of_lines (text_lines (take read_file_max_bytes bytes))
      (ltb read_file_max_bytes (length bytes)) (from_one offset) (page_limit limit)
