-- ===== src/Names/Title.antt =====
-- sanitizePushTitle (push.go). `wide c` says whether a code point from 128 on is a letter or a
-- digit (unicode.IsLetter, unicode.IsDigit). `none` is errInvalidPushTitle.
pub mod Folded
pub mod Accepted
use filestor.Base.{
  ℕ, ◌≡◌, refl, Bool, true, false, not, ◌&&◌, ◌||◌, List, [], ◌∷◌, Option, none, some, arith, leb,
  ltb, ◌==◌, within, if◌then◌else◌, length, take, Text, trim, trim_right, trim_space,
}

abbrev pub push_title_max_runes : ℕ
push_title_max_runes = 80

abbrev pub is_blank_text : Text → Bool
is_blank_text [] = true
is_blank_text (c ∷ s) = false

-- the characters of the cut set "-."
abbrev pub is_edge : ℕ → Bool
is_edge c = c == b'-' || c == b'.'

module _ (wide : ℕ → Bool) where
  abbrev pub is_letter_or_digit : ℕ → Bool
  is_letter_or_digit c =
      within b'a' b'z' c || within b'A' b'Z' c || within b'0' b'9' c || (leb 128 c && wide c)

  unfoldable pub is_kept : ℕ → Bool
  is_kept c = is_letter_or_digit c || c == b'_' || c == b'.'

  -- The loop over the runes. `started` is `b.Len() > 0`; the text is what the loop still writes.
  unfoldable pub fold_runes : Bool → Bool → Text → Text
  unfolding is_kept
  fold_runes started dash [] = []
  fold_runes started dash (c ∷ s) =
      let kept = c ∷ fold_runes true false s in
      let dashed = b'-' ∷ fold_runes started true s in
      let skipped = fold_runes started dash s in
      if is_kept c then kept else if started && not dash then dashed else skipped

  unfoldable pub sanitize_push_title : Text → Option Text
  unfolding trim_space trim trim_right fold_runes
  sanitize_push_title s =
      let text = trim_space s in
      let out = trim is_edge (fold_runes false false text) in
      if is_blank_text text
      then none
      else if is_blank_text out
      then none
      else if ltb push_title_max_runes (length out)
      then some (trim_right is_edge (take push_title_max_runes out))
      else some out
