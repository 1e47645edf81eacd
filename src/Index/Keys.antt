-- ===== src/Index/Keys.antt =====
-- parseIndexKey reads back the keys that indexKey writes, and a key names one month.
use filestor.Base.{
  ℕ, ◌≤◌, ◌<◌, ◌≡◌, refl, sym, ap, ◌∙◌, true, [], ◌∷◌, ◌++◌, some, ◌==◌, length, take, drop, codes,
  text_eq_self, split, cut_suffix, arith, not, all, some_injective,
}
use filestor.Clock.{four_digits, two_digits, format_month, parse_month}
use filestor.Clock.RoundTrip.{parse_month-format_month}
use filestor.Bundle.Keys.{split-append, split_none}
use filestor.Index.{index_root, index_key, parse_index_key}

four_digits-no_slash : (y : ℕ) → all (λ c. not (c == b'/')) (four_digits y) ≡ true
unfolding four_digits
four_digits-no_slash y = ground arith

file-no_slash : (y m : ℕ) → all (λ c. not (c == b'/')) (format_month y m ++ codes ".json") ≡ true
unfolding format_month four_digits two_digits
file-no_slash y m = ground arith

split-index_key :
    (y m : ℕ)
    → split b'/' (index_key y m)
      ≡ index_root ∷ four_digits y ∷ (format_month y m ++ codes ".json") ∷ []
unfolding index_key
split-index_key y m =
    split-append b'/' index_root _ refl
    ∙ ap (◌∷◌ index_root) (
        split-append b'/' (four_digits y) _ (four_digits-no_slash y)
        ∙ ap (◌∷◌ (four_digits y)) (split_none b'/' _ (file-no_slash y m)))

cut_suffix-file :
    (y m : ℕ)
    → cut_suffix (codes ".json") (format_month y m ++ codes ".json") ≡ some (format_month y m)
unfolding cut_suffix format_month four_digits two_digits
cut_suffix-file y m = refl

month_key_shape :
    (y m : ℕ) → (length (format_month y m) ≡ 7) × (take 4 (format_month y m) ≡ four_digits y)
unfolding format_month four_digits two_digits
month_key_shape y m = (refl, refl)

module _ (y m : ℕ) (hy : y < 10000) (lo : 1 ≤ m) (hi : m ≤ 12) where
  -- For a year below 10000 and a month of the year, parseIndexKey reads the month key back from
  -- the key of the month's index file.
  pub parse_index_key-index_key : parse_index_key (index_key y m) ≡ some (format_month y m)
  unfolding parse_index_key
  parse_index_key-index_key =
      let (long, folder) = month_key_shape y m in
      rw (split-index_key y m) (
        rw (text_eq_self index_root) (
          rw (cut_suffix-file y m) (
            rw (long, folder, text_eq_self (four_digits y))
              (rw (parse_month-format_month y m hy lo hi)))))

-- The month key stands in the index key.
pub month_in_key : (y m : ℕ) → take 7 (drop 11 (index_key y m)) ≡ format_month y m
unfolding index_key format_month four_digits two_digits
month_in_key y m = refl

module _ {y m y' m' : ℕ} (hy : y < 10000) (lo : 1 ≤ m) (hi : m ≤ 12) (hy' : y' < 10000)
    (lo' : 1 ≤ m') (hi' : m' ≤ 12) where
  pub format_month_injective : format_month y m ≡ format_month y' m' → (y ≡ y') × (m ≡ m')
  format_month_injective e =
      let same = some_injective (
        sym (parse_month-format_month y m hy lo hi)
        ∙ ap parse_month e
        ∙ parse_month-format_month y' m' hy' lo' hi') in
      (ap (λ p. p.0) same, ap (λ p. p.1) same)

  -- For years below 10000, two months have one index file only if they are the same month.
  pub index_key_injective : index_key y m ≡ index_key y' m' → (y ≡ y') × (m ≡ m')
  index_key_injective e =
      format_month_injective
        (sym (month_in_key y m) ∙ ap (λ k. take 7 (drop 11 k)) e ∙ month_in_key y' m')
