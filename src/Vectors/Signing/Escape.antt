-- ===== src/Vectors/Signing/Escape.antt =====
-- Escaping of the canonical resource (vectors.go: ossV4Escape).
use filestor.Base.{
  ℕ, ◌+◌, ◌-◌, ◌*◌, ◌/◌, ◌%◌, ◌<◌, ◌≡◌, refl, ap, inl, inr, Bool, true, false, ◌||◌, [], ◌∷◌, ◌++◌,
  All, all, leb, ◌==◌, if◌then◌else◌, Text, arith, Bool-cases, all-append,
}
use filestor.Vectors.Signing.{is_unreserved, upper_hex, escaped, oss_v4_escape}

-- where a reader of escaped text stands: between the bytes, behind "%", behind the first digit
pub data Stage : Type 0 where
  between first_digit : Stage
  second_digit : ℕ → Stage

abbrev hex_value : ℕ → ℕ
hex_value c = if leb c b'9' then c - b'0' else c - 55

-- a reader of escaped text
unfoldable pub unescape : Stage → Text → Text
unescape stage [] = []
unescape between (c ∷ s) =
    let rest = unescape between s in if c == b'%' then unescape first_digit s else c ∷ rest
unescape first_digit (c ∷ s) = unescape (second_digit (hex_value c)) s
unescape (second_digit h) (c ∷ s) = (h * 16 + hex_value c) ∷ unescape between s

hex_value-upper_hex : (n : ℕ) → n < 16 → hex_value (upper_hex n) ≡ n
hex_value-upper_hex n lt = ground arith

unescape-escaped :
    (c : ℕ) (t : Text) → c < 256 → unescape between (escaped c ++ t) ≡ c ∷ unescape between t
unfolding unescape
unescape-escaped c t lt = elim (Bool-cases (is_unreserved c)) [
  | inl plain ↦
      let not_percent : (c == b'%') ≡ false = ground arith in rw plain (rw not_percent refl)
  | inr other ↦ rw other (
      rw (hex_value-upper_hex (c / 16) (omega (arith, lt))) (
        rw (hex_value-upper_hex (c % 16) (omega arith))
          (ap (λ k. k ∷ unescape between t) (omega arith))))
]

abbrev pub is_safe : ℕ → Bool
is_safe c = is_unreserved c || c == b'%'

upper_hex-Safe : (n : ℕ) → n < 16 → is_safe (upper_hex n) ≡ true
upper_hex-Safe n lt = ground arith

all_safe-escaped : (c : ℕ) → c < 256 → all is_safe (escaped c) ≡ true
all_safe-escaped c lt = elim (Bool-cases (is_unreserved c)) [
  | inl plain ↦ rw plain (rw plain refl)
  | inr other ↦ rw other (
      rw (upper_hex-Safe (c / 16) (omega (arith, lt)))
        (rw (upper_hex-Safe (c % 16) (omega arith)) refl))
]

-- For a text of bytes, a reader of percent escapes gets the text back from what ossV4Escape
-- writes, which has only unreserved characters, slashes and percent signs.
pub unescape-oss_v4_escape :
    (s : Text)
    → All (λ c. c < 256) s
    → (unescape between (oss_v4_escape s) ≡ s) × (all is_safe (oss_v4_escape s) ≡ true)
unfolding oss_v4_escape unescape
unescape-oss_v4_escape [] bytes = (refl, refl)
unescape-oss_v4_escape (c ∷ s) (lt, bytes) =
    let (same, safe) = unescape-oss_v4_escape s bytes in
    (
      rw (unescape-escaped c (oss_v4_escape s) lt) (ap (◌∷◌ c) same),
      rw (all-append is_safe (escaped c) (oss_v4_escape s)) (rw (all_safe-escaped c lt) safe),
    )
