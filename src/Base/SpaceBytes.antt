-- ===== src/Base/SpaceBytes.antt =====
-- strings.TrimSpace and bytes.TrimSpace on the bytes of a text in UTF-8: a space is the whole encoding
-- of a rune for which unicode.IsSpace holds, and a byte within another rune's encoding stays.
use Prim.Native.Nat.{ℕ, zero, suc, ◌-◌}
use mathlib.Core.Bool.{Bool, ◌&&◌, ◌||◌}
use mathlib.Core.List.{[], ◌∷◌, reverse}
use filestor.Base.Tests.{◌==◌, within, if◌then◌else◌}
use filestor.Base.Strings.{Text}

-- the encodings of three bytes
abbrev is_wide_space : ℕ → ℕ → ℕ → Bool
is_wide_space a b c =
    a == 0xe1 && b == 0x9a && c == 0x80
    || a == 0xe2 && b == 0x80 && (within 0x80 0x8a c || c == 0xa8 || c == 0xa9 || c == 0xaf)
    || a == 0xe2 && b == 0x81 && c == 0x9f
    || a == 0xe3 && b == 0x80 && c == 0x80

abbrev is_ascii_space : ℕ → Bool
is_ascii_space c = within 9 13 c || c == 32

abbrev is_latin_space : ℕ → ℕ → Bool
is_latin_space a b = a == 0xc2 && (b == 0x85 || b == 0xa0)

-- how many bytes the space at the start has, if there is one
abbrev leading_space : Text → ℕ
leading_space [] = 0
leading_space (a ∷ []) = if is_ascii_space a then 1 else 0
leading_space (a ∷ b ∷ []) = if is_ascii_space a then 1 else if is_latin_space a b then 2 else 0
leading_space (a ∷ b ∷ c ∷ s) =
    if is_ascii_space a
    then 1
    else if is_latin_space a b
    then 2
    else if is_wide_space a b c
    then 3
    else 0

-- the same for the space at the end of a text whose bytes are in reverse order
abbrev trailing_space : Text → ℕ
trailing_space [] = 0
trailing_space (a ∷ []) = if is_ascii_space a then 1 else 0
trailing_space (a ∷ b ∷ []) = if is_ascii_space a then 1 else if is_latin_space b a then 2 else 0
trailing_space (a ∷ b ∷ c ∷ s) =
    if is_ascii_space a
    then 1
    else if is_latin_space b a
    then 2
    else if is_wide_space c b a
    then 3
    else 0

-- cuts spaces off the start; the first `pending` bytes belong to a space
unfoldable pub cut_spaces : (Text → ℕ) → ℕ → Text → Text
cut_spaces space pending [] = []
cut_spaces space (suc pending) (c ∷ s) = cut_spaces space pending s
cut_spaces space zero (c ∷ s) =
    let n = space (c ∷ s) in let rest = cut_spaces space (n - 1) s in if n == 0 then c ∷ s else rest

unfoldable pub trim_space_bytes : Text → Text
unfolding cut_spaces
trim_space_bytes s = reverse (cut_spaces trailing_space 0 (reverse (cut_spaces leading_space 0 s)))
