-- ===== src/Base/Strings.antt =====
-- The functions of Go's `strings` and `path` packages that the program calls. A text is the list of
-- its code points; every separator, prefix and suffix that the program tests is ASCII.
use Prim.Native.Char.{code}
use Prim.Native.Nat.{ℕ, ◌+◌, ◌-◌}
use Prim.Native.String.{String}
use mathlib.Core.Bool.{Bool, true, false, ◌&&◌, ◌||◌}
use mathlib.Core.List.{List, [], ◌∷◌, map, reverse}
use mathlib.Core.Logic.{◌↔◌}
use mathlib.Core.Option.{Option, none, some}
use mathlib.Core.Path.{◌≡◌, refl}
use native.Mathlib.Omega.{arith}
use filestor.Base.Lists.{length, take, drop}
use filestor.Base.Tests.{leb, ◌==◌, within, if◌then◌else◌}

abbrev pub Text : Type 0
Text = List ℕ

abbrev pub codes : String → Text
codes String.[] = []
codes (String.◌∷◌ c s) = code c ∷ codes s

unfoldable pub text_eq : Text → Text → Bool
text_eq [] [] = true
text_eq (x ∷ xs) (y ∷ ys) = x == y && text_eq xs ys
text_eq _ _ = false

-- strings.HasPrefix, with the prefix first
unfoldable pub has_prefix : Text → Text → Bool
has_prefix [] s = true
has_prefix (p ∷ ps) [] = false
has_prefix (p ∷ ps) (c ∷ s) = p == c && has_prefix ps s

-- strings.CutSuffix: the text before the suffix, with the suffix first
unfoldable pub cut_suffix : Text → Text → Option Text
unfolding text_eq
cut_suffix suf s =
    let at = length s - length suf in
    if leb (length suf) (length s) && text_eq (drop at s) suf then some (take at s) else none

-- strings.TrimLeftFunc
unfoldable pub trim_left : (ℕ → Bool) → Text → Text
trim_left p [] = []
trim_left p (c ∷ s) = if p c then trim_left p s else c ∷ s

-- strings.TrimRightFunc
unfoldable pub trim_right : (ℕ → Bool) → Text → Text
unfolding trim_left
trim_right p s = reverse (trim_left p (reverse s))

-- strings.TrimFunc, strings.Trim
unfoldable pub trim : (ℕ → Bool) → Text → Text
trim p s = trim_right p (trim_left p s)

-- unicode.IsSpace
unfoldable pub is_space : ℕ → Bool
is_space c =
    within 9 13 c
    || c == 32
    || c == 0x85
    || c == 0xa0
    || c == 0x1680
    || within 0x2000 0x200a c
    || c == 0x2028
    || c == 0x2029
    || c == 0x202f
    || c == 0x205f
    || c == 0x3000

unfoldable pub trim_space : Text → Text
unfolding trim is_space
trim_space = trim is_space

-- strings.Split at one separator: there is always a first part
abbrev pub add_to_head : ℕ → List Text → List Text
add_to_head c [] = (c ∷ []) ∷ []
add_to_head c (p ∷ ps) = (c ∷ p) ∷ ps

unfoldable pub split : ℕ → Text → List Text
split sep [] = [] ∷ []
split sep (c ∷ s) = let rest = split sep s in if c == sep then [] ∷ rest else add_to_head c rest

-- strings.ToLower on ASCII; the program lowers ids and file extensions
abbrev pub lower : ℕ → ℕ
lower c = if within b'A' b'Z' c then c + 32 else c

unfoldable pub to_lower : Text → Text
to_lower = map lower

pub text_eq_iff : (a b : Text) → (text_eq a b ≡ true) ↔ (a ≡ b)
unfolding text_eq
text_eq_iff (x ∷ a) (y ∷ b) = ground (arith, text_eq_iff a b)
text_eq_iff _ _ = ground arith

pub text_eq_self : (a : Text) → text_eq a a ≡ true
text_eq_self a = (text_eq_iff a a).1 refl
