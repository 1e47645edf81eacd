-- ===== src/Base/Bytes.antt =====
-- Bytes of texts: UTF-8 (unicode/utf8), decimal numbers (strconv), lines (strings.Split, Join).
use mathlib.Core.Bool.{Bool, true, false, ◌&&◌, ◌||◌}
use mathlib.Core.List.{List, [], ◌∷◌, ◌++◌}
use mathlib.Core.Path.{◌≡◌, refl}
use Prim.Native.Nat.{ℕ, zero, suc, ◌+◌, ◌/◌, ◌%◌, ◌≤◌}
use native.Mathlib.Omega.{arith}
use filestor.Base.Tests.{if◌then◌else◌, ltb, ◌==◌, within}
use filestor.Base.Lists.{length, take, length-take}
use filestor.Base.Strings.{Text}

-- What may follow the lead byte of a character: how many bytes, and the range of the first of them.
abbrev Tail : Type 0
Tail = ℕ × ℕ × ℕ

unfoldable pub tail_of : ℕ → Tail
tail_of b =
    if ltb b 0x80
    then (0, 0, 0)
    else if within 0xc2 0xdf b
    then (1, 0x80, 0xbf)
    else if b == 0xe0
    then (2, 0xa0, 0xbf)
    else if b == 0xed
    then (2, 0x80, 0x9f)
    else if within 0xe1 0xef b
    then (2, 0x80, 0xbf)
    else if b == 0xf0
    then (3, 0x90, 0xbf)
    else if within 0xf1 0xf3 b
    then (3, 0x80, 0xbf)
    else (3, 0x80, 0x8f)

abbrev pub is_lead : ℕ → Bool
is_lead b = ltb b 0x80 || within 0xc2 0xf4 b

-- the scan inside a character that lacks some bytes, the next of them in a range
unfoldable pub utf8_from : Tail → Text → Bool
unfolding tail_of
utf8_from (zero, lo, hi) [] = true
utf8_from (zero, lo, hi) (b ∷ s) = is_lead b && utf8_from (tail_of b) s
utf8_from (suc n, lo, hi) [] = false
utf8_from (suc n, lo, hi) (b ∷ s) = within lo hi b && utf8_from (n, 0x80, 0xbf) s

-- utf8.ValidString
unfoldable pub is_utf8 : Text → Bool
unfolding utf8_from
is_utf8 s = utf8_from (0, 0, 0) s

-- `for len(text) > 0 && !utf8.ValidString(text) { text = text[:len(text)-1] }`, from a length on
unfoldable pub cut_back : ℕ → Text → Text
unfolding is_utf8
cut_back zero s = []
cut_back (suc n) s =
    let shorter = cut_back n s in if is_utf8 (take (suc n) s) then take (suc n) s else shorter

nil-is_utf8 : is_utf8 [] ≡ true
unfolding is_utf8
nil-is_utf8 = refl

pub cut_back-is_utf8 : (n : ℕ) (s : Text) → is_utf8 (cut_back n s) ≡ true
unfolding cut_back
cut_back-is_utf8 zero s = nil-is_utf8
cut_back-is_utf8 (suc n) s = ground (arith, cut_back-is_utf8 n s)

pub length-cut_back : (n : ℕ) (s : Text) → length (cut_back n s) ≤ n
unfolding cut_back
length-cut_back zero s = omega arith
length-cut_back (suc n) s = ground (arith, length-cut_back n s, length-take (suc n) s)

-- the decimal digits of a number below 10 ^ fuel
unfoldable pub digits_of : ℕ → ℕ → Text
digits_of zero n = []
digits_of (suc fuel) n =
    let front = digits_of fuel (n / 10) in
    let last = (b'0' + n % 10) ∷ [] in if ltb n 10 then last else front ++ last

-- strconv.Itoa and "%d", of a number below 10 ^ 20
unfoldable pub decimal : ℕ → Text
unfolding digits_of
decimal n = digits_of 20 n

-- strings.Join with one character between
unfoldable pub join : ℕ → List Text → Text
join sep [] = []
join sep (t ∷ []) = t
join sep (t ∷ u ∷ ts) = t ++ (sep ∷ join sep (u ∷ ts))
