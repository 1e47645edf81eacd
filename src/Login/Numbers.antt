-- ===== src/Login/Numbers.antt =====
-- Reading back decimal numbers and hexadecimal bytes (auth.go: strconv, encoding/hex).
use filestor.Base.{
  ℕ, zero, suc, ◌+◌, ◌-◌, ◌*◌, ◌/◌, ◌%◌, ◌^◌, ◌≡◌, ◌<◌, refl, sym, ap, ◌∙◌, inl, inr, Bool, true,
  false, List, [], ◌∷◌, ◌++◌, all, Option, none, some, some_injective, ltb, ltb→lt, all-append,
  ◌==◌, within, Bool-cases, Text, digits_of, decimal, arith,
}
use filestor.Bundle.{hex, hex_digit}
use filestor.Login.{digits_after, parse_int, nibble, decode_hex, before, cut, is_blank}

abbrev pub is_digit : ℕ → Bool
is_digit c = within b'0' b'9' c

digits_after-append :
    (n : ℕ) (s : Text) (c : ℕ) {v : ℕ}
    → is_digit c ≡ true
    → digits_after n s ≡ some v
    → digits_after n (s ++ c ∷ []) ≡ some (v * 10 + (c - b'0'))
digits_after-append n [] c d h = rw d (ap (λ k. some (k * 10 + (c - b'0'))) (some_injective h))
digits_after-append n (x ∷ s) c d h = elim (Bool-cases (is_digit x)) [
  | inl e ↦ rw e (digits_after-append (n * 10 + (x - b'0')) s c d (rw e at h))
  | inr e ↦ cc (rw e at h)
]

digits_after-digits_of : (fuel n : ℕ) → n < 10 ^ fuel → digits_after 0 (digits_of fuel n) ≡ some n
unfolding digits_of
digits_after-digits_of zero n h = ap some (omega (arith, h))
digits_after-digits_of (suc fuel) n h =
    let fewer : n / 10 < 10 ^ fuel = omega (arith, h) in
    let digit : within b'0' b'9' (b'0' + n % 10) ≡ true = ground arith in
    elim (Bool-cases (ltb n 10)) [
      | inl e ↦ rw (e, digit) (ap some (omega (arith, ltb→lt n 10 e)))
      | inr e ↦ rw e (
          digits_after-append 0 (digits_of fuel (n / 10)) (b'0' + n % 10) (ground arith)
            (digits_after-digits_of fuel (n / 10) fewer)
          ∙ ap some (omega arith))
    ]

all-digits_of : (fuel n : ℕ) → all is_digit (digits_of fuel n) ≡ true
unfolding digits_of
all-digits_of zero n = refl
all-digits_of (suc fuel) n = elim (Bool-cases (ltb n 10)) [
  | inl e ↦ rw e (ground arith)
  | inr e ↦ rw (e, all-append, all-digits_of fuel (n / 10)) (ground arith)
]

nibble-hex_digit : (n : ℕ) → nibble (hex_digit n) ≡ some (n % 16)
unfolding hex_digit
nibble-hex_digit n = ground arith

pub decode_hex-hex : (bs : List ℕ) → all (λ b. ltb b 256) bs ≡ true → decode_hex (hex bs) ≡ some bs
unfolding decode_hex hex
decode_hex-hex [] h = refl
decode_hex-hex (b ∷ bs) h =
    let small : b < 256 = ground arith in
    rw (nibble-hex_digit (b / 16), nibble-hex_digit b, decode_hex-hex bs (ground arith))
      (ap (λ k. some (k ∷ bs)) (omega (arith, small)))

-- A text of digits with one at least reads without a sign.
parse_int-digits :
    (s : Text) (n : ℕ)
    → is_blank s ≡ false
    → all is_digit s ≡ true
    → digits_after 0 s ≡ some n
    → n < 2 ^ 63
    → parse_int s ≡ some n
unfolding parse_int
parse_int-digits [] n b d h lt = cc
parse_int-digits (c ∷ s) n b d h lt =
    let digit : is_digit c ≡ true = ground arith in
    let no_sign : (c == b'+') ≡ false = ground arith in
    let fits : ltb n (2 ^ 63) ≡ true = ground arith in rw (no_sign, h, fits) refl

digits_of-not_blank : (fuel n : ℕ) → is_blank (digits_of (suc fuel) n) ≡ false
unfolding digits_of
digits_of-not_blank fuel n = elim (Bool-cases (ltb n 10)) [
  | inl e ↦ rw e refl
  | inr e ↦ rw e (blank_append (digits_of fuel (n / 10)))
]
  where
    blank_append : (s : Text) → is_blank (s ++ (b'0' + n % 10) ∷ []) ≡ false
    blank_append [] = refl
    blank_append (c ∷ s) = refl

pub decimal-not_blank : (n : ℕ) → is_blank (decimal n) ≡ false
unfolding decimal
decimal-not_blank n = digits_of-not_blank 19 n

pub parse_int-decimal : (n : ℕ) → n < 2 ^ 63 → parse_int (decimal n) ≡ some n
unfolding decimal
parse_int-decimal n h =
    parse_int-digits (digits_of 20 n) n (digits_of-not_blank 19 n) (all-digits_of 20 n)
      (digits_after-digits_of 20 n (omega (arith, h))) h

cut-digits : (s t : Text) → all is_digit s ≡ true → cut b'|' (s ++ (b'|' ∷ t)) ≡ some (s, t)
unfolding cut
cut-digits [] t h = refl
cut-digits (c ∷ s) t h =
    let other : (c == b'|') ≡ false = ground arith in rw (other, cut-digits s t (ground arith)) refl

pub cut-decimal : (n : ℕ) (t : Text) → cut b'|' (decimal n ++ (b'|' ∷ t)) ≡ some (decimal n, t)
unfolding decimal
cut-decimal n t = cut-digits (digits_of 20 n) t (all-digits_of 20 n)

before-inv :
    (c : ℕ) (o : Option (Text × Text)) {a b : Text}
    → before c o ≡ some (a, b)
    → (a' : Text) × (o ≡ some (a', b)) × (a ≡ c ∷ a')
before-inv c none h = cc
before-inv c (some (s, t)) h =
    let e = some_injective h in (s, ap (λ x. some (s, x.1)) e, ap (λ x. x.0) (sym e))

-- The two parts of a cut text, with the separator between.
pub cut-append : (sep : ℕ) (s : Text) {a b : Text} → cut sep s ≡ some (a, b) → s ≡ a ++ (sep ∷ b)
unfolding cut
cut-append sep [] h = cc
cut-append sep (c ∷ s) h = elim (Bool-cases (c == sep)) [
  | inl e ↦
      let k = some_injective (rw e at h) in
      let c_same : c ≡ sep = ground arith in rw⁻¹ (ap (λ x. x.0) k, ap (λ x. x.1) k, c_same) refl
  | inr e ↦
      let (a', o, k) = before-inv c (cut sep s) (rw e at h) in
      ap (◌∷◌ c) (cut-append sep s o) ∙ rw k refl
]
