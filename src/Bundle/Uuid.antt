-- ===== src/Bundle/Uuid.antt =====
-- Every id that newUUIDv4 makes passes isUUIDv4.
use Prim.Native.Nat.{bit_and, bit_or}
use filestor.Base.{
  ℕ, zero, suc, ◌/◌, ◌<◌, ◌≡◌, refl, Bool, true, ◌&&◌, ◌||◌, List, [], ◌∷◌, some, ◌==◌, length,
  Text, arith, All,
}
use filestor.Bundle.{is_hex, is_uuid_v4, hex_digit, new_uuid_v4}

is_hex-hex_digit : (n : ℕ) → is_hex (hex_digit n) ≡ true
unfolding is_hex hex_digit
is_hex-hex_digit n = ground arith

-- A test that every number up to a bound passes, by trying them.
holds_under : (ℕ → Bool) → ℕ → Bool
holds_under test zero = true
holds_under test (suc top) = holds_under test top && test top

holds_under-each :
    (test : ℕ → Bool) {bound b : ℕ} → b < bound → holds_under test bound ≡ true → test b ≡ true
unfolding holds_under
holds_under-each test {bound = zero} small ok = absurd (omega arith)
holds_under-each test {bound = suc top} {b = b} small ok =
    ground (arith, holds_under-each test {bound = top} {b = b})

-- The version nibble and the variant nibble.
version_digit : (x : ℕ) → x < 256 → (hex_digit (bit_or (bit_and x 0x0f) 0x40 / 16) == b'4') ≡ true
unfolding holds_under hex_digit
version_digit x h =
    holds_under-each (λ x. hex_digit (bit_or (bit_and x 0x0f) 0x40 / 16) == b'4') h refl

is_variant : ℕ → Bool
is_variant c = c == b'8' || c == b'9' || c == b'a' || c == b'b'

variant_digit :
    (x : ℕ) → x < 256 → is_variant (hex_digit (bit_or (bit_and x 0x3f) 0x80 / 16)) ≡ true
unfolding holds_under hex_digit is_variant
variant_digit x h =
    holds_under-each (λ x. is_variant (hex_digit (bit_or (bit_and x 0x3f) 0x80 / 16))) h refl

-- newUUIDv4 makes an id of any 16 random bytes, and isUUIDv4 accepts it.
pub new_uuid_v4-is_uuid_v4 :
    (random : List ℕ)
    → length random ≡ 16
    → All (λ b. b < 256) random
    → (id : Text) × (new_uuid_v4 (some random) ≡ some id) × (is_uuid_v4 id ≡ true)
unfolding new_uuid_v4 is_uuid_v4 is_variant
new_uuid_v4-is_uuid_v4
      (b0 ∷ b1 ∷ b2 ∷ b3 ∷ b4 ∷ b5 ∷ b6 ∷ b7 ∷ b8 ∷ b9 ∷ b10 ∷ b11 ∷ b12 ∷ b13 ∷ b14 ∷ b15 ∷ []) l
      h =
    (
      _,
      refl,
      simp (is_hex-hex_digit, version_digit b6 (omega arith), variant_digit b8 (omega arith)),
    )
new_uuid_v4-is_uuid_v4 _ l h = absurd (omega arith)
