-- ===== src/Bundle.antt =====
-- Bundle ids and keys (bundle.go): newUUIDv4, isUUIDv4, bundlePrefix, parseBundleID.
pub mod Uuid
pub mod Keys
use Prim.Native.Nat.{bit_and, bit_or}
use filestor.Base.{
  ℕ, zero, suc, ◌/◌, ◌%◌, ◌+◌, ◌≡◌, Bool, true, false, ◌&&◌, ◌||◌, List, [], ◌∷◌, ◌++◌, Option,
  none, some, ltb, ◌==◌, within, if◌then◌else◌, length, take, drop, Text, codes, text_eq, split,
  trim, to_lower,
}

-- bundleMeta
pub record BundleMeta : Type 0 where
  pub id : Text
  pub title : Text
  pub time : Text

unfoldable pub is_hex : ℕ → Bool
is_hex c = within b'0' b'9' c || within b'a' b'f' c

-- s[i], where i is in range
abbrev pub char_at : Text → ℕ → ℕ
char_at [] i = 0
char_at (c ∷ s) zero = c
char_at (c ∷ s) (suc i) = char_at s i

-- the positions of the dashes
abbrev pub is_dash_place : ℕ → Bool
is_dash_place i = i == 8 || i == 13 || i == 18 || i == 23

-- the loop of isUUIDv4, from position i
unfoldable pub uuid_chars : ℕ → Text → Bool
uuid_chars i [] = true
uuid_chars i (c ∷ s) = (if is_dash_place i then c == b'-' else is_hex c) && uuid_chars (i + 1) s

unfoldable pub is_uuid_v4 : Text → Bool
unfolding uuid_chars
is_uuid_v4 s =
    length s == 36
    && uuid_chars 0 s
    && char_at s 14 == b'4'
    && (char_at s 19 == b'8'
        || char_at s 19 == b'9'
        || char_at s 19 == b'a'
        || char_at s 19 == b'b')

-- "%x" of a byte
unfoldable pub hex_digit : ℕ → ℕ
hex_digit n = if ltb (n % 16) 10 then b'0' + n % 16 else 87 + n % 16

unfoldable pub hex : List ℕ → Text
hex [] = []
hex (b ∷ bs) = hex_digit (b / 16) ∷ hex_digit b ∷ hex bs

abbrev pub set : List ℕ → ℕ → (ℕ → ℕ) → List ℕ
set [] i f = []
set (b ∷ bs) zero f = f b ∷ bs
set (b ∷ bs) (suc i) f = b ∷ set bs i f

-- the bytes b[i:j]
abbrev pub slice : List ℕ → ℕ → ℕ → List ℕ
slice b i n = take n (drop i b)

-- newUUIDv4 on the 16 bytes that rand.Read gave; `none` when it failed.
unfoldable pub new_uuid_v4 : Option (List ℕ) → Option Text
unfolding hex
new_uuid_v4 none = none
new_uuid_v4 (some random) =
    let b =
      set (set random 6 (λ x. bit_or (bit_and x 0x0f) 0x40)) 8
        (λ x. bit_or (bit_and x 0x3f) 0x80) in
    some (
      hex (slice b 0 4)
      ++ (b'-'
          ∷ (hex (slice b 4 2)
              ++ (b'-'
                  ∷ (hex (slice b 6 2)
                      ++ (b'-' ∷ (hex (slice b 8 2) ++ (b'-' ∷ hex (slice b 10 6)))))))))

abbrev pub content_root : Text
content_root = codes "content"

unfoldable pub bundle_prefix : Text → Text
bundle_prefix id =
    let low = to_lower id in
    if ltb (length low) 4
    then content_root ++ (b'/' ∷ low)
    else content_root ++ (b'/' ∷ (take 2 low ++ (b'/' ∷ (take 2 (drop 2 low) ++ (b'/' ∷ low)))))

abbrev pub bundle_meta_name : Text
bundle_meta_name = codes ".meta.json"

unfoldable pub bundle_meta_key : Text → Text
unfolding bundle_prefix
bundle_meta_key id = bundle_prefix id ++ (b'/' ∷ bundle_meta_name)

-- the test of parseBundleID on the four segments
abbrev pub bundle_parts : List Text → Option Text
bundle_parts (root ∷ aa ∷ bb ∷ last ∷ []) =
    let id = to_lower last in
    if text_eq root content_root
      && is_uuid_v4 id
      && text_eq aa (take 2 id)
      && text_eq bb (take 2 (drop 2 id))
    then some id
    else none
bundle_parts _ = none

unfoldable pub parse_bundle_id : Text → Option Text
parse_bundle_id prefix = bundle_parts (split b'/' (trim (λ c. c == b'/') prefix))
