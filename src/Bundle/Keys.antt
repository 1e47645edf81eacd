-- ===== src/Bundle/Keys.antt =====
-- parseBundleID reads back the key prefixes that bundlePrefix writes.
use filestor.Base.{
  ℕ, zero, suc, ◌+◌, ◌≡◌, ◌≢◌, refl, ap, ◌∙◌, Bool, true, not, List, [], ◌∷◌, ◌++◌, some, ◌==◌,
  length, take, drop, all, all-take, Text, text_eq_self, text_eq_iff, split, trim, trim_id,
  trim-concat, Starts, Ends, Ends-append, Ends-all, cons_ne_nil, to_lower, arith,
}
use filestor.Bundle.{
  is_hex, uuid_chars, is_uuid_v4, content_root, bundle_prefix, bundle_parts, parse_bundle_id,
}

-- Splitting a text that does not hold the separator, and one that holds it behind such a text.
pub split_none : (sep : ℕ) (a : Text) → all (λ c. not (c == sep)) a ≡ true → split sep a ≡ a ∷ []
unfolding split
split_none sep [] h = refl
split_none sep (c ∷ a) h = ground (arith, split_none sep a)

pub split-append :
    (sep : ℕ) (a b : Text)
    → all (λ c. not (c == sep)) a ≡ true
    → split sep (a ++ (sep ∷ b)) ≡ a ∷ split sep b
unfolding split
split-append sep [] b h = ground arith
split-append sep (c ∷ a) b h = ground (arith, split-append sep a b)

-- The characters of an id: no slash among them.
uuid_chars-no_slash :
    (i : ℕ) (s : Text) → uuid_chars i s ≡ true → all (λ c. not (c == b'/')) s ≡ true
unfolding uuid_chars is_hex
uuid_chars-no_slash i [] h = refl
uuid_chars-no_slash i (c ∷ s) h = ground (arith, uuid_chars-no_slash (i + 1) s)

to_lower_idem : (s : Text) → to_lower (to_lower s) ≡ to_lower s
unfolding to_lower
to_lower_idem [] = refl
to_lower_idem (c ∷ s) = ground (arith, to_lower_idem s)

all-drop : (p : ℕ → Bool) (n : ℕ) (xs : Text) → all p xs ≡ true → all p (drop n xs) ≡ true
all-drop p zero xs h = h
all-drop p (suc n) [] h = refl
all-drop p (suc n) (x ∷ xs) h = all-drop p n xs (ground arith)

-- What the test of isUUIDv4 says of a text, for the proofs below.
is_uuid_v4_inv :
    (s : Text) → is_uuid_v4 s ≡ true → (length s ≡ 36) × (all (λ c. not (c == b'/')) s ≡ true)
unfolding is_uuid_v4
is_uuid_v4_inv s h = ground (arith, uuid_chars-no_slash 0 s)

module _ (id : Text) (v : is_uuid_v4 (to_lower id) ≡ true) where
  -- the key prefix of a full id
  bundle_prefix_long :
      bundle_prefix id
      ≡ content_root
        ++ (b'/'
            ∷ (take 2 (to_lower id)
                ++ (b'/' ∷ (take 2 (drop 2 (to_lower id)) ++ (b'/' ∷ to_lower id)))))
  unfolding bundle_prefix
  bundle_prefix_long = rw (is_uuid_v4_inv (to_lower id) v).0

  split-bundle_prefix :
      split b'/' (bundle_prefix id)
      ≡ content_root ∷ take 2 (to_lower id) ∷ take 2 (drop 2 (to_lower id)) ∷ to_lower id ∷ []
  split-bundle_prefix =
      let low = to_lower id in
      let clean = (is_uuid_v4_inv low v).1 in
      rw bundle_prefix_long (
        split-append b'/' content_root _ refl
        ∙ ap (◌∷◌ content_root) (
            split-append b'/' (take 2 low) _ (all-take _ 2 low clean)
            ∙ ap (◌∷◌ (take 2 low)) (
                split-append b'/' (take 2 (drop 2 low)) _
                  (all-take _ 2 (drop 2 low) (all-drop _ 2 low clean))
                ∙ ap (◌∷◌ (take 2 (drop 2 low))) (split_none b'/' low clean))))

  bundle_prefix-Ends : Ends (λ c. not (c == b'/')) (bundle_prefix id)
  bundle_prefix-Ends =
      let low = to_lower id in
      let (long, clean) = is_uuid_v4_inv low v in
      let full = λ (e : low ≡ []). absurd {A = ⊥} (omega (arith, ap length e)) in
      let tail = b'/' ∷ low in
      let second = b'/' ∷ (take 2 (drop 2 low) ++ tail) in
      let first = b'/' ∷ (take 2 low ++ second) in
      rw bundle_prefix_long (
        Ends-append _ content_root first (cons_ne_nil _ _) (
          Ends-append _ (b'/' ∷ take 2 low) second (cons_ne_nil _ _) (
            Ends-append _ (b'/' ∷ take 2 (drop 2 low)) tail (cons_ne_nil _ _)
              (Ends-append _ (b'/' ∷ []) low full (Ends-all _ low clean)))))

  -- For an id whose lowered form isUUIDv4 accepts, parseBundleID reads that form back from the key
  -- prefix of the bundle, with or without a slash at its end.
  pub parse_bundle_id-bundle_prefix :
      (parse_bundle_id (bundle_prefix id ++ b'/' ∷ []) ≡ some (to_lower id))
      × (parse_bundle_id (bundle_prefix id) ≡ some (to_lower id))
  unfolding parse_bundle_id
  parse_bundle_id-bundle_prefix =
      let starts : Starts (λ c. not (c == b'/')) (bundle_prefix id) = rw bundle_prefix_long refl in
      let full : bundle_prefix id ≢ [] = rw bundle_prefix_long (cons_ne_nil _ _) in
      (
        rw
            (
              trim-concat _ (bundle_prefix id) b'/' full starts bundle_prefix-Ends refl,
              split-bundle_prefix,
            )
            parts,
        rw (trim_id _ (bundle_prefix id) starts bundle_prefix-Ends, split-bundle_prefix) parts,
      )
    where
      parts :
          bundle_parts
            (content_root ∷ take 2 (to_lower id) ∷ take 2 (drop 2 (to_lower id)) ∷ to_lower id ∷ [])
          ≡ some (to_lower id)
      parts =
          rw (to_lower_idem, v)
            (rw (
              text_eq_self content_root,
              text_eq_self (take 2 (to_lower id)),
              text_eq_self (take 2 (drop 2 (to_lower id))),
            ))

bundle_parts_inv :
    (parts : List Text) {id : Text}
    → bundle_parts parts ≡ some id
    → (last : Text) × (is_uuid_v4 id ≡ true)
      × (to_lower last ≡ id)
      × (parts ≡ content_root ∷ take 2 id ∷ take 2 (drop 2 id) ∷ last ∷ [])
bundle_parts_inv (root ∷ aa ∷ bb ∷ last ∷ []) h = (
  last,
  ground (arith, text_eq_iff root content_root),
  ground (arith, text_eq_iff root content_root),
  ground (
    arith,
    text_eq_iff root content_root,
    text_eq_iff aa (take 2 (to_lower last)),
    text_eq_iff bb (take 2 (drop 2 (to_lower last))),
  ),
)
bundle_parts_inv _ h = cc

-- Whatever parseBundleID accepts is, without the slashes around it, the key prefix of the
-- canonical id that it gives, up to the letter case of its last segment.
pub parse_bundle_id_sound :
    (prefix : Text) {id : Text}
    → parse_bundle_id prefix ≡ some id
    → (last : Text) × (is_uuid_v4 id ≡ true)
      × (to_lower last ≡ id)
      × (split b'/' (trim (λ c. c == b'/') prefix)
          ≡ content_root ∷ take 2 id ∷ take 2 (drop 2 id) ∷ last ∷ [])
unfolding parse_bundle_id
parse_bundle_id_sound prefix h = bundle_parts_inv (split b'/' (trim (λ c. c == b'/') prefix)) h
