-- ===== src/Index/Loaded.antt =====
-- What load makes of the bucket's month files (bundle.go: bundleIndex.load).
use filestor.Base.{
  ℕ, ◌≡◌, ◌≢◌, refl, sym, ap, subst, ◌∙◌, inl, inr, true, false, List, [], ◌∷◌, Option, none, some,
  any, if◌then◌else◌, Bool-cases, Text, text_eq, text_eq_iff, lookup, lookup-insert,
  lookup-insert_self, lookup-insert_ne, join,
}
use filestor.Clock.{format_month, four_digits, two_digits}
use filestor.Bundle.{BundleMeta}
use filestor.Index.{
  BundleIndex, Bucket, or_false, is_broken, index_key, parse_index_key, load_list, load_file,
  load_parsed, load_key, load_keys, load, new_bundle_index, mark_broken,
}
use filestor.Index.Keys.{parse_index_key-index_key}
use filestor.Index.Parsed.{key_of_month, parse_index_key_inv}
use filestor.Index.Sync.{IsMonth, Synced, stored}

key_of_month-format_month : (y m : ℕ) → key_of_month (format_month y m) ≡ index_key y m
unfolding join index_key format_month four_digits two_digits
key_of_month-format_month y m = refl

module _ (fetch : Text → Option Text) (decode : Text → Option (List BundleMeta)) where
  mark_broken_self :
      (k : Text) (x : BundleIndex) → is_broken (mark_broken fetch decode k x) k ≡ true
  mark_broken_self k x = ap or_false (lookup-insert_self k true x.broken)

  mark_broken-broken :
      (k : Text) (x : BundleIndex) (j : Text)
      → is_broken x j ≡ true
      → is_broken (mark_broken fetch decode k x) j ≡ true
  mark_broken-broken k x j h =
      rw lookup-insert (elim (Bool-cases (text_eq k j)) [ inl e ↦ rw e refl | inr e ↦ rw e h ])

  load_list-broken :
      (k : Text) (list : Option (List BundleMeta)) (x : BundleIndex) (j : Text)
      → is_broken x j ≡ true
      → is_broken (load_list fetch decode k list x) j ≡ true
  load_list-broken k none x j h = mark_broken-broken k x j h
  load_list-broken k (some list) x j h = h

  -- A month that failed to load stays so.
  load_file-broken :
      (k : Text) (bytes : Option Text) (x : BundleIndex) (j : Text)
      → is_broken x j ≡ true
      → is_broken (load_file fetch decode k bytes x) j ≡ true
  load_file-broken k none x j h = mark_broken-broken k x j h
  load_file-broken k (some bytes) x j h = load_list-broken k (decode bytes) x j h

  load_key-broken :
      (key : Text) (x : BundleIndex) (j : Text)
      → is_broken x j ≡ true
      → is_broken (load_key fetch decode key x) j ≡ true
  unfolding load_key
  load_key-broken key x j h = of_parsed (parse_index_key key)
    where
      of_parsed : (o : Option Text) → is_broken (load_parsed fetch decode key o x) j ≡ true
      of_parsed none = h
      of_parsed (some k) = load_file-broken k (fetch key) x j h

  load_keys-broken :
      (keys : List Text) (x : BundleIndex) (j : Text)
      → is_broken x j ≡ true
      → is_broken (load_keys fetch decode keys x) j ≡ true
  unfolding load_keys
  load_keys-broken [] x j h = h
  load_keys-broken (key ∷ keys) x j h = load_keys-broken keys _ j (load_key-broken key x j h)

  load_list-other :
      (k : Text) (list : Option (List BundleMeta)) (x : BundleIndex) (j : Text)
      → j ≢ k
      → lookup j (load_list fetch decode k list x).months ≡ lookup j x.months
  load_list-other k none x j n = refl
  load_list-other k (some list) x j n = lookup-insert_ne k j list x.months n

  load_file-other :
      (k : Text) (bytes : Option Text) (x : BundleIndex) (j : Text)
      → j ≢ k
      → lookup j (load_file fetch decode k bytes x).months ≡ lookup j x.months
  load_file-other k none x j n = refl
  load_file-other k (some bytes) x j n = load_list-other k (decode bytes) x j n

  -- A key of another month leaves a month alone.
  load_key-other :
      (key : Text) (x : BundleIndex) (j : Text)
      → key ≢ key_of_month j
      → lookup j (load_key fetch decode key x).months ≡ lookup j x.months
  unfolding load_key
  load_key-other key x j n = of_parsed (parse_index_key key) refl
    where
      of_parsed :
          (o : Option Text)
          → parse_index_key key ≡ o
          → lookup j (load_parsed fetch decode key o x).months ≡ lookup j x.months
      of_parsed none e = refl
      of_parsed (some k) e =
          load_file-other k (fetch key) x j
            (λ same. n (parse_index_key_inv key e ∙ ap key_of_month (sym same)))

  module _ (bucket : Bucket)
      (sound : (key bytes : Text) → fetch key ≡ some bytes → lookup key bucket ≡ some bytes) where
    -- The key of a month: it fails to load, or the month is what the bucket holds.
    load_key-month :
        (y m : ℕ) (x : BundleIndex)
        → IsMonth y m
        → let x' = load_key fetch decode (index_key y m) x in
          is_broken x' (format_month y m) ≡ false
          → lookup (format_month y m) x'.months ≡ stored decode bucket y m
    unfolding load_key
    load_key-month y m x v h = rw parsed (of_bytes (fetch (index_key y m)) refl (rw parsed at h))
      where
        parsed : parse_index_key (index_key y m) ≡ some (format_month y m)
        parsed = parse_index_key-index_key y m v.year_ok v.month_lo v.month_hi

        of_list :
            (bytes : Text) (list : Option (List BundleMeta))
            → lookup (index_key y m) bucket ≡ some bytes
            → decode bytes ≡ list
            → is_broken (load_list fetch decode (format_month y m) list x) (format_month y m)
              ≡ false
            → lookup (format_month y m) (load_list fetch decode (format_month y m) list x).months
              ≡ stored decode bucket y m
        of_list bytes none b d g = cc (mark_broken_self (format_month y m) x)
        of_list bytes (some list) b d g =
            lookup-insert_self (format_month y m) list x.months ∙ rw b (sym d)

        of_bytes :
            (bytes : Option Text)
            → fetch (index_key y m) ≡ bytes
            → is_broken (load_file fetch decode (format_month y m) bytes x) (format_month y m)
              ≡ false
            → lookup (format_month y m) (load_file fetch decode (format_month y m) bytes x).months
              ≡ stored decode bucket y m
        of_bytes none e g = cc (mark_broken_self (format_month y m) x)
        of_bytes (some bytes) e g = of_list bytes (decode bytes) (sound _ bytes e) refl g

    load_keys-month :
        (y m : ℕ) (keys : List Text) (x : BundleIndex)
        → IsMonth y m
        → let x' = load_keys fetch decode keys x in
          is_broken x' (format_month y m) ≡ false
          → lookup (format_month y m) x'.months ≡ (
              if any (text_eq (index_key y m)) keys
              then stored decode bucket y m
              else lookup (format_month y m) x.months)
    unfolding load_keys
    load_keys-month y m [] x v h = refl
    load_keys-month y m (key ∷ keys) x v h =
        let later = load_keys-month y m keys (load_key fetch decode key x) v h in
        elim (Bool-cases (any (text_eq (index_key y m)) keys)) [
          | inl e ↦ elim (Bool-cases (text_eq (index_key y m) key)) [
            | inl f ↦ rw (e, f) (rw e at later)
            | inr f ↦ rw (e, f) (rw e at later)
          ]
          | inr e ↦ elim (Bool-cases (text_eq (index_key y m) key)) [
            | inl f ↦
                rw (e, f)
                  ((rw e at later)
                    ∙ subst
                        (λ k.
                          is_broken (load_key fetch decode k x) (format_month y m) ≡ false
                          → lookup (format_month y m) (load_key fetch decode k x).months
                            ≡ stored decode bucket y m)
                        ((text_eq_iff (index_key y m) key).0 f) (load_key-month y m x v)
                        (not_yet_broken key keys x h))
            | inr f ↦
                rw (e, f)
                  ((rw e at later)
                    ∙ load_key-other key x (format_month y m)
                        (λ same. differ f (sym (same ∙ key_of_month-format_month y m))))
          ]
        ]
      where
        differ : {k : Text} → text_eq (index_key y m) k ≡ false → index_key y m ≢ k
        differ {k} f same = cc ((text_eq_iff (index_key y m) k).1 same)

        not_yet_broken :
            (k : Text) (ks : List Text) (x : BundleIndex)
            → is_broken (load_keys fetch decode ks (load_key fetch decode k x)) (format_month y m)
              ≡ false
            → is_broken (load_key fetch decode k x) (format_month y m) ≡ false
        not_yet_broken k ks x g =
            elim (Bool-cases (is_broken (load_key fetch decode k x) (format_month y m))) [
              | inl b ↦ cc (load_keys-broken ks (load_key fetch decode k x) (format_month y m) b)
              | inr b ↦ b
            ]

    pub load-Synced :
        (keys : List Text) (x : BundleIndex)
        → ((y m : ℕ)
            → any (text_eq (index_key y m)) keys ≡ false
            → lookup (index_key y m) bucket ≡ none)
        → Synced decode (load fetch decode (some keys) x).0 bucket
    unfolding load new_bundle_index lookup
    load-Synced keys x all y m v h =
        let loaded = load_keys-month y m keys new_bundle_index v h in
        elim (Bool-cases (any (text_eq (index_key y m)) keys)) [
          | inl e ↦ sym (rw e at loaded)
          | inr e ↦ rw (all y m e) (sym (rw e at loaded))
        ]
