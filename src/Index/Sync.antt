-- ===== src/Index/Sync.antt =====
-- The index in memory and the month files in the bucket: append keeps them the same.
use filestor.Base.{
  ℕ, ◌≤◌, ◌<◌, ◌≡◌, refl, sym, ap, ◌∙◌, inl, inr, Bool, true, false, List, [], ◌∷◌, ◌++◌, Option,
  none, some, Bool-cases, Option-cases, Text, text_eq, text_eq_iff, lookup, lookup-insert,
  lookup-insert_self, lookup-insert_ne, ◌≢◌,
}
use filestor.Clock.{Time, format_month, parse_time}
use filestor.Clock.RoundTrip.{IsValid}
use filestor.Clock.Accepted.{parse_time_inv}
use filestor.Bundle.{BundleMeta}
use filestor.Index.{
  BundleIndex, Bucket, month_of, or_empty, is_broken, index_key, append, append_at, get,
}
use filestor.Index.Keys.{format_month_injective, index_key_injective}

pub record IsMonth (y m : ℕ) : Type 0 where
  pub year_ok : y < 10000
  pub month_lo : 1 ≤ m
  pub month_hi : m ≤ 12

IsValid-IsMonth : (t : Time) → IsValid t → IsMonth t.year t.month
IsValid-IsMonth t v = record { year_ok = v.year_ok; month_lo = v.month_lo; month_hi = v.month_hi }

same_test : (a b c d : Text) → (a ≡ b → c ≡ d) → (c ≡ d → a ≡ b) → text_eq a b ≡ text_eq c d
same_test a b c d f g = elim (Bool-cases (text_eq a b)) [
  | inl e ↦ rw e (sym ((text_eq_iff c d).1 (f ((text_eq_iff a b).0 e))))
  | inr e ↦ rw e (elim (Bool-cases (text_eq c d)) [
    | inl k ↦ cc (sym e ∙ (text_eq_iff a b).1 (g ((text_eq_iff c d).0 k)))
    | inr k ↦ sym k
  ])
]

-- Month keys and index keys tell the same months apart.
keys_agree :
    (y m y' m' : ℕ)
    → IsMonth y m
    → IsMonth y' m'
    → text_eq (index_key y m) (index_key y' m') ≡ text_eq (format_month y m) (format_month y' m')
keys_agree y m y' m' v w =
    same_test _ _ _ _
      (λ e.
        let (p, q) =
          index_key_injective v.year_ok v.month_lo v.month_hi w.year_ok w.month_lo w.month_hi e in
        rw (p, q))
      (λ e.
        let (p, q) =
          format_month_injective v.year_ok v.month_lo v.month_hi w.year_ok w.month_lo w.month_hi
            e in
        rw (p, q))

abbrev pub decoded : (Text → Option (List BundleMeta)) → Option Text → Option (List BundleMeta)
decoded decode none = none
decoded decode (some b) = decode b

-- The entries that the bucket holds for a month.
abbrev pub stored : (Text → Option (List BundleMeta)) → Bucket → ℕ → ℕ → Option (List BundleMeta)
stored decode bucket y m = decoded decode (lookup (index_key y m) bucket)

-- Every month that did not fail to load is in memory what the bucket holds.
abbrev pub Synced : (Text → Option (List BundleMeta)) → BundleIndex → Bucket → Type 0
Synced decode x bucket =
    (y m : ℕ)
    → IsMonth y m
    → is_broken x (format_month y m) ≡ false
    → stored decode bucket y m ≡ lookup (format_month y m) x.months

module _ (encode : List BundleMeta → Text) (decode : Text → Option (List BundleMeta))
    (put_ok : Text → Bool) (round_trip : (l : List BundleMeta) → decode (encode l) ≡ some l) where
  append_at-Synced :
      (x : BundleIndex) (bucket : Bucket) (meta : BundleMeta) (t : Time)
      → IsMonth t.year t.month
      → Synced decode x bucket
      → let r = append_at encode put_ok x bucket meta t in Synced decode r.0.0 r.0.1
  append_at-Synced x bucket meta t v h =
      elim (Bool-cases (is_broken x (format_month t.year t.month))) [
        | inl b ↦ rw b h
        | inr b ↦ rw b (elim (Bool-cases (put_ok (index_key t.year t.month))) [
          | inr p ↦ rw p h
          | inl p ↦ rw p (λ y m w k.
              rw (lookup-insert, lookup-insert, keys_agree t.year t.month y m v w)
                (elim (Bool-cases (text_eq (format_month t.year t.month) (format_month y m))) [
                  | inl e ↦ rw e (round_trip _)
                  | inr e ↦ rw e (h y m w k)
                ]))
        ])
      ]

  -- If JSON encoding of an index is read back as it was, and every month that did not fail to load
  -- is in memory what the bucket holds, then so it is after an append, whatever its outcome.
  pub append-Synced :
      (x : BundleIndex) (bucket : Bucket) (meta : BundleMeta)
      → Synced decode x bucket
      → let r = append encode put_ok x bucket meta in Synced decode r.0.0 r.0.1
  unfolding append
  append-Synced x bucket meta h = elim (Option-cases (parse_time meta.time)) [
    | inl e ↦ rw e h
    | inr (t, e) ↦
        rw e (append_at-Synced x bucket meta t (IsValid-IsMonth t (parse_time_inv meta.time e).0) h)
  ]

module _ (encode : List BundleMeta → Text) (put_ok : Text → Bool) (x : BundleIndex)
    (bucket : Bucket) (meta : BundleMeta) where
  -- When the month of the bundle's time did not fail to load and the Put succeeds, append
  -- succeeds: the month has the bundle as its last entry, get finds it by its id, and no other
  -- month changes.
  pub append_ok :
      (t : Time)
      → parse_time meta.time ≡ some t
      → is_broken x (format_month t.year t.month) ≡ false
      → put_ok (index_key t.year t.month) ≡ true
      → let r = append encode put_ok x bucket meta in
        (r.1 ≡ none)
        × (month_of r.0.0 (format_month t.year t.month)
            ≡ month_of x (format_month t.year t.month) ++ meta ∷ [])
        × (get r.0.0 meta.id ≡ some meta)
        × ((k : Text) → k ≢ format_month t.year t.month → month_of r.0.0 k ≡ month_of x k)
  unfolding append get
  append_ok t e b p =
      rw (e, append)
        (rw (b, p)
          (
            refl,
            ap or_empty (lookup-insert_self _ _ x.months),
            lookup-insert_self _ _ x.by_id,
            λ k n. ap or_empty (lookup-insert_ne _ k _ x.months n),
          ))
