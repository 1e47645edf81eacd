-- ===== src/Index/Parsed.antt =====
-- The one key that parseIndexKey reads as a month (bundle.go).
use filestor.Base.{
  ℕ, ◌-◌, ◌≡◌, refl, sym, ap, ◌∙◌, inl, inr, true, ◌&&◌, List, [], ◌∷◌, ◌++◌, Option, none, some,
  some_injective, leb, length, take, drop, Bool-cases, Option-cases, Text, codes, text_eq,
  text_eq_iff, split, add_to_head, join, cut_suffix, arith, ◌==◌, take-append-drop,
}
use filestor.Clock.{parse_month}
use filestor.Index.{index_root, index_month, index_parts, parse_index_key}

join-add_to_head :
    (sep c : ℕ) (parts : List Text) → join sep (add_to_head c parts) ≡ c ∷ join sep parts
unfolding join
join-add_to_head sep c [] = refl
join-add_to_head sep c (p ∷ []) = refl
join-add_to_head sep c (p ∷ q ∷ ps) = refl

split-cons : (sep : ℕ) (s : Text) → (p : Text) × (ps : List Text) × (split sep s ≡ p ∷ ps)
unfolding split
split-cons sep [] = ([], [], refl)
split-cons sep (c ∷ s) = elim (Bool-cases (c == sep)) [
  | inl e ↦ ([], split sep s, rw e refl)
  | inr e ↦ let (p, ps, k) = split-cons sep s in (c ∷ p, ps, rw (e, k) refl)
]

pub join-split : (sep : ℕ) (s : Text) → join sep (split sep s) ≡ s
unfolding join split
join-split sep [] = refl
join-split sep (c ∷ s) = elim (Bool-cases (c == sep)) [
  | inl e ↦
      let (p, ps, k) = split-cons sep s in
      let same : c ≡ sep = ground arith in
      rw (e, same) (join_blank k ∙ ap (◌∷◌ sep) (join-split sep s))
  | inr e ↦ rw e (join-add_to_head sep c (split sep s) ∙ ap (◌∷◌ c) (join-split sep s))
]
  where
    join_blank :
        {parts : List Text} {p : Text} {ps : List Text}
        → parts ≡ p ∷ ps
        → join sep ([] ∷ parts) ≡ sep ∷ join sep parts
    join_blank k = rw k refl

cut_suffix_inv : (suf s : Text) {t : Text} → cut_suffix suf s ≡ some t → s ≡ t ++ suf
unfolding cut_suffix
cut_suffix_inv suf s h =
    let at = length s - length suf in
    elim (Bool-cases (leb (length suf) (length s) && text_eq (drop at s) suf)) [
      | inr e ↦ cc (rw e at h)
      | inl e ↦
          let tail : text_eq (drop at s) suf ≡ true = ground arith in
          sym (take-append-drop at s)
          ∙ ap (λ x. take at s ++ x) ((text_eq_iff (drop at s) suf).0 tail)
          ∙ ap (λ x. x ++ suf) (some_injective (rw e at h))
    ]

-- the key of a month's index file, by the month key
abbrev pub key_of_month : Text → Text
key_of_month k = join b'/' (index_root ∷ take 4 k ∷ (k ++ codes ".json") ∷ [])

index_month_inv :
    (folder m : Text) {k : Text} → index_month folder m ≡ some k → (m ≡ k) × (folder ≡ take 4 m)
index_month_inv folder m h = elim (Bool-cases (length m == 7 && text_eq folder (take 4 m))) [
  | inr e ↦ cc (rw e at h)
  | inl e ↦
      let same : text_eq folder (take 4 m) ≡ true = ground arith in
      (month_same (parse_month m) (rw e at h), (text_eq_iff folder (take 4 m)).0 same)
]
  where
    month_same :
        {k : Text} (o : Option (ℕ × ℕ))
        → (elim o [ none ↦ none | some _ ↦ some m ]) ≡ some k
        → m ≡ k
    month_same none g = cc
    month_same (some p) g = some_injective g

index_parts_inv :
    (parts : List Text) {k : Text}
    → index_parts parts ≡ some k
    → parts ≡ index_root ∷ take 4 k ∷ (k ++ codes ".json") ∷ []
index_parts_inv [] h = cc
index_parts_inv (a ∷ []) h = cc
index_parts_inv (a ∷ b ∷ []) h = cc
index_parts_inv (a ∷ b ∷ c ∷ d ∷ e) h = cc
index_parts_inv (root ∷ folder ∷ file ∷ []) h = elim (Bool-cases (text_eq root index_root)) [
  | inr e ↦ cc (rw e at h)
  | inl e ↦ elim (Option-cases (cut_suffix (codes ".json") file)) [
    | inl o ↦ cc (rw (e, o) at h)
    | inr (m, o) ↦
        let (same, under) = index_month_inv folder m (rw (e, o) at h) in
        let root_same = (text_eq_iff root index_root).0 e in
        rw (root_same, under, cut_suffix_inv (codes ".json") file o, same) refl
  ]
]

pub parse_index_key_inv :
    (key : Text) {k : Text} → parse_index_key key ≡ some k → key ≡ key_of_month k
unfolding parse_index_key
parse_index_key_inv key h =
    sym (join-split b'/' key) ∙ ap (join b'/') (index_parts_inv (split b'/' key) h)
