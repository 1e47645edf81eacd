-- ===== src/Names/Title/Folded.antt =====
-- The texts that the rune loop of sanitizePushTitle produces, and its fixed points.
use filestor.Base.{
  ℕ, ◌≡◌, refl, ap, Bool, true, false, not, [], ◌∷◌, ◌++◌, inl, inr, arith, ◌≤◌, Bool-cases, all,
  length, Text, Starts, is_space, append-nil, Ends, trim, trim_left, trim_left-suffix,
  trim_left-Starts, trim_right-prefix, Starts-prefix,
}
use filestor.Names.Title.{is_kept, is_edge, fold_runes, is_blank_text, push_title_max_runes}

module _ (wide : ℕ → Bool) where
  -- Kept characters and single dashes; no dash stands first, unless the loop had written before.
  pub data Folded : Bool → Bool → Text → Type 0 where
    nil : {started dash : Bool} → Folded started dash []
    kept :
        {started dash : Bool} {c : ℕ} {s : Text}
        → is_kept wide c ≡ true
        → Folded true false s
        → Folded started dash (c ∷ s)
    dashed : {c : ℕ} {s : Text} → c ≡ b'-' → Folded true true s → Folded true false (c ∷ s)

  pub fold_runes-Folded :
      (started dash : Bool) (s : Text) → Folded started dash (fold_runes wide started dash s)
  unfolding fold_runes
  fold_runes-Folded started dash [] = nil
  fold_runes-Folded true false (c ∷ s) = elim (Bool-cases (is_kept wide c)) [
    | inl k ↦ rw k (kept k (fold_runes-Folded true false s))
    | inr k ↦ rw k (dashed refl (fold_runes-Folded true true s))
  ]
  fold_runes-Folded true true (c ∷ s) = elim (Bool-cases (is_kept wide c)) [
    | inl k ↦ rw k (kept k (fold_runes-Folded true false s))
    | inr k ↦ rw k (fold_runes-Folded true true s)
  ]
  fold_runes-Folded false dash (c ∷ s) = elim (Bool-cases (is_kept wide c)) [
    | inl k ↦ rw k (kept k (fold_runes-Folded true false s))
    | inr k ↦ rw k (fold_runes-Folded false dash s)
  ]

  -- The loop changes nothing of such a text.
  pub Folded-fold_runes :
      {started dash : Bool} {s : Text} → Folded started dash s → fold_runes wide started dash s ≡ s
  unfolding fold_runes
  Folded-fold_runes nil = refl
  Folded-fold_runes (kept {c} k f) = rw k (ap (◌∷◌ c) (Folded-fold_runes f))
  Folded-fold_runes (dashed {c} {s} e f) = rw e (ap (◌∷◌ b'-') (Folded-fold_runes f))

  pub Folded-prefix :
      {started dash : Bool} (s post : Text) {t : Text}
      → t ≡ s ++ post
      → Folded started dash t
      → Folded started dash s
  Folded-prefix [] post e f = nil
  Folded-prefix (c ∷ s) post e nil = cc
  Folded-prefix (c ∷ s) post e (kept k f) =
      kept (ground (arith, k)) (Folded-prefix s post (ground arith) f)
  Folded-prefix (c ∷ s) post e (dashed d f) =
      dashed (ground arith) (Folded-prefix s post (ground arith) f)

  -- A suffix that starts with no cut character stands on its own.
  pub Folded-suffix :
      {started dash : Bool} (pre s : Text) {t : Text}
      → t ≡ pre ++ s
      → Starts (λ c. not (is_edge c)) s
      → Folded started dash t
      → Folded false false s
  Folded-suffix [] [] e h f = nil
  Folded-suffix [] (c ∷ s) e h nil = cc
  Folded-suffix [] (c ∷ s) e h (kept {c = x} {s = y} k f) =
      kept (ground (arith, k)) (Folded-prefix s [] (ground (arith, append-nil s)) f)
  Folded-suffix [] (c ∷ s) e h (dashed d f) = absurd (ground arith)
  Folded-suffix (p ∷ pre) s e h nil = cc
  Folded-suffix (p ∷ pre) s e h (kept k f) = Folded-suffix pre s (ground arith) h f
  Folded-suffix (p ∷ pre) s e h (dashed d f) = Folded-suffix pre s (ground arith) h f

  -- A kept character or a dash is no white space, if no wide letter or digit is.
  pub Folded-not-is_space :
      ((c : ℕ) → is_space c ≡ true → wide c ≡ false)
      → {started dash : Bool} {s : Text} → Folded started dash s
      → all (λ c. not (is_space c)) s ≡ true
  unfolding is_kept is_space
  Folded-not-is_space h nil = refl
  Folded-not-is_space h (kept {c} k f) = ground (arith, h c, Folded-not-is_space h f)
  Folded-not-is_space h (dashed e f) = ground (arith, Folded-not-is_space h f)

  -- What the program calls a title: a text of at most 80 characters, each a letter, a digit, '_',
  -- '.' or a single dash, that neither starts nor ends with a dash or a dot, and is not empty.
  pub record IsTitle (t : Text) : Type 0 where
    pub folded : Folded false false t
    pub starts : Starts (λ c. not (is_edge c)) t
    pub ends : Ends (λ c. not (is_edge c)) t
    pub not_blank : is_blank_text t ≡ false
    pub short : length t ≤ push_title_max_runes

  -- Trimming what the loop wrote.
  pub trim_fold-Folded :
      (s : Text) → Folded false false (trim is_edge (fold_runes wide false false s))
  unfolding trim
  trim_fold-Folded s =
      let out = fold_runes wide false false s in
      let (pre, left) = trim_left-suffix is_edge out in
      let (post, right) = trim_right-prefix is_edge (trim_left is_edge out) in
      Folded-prefix _ post right
        (Folded-suffix pre _ left (trim_left-Starts is_edge out) (fold_runes-Folded false false s))

  pub trim-Starts : (s : Text) → Starts (λ c. not (is_edge c)) (trim is_edge s)
  unfolding trim
  trim-Starts s =
      let (post, right) = trim_right-prefix is_edge (trim_left is_edge s) in
      Starts-prefix _ _ _ post right (trim_left-Starts is_edge s)
