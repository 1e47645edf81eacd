-- ===== src/Names/Title/Accepted.antt =====
-- What sanitizePushTitle accepts, and that it settles at once.
use filestor.Base.{
  ℕ, ◌≡◌, refl, sym, ap, Bool, true, false, not, [], ◌∷◌, inl, inr, none, some, arith, ltb, length,
  take, length-take, take-append-drop, Bool-cases, Text, Starts, Ends, is_space, trim, trim_right,
  trim_left, trim_right-Ends, trim_right-prefix, trim_right-cons, Starts-all, Ends-all, trim_id,
  trim_space, if◌then◌else◌, length-append, some_injective, le→not-ltb, not-ltb→le,
}
use mathlib.Core.Path.{subst}
use filestor.Names.Title.{
  is_edge, is_blank_text, fold_runes, push_title_max_runes, sanitize_push_title,
}
use filestor.Names.Title.Folded.{
  Folded, Folded-prefix, Folded-fold_runes, Folded-not-is_space, IsTitle, trim_fold-Folded,
  trim-Starts,
}

module _ (wide : ℕ → Bool) where
  -- The cut to the first 80 runes, and the trim behind it, leave a title.
  cut-IsTitle :
      (out : Text)
      → Folded wide false false out
      → Starts (λ c. not (is_edge c)) out
      → is_blank_text out ≡ false
      → IsTitle wide (trim_right is_edge (take push_title_max_runes out))
  cut-IsTitle [] f h b = cc
  cut-IsTitle (c ∷ out) f h b =
      let cut = take push_title_max_runes (c ∷ out) in
      let (w, e) = trim_right-cons is_edge c (take 79 out) (ground arith) in
      let (post, split) = trim_right-prefix is_edge cut in
      record {
        folded =
            Folded-prefix wide _ post split
              (Folded-prefix wide cut _ (sym (take-append-drop push_title_max_runes (c ∷ out))) f);
        starts = rw e h;
        ends = trim_right-Ends is_edge cut;
        not_blank = rw e refl;
        short = omega (
          arith,
          ap length split,
          length-append (trim_right is_edge cut) post,
          length-take push_title_max_runes (c ∷ out),
        );
      }

  -- The tests behind the loop and the trim.
  accept-IsTitle :
      (out : Text) {t : Text}
      → Folded wide false false out
      → Starts (λ c. not (is_edge c)) out
      → Ends (λ c. not (is_edge c)) out
      → (if is_blank_text out
          then none
          else if ltb push_title_max_runes (length out)
          then some (trim_right is_edge (take push_title_max_runes out))
          else some out)
        ≡ some t
      → IsTitle wide t
  accept-IsTitle out {t} f st en h = elim (Bool-cases (is_blank_text out)) [
    | inl b ↦ cc (rw b at h)
    | inr b ↦ elim (Bool-cases (ltb push_title_max_runes (length out))) [
      | inl l ↦ subst (IsTitle wide) (some_injective (rw (b, l) at h)) (cut-IsTitle out f st b)
      | inr l ↦ subst (IsTitle wide) (some_injective (rw (b, l) at h)) (record {
        folded = f;
        starts = st;
        ends = en;
        not_blank = b;
        short = not-ltb→le push_title_max_runes (length out) l;
      })
    ]
  ]

  -- Every title that sanitizePushTitle returns is a title: of at most 80 characters, each a
  -- letter, a digit, '_', '.' or a single dash, with no dash or dot at either end, and not empty.
  pub sanitize_push_title-IsTitle :
      (s : Text) {t : Text} → sanitize_push_title wide s ≡ some t → IsTitle wide t
  unfolding sanitize_push_title
  sanitize_push_title-IsTitle s h = elim (Bool-cases (is_blank_text (trim_space s))) [
    | inl b ↦ cc (rw b at h)
    | inr b ↦
        accept-IsTitle (trim is_edge (fold_runes wide false false (trim_space s)))
          (trim_fold-Folded wide (trim_space s))
          (trim-Starts wide (fold_runes wide false false (trim_space s)))
          (trim_right-Ends is_edge (trim_left is_edge (fold_runes wide false false (trim_space s))))
          (rw b at h)
  ]

  -- If no letter or digit beyond ASCII is white space, sanitizePushTitle returns every title
  -- unchanged.
  pub IsTitle-sanitize_push_title :
      ((c : ℕ) → is_space c ≡ true → wide c ≡ false)
      → {t : Text} → IsTitle wide t
      → sanitize_push_title wide t ≡ some t
  unfolding sanitize_push_title
  IsTitle-sanitize_push_title spaces {t} v =
      let kept = Folded-not-is_space wide spaces v.folded in
      let spaced : trim_space t ≡ t =
        trim_id is_space t (Starts-all _ t kept) (Ends-all _ t kept) in
      let looped = Folded-fold_runes wide v.folded in
      let trimmed = trim_id is_edge t v.starts v.ends in
      rw (spaced, looped, trimmed, v.not_blank, le→not-ltb push_title_max_runes (length t) v.short)
