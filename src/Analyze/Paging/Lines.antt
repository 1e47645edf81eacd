-- ===== src/Analyze/Paging/Lines.antt =====
-- countTextLines counts the lines that pagedText pages (analyze.go).
use filestor.Base.{
  ℕ, suc, ◌≡◌, refl, inl, inr, true, false, List, [], ◌∷◌, ◌==◌, length, Bool-cases, Text, split,
  add_to_head, arith,
}
use filestor.Analyze.Prep.{newlines, count_text_lines}
use filestor.Analyze.Paging.{drop_last_empty, text_lines}

-- A line that is cut off from the rest, or has more in front.
length-cons_split :
    (p : Text) (s : Text)
    → length (drop_last_empty (p ∷ split b'\n' s)) ≡ suc (length (drop_last_empty (split b'\n' s)))
unfolding split
length-cons_split [] [] = refl
length-cons_split (c ∷ p) [] = refl
length-cons_split p (b ∷ s) = elim (Bool-cases (b == b'\n')) [
  | inl e ↦ rw e (cut p (split b'\n' s))
  | inr e ↦ rw e (more p (split b'\n' s))
]
  where
    cut :
        (p : Text) (ps : List Text)
        → length (drop_last_empty (p ∷ ([] ∷ ps))) ≡ suc (length (drop_last_empty ([] ∷ ps)))
    cut [] ps = refl
    cut (c ∷ p) ps = refl

    more :
        (p : Text) (ps : List Text)
        → length (drop_last_empty (p ∷ add_to_head b ps))
          ≡ suc (length (drop_last_empty (add_to_head b ps)))
    more [] [] = refl
    more [] (q ∷ ps) = refl
    more (c ∷ p) [] = refl
    more (c ∷ p) (q ∷ ps) = refl

length-add_to_head :
    (c b : ℕ) (ps : List Text)
    → length (drop_last_empty (add_to_head c (add_to_head b ps)))
      ≡ length (drop_last_empty (add_to_head b ps))
length-add_to_head c b [] = refl
length-add_to_head c b (p ∷ ps) = refl

newlines-split :
    (s : Text)
    → (newlines true s ≡ length (drop_last_empty (split b'\n' s)))
      × ((c : ℕ) → newlines false s ≡ length (drop_last_empty (add_to_head c (split b'\n' s))))
unfolding split
newlines-split [] = (refl, λ c. refl)
newlines-split (b ∷ s) =
    let (closed, open_) = newlines-split s in
    elim (Bool-cases (b == b'\n')) [
      | inl e ↦ rw e (
        omega (arith, closed, length-cons_split [] s),
        λ c. omega (arith, closed, length-cons_split (c ∷ []) s),
      )
      | inr e ↦ rw e (
        omega (arith, open_ b),
        λ c. omega (arith, open_ b, length-add_to_head c b (split b'\n' s)),
      )
    ]

-- The number of lines that the roster gives for a text, counted by its newlines, is the number of
-- lines into which read_file splits it.
pub count_text_lines-text_lines :
    (bytes : Text) → count_text_lines bytes ≡ length (text_lines bytes)
unfolding count_text_lines text_lines
count_text_lines-text_lines bytes = (newlines-split bytes).0
