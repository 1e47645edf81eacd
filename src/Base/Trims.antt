-- ===== src/Base/Trims.antt =====
-- What trimming leaves: the text without a prefix and a suffix of trimmed characters.
use mathlib.Core.Bool.{Bool, true, false, not}
use mathlib.Core.List.{[], ◌∷◌, ◌++◌, reverse, reverse-append, reverse-cons, reverse-reverse}
use mathlib.Core.Path.{◌≡◌, refl, sym, ap, ◌∙◌}
use mathlib.Core.Logic.{inl, inr, ◌≢◌}
use native.Mathlib.Omega.{arith}
use Prim.Native.Nat.{ℕ}
use filestor.Base.Lists.{all, all-reverse}
use filestor.Base.Tests.{Bool-cases}
use filestor.Base.Strings.{Text, trim_left, trim_right, trim}

-- The first character, if there is one, passes the test.
abbrev pub Starts : (ℕ → Bool) → Text → Type 0
Starts p [] = Unit
Starts p (c ∷ s) = p c ≡ true

-- The last character, if there is one, passes the test.
abbrev pub Ends : (ℕ → Bool) → Text → Type 0
Ends p s = Starts p (reverse s)

pub trim_left-Starts : (p : ℕ → Bool) (s : Text) → Starts (λ c. not (p c)) (trim_left p s)
unfolding trim_left
trim_left-Starts p [] = tt
trim_left-Starts p (c ∷ s) = elim (Bool-cases (p c)) [
  | inl e ↦ rw e (trim_left-Starts p s)
  | inr e ↦ rw e (rw e refl)
]

pub trim_left-suffix : (p : ℕ → Bool) (s : Text) → (pre : Text) × (s ≡ pre ++ trim_left p s)
unfolding trim_left
trim_left-suffix p [] = ([], refl)
trim_left-suffix p (c ∷ s) = elim (Bool-cases (p c)) [
  | inl e ↦ let (pre, split) = trim_left-suffix p s in (c ∷ pre, rw e (ap (◌∷◌ c) split))
  | inr e ↦ ([], rw e refl)
]

-- Nothing is trimmed from a text that starts with a character to keep.
pub trim_left_id : (p : ℕ → Bool) (s : Text) → Starts (λ c. not (p c)) s → trim_left p s ≡ s
unfolding trim_left
trim_left_id p [] h = refl
trim_left_id p (c ∷ s) h = ground arith

pub trim_right-Ends : (p : ℕ → Bool) (s : Text) → Ends (λ c. not (p c)) (trim_right p s)
unfolding trim_right
trim_right-Ends p s = rw reverse-reverse (trim_left-Starts p (reverse s))

pub trim_right-prefix : (p : ℕ → Bool) (s : Text) → (post : Text) × (s ≡ trim_right p s ++ post)
unfolding trim_right
trim_right-prefix p s =
    let (pre, e) = trim_left-suffix p (reverse s) in
    (reverse pre, sym (reverse-reverse s) ∙ ap reverse e ∙ reverse-append pre _)

pub trim_right_id : (p : ℕ → Bool) (s : Text) → Ends (λ c. not (p c)) s → trim_right p s ≡ s
unfolding trim_right
trim_right_id p s h = ap reverse (trim_left_id p (reverse s) h) ∙ reverse-reverse s

-- A text with both ends to keep is not changed.
pub trim_id :
    (p : ℕ → Bool) (s : Text) → Starts (λ c. not (p c)) s → Ends (λ c. not (p c)) s → trim p s ≡ s
unfolding trim
trim_id p s h k = ap (trim_right p) (trim_left_id p s h) ∙ trim_right_id p s k

-- A prefix that is not empty starts as the text does.
pub Starts-prefix : (p : ℕ → Bool) (s t post : Text) → s ≡ t ++ post → Starts p s → Starts p t
Starts-prefix p s [] post e h = tt
Starts-prefix p [] (c ∷ t) post e h = cc
Starts-prefix p (d ∷ s) (c ∷ t) post e h = ground arith

pub Starts-all : (p : ℕ → Bool) (s : Text) → all p s ≡ true → Starts p s
Starts-all p [] h = tt
Starts-all p (c ∷ s) h = ground arith

pub Ends-all : (p : ℕ → Bool) (s : Text) → all p s ≡ true → Ends p s
Ends-all p s h = Starts-all p (reverse s) (all-reverse p s h)

-- Trimming the right end keeps a first character that is to be kept.
trim_left-concat :
    (p : ℕ → Bool) (c : ℕ) (s : Text)
    → p c ≡ false
    → (w : Text) × (trim_left p (s ++ c ∷ []) ≡ w ++ c ∷ [])
unfolding trim_left
trim_left-concat p c [] h = ([], rw h)
trim_left-concat p c (x ∷ s) h = elim (Bool-cases (p x)) [
  | inl e ↦ rw e (trim_left-concat p c s h)
  | inr e ↦ (x ∷ s, rw e)
]

pub trim_right-cons :
    (p : ℕ → Bool) (c : ℕ) (s : Text) → p c ≡ false → (w : Text) × (trim_right p (c ∷ s) ≡ c ∷ w)
unfolding trim_right
trim_right-cons p c s h =
    let (w, e) = trim_left-concat p c (reverse s) h in
    (
      reverse w,
      ap (λ t. reverse (trim_left p t)) (reverse-cons c s)
          ∙ ap reverse e
          ∙ reverse-append w (c ∷ []),
    )

pub Starts-append : (p : ℕ → Bool) (a b : Text) → a ≢ [] → Starts p a → Starts p (a ++ b)
Starts-append p [] b n h = absurd (n refl)
Starts-append p (c ∷ a) b n h = h

pub Ends-append : (p : ℕ → Bool) (a b : Text) → b ≢ [] → Ends p b → Ends p (a ++ b)
Ends-append p a b n h =
    rw (reverse-append a b)
      (Starts-append p (reverse b) (reverse a) (λ e. n (sym (reverse-reverse b) ∙ ap reverse e)) h)

-- One more character to trim at the right end.
pub trim_right-concat :
    (p : ℕ → Bool) (s : Text) (c : ℕ) → p c ≡ true → trim_right p (s ++ c ∷ []) ≡ trim_right p s
unfolding trim_right trim_left
trim_right-concat p s c h = rw (reverse-append s (c ∷ [])) (rw h)

-- A text with both ends to keep, and one more character to trim behind it.
pub trim-concat :
    (p : ℕ → Bool) (s : Text) (c : ℕ)
    → s ≢ []
    → Starts (λ c. not (p c)) s
    → Ends (λ c. not (p c)) s
    → p c ≡ true
    → trim p (s ++ c ∷ []) ≡ s
unfolding trim
trim-concat p s c n h k t =
    ap (trim_right p) (trim_left_id p (s ++ c ∷ []) (Starts-append _ s (c ∷ []) n h))
    ∙ trim_right-concat p s c t
    ∙ trim_right_id p s k

pub cons_ne_nil : (c : ℕ) (s : Text) → c ∷ s ≢ []
cons_ne_nil c s e = cc

-- Trimming again changes nothing.
pub trim_idem : (p : ℕ → Bool) (s : Text) → trim p (trim p s) ≡ trim p s
unfolding trim
trim_idem p s =
    let kept = trim_left p s in
    let (post, split) = trim_right-prefix p kept in
    trim_id p (trim_right p kept)
      (Starts-prefix (λ c. not (p c)) kept (trim_right p kept) post split (trim_left-Starts p s))
      (trim_right-Ends p kept)
