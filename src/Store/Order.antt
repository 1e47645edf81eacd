-- ===== src/Store/Order.antt =====
-- The order of keys, and the keys after a marker.
use filestor.Base.{◌≡◌, refl, ap, true, false, List, [], ◌∷◌, ◌++◌, All, if◌then◌else◌, Text, arith}
use filestor.Workspace.Listing.{text_lt}

pub text_lt_irrefl : (a : Text) → text_lt a a ≡ false
unfolding text_lt
text_lt_irrefl [] = refl
text_lt_irrefl (c ∷ a) = ground (arith, text_lt_irrefl a)

pub text_lt_asym : (a b : Text) → text_lt a b ≡ true → text_lt b a ≡ false
unfolding text_lt
text_lt_asym [] [] h = refl
text_lt_asym [] (y ∷ b) h = refl
text_lt_asym (x ∷ a) [] h = cc
text_lt_asym (x ∷ a) (y ∷ b) h = ground (arith, text_lt_asym a b)

-- the keys behind a marker
unfoldable pub after : Text → List Text → List Text
after m [] = []
after m (k ∷ ks) = let rest = after m ks in if text_lt m k then k ∷ rest else rest

-- Strictly in order: each key before all later ones.
abbrev pub Ascending : List Text → Type 0
Ascending [] = Unit
Ascending (k ∷ ks) = All (λ j. text_lt k j ≡ true) ks × Ascending ks

after-all : (m : Text) (ks : List Text) → All (λ k. text_lt m k ≡ true) ks → after m ks ≡ ks
unfolding after
after-all m [] a = refl
after-all m (k ∷ ks) a = rw a.0 (ap (◌∷◌ k) (after-all m ks a.1))

-- A key of the list: those after it are the rest of the list.
pub after-append :
    (xs : List Text) (m : Text) (ys : List Text)
    → Ascending (xs ++ m ∷ ys)
    → after m (xs ++ m ∷ ys) ≡ ys
unfolding after
after-append [] m ys a = rw (text_lt_irrefl m) (after-all m ys a.0)
after-append (x ∷ xs) m ys a = rw (text_lt_asym x m (at_member xs a.0)) (after-append xs m ys a.1)
  where
    at_member : (zs : List Text) → All (λ j. text_lt x j ≡ true) (zs ++ m ∷ ys) → text_lt x m ≡ true
    at_member [] b = b.0
    at_member (z ∷ zs) b = at_member zs b.1
