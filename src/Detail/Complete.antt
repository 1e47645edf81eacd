-- ===== src/Detail/Complete.antt =====
-- The loop over the pages of a listing sees every object (detail.go: handleBundle).
use filestor.Base.{
  ℕ, zero, suc, ◌<◌, ◌≡◌, refl, sym, ap, subst, ◌∙◌, ◌⊎◌, inl, inr, Bool, true, false, List, [],
  ◌∷◌, ◌++◌, Option, none, some, length, length-append, append-nil, append_assoc, Text, arith,
  Option-cases,
}
use filestor.Detail.{
  Object, Page, Progress, add_object, add_objects, Reply, refused, list_failed, finished,
  no_objects, last_key, after_page, pages_from,
}

-- What a page must be: the next objects, all of them unless it is truncated, and one at least if it is.
pub record IsNext (left : List Object) (page : Page) : Type 0 where
  pub rest : List Object
  pub next_objects : left ≡ page.objects ++ rest
  pub at_end : page.is_truncated ≡ false → rest ≡ []
  pub some_object : page.is_truncated ≡ true → no_objects page.objects ≡ false

-- A store that lists these objects, each page behind the last key of the one before; a request may
-- fail.
pub record ListsObjects (every : List Object) (list : Text → Option Page) : Type 0 where
  pub pages :
      (seen left : List Object) (page : Page)
      → every ≡ seen ++ left
      → list (last_key [] seen) ≡ some page
      → IsNext left page

last_key-append :
    (m : Text) (xs ys : List Object) → last_key m (xs ++ ys) ≡ last_key (last_key m xs) ys
last_key-append m [] ys = refl
last_key-append m (x ∷ xs) ys = last_key-append x.key xs ys

add_objects-append :
    (prefix : Text) (xs ys : List Object) (p : Progress)
    → add_objects prefix (xs ++ ys) p ≡ add_objects prefix ys (add_objects prefix xs p)
add_objects-append prefix [] ys p = refl
add_objects-append prefix (x ∷ xs) ys p = add_objects-append prefix xs ys (add_object prefix x p)

module _ (list : Text → Option Page) (prefix : Text) (start : Progress) (every : List Object) where
  -- The page with all objects, or the error of a request.
  abbrev pub Outcome : Reply → Type 0
  Outcome r =
      (r ≡ finished (add_objects prefix every start))
      ⊎ ((m : Text) × (list m ≡ none) × (r ≡ refused list_failed))

  of_page :
      (fuel : ℕ) (seen left : List Object)
      → every ≡ seen ++ left
      → length left < suc fuel
      → ((seen left : List Object)
          → every ≡ seen ++ left
          → length left < fuel
          → Outcome
              (pages_from list prefix fuel (last_key [] seen) (add_objects prefix seen start)))
      → (objs : List Object) (truncated : Bool)
      → IsNext left (record { objects = objs; is_truncated = truncated })
      → Outcome (
          after_page list prefix
            (pages_from list prefix fuel)
            (last_key [] seen)
            (add_objects prefix seen start)
            (some (record { objects = objs; is_truncated = truncated })))
  of_page fuel seen left e lt go objs false next =
      let whole : left ≡ objs =
        next.next_objects ∙ ap (λ r. objs ++ r) (next.at_end refl) ∙ append-nil objs in
      inl (
        ap finished (
          sym (add_objects-append prefix seen objs start)
          ∙ ap (λ l. add_objects prefix l start) (ap (λ l. seen ++ l) (sym whole) ∙ sym e)))
  of_page fuel seen left e lt go [] true next = cc (next.some_object refl)
  of_page fuel seen left e lt go (o ∷ os) true next =
      subst Outcome
        (ap (λ m. pages_from list prefix fuel m (add_objects prefix (seen ++ o ∷ os) start))
            (last_key-append [] seen (o ∷ os))
          ∙ ap (pages_from list prefix fuel (last_key (last_key [] seen) (o ∷ os)))
              (add_objects-append prefix seen (o ∷ os) start))
        (go (seen ++ o ∷ os) next.rest
          (e ∙ ap (λ l. seen ++ l) next.next_objects ∙ sym (append_assoc seen (o ∷ os) next.rest))
          (omega (arith, lt, length-append (o ∷ os) next.rest, ap length next.next_objects)))

  pub pages_from-Outcome :
      ListsObjects every list
      → (fuel : ℕ) (seen left : List Object) → every ≡ seen ++ left
      → length left < fuel
      → Outcome (pages_from list prefix fuel (last_key [] seen) (add_objects prefix seen start))
  unfolding pages_from
  pages_from-Outcome lists zero seen left e lt = ground (arith, lt)
  pages_from-Outcome lists (suc fuel) seen left e lt =
      elim (Option-cases (list (last_key [] seen))) [
        | inl n ↦ rw n (inr (last_key [] seen, n, refl))
        | inr (page, p) ↦ rw p (
            of_page fuel seen left e lt (pages_from-Outcome lists fuel) page.objects
              page.is_truncated (lists.pages seen left page e p))
      ]
