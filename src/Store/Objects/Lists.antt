-- ===== src/Store/Objects/Lists.antt =====
-- List of s3.go keeps the contract that the bundle page relies on (s3.go: s3Store.List; detail.go:
-- handleBundle): each page is what comes next behind the last key of the page before.
use filestor.Base.{
  ◌≡◌, refl, sym, ap, subst, ◌∙◌, inl, inr, Bool, true, false, ◌||◌, List, [], ◌∷◌, ◌++◌, Option,
  none, some, All, if◌then◌else◌, Text, text_eq, arith, Bool-cases, some_injective,
}
use filestor.Workspace.Listing.{text_lt}
use filestor.Store.Order.{text_lt_irrefl, text_lt_asym}
use filestor.Detail.{Object, Page, no_objects, last_key}
use filestor.Detail.Complete.{IsNext, ListsObjects}
use filestor.Store.Objects.{RawPage, GetAnswer, is_nothing, page_objects, page_of, s3_store}

-- the objects behind a key
unfoldable pub behind : Text → List Object → List Object
behind m [] = []
behind m (o ∷ os) = let rest = behind m os in if text_lt m o.key then o ∷ rest else rest

-- in the order of their keys, strictly
abbrev pub InOrder : List Object → Type 0
InOrder [] = Unit
InOrder (o ∷ os) = All (λ p. text_lt o.key p.key ≡ true) os × InOrder os

-- What ListObjectsV2 answers after a marker: the next objects behind it, all of them unless it is
-- truncated, and then one at least beside the prefix itself.
pub record IsAnswer (raw : List Object) (prefix marker : Text) (contents : List Object)
    (truncated : Bool) : Type 0 where
  pub rest : List Object
  pub next_objects : behind marker raw ≡ contents ++ rest
  pub at_end : truncated ≡ false → rest ≡ []
  pub some_object : truncated ≡ true → no_objects (page_objects prefix contents) ≡ false

pub record ListsRaw (raw : List Object) (prefix : Text) (request : Text → Option RawPage)
    : Type 0 where
  pub in_order : InOrder raw
  pub answers :
      (marker : Text) (contents : List Object) (truncated : Bool)
      → request marker ≡ some (contents, truncated)
      → IsAnswer raw prefix marker contents truncated

behind-all : (m : Text) (os : List Object) → All (λ p. text_lt m p.key ≡ true) os → behind m os ≡ os
unfolding behind
behind-all m [] h = refl
behind-all m (o ∷ os) (lt, h) = rw lt (ap (◌∷◌ o) (behind-all m os h))

at_last :
    (x : Text) (o : Object) (seen left : List Object)
    → All (λ p. text_lt x p.key ≡ true) (o ∷ (seen ++ left))
    → text_lt x (last_key o.key seen) ≡ true
at_last x o [] left (lt, h) = lt
at_last x o (p ∷ seen) left (lt, h) = at_last x p seen left h

-- behind the last of some first objects are the others
behind-append :
    (o : Object) (seen left : List Object)
    → InOrder (o ∷ (seen ++ left))
    → behind (last_key o.key seen) (o ∷ (seen ++ left)) ≡ left
unfolding behind
behind-append o [] left (h, k) = rw (text_lt_irrefl o.key) (behind-all o.key left h)
behind-append o (p ∷ seen) left (h, k) =
    rw (text_lt_asym o.key (last_key p.key seen) (at_last o.key p seen left h))
      (behind-append p seen left k)

nil_lt : (k : Text) → is_nothing k ≡ false → text_lt [] k ≡ true
unfolding text_lt
nil_lt [] h = cc
nil_lt (c ∷ k) h = refl

module _ (prefix : Text) where
  abbrev is_dropped : Object → Bool
  is_dropped o = is_nothing o.key || text_eq o.key prefix

  page_objects-append :
      (xs ys : List Object)
      → page_objects prefix (xs ++ ys) ≡ page_objects prefix xs ++ page_objects prefix ys
  unfolding page_objects
  page_objects-append [] ys = refl
  page_objects-append (x ∷ xs) ys = elim (Bool-cases (is_dropped x)) [
    | inl e ↦ rw e (page_objects-append xs ys)
    | inr e ↦ rw e (ap (◌∷◌ x) (page_objects-append xs ys))
  ]

  page_objects-behind :
      (m : Text) (os : List Object)
      → page_objects prefix (behind m os) ≡ behind m (page_objects prefix os)
  unfolding page_objects behind
  page_objects-behind m [] = refl
  page_objects-behind m (o ∷ os) = ground (arith, page_objects-behind m os)

  page_objects-All :
      (x : Text) (os : List Object)
      → All (λ p. text_lt x p.key ≡ true) os
      → All (λ p. text_lt x p.key ≡ true) (page_objects prefix os)
  unfolding page_objects
  page_objects-All x [] h = tt
  page_objects-All x (o ∷ os) (lt, h) = elim (Bool-cases (is_dropped o)) [
    | inl e ↦ rw e (page_objects-All x os h)
    | inr e ↦ rw e (lt, page_objects-All x os h)
  ]

  page_objects-InOrder : (os : List Object) → InOrder os → InOrder (page_objects prefix os)
  unfolding page_objects
  page_objects-InOrder [] h = tt
  page_objects-InOrder (o ∷ os) (lt, h) = elim (Bool-cases (is_dropped o)) [
    | inl e ↦ rw e (page_objects-InOrder os h)
    | inr e ↦ rw e (page_objects-All o.key os lt, page_objects-InOrder os h)
  ]

  from_start : (os : List Object) → behind [] (page_objects prefix os) ≡ page_objects prefix os
  unfolding page_objects behind
  from_start [] = refl
  from_start (o ∷ os) = elim (Bool-cases (is_dropped o)) [
    | inl e ↦ rw e (from_start os)
    | inr e ↦ rw e (rw (nil_lt o.key (ground (arith, e))) (ap (◌∷◌ o) (from_start os)))
  ]

  -- Behind the last key of the objects so far are the others.
  behind_seen :
      (raw seen left : List Object)
      → InOrder raw
      → page_objects prefix raw ≡ seen ++ left
      → behind (last_key [] seen) (page_objects prefix raw) ≡ left
  behind_seen raw [] left h e = from_start raw ∙ e
  behind_seen raw (o ∷ seen) left h e =
      ap (behind (last_key o.key seen)) e
      ∙ behind-append o seen left (subst InOrder e (page_objects-InOrder raw h))

  answer-IsNext :
      (raw seen left contents : List Object) (truncated : Bool)
      → InOrder raw
      → page_objects prefix raw ≡ seen ++ left
      → IsAnswer raw prefix (last_key [] seen) contents truncated
      → IsNext left (record { objects = page_objects prefix contents; is_truncated = truncated })
  unfolding page_objects
  answer-IsNext raw seen left contents truncated h e a =
      let marker = last_key [] seen in
      record {
        rest = page_objects prefix a.rest;
        next_objects =
            sym (behind_seen raw seen left h e)
            ∙ sym (page_objects-behind marker raw)
            ∙ ap (page_objects prefix) a.next_objects
            ∙ page_objects-append contents a.rest;
        at_end = λ k. ap (page_objects prefix) (a.at_end k);
        some_object = a.some_object;
      }

  -- When ListObjectsV2 answers the next objects behind a marker in the order of their keys, and a
  -- truncated answer has one beside the prefix itself: s3Store.List gives the bundle page what it
  -- relies on, each page being what comes next behind the last key of the page before, over all
  -- objects but the prefix itself.
  pub s3_store-ListsObjects :
      (raw : List Object) (list : Text → Text → Option RawPage) (get : Text → GetAnswer)
      → ListsRaw raw prefix (list prefix)
      → ListsObjects (page_objects prefix raw) ((s3_store list get).list prefix)
  unfolding s3_store
  s3_store-ListsObjects raw list get lists = record {
    pages =
        λ seen left page e p. of_answer seen left page e (list prefix (last_key [] seen)) refl p;
  }
    where
      of_answer :
          (seen left : List Object) (page : Page)
          → page_objects prefix raw ≡ seen ++ left
          → (r : Option RawPage) → list prefix (last_key [] seen) ≡ r
          → page_of prefix r ≡ some page
          → IsNext left page
      of_answer seen left page e none eq p = cc
      of_answer seen left page e (some (contents, truncated)) eq p =
          subst (IsNext left) (some_injective p) (
            answer-IsNext raw seen left contents truncated lists.in_order e
              (lists.answers (last_key [] seen) contents truncated eq))
