-- ===== src/Store/Complete.antt =====
-- ListKeys ends, with every key (s3.go).
use filestor.Base.{
  ℕ, zero, suc, ◌≡◌, ◌<◌, ◌⊎◌, refl, sym, ap, subst, ◌∙◌, inl, inr, Bool, true, false, List, [],
  ◌∷◌, ◌++◌, Option, none, some, length, length-append, append-nil, append_assoc, Option-cases,
  Text, arith,
}
use filestor.Store.{Listed, failed, listed, no_keys, last_of, after_page, list_from, list_keys}
use filestor.Store.Order.{after, Ascending, after-append}

-- What a response must be: the next keys after the marker, all of them unless it is truncated, and
-- one at least if it is.
pub record IsPage (all : List Text) (marker : Text) (contents : List Text) (truncated : Bool)
    : Type 0 where
  pub rest : List Text
  pub next_keys : after marker all ≡ contents ++ rest
  pub at_end : truncated ≡ false → rest ≡ []
  pub some_key : truncated ≡ true → no_keys contents ≡ false

-- A service that lists these keys, in order; a request may fail.
pub record ListsKeys (all : List Text) (request : Text → Option (List Text × Bool)) : Type 0 where
  pub ascending : Ascending all
  pub from_start : after [] all ≡ all
  pub pages :
      (marker : Text) (contents : List Text) (truncated : Bool)
      → request marker ≡ some (contents, truncated)
      → IsPage all marker contents truncated

split_last :
    (marker k : Text) (ks : List Text)
    → (front : List Text) × (k ∷ ks ≡ front ++ last_of marker (k ∷ ks) ∷ [])
split_last marker k [] = ([], refl)
split_last marker k (j ∷ ks) = let (front, e) = split_last k j ks in (k ∷ front, ap (◌∷◌ k) e)

-- All keys, or the error of a request.
abbrev pub Outcome : (Text → Option (List Text × Bool)) → List Text → Listed → Type 0
Outcome request all r = (r ≡ listed all) ⊎ ((m : Text) × (request m ≡ none) × (r ≡ failed))

module _ (all : List Text) (request : Text → Option (List Text × Bool))
    (lists : ListsKeys all request) where
  -- One response: the loop ends with all keys, or goes on.
  of_page :
      (fuel : ℕ) (marker : Text) (keys : List Text)
      → keys ++ after marker all ≡ all
      → length (after marker all) < suc fuel
      → ((m : Text) (ks : List Text)
          → ks ++ after m all ≡ all
          → length (after m all) < fuel
          → Outcome request all (list_from request fuel m ks))
      → (contents : List Text) (truncated : Bool) → IsPage all marker contents truncated
      → Outcome request all
          (after_page request keys (list_from request fuel) marker (some (contents, truncated)))
  of_page fuel marker keys e lt go contents false page = inl (
      ap listed (
        ap (λ r. keys ++ r)
          (sym (append-nil contents)
            ∙ ap (λ r. contents ++ r) (sym (page.at_end refl))
            ∙ sym page.next_keys)
        ∙ e))
  of_page fuel marker keys e lt go [] true page = cc (page.some_key refl)
  of_page fuel marker keys e lt go (k ∷ ks) true page =
      let l = last_of marker (k ∷ ks) in
      let (front, f) = split_last marker k ks in
      let whole : all ≡ (keys ++ front) ++ (l ∷ page.rest) =
        sym e
        ∙ ap (λ r. keys ++ r)
            (page.next_keys ∙ ap (λ c. c ++ page.rest) f ∙ append_assoc front (l ∷ []) page.rest)
        ∙ sym (append_assoc keys front (l ∷ page.rest)) in
      let behind : after l all ≡ page.rest =
        ap (after l) whole
        ∙ after-append (keys ++ front) l page.rest (subst Ascending whole lists.ascending) in
      go l (keys ++ (k ∷ ks))
        (ap (λ r. (keys ++ (k ∷ ks)) ++ r) behind
          ∙ append_assoc keys (k ∷ ks) page.rest
          ∙ ap (λ r. keys ++ r) (sym page.next_keys)
          ∙ e)
        (rw behind (omega (arith, lt, length-append (k ∷ ks) page.rest, ap length page.next_keys)))

  list_from-Outcome :
      (fuel : ℕ) (marker : Text) (keys : List Text)
      → keys ++ after marker all ≡ all
      → length (after marker all) < fuel
      → Outcome request all (list_from request fuel marker keys)
  unfolding list_from
  list_from-Outcome zero marker keys e lt = ground (arith, lt)
  list_from-Outcome (suc fuel) marker keys e lt = elim (Option-cases (request marker)) [
    | inl n ↦ rw n (inr (marker, n, refl))
    | inr ((contents, truncated), p) ↦ rw p (
        of_page fuel marker keys e lt (list_from-Outcome fuel) contents truncated
          (lists.pages marker contents truncated p))
  ]

  -- With a store that lists keys in order, page by page, ListKeys ends after at most one request
  -- more than there are keys: with all the keys, in order, or with the error of a request.
  pub list_keys_complete :
      (fuel : ℕ) → length all < fuel → Outcome request all (list_keys request fuel)
  unfolding list_keys
  list_keys_complete fuel lt =
      list_from-Outcome fuel [] [] lists.from_start
        (subst (λ l. length l < fuel) (sym lists.from_start) lt)
