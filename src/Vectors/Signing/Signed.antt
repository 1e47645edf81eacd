-- ===== src/Vectors/Signing/Signed.antt =====
-- The request that is sent carries the signature of itself (vectors.go: ossV4Sign).
use filestor.Base.{
  ◌≡◌, ◌≢◌, refl, sym, ap, inl, inr, true, false, List, [], ◌∷◌, map, some, All, Text, codes,
  text_eq, text_eq_iff, trim_space, is_space, trim_idem, lookup, lookup-insert_self,
  lookup-insert_ne, insert, Bool-cases, arith,
}
use filestor.Workspace.Listing.{text_lt, insert_sorted, sort_names}
use filestor.Vectors.Signing.{
  Headers, Request, Stamp, is_signed, signed_names, values_of, header_lines, trim_signed,
  canonical_request, stamped, authorization, oss_v4_sign,
}

trim_space_idem : (t : Text) → trim_space (trim_space t) ≡ trim_space t
unfolding trim_space
trim_space_idem t = trim_idem is_space t

map_trim_idem : (ts : List Text) → map trim_space (map trim_space ts) ≡ map trim_space ts
map_trim_idem [] = refl
map_trim_idem (t ∷ ts) = rw (trim_space_idem t) (ap (◌∷◌ (trim_space t)) (map_trim_idem ts))

module _ (additional : List Text) where
  -- Trimming changes no line of a header.
  trimmed_values :
      (k : Text) (hs : Headers)
      → map trim_space (values_of (lookup k (trim_signed additional hs)))
        ≡ map trim_space (values_of (lookup k hs))
  unfolding trim_signed lookup
  trimmed_values k [] = refl
  trimmed_values k ((low, values) ∷ hs) = elim (Bool-cases (text_eq low k)) [
    | inl here ↦ elim (Bool-cases (is_signed additional low)) [
      | inl signed ↦ rw here (rw signed (map_trim_idem values))
      | inr other ↦ rw here (rw other refl)
    ]
    | inr there ↦ rw there (trimmed_values k hs)
  ]

  signed_names-trim_signed :
      (hs : Headers)
      → signed_names additional (trim_signed additional hs) ≡ signed_names additional hs
  unfolding signed_names trim_signed
  signed_names-trim_signed [] = refl
  signed_names-trim_signed ((low, values) ∷ hs) = rw (signed_names-trim_signed hs) refl

  -- A header that is not signed does not count.
  signed_names-insert :
      (low : Text) (values : List Text) (hs : Headers)
      → is_signed additional low ≡ false
      → signed_names additional (insert low values hs) ≡ signed_names additional hs
  unfolding signed_names insert
  signed_names-insert low values [] e = rw e refl
  signed_names-insert low values ((k, vs) ∷ hs) e = elim (Bool-cases (text_eq k low)) [
    | inl same ↦ rw same (rw ((text_eq_iff k low).0 same) (rw e refl))
    | inr other ↦ rw other (rw (signed_names-insert low values hs e) refl)
  ]

  abbrev AllSigned : List Text → Type 0
  AllSigned ks = All (λ k. is_signed additional k ≡ true) ks

  signed_names-Signed : (hs : Headers) → AllSigned (signed_names additional hs)
  unfolding signed_names
  signed_names-Signed [] = tt
  signed_names-Signed ((low, values) ∷ hs) = elim (Bool-cases (is_signed additional low)) [
    | inl e ↦ rw e (e, signed_names-Signed hs)
    | inr e ↦ rw e (signed_names-Signed hs)
  ]

  insert_sorted-Signed :
      (n : Text) (ks : List Text)
      → is_signed additional n ≡ true
      → AllSigned ks
      → AllSigned (insert_sorted n ks)
  unfolding insert_sorted
  insert_sorted-Signed n [] e h = (e, tt)
  insert_sorted-Signed n (m ∷ ms) e (d, h) = elim (Bool-cases (text_lt m n)) [
    | inl lt ↦ rw lt (d, insert_sorted-Signed n ms e h)
    | inr ge ↦ rw ge (e, (d, h))
  ]

  sort_names-Signed : (ks : List Text) → AllSigned ks → AllSigned (sort_names ks)
  unfolding sort_names
  sort_names-Signed [] h = tt
  sort_names-Signed (k ∷ ks) (e, h) =
      insert_sorted-Signed k (sort_names ks) e (sort_names-Signed ks h)

  header_lines-sent :
      (low : Text) (values : List Text) (hs : Headers) (ks : List Text)
      → is_signed additional low ≡ false
      → AllSigned ks
      → header_lines (insert low values (trim_signed additional hs)) ks ≡ header_lines hs ks
  header_lines-sent low values hs [] e h = refl
  header_lines-sent low values hs (k ∷ ks) e (d, h) =
      let differ : k ≢ low = ground (arith, e, d) in
      rw (lookup-insert_ne low k values (trim_signed additional hs) differ)
        (rw (trimmed_values k hs) (rw (header_lines-sent low values hs ks e h) refl))

  canonical_request-sent :
      (path low : Text) (values : List Text) (req : Request)
      → is_signed additional low ≡ false
      → canonical_request additional path
          (record req { headers = insert low values (trim_signed additional req.headers) })
        ≡ canonical_request additional path req
  unfolding canonical_request
  canonical_request-sent path low values req e =
      rw (signed_names-insert low values (trim_signed additional req.headers) e) (
        rw (signed_names-trim_signed req.headers) (
          rw
            (header_lines-sent low values req.headers _ e
              (sort_names-Signed _ (signed_names-Signed req.headers)))
            refl))

module _ (sha256 : Text → Text) (hmac : Text → Text → Text) where
  -- When Authorization is not among the additional headers: the Authorization header of the
  -- request that ossV4Sign leaves is the one computed from that request itself, with its headers
  -- as they are sent.
  pub oss_v4_sign-sent :
      (path region id secret : Text) (additional : List Text) (now : Stamp) (req : Request)
      → is_signed additional (codes "authorization") ≡ false
      → let sent = oss_v4_sign sha256 hmac path region id secret additional now req in
        lookup (codes "authorization") sent.headers
        ≡ some (
            authorization sha256 hmac now region id secret additional
              (canonical_request additional path sent)
            ∷ [])
  unfolding oss_v4_sign
  oss_v4_sign-sent path region id secret additional now req e =
      let low = codes "authorization" in
      let dated = stamped now req in
      rw (lookup-insert_self low _ _) (
        ap (λ c. some (authorization sha256 hmac now region id secret additional c ∷ []))
          (sym (canonical_request-sent additional path low _ dated e)))
