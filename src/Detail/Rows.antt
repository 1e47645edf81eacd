-- ===== src/Detail/Rows.antt =====
-- The page of a bundle shows every object of the bundle (detail.go: handleBundle).
use filestor.Base.{
  ℕ, suc, ◌+◌, ◌<◌, ◌≡◌, refl, sym, ap, ◌∙◌, ◌⊎◌, inl, inr, Bool, true, false, ◌||◌, List, [], ◌∷◌,
  ◌++◌, map, any, Option, none, some, if◌then◌else◌, length, append-nil, append_assoc, Text, codes,
  arith, Bool-cases, to_lower,
}
use filestor.Clock.{Time, parse_time}
use filestor.Bundle.{BundleMeta, is_uuid_v4, bundle_prefix}
use filestor.Index.{BundleIndex, get}
use filestor.Detail.Complete.{ListsObjects, pages_from-Outcome}
use filestor.Detail.{
  Object, ObjectStore, FileEntry, DetailData, file_entry, is_image, is_media, is_skipped, Progress,
  add_objects, refused, rendered, list_failed, finished, empty_page, loaded, meta_of, format_size,
  handle_bundle,
}

-- the objects that have a row
unfoldable pub listed : Text → List Object → List Object
listed prefix [] = []
listed prefix (o ∷ os) =
    let rest = listed prefix os in if is_skipped prefix o then rest else o ∷ rest

abbrev pub total_of : List Object → ℕ
total_of [] = 0
total_of (o ∷ os) = o.size + total_of os

-- One row for each object but .meta.json, in the order of the store, with what is counted over them.
pub record IsDetail (prefix : Text) (every : List Object) (d : DetailData) : Type 0 where
  pub rows : d.files ≡ map (file_entry prefix) (listed prefix every)
  pub counted : d.file_count ≡ length (listed prefix every)
  pub summed : d.total_size ≡ format_size (total_of (listed prefix every))
  pub with_images : d.has_images ≡ any (λ f. is_image f.kind) d.files
  pub with_media : d.has_media ≡ any (λ f. is_media f.kind) d.files

abbrev rows_of : Text → List Object → List FileEntry
rows_of prefix os = map (file_entry prefix) (listed prefix os)

-- what the loop adds
record Folded (prefix : Text) (os : List Object) (p q : Progress) : Type 0 where
  files_ok : q.0.files ≡ p.0.files ++ rows_of prefix os
  total_ok : q.1 ≡ p.1 + total_of (listed prefix os)
  images_ok : q.0.has_images ≡ (p.0.has_images || any (λ f. is_image f.kind) (rows_of prefix os))
  media_ok : q.0.has_media ≡ (p.0.has_media || any (λ f. is_media f.kind) (rows_of prefix os))

or_false : (b : Bool) → b ≡ (b || false)
or_false b = ground arith

or_assoc : (a b c : Bool) → ((a || b) || c) ≡ (a || (b || c))
or_assoc a b c = ground arith

skipped-Folded :
    (prefix : Text) (o : Object) (os : List Object) (p q : Progress)
    → is_skipped prefix o ≡ true
    → Folded prefix os p q
    → Folded prefix (o ∷ os) p q
unfolding listed
skipped-Folded prefix o os p q e h = record {
  files_ok = rw e h.files_ok;
  total_ok = rw e h.total_ok;
  images_ok = rw e h.images_ok;
  media_ok = rw e h.media_ok;
}

abbrev with_row : FileEntry → ℕ → Progress → Progress
with_row f size p = (
  record p.0 {
    has_images = p.0.has_images || is_image f.kind;
    has_media = p.0.has_media || is_media f.kind;
    files = p.0.files ++ f ∷ [];
  },
  p.1 + size,
)

row-Folded :
    (prefix : Text) (o : Object) (os : List Object) (p q : Progress)
    → is_skipped prefix o ≡ false
    → Folded prefix os (with_row (file_entry prefix o) o.size p) q
    → Folded prefix (o ∷ os) p q
unfolding listed
row-Folded prefix o os p q e h =
    let f = file_entry prefix o in
    record {
      files_ok = rw e (h.files_ok ∙ append_assoc p.0.files (f ∷ []) (rows_of prefix os));
      total_ok = rw e (omega (arith, h.total_ok));
      images_ok = rw e (h.images_ok ∙ or_assoc p.0.has_images (is_image f.kind) _);
      media_ok = rw e (h.media_ok ∙ or_assoc p.0.has_media (is_media f.kind) _);
    }

add_objects-Folded :
    (prefix : Text) (os : List Object) (p : Progress) → Folded prefix os p (add_objects prefix os p)
unfolding listed
add_objects-Folded prefix [] p = record {
  files_ok = sym (append-nil p.0.files);
  total_ok = omega arith;
  images_ok = or_false p.0.has_images;
  media_ok = or_false p.0.has_media;
}
add_objects-Folded prefix (o ∷ os) p = elim (Bool-cases (is_skipped prefix o)) [
  | inl e ↦ rw e (skipped-Folded prefix o os p _ e (add_objects-Folded prefix os p))
  | inr e ↦ rw e (
      row-Folded prefix o os p _ e
        (add_objects-Folded prefix os (with_row (file_entry prefix o) o.size p)))
]

length-map {ℓ κ} :
    {A : Type ℓ} {B : Type κ} (g : A → B) (xs : List A) → length (map g xs) ≡ length xs
length-map g [] = refl
length-map g (x ∷ xs) = ap suc (length-map g xs)

zero_add : (n : ℕ) → 0 + n ≡ n
zero_add n = omega arith

finished-IsDetail :
    (prefix id : Text) (meta : BundleMeta) (t : Time) (every : List Object)
    → (d : DetailData) × (finished (add_objects prefix every (empty_page id meta t, 0))
        ≡ rendered d)
      × IsDetail prefix every d
finished-IsDetail prefix id meta t every =
    let start : Progress = (empty_page id meta t, 0) in
    let q = add_objects prefix every start in
    let h = add_objects-Folded prefix every start in
    (
      record q.0 { file_count = length q.0.files; total_size = format_size q.1 },
      refl,
      record {
        rows = h.files_ok;
        counted = ap length h.files_ok ∙ length-map (file_entry prefix) (listed prefix every);
        summed = ap format_size (h.total_ok ∙ zero_add (total_of (listed prefix every)));
        with_images = h.images_ok ∙ ap (any (λ f. is_image f.kind)) (sym h.files_ok);
        with_media = h.media_ok ∙ ap (any (λ f. is_media f.kind)) (sym h.files_ok);
      },
    )

-- the prefix of the bundle's objects
abbrev pub shown_prefix : Text → Text
shown_prefix path_id = bundle_prefix (to_lower path_id) ++ codes "/"

module _ (decode : Text → Option BundleMeta) (store : ObjectStore) (index : BundleIndex)
    (path_id : Text) where
  -- For an id that is a UUID, whose meta is in the index or readable and has a time that parses,
  -- and a store that lists the bundle's objects page by page: handleBundle ends after at most one
  -- request more than there are objects. It renders one row for each object but those without a
  -- name and .meta.json, in order, with their number, the total of their sizes, and whether a row
  -- shows an image or other media; or it answers that a request failed.
  pub handle_bundle-IsDetail :
      (meta : BundleMeta) (t : Time) (every : List Object) (fuel : ℕ)
      → is_uuid_v4 (to_lower path_id) ≡ true
      → meta_of decode store (to_lower path_id) (get index (to_lower path_id)) ≡ loaded meta
      → parse_time meta.time ≡ some t
      → ListsObjects every (store.list (shown_prefix path_id))
      → length every < fuel
      → ((d : DetailData) × (handle_bundle decode fuel (some store) index path_id ≡ rendered d)
          × IsDetail (shown_prefix path_id) every d)
        ⊎ ((m : Text) × (store.list (shown_prefix path_id) m ≡ none)
            × (handle_bundle decode fuel (some store) index path_id ≡ refused list_failed))
  unfolding handle_bundle
  handle_bundle-IsDetail meta t every fuel uuid found time lists lt =
      let start : Progress = (empty_page (to_lower path_id) meta t, 0) in
      let (d, eq, ok) = finished-IsDetail (shown_prefix path_id) (to_lower path_id) meta t every in
      rw (uuid, found, time)
        (elim (pages_from-Outcome (store.list (shown_prefix path_id)) (shown_prefix path_id) start
          every lists fuel [] every refl lt) [
            | inl done ↦ inl (d, done ∙ eq, ok)
            | inr failure ↦ inr failure
          ])
