-- ===== src/Detail.antt =====
-- The page of one bundle (detail.go: handleBundle; bundle.go: loadBundleMeta; browse.go: entryName,
-- formatSize). The object store is `ObjectStore`; decoding .meta.json is a parameter. The text of an
-- object's last change is part of the object. Sizes are below 2^53 bytes, where float64 is exact.
pub mod Complete
pub mod Rows
use filestor.Base.{
  ℕ, zero, suc, ◌+◌, ◌*◌, ◌/◌, ◌%◌, Bool, true, false, ◌&&◌, ◌||◌, not, List, [], ◌∷◌, ◌++◌, Option,
  none, some, ltb, leb, ◌==◌, within, if◌then◌else◌, drop, length, Text, codes, text_eq, to_lower,
  has_prefix, cut_suffix, decimal,
}
use filestor.Clock.{Time, two_digits, format_month, parse_time}
use filestor.Bundle.{BundleMeta, is_uuid_v4, bundle_prefix, bundle_meta_name, bundle_meta_key}
use filestor.Index.{BundleIndex, get}
use filestor.Browse.{Icon, file_icon, PreviewKind, image, video, audio, no_preview, preview_kind}
use filestor.Browse.Calendar.{format_date}

-- ObjectInfo
pub record Object : Type 0 where
  pub key : Text
  pub size : ℕ
  pub modified : Text

-- ListPage, less the prefixes
pub record Page : Type 0 where
  pub objects : List Object
  pub is_truncated : Bool

pub data Fetched : Type 0 where
  not_found broken : Fetched
  fetched : Text → Fetched

pub record ObjectStore : Type 0 where
  pub get_object : Text → Fetched
  pub list : Text → Text → Option Page

-- strings.TrimSuffix, on what cutting the suffix gives
abbrev pub or_whole : Text → Option Text → Text
or_whole s none = s
or_whole s (some t) = t

-- entryName
unfoldable pub entry_name : Text → Text → Text
unfolding has_prefix cut_suffix
entry_name full prefix =
    let name = if has_prefix prefix full then drop (length prefix) full else full in
    or_whole name (cut_suffix (codes "/") name)

abbrev pub units : List ℕ
units = b'K' ∷ b'M' ∷ b'G' ∷ b'T' ∷ b'P' ∷ b'E' ∷ []

-- n / div to one decimal, rounded to the nearest, and to even between two
abbrev pub tenths : ℕ → ℕ → ℕ
tenths n div =
    let q = n * 10 / div in
    let r = n * 10 % div * 2 in if ltb div r || (r == div && q % 2 == 1) then q + 1 else q

abbrev pub size_text : ℕ → ℕ → ℕ → Text
size_text n div unit =
    let t = tenths n div in decimal (t / 10) ++ (b'.' ∷ (b'0' + t % 10) ∷ b' ' ∷ unit ∷ b'B' ∷ [])

-- the loop, over the units
abbrev pub scaled : ℕ → ℕ → ℕ → List ℕ → Text
scaled n x div [] = []
scaled n x div (unit ∷ []) = size_text n div unit
scaled n x div (unit ∷ next ∷ rest) =
    let larger = scaled n (x / 1024) (div * 1024) (next ∷ rest) in
    if leb 1024 x then larger else size_text n div unit

-- formatSize
unfoldable pub format_size : ℕ → Text
unfolding decimal
format_size n = if ltb n 1024 then decimal n ++ codes " B" else scaled n (n / 1024) 1024 units

abbrev upper_hex : ℕ → ℕ
upper_hex n = if ltb n 10 then n + b'0' else n + 55

abbrev pub query_char : ℕ → Text
query_char c =
    if within b'A' b'Z' c
      || within b'a' b'z' c
      || within b'0' b'9' c
      || c == b'-'
      || c == b'_'
      || c == b'.'
      || c == b'~'
    then c ∷ []
    else if c == b' '
    then b'+' ∷ []
    else b'%' ∷ upper_hex (c / 16) ∷ upper_hex (c % 16) ∷ []

-- url.QueryEscape, on bytes
unfoldable pub query_escape : Text → Text
query_escape [] = []
query_escape (c ∷ s) = query_char c ++ query_escape s

-- fileEntry
pub record FileEntry : Type 0 where
  pub name : Text
  pub key : Text
  pub size : Text
  pub last_modified : Text
  pub size_bytes : ℕ
  pub icon : Icon
  pub kind : PreviewKind
  pub preview_url : Text

-- detailData, less Nav
pub record DetailData : Type 0 where
  pub id : Text
  pub title : Text
  pub date : Text
  pub time_hm : Text
  pub back_month : Text
  pub file_count : ℕ
  pub total_size : Text
  pub has_images : Bool
  pub has_media : Bool
  pub files : List FileEntry

abbrev pub image_preview_max_size : ℕ
image_preview_max_size = 32 * 1024 * 1024

abbrev pub capped_kind : ℕ → PreviewKind → PreviewKind
capped_kind size image = if ltb image_preview_max_size size then no_preview else image
capped_kind size video = video
capped_kind size audio = audio
capped_kind size no_preview = no_preview

abbrev pub preview_url_of : Text → PreviewKind → Text
preview_url_of key no_preview = []
preview_url_of key _ = codes "/preview?key=" ++ query_escape key

abbrev pub is_image : PreviewKind → Bool
is_image image = true
is_image _ = false

abbrev pub is_media : PreviewKind → Bool
is_media video = true
is_media audio = true
is_media _ = false

unfoldable pub file_entry : Text → Object → FileEntry
unfolding entry_name format_size file_icon preview_kind query_escape
file_entry prefix obj =
    let name = entry_name obj.key prefix in
    let kind = capped_kind obj.size (preview_kind name) in
    record {
      name = name;
      key = obj.key;
      size = format_size obj.size;
      last_modified = obj.modified;
      size_bytes = obj.size;
      icon = file_icon name;
      kind = kind;
      preview_url = preview_url_of obj.key kind;
    }

abbrev pub is_nothing : Text → Bool
is_nothing [] = true
is_nothing (c ∷ s) = false

abbrev pub is_skipped : Text → Object → Bool
is_skipped prefix obj =
    let name = entry_name obj.key prefix in is_nothing name || text_eq name bundle_meta_name

-- the page and the total so far
abbrev pub Progress : Type 0
Progress = DetailData × ℕ

abbrev pub add_object : Text → Object → Progress → Progress
add_object prefix obj (d, total) =
    let f = file_entry prefix obj in
    if is_skipped prefix obj then (d, total) else (
      record d {
        has_images = d.has_images || is_image f.kind;
        has_media = d.has_media || is_media f.kind;
        files = d.files ++ f ∷ [];
      },
      total + obj.size,
    )

-- the loop over the objects of a page
abbrev pub add_objects : Text → List Object → Progress → Progress
add_objects prefix [] p = p
add_objects prefix (obj ∷ objs) p = add_objects prefix objs (add_object prefix obj p)

pub data Refusal : Type 0 where
  store_unavailable invalid_id bundle_not_found meta_failed list_failed : Refusal

pub data Reply : Type 0 where
  refused : Refusal → Reply
  rendered : DetailData → Reply
  out_of_fuel : Reply

abbrev pub finished : Progress → Reply
finished (d, total) =
    rendered (record d { file_count = length d.files; total_size = format_size total })

abbrev pub no_objects : List Object → Bool
no_objects [] = true
no_objects (o ∷ os) = false

abbrev pub last_key : Text → List Object → Text
last_key marker [] = marker
last_key marker (o ∷ os) = last_key o.key os

module _ (list : Text → Option Page) (prefix : Text) where
  -- after a page; `next` goes on after a marker
  abbrev pub after_page : (Text → Progress → Reply) → Text → Progress → Option Page → Reply
  after_page next marker p none = refused list_failed
  after_page next marker p (some page) =
      if not page.is_truncated || no_objects page.objects
      then finished (add_objects prefix page.objects p)
      else next (last_key marker page.objects) (add_objects prefix page.objects p)

  -- the loop over the pages, on the number of requests
  unfoldable pub pages_from : ℕ → Text → Progress → Reply
  unfolding file_entry entry_name format_size
  pages_from zero marker p = out_of_fuel
  pages_from (suc fuel) marker p = after_page (pages_from fuel) marker p (list marker)

abbrev pub empty_page : Text → BundleMeta → Time → DetailData
empty_page id meta t = record {
  id = id;
  title = meta.title;
  date = format_date t.year t.month t.day;
  time_hm = two_digits t.hour ++ (b':' ∷ two_digits t.minute);
  back_month = format_month t.year t.month;
  file_count = 0;
  total_size = [];
  has_images = false;
  has_media = false;
  files = [];
}

pub data Meta : Type 0 where
  missing unusable : Meta
  loaded : BundleMeta → Meta

module _ (decode : Text → Option BundleMeta) where
  abbrev pub checked_meta : Text → Option BundleMeta → Meta
  checked_meta id none = unusable
  checked_meta id (some meta) =
      if not (text_eq (to_lower meta.id) id) || is_nothing meta.time then unusable else loaded meta

  -- loadBundleMeta
  unfoldable pub load_bundle_meta : ObjectStore → Text → Meta
  unfolding bundle_meta_key to_lower
  load_bundle_meta store id = on_object (store.get_object (bundle_meta_key id))
    where
      on_object : Fetched → Meta
      on_object not_found = missing
      on_object broken = unusable
      on_object (fetched bytes) = checked_meta id (decode bytes)

  -- the index, or the bundle's own .meta.json
  abbrev pub meta_of : ObjectStore → Text → Option BundleMeta → Meta
  meta_of store id (some meta) = loaded meta
  meta_of store id none = load_bundle_meta store id

  abbrev pub show_at : ℕ → ObjectStore → Text → BundleMeta → Option Time → Reply
  show_at fuel store id meta none = refused bundle_not_found
  show_at fuel store id meta (some t) =
      let prefix = bundle_prefix id ++ codes "/" in
      pages_from (store.list prefix) prefix fuel [] (empty_page id meta t, 0)

  abbrev pub show_meta : ℕ → ObjectStore → Text → Meta → Reply
  show_meta fuel store id missing = refused bundle_not_found
  show_meta fuel store id unusable = refused meta_failed
  show_meta fuel store id (loaded meta) = show_at fuel store id meta (parse_time meta.time)

  abbrev pub show_id : ℕ → ObjectStore → BundleIndex → Text → Reply
  show_id fuel store index id =
      if not (is_uuid_v4 id)
      then refused invalid_id
      else show_meta fuel store id (meta_of store id (get index id))

  -- handleBundle
  unfoldable pub handle_bundle : ℕ → Option ObjectStore → BundleIndex → Text → Reply
  unfolding load_bundle_meta pages_from bundle_prefix parse_time get is_uuid_v4 to_lower
  handle_bundle fuel none index path_id = refused store_unavailable
  handle_bundle fuel (some store) index path_id = show_id fuel store index (to_lower path_id)
