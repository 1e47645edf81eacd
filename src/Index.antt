-- ===== src/Index.antt =====
-- The in-memory copy of the monthly indexes (bundle.go: bundleIndex). JSON and the object store are
-- parameters: `encode` and `decode` of a month's entries, and the outcome of each Get and Put.
-- A mutex guards every access, so each method is one step.
pub mod Keys
pub mod Parsed
pub mod Sync
pub mod Loaded
pub mod Session
use filestor.Base.{
  ℕ, zero, suc, ◌+◌, ◌≡◌, Bool, true, false, ◌&&◌, ◌||◌, not, List, [], ◌∷◌, ◌++◌, Option, none,
  some, ==_iff, ltb, ◌==◌, if◌then◌else◌, length, take, any, Text, codes, text_eq, split, to_lower,
  cut_suffix, lookup, insert,
}
use filestor.Bundle.{BundleMeta}
use filestor.Clock.{Time, four_digits, format_month, parse_month, parse_time}

abbrev pub index_root : Text
index_root = codes "index"

-- indexKey
unfoldable pub index_key : ℕ → ℕ → Text
index_key year month =
    index_root ++ (b'/' ∷ (four_digits year ++ (b'/' ∷ (format_month year month ++ codes ".json"))))

-- the tests of parseIndexKey on the folder and the month key
abbrev pub index_month : Text → Text → Option Text
index_month folder month_key =
    if length month_key == 7 && text_eq folder (take 4 month_key)
    then elim (parse_month month_key) [ none ↦ none | some _ ↦ some month_key ]
    else none

abbrev pub index_file : Text → Option Text → Option Text
index_file folder none = none
index_file folder (some month_key) = index_month folder month_key

abbrev pub index_parts : List Text → Option Text
index_parts (root ∷ folder ∷ file ∷ []) =
    if text_eq root index_root then index_file folder (cut_suffix (codes ".json") file) else none
index_parts _ = none

-- parseIndexKey
unfoldable pub parse_index_key : Text → Option Text
parse_index_key key = index_parts (split b'/' key)

-- bundleIndex; a month of `broken` failed to load
pub record BundleIndex : Type 0 where
  pub months : List (Text × List BundleMeta)
  pub by_id : List (Text × BundleMeta)
  pub broken : List (Text × Bool)

unfoldable pub new_bundle_index : BundleIndex
new_bundle_index = record { months = []; by_id = []; broken = [] }

-- x.months[k] and x.broken[k]: a missing key reads as the zero value
abbrev pub or_empty : Option (List BundleMeta) → List BundleMeta
or_empty none = []
or_empty (some l) = l

abbrev pub or_false : Option Bool → Bool
or_false none = false
or_false (some b) = b

abbrev pub month_of : BundleIndex → Text → List BundleMeta
month_of x k = or_empty (lookup k x.months)

abbrev pub is_broken : BundleIndex → Text → Bool
is_broken x k = or_false (lookup k x.broken)

-- The entries of one month file are recorded one after the other.
unfoldable pub record_ids : List BundleMeta → List (Text × BundleMeta) → List (Text × BundleMeta)
record_ids [] ids = ids
record_ids (m ∷ ms) ids = record_ids ms (insert (to_lower m.id) m ids)

abbrev pub Bucket : Type 0
Bucket = List (Text × Text)

-- `fetch`: what the store answers for a key, none for an error. `decode`: json.Unmarshal of a list of
-- entries, none for an error.
module _ (fetch : Text → Option Text) (decode : Text → Option (List BundleMeta)) where
  abbrev pub mark_broken : Text → BundleIndex → BundleIndex
  mark_broken k x = record x { broken = insert k true x.broken }

  abbrev pub load_list : Text → Option (List BundleMeta) → BundleIndex → BundleIndex
  load_list k none x = mark_broken k x
  load_list k (some list) x = record x {
    months = insert k list x.months;
    by_id = record_ids list x.by_id;
  }

  abbrev pub load_file : Text → Option Text → BundleIndex → BundleIndex
  load_file k none x = mark_broken k x
  load_file k (some bytes) x = load_list k (decode bytes) x

  abbrev pub load_parsed : Text → Option Text → BundleIndex → BundleIndex
  load_parsed key none x = x
  load_parsed key (some month_key) x = load_file month_key (fetch key) x

  -- the goroutine of one key
  unfoldable pub load_key : Text → BundleIndex → BundleIndex
  load_key key x = load_parsed key (parse_index_key key) x

  -- The goroutines add under one mutex, so they take effect in some order: that of the list.
  unfoldable pub load_keys : List Text → BundleIndex → BundleIndex
  load_keys [] x = x
  load_keys (key ∷ keys) x = load_keys keys (load_key key x)

  -- load; `none` for the listing is a failed ListKeys, which leaves the index as it is
  unfoldable pub load : Option (List Text) → BundleIndex → BundleIndex × Bool
  load none x = (x, false)
  load (some keys) x = (load_keys keys new_bundle_index, true)

-- get
unfoldable pub get : BundleIndex → Text → Option BundleMeta
get x id = lookup (to_lower id) x.by_id

-- year: the loop from month m on, for `left` months
unfoldable pub year_from : BundleIndex → ℕ → ℕ → ℕ → List BundleMeta
year_from x year m zero = []
year_from x year m (suc left) = month_of x (format_month year m) ++ year_from x year (m + 1) left

unfoldable pub year : BundleIndex → ℕ → List BundleMeta
year x y = year_from x y 1 12

pub data AppendError : Type 0 where
  bad_time broken_month put_failed : AppendError

-- `put_ok`: whether the store takes the object; a Put that fails leaves the object as it was.
module _ (encode : List BundleMeta → Text) (put_ok : Text → Bool) where
  abbrev pub append_at :
      BundleIndex → Bucket → BundleMeta → Time → (BundleIndex × Bucket) × Option AppendError
  append_at x bucket meta when =
      let month_key = format_month when.year when.month in
      let key = index_key when.year when.month in
      let list = month_of x month_key ++ meta ∷ [] in
      if is_broken x month_key
      then ((x, bucket), some broken_month)
      else if not (put_ok key)
      then ((x, bucket), some put_failed)
      else (
        (
          record x {
            months = insert month_key list x.months;
            by_id = insert (to_lower meta.id) meta x.by_id;
          },
          insert key (encode list) bucket,
        ),
        none,
      )

  abbrev pub append_parsed :
      BundleIndex → Bucket → BundleMeta → Option Time → (BundleIndex × Bucket) × Option AppendError
  append_parsed x bucket meta none = ((x, bucket), some bad_time)
  append_parsed x bucket meta (some when) = append_at x bucket meta when

  -- append
  unfoldable pub append :
      BundleIndex → Bucket → BundleMeta → (BundleIndex × Bucket) × Option AppendError
  append x bucket meta = append_parsed x bucket meta (parse_time meta.time)
