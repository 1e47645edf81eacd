-- ===== src/Store/Objects.antt =====
-- Reading objects (s3.go: s3Store.List, Get, isS3NotFound). One ListObjectsV2 and one GetObject request
-- of the SDK are parameters. The prefixes of a page, which no caller reads, are not modelled.
pub mod Lists
use filestor.Base.{
  ℕ, ◌+◌, ◌*◌, Bool, true, false, ◌||◌, List, [], ◌∷◌, Option, none, some, ltb, take, length,
  if◌then◌else◌, Text, codes, text_eq,
}
use filestor.Detail.{Object, Page, Fetched, not_found, broken, fetched, ObjectStore}

-- Contents and IsTruncated, after a prefix and a marker
abbrev pub RawPage : Type 0
RawPage = List Object × Bool

abbrev pub is_nothing : Text → Bool
is_nothing [] = true
is_nothing (c ∷ s) = false

-- the loop over Contents
unfoldable pub page_objects : Text → List Object → List Object
page_objects prefix [] = []
page_objects prefix (o ∷ os) =
    let rest = page_objects prefix os in
    if is_nothing o.key || text_eq o.key prefix then rest else o ∷ rest

abbrev pub page_of : Text → Option RawPage → Option Page
page_of prefix none = none
page_of prefix (some (contents, truncated)) =
    some (record { objects = page_objects prefix contents; is_truncated = truncated })

-- an error of the SDK: NoSuchKey by its type, an API error by its code, or another
pub data SdkError : Type 0 where
  no_such_key other_error : SdkError
  api_error : Text → SdkError

-- isS3NotFound
unfoldable pub is_s3_not_found : SdkError → Bool
is_s3_not_found no_such_key = true
is_s3_not_found other_error = false
is_s3_not_found (api_error code) =
    text_eq code (codes "NoSuchKey") || text_eq code (codes "NotFound")

-- the length that the header gives, and the body, if it can be read
pub data GetAnswer : Type 0 where
  get_failed : SdkError → GetAnswer
  get_object : Option ℕ → Option Text → GetAnswer

abbrev pub get_max_bytes : ℕ
get_max_bytes = 1024 * 1024

abbrev pub is_larger : Option ℕ → Bool
is_larger none = false
is_larger (some n) = ltb get_max_bytes n

abbrev pub whole_body : Option Text → Fetched
whole_body none = broken
whole_body (some body) =
    let bytes = take (get_max_bytes + 1) body in
    if ltb get_max_bytes (length bytes) then broken else fetched bytes

-- Get
unfoldable pub get_of : GetAnswer → Fetched
unfolding is_s3_not_found
get_of (get_failed e) = if is_s3_not_found e then not_found else broken
get_of (get_object len body) = if is_larger len then broken else whole_body body

-- the store, as the bundle page uses it
unfoldable pub s3_store : (Text → Text → Option RawPage) → (Text → GetAnswer) → ObjectStore
unfolding page_objects get_of
s3_store list get = record {
  get_object = λ key. get_of (get key);
  list = λ prefix marker. page_of prefix (list prefix marker);
}
