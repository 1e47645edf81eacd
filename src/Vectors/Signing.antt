-- ===== src/Vectors/Signing.antt =====
-- The OSS4-HMAC-SHA256 signature of a request (vectors.go: ossV4Escape, ossV4SignedHeader,
-- ossV4CanonicalQuery, ossV4Sign). A header is kept under its name in lower letters; SHA-256 and its
-- HMAC are parameters, as functions on lists of bytes.
pub mod Escape
pub mod Signed
use filestor.Base.{
  ℕ, ◌+◌, ◌*◌, ◌/◌, ◌%◌, Bool, true, false, ◌&&◌, ◌||◌, not, List, [], ◌∷◌, ◌++◌, map, Option, none,
  some, any, within, ltb, ◌==◌, if◌then◌else◌, Text, codes, text_eq, has_prefix, to_lower,
  trim_space, split, lookup, insert, keys, join,
}
use filestor.Bundle.{hex}
use filestor.Clock.{Time, two_digits, four_digits}
use filestor.Workspace.Listing.{sort_names}

abbrev pub is_unreserved : ℕ → Bool
is_unreserved c =
    within b'A' b'Z' c
    || within b'a' b'z' c
    || within b'0' b'9' c
    || c == b'-'
    || c == b'.'
    || c == b'_'
    || c == b'~'
    || c == b'/'

abbrev pub upper_hex : ℕ → ℕ
upper_hex n = if ltb n 10 then n + b'0' else n + 55

abbrev pub escaped : ℕ → Text
escaped c = if is_unreserved c then c ∷ [] else b'%' ∷ upper_hex (c / 16) ∷ upper_hex (c % 16) ∷ []

-- ossV4Escape, on bytes
unfoldable pub oss_v4_escape : Text → Text
oss_v4_escape [] = []
oss_v4_escape (c ∷ s) = escaped c ++ oss_v4_escape s

-- ossV4SignedHeader
unfoldable pub oss_v4_signed_header : Text → Bool
unfolding has_prefix
oss_v4_signed_header low =
    has_prefix (codes "x-oss-") low
    || text_eq low (codes "content-type")
    || text_eq low (codes "content-md5")

-- strings.Cut at "="
unfoldable pub cut_pair : Text → Text × Text
cut_pair [] = ([], [])
cut_pair (c ∷ s) = let (k, v) = cut_pair s in if c == b'=' then ([], s) else (c ∷ k, v)

-- strings.ReplaceAll of "+"
abbrev pub plus_escaped : Text → Text
plus_escaped [] = []
plus_escaped (c ∷ s) = if c == b'+' then codes "%20" ++ plus_escaped s else c ∷ plus_escaped s

-- the pairs between the "&"
abbrev pub query_pairs : List Text → List (Text × Text)
query_pairs [] = []
query_pairs ([] ∷ ps) = query_pairs ps
query_pairs ((c ∷ s) ∷ ps) = cut_pair (c ∷ s) ∷ query_pairs ps

abbrev pub last_values : List (Text × Text) → List (Text × Text) → List (Text × Text)
last_values [] values = values
last_values ((k, v) ∷ ps) values = last_values ps (insert k v values)

abbrev pub separator : Text → Text
separator [] = []
separator (c ∷ s) = b'&' ∷ []

abbrev pub value_part : Option Text → Text
value_part none = []
value_part (some []) = []
value_part (some (c ∷ v)) = b'=' ∷ c ∷ v

abbrev pub write_query : List (Text × Text) → List Text → Text → Text
write_query values [] out = out
write_query values (k ∷ ks) out =
    write_query values ks (out ++ (separator out ++ (k ++ value_part (lookup k values))))

-- ossV4CanonicalQuery
unfoldable pub oss_v4_canonical_query : Text → Text
unfolding split cut_pair lookup insert sort_names
oss_v4_canonical_query raw_query =
    let pairs = query_pairs (split b'&' (plus_escaped raw_query)) in
    write_query (last_values pairs []) (sort_names (keys pairs)) []

abbrev pub Headers : Type 0
Headers = List (Text × List Text)

pub record Request : Type 0 where
  pub method : Text
  pub raw_query : Text
  pub headers : Headers

-- The signing time in UTC, with its text at http.TimeFormat
pub record Stamp : Type 0 where
  pub time : Time
  pub second : ℕ
  pub http_date : Text

abbrev pub date_of : Stamp → Text
date_of now = four_digits now.time.year ++ (two_digits now.time.month ++ two_digits now.time.day)

abbrev pub datetime_of : Stamp → Text
datetime_of now =
    date_of now
    ++ (b'T'
        ∷ (two_digits now.time.hour
            ++ (two_digits now.time.minute ++ (two_digits now.second ++ (b'Z' ∷ [])))))

abbrev pub is_signed : List Text → Text → Bool
is_signed additional low =
    oss_v4_signed_header low || any (λ h. text_eq (to_lower h) low) additional

unfoldable pub signed_names : List Text → Headers → List Text
unfolding oss_v4_signed_header to_lower
signed_names additional [] = []
signed_names additional ((low, values) ∷ hs) =
    let rest = signed_names additional hs in if is_signed additional low then low ∷ rest else rest

abbrev pub values_of : Option (List Text) → List Text
values_of none = []
values_of (some values) = values

-- strings.Join
unfoldable pub join_texts : ℕ → List Text → Text
join_texts sep [] = []
join_texts sep (t ∷ []) = t
join_texts sep (t ∷ u ∷ ts) = t ++ (sep ∷ join_texts sep (u ∷ ts))

abbrev pub header_lines : Headers → List Text → Text
header_lines hs [] = []
header_lines hs (k ∷ ks) =
    (k ++ (b':' ∷ (join_texts b',' (map trim_space (values_of (lookup k hs))) ++ (b'\n' ∷ []))))
    ++ header_lines hs ks

-- The values that are signed are trimmed in the request, too.
unfoldable pub trim_signed : List Text → Headers → Headers
unfolding trim_space oss_v4_signed_header to_lower
trim_signed additional [] = []
trim_signed additional ((low, values) ∷ hs) =
    (low, (if is_signed additional low then map trim_space values else values))
    ∷ trim_signed additional hs

abbrev pub unsigned_payload : Text
unsigned_payload = codes "UNSIGNED-PAYLOAD"

unfoldable pub canonical_request : List Text → Text → Request → Text
unfolding oss_v4_escape oss_v4_canonical_query signed_names join_texts lookup trim_space sort_names
canonical_request additional resource_path req = join_texts b'\n' (
    req.method
    ∷ oss_v4_escape resource_path
    ∷ oss_v4_canonical_query req.raw_query
    ∷ header_lines req.headers (sort_names (signed_names additional req.headers))
    ∷ join_texts b';' additional
    ∷ unsigned_payload
    ∷ [])

abbrev pub scope_of : Stamp → Text → Text
scope_of now region = date_of now ++ (b'/' ∷ (region ++ codes "/oss/aliyun_v4_request"))

abbrev pub stamped : Stamp → Request → Request
stamped now req = record req {
  headers = insert (codes "x-oss-content-sha256") (unsigned_payload ∷ []) (
      insert (codes "date") (now.http_date ∷ [])
        (insert (codes "x-oss-date") (datetime_of now ∷ []) req.headers));
}

abbrev pub additional_part : List Text → Text
additional_part [] = []
additional_part (h ∷ hs) = codes ",AdditionalHeaders=" ++ join_texts b';' (h ∷ hs)

module _ (sha256 : Text → Text) (hmac : Text → Text → Text) where
  abbrev pub string_to_sign : Stamp → Text → Text → Text
  string_to_sign now region canonical =
      codes "OSS4-HMAC-SHA256"
      ++ (b'\n'
          ∷ (datetime_of now
              ++ (b'\n' ∷ (scope_of now region ++ (b'\n' ∷ hex (sha256 canonical))))))

  abbrev pub signing_key : Stamp → Text → Text → Text
  signing_key now region secret =
      hmac (hmac (hmac (hmac (codes "aliyun_v4" ++ secret) (date_of now)) region) (codes "oss"))
        (codes "aliyun_v4_request")

  -- the Authorization header of a canonical request
  unfoldable pub authorization : Stamp → Text → Text → Text → List Text → Text → Text
  unfolding four_digits two_digits hex join_texts
  authorization now region id secret additional canonical =
      codes "OSS4-HMAC-SHA256 Credential="
      ++ (id
          ++ (b'/'
              ∷ (scope_of now region
                  ++ (additional_part additional
                      ++ (codes ",Signature="
                          ++ hex (
                              hmac (signing_key now region secret)
                                (string_to_sign now region canonical)))))))

  -- ossV4Sign
  unfoldable pub oss_v4_sign : Text → Text → Text → Text → List Text → Stamp → Request → Request
  unfolding authorization canonical_request trim_signed insert
  oss_v4_sign resource_path region id secret additional now req =
      let dated = stamped now req in
      let trimmed = record dated { headers = trim_signed additional dated.headers } in
      record trimmed {
        headers =
            insert (codes "authorization")
              (authorization now region id secret additional
                  (canonical_request additional resource_path dated)
                ∷ [])
              trimmed.headers;
      }
