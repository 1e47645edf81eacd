-- ===== src/Vectors.antt =====
-- The client of the vectors index (vectors.go). What net/url reads and writes is `Urls`, the JSON body
-- and the answer of the service are `VectorsService`; the signature is modelled in Vectors/Signing.antt.
pub mod Signing
pub mod Items
pub mod Pipeline
use filestor.Base.{
  ℕ, Bool, true, false, ◌||◌, not, List, [], ◌∷◌, ◌++◌, Option, none, some, ◌==◌, if◌then◌else◌,
  take, length, ltb, Text, codes, text_eq, cut_suffix, split, insert, ◌*◌,
}
use filestor.Bundle.{BundleMeta}
use filestor.Embed.{Vector, HttpResponse, is_digest_text, truncate_body}
use filestor.Vectors.Signing.{Request, Stamp, oss_v4_sign}

-- vectorsResourcePath
unfoldable pub vectors_resource_path : Text → Text → Text → Text
vectors_resource_path region account_id bucket =
    codes "/acs:ossvector:" ++ (region ++ (b':' ∷ (account_id ++ (b':' ∷ (bucket ++ codes "/")))))

pub record Url : Type 0 where
  pub scheme : Text
  pub host : Text
  pub path : Text
  pub raw_query : Text
  pub fragment : Text

-- url.Parse, Hostname and String
pub record Urls : Type 0 where
  pub parse : Text → Option Url
  pub hostname : Url → Text
  pub print : Url → Text

abbrev pub trim_suffix : Text → Text → Text
trim_suffix suffix s = or_whole (cut_suffix suffix s)
  where
    or_whole : Option Text → Text
    or_whole none = s
    or_whole (some t) = t

abbrev pub region_of : List Text → Option Text
region_of (region ∷ service ∷ l ∷ ls) =
    if text_eq service (codes "oss-vectors")
    then some (trim_suffix (codes "-internal") region)
    else none
region_of _ = none

abbrev pub with_hostname : Urls → Option Url → Option Url
with_hostname urls none = none
with_hostname urls (some u) = named (urls.hostname u)
  where
    named : Text → Option Url
    named [] = none
    named (c ∷ s) = some u

abbrev pub region_at : Urls → Option Url → Option Text
region_at urls none = none
region_at urls (some u) = region_of (split b'.' (urls.hostname u))

-- parseVectorsEndpoint
unfoldable pub parse_vectors_endpoint : Urls → Text → Option Text
unfolding split cut_suffix
parse_vectors_endpoint urls raw_url = region_at urls (with_hostname urls (urls.parse raw_url))

abbrev pub put_url_of : Urls → Text → Text → Option Url → Option Text
put_url_of urls bucket account_id none = none
put_url_of urls bucket account_id (some u) = some (
    urls.print (record u {
      host = bucket ++ (b'-' ∷ (account_id ++ (b'.' ∷ u.host)));
      path = codes "/";
      raw_query = codes "putVectors";
      fragment = [];
    }))

-- vectorsPutURL
unfoldable pub vectors_put_url : Urls → Text → Text → Text → Option Text
vectors_put_url urls endpoint bucket account_id =
    put_url_of urls bucket account_id (with_hostname urls (urls.parse endpoint))

-- AliyunOSSVectorsConfig
pub record VectorsConfig : Type 0 where
  pub url : Text
  pub bucket : Text
  pub account_id : Text
  pub index : Text
  pub access_key_id : Text
  pub access_key_secret : Text

pub record VectorsClient : Type 0 where
  pub cfg : VectorsConfig
  pub bucket : Text
  pub region : Text
  pub account_id : Text

abbrev pub client_at : VectorsConfig → Option Text → Option VectorsClient
client_at cfg none = none
client_at cfg (some region) =
    some (record { cfg = cfg; bucket = cfg.bucket; region = region; account_id = cfg.account_id })

-- newVectorsClient
unfoldable pub new_vectors_client : Urls → VectorsConfig → Option VectorsClient
unfolding parse_vectors_endpoint
new_vectors_client urls cfg = client_at cfg (parse_vectors_endpoint urls cfg.url)

-- vectorItem, with its metadata
pub record VectorItem : Type 0 where
  pub key : Text
  pub vector : Vector
  pub bundle : Text
  pub kind : Text
  pub name : Text
  pub title : Text
  pub time : Text

abbrev pub item_of : Text → BundleMeta → Text → Vector → VectorItem
item_of bundle_id meta name v = record {
  key = bundle_id ++ (b'/' ∷ name);
  vector = v;
  bundle = bundle_id;
  kind = if is_digest_text name then codes "text" else codes "image";
  name = name;
  title = meta.title;
  time = meta.time;
}

abbrev pub add_item : VectorItem → Option (List VectorItem) → Option (List VectorItem)
add_item i none = none
add_item i (some items) = some (i ∷ items)

-- The items of putVectors; none where vecs[i] is out of range, which panics.
unfoldable pub vector_items : Text → BundleMeta → List Text → List Vector → Option (List VectorItem)
unfolding is_digest_text
vector_items bundle_id meta [] vs = some []
vector_items bundle_id meta (n ∷ ns) [] = none
vector_items bundle_id meta (n ∷ ns) (v ∷ vs) =
    add_item (item_of bundle_id meta n v) (vector_items bundle_id meta ns vs)

-- the JSON body, from the index and the items; the answer to a URL, a request and its body
pub record VectorsService : Type 0 where
  pub encode : Text → List VectorItem → Text
  pub send : Text → Request → Text → Option HttpResponse

pub data PutOutcome : Type 0 where
  written panicked bad_url send_failed : PutOutcome
  put_refused : ℕ → Text → PutOutcome

abbrev pub put_answer : Option HttpResponse → PutOutcome
put_answer none = send_failed
put_answer (some resp) =
    if resp.status == 200
    then written
    else put_refused resp.status (truncate_body (take (1024 * 1024) resp.body))

module _ (sha256 : Text → Text) (hmac : Text → Text → Text) (urls : Urls)
    (svc : VectorsService) where
  abbrev pub signed_put : VectorsClient → Stamp → Url → Request
  signed_put c now u =
      oss_v4_sign sha256 hmac (vectors_resource_path c.region c.account_id c.bucket) c.region
        c.cfg.access_key_id c.cfg.access_key_secret [] now
        (record {
          method = codes "POST";
          raw_query = u.raw_query;
          headers = (codes "content-type", codes "application/json" ∷ []) ∷ [];
        })

  abbrev pub send_put : VectorsClient → Stamp → Text → Text → Option Url → PutOutcome
  send_put c now body endpoint none = bad_url
  send_put c now body endpoint (some u) = put_answer (svc.send endpoint (signed_put c now u) body)

  abbrev pub put_items : VectorsClient → Stamp → Text → Option Text → PutOutcome
  put_items c now body none = bad_url
  put_items c now body (some endpoint) = send_put c now body endpoint (urls.parse endpoint)

  abbrev pub put_built : VectorsClient → Stamp → Option (List VectorItem) → PutOutcome
  put_built c now none = panicked
  put_built c now (some items) =
      put_items c now (svc.encode c.cfg.index items)
        (vectors_put_url urls c.cfg.url c.bucket c.account_id)

  -- putVectors
  unfoldable pub put_vectors :
      VectorsClient → Stamp → Text → BundleMeta → List Text → List Vector → PutOutcome
  unfolding vector_items vectors_put_url oss_v4_sign truncate_body vectors_resource_path
  put_vectors c now bundle_id meta names vs = put_built c now (vector_items bundle_id meta names vs)
