-- ===== src/Config.antt =====
-- The configuration file's checks (config.go: validate). Reading the file and decoding its YAML are
-- not modelled; `endpoint_ok` is whether parseVectorsEndpoint (vectors.go) accepts a URL. validate
-- trims the fields as it goes; its checks only read trimmed fields, so all are trimmed first here. A
-- rejection holds the name of the field. The headers are taken in the order of the list, as Go's
-- iteration takes them in some order.
pub mod Accepted
use filestor.Base.{
  ℕ, zero, suc, ◌≡◌, Bool, true, false, ◌&&◌, ◌||◌, not, List, [], ◌∷◌, ◌++◌, Option, none, some,
  if◌then◌else◌, Text, codes, text_eq, has_prefix, trim_space, lookup, insert, remove, keys,
}

-- AdminConfig
pub record AdminConfig : Type 0 where
  pub username : Text
  pub password : Text

-- S3Config
pub record S3Config : Type 0 where
  pub endpoint : Text
  pub region : Text
  pub bucket : Text
  pub access_key_id : Text
  pub secret_access_key : Text
  pub force_path_style : Bool

-- OpenAIChatConfig
pub record ChatConfig : Type 0 where
  pub url : Text
  pub model : Text
  pub effort : Text
  pub headers : List (Text × Text)

-- BailianMultimodalEmbeddingConfig; `negative` is whether the dimensions are below zero
pub record EmbeddingConfig : Type 0 where
  pub url : Text
  pub model : Text
  pub headers : List (Text × Text)
  pub negative : Bool

-- AliyunOSSVectorsConfig
pub record VectorsConfig : Type 0 where
  pub url : Text
  pub bucket : Text
  pub account_id : Text
  pub access_key_id : Text
  pub access_key_secret : Text
  pub index : Text

-- Config
pub record Config : Type 0 where
  pub admin : AdminConfig
  pub s3 : S3Config
  pub workspace : Text
  pub chat : ChatConfig
  pub embeddings : EmbeddingConfig
  pub vectors : VectorsConfig

abbrev pub is_blank : Text → Bool
is_blank [] = true
is_blank (c ∷ s) = false

abbrev pub is_http : Text → Bool
is_http url = has_prefix (codes "http://") url || has_prefix (codes "https://") url

-- normalizeEndpoint
unfoldable pub normalize_endpoint : Text → Text
unfolding trim_space has_prefix
normalize_endpoint ep =
    let trimmed = trim_space ep in
    if is_blank trimmed
    then []
    else if is_http trimmed
    then trimmed
    else codes "https://" ++ trimmed

-- one turn of the loop of normalizeHeaders, on the value that the name has by then
abbrev pub normalize_header : Text → Option Text → List (Text × Text) → List (Text × Text)
normalize_header k none h = h
normalize_header k (some v) h =
    if is_blank (trim_space k)
    then remove k h
    else if text_eq (trim_space k) k && text_eq (trim_space v) v
    then h
    else insert (trim_space k) (trim_space v) (remove k h)

abbrev pub normalize_names : List Text → List (Text × Text) → List (Text × Text)
normalize_names [] h = h
normalize_names (k ∷ ks) h = normalize_names ks (normalize_header k (lookup k h) h)

-- normalizeHeaders
unfoldable pub normalize_headers : List (Text × Text) → List (Text × Text)
unfolding trim_space
normalize_headers h = normalize_names (keys h) h

abbrev pub default_upload_workspace : Text
default_upload_workspace = codes "upload-workspace"

abbrev pub or_default : Text → Text
or_default [] = default_upload_workspace
or_default (c ∷ s) = c ∷ s

-- what validate makes of the fields
unfoldable pub normalize : Config → Config
unfolding normalize_endpoint normalize_headers
normalize c = record {
  admin = record c.admin { username = trim_space c.admin.username };
  s3 = record c.s3 {
    endpoint = normalize_endpoint c.s3.endpoint;
    region = trim_space c.s3.region;
    bucket = trim_space c.s3.bucket;
    access_key_id = trim_space c.s3.access_key_id;
    secret_access_key = trim_space c.s3.secret_access_key;
  };
  workspace = or_default (trim_space c.workspace);
  chat = record {
    url = trim_space c.chat.url;
    model = trim_space c.chat.model;
    effort = trim_space c.chat.effort;
    headers = normalize_headers c.chat.headers;
  };
  embeddings = record c.embeddings {
    url = trim_space c.embeddings.url;
    model = trim_space c.embeddings.model;
    headers = normalize_headers c.embeddings.headers;
  };
  vectors = record {
    url = trim_space c.vectors.url;
    bucket = trim_space c.vectors.bucket;
    account_id = trim_space c.vectors.account_id;
    access_key_id = trim_space c.vectors.access_key_id;
    access_key_secret = trim_space c.vectors.access_key_secret;
    index = trim_space c.vectors.index;
  };
}

-- requireHTTPURL
abbrev pub is_bare_url : Text → Bool
is_bare_url url = not (is_blank url) && not (is_http url)

-- the checks of validate, in their order: whether each fails, and for which field
abbrev pub checks : (Text → Bool) → Config → List (Bool × Text)
checks endpoint_ok c =
    (is_blank c.admin.username, codes "admin.username")
    ∷ (is_blank c.admin.password, codes "admin.password")
    ∷ (is_blank c.s3.endpoint, codes "s3.endpoint")
    ∷ (is_blank c.s3.region, codes "s3.region")
    ∷ (is_blank c.s3.bucket, codes "s3.bucket")
    ∷ (is_blank c.s3.access_key_id, codes "s3.access_key_id")
    ∷ (is_blank c.s3.secret_access_key, codes "s3.secret_access_key")
    ∷ (is_blank c.chat.url, codes "openai.url")
    ∷ (is_blank c.chat.model, codes "openai.model")
    ∷ (is_bare_url c.chat.url, codes "openai.url")
    ∷ (is_blank c.embeddings.url, codes "embedding.url")
    ∷ (is_blank c.embeddings.model, codes "embedding.model")
    ∷ (is_bare_url c.embeddings.url, codes "embedding.url")
    ∷ (c.embeddings.negative, codes "embedding.dimensions")
    ∷ (is_blank c.vectors.url, codes "vectors.url")
    ∷ (is_blank c.vectors.bucket, codes "vectors.bucket")
    ∷ (is_blank c.vectors.account_id, codes "vectors.account_id")
    ∷ (is_blank c.vectors.access_key_id, codes "vectors.access_key_id")
    ∷ (is_blank c.vectors.access_key_secret, codes "vectors.access_key_secret")
    ∷ (is_blank c.vectors.index, codes "vectors.index")
    ∷ (is_bare_url c.vectors.url, codes "vectors.url")
    ∷ (not (endpoint_ok c.vectors.url), codes "vectors.url")
    ∷ []

unfoldable pub first_failure : List (Bool × Text) → Option Text
first_failure [] = none
first_failure ((fails, field) ∷ rest) =
    let later = first_failure rest in if fails then some field else later

-- validate: the trimmed configuration, and the field of the first check that fails
unfoldable pub validate : (Text → Bool) → Config → Config × Option Text
unfolding normalize first_failure
validate endpoint_ok c = (normalize c, first_failure (checks endpoint_ok (normalize c)))
