-- ===== src/Embed.antt =====
-- The embedding client (embed.go). A vector is the list of its float32 values, which are only carried
-- along. The request and the response as JSON, and what the service answers, are `EmbedService`; the
-- bytes of a file are `read`. The progress reports and the headers are not modelled.
pub mod Aligned
use filestor.Base.{
  ℕ, ◌+◌, ◌-◌, ◌*◌, ◌/◌, ◌%◌, ◌⊎◌, inl, inr, Bool, true, false, ◌&&◌, not, List, [], ◌∷◌, ◌++◌,
  Option, none, some, ltb, ◌==◌, if◌then◌else◌, take, drop, length, Text, codes, has_prefix,
  cut_suffix, trim_space_bytes,
}
use filestor.Convert.Images.{sniff_image_mime}

abbrev pub Vector : Type 0
Vector = List ℕ

pub data Content : Type 0 where
  text_content : Text → Content
  image_content : Text → Content

-- BailianMultimodalEmbeddingConfig, less the URL and the headers
pub record EmbedConfig : Type 0 where
  pub model : Text
  pub dimensions : ℕ

-- embedRequest; the dimension is left out when it is 0
pub record EmbedRequest : Type 0 where
  pub model : Text
  pub contents : List Content
  pub dimension : Option ℕ

-- embedResponse, of which only the vectors, the code and the message are read
pub record EmbedResponse : Type 0 where
  pub embeddings : List Vector
  pub code : Text
  pub message : Text

pub record HttpResponse : Type 0 where
  pub status : ℕ
  pub body : Text

pub record EmbedService : Type 0 where
  pub encode : EmbedRequest → Text
  pub decode : Text → Option EmbedResponse
  pub send : Text → Option HttpResponse

pub data EmbedError : Type 0 where
  request_failed bad_response no_vector unreadable : EmbedError
  http_error : ℕ → Text → EmbedError
  service_error : Text → Text → EmbedError
  wrong_dimension : ℕ → ℕ → EmbedError

abbrev pub max_err_body : ℕ
max_err_body = 256

abbrev pub shortened : Text → Text
shortened msg = if ltb max_err_body (length msg) then take max_err_body msg ++ codes "..." else msg

-- truncateBody
unfoldable pub truncate_body : Text → Text
unfolding trim_space_bytes
truncate_body bytes = shortened (trim_space_bytes bytes)

abbrev pub is_cut : Option Text → Bool
is_cut none = false
is_cut (some s) = true

-- isDigestText
unfoldable pub is_digest_text : Text → Bool
unfolding has_prefix cut_suffix
is_digest_text name = has_prefix (codes "text-") name && is_cut (cut_suffix (codes ".txt") name)

abbrev base64_char : ℕ → ℕ
base64_char i =
    if ltb i 26
    then i + b'A'
    else if ltb i 52
    then i - 26 + b'a'
    else if ltb i 62
    then i - 52 + b'0'
    else if i == 62
    then b'+'
    else b'/'

-- base64.StdEncoding.EncodeToString
unfoldable pub base64_encode : Text → Text
base64_encode [] = []
base64_encode (a ∷ []) = base64_char (a / 4) ∷ base64_char (a % 4 * 16) ∷ b'=' ∷ b'=' ∷ []
base64_encode (a ∷ b ∷ []) =
    base64_char (a / 4) ∷ base64_char (a % 4 * 16 + b / 16) ∷ base64_char (b % 16 * 4) ∷ b'=' ∷ []
base64_encode (a ∷ b ∷ c ∷ s) =
    base64_char (a / 4)
    ∷ base64_char (a % 4 * 16 + b / 16)
    ∷ base64_char (b % 16 * 4 + c / 64)
    ∷ base64_char (c % 64)
    ∷ base64_encode s

-- the format of an image: the type without "image/", or jpeg
abbrev pub format_of : Option Text → Text
format_of none = codes "jpeg"
format_of (some mime) = if has_prefix (codes "image/") mime then drop 6 mime else mime

-- digestImageDataURI, on the bytes of the file
unfoldable pub digest_image_data_uri : Text → Text
unfolding sniff_image_mime base64_encode has_prefix
digest_image_data_uri bytes =
    codes "data:image/"
    ++ (format_of (sniff_image_mime bytes) ++ (codes ";base64," ++ base64_encode bytes))

abbrev pub first_vector : List Vector → EmbedError ⊎ Vector
first_vector [] = inl no_vector
first_vector ([] ∷ vs) = inl no_vector
first_vector ((x ∷ v) ∷ vs) = inr (x ∷ v)

abbrev pub vector_of : Option EmbedResponse → EmbedError ⊎ Vector
vector_of none = inl bad_response
vector_of (some out) = on_code out.code
  where
    on_code : Text → EmbedError ⊎ Vector
    on_code [] = first_vector out.embeddings
    on_code (c ∷ code) = inl (service_error (c ∷ code) out.message)

abbrev pub max_response_bytes : ℕ
max_response_bytes = 16 * 1024 * 1024

abbrev pub embed_request : EmbedConfig → Content → EmbedRequest
embed_request cfg content = record {
  model = cfg.model;
  contents = content ∷ [];
  dimension = if ltb 0 cfg.dimensions then some cfg.dimensions else none;
}

abbrev pub content_of : Text → Option Text → Option Content
content_of name none = none
content_of name (some bytes) = some (
    if is_digest_text name then text_content bytes else image_content (digest_image_data_uri bytes))

abbrev pub add_vector : Vector → EmbedError ⊎ List Vector → EmbedError ⊎ List Vector
add_vector v (inl e) = inl e
add_vector v (inr vs) = inr (v ∷ vs)

-- one round of the loop, with the dimension so far and what comes after
abbrev pub next_vector :
    ℕ → EmbedError ⊎ Vector → (ℕ → EmbedError ⊎ List Vector) → EmbedError ⊎ List Vector
next_vector dim (inl e) rest = inl e
next_vector dim (inr v) rest =
    if dim == 0
    then add_vector v (rest (length v))
    else if not (length v == dim)
    then inl (wrong_dimension (length v) dim)
    else add_vector v (rest dim)

module _ (cfg : EmbedConfig) (svc : EmbedService) where
  abbrev pub on_response : Option HttpResponse → EmbedError ⊎ Vector
  on_response none = inl request_failed
  on_response (some resp) =
      let bytes = take max_response_bytes resp.body in
      if not (resp.status == 200)
      then inl (http_error resp.status (truncate_body bytes))
      else vector_of (svc.decode bytes)

  -- embedContent
  unfoldable pub embed_content : Content → EmbedError ⊎ Vector
  unfolding truncate_body
  embed_content content = on_response (svc.send (svc.encode (embed_request cfg content)))

  -- the vector of one digest file
  abbrev pub embed_item : Option Content → EmbedError ⊎ Vector
  embed_item none = inl unreadable
  embed_item (some content) = embed_content content

  module _ (read : Text → Option Text) where
    abbrev pub item : Text → EmbedError ⊎ Vector
    item name = embed_item (content_of name (read name))

    -- the loop of embedDigest
    unfoldable pub embed_from : ℕ → List Text → EmbedError ⊎ List Vector
    unfolding embed_content is_digest_text digest_image_data_uri
    embed_from dim [] = inr []
    embed_from dim (name ∷ names) = next_vector dim (item name) (λ d. embed_from d names)

    unfoldable pub embed_digest : List Text → EmbedError ⊎ List Vector
    unfolding embed_from
    embed_digest names = embed_from 0 names
