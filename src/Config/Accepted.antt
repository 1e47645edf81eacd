-- ===== src/Config/Accepted.antt =====
-- What a configuration that passes the checks has (config.go).
use filestor.Base.{◌≡◌, refl, Bool, true, false, not, ◌&&◌, ◌||◌, List, [], ◌∷◌, none, Text, arith}
use filestor.Config.{Config, is_blank, is_http, checks, first_failure, validate, normalize}

none_fails : List (Bool × Text) → Bool
none_fails [] = true
none_fails ((fails, field) ∷ rest) = not fails && none_fails rest

first_failure-none_fails : (l : List (Bool × Text)) → first_failure l ≡ none → none_fails l ≡ true
unfolding first_failure none_fails
first_failure-none_fails [] h = refl
first_failure-none_fails ((fails, field) ∷ rest) h = ground (arith, first_failure-none_fails rest)

-- The required fields of the services are there, and their URLs name a protocol.
pub record IsUsable (endpoint_ok : Text → Bool) (c : Config) : Type 0 where
  pub username : is_blank c.admin.username ≡ false
  pub password : is_blank c.admin.password ≡ false
  pub s3_endpoint : is_blank c.s3.endpoint ≡ false
  pub s3_bucket : is_blank c.s3.bucket ≡ false
  pub s3_keys : (is_blank c.s3.access_key_id || is_blank c.s3.secret_access_key) ≡ false
  pub chat_url : is_http c.chat.url ≡ true
  pub chat_model : is_blank c.chat.model ≡ false
  pub embeddings_url : is_http c.embeddings.url ≡ true
  pub embeddings_model : is_blank c.embeddings.model ≡ false
  pub vectors_url : is_http c.vectors.url ≡ true
  pub vectors_endpoint : endpoint_ok c.vectors.url ≡ true
  pub vectors_index : is_blank c.vectors.index ≡ false

checks-IsUsable :
    (endpoint_ok : Text → Bool) (c : Config)
    → none_fails (checks endpoint_ok c) ≡ true
    → IsUsable endpoint_ok c
unfolding none_fails
checks-IsUsable endpoint_ok c h = ground arith

-- A configuration that passes validate has, as validate leaves it, a user name, a password, an
-- endpoint, a bucket and keys of the object store, a model for the chat and the embeddings, an
-- index for the vectors, and URLs of the three services that start with http:// or https://, the
-- last of which parseVectorsEndpoint accepts.
pub validate-IsUsable :
    (endpoint_ok : Text → Bool) (c : Config)
    → (validate endpoint_ok c).1 ≡ none
    → IsUsable endpoint_ok (validate endpoint_ok c).0
unfolding validate
validate-IsUsable endpoint_ok c h =
    checks-IsUsable endpoint_ok (normalize c)
      (first_failure-none_fails (checks endpoint_ok (normalize c)) h)
