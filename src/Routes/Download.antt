-- ===== src/Routes/Download.antt =====
-- Downloads and previews (server.go: handleDownload, handlePreview; s3.go: SignGetURL, SignPreviewURL,
-- signGet, attachmentDisposition). A key is the list of the bytes of a text in UTF-8; the presigner of
-- the SDK is a parameter. The reply when there is no object store is not modelled.
pub mod Safe
use filestor.Base.{
  ℕ, ◌+◌, ◌*◌, ◌/◌, ◌%◌, Bool, true, false, ◌&&◌, ◌||◌, not, List, [], ◌∷◌, ◌++◌, Option, none,
  some, ltb, ◌==◌, within, any, if◌then◌else◌, Text, codes, text_eq, trim_space_bytes,
}
use filestor.Names.File.{base}

-- the characters that a file name in a header must not have
abbrev pub is_dropped : ℕ → Bool
is_dropped c = c == 0 || c == b'"' || c == b'\\' || c == b'\r' || c == b'\n'

-- strings.Map with that test
abbrev pub kept_chars : Text → Text
kept_chars [] = []
kept_chars (c ∷ s) = if is_dropped c then kept_chars s else c ∷ kept_chars s

abbrev upper_hex : ℕ → ℕ
upper_hex n = if ltb n 10 then n + b'0' else n + 55

abbrev pub is_path_char : ℕ → Bool
is_path_char c =
    within b'A' b'Z' c
    || within b'a' b'z' c
    || within b'0' b'9' c
    || any (λ d. d == c) (codes "-_.~$&+=:@")

abbrev pub path_char : ℕ → Text
path_char c = if is_path_char c then c ∷ [] else b'%' ∷ upper_hex (c / 16) ∷ upper_hex (c % 16) ∷ []

-- url.PathEscape
unfoldable pub path_escape : Text → Text
path_escape [] = []
path_escape (c ∷ s) = path_char c ++ path_escape s

abbrev pub is_nothing : Text → Bool
is_nothing [] = true
is_nothing (c ∷ s) = false

abbrev pub attachment_name : Text → Text
attachment_name key =
    let name = kept_chars (base key) in
    if is_nothing name || text_eq name (codes ".") || text_eq name (codes "/")
    then codes "download"
    else name

-- attachmentDisposition
unfoldable pub attachment_disposition : Text → Text
unfolding base path_escape
attachment_disposition key =
    let name = attachment_name key in
    codes "attachment; filename=\"" ++ (name ++ (codes "\"; filename*=UTF-8''" ++ path_escape name))

-- What PresignGetObject is asked for; the time in seconds.
pub record SignInput : Type 0 where
  pub key : Text
  pub ttl : ℕ
  pub disposition : Option Text

abbrev pub sign_url_ttl : ℕ
sign_url_ttl = 5 * 60

abbrev pub disposition_of : Text → Option Text
disposition_of [] = none
disposition_of (c ∷ s) = some (c ∷ s)

-- signGet
abbrev pub sign_get : Text → ℕ → Text → SignInput
sign_get key ttl disposition = record {
  key = key;
  ttl = if ltb 0 ttl then ttl else sign_url_ttl;
  disposition = disposition_of disposition;
}

-- SignGetURL and SignPreviewURL
abbrev pub sign_get_url : Text → ℕ → SignInput
sign_get_url key ttl = sign_get key ttl (attachment_disposition key)

abbrev pub sign_preview_url : Text → ℕ → SignInput
sign_preview_url key ttl = sign_get key ttl []

pub data Reply : Type 0 where
  missing_key invalid_key sign_failed : Reply
  redirect : Text → Reply

abbrev pub has_control : Text → Bool
has_control key = any (λ c. c == 0) key || any (λ c. c == b'\r' || c == b'\n') key

abbrev pub signed_reply : Option Text → Reply
signed_reply none = sign_failed
signed_reply (some url) = redirect url

module _ (presign : SignInput → Option Text) where
  -- the checks of the key, and the URL that `input` asks for
  abbrev pub checked_key : (Text → SignInput) → Text → Reply
  checked_key input key =
      if is_nothing key
      then missing_key
      else if has_control key
      then invalid_key
      else signed_reply (presign (input key))

  unfoldable pub handle_download : Text → Reply
  unfolding trim_space_bytes attachment_disposition
  handle_download query_key =
      checked_key (λ k. sign_get_url k sign_url_ttl) (trim_space_bytes query_key)

  unfoldable pub handle_preview : Text → Reply
  unfolding trim_space_bytes
  handle_preview query_key =
      checked_key (λ k. sign_preview_url k sign_url_ttl) (trim_space_bytes query_key)
