-- ===== src/Tests/Pages.antt =====
-- Runs of the bundle page, the routes and the downloads.
use filestor.Base.{
  ℕ, ◌<◌, ◌≡◌, refl, sym, ap, subst, some_injective, append-nil, trim_space_bytes, ◌∙◌, ◌⊎◌, inl,
  inr, Bool, true, false, List, [], ◌∷◌, ◌++◌, Option, none, some, length, Text, codes, arith,
  to_lower, text_eq, if◌then◌else◌,
}
use filestor.Bundle.{BundleMeta}
use filestor.Index.{BundleIndex}
use filestor.Clock.{Time}
use filestor.Login.{Admin}
use filestor.Detail.{
  last_key, Reply, Object, Page, ObjectStore, not_found, DetailData, handle_bundle, rendered,
  refused, list_failed, format_size, entry_name, query_escape,
}
use filestor.Detail.Complete.{IsNext, ListsObjects}
use filestor.Detail.Rows.{IsDetail, shown_prefix, handle_bundle-IsDetail}
use filestor.Routes.{handle, served, to_login, bundle, healthz, content_security_policy}
use filestor.Routes.Guard.{HasSession, handle-HasSession}
use filestor.Routes.Download.{
  SignInput, sign_url_ttl, sign_get_url, sign_preview_url, attachment_disposition, handle_download,
  handle_preview,
}
use filestor.Routes.Download.Safe.{Answered, IsAttachment, handle_download-IsAttachment}
use filestor.Store.Objects.Lists.{behind, IsAnswer, ListsRaw, s3_store-ListsObjects}
use filestor.Workspace.Listing.{text_lt}
use filestor.Store.Objects.{
  RawPage, GetAnswer, get_object, page_objects, s3_store, get_of, get_failed, api_error,
}

sizes_test : format_size 1536 ≡ codes "1.5 KB"
unfolding format_size
sizes_test = refl

tie_test : format_size 1049 ≡ codes "1.0 KB"
unfolding format_size
tie_test = refl

entry_test : entry_name (codes "content/a/.digest/") (codes "content/a/") ≡ codes ".digest"
unfolding entry_name
entry_test = refl

escape_key_test : query_escape (codes "a b/c") ≡ codes "a+b%2Fc"
unfolding query_escape
escape_key_test = refl

get_test : get_of (get_failed (api_error (codes "NotFound"))) ≡ not_found
unfolding get_of text_eq
get_test = refl

abbrev bundle_id : Text
bundle_id = codes "11111111-1111-4111-8111-111111111111"

abbrev bundle_meta : BundleMeta
bundle_meta = record { id = bundle_id; title = codes "t"; time = codes "2024-01-02T03:04" }

abbrev index : BundleIndex
index = record { months = []; broken = []; by_id = (bundle_id, bundle_meta) ∷ [] }

abbrev in_bundle : Text → ℕ → Object
in_bundle name size = record {
  key = codes "content/11/11/11111111-1111-4111-8111-111111111111/" ++ name;
  size = size;
  modified = [];
}

abbrev meta_object : Object
meta_object = in_bundle (codes ".meta.json") 70

abbrev photo : Object
photo = in_bundle (codes "a.jpg") 2048

abbrev held : List Object
held = meta_object ∷ photo ∷ []

abbrev page : List Object → Bool → Page
page objects truncated = record { objects = objects; is_truncated = truncated }

-- one object on each page
abbrev from_marker : Text → Option Page
from_marker marker =
    if text_eq marker []
    then some (page (meta_object ∷ []) true)
    else if text_eq marker meta_object.key
    then some (page (photo ∷ []) false)
    else some (page [] false)

abbrev store : ObjectStore
store = record { get_object = λ k. not_found; list = λ prefix marker. from_marker marker }

abbrev no_decode : Text → Option BundleMeta
no_decode s = none

held-IsNext :
    (seen left : List Object) (p : Page)
    → held ≡ seen ++ left
    → from_marker (last_key [] seen) ≡ some p
    → IsNext left p
unfolding text_eq
held-IsNext [] left p e q =
    subst (IsNext left) (some_injective q) (record {
      rest = photo ∷ [];
      next_objects = sym e;
      at_end = λ h. cc;
      some_object = λ h. refl;
    })
held-IsNext (x ∷ []) left p e q =
    let first : meta_object ≡ x = cc in
    let second : photo ∷ [] ≡ left = cc in
    subst (IsNext left) (some_injective (ap (λ o. from_marker o.key) first ∙ q))
      (record { rest = []; next_objects = sym second; at_end = λ h. refl; some_object = λ h. cc })
held-IsNext (x ∷ y ∷ []) left p e q =
    let second : photo ≡ y = cc in
    let over : [] ≡ left = cc in
    subst (IsNext left) (some_injective (ap (λ o. from_marker o.key) second ∙ q))
      (record { rest = []; next_objects = sym over; at_end = λ h. refl; some_object = λ h. cc })
held-IsNext (x ∷ y ∷ z ∷ zs) left p e q = cc

store-ListsObjects : ListsObjects held (store.list (shown_prefix bundle_id))
store-ListsObjects = record { pages = held-IsNext }

handle_bundle-IsDetail_example :
    ((d : DetailData) × (handle_bundle no_decode 3 (some store) index bundle_id ≡ rendered d)
      × IsDetail (shown_prefix bundle_id) held d)
    ⊎ ((m : Text) × (from_marker m ≡ none)
        × (handle_bundle no_decode 3 (some store) index bundle_id ≡ refused list_failed))
unfolding filestor.Bundle.is_uuid_v4 to_lower filestor.Index.get filestor.Clock.parse_time
    filestor.Bundle.is_hex filestor.Base.lookup text_eq filestor.Clock.read_day
    filestor.Clock.read_month filestor.Clock.year_number filestor.Clock.skip
    filestor.Clock.two_number filestor.Clock.one_or_two_number filestor.Clock.days_in
handle_bundle-IsDetail_example =
    handle_bundle-IsDetail no_decode store index bundle_id bundle_meta
      (record { year = 2024; month = 1; day = 2; hour = 3; minute = 4 }) held 3 refl refl refl
      store-ListsObjects (omega arith)

abbrev counted : Reply → ℕ × Text
counted (rendered d) = (d.file_count, d.total_size)
counted _ = (0, [])

bundle_test : counted (handle_bundle no_decode 3 (some store) index bundle_id) ≡ (1, codes "2.0 KB")
unfolding handle_bundle filestor.Bundle.is_hex filestor.Base.lookup filestor.Clock.read_day
    filestor.Clock.read_month filestor.Clock.year_number filestor.Clock.skip
    filestor.Clock.two_number filestor.Clock.one_or_two_number filestor.Clock.days_in
bundle_test = refl

abbrev admin : Admin
admin = record { username = codes "u"; password = codes "p" }

abbrev digest_of : Text → Text
digest_of s = length s ∷ []

abbrev mac_of : Text → Text → Text
mac_of key s = 65 ∷ []

-- a cookie that ends at 100
abbrev cookie : Text
cookie = codes "100|41"

handle_test :
    handle digest_of mac_of admin 5 (some cookie) (codes "GET") (codes "/bundle/x") ≡ served bundle
unfolding handle text_eq
handle_test = refl

no_cookie_test : handle digest_of mac_of admin 5 none (codes "GET") (codes "/browse") ≡ to_login
unfolding handle text_eq
no_cookie_test = refl

public_test :
    handle digest_of mac_of admin 5 none (codes "HEAD") (codes "/healthz") ≡ served healthz
unfolding handle text_eq
public_test = refl

handle-HasSession_example : HasSession digest_of mac_of admin 5 (some cookie)
handle-HasSession_example =
    handle-HasSession digest_of mac_of admin 5 (some cookie) (codes "GET") (codes "/bundle/x")
      bundle handle_test refl

csp_test : content_security_policy none ≡ content_security_policy (some (codes "https://s3"))
unfolding content_security_policy
csp_test = refl

abbrev presign : SignInput → Option Text
presign i = some i.key

disposition_test :
    attachment_disposition (codes "dir/\"q\".txt")
    ≡ codes "attachment; filename=\"q.txt\"; filename*=UTF-8''q.txt"
unfolding attachment_disposition text_eq
disposition_test = refl

handle_download-IsAttachment_example :
    Answered presign
      (codes " a/b.txt")
      (λ k. sign_get_url k sign_url_ttl)
      (handle_download presign (codes " a/b.txt"))
    × Answered presign
        (codes " a/b.txt")
        (λ k. sign_preview_url k sign_url_ttl)
        (handle_preview presign (codes " a/b.txt"))
    × IsAttachment (sign_get_url (codes "a/b.txt") sign_url_ttl).disposition
unfolding trim_space_bytes
handle_download-IsAttachment_example = handle_download-IsAttachment presign (codes " a/b.txt")

abbrev below : Text
below = codes "content/11/11/11111111-1111-4111-8111-111111111111/"

-- with an object for the prefix itself
abbrev raw : List Object
raw = in_bundle [] 0 ∷ held

abbrev sdk_list : Text → Text → Option RawPage
sdk_list prefix marker = some (behind marker raw, false)

abbrev sdk_get : Text → GetAnswer
sdk_get key = get_object none (some [])

sdk-ListsRaw : ListsRaw raw below (sdk_list below)
unfolding text_lt
sdk-ListsRaw = record {
  in_order = ((refl, (refl, tt)), ((refl, tt), (tt, tt)));
  answers = λ marker contents truncated q.
      subst (λ r. IsAnswer raw below marker r.0 r.1) (some_injective q)
        (record {
          rest = [];
          next_objects = sym (append-nil (behind marker raw));
          at_end = λ h. refl;
          some_object = λ h. cc;
        });
}

s3_store-ListsObjects_example :
    ListsObjects (page_objects below raw) ((s3_store sdk_list sdk_get).list below)
s3_store-ListsObjects_example = s3_store-ListsObjects below raw sdk_list sdk_get sdk-ListsRaw

objects_test : page_objects below raw ≡ held
unfolding page_objects text_eq
objects_test = refl
