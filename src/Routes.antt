-- ===== src/Routes.antt =====
-- The routes and which of them need a login (server.go: Handler, withSecurityHeaders). A handler runs
-- for a method and a path as http.ServeMux matches its patterns; that a path is cleaned first, and the
-- replies for an unknown path and a wrong method, are not modelled.
pub mod Guard
pub mod Assets
pub mod Download
use filestor.Base.{
  ℕ, Bool, true, false, ◌&&◌, ◌||◌, not, List, [], ◌∷◌, ◌++◌, Option, none, some, ◌==◌, any, drop,
  length, if◌then◌else◌, Text, codes, text_eq, has_prefix,
}
use filestor.Login.{Admin, require_auth}

pub data Handler : Type 0 where
  healthz login_page login logout root browse bundle download preview static upload_page upload_list
        upload_add upload_delete upload_state upload_analyze upload_push upload_events :
      Handler

-- "/path", "/path/{id}" and "/path/"
pub data Pattern : Type 0 where
  exactly one_below all_below : Text → Pattern

abbrev pub is_segment : Text → Bool
is_segment [] = false
is_segment (c ∷ s) = not (any (λ d. d == b'/') (c ∷ s))

unfoldable pub matches : Pattern → Text → Bool
unfolding has_prefix
matches (exactly p) path = text_eq p path
matches (one_below p) path = has_prefix p path && is_segment (drop (length p) path)
matches (all_below p) path = has_prefix p path

-- a route, and whether requireAuth wraps its handler
pub record Route : Type 0 where
  pub method : Text
  pub pattern_of : Pattern
  pub guarded : Bool
  pub handler : Handler

abbrev pub open_route : Text → Pattern → Handler → Route
open_route m p h = record { method = m; pattern_of = p; guarded = false; handler = h }

abbrev pub guarded_route : Text → Pattern → Handler → Route
guarded_route m p h = record { method = m; pattern_of = p; guarded = true; handler = h }

abbrev pub routes : List Route
routes =
    open_route (codes "GET") (exactly (codes "/healthz")) healthz
    ∷ open_route (codes "GET") (exactly (codes "/login")) login_page
    ∷ open_route (codes "POST") (exactly (codes "/login")) login
    ∷ open_route (codes "POST") (exactly (codes "/logout")) logout
    ∷ open_route (codes "GET") (exactly (codes "/")) root
    ∷ guarded_route (codes "GET") (exactly (codes "/browse")) browse
    ∷ guarded_route (codes "GET") (one_below (codes "/bundle/")) bundle
    ∷ guarded_route (codes "GET") (exactly (codes "/download")) download
    ∷ guarded_route (codes "GET") (exactly (codes "/preview")) preview
    ∷ open_route (codes "GET") (all_below (codes "/static/")) static
    ∷ guarded_route (codes "GET") (exactly (codes "/upload")) upload_page
    ∷ guarded_route (codes "GET") (exactly (codes "/upload/files")) upload_list
    ∷ guarded_route (codes "POST") (exactly (codes "/upload/files")) upload_add
    ∷ guarded_route (codes "DELETE") (exactly (codes "/upload/files")) upload_delete
    ∷ guarded_route (codes "PUT") (exactly (codes "/upload/state")) upload_state
    ∷ guarded_route (codes "POST") (exactly (codes "/upload/analyze")) upload_analyze
    ∷ guarded_route (codes "POST") (exactly (codes "/upload/push")) upload_push
    ∷ guarded_route (codes "GET") (exactly (codes "/upload/events")) upload_events
    ∷ []

-- A pattern for GET takes HEAD, too.
abbrev pub same_method : Text → Text → Bool
same_method m method = text_eq m method || text_eq m (codes "GET") && text_eq method (codes "HEAD")

unfoldable pub route_among : List Route → Text → Text → Option Route
unfolding matches
route_among [] method path = none
route_among (r ∷ rs) method path =
    let rest = route_among rs method path in
    if same_method r.method method && matches r.pattern_of path then some r else rest

pub data Served : Type 0 where
  no_route to_login : Served
  served : Handler → Served

abbrev pub serve_route : Bool → Option Route → Served
serve_route signed_in none = no_route
serve_route signed_in (some r) = if r.guarded && not signed_in then to_login else served r.handler

module _ (sha256 : Text → Text) (hmac : Text → Text → Text) where
  -- Handler, for a request with its cookie
  unfoldable pub handle : Admin → ℕ → Option Text → Text → Text → Served
  unfolding route_among require_auth
  handle a now cookie method path =
      serve_route (require_auth sha256 hmac a now cookie) (route_among routes method path)

abbrev pub join_policies : List Text → Text
join_policies [] = []
join_policies (p ∷ []) = p
join_policies (p ∷ q ∷ ps) = p ++ (codes "; " ++ join_policies (q ∷ ps))

-- the Content-Security-Policy of withSecurityHeaders, on the endpoint of the object store
unfoldable pub content_security_policy : Option Text → Text
unfolding has_prefix
content_security_policy endpoint = join_policies (
    codes "default-src 'none'"
    ∷ codes "script-src 'self'"
    ∷ codes "style-src 'self' 'unsafe-inline'"
    ∷ (codes "img-src 'self' data: https:" ++ plain_http endpoint)
    ∷ (codes "media-src 'self' https:" ++ plain_http endpoint)
    ∷ codes "connect-src 'self'"
    ∷ codes "form-action 'self'"
    ∷ codes "base-uri 'none'"
    ∷ codes "frame-ancestors 'none'"
    ∷ [])
  where
    plain_http : Option Text → Text
    plain_http none = []
    plain_http (some e) = if has_prefix (codes "http://") e then codes " http:" else []
