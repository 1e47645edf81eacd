-- ===== src/Routes/Guard.antt =====
-- Which handlers run without a login (server.go: Handler; auth.go: requireAuth).
use filestor.Base.{
  ℕ, ◌≡◌, subst, inl, inr, Bool, true, false, ◌&&◌, ◌||◌, List, [], ◌∷◌, Option, none, some, All,
  Text, arith, Bool-cases,
}
use filestor.Login.{Admin, session_key, require_auth}
use filestor.Login.Sessions.{IsSigned, require_auth-IsSigned}
use filestor.Routes.{
  Handler, healthz, login_page, login, logout, root, static, Route, routes, same_method, matches,
  route_among, Served, served, serve_route, handle,
}

-- the handlers for everyone
abbrev pub is_public : Handler → Bool
is_public healthz = true
is_public login_page = true
is_public login = true
is_public logout = true
is_public root = true
is_public static = true
is_public _ = false

abbrev Marked : Route → Type 0
Marked r = (r.guarded || is_public r.handler) ≡ true

routes-Marked : All Marked routes
routes-Marked = ground arith

abbrev MarkedSome : Option Route → Type 0
MarkedSome none = Unit
MarkedSome (some r) = Marked r

route_among-Marked :
    (rs : List Route) (method path : Text) → All Marked rs → MarkedSome (route_among rs method path)
unfolding route_among
route_among-Marked [] method path h = tt
route_among-Marked (r ∷ rs) method path (m, h) =
    elim (Bool-cases (same_method r.method method && matches r.pattern_of path)) [
      | inl e ↦ rw e m
      | inr e ↦ rw e (route_among-Marked rs method path h)
    ]

-- what reaches a handler is signed in, but for the public ones
abbrev Reached : Bool → Served → Type 0
Reached signed_in (served h) = (is_public h || signed_in) ≡ true
Reached signed_in _ = Unit

serve_route-Reached : (b : Bool) (o : Option Route) → MarkedSome o → Reached b (serve_route b o)
serve_route-Reached b none m = tt
serve_route-Reached b (some r) m = by_guard b r.guarded m
  where
    by_guard :
        (b g : Bool)
        → (g || is_public r.handler) ≡ true
        → Reached b (serve_route b (some (record r { guarded = g })))
    by_guard true true k = ground arith
    by_guard true false k = ground arith
    by_guard false true k = tt
    by_guard false false k = ground arith

module _ (sha256 : Text → Text) (hmac : Text → Text → Text) where
  -- a cookie that a login gave
  abbrev pub HasSession : Admin → ℕ → Option Text → Type 0
  HasSession a now none = ⊥
  HasSession a now (some cookie) = IsSigned hmac (session_key sha256 hmac a) a.username cookie now

  has_session :
      (a : Admin) (now : ℕ) (cookie : Option Text)
      → require_auth sha256 hmac a now cookie ≡ true
      → HasSession a now cookie
  unfolding require_auth
  has_session a now none e = cc
  has_session a now (some cookie) e = require_auth-IsSigned sha256 hmac a cookie now e

  -- Whatever request reaches a handler other than the login, the logout, the root, the health
  -- check and the static files has a cookie that is a time that is not over and the HMAC, under
  -- the session's key, of the configured user name and the text of that time.
  pub handle-HasSession :
      (a : Admin) (now : ℕ) (cookie : Option Text) (method path : Text) (h : Handler)
      → handle sha256 hmac a now cookie method path ≡ served h
      → is_public h ≡ false
      → HasSession a now cookie
  unfolding handle
  handle-HasSession a now cookie method path h e private =
      let b = require_auth sha256 hmac a now cookie in
      let reached : Reached b (served h) = subst (Reached b) e (
        serve_route-Reached b (route_among routes method path)
          (route_among-Marked routes method path routes-Marked)) in
      has_session a now cookie (ground (arith, reached, private))
