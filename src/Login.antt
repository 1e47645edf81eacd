-- ===== src/Login.antt =====
-- The login and its session cookie (auth.go; server.go: handleLogin, handleLogout). SHA-256 and its
-- HMAC are parameters, as functions on lists of bytes. A time is in seconds after 1970. The delay
-- after a failed login, the other attributes of the cookie and the pages are not modelled.
pub mod Numbers
pub mod Sessions
use filestor.Base.{
  ℕ, zero, suc, ◌+◌, ◌-◌, ◌*◌, ◌^◌, ◌≡◌, Bool, true, false, ◌&&◌, ◌||◌, not, List, [], ◌∷◌, ◌++◌,
  Option, none, some, ltb, ◌==◌, within, if◌then◌else◌, Text, codes, text_eq, decimal,
}
use filestor.Bundle.{hex}

abbrev pub session_cookie_ttl : ℕ
session_cookie_ttl = 12 * 60 * 60

-- a number in decimal digits alone
abbrev pub digits_after : ℕ → Text → Option ℕ
digits_after n [] = some n
digits_after n (c ∷ s) =
    let rest = digits_after (n * 10 + (c - b'0')) s in if within b'0' b'9' c then rest else none

abbrev pub within_int64 : Option ℕ → Option ℕ
within_int64 none = none
within_int64 (some n) = if ltb n (2 ^ 63) then some n else none

abbrev pub unsigned : Text → Option ℕ
unsigned [] = none
unsigned (c ∷ s) = within_int64 (digits_after 0 (c ∷ s))

-- strconv.ParseInt(s, 10, 64); none for a number below zero, too, whose session has expired
unfoldable pub parse_int : Text → Option ℕ
parse_int [] = none
parse_int (c ∷ s) = if c == b'+' then unsigned s else unsigned (c ∷ s)

abbrev pub nibble : ℕ → Option ℕ
nibble c =
    if within b'0' b'9' c
    then some (c - b'0')
    else if within b'a' b'f' c
    then some (c - 87)
    else if within b'A' b'F' c
    then some (c - 55)
    else none

abbrev pub add_byte : Option ℕ → Option ℕ → Option Text → Option Text
add_byte (some h) (some l) (some bs) = some ((h * 16 + l) ∷ bs)
add_byte _ _ _ = none

-- hex.DecodeString
unfoldable pub decode_hex : Text → Option Text
decode_hex [] = some []
decode_hex (c ∷ []) = none
decode_hex (c ∷ d ∷ s) = add_byte (nibble c) (nibble d) (decode_hex s)

abbrev pub before : ℕ → Option (Text × Text) → Option (Text × Text)
before c none = none
before c (some (s, t)) = some (c ∷ s, t)

-- strings.Cut
unfoldable pub cut : ℕ → Text → Option (Text × Text)
cut sep [] = none
cut sep (c ∷ s) = let rest = cut sep s in if c == sep then some ([], s) else before c rest

abbrev pub is_blank : Text → Bool
is_blank [] = true
is_blank (c ∷ s) = false

-- AdminConfig
pub record Admin : Type 0 where
  pub username : Text
  pub password : Text

module _ (sha256 : Text → Text) (hmac : Text → Text → Text) where
  -- sessionCookieKey
  abbrev pub session_cookie_key : Text → Text → Text
  session_cookie_key username password =
      sha256 (codes "filestor" ++ (10 ∷ (username ++ (10 ∷ password))))

  -- constEqSHA256
  abbrev pub const_eq_sha256 : Text → Text → Bool
  const_eq_sha256 a b = text_eq (sha256 a) (sha256 b)

  abbrev pub mac_of : Text → Text → Text → Text
  mac_of key username exp = hmac key (username ++ (b'|' ∷ exp))

  -- signSessionCookie
  unfoldable pub sign_session_cookie : Text → Text → ℕ → Text
  unfolding decimal hex
  sign_session_cookie key username exp =
      let text = decimal exp in text ++ (b'|' ∷ hex (mac_of key username text))

  abbrev pub same_mac : Text → Option Text → Bool
  same_mac want none = false
  same_mac want (some got) = text_eq got want

  abbrev pub is_live : ℕ → Option ℕ → Bool
  is_live now none = false
  is_live now (some exp) = ltb now exp

  abbrev pub verify_parts : Text → Text → ℕ → Option (Text × Text) → Bool
  verify_parts key username now none = false
  verify_parts key username now (some (exp, mac)) =
      not (is_blank exp)
      && (not (is_blank mac)
          && (is_live now (parse_int exp) && same_mac (mac_of key username exp) (decode_hex mac)))

  -- verifySessionCookie
  unfoldable pub verify_session_cookie : Text → Text → Text → ℕ → Bool
  unfolding cut parse_int decode_hex
  verify_session_cookie key username value now = verify_parts key username now (cut b'|' value)

  -- the key that NewServer makes
  abbrev pub session_key : Admin → Text
  session_key a = session_cookie_key a.username a.password

  -- checkLogin
  abbrev pub check_login : Admin → Text → Text → Bool
  check_login a user pass = const_eq_sha256 user a.username && const_eq_sha256 pass a.password

  -- setSessionCookie: the value
  abbrev pub set_session_cookie : Admin → ℕ → Text
  set_session_cookie a now =
      sign_session_cookie (session_key a) a.username (now + session_cookie_ttl)

  -- handleLogin of a form: the cookie that it sets, or none for 401
  unfoldable pub handle_login : Admin → ℕ → Text → Text → Option Text
  unfolding sign_session_cookie
  handle_login a now user pass =
      if check_login a user pass then some (set_session_cookie a now) else none

  -- sessionCookieValid, and requireAuth: whether the request goes on
  abbrev pub session_cookie_valid : Admin → ℕ → Option Text → Bool
  session_cookie_valid a now none = false
  session_cookie_valid a now (some value) =
      not (is_blank value) && verify_session_cookie (session_key a) a.username value now

  unfoldable pub require_auth : Admin → ℕ → Option Text → Bool
  unfolding verify_session_cookie
  require_auth a now cookie = session_cookie_valid a now cookie
