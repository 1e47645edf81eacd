-- ===== src/Login/Sessions.antt =====
-- Who is let through, and how long (auth.go; server.go: handleLogin).
use filestor.Base.{
  ℕ, ◌+◌, ◌^◌, ◌≡◌, ◌<◌, refl, subst, ap, inl, inr, true, false, [], ◌∷◌, ◌++◌, all, Option, none,
  some, some_injective, ltb, ltb→lt, Bool-cases, Text, text_eq_self, text_eq_iff, decimal, arith,
}
use filestor.Bundle.{hex}
use filestor.Login.{
  Admin, session_cookie_ttl, session_key, check_login, sign_session_cookie, mac_of, same_mac,
  is_live, verify_parts, verify_session_cookie, handle_login, require_auth, parse_int, decode_hex,
  cut, is_blank,
}
use filestor.Login.Numbers.{
  decode_hex-hex, parse_int-decimal, decimal-not_blank, cut-decimal, cut-append,
}

-- Bytes, and one at least: what an HMAC gives.
abbrev pub IsMac : Text → Type 0
IsMac bytes = (is_blank bytes ≡ false) × (all (λ b. ltb b 256) bytes ≡ true)

hex-not_blank : (bytes : Text) → is_blank bytes ≡ false → is_blank (hex bytes) ≡ false
unfolding hex
hex-not_blank [] h = cc
hex-not_blank (b ∷ bytes) h = refl

blank_append : (s t : Text) → is_blank s ≡ false → is_blank (s ++ t) ≡ false
blank_append [] t h = cc
blank_append (c ∷ s) t h = refl

-- What lets a cookie through: a time that is not over, and the MAC of the user and that time.
pub record IsSigned (hmac : Text → Text → Text) (key username value : Text) (now : ℕ) : Type 0 where
  pub exp_text : Text
  pub mac_text : Text
  pub exp : ℕ
  pub parts : value ≡ exp_text ++ (b'|' ∷ mac_text)
  pub reads : parse_int exp_text ≡ some exp
  pub live : now < exp
  pub signed : decode_hex mac_text ≡ some (hmac key (username ++ (b'|' ∷ exp_text)))

is_live-inv :
    (sha256 : Text → Text) (hmac : Text → Text → Text) (now : ℕ) (o : Option ℕ)
    → is_live sha256 hmac now o ≡ true
    → (exp : ℕ) × (o ≡ some exp) × (now < exp)
is_live-inv sha256 hmac now none h = cc
is_live-inv sha256 hmac now (some exp) h = (exp, refl, ltb→lt now exp h)

same_mac-inv :
    (sha256 : Text → Text) (hmac : Text → Text → Text) (want : Text) (o : Option Text)
    → same_mac sha256 hmac want o ≡ true
    → o ≡ some want
same_mac-inv sha256 hmac want none h = cc
same_mac-inv sha256 hmac want (some got) h = ap some ((text_eq_iff got want).0 h)

module _ (sha256 : Text → Text) (hmac : Text → Text → Text) where
  verify-sign :
      (key username : Text) (exp now : ℕ)
      → IsMac (hmac key (username ++ (b'|' ∷ decimal exp)))
      → exp < 2 ^ 63
      → verify_session_cookie sha256 hmac key username
          (sign_session_cookie sha256 hmac key username exp)
          now
        ≡ ltb now exp
  unfolding verify_session_cookie sign_session_cookie
  verify-sign key username exp now (some_byte, bytes) fits =
      let mac = hmac key (username ++ (b'|' ∷ decimal exp)) in
      rw
        (
          cut-decimal exp (hex mac),
          decimal-not_blank exp,
          hex-not_blank mac some_byte,
          parse_int-decimal exp fits,
          decode_hex-hex mac bytes,
          text_eq_self mac,
        )
        (ground arith)

  -- When every HMAC is bytes, one at least, and the end of the session is a time of 64 bits: the
  -- cookie that a login gives is let through by requireAuth for twelve hours from the login, and
  -- not after.
  pub require_auth-handle_login :
      (a : Admin) (user pass cookie : Text) (now later : ℕ)
      → ((key text : Text) → IsMac (hmac key text))
      → now + session_cookie_ttl < 2 ^ 63
      → handle_login sha256 hmac a now user pass ≡ some cookie
      → require_auth sha256 hmac a later (some cookie) ≡ ltb later (now + session_cookie_ttl)
  unfolding handle_login require_auth sign_session_cookie
  require_auth-handle_login a user pass cookie now later macs fits h =
      let key = session_key sha256 hmac a in
      let exp = now + session_cookie_ttl in
      elim (Bool-cases (check_login sha256 hmac a user pass)) [
        | inr e ↦ cc (rw e at h)
        | inl e ↦
            subst
              (λ c.
                require_auth sha256 hmac a later (some c) ≡ ltb later (now + session_cookie_ttl))
              (some_injective (rw e at h))
              (rw
                (
                  blank_append (decimal exp)
                      (b'|' ∷ hex (mac_of sha256 hmac key a.username (decimal exp)))
                      (decimal-not_blank exp),
                  verify-sign key a.username exp later
                      (macs key (a.username ++ (b'|' ∷ decimal exp))) fits,
                )
                refl)
      ]

  -- Whatever cookie requireAuth lets through is a time that is not over and the HMAC, under the
  -- session's key, of the configured user name and the text of that time.
  pub require_auth-IsSigned :
      (a : Admin) (cookie : Text) (now : ℕ)
      → require_auth sha256 hmac a now (some cookie) ≡ true
      → IsSigned hmac (session_key sha256 hmac a) a.username cookie now
  unfolding require_auth verify_session_cookie
  require_auth-IsSigned a cookie now h = parts-IsSigned (cut b'|' cookie) refl (ground arith)
    where
      key : Text
      key = session_key sha256 hmac a

      parts-IsSigned :
          (p : Option (Text × Text))
          → cut b'|' cookie ≡ p
          → verify_parts sha256 hmac key a.username now p ≡ true
          → IsSigned hmac key a.username cookie now
      parts-IsSigned none e k = cc
      parts-IsSigned (some (exp, mac)) e k =
          let live_now : is_live sha256 hmac now (parse_int exp) ≡ true = ground arith in
          let same : same_mac sha256 hmac (mac_of sha256 hmac key a.username exp) (decode_hex mac)
              ≡ true =
            ground arith in
          let (n, reads, live) = is_live-inv sha256 hmac now (parse_int exp) live_now in
          record {
            exp_text = exp;
            mac_text = mac;
            exp = n;
            parts = cut-append b'|' cookie e;
            reads = reads;
            live = live;
            signed =
                same_mac-inv sha256 hmac (mac_of sha256 hmac key a.username exp) (decode_hex mac)
                  same;
          }
