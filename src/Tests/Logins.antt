-- ===== src/Tests/Logins.antt =====
-- A login (auth.go; server.go: handleLogin), with stand-ins for SHA-256 and HMAC.
use filestor.Base.{◌+◌, ◌≡◌, refl, true, [], ◌∷◌, none, some, ltb, Text, codes, text_eq, arith}
use filestor.Bundle.{hex}
use filestor.Login.{Admin, session_cookie_ttl, handle_login, require_auth}
use filestor.Login.Sessions.{require_auth-handle_login}

abbrev plain : Text → Text
plain text = text

abbrev one_byte : Text → Text → Text
one_byte key text = 171 ∷ []

abbrev admin : Admin
admin = record { username = codes "ann"; password = codes "secret" }

abbrev cookie : Text
cookie = codes "43201|ab"

handle_login_test : handle_login plain one_byte admin 1 (codes "ann") (codes "secret") ≡ some cookie
unfolding handle_login text_eq filestor.Bundle.hex_digit
handle_login_test = refl

handle_login_refused : handle_login plain one_byte admin 1 (codes "ann") (codes "secret2") ≡ none
unfolding handle_login text_eq
handle_login_refused = refl

require_auth-handle_login_example :
    require_auth plain one_byte admin 7 (some cookie) ≡ ltb 7 (1 + session_cookie_ttl)
require_auth-handle_login_example =
    require_auth-handle_login plain one_byte admin (codes "ann") (codes "secret") cookie 1 7
      (λ k t. (refl, refl)) (omega arith) handle_login_test

let_through : require_auth plain one_byte admin 7 (some (codes "+9|AB")) ≡ true
unfolding require_auth text_eq
let_through = refl
