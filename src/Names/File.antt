-- ===== src/Names/File.antt =====
-- sanitizeWorkspaceName (upload.go). `none` is errInvalidWorkspaceName.
pub mod Accepted
use filestor.Base.{
  ℕ, ◌≡◌, refl, ◌⊎◌, Bool, true, false, not, ◌&&◌, ◌||◌, List, [], ◌∷◌, ◌++◌, map, reverse, Option,
  none, some, arith, ◌==◌, if◌then◌else◌, any, Text, codes, text_eq, has_prefix, trim_right,
  trim_space,
}

-- the characters before the first separator
unfoldable pub until : ℕ → Text → Text
until sep [] = []
until sep (c ∷ s) = if c == sep then [] else c ∷ until sep s

-- what follows the last separator
unfoldable pub after_last : ℕ → Text → Text
unfolding until
after_last sep s = reverse (until sep (reverse s))

abbrev is_empty : Text → Bool
is_empty [] = true
is_empty (c ∷ s) = false

-- path.Base
unfoldable pub base : Text → Text
unfolding after_last trim_right
base s =
    if is_empty s
    then codes "."
    else let last = after_last b'/' (trim_right (λ c. c == b'/') s) in
      if is_empty last then codes "/" else last

-- strings.ReplaceAll(name, "\\", "/")
abbrev pub forward_slash : ℕ → ℕ
forward_slash c = if c == b'\\' then b'/' else c

abbrev pub is_dot_name : Text → Bool
is_dot_name s = is_empty s || text_eq s (codes ".") || text_eq s (codes "..")

abbrev pub is_refused_char : ℕ → Bool
is_refused_char c = c == b'/' || c == b'\\' || c == b':' || c == 0

unfoldable pub sanitize_workspace_name : Text → Option Text
unfolding trim_space base text_eq has_prefix
sanitize_workspace_name name =
    let file = base (map forward_slash (trim_space name)) in
    if is_dot_name file
    then none
    else if any is_refused_char file
    then none
    else if has_prefix (codes ".") file
    then none
    else some file
