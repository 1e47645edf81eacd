-- ===== src/Names/File/Accepted.antt =====
-- The names that sanitizeWorkspaceName accepts (upload.go).
use filestor.Base.{
  ℕ, ◌≡◌, refl, ap, subst, ◌∙◌, inl, inr, true, false, not, [], ◌∷◌, map, reverse, reverse-reverse,
  all-reverse, trim_right_id, Ends-all, none, some, arith, ◌==◌, if◌then◌else◌, any, all,
  Bool-cases, some_injective, Text, codes, text_eq, has_prefix, trim_right, trim_space,
}
use filestor.Names.File.{
  until, after_last, base, forward_slash, is_empty, is_dot_name, is_refused_char,
  sanitize_workspace_name,
}

-- A name of one file in the staging directory: not empty, no dot first, and no '/', '\', ':' or NUL.
pub record IsFileName (t : Text) : Type 0 where
  pub not_empty : is_empty t ≡ false
  pub not_hidden : has_prefix (codes ".") t ≡ false
  pub one_part : any is_refused_char t ≡ false

-- Every name that sanitizeWorkspaceName accepts is a name of one file: not empty, without a dot
-- first, and without '/', '\', ':' or NUL.
pub sanitize_workspace_name-IsFileName :
    (name : Text) {t : Text} → sanitize_workspace_name name ≡ some t → IsFileName t
unfolding sanitize_workspace_name
sanitize_workspace_name-IsFileName name h = checked (base (map forward_slash (trim_space name))) h
  where
    checked :
        (file : Text) {t : Text}
        → (if is_dot_name file
            then none
            else if any is_refused_char file
            then none
            else if has_prefix (codes ".") file
            then none
            else some file)
          ≡ some t
        → IsFileName t
    checked file e = elim (Bool-cases (is_dot_name file)) [
      | inl a ↦ cc (rw a at e)
      | inr a ↦ elim (Bool-cases (any is_refused_char file)) [
        | inl b ↦ cc (rw (a, b) at e)
        | inr b ↦ elim (Bool-cases (has_prefix (codes ".") file)) [
          | inl c ↦ cc (rw (a, b, c) at e)
          | inr c ↦
              subst IsFileName (some_injective (rw (a, b, c) at e))
                (record { not_empty = ground (arith, a); not_hidden = c; one_part = b })
        ]
      ]
    ]

-- Without a separator, path.Base and the change of slashes leave a name as it is.
no_slash : (t : Text) → any is_refused_char t ≡ false → all (λ c. not (c == b'/')) t ≡ true
no_slash [] h = refl
no_slash (c ∷ t) h = ground (arith, no_slash t)

forward_slash_id : (t : Text) → any is_refused_char t ≡ false → map forward_slash t ≡ t
forward_slash_id [] h = refl
forward_slash_id (c ∷ t) h = ground (arith, forward_slash_id t)

until_id : (sep : ℕ) (t : Text) → all (λ c. not (c == sep)) t ≡ true → until sep t ≡ t
unfolding until
until_id sep [] h = refl
until_id sep (c ∷ t) h = ground (arith, until_id sep t)

base_id : (t : Text) → is_empty t ≡ false → all (λ c. not (c == b'/')) t ≡ true → base t ≡ t
unfolding base after_last
base_id t h k =
    let whole : trim_right (λ c. c == b'/') t ≡ t =
      trim_right_id (λ c. c == b'/') t (Ends-all (λ c. not (c == b'/')) t k) in
    let last : reverse (until b'/' (reverse t)) ≡ t =
      ap reverse (until_id b'/' (reverse t) (all-reverse (λ c. not (c == b'/')) t k))
      ∙ reverse-reverse t in
    rw (h, whole, last, h) refl

not_dot : (t : Text) → is_empty t ≡ false → has_prefix (codes ".") t ≡ false → is_dot_name t ≡ false
unfolding has_prefix text_eq
not_dot [] h k = cc
not_dot (c ∷ t) h k = ground arith

-- A name of one file that has no space at its ends is accepted by sanitizeWorkspaceName,
-- unchanged.
pub IsFileName-sanitize_workspace_name :
    {t : Text} → IsFileName t → trim_space t ≡ t → sanitize_workspace_name t ≡ some t
unfolding sanitize_workspace_name
IsFileName-sanitize_workspace_name {t} v s =
    let same : base (map forward_slash (trim_space t)) ≡ t =
      ap (λ u. base (map forward_slash u)) s
      ∙ ap base (forward_slash_id t v.one_part)
      ∙ base_id t v.not_empty (no_slash t v.one_part) in
    let plain : is_dot_name t ≡ false = not_dot t v.not_empty v.not_hidden in
    rw (same, plain, v.one_part, v.not_hidden) refl
