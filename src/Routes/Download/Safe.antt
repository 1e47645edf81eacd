-- ===== src/Routes/Download/Safe.antt =====
-- What the presigner is asked for (server.go: handleDownload; s3.go: attachmentDisposition).
use filestor.Base.{
  ◌≡◌, ◌≢◌, ◌⊎◌, refl, inl, inr, true, false, ◌||◌, not, [], ◌∷◌, ◌++◌, Option, some, all, arith,
  Text, codes, text_eq, trim_space_bytes, Bool-cases, cons_ne_nil,
}
use filestor.Names.File.{base}
use filestor.Routes.Download.{
  is_dropped, kept_chars, path_escape, is_nothing, attachment_name, attachment_disposition,
  SignInput, sign_url_ttl, sign_get_url, sign_preview_url, Reply, missing_key, invalid_key,
  has_control, signed_reply, checked_key, handle_download, handle_preview,
}

-- A quoted file name that nothing in it ends, with the same name escaped behind it.
pub record IsAttachment (disposition : Option Text) : Type 0 where
  pub name : Text
  pub shape :
      disposition
      ≡ some (
          codes "attachment; filename=\""
          ++ (name ++ (codes "\"; filename*=UTF-8''" ++ path_escape name)))
  pub filled : name ≢ []
  pub quoted : all (λ c. not (is_dropped c)) name ≡ true

kept_chars-Quoted : (s : Text) → all (λ c. not (is_dropped c)) (kept_chars s) ≡ true
kept_chars-Quoted [] = refl
kept_chars-Quoted (c ∷ s) = elim (Bool-cases (is_dropped c)) [
  | inl e ↦ rw e (kept_chars-Quoted s)
  | inr e ↦ rw e (rw e (kept_chars-Quoted s))
]

filled_of : (s : Text) → is_nothing s ≡ false → s ≢ []
filled_of [] e = cc
filled_of (c ∷ s) e = cons_ne_nil c s

attachment_name-Quoted :
    (key : Text)
    → (attachment_name key ≢ []) × (all (λ c. not (is_dropped c)) (attachment_name key) ≡ true)
attachment_name-Quoted key =
    let name = kept_chars (base key) in
    elim (Bool-cases (is_nothing name || text_eq name (codes ".") || text_eq name (codes "/"))) [
      | inl e ↦ rw e (cons_ne_nil b'd' (codes "ownload"), refl)
      | inr e ↦ rw e (filled_of name (ground (arith, e)), kept_chars-Quoted (base key))
    ]

attachment_disposition-IsAttachment :
    (key : Text) → IsAttachment (some (attachment_disposition key))
unfolding attachment_disposition
attachment_disposition-IsAttachment key =
    let (filled, quoted) = attachment_name-Quoted key in
    record { name = attachment_name key; shape = refl; filled = filled; quoted = quoted }

-- a key that is not empty and has no NUL, CR or LF, for five minutes
pub record IsAsked (key : Text) (i : SignInput) : Type 0 where
  pub trimmed : i.key ≡ key
  pub some_key : i.key ≢ []
  pub no_control : has_control i.key ≡ false
  pub five_minutes : i.ttl ≡ 300

abbrev pub Refused : Text → Reply → Type 0
Refused key r = ((r ≡ missing_key) × (key ≡ [])) ⊎ ((r ≡ invalid_key) × (has_control key ≡ true))

nothing→nil : (s : Text) → is_nothing s ≡ true → s ≡ []
nothing→nil [] e = refl
nothing→nil (c ∷ s) e = cc

checked :
    (presign : SignInput → Option Text) (input : Text → SignInput) (key : Text)
    → (input key).key ≡ key
    → (input key).ttl ≡ 300
    → Refused key (checked_key presign input key)
      ⊎ ((checked_key presign input key ≡ signed_reply (presign (input key)))
          × IsAsked key (input key))
checked presign input key same ttl = elim (Bool-cases (is_nothing key)) [
  | inl e ↦ rw e (inl (inl (refl, nothing→nil key e)))
  | inr e ↦ elim (Bool-cases (has_control key)) [
    | inl c ↦ rw e (rw c (inl (inr (refl, refl))))
    | inr c ↦
        let asked : IsAsked key (input key) = record {
          trimmed = same;
          some_key = rw same (filled_of key e);
          no_control = rw same c;
          five_minutes = ttl;
        } in
        rw e (rw c (inr (refl, asked)))
  ]
]

module _ (presign : SignInput → Option Text) (query_key : Text) where
  abbrev pub Answered : (Text → SignInput) → Reply → Type 0
  Answered input r =
      let key = trim_space_bytes query_key in
      Refused key r ⊎ ((r ≡ signed_reply (presign (input key))) × IsAsked key (input key))

  -- For every key of a request: handleDownload and handlePreview answer that the key is missing or
  -- invalid, or ask the presigner for the trimmed key, which is not empty and has no NUL, CR or
  -- LF, for five minutes. The disposition of a download is a quoted file name that is not empty
  -- and has no quote, backslash, NUL, CR or LF, followed by the same name escaped.
  pub handle_download-IsAttachment :
      Answered (λ k. sign_get_url k sign_url_ttl) (handle_download presign query_key)
      × Answered (λ k. sign_preview_url k sign_url_ttl) (handle_preview presign query_key)
      × IsAttachment (sign_get_url (trim_space_bytes query_key) sign_url_ttl).disposition
  unfolding handle_download handle_preview
  handle_download-IsAttachment = (
    checked presign (λ k. sign_get_url k sign_url_ttl) (trim_space_bytes query_key) refl refl,
    checked presign (λ k. sign_preview_url k sign_url_ttl) (trim_space_bytes query_key) refl refl,
    attachment_disposition-IsAttachment (trim_space_bytes query_key),
  )
