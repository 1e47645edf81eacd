-- ===== src/Analyze/Listing.antt =====
-- What the model is told of the staged files (analyze.go: textPeek, summary, quoteNames,
-- buildAnalyzeListing, unmarshalToolArgs). The sizes and the peeks of the files are functions of their
-- names. Of the spaces that strings.Fields splits at, those of ASCII are modelled.
pub mod Named
pub mod Prepared
use filestor.Base.{
  ℕ, ◌+◌, ◌*◌, Bool, true, false, ◌&&◌, ◌||◌, not, List, [], ◌∷◌, ◌++◌, Option, none, some, ltb,
  ◌==◌, within, any, if◌then◌else◌, take, length, Text, codes, cut_back, is_utf8, decimal, join,
  trim_space_bytes, text_eq,
}
use filestor.Names.File.{sanitize_workspace_name}
use filestor.Detail.{format_size}
use filestor.Analyze.{
  AnalyzeKind, kind_text, kind_document, kind_image, kind_video, kind_other, Entry,
}
use filestor.Analyze.Prep.{read_file_max_bytes}

abbrev pub is_ascii_space : ℕ → Bool
is_ascii_space c = c == b' ' || within 9 13 c

abbrev pub is_nothing : Text → Bool
is_nothing [] = true
is_nothing (c ∷ s) = false

abbrev pub word_before : Text → List Text → List Text
word_before [] words = words
word_before (c ∷ w) words = (c ∷ w) ∷ words

-- the word that a text starts with, and the words behind it
abbrev pub fields_from : Text → Text × List Text
fields_from [] = ([], [])
fields_from (c ∷ s) =
    let (word, words) = fields_from s in
    if is_ascii_space c then ([], word_before word words) else (c ∷ word, words)

-- strings.Fields
unfoldable pub fields : Text → List Text
fields s = let (word, words) = fields_from s in word_before word words

abbrev pub analyze_peek_max_bytes : ℕ
analyze_peek_max_bytes = 1024

abbrev pub peek_of_bytes : Text → Text
peek_of_bytes bytes =
    if is_nothing bytes || any (λ c. c == 0) bytes
    then []
    else join b' ' (fields (cut_back analyze_peek_max_bytes bytes))

abbrev pub peek_of_file : Option Text → Text
peek_of_file none = []
peek_of_file (some bytes) = peek_of_bytes (take (analyze_peek_max_bytes + 1) bytes)

abbrev pub peek_named : (Text → Option Text) → Option Text → Text
peek_named read none = []
peek_named read (some name) = peek_of_file (read name)

-- textPeek, on the bytes of the files that can be read
unfoldable pub text_peek : (Text → Option Text) → Text → Text
unfolding sanitize_workspace_name fields cut_back join
text_peek read name = peek_named read (sanitize_workspace_name name)

-- String of analyzeKind
abbrev pub kind_text_of : AnalyzeKind → Text
kind_text_of kind_document = codes "document"
kind_text_of kind_image = codes "image"
kind_text_of kind_video = codes "video"
kind_text_of kind_other = codes "binary"
kind_text_of kind_text = codes "text"

abbrev pub quoted : Text → Text
quoted n = b'`' ∷ (n ++ (b'`' ∷ []))

-- the loop of quoteNames behind the first name
abbrev pub more_names : List Text → Text
more_names [] = []
more_names (n ∷ ns) = b' ' ∷ (quoted n ++ more_names ns)

-- quoteNames
abbrev pub quote_names : List Text → Text
quote_names [] = []
quote_names (n ∷ ns) = quoted n ++ more_names ns

abbrev pub count_text : ℕ → Text → Text
count_text n unit = decimal n ++ (b' ' ∷ unit)

abbrev pub if_some : List Text → Text → List Text
if_some [] part = []
if_some (n ∷ ns) part = part ∷ []

abbrev pub if_text : Text → Text → List Text
if_text [] part = []
if_text (c ∷ s) part = part ∷ []

abbrev pub summary_parts : Entry → List Text
summary_parts e =
    if_text e.text (codes "text " ++ count_text e.text_lines (codes "lines"))
    ++ (if_some e.pages (count_text (length e.pages) (codes "pages"))
        ++ (if_some e.frames (count_text (length e.frames) (codes "frames"))
            ++ if_text e.image (codes "normalized image")))

abbrev pub join_parts : List Text → Text
join_parts [] = []
join_parts (p ∷ []) = p
join_parts (p ∷ q ∷ ps) = p ++ (codes ", " ++ join_parts (q ∷ ps))

abbrev pub native_form : Entry → AnalyzeKind → Text
native_form e kind_text = codes "native text, " ++ count_text e.lines (codes "lines")
native_form e kind_image = codes "native image"
native_form e _ = codes "no readable form"

abbrev pub summary_of : Entry → List Text → Text
summary_of e [] = if e.failed then codes "conversion failed" else native_form e e.kind
summary_of e (p ∷ ps) = join_parts (p ∷ ps)

-- summary
unfoldable pub summary : Entry → Text
unfolding decimal
summary e = summary_of e (summary_parts e)

abbrev pub line_of : Text → Text → Text
line_of label rest = codes "  " ++ (label ++ (codes ": " ++ (rest ++ (b'\n' ∷ []))))

abbrev pub peek_line : Text → Text
peek_line [] = []
peek_line (c ∷ s) = line_of (codes "peek") (c ∷ s)

abbrev pub text_line : Entry → Text → Text
text_line e [] = []
text_line e (c ∷ s) =
    line_of (codes "text")
      (quoted (c ∷ s) ++ (codes " (" ++ (count_text e.text_lines (codes "lines") ++ codes ")")))

abbrev pub images_line : Text → List Text → Text
images_line label [] = []
images_line label (n ∷ ns) = line_of label (quote_names (n ∷ ns))

abbrev pub image_line : Text → Text
image_line [] = []
image_line (c ∷ s) = line_of (codes "image") (quoted (c ∷ s))

-- what stands behind the name, the size and the kind of a text
abbrev pub text_note : Entry → Text
text_note e =
    (codes ", " ++ count_text e.lines (codes "lines"))
    ++ (if e.truncated
        then codes ", only the first " ++ (format_size read_file_max_bytes ++ codes " are readable")
        else [])

abbrev pub is_other : AnalyzeKind → Bool
is_other kind_other = true
is_other _ = false

abbrev pub failure_note : Entry → Text
failure_note e =
    (if e.failed then codes " — conversion failed" else [])
    ++ (if is_other e.kind && is_nothing e.text then codes " — no readable form" else [])

abbrev pub form_lines : Entry → Text
form_lines e =
    failure_note e
    ++ (b'\n'
        ∷ (text_line e e.text
            ++ (images_line (codes "pages") e.pages
                ++ (images_line (codes "frames") e.frames ++ image_line e.image))))

module _ (size peek : Text → Text) where
  abbrev pub entry_head : Entry → Text
  entry_head e =
      codes "- "
      ++ (quoted e.name ++ (codes " (" ++ (size e.name ++ (codes ", " ++ kind_text_of e.kind))))

  abbrev pub entry_lines : Entry → AnalyzeKind → Text
  entry_lines e kind_text =
      entry_head e ++ (text_note e ++ (codes ")\n" ++ peek_line (peek e.name)))
  entry_lines e _ = entry_head e ++ (codes ")" ++ form_lines e)

  -- the loop over the entries
  unfoldable pub listing_from : List Entry → Text
  unfolding decimal format_size
  listing_from [] = []
  listing_from (e ∷ es) = entry_lines e e.kind ++ listing_from es

  -- buildAnalyzeListing
  unfoldable pub build_analyze_listing : List Entry → Text
  unfolding listing_from
  build_analyze_listing es =
      codes "Files staged for upload (converted forms listed under each source):\n"
      ++ listing_from es

-- unmarshalToolArgs: what is left to decode as an object; `unquote` decodes a JSON string.
unfoldable pub tool_args_text : (Text → Option Text) → Text → Option Text
unfolding trim_space_bytes
tool_args_text unquote raw = of_trimmed (trim_space_bytes raw)
  where
    or_object : Text → Text
    or_object [] = codes "{}"
    or_object (c ∷ s) = c ∷ s

    of_string : Option Text → Option Text
    of_string none = none
    of_string (some s) = some (or_object (trim_space_bytes s))

    of_trimmed : Text → Option Text
    of_trimmed [] = none
    of_trimmed (c ∷ s) =
        if text_eq (c ∷ s) (codes "null")
        then none
        else if c == b'"'
        then of_string (unquote (c ∷ s))
        else some (c ∷ s)
