-- ===== src/Analyze/Prep.antt =====
-- Before the model is asked: the kinds of the staged files, their converted forms, and the agent's
-- names for them (analyze.go: classifyStagedFile, prepEntry, prepAnalyze, indexEntries). What the
-- conversions make of a file is `Converters`, which Prep/Wiring.antt fills in; they give at most 6
-- pages and 3 frames, so that the numbers in the names have two digits and one.
pub mod Wiring
pub mod Bounds
use filestor.Base.{
  ℕ, ◌+◌, ◌*◌, Bool, true, false, ◌&&◌, List, [], ◌∷◌, ◌++◌, Option, none, some, ltb, ◌==◌, any,
  take, if◌then◌else◌, length, Text, codes, text_eq, to_lower, trim_space_bytes, lookup, insert,
}
use filestor.Names.File.{after_last}
use filestor.Clock.{two_digits, digit}
use filestor.Workspace.{Workspace, Node, torn, reset_analyze_dir, reset_digest_dir}
use filestor.Convert.Kinds.{image_exts, document_exts, video_exts}
use filestor.Analyze.{
  AnalyzeKind, kind_text, kind_document, kind_image, kind_video, kind_other, Entry, Agent,
}

-- The extension behind the last dot, lowered; without a dot there is none.
abbrev ext_among : Text → List Text → Bool
ext_among name exts =
    any (λ c. c == b'.') name && any (text_eq (to_lower (after_last b'.' name))) exts

abbrev sniff_max_bytes : ℕ
sniff_max_bytes = 8 * 1024

abbrev kind_of_content : Option Text → AnalyzeKind
kind_of_content none = kind_other
kind_of_content (some bytes) =
    if any (λ b. b == 0) (take sniff_max_bytes bytes) then kind_other else kind_text

-- classifyStagedFile, on what opening and reading the file gives
unfoldable pub classify_staged_file : Text → Option Text → AnalyzeKind
unfolding to_lower after_last
classify_staged_file name content =
    if ext_among name document_exts
    then kind_document
    else if ext_among name image_exts
    then kind_image
    else if ext_among name video_exts
    then kind_video
    else kind_of_content content

abbrev pub ends_line : Bool → ℕ
ends_line true = 0
ends_line false = 1

-- the newlines, and whether the last byte is one
abbrev pub newlines : Bool → Text → ℕ
newlines last [] = ends_line last
newlines last (b ∷ s) = (if b == b'\n' then 1 else 0) + newlines (b == b'\n') s

-- countTextLines
unfoldable pub count_text_lines : Text → ℕ
count_text_lines bytes = newlines true bytes

abbrev pub read_file_max_bytes : ℕ
read_file_max_bytes = 8 * 1024 * 1024

-- textFileStats: the lines of the readable prefix, and whether there is more
abbrev pub text_file_stats : Option Text → ℕ × Bool
text_file_stats none = (0, false)
text_file_stats (some bytes) =
    (count_text_lines (take read_file_max_bytes bytes), ltb read_file_max_bytes (length bytes))

-- What becomes of .filestor/analyze and .filestor/digest: whether a product is written, and how much
-- of it a write that fails leaves; the products and the marks that a reset leaves behind.
pub record Outputs : Type 0 where
  pub writes : Text → Bool
  pub cuts : Text → Option ℕ
  pub product_stays : Text → Bool
  pub mark_stays : Text → Bool

-- What the converters give for a staged file, and what becomes of the products.
pub record Converters : Type 0 where
  pub full_text : Text → Option Text
  pub page_images : Text → Option (List Text)
  pub llm_image : Text → Option Text
  pub frame_images : Text → Option (List Text)
  pub is_native_image : Text → Bool
  pub is_small : Text → Bool
  pub opens : Text → Bool
  pub outputs : Outputs

abbrev pub Products : Type 0
Products = List (Text × Text)

-- writeDerived
abbrev pub write_derived : Converters → Text → Text → Products → Products × Bool
write_derived c name bytes dir =
    if c.outputs.writes name
    then (insert name bytes dir, true)
    else (torn (c.outputs.cuts name) name bytes dir, false)

abbrev pub new_entry : Text → AnalyzeKind → Entry
new_entry name kind = record {
  name = name;
  kind = kind;
  lines = 0;
  truncated = false;
  text = [];
  text_lines = 0;
  pages = [];
  frames = [];
  image = [];
  failed = false;
}

abbrev pub is_blank_name : Text → Bool
is_blank_name [] = true
is_blank_name (c ∷ s) = false

abbrev pub no_names : List Text → Bool
no_names [] = true
no_names (n ∷ ns) = false

-- the closure writeText
abbrev pub write_text : Converters → Option Text → Entry → Products → Entry × Products
write_text c none e dir = (e, dir)
write_text c (some text) e dir =
    let name = e.name ++ codes ".txt" in
    let (dir', ok) = write_derived c name text dir in
    if is_blank_name (trim_space_bytes text)
    then (e, dir)
    else if ok
    then (record e { text = name; text_lines = count_text_lines text }, dir')
    else (e, dir')

-- the loops over pages and frames, with the name of the i-th product
abbrev pub write_images : Converters → (ℕ → Text) → ℕ → List Text → Products → List Text × Products
write_images c name i [] dir = ([], dir)
write_images c name i (bytes ∷ rest) dir =
    let (dir', ok) = write_derived c (name i) bytes dir in
    let (names, dir'') = write_images c name (i + 1) rest dir' in
    ((if ok then name i ∷ names else names), dir'')

abbrev pub or_no_images : Option (List Text) → List Text
or_no_images none = []
or_no_images (some l) = l

abbrev pub page_name : Text → ℕ → Text
page_name name i = name ++ (codes ".p" ++ (two_digits i ++ codes ".jpg"))

abbrev pub frame_name : Text → ℕ → Text
frame_name name i = name ++ (codes ".f" ++ (digit i ∷ codes ".jpg"))

abbrev pub prep_image : Converters → Entry → Option Text → Products → Entry × Products
prep_image c e none dir = (record e { failed = true }, dir)
prep_image c e (some bytes) dir =
    let name = e.name ++ codes ".jpg" in
    let (dir', ok) = write_derived c name bytes dir in
    if ok then (record e { image = name }, dir') else (record e { failed = true }, dir')

abbrev pub prep_kind : Converters → AnalyzeKind → Entry → Option Text → Products → Entry × Products
prep_kind c kind_text e content dir =
    let (lines, truncated) = text_file_stats content in
    (record e { lines = lines; truncated = truncated }, dir)
prep_kind c kind_document e content dir =
    let (e', dir') = write_text c (c.full_text e.name) e dir in
    let (pages, dir'') =
      write_images c (page_name e.name) 1 (or_no_images (c.page_images e.name)) dir' in
    (record e' { pages = pages; failed = is_blank_name e'.text && no_names pages }, dir'')
prep_kind c kind_image e content dir =
    if c.is_native_image e.name then (e, dir) else prep_image c e (c.llm_image e.name) dir
prep_kind c kind_video e content dir =
    let (frames, dir') =
      write_images c (frame_name e.name) 1 (or_no_images (c.frame_images e.name)) dir in
    (record e { frames = frames; failed = no_names frames }, dir')
prep_kind c kind_other e content dir =
    if c.is_small e.name then write_text c (c.full_text e.name) e dir else (e, dir)

-- prepEntry
unfoldable pub prep_entry : Converters → Text → Option Text → Products → Entry × Products
unfolding classify_staged_file trim_space_bytes
prep_entry c name content dir =
    let kind = classify_staged_file name content in
    prep_kind c kind (new_entry name kind) content dir

abbrev pub opened : Converters → Text → Option Node → Option Text
opened c name none = none
opened c name (some n) = if c.opens name then some n.content else none

-- the loop of prepAnalyze
unfoldable pub prep_entries :
    Converters → List (Text × Node) → List Text → Products → List Entry × Products
unfolding prep_entry
prep_entries c root [] dir = ([], dir)
prep_entries c root (name ∷ names) dir =
    let (e, dir') = prep_entry c name (opened c name (lookup name root)) dir in
    let (es, dir'') = prep_entries c root names dir' in (e ∷ es, dir'')

-- prepAnalyze: a reset that fails is logged, and the run goes on with what it left
unfoldable pub prep_analyze : Converters → List Text → Workspace → List Entry × Workspace
unfolding prep_entries reset_analyze_dir reset_digest_dir
prep_analyze c names w =
    let w' = reset_digest_dir c.outputs.mark_stays (reset_analyze_dir c.outputs.product_stays w) in
    let (es, dir) = prep_entries c w.root names w'.analyze_dir in
    (es, record w' { analyze_dir = dir })

abbrev pub if_named : Text → List Text
if_named [] = []
if_named (c ∷ s) = (c ∷ s) ∷ []

-- derivedNames
unfoldable pub derived_names : Entry → List Text
derived_names e = if_named e.text ++ (e.pages ++ (e.frames ++ if_named e.image))

abbrev pub insert_all : List Text → ℕ → List (Text × ℕ) → List (Text × ℕ)
insert_all [] i m = m
insert_all (n ∷ ns) i m = insert_all ns i (insert n i m)

-- the loop of indexEntries from position i on
abbrev pub index_from : ℕ → List Entry → Agent → Agent
index_from i [] a = a
index_from i (e ∷ es) a = index_from (i + 1) es (record a {
  entries = insert e.name i a.entries;
  derived = insert_all (derived_names e) i a.derived;
})

-- indexEntries
unfoldable pub index_entries : List Entry → Agent → Agent
unfolding derived_names
index_entries list a = index_from 0 list (record a { list = list; entries = []; derived = [] })
