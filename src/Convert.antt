-- ===== src/Convert.antt =====
-- Document conversion (convert.go). The commands that are installed, and what a run of one makes of
-- the files, are `Tools`. Files are paths with their bytes; whether a directory can be made or a file
-- read is `Tools`, too. The temporary directory of a conversion is `tmp`; its removal, the lock of
-- soffice, the time limits and the texts of errors are not modelled.
pub mod Kinds
pub mod Texts
pub mod Images
pub mod Pages
pub mod Frames
pub mod Ensures
pub mod Bounds
pub mod Cleanup
use filestor.Base.{
  ℕ, ◌+◌, ◌*◌, Bool, true, false, ◌&&◌, not, List, [], ◌∷◌, ◌++◌, map, reverse, Option, none, some,
  ltb, ◌==◌, any, if◌then◌else◌, length, Text, codes, text_eq, to_lower, has_prefix, cut_suffix,
  drop, decimal, lookup, keys, Option-cases,
}
use filestor.Workspace.Listing.{sort_names}

abbrev pub Files : Type 0
Files = List (Text × Text)

-- lookPath, runCmd, os.MkdirTemp, os.MkdirAll, os.ReadFile and os.WriteFile
pub record Tools : Type 0 where
  pub look_path : Text → Option Text
  pub run_cmd : Text → List Text → Files → Files × Option Text
  pub make_temp : Text → Option Text
  pub makes : Text → Bool
  pub reads : Text → Bool
  pub writes : Text → Bool

-- A conversion changes files, and gives a result or an error.
abbrev pub Conversion {ℓ} : Type ℓ → Type ℓ
Conversion A = Files → Files × Option A

abbrev pub then_on {ℓ κ} :
    {A : Type ℓ} {B : Type κ} → Files × Option A → (A → Conversion B) → Files × Option B
then_on (files, none) f = (files, none)
then_on (files, some a) f = f a files

infixl 5 ◌>>=◌
unfoldable pub ◌>>=◌ {ℓ κ} :
    {A : Type ℓ} {B : Type κ} → Conversion A → (A → Conversion B) → Conversion B
(m >>= f) files = then_on (m files) f

abbrev pub give {ℓ} : {A : Type ℓ} → A → Conversion A
give a files = (files, some a)

abbrev pub fail {ℓ} : {A : Type ℓ} → Conversion A
fail files = (files, none)

abbrev pub caught {ℓ} : {A : Type ℓ} → Files × Option A → Conversion A → Files × Option A
caught (files, none) n = n files
caught (files, some a) n = (files, some a)

-- a second attempt if the first fails
unfoldable pub or_else {ℓ} : {A : Type ℓ} → Conversion A → Conversion A → Conversion A
or_else m n files = caught (m files) n

abbrev pub of_option {ℓ} : {A : Type ℓ} → Option A → Conversion A
of_option none = fail
of_option (some a) = give a

-- fails on an empty list
abbrev pub some_of {ℓ} : {A : Type ℓ} → List A → Conversion (List A)
some_of [] = fail
some_of (a ∷ l) = give (a ∷ l)

abbrev pub add_result {ℓ} : {A : Type ℓ} → Option A → List A → List A
add_result none l = l
add_result (some a) l = a ∷ l

abbrev pub attempt {ℓ} : {A : Type ℓ} → Conversion A → Conversion (Option A)
attempt m files = ((m files).0, some (m files).1)

-- the loops that skip what fails
unfoldable pub gather {ℓ κ} :
    {A : Type ℓ} {B : Type κ} → (A → Conversion B) → List A → Conversion (List B)
gather f [] = give []
gather f (a ∷ l) = let rest = gather f l in do r ← attempt (f a); bs ← rest; give (add_result r bs)

abbrev pub convert_text_max_bytes : ℕ
convert_text_max_bytes = 4 * 1024 * 1024

abbrev pub analyze_page_max_bytes : ℕ
analyze_page_max_bytes = 4 * 1024 * 1024

abbrev pub analyze_image_max_bytes : ℕ
analyze_image_max_bytes = 8 * 1024 * 1024

abbrev pub analyze_max_pages : ℕ
analyze_max_pages = 6

abbrev pub analyze_max_frames : ℕ
analyze_max_frames = 3

abbrev pub join_path : Text → Text → Text
join_path dir name = dir ++ (b'/' ∷ name)

abbrev pub ext_back : Text → Text → Text
ext_back [] ext = []
ext_back (c ∷ s) ext =
    let rest = ext_back s (c ∷ ext) in if c == b'/' then [] else if c == b'.' then c ∷ ext else rest

-- filepath.Ext
unfoldable pub path_ext : Text → Text
path_ext path = ext_back (reverse path) []

abbrev pub has_ext : Text → Text → Bool
has_ext ext path = text_eq (to_lower (path_ext path)) ext

-- the path of an entry of a directory, without the directory
abbrev pub entry_of : Text → Text → Option Text
entry_of dir path =
    let name = drop (length dir + 1) path in
    if has_prefix (join_path dir []) path && not (any (λ c. c == b'/') name)
    then some name
    else none

abbrev pub add_entry : Option Text → List Text → List Text
add_entry none names = names
add_entry (some name) names = name ∷ names

abbrev pub entries_of : Text → List Text → List Text
entries_of dir [] = []
entries_of dir (p ∷ ps) = add_entry (entry_of dir p) (entries_of dir ps)

-- os.ReadDir: the regular files, by name
unfoldable pub read_dir : Text → Files → List Text
unfolding has_prefix sort_names
read_dir dir files = sort_names (entries_of dir (keys files))

abbrev pub is_match : Text → Text → Text → Bool
is_match start ext name =
    has_prefix start name && is_cut (cut_suffix ext (drop (length start) name))
  where
    is_cut : Option Text → Bool
    is_cut none = false
    is_cut (some t) = true

abbrev pub matches : Text → Text → Text → List Text → List Text
matches dir start ext [] = []
matches dir start ext (n ∷ ns) =
    let rest = matches dir start ext ns in
    if is_match start ext n then join_path dir n ∷ rest else rest

-- os.RemoveAll
unfoldable pub remove_all : Text → Files → Files
unfolding has_prefix
remove_all dir [] = []
remove_all dir ((path, bytes) ∷ files) =
    let rest = remove_all dir files in
    if has_prefix (join_path dir []) path then rest else (path, bytes) ∷ rest

abbrev pub cleaned {ℓ} : {A : Type ℓ} → Text → Files × Option A → Files × Option A
cleaned tmp (files, r) = (remove_all tmp files, r)

-- a conversion in a temporary directory, removed when it ends
unfoldable pub within_temp {ℓ} : {A : Type ℓ} → Option Text → (Text → Conversion A) → Conversion A
unfolding remove_all
within_temp none f files = (files, none)
within_temp (some tmp) f files = cleaned tmp (f tmp files)

-- filepath.Glob of dir/start*ext
unfoldable pub glob : Text → Text → Text → Files → List Text
unfolding read_dir has_prefix cut_suffix
glob dir start ext files = matches dir start ext (read_dir dir files)

abbrev pub has_bytes : Option Text → Bool
has_bytes none = false
has_bytes (some []) = false
has_bytes (some (c ∷ s)) = true

abbrev pub with_ext : Text → List Text → List Text
with_ext ext [] = []
with_ext ext (n ∷ ns) = let rest = with_ext ext ns in if has_ext ext n then n ∷ rest else rest

abbrev pub first_file : Text → List Text → Files → Option Text
first_file dir [] files = none
first_file dir (n ∷ ns) files =
    let rest = first_file dir ns files in
    if has_bytes (lookup (join_path dir n) files) then some (join_path dir n) else rest

-- convertedFilePath
unfoldable pub converted_file_path : Text → Text → Conversion Text
unfolding read_dir path_ext to_lower lookup
converted_file_path dir ext files =
    of_option (first_file dir (with_ext ext (read_dir dir files)) files) files

module _ (t : Tools) where
  -- findBin
  unfoldable pub find_bin : List Text → Option Text
  find_bin [] = none
  find_bin (n ∷ ns) = or_next (t.look_path n) (find_bin ns)
    where
      or_next : Option Text → Option Text → Option Text
      or_next (some p) rest = some p
      or_next none rest = rest

  abbrev pub run : Text → List Text → Conversion Text
  run bin args = t.run_cmd bin args

  -- os.ReadFile
  abbrev pub read_file : Text → Conversion Text
  read_file path files = of_option (if t.reads path then lookup path files else none) files

  -- os.MkdirAll
  abbrev pub make_dir : Text → Conversion (Unit {0})
  make_dir path = if t.makes path then give tt else fail

  -- sofficeConvert
  unfoldable pub soffice_convert : Text → Text → Text → Conversion Text
  unfolding find_bin
  soffice_convert src outdir format = do
    bin ← of_option (find_bin (codes "soffice" ∷ codes "libreoffice" ∷ []))
    _ ← make_dir outdir
    run bin (
        codes "--headless"
        ∷ codes "--norestore"
        ∷ codes "--nologo"
        ∷ codes "--nolockcheck"
        ∷ codes "--convert-to"
        ∷ format
        ∷ codes "--outdir"
        ∷ outdir
        ∷ src
        ∷ [])

  -- magickBin
  unfoldable pub magick_bin : Option Text
  unfolding find_bin
  magick_bin = find_bin (codes "magick" ∷ codes "convert" ∷ [])

  abbrev pub magick_args : Text → Text → ℕ → ℕ → List Text
  magick_args src dst edge quality =
      src
      ∷ codes "-auto-orient"
      ∷ codes "-resize"
      ∷ (decimal edge ++ (b'x' ∷ (decimal edge ++ (b'>' ∷ []))))
      ∷ codes "-strip"
      ∷ codes "-quality"
      ∷ decimal quality
      ∷ dst
      ∷ []

  -- magickConvert
  unfoldable pub magick_convert : Text → Text → ℕ → ℕ → Conversion Text
  unfolding magick_bin decimal
  magick_convert src dst edge quality = do
    bin ← of_option magick_bin
    or_else (run bin (magick_args (src ++ codes "[0]") dst edge quality))
        (run bin (magick_args src dst edge quality))

  abbrev pub first_output : Text → List Text → Files → Option Text
  first_output dir [] files = none
  first_output dir (n ∷ ns) files =
      let rest = first_output dir ns files in usable (read_file (join_path dir n) files).1 rest
    where
      usable : Option Text → Option Text → Option Text
      usable none rest = rest
      usable (some []) rest = rest
      usable (some (c ∷ s)) rest = some (c ∷ s)

  -- readConvertedOutput
  unfoldable pub read_converted_output : Text → Text → Conversion Text
  unfolding read_dir path_ext to_lower lookup
  read_converted_output dir ext files =
      of_option (first_output dir (with_ext ext (read_dir dir files)) files) files
