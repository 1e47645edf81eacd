-- ===== src/Analyze/Marks.antt =====
-- Images for the model, and the content digest (analyze.go: loadImageFile, toolLoadMedia,
-- toolMarkText, toolMarkImage). The mime of an image is not modelled. A failed write
-- leaves a part of the mark, or none.
pub mod Digest
use filestor.Base.{
  ℕ, zero, suc, ◌+◌, ◌*◌, Bool, true, false, ◌&&◌, ◌||◌, not, List, [], ◌∷◌, ◌++◌, Option, none,
  some, ltb, leb, ◌==◌, any, if◌then◌else◌, length, Text, codes, text_eq, trim_space_bytes,
  has_prefix, cut_suffix, cut_back, lookup, insert,
}
use filestor.Clock.{two_digits}
use filestor.Names.File.{sanitize_workspace_name}
use filestor.Workspace.{Workspace, Node, torn}
use filestor.Server.{Server}
use filestor.Convert.{analyze_image_max_bytes}
use filestor.Analyze.{
  AnalyzeKind, kind_text, kind_document, kind_image, kind_video, kind_other, Entry, Agent, Disk,
  Reply, bad_name, no_such_file, is_a_text, no_image_form, no_pages, no_frames, stands_for_several,
  could_not_load, loaded, empty_chunk, texts_full, images_full, already_marked, disk_failed,
  marked_text, marked_image, entry_at,
}

abbrev pub max_digest_texts : ℕ
max_digest_texts = 16

abbrev pub max_text_bytes : ℕ
max_text_bytes = 8 * 1024

abbrev pub max_digest_images : ℕ
max_digest_images = 4

abbrev pub is_nothing : Text → Bool
is_nothing [] = true
is_nothing (c ∷ s) = false

abbrev pub within_cap : Text → Option Text
within_cap bytes =
    if is_nothing bytes || ltb analyze_image_max_bytes (length bytes) then none else some bytes

-- loadImageFile, on the bytes of the file if it is there
abbrev pub load_image_file : Disk → Text → Option Text → Option Text
load_image_file d name none = none
load_image_file d name (some bytes) = if d.opens name then within_cap bytes else none

abbrev pub node_bytes : Option Node → Option Text
node_bytes none = none
node_bytes (some n) = some n.content

abbrev pub at_position : Option ℕ → List Entry → Option Entry
at_position none es = none
at_position (some i) es = entry_at i es

-- a.entries[name]
abbrev pub entry_named : Agent → Text → Option Entry
entry_named a name = at_position (lookup name a.entries) a.list

-- a.derived[name] is there
abbrev pub is_derived : Agent → Text → Bool
is_derived a name = is_there (lookup name a.derived)
  where
    is_there : Option ℕ → Bool
    is_there none = false
    is_there (some i) = true

abbrev pub is_present : Option Text → Bool
is_present none = false
is_present (some t) = true

abbrev pub is_text_form : Text → Bool
is_text_form name = is_present (cut_suffix (codes ".txt") name)

-- What a name stands for: staged or derived images, or a reply that refuses it.
pub data Media : Type 0 where
  refused : Reply → Media
  staged_image : Text → Media
  derived_images : List Text → Media

abbrev pub no_list : List Text → Bool
no_list [] = true
no_list (n ∷ ns) = false

abbrev pub media_of_entry : Entry → AnalyzeKind → Media
media_of_entry e kind_text = refused is_a_text
media_of_entry e kind_image =
    if is_nothing e.image then staged_image e.name else derived_images (e.image ∷ [])
media_of_entry e kind_document =
    if no_list e.pages then refused no_pages else derived_images e.pages
media_of_entry e kind_video =
    if no_list e.frames then refused no_frames else derived_images e.frames
media_of_entry e kind_other = refused no_image_form

-- media of an entry or of a derived name
unfoldable pub media_of : Agent → Text → Option Entry → Media
media_of a name (some e) = media_of_entry e e.kind
media_of a name none =
    if not (is_derived a name)
    then refused no_such_file
    else if is_text_form name
    then refused is_a_text
    else derived_images (name ∷ [])

-- the loop over the paths: the images, and the names that were skipped
unfoldable pub load_all : Disk → Workspace → List Text → List (Text × Text) × List Text
load_all d w [] = ([], [])
load_all d w (n ∷ ns) = add (load_image_file d n (lookup n w.analyze_dir)) (load_all d w ns)
  where
    add : Option Text → List (Text × Text) × List Text → List (Text × Text) × List Text
    add none (imgs, skipped) = (imgs, n ∷ skipped)
    add (some bytes) (imgs, skipped) = ((n, bytes) ∷ imgs, skipped)

abbrev pub label_of : List (Text × Text) × List Text → Reply × List (Text × Text)
label_of ([], skipped) = (could_not_load, [])
label_of (i ∷ imgs, skipped) = (loaded skipped, i ∷ imgs)

abbrev pub one_image : Text → Option Text → List (Text × Text) × List Text
one_image name none = ([], name ∷ [])
one_image name (some bytes) = ((name, bytes) ∷ [], [])

abbrev pub load_media_of : Disk → Workspace → Media → Reply × List (Text × Text)
load_media_of d w (refused r) = (r, [])
load_media_of d w (staged_image name) =
    label_of (one_image name (load_image_file d name (node_bytes (lookup name w.root))))
load_media_of d w (derived_images names) = label_of (load_all d w names)

abbrev pub load_named : Disk → Agent → Option Text → Reply × List (Text × Text)
load_named d a none = (bad_name, [])
load_named d a (some name) = load_media_of d a.server.work (media_of a name (entry_named a name))

-- toolLoadMedia
unfoldable pub tool_load_media : Disk → Text → Agent → Reply × List (Text × Text)
unfolding media_of load_all entry_at sanitize_workspace_name
tool_load_media d name a = load_named d a (sanitize_workspace_name name)

-- a write under .filestor/digest
abbrev pub write_digest : Text → Text → Agent → Agent
write_digest name bytes a =
    let w = record a.server.work { digest_dir = insert name bytes a.server.work.digest_dir } in
    record a { server = record a.server { work = w } }

-- one that fails
abbrev pub torn_digest : Option ℕ → Text → Text → Agent → Agent
torn_digest cut name bytes a =
    let w = record a.server.work { digest_dir = torn cut name bytes a.server.work.digest_dir } in
    record a { server = record a.server { work = w } }

abbrev pub text_mark_name : ℕ → Text
text_mark_name n = codes "text-" ++ (two_digits n ++ codes ".txt")

abbrev pub cut_chunk : Text → Text
cut_chunk text = if ltb max_text_bytes (length text) then cut_back max_text_bytes text else text

-- toolMarkText
unfoldable pub tool_mark_text : Disk → Text → Agent → Agent × Reply
unfolding trim_space_bytes
tool_mark_text d text a =
    let chunk = trim_space_bytes text in
    let n = a.digest_texts + 1 in
    if is_nothing chunk
    then (a, empty_chunk)
    else if leb max_digest_texts a.digest_texts
    then (a, texts_full)
    else if d.writes
    then (
      write_digest (text_mark_name n) (cut_chunk chunk) (record a { digest_texts = n }),
      marked_text n,
    )
    else (torn_digest d.cuts (text_mark_name n) (cut_chunk chunk) a, disk_failed)

abbrev pub image_mark_name : ℕ → Text → Text
image_mark_name n product = codes "image-" ++ (two_digits n ++ (b'-' ∷ product))

abbrev pub write_mark : Disk → Text → Agent → Option Text → Agent × Reply
write_mark d product a none = (a, disk_failed)
write_mark d product a (some bytes) =
    let n = length a.digest_images + 1 in
    if d.writes
    then (
      write_digest (image_mark_name n product) bytes
          (record a { digest_images = product ∷ a.digest_images }),
      marked_image product n,
    )
    else (torn_digest d.cuts (image_mark_name n product) bytes a, disk_failed)

-- from `if a.digestImages[product]` on
abbrev pub mark_product : Disk → Text → Option Text → Agent → Agent × Reply
mark_product d product bytes a =
    if any (text_eq product) a.digest_images
    then (a, already_marked)
    else if leb max_digest_images (length a.digest_images)
    then (a, images_full)
    else write_mark d product a (load_image_file d product bytes)

-- A document or a video stands for its images, and is refused, with some or without.
abbrev pub mark_entry : Disk → Agent → Entry → AnalyzeKind → Agent × Reply
mark_entry d a e kind_text = (a, is_a_text)
mark_entry d a e kind_image =
    if is_nothing e.image
    then mark_product d e.name (node_bytes (lookup e.name a.server.work.root)) a
    else mark_product d e.image (lookup e.image a.server.work.analyze_dir) a
mark_entry d a e kind_document = (a, if no_list e.pages then no_pages else stands_for_several)
mark_entry d a e kind_video = (a, if no_list e.frames then no_frames else stands_for_several)
mark_entry d a e kind_other = (a, no_image_form)

abbrev pub mark_named : Disk → Agent → Text → Option Entry → Agent × Reply
mark_named d a name (some e) = mark_entry d a e e.kind
mark_named d a name none =
    if not (is_derived a name)
    then (a, no_such_file)
    else if is_text_form name
    then (a, is_a_text)
    else mark_product d name (lookup name a.server.work.analyze_dir) a

abbrev pub mark_accepted : Disk → Agent → Option Text → Agent × Reply
mark_accepted d a none = (a, bad_name)
mark_accepted d a (some name) = mark_named d a name (entry_named a name)

-- toolMarkImage
unfoldable pub tool_mark_image : Disk → Text → Agent → Agent × Reply
unfolding entry_at sanitize_workspace_name
tool_mark_image d name a = mark_accepted d a (sanitize_workspace_name name)
