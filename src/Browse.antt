-- ===== src/Browse.antt =====
-- The kinds of files that the pages show (browse.go: fileExt, fileIcon, previewKind). The letters
-- beyond ASCII that strings.ToLower takes to ASCII ones stay as they are.
pub mod Kinds
pub mod Calendar
use filestor.Base.{
  ℕ, ◌≡◌, Bool, true, false, ◌||◌, List, [], ◌∷◌, ◌++◌, any, if◌then◌else◌, Text, codes, text_eq,
  to_lower, ◌==◌,
}
use filestor.Names.File.{after_last}

-- fileExt: what follows the last dot, lowered; empty without a dot
unfoldable pub file_ext : Text → Text
unfolding to_lower
file_ext name = if any (λ c. c == b'.') name then to_lower (after_last b'.' name) else []

abbrev pub shown_images : List Text
shown_images =
    codes "jpg"
    ∷ codes "jpeg"
    ∷ codes "png"
    ∷ codes "gif"
    ∷ codes "webp"
    ∷ codes "avif"
    ∷ codes "bmp"
    ∷ []

abbrev pub shown_videos : List Text
shown_videos = codes "mp4" ∷ codes "m4v" ∷ codes "webm" ∷ []

abbrev pub shown_audio : List Text
shown_audio =
    codes "mp3" ∷ codes "wav" ∷ codes "ogg" ∷ codes "m4a" ∷ codes "flac" ∷ codes "aac" ∷ []

abbrev pub texts : List Text
texts =
    codes "txt"
    ∷ codes "md"
    ∷ codes "log"
    ∷ codes "json"
    ∷ codes "yaml"
    ∷ codes "yml"
    ∷ codes "xml"
    ∷ codes "csv"
    ∷ []

abbrev pub archives : List Text
archives = codes "zip" ∷ codes "tar" ∷ codes "gz" ∷ codes "tgz" ∷ codes "rar" ∷ codes "7z" ∷ []

abbrev pub is_one_of : Text → List Text → Bool
is_one_of ext exts = any (text_eq ext) exts

-- the icon classes, by what follows "icon-[lucide--"
pub data Icon : Type 0 where
  file_image file_play file_audio file_text file_type file_spreadsheet presentation file_archive
        file :
      Icon

abbrev pub icon_of_ext : Text → Icon
icon_of_ext ext =
    if is_one_of ext (shown_images ++ (codes "svg" ∷ codes "ico" ∷ codes "heic" ∷ []))
    then file_image
    else if is_one_of ext (shown_videos ++ (codes "mov" ∷ codes "mkv" ∷ codes "avi" ∷ []))
    then file_play
    else if is_one_of ext shown_audio
    then file_audio
    else if is_one_of ext (codes "pdf" ∷ [])
    then file_text
    else if is_one_of ext texts
    then file_text
    else if is_one_of ext (codes "doc" ∷ codes "docx" ∷ [])
    then file_type
    else if is_one_of ext (codes "xls" ∷ codes "xlsx" ∷ [])
    then file_spreadsheet
    else if is_one_of ext (codes "ppt" ∷ codes "pptx" ∷ [])
    then presentation
    else if is_one_of ext archives
    then file_archive
    else file

-- fileIcon
unfoldable pub file_icon : Text → Icon
unfolding file_ext
file_icon name = icon_of_ext (file_ext name)

-- previewKind; the last is the empty text
pub data PreviewKind : Type 0 where
  image video audio no_preview : PreviewKind

abbrev pub preview_of_ext : Text → PreviewKind
preview_of_ext ext =
    if is_one_of ext shown_images
    then image
    else if is_one_of ext shown_videos
    then video
    else if is_one_of ext shown_audio
    then audio
    else no_preview

unfoldable pub preview_kind : Text → PreviewKind
unfolding file_ext
preview_kind name = preview_of_ext (file_ext name)
