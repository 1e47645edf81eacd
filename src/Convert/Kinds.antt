-- ===== src/Convert/Kinds.antt =====
-- The kinds of files by their extensions (convert.go: imageExts, documentExts, videoExts, sheetExts),
-- without the dot.
use filestor.Base.{List, [], ◌∷◌, Text, codes}

abbrev pub image_exts : List Text
image_exts =
    codes "png"
    ∷ codes "jpg"
    ∷ codes "jpeg"
    ∷ codes "gif"
    ∷ codes "webp"
    ∷ codes "heic"
    ∷ codes "heif"
    ∷ codes "bmp"
    ∷ codes "tif"
    ∷ codes "tiff"
    ∷ codes "svg"
    ∷ codes "ico"
    ∷ codes "avif"
    ∷ []

abbrev pub document_exts : List Text
document_exts =
    codes "pdf"
    ∷ codes "doc"
    ∷ codes "docx"
    ∷ codes "odt"
    ∷ codes "rtf"
    ∷ codes "ppt"
    ∷ codes "pptx"
    ∷ codes "odp"
    ∷ codes "xls"
    ∷ codes "xlsx"
    ∷ codes "ods"
    ∷ []

abbrev pub video_exts : List Text
video_exts =
    codes "mp4"
    ∷ codes "mov"
    ∷ codes "mkv"
    ∷ codes "avi"
    ∷ codes "webm"
    ∷ codes "m4v"
    ∷ codes "mpg"
    ∷ codes "mpeg"
    ∷ codes "wmv"
    ∷ codes "flv"
    ∷ codes "ts"
    ∷ codes "3gp"
    ∷ []

abbrev pub sheet_exts : List Text
sheet_exts = codes "xls" ∷ codes "xlsx" ∷ codes "ods" ∷ []
