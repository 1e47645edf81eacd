-- ===== src/Convert/Texts.antt =====
-- The full text of a document (convert.go: capFullText, convertFileToFullText).
use filestor.Base.{Bool, List, [], ◌∷◌, any, take, if◌then◌else◌, Text, codes, text_eq, to_lower}
use filestor.Convert.Kinds.{document_exts, sheet_exts}
use filestor.Convert.{
  Tools, Conversion, ◌>>=◌, give, fail, or_else, of_option, within_temp, convert_text_max_bytes,
  path_ext, find_bin, run, soffice_convert, read_converted_output,
}

-- capFullText
abbrev pub cap_full_text : Text → Text
cap_full_text bytes = take convert_text_max_bytes bytes

abbrev pub is_ext_of : List Text → Text → Bool
is_ext_of exts ext = any (λ e. text_eq ext (b'.' ∷ e)) exts

-- the switch on the extension
pub data TextCase : Type 0 where
  case_pdf case_sheet case_document case_other : TextCase

abbrev pub text_case : Text → TextCase
text_case ext =
    if text_eq ext (codes ".pdf")
    then case_pdf
    else if is_ext_of sheet_exts ext
    then case_sheet
    else if is_ext_of document_exts ext
    then case_document
    else case_other

module _ (t : Tools) (src : Text) where
  -- the closure trySoffice
  unfoldable pub try_soffice : Text → Text → Text → Conversion Text
  unfolding soffice_convert read_converted_output
  try_soffice tmp format out_ext = do
    _ ← soffice_convert t src tmp format
    bytes ← read_converted_output t tmp out_ext
    give (cap_full_text bytes)

  -- The text that a command prints: pdftotext, catdoc, and the closure tryPandoc.
  unfoldable pub try_stdout : Text → List Text → Conversion Text
  unfolding find_bin
  try_stdout name args = do
    bin ← of_option (find_bin t (name ∷ []))
    out ← run t bin args
    give (cap_full_text out)

  abbrev pub try_pandoc : Conversion Text
  try_pandoc = try_stdout (codes "pandoc") (codes "-t" ∷ codes "plain" ∷ src ∷ [])

  abbrev pub try_pdftotext : Conversion Text
  try_pdftotext =
      try_stdout (codes "pdftotext")
        (codes "-layout" ∷ codes "-nopgbrk" ∷ codes "-enc" ∷ codes "UTF-8" ∷ src ∷ codes "-" ∷ [])

  abbrev pub try_catdoc : Text → Conversion Text
  try_catdoc ext =
      if text_eq ext (codes ".doc")
      then try_stdout (codes "catdoc") (codes "-w" ∷ src ∷ [])
      else fail

  abbrev pub try_txt : Text → Conversion Text
  try_txt tmp = try_soffice tmp (codes "txt:Text") (codes ".txt")

  abbrev pub text_in : TextCase → Text → Text → Conversion Text
  text_in case_pdf ext tmp = or_else try_pdftotext (try_txt tmp)
  text_in case_sheet ext tmp = or_else (try_soffice tmp (codes "csv") (codes ".csv")) (try_txt tmp)
  text_in case_document ext tmp = or_else (try_catdoc ext) (or_else (try_txt tmp) try_pandoc)
  text_in case_other ext tmp = or_else (try_txt tmp) try_pandoc

  unfoldable pub convert_file_to_full_text : Conversion Text
  unfolding try_soffice try_stdout path_ext to_lower
  convert_file_to_full_text =
      within_temp (t.make_temp (codes "filestor-txt-*"))
        (text_in (text_case (to_lower (path_ext src))) (to_lower (path_ext src)))
