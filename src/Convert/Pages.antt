-- ===== src/Convert/Pages.antt =====
-- The pages of a document as images (convert.go: renderPDFPages, shrinkPageImage,
-- convertFileToPageImages).
use filestor.Base.{
  ℕ, List, [], ◌∷◌, ◌++◌, some, none, take, if◌then◌else◌, Text, codes, to_lower, decimal, lookup,
}
use filestor.Convert.Images.{fits, shrink_steps}
use filestor.Convert.{
  Tools, Conversion, ◌>>=◌, give, fail, or_else, of_option, some_of, gather, within_temp,
  analyze_page_max_bytes, analyze_max_pages, join_path, path_ext, has_ext, glob, has_bytes,
  find_bin, run, read_file, make_dir, soffice_convert, magick_bin, converted_file_path,
}

abbrev pub globbed : Text → Text → Conversion (List Text)
globbed dir start files = (files, some (glob dir start (codes ".jpg") files))

-- the single page that magick writes without a number
abbrev pub or_single : Text → List Text → Conversion (List Text)
or_single path (p ∷ ps) files = (files, some (p ∷ ps))
or_single path [] files =
    (files, (if has_bytes (lookup path files) then some (path ∷ []) else none))

unfoldable pub shrunk_path : Text → ℕ → Text
unfolding decimal
shrunk_path path edge = path ++ (codes ".s" ++ (decimal edge ++ codes ".jpg"))

-- the edges and the qualities of the steps
abbrev pub page_steps : List (ℕ × ℕ)
page_steps = (1600, 80) ∷ (1024, 60) ∷ []

module _ (t : Tools) where
  abbrev pub render_pdftoppm : Text → Text → Conversion (List Text)
  render_pdftoppm pdf out = do
    bin ← of_option (find_bin t (codes "pdftoppm" ∷ []))
    _ ← run t bin (
        codes "-jpeg"
        ∷ codes "-r"
        ∷ codes "150"
        ∷ codes "-f"
        ∷ codes "1"
        ∷ codes "-l"
        ∷ decimal analyze_max_pages
        ∷ pdf
        ∷ join_path out (codes "pg")
        ∷ [])
    pages ← globbed out (codes "pg-")
    some_of pages

  abbrev pub render_magick : Text → Text → Conversion (List Text)
  render_magick pdf out = do
    bin ← of_option (magick_bin t)
    _ ← run t bin (
        (pdf ++ codes "[0-5]")
        ∷ codes "-auto-orient"
        ∷ codes "-resize"
        ∷ codes "1600x1600>"
        ∷ codes "-strip"
        ∷ codes "-quality"
        ∷ codes "80"
        ∷ join_path out (codes "mg.jpg")
        ∷ [])
    pages ← globbed out (codes "mg-")
    or_single (join_path out (codes "mg.jpg")) pages

  -- renderPDFPages
  unfoldable pub render_pdf_pages : Text → Text → Conversion (List Text)
  unfolding find_bin magick_bin glob lookup decimal
  render_pdf_pages pdf tmp =
      let out = join_path tmp (codes "pages") in
      do _ ← make_dir t out; or_else (render_pdftoppm pdf out) (render_magick pdf out)

  unfoldable pub shrink_page : Text → Conversion Text
  unfolding shrink_steps shrunk_path
  shrink_page path = shrink_steps t analyze_page_max_bytes path (shrunk_path path) page_steps

  -- shrinkPageImage
  unfoldable pub shrink_page_image : Text → Conversion Text
  unfolding shrink_page lookup
  shrink_page_image path = do
    bytes ← read_file t path
    if fits analyze_page_max_bytes bytes then give bytes else shrink_page path

  -- the export to PDF, by soffice
  abbrev pub pages_of_export : Text → Text → Conversion (List Text)
  pages_of_export src tmp =
      let pdf_dir = join_path tmp (codes "pdf") in
      do
        _ ← soffice_convert t src pdf_dir (codes "pdf")
        pdf ← converted_file_path pdf_dir (codes ".pdf")
        render_pdf_pages pdf tmp

  -- the last resort, a single page
  abbrev pub single_page : Text → Text → Conversion (List Text)
  single_page src tmp =
      let png_dir = join_path tmp (codes "png") in
      do
        _ ← soffice_convert t src png_dir (codes "png")
        png ← converted_file_path png_dir (codes ".png")
        give (png ∷ [])

  abbrev pub raw_pages : Text → Text → Conversion (List Text)
  raw_pages src tmp =
      or_else (if has_ext (codes ".pdf") src then render_pdf_pages src tmp else fail)
        (or_else (pages_of_export src tmp) (single_page src tmp))

  -- convertFileToPageImages
  unfoldable pub convert_file_to_page_images : Text → Conversion (List Text)
  unfolding render_pdf_pages shrink_page_image soffice_convert converted_file_path gather path_ext
      to_lower
  convert_file_to_page_images src = within_temp (t.make_temp (codes "filestor-pgs-*")) (λ tmp. do
    raw ← raw_pages src tmp
    pages ← gather shrink_page_image (take analyze_max_pages raw)
    some_of pages)
