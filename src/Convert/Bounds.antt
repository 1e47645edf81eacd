-- ===== src/Convert/Bounds.antt =====
-- What a conversion gives, whatever the commands do (convert.go): the sizes and the numbers that the
-- callers rely on.
use filestor.Base.{ℕ, ◌≤◌, List, [], ◌∷◌, length, Text, codes, text_eq, to_lower}
use filestor.Convert.Images.{
  shrink_steps, image_steps, out_path, try_magick, try_export, convert_file_to_llm_image,
}
use filestor.Convert.Pages.{
  page_steps, shrunk_path, shrink_page, shrink_page_image, convert_file_to_page_images,
}
use filestor.Convert.Frames.{read_frame, convert_file_to_frame_images}
use filestor.Convert.Texts.{
  cap_full_text, try_soffice, try_stdout, try_txt, try_catdoc, text_in, text_case, TextCase,
  case_pdf, case_sheet, case_document, case_other, convert_file_to_full_text,
}
use filestor.Convert.Ensures.{
  Holds, Ensures, Fits, FewImages, bind-Ensures, fail-Ensures, give-Ensures, if-Ensures,
  or_else-Ensures, within_temp-Ensures, if_fits-Ensures, first_images-Ensures, take_le,
}
use filestor.Convert.{
  path_ext, Tools, Files, fail, convert_text_max_bytes, analyze_image_max_bytes,
  analyze_page_max_bytes, analyze_max_pages, analyze_max_frames,
}

abbrev pub TextBounded : Text → Type 0
TextBounded text = length text ≤ convert_text_max_bytes

module _ (t : Tools) where
  shrink_steps-Ensures :
      (limit : ℕ) (src : Text) (out : ℕ → Text) (steps : List (ℕ × ℕ))
      → Ensures (Fits limit) (shrink_steps t limit src out steps)
  unfolding shrink_steps
  shrink_steps-Ensures limit src out [] = fail-Ensures (Fits limit)
  shrink_steps-Ensures limit src out ((edge, quality) ∷ steps) =
      let rest = shrink_steps t limit src out steps in
      bind-Ensures (Fits limit) _ _ (λ _.
        bind-Ensures (Fits limit) _ _
          (λ bytes. if_fits-Ensures limit bytes rest (shrink_steps-Ensures limit src out steps)))

  cap_full_text-Bounded : (text : Text) → TextBounded (cap_full_text text)
  cap_full_text-Bounded text = take_le convert_text_max_bytes text

  module _ (src : Text) where
    try_soffice-Ensures :
        (tmp format out_ext : Text) → Ensures TextBounded (try_soffice t src tmp format out_ext)
    unfolding try_soffice
    try_soffice-Ensures tmp format out_ext = bind-Ensures TextBounded _ _ (λ _.
        bind-Ensures TextBounded _ _
          (λ bytes. give-Ensures TextBounded _ (cap_full_text-Bounded bytes)))

    try_stdout-Ensures :
        (name : Text) (args : List Text) → Ensures TextBounded (try_stdout t src name args)
    unfolding try_stdout
    try_stdout-Ensures name args = bind-Ensures TextBounded _ _ (λ bin.
        bind-Ensures TextBounded _ _
          (λ out. give-Ensures TextBounded _ (cap_full_text-Bounded out)))

    try_txt-Ensures : (tmp : Text) → Ensures TextBounded (try_txt t src tmp)
    try_txt-Ensures tmp = try_soffice-Ensures tmp (codes "txt:Text") (codes ".txt")

    try_catdoc-Ensures : (ext : Text) → Ensures TextBounded (try_catdoc t src ext)
    try_catdoc-Ensures ext =
        if-Ensures TextBounded (text_eq ext (codes ".doc")) _ fail
          (try_stdout-Ensures (codes "catdoc") (codes "-w" ∷ src ∷ [])) (fail-Ensures TextBounded)

    text_in-Ensures :
        (c : TextCase) (ext tmp : Text) → Ensures TextBounded (text_in t src c ext tmp)
    text_in-Ensures case_pdf ext tmp =
        or_else-Ensures TextBounded _ _ (try_stdout-Ensures _ _) (try_txt-Ensures tmp)
    text_in-Ensures case_sheet ext tmp =
        or_else-Ensures TextBounded _ _ (try_soffice-Ensures tmp _ _) (try_txt-Ensures tmp)
    text_in-Ensures case_document ext tmp =
        or_else-Ensures TextBounded _ _ (try_catdoc-Ensures ext)
          (or_else-Ensures TextBounded _ _ (try_txt-Ensures tmp) (try_stdout-Ensures _ _))
    text_in-Ensures case_other ext tmp =
        or_else-Ensures TextBounded _ _ (try_txt-Ensures tmp) (try_stdout-Ensures _ _)

    full_text-Ensures : Ensures TextBounded (convert_file_to_full_text t src)
    unfolding convert_file_to_full_text
    full_text-Ensures =
        within_temp-Ensures TextBounded _ _ (λ tmp.
          text_in-Ensures (text_case (to_lower (path_ext src))) (to_lower (path_ext src)) tmp)

    try_magick-Ensures :
        (tmp path : Text) → Ensures (Fits analyze_image_max_bytes) (try_magick t tmp path)
    unfolding try_magick
    try_magick-Ensures tmp path =
        shrink_steps-Ensures analyze_image_max_bytes path (out_path tmp) image_steps

    try_export-Ensures :
        (tmp : Text) → Ensures (Fits analyze_image_max_bytes) (try_export t src tmp)
    unfolding try_export
    try_export-Ensures tmp = bind-Ensures (Fits analyze_image_max_bytes) _ _ (λ _.
        bind-Ensures (Fits analyze_image_max_bytes) _ _ (λ png.
          bind-Ensures (Fits analyze_image_max_bytes) _ _ (λ path. try_magick-Ensures tmp path)))

    llm_image-Ensures : Ensures (Fits analyze_image_max_bytes) (convert_file_to_llm_image t src)
    unfolding convert_file_to_llm_image
    llm_image-Ensures = within_temp-Ensures (Fits analyze_image_max_bytes) _ _ (λ tmp.
        or_else-Ensures (Fits analyze_image_max_bytes) _ _ (try_magick-Ensures tmp src)
          (try_export-Ensures tmp))

    shrink_page-Ensures : (path : Text) → Ensures (Fits analyze_page_max_bytes) (shrink_page t path)
    unfolding shrink_page
    shrink_page-Ensures path =
        shrink_steps-Ensures analyze_page_max_bytes path (shrunk_path path) page_steps

    shrink_page_image-Ensures :
        (path : Text) → Ensures (Fits analyze_page_max_bytes) (shrink_page_image t path)
    unfolding shrink_page_image
    shrink_page_image-Ensures path =
        bind-Ensures (Fits analyze_page_max_bytes) _ _
          (λ bytes. if_fits-Ensures analyze_page_max_bytes bytes _ (shrink_page-Ensures path))

    page_images-Ensures :
        Ensures
          (FewImages analyze_max_pages analyze_page_max_bytes)
          (convert_file_to_page_images t src)
    unfolding convert_file_to_page_images
    page_images-Ensures =
        let P = FewImages analyze_max_pages analyze_page_max_bytes in
        within_temp-Ensures P _ _ (λ tmp. bind-Ensures P _ _ (λ raw.
          first_images-Ensures analyze_max_pages analyze_page_max_bytes _ raw
            shrink_page_image-Ensures))

    read_frame-Ensures : (path : Text) → Ensures (Fits analyze_image_max_bytes) (read_frame t path)
    read_frame-Ensures path = bind-Ensures (Fits analyze_image_max_bytes) _ _ (λ bytes.
        if_fits-Ensures analyze_image_max_bytes bytes _
          (fail-Ensures (Fits analyze_image_max_bytes)))

    frame_images-Ensures :
        Ensures
          (FewImages analyze_max_frames analyze_image_max_bytes)
          (convert_file_to_frame_images t src)
    unfolding convert_file_to_frame_images
    frame_images-Ensures =
        let P = FewImages analyze_max_frames analyze_image_max_bytes in
        bind-Ensures P _ _ (λ bin. within_temp-Ensures P _ _ (λ tmp. bind-Ensures P _ _ (λ _.
          bind-Ensures P _ _ (λ paths.
            first_images-Ensures analyze_max_frames analyze_image_max_bytes _ paths
              read_frame-Ensures))))

-- Whatever the commands do, the full text that a conversion gives is at most 4 MiB; the image for
-- the model has one byte at least and at most 8 MiB; the pages of a document are one to six images
-- of one byte to 4 MiB each, and the frames of a video one to three of one byte to 8 MiB.
pub conversions-Bounded :
    (t : Tools) (src : Text) (files : Files)
    → Holds TextBounded (convert_file_to_full_text t src files).1
      × Holds (Fits analyze_image_max_bytes) (convert_file_to_llm_image t src files).1
      × Holds
          (FewImages analyze_max_pages analyze_page_max_bytes)
          (convert_file_to_page_images t src files).1
      × Holds
          (FewImages analyze_max_frames analyze_image_max_bytes)
          (convert_file_to_frame_images t src files).1
conversions-Bounded t src files = (
  full_text-Ensures t src files,
  llm_image-Ensures t src files,
  page_images-Ensures t src files,
  frame_images-Ensures t src files,
)
