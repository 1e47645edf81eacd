-- ===== src/Convert/Images.antt =====
-- Images for the model (convert.go: sniffImageMIME, nativeImageMIME, convertFileToLLMImage).
use filestor.Base.{
  ℕ, Bool, ◌&&◌, ◌||◌, List, [], ◌∷◌, ◌++◌, Option, some, none, leb, take, if◌then◌else◌, length,
  Text, codes, has_prefix, decimal, lookup, insert,
}
use filestor.Convert.{
  Tools, Conversion, ◌>>=◌, give, fail, or_else, within_temp, analyze_image_max_bytes, join_path,
  read_file, magick_convert, soffice_convert, read_converted_output, has_bytes,
}

-- sniffImageMIME
unfoldable pub sniff_image_mime : Text → Option Text
unfolding has_prefix
sniff_image_mime head =
    if has_prefix (255 ∷ 216 ∷ 255 ∷ []) head
    then some (codes "image/jpeg")
    else if has_prefix (137 ∷ b'P' ∷ b'N' ∷ b'G' ∷ 13 ∷ 10 ∷ 26 ∷ 10 ∷ []) head
    then some (codes "image/png")
    else if has_prefix (codes "GIF87a") head || has_prefix (codes "GIF89a") head
    then some (codes "image/gif")
    else none

abbrev within_size : Bool → Option Text → Option Text
within_size ok mime = if ok then mime else none

-- not empty, and no larger than the limit
abbrev pub fits : ℕ → Text → Bool
fits limit bytes = has_bytes (some bytes) && leb (length bytes) limit

-- nativeImageMIME, on the bytes of the file when it opens
unfoldable pub native_image_mime : Option Text → Option Text
unfolding sniff_image_mime
native_image_mime none = none
native_image_mime (some bytes) =
    within_size (leb (length bytes) analyze_image_max_bytes) (sniff_image_mime (take 16 bytes))

unfoldable pub out_path : Text → ℕ → Text
unfolding decimal
out_path tmp edge = join_path tmp (codes "out-" ++ (decimal edge ++ codes ".jpg"))

-- the edges and the qualities of the steps
abbrev pub image_steps : List (ℕ × ℕ)
image_steps = (2048, 85) ∷ (1280, 70) ∷ (800, 50) ∷ []

module _ (t : Tools) where
  -- the steps of a loop that makes an image smaller until it fits
  unfoldable pub shrink_steps : ℕ → Text → (ℕ → Text) → List (ℕ × ℕ) → Conversion Text
  unfolding magick_convert lookup
  shrink_steps limit src out [] = fail
  shrink_steps limit src out ((edge, quality) ∷ steps) =
      let rest = shrink_steps limit src out steps in
      do
        _ ← magick_convert t src (out edge) edge quality
        bytes ← read_file t (out edge)
        if fits limit bytes then give bytes else rest

  -- the closure tryMagick
  unfoldable pub try_magick : Text → Text → Conversion Text
  unfolding shrink_steps out_path
  try_magick tmp src = shrink_steps analyze_image_max_bytes src (out_path tmp) image_steps

  -- os.WriteFile
  abbrev pub write_file : Text → Text → Conversion Text
  write_file path bytes files =
      if t.writes path then (insert path bytes files, some path) else (files, none)

  -- the export to png, by soffice
  unfoldable pub try_export : Text → Text → Conversion Text
  unfolding try_magick soffice_convert read_converted_output insert
  try_export src tmp =
      let png_dir = join_path tmp (codes "lo") in
      do
        _ ← soffice_convert t src png_dir (codes "png")
        png ← read_converted_output t png_dir (codes ".png")
        path ← write_file (join_path png_dir (codes "page.png")) png
        try_magick tmp path

  unfoldable pub convert_file_to_llm_image : Text → Conversion Text
  unfolding try_magick try_export
  convert_file_to_llm_image src =
      within_temp (t.make_temp (codes "filestor-img-*"))
        (λ tmp. or_else (try_magick tmp src) (try_export src tmp))
