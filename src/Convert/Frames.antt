-- ===== src/Convert/Frames.antt =====
-- The frames of a video as images (convert.go: convertFileToFrameImages).
use filestor.Base.{List, [], ◌∷◌, take, if◌then◌else◌, Text, codes, lookup, decimal}
use filestor.Convert.Images.{fits}
use filestor.Convert.Pages.{globbed}
use filestor.Convert.{
  Tools, Conversion, ◌>>=◌, give, fail, of_option, some_of, gather, within_temp,
  analyze_image_max_bytes, analyze_max_frames, join_path, glob, find_bin, run, read_file,
}

module _ (t : Tools) where
  abbrev pub read_frame : Text → Conversion Text
  read_frame path = do
    bytes ← read_file t path
    if fits analyze_image_max_bytes bytes then give bytes else fail

  abbrev pub frames_in : Text → Text → Text → Conversion (List Text)
  frames_in bin src tmp = do
    _ ← run t bin (
        codes "-i"
        ∷ src
        ∷ codes "-vf"
        ∷ codes "fps=1/5,scale=1280:-2"
        ∷ codes "-frames:v"
        ∷ decimal analyze_max_frames
        ∷ join_path tmp (codes "f%02d.jpg")
        ∷ [])
    paths ← globbed tmp (codes "f")
    frames ← gather read_frame (take analyze_max_frames paths)
    some_of frames

  unfoldable pub convert_file_to_frame_images : Text → Conversion (List Text)
  unfolding find_bin glob gather lookup decimal
  convert_file_to_frame_images src = do
    bin ← of_option (find_bin t (codes "ffmpeg" ∷ []))
    within_temp (t.make_temp (codes "filestor-frm-*")) (frames_in bin src)
