-- ===== src/Tests/Convert.antt =====
-- Runs of the conversions on commands that print a text and write one small image.
use filestor.Base.{
  ◌≡◌, refl, ◌*◌, ◌⊎◌, ℕ, ◌≤◌, Bool, true, false, List, [], ◌∷◌, Option, some, none, All, Text,
  codes, insert, has_prefix,
}
use filestor.Convert.{Tools, Files, analyze_image_max_bytes}
use filestor.Convert.Texts.{convert_file_to_full_text}
use filestor.Convert.Images.{convert_file_to_llm_image, native_image_mime}
use filestor.Convert.Pages.{convert_file_to_page_images}
use filestor.Convert.Frames.{convert_file_to_frame_images}
use filestor.Convert.Ensures.{Holds, Fits, FewImages}
use filestor.Convert.Bounds.{TextBounded, conversions-Bounded}
use filestor.Analyze.Prep.{Outputs, prep_analyze}
use filestor.Analyze.Prep.Wiring.{converters}
use filestor.Analyze.Prep.Bounds.{FewForms, AllLoadable, prep_analyze-converters}
use filestor.Workspace.{Workspace, left_behind}
use filestor.Tests.Runs.{analyzing}

-- Every command is installed; a run prints "text" and writes a frame.
abbrev pub tools : Tools
tools = record {
  look_path = λ n. some n;
  run_cmd =
      λ bin args files. (insert (codes "/tmp/c/f01.jpg") (codes "jpeg") files, some (codes "text"));
  make_temp = λ pattern. some (codes "/tmp/c");
  makes = λ path. true;
  reads = λ path. true;
  writes = λ path. true;
}

abbrev pub disk : Files
disk = (codes "/w/a.pdf", codes "pdf") ∷ (codes "/w/a.mp4", codes "mp4") ∷ []

text_test : convert_file_to_full_text tools (codes "/w/a.pdf") disk ≡ (disk, some (codes "text"))
unfolding convert_file_to_full_text filestor.Convert.within_temp filestor.Base.text_eq
    filestor.Convert.or_else filestor.Convert.◌>>=◌ insert
text_test = refl

frames_test :
    convert_file_to_frame_images tools (codes "/w/a.mp4") disk ≡ (disk, some (codes "jpeg" ∷ []))
unfolding convert_file_to_frame_images filestor.Convert.◌>>=◌ filestor.Convert.within_temp insert
    filestor.Workspace.Listing.insert_sorted
frames_test = refl

image_test : (convert_file_to_llm_image tools (codes "/w/a.pdf") disk).1 ≡ none
unfolding convert_file_to_llm_image filestor.Convert.within_temp filestor.Convert.or_else
    filestor.Convert.◌>>=◌ filestor.Base.text_eq
image_test = refl

pages_test : (convert_file_to_page_images tools (codes "/w/a.pdf") disk).1 ≡ none
unfolding convert_file_to_page_images filestor.Convert.within_temp filestor.Convert.◌>>=◌
    filestor.Convert.or_else insert
pages_test = refl

mime_test : native_image_mime (some (codes "GIF89a...")) ≡ some (codes "image/gif")
unfolding native_image_mime
mime_test = refl

conversions-Bounded_example :
    Holds TextBounded (convert_file_to_full_text tools (codes "/w/a.mp4") disk).1
    × Holds
        (Fits analyze_image_max_bytes)
        (convert_file_to_llm_image tools (codes "/w/a.mp4") disk).1
    × Holds
        (FewImages 6 (4 * 1024 * 1024))
        (convert_file_to_page_images tools (codes "/w/a.mp4") disk).1
    × Holds
        (FewImages 3 analyze_image_max_bytes)
        (convert_file_to_frame_images tools (codes "/w/a.mp4") disk).1
conversions-Bounded_example = conversions-Bounded tools (codes "/w/a.mp4") disk

-- a reset that fails on old files, and writes of JPEG files that fail with a part written
abbrev pub outputs : Outputs
outputs = record {
  writes = λ n. has_prefix (codes "a.pdf.t") n;
  cuts = λ n. some 2;
  product_stays = λ n. true;
  mark_stays = λ n. true;
}

prep_analyze-converters_example :
    All FewForms
      (prep_analyze
        (converters tools disk (codes "/w") outputs)
        (codes "a.pdf" ∷ [])
        analyzing.work).0
    × AllLoadable outputs
        (left_behind (λ n. true) analyzing.work.analyze_dir)
        (prep_analyze
          (converters tools disk (codes "/w") outputs)
          (codes "a.pdf" ∷ [])
          analyzing.work).1.analyze_dir
prep_analyze-converters_example =
    prep_analyze-converters tools disk (codes "/w") outputs (codes "a.pdf" ∷ []) analyzing.work
