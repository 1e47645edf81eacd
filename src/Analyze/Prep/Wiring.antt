-- ===== src/Analyze/Prep/Wiring.antt =====
-- The converters that the analyzer runs on the staged files (analyze.go: prepEntry; convert.go).
use filestor.Base.{ℕ, ◌*◌, Bool, true, false, Option, some, none, leb, length, Text, lookup}
use filestor.Convert.Texts.{convert_file_to_full_text}
use filestor.Convert.Images.{native_image_mime, convert_file_to_llm_image}
use filestor.Convert.Pages.{convert_file_to_page_images}
use filestor.Convert.Frames.{convert_file_to_frame_images}
use filestor.Convert.{Tools, Files, join_path, read_file}
use filestor.Analyze.Prep.{Outputs, Converters}

abbrev pub other_convert_max_bytes : ℕ
other_convert_max_bytes = 64 * 1024 * 1024

abbrev is_given : Option Text → Bool
is_given none = false
is_given (some bytes) = true

abbrev is_within : ℕ → Option Text → Bool
is_within limit none = false
is_within limit (some bytes) = leb (length bytes) limit

-- The conversions of the files of a directory. What becomes of the products is `outputs`.
unfoldable pub converters : Tools → Files → Text → Outputs → Converters
unfolding convert_file_to_full_text convert_file_to_page_images convert_file_to_llm_image
    convert_file_to_frame_images native_image_mime lookup
converters t files dir outputs = record {
  full_text = λ n. (convert_file_to_full_text t (join_path dir n) files).1;
  page_images = λ n. (convert_file_to_page_images t (join_path dir n) files).1;
  llm_image = λ n. (convert_file_to_llm_image t (join_path dir n) files).1;
  frame_images = λ n. (convert_file_to_frame_images t (join_path dir n) files).1;
  is_native_image = λ n. is_given (native_image_mime (read_file t (join_path dir n) files).1);
  is_small = λ n. is_within other_convert_max_bytes (lookup (join_path dir n) files);
  opens = λ n. is_given (read_file t (join_path dir n) files).1;
  outputs = outputs;
}
