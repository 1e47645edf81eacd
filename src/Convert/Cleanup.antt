-- ===== src/Convert/Cleanup.antt =====
-- What a conversion leaves behind, whatever the commands do (convert.go): the deferred os.RemoveAll.
use filestor.Base.{
  ◌≡◌, refl, inl, inr, false, [], ◌∷◌, Option, some, none, All, Text, codes, has_prefix, Bool-cases,
  ◌⊎◌,
}
use filestor.Convert.Images.{convert_file_to_llm_image}
use filestor.Convert.Pages.{convert_file_to_page_images}
use filestor.Convert.Frames.{frames_in, convert_file_to_frame_images}
use filestor.Convert.Texts.{convert_file_to_full_text}
use filestor.Convert.{
  Tools, Files, Conversion, ◌>>=◌, then_on, of_option, join_path, find_bin, remove_all, within_temp,
}

-- no file in a directory
abbrev pub NoneIn : Text → Files → Type 0
NoneIn dir files = All (λ f. has_prefix (join_path dir []) f.0 ≡ false) files

-- no file in the temporary directory, if one was made
abbrev pub Clean : Option Text → Files → Type 0
Clean none files = Unit
Clean (some tmp) files = NoneIn tmp files

remove_all-NoneIn : (dir : Text) (files : Files) → NoneIn dir (remove_all dir files)
unfolding remove_all
remove_all-NoneIn dir [] = tt
remove_all-NoneIn dir ((path, bytes) ∷ files) =
    elim (Bool-cases (has_prefix (join_path dir []) path)) [
      | inl e ↦ rw e (remove_all-NoneIn dir files)
      | inr e ↦ rw e (e, remove_all-NoneIn dir files)
    ]

within_temp-Clean {ℓ} :
    {A : Type ℓ} (o : Option Text) (f : Text → Conversion A) (files : Files)
    → Clean o (within_temp o f files).0
unfolding within_temp
within_temp-Clean none f files = tt
within_temp-Clean (some tmp) f files = remove_all-NoneIn tmp (f tmp files).0

frames-Clean :
    (t : Tools) (src : Text) (files : Files)
    → ((convert_file_to_frame_images t src files).0 ≡ files)
      ⊎ Clean (t.make_temp (codes "filestor-frm-*")) (convert_file_to_frame_images t src files).0
unfolding convert_file_to_frame_images ◌>>=◌
frames-Clean t src files = on_bin (find_bin t (codes "ffmpeg" ∷ []))
  where
    on_bin :
        (bin : Option Text)
        → ((then_on
              (of_option bin files)
              (λ b. within_temp (t.make_temp (codes "filestor-frm-*")) (frames_in t b src))).0
            ≡ files)
          ⊎ Clean
              (t.make_temp (codes "filestor-frm-*"))
              (then_on
                (of_option bin files)
                (λ b. within_temp (t.make_temp (codes "filestor-frm-*")) (frames_in t b src))).0
    on_bin none = inl refl
    on_bin (some b) =
        inr (within_temp-Clean (t.make_temp (codes "filestor-frm-*")) (frames_in t b src) files)

pub conversions-Clean :
    (t : Tools) (src : Text) (files : Files)
    → Clean (t.make_temp (codes "filestor-txt-*")) (convert_file_to_full_text t src files).0
      × Clean (t.make_temp (codes "filestor-img-*")) (convert_file_to_llm_image t src files).0
      × Clean (t.make_temp (codes "filestor-pgs-*")) (convert_file_to_page_images t src files).0
      × (((convert_file_to_frame_images t src files).0 ≡ files)
          ⊎ Clean
              (t.make_temp (codes "filestor-frm-*"))
              (convert_file_to_frame_images t src files).0)
unfolding convert_file_to_full_text convert_file_to_llm_image convert_file_to_page_images
conversions-Clean t src files = (
  within_temp-Clean (t.make_temp (codes "filestor-txt-*")) _ files,
  within_temp-Clean (t.make_temp (codes "filestor-img-*")) _ files,
  within_temp-Clean (t.make_temp (codes "filestor-pgs-*")) _ files,
  frames-Clean t src files,
)
