-- ===== src/Browse/Kinds.antt =====
-- The inline player and the icon of a file agree (browse.go).
use filestor.Base.{
  ◌≡◌, refl, sym, subst, inl, inr, Bool, true, false, List, [], ◌∷◌, All, if◌then◌else◌, Bool-cases,
  Text, text_eq, text_eq_iff, arith,
}
use filestor.Browse.{
  Icon, PreviewKind, image, video, audio, no_preview, file_image, file_play, file_audio,
  icon_of_ext, preview_of_ext, file_icon, preview_kind, is_one_of, shown_images, shown_videos,
  shown_audio, file_ext,
}

-- What holds of each of some extensions holds of one that is among them.
one_of-All :
    (P : Text → Type 0) (ext : Text) (exts : List Text)
    → is_one_of ext exts ≡ true
    → All P exts
    → P ext
one_of-All P ext [] h a = cc
one_of-All P ext (e ∷ exts) h a = elim (Bool-cases (text_eq ext e)) [
  | inl same ↦ subst P (sym ((text_eq_iff ext e).0 same)) a.0
  | inr other ↦ one_of-All P ext exts (ground (arith, other, h)) a.1
]

-- The icon that goes with a player.
abbrev pub Suits : PreviewKind → Icon → Type 0
Suits image i = i ≡ file_image
Suits video i = i ≡ file_play
Suits audio i = i ≡ file_audio
Suits no_preview i = Unit {0}

abbrev HasIcon : Icon → Text → Type 0
HasIcon i ext = icon_of_ext ext ≡ i

image_icons : All (HasIcon file_image) shown_images
unfolding text_eq
image_icons = (refl, (refl, (refl, (refl, (refl, (refl, (refl, tt)))))))

video_icons : All (HasIcon file_play) shown_videos
unfolding text_eq
video_icons = (refl, (refl, (refl, tt)))

audio_icons : All (HasIcon file_audio) shown_audio
unfolding text_eq
audio_icons = (refl, (refl, (refl, (refl, (refl, (refl, tt))))))

ext-Suits : (ext : Text) → Suits (preview_of_ext ext) (icon_of_ext ext)
ext-Suits ext =
    chosen (is_one_of ext shown_images) (is_one_of ext shown_videos) (is_one_of ext shown_audio)
      (λ h. one_of-All (HasIcon file_image) ext shown_images h image_icons)
      (λ h. one_of-All (HasIcon file_play) ext shown_videos h video_icons)
      (λ h. one_of-All (HasIcon file_audio) ext shown_audio h audio_icons)
  where
    chosen :
        (a b c : Bool)
        → (a ≡ true → HasIcon file_image ext)
        → (b ≡ true → HasIcon file_play ext)
        → (c ≡ true → HasIcon file_audio ext)
        → Suits
            (if a then image else if b then video else if c then audio else no_preview)
            (icon_of_ext ext)
    chosen true b c f g h = f refl
    chosen false true c f g h = g refl
    chosen false false true f g h = h refl
    chosen false false false f g h = tt

-- A file that previewKind plays as an image, a video or audio has the icon of an image, a video or
-- audio by fileIcon.
pub preview_kind-Suits : (name : Text) → Suits (preview_kind name) (file_icon name)
unfolding preview_kind file_icon
preview_kind-Suits name = ext-Suits (file_ext name)
