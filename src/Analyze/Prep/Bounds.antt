-- ===== src/Analyze/Prep/Bounds.antt =====
-- The sizes and the numbers of what is prepared before the model is asked (analyze.go: prepEntry,
-- prepAnalyze; convert.go).
use mathlib.Core.List.{Mem}
use filestor.Base.{
  ℕ, ◌+◌, ◌≡◌, ◌≢◌, ◌≤◌, ◌⊎◌, inl, inr, false, List, [], ◌∷◌, ◌++◌, Option, some, none, All, arith,
  length, Text, insert, codes, cons_ne_nil, All-insert, lookup, Bool-cases, trim_space_bytes,
}
use filestor.Convert.{
  Tools, Files, join_path, analyze_image_max_bytes, analyze_page_max_bytes, analyze_max_pages,
  analyze_max_frames,
}
use filestor.Convert.Ensures.{Holds, Fits, FewImages}
use filestor.Convert.Bounds.{TextBounded, conversions-Bounded}
use filestor.Analyze.Prep.Wiring.{converters}
use filestor.Workspace.{Workspace, Node, torn, left_behind, reset_analyze_dir, reset_digest_dir}
use filestor.Workspace.Leftovers.{All-torn, All-Mem}
use filestor.Analyze.Prep.{
  classify_staged_file, Outputs, Converters, Products, write_derived, new_entry, is_blank_name,
  write_text, write_images, or_no_images, prep_image, prep_kind, prep_entry, prep_entries,
  prep_analyze, opened, page_name, frame_name,
}
use filestor.Analyze.{
  AnalyzeKind, kind_text, kind_document, kind_image, kind_video, kind_other, Entry,
}

-- a file that the reset left behind, or one that loadImageFile takes: it is within
-- analyzeImageMaxBytes, and not empty unless its write failed
abbrev pub Loadable : Outputs → Products → Text × Text → Type 0
Loadable o left f =
    Mem f left ⊎ ((length f.1 ≤ analyze_image_max_bytes) × ((f.1 ≢ []) ⊎ (o.writes f.0 ≡ false)))

abbrev pub AllLoadable : Outputs → Products → Products → Type 0
AllLoadable o left dir = All (Loadable o left) dir

abbrev pub FewForms : Entry → Type 0
FewForms e = (length e.pages ≤ analyze_max_pages) × (length e.frames ≤ analyze_max_frames)

abbrev Prepared : Outputs → Products → Entry × Products → Type 0
Prepared o left r = FewForms r.0 × AllLoadable o left r.1

-- what the converters promise
record Bounded (c : Converters) : Type 0 where
  text_ok : (n : Text) → Holds TextBounded (c.full_text n)
  image_ok : (n : Text) → Holds (Fits analyze_image_max_bytes) (c.llm_image n)
  pages_ok :
      (n : Text) → Holds (FewImages analyze_max_pages analyze_page_max_bytes) (c.page_images n)
  frames_ok :
      (n : Text) → Holds (FewImages analyze_max_frames analyze_image_max_bytes) (c.frame_images n)

Fits-wider :
    (limit : ℕ) (bytes : Text)
    → limit ≤ analyze_image_max_bytes
    → Fits limit bytes
    → Fits analyze_image_max_bytes bytes
Fits-wider limit bytes le f = (f.0, omega (arith, f.1, le))

nonblank : (text : Text) → is_blank_name (trim_space_bytes text) ≡ false → text ≢ []
unfolding trim_space_bytes
nonblank [] e = cc
nonblank (c ∷ s) e = cons_ne_nil c s

module _ (c : Converters) (left : Products) where
  -- a write of bytes that can be loaded, whatever becomes of it
  Loadable-torn :
      (name bytes : Text) (dir : Products)
      → c.outputs.writes name ≡ false
      → length bytes ≤ analyze_image_max_bytes
      → AllLoadable c.outputs left dir
      → AllLoadable c.outputs left (torn (c.outputs.cuts name) name bytes dir)
  Loadable-torn name bytes dir w le ok =
      All-torn (Loadable c.outputs left) (c.outputs.cuts name) name bytes dir
        (λ part short. inr (omega (arith, short, le), inr w)) ok

  Loadable-insert :
      (name bytes : Text) (dir : Products)
      → length bytes ≤ analyze_image_max_bytes
      → bytes ≢ []
      → AllLoadable c.outputs left dir
      → AllLoadable c.outputs left (insert name bytes dir)
  Loadable-insert name bytes dir le filled ok =
      All-insert (Loadable c.outputs left) name bytes dir (inr (le, inl filled)) ok

  write_derived-Loadable :
      (name bytes : Text) (dir : Products)
      → Fits analyze_image_max_bytes bytes
      → AllLoadable c.outputs left dir
      → AllLoadable c.outputs left (write_derived c name bytes dir).0
  write_derived-Loadable name bytes dir (filled, le) ok =
      elim (Bool-cases (c.outputs.writes name)) [
        | inl e ↦ rw e (Loadable-insert name bytes dir le filled ok)
        | inr e ↦ rw e (Loadable-torn name bytes dir e le ok)
      ]

  write_text-Prepared :
      (o : Option Text) (e : Entry) (dir : Products)
      → Holds TextBounded o
      → Prepared c.outputs left (e, dir)
      → Prepared c.outputs left (write_text c o e dir)
  write_text-Prepared none e dir h ok = ok
  write_text-Prepared (some text) e dir h (few, ok) =
      let name = e.name ++ codes ".txt" in
      let le : length text ≤ analyze_image_max_bytes = omega (arith, h) in
      elim (Bool-cases (is_blank_name (trim_space_bytes text))) [
        | inl blank ↦ rw blank (few, ok)
        | inr filled ↦ elim (Bool-cases (c.outputs.writes name)) [
          | inl w ↦
              rw filled (rw w (few, Loadable-insert name text dir le (nonblank text filled) ok))
          | inr w ↦ rw filled (rw w (few, Loadable-torn name text dir w le ok))
        ]
      ]

  prep_image-Prepared :
      (o : Option Text) (e : Entry) (dir : Products)
      → Holds (Fits analyze_image_max_bytes) o
      → Prepared c.outputs left (e, dir)
      → Prepared c.outputs left (prep_image c e o dir)
  prep_image-Prepared none e dir h ok = ok
  prep_image-Prepared (some bytes) e dir h (few, ok) =
      let name = e.name ++ codes ".jpg" in
      elim (Bool-cases (c.outputs.writes name)) [
        | inl w ↦ rw w (few, Loadable-insert name bytes dir h.1 h.0 ok)
        | inr w ↦ rw w (few, Loadable-torn name bytes dir w h.1 ok)
      ]

  write_images-Loadable :
      (limit : ℕ) (name : ℕ → Text) (i : ℕ) (images : List Text) (dir : Products)
      → limit ≤ analyze_image_max_bytes
      → All (Fits limit) images
      → AllLoadable c.outputs left dir
      → AllLoadable c.outputs left (write_images c name i images dir).1
  write_images-Loadable limit name i [] dir le fit ok = ok
  write_images-Loadable limit name i (b ∷ bs) dir le (f, fs) ok =
      write_images-Loadable limit name (i + 1) bs _ le fs
        (write_derived-Loadable (name i) b dir (Fits-wider limit b le f) ok)

  length-write_images :
      (name : ℕ → Text) (i : ℕ) (images : List Text) (dir : Products)
      → length (write_images c name i images dir).0 ≤ length images
  length-write_images name i [] dir = omega arith
  length-write_images name i (b ∷ bs) dir = elim (Bool-cases (c.outputs.writes (name i))) [
    | inl w ↦ rw w (omega (arith, length-write_images name (i + 1) bs (insert (name i) b dir)))
    | inr w ↦ rw w (
        omega (
          arith,
          length-write_images name (i + 1) bs (torn (c.outputs.cuts (name i)) (name i) b dir),
        ))
  ]

  or_no_images-Few :
      (count limit : ℕ) (o : Option (List Text))
      → Holds (FewImages count limit) o
      → All (Fits limit) (or_no_images o) × (length (or_no_images o) ≤ count)
  or_no_images-Few count limit none h = (tt, omega arith)
  or_no_images-Few count limit (some l) h = (h.0, h.1)

  -- the pages of a document, or the frames of a video
  write_few :
      (count limit : ℕ) (name : ℕ → Text) (o : Option (List Text)) (dir : Products)
      → limit ≤ analyze_image_max_bytes
      → Holds (FewImages count limit) o
      → AllLoadable c.outputs left dir
      → (length (write_images c name 1 (or_no_images o) dir).0 ≤ count)
        × AllLoadable c.outputs left (write_images c name 1 (or_no_images o) dir).1
  write_few count limit name o dir le h ok =
      let (fit, few) = or_no_images-Few count limit o h in
      (
        omega (arith, few, length-write_images name 1 (or_no_images o) dir),
        write_images-Loadable limit name 1 (or_no_images o) dir le fit ok,
      )

  prep_kind-Prepared :
      Bounded c
      → (k : AnalyzeKind) (e : Entry) (content : Option Text) (dir : Products)
      → Prepared c.outputs left (e, dir)
      → Prepared c.outputs left (prep_kind c k e content dir)
  prep_kind-Prepared b kind_text e content dir ok = ok
  prep_kind-Prepared b kind_document e content dir ok =
      let (few, ok') = write_text-Prepared (c.full_text e.name) e dir (b.text_ok e.name) ok in
      let (pages, ok'') =
        write_few analyze_max_pages analyze_page_max_bytes (page_name e.name) (c.page_images e.name)
          (write_text c (c.full_text e.name) e dir).1 (omega arith) (b.pages_ok e.name) ok' in
      ((pages, few.1), ok'')
  prep_kind-Prepared b kind_image e content dir ok = elim (Bool-cases (c.is_native_image e.name)) [
    | inl native ↦ rw native ok
    | inr other ↦ rw other (prep_image-Prepared (c.llm_image e.name) e dir (b.image_ok e.name) ok)
  ]
  prep_kind-Prepared b kind_video e content dir (few, ok) =
      let (frames, ok') =
        write_few analyze_max_frames analyze_image_max_bytes (frame_name e.name)
          (c.frame_images e.name) dir (omega arith) (b.frames_ok e.name) ok in
      ((few.0, frames), ok')
  prep_kind-Prepared b kind_other e content dir ok = elim (Bool-cases (c.is_small e.name)) [
    | inl small ↦ rw small (write_text-Prepared (c.full_text e.name) e dir (b.text_ok e.name) ok)
    | inr large ↦ rw large ok
  ]

  prep_entries-Prepared :
      Bounded c
      → (root : List (Text × Node)) (names : List Text) (dir : Products)
      → AllLoadable c.outputs left dir
      → All FewForms (prep_entries c root names dir).0
        × AllLoadable c.outputs left (prep_entries c root names dir).1
  unfolding prep_entries prep_entry
  prep_entries-Prepared b root [] dir ok = (tt, ok)
  prep_entries-Prepared b root (name ∷ names) dir ok =
      let content = opened c name (lookup name root) in
      let kind = classify_staged_file name content in
      let (few, ok') =
        prep_kind-Prepared b kind (new_entry name kind) content dir
          ((omega arith, omega arith), ok) in
      let (fews, ok'') = prep_entries-Prepared b root names _ ok' in ((few, fews), ok'')

converters-Bounded :
    (t : Tools) (files : Files) (dir : Text) (outputs : Outputs)
    → Bounded (converters t files dir outputs)
unfolding converters
converters-Bounded t files dir outputs = record {
  text_ok = λ n. (conversions-Bounded t (join_path dir n) files).0;
  image_ok = λ n. (conversions-Bounded t (join_path dir n) files).1;
  pages_ok = λ n. (conversions-Bounded t (join_path dir n) files).2;
  frames_ok = λ n. (conversions-Bounded t (join_path dir n) files).3;
}

-- With the conversions of convert.go, whatever the commands do and whatever is staged: every file
-- under .filestor/analyze after prepAnalyze is one that the reset left there, or is within the
-- size that loadImageFile accepts, and not empty unless its write failed; no staged file has more
-- than six pages or three frames.
pub prep_analyze-converters :
    (t : Tools) (files : Files) (dir : Text) (outputs : Outputs) (names : List Text) (w : Workspace)
    → All FewForms (prep_analyze (converters t files dir outputs) names w).0
      × AllLoadable outputs
          (left_behind outputs.product_stays w.analyze_dir)
          (prep_analyze (converters t files dir outputs) names w).1.analyze_dir
unfolding prep_analyze converters reset_analyze_dir reset_digest_dir
prep_analyze-converters t files dir outputs names w =
    let left = left_behind outputs.product_stays w.analyze_dir in
    prep_entries-Prepared (converters t files dir outputs) left
      (converters-Bounded t files dir outputs) w.root names left
      (All-Mem (Loadable outputs left) left (λ f m. inl m))
