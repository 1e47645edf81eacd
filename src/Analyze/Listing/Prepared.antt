-- ===== src/Analyze/Listing/Prepared.antt =====
-- After the preparation, the listing names every name that the agent's index has (analyze.go:
-- prepAnalyze, indexEntries, buildAnalyzeListing).
use filestor.Base.{
  ◌≡◌, refl, sym, subst, inl, inr, List, [], ◌∷◌, ◌++◌, Option, none, some, All, Text, codes,
  Bool-cases, trim_space_bytes, lookup,
}
use filestor.Workspace.{Workspace, Node, left_behind, reset_analyze_dir, reset_digest_dir}
use filestor.Analyze.{
  AnalyzeKind, kind_text, kind_document, kind_image, kind_video, kind_other, Entry,
}
use filestor.Analyze.Prep.{
  Converters, Products, classify_staged_file, new_entry, is_blank_name, write_text, prep_image,
  prep_kind, prep_entry, prep_entries, prep_analyze, opened, derived_names,
}
use filestor.Analyze.Listing.{listing_from, build_analyze_listing}
use filestor.Analyze.Listing.Named.{Named, KindedAs, Named-behind, listing_from-Named}

abbrev Kinded : Entry → Type 0
Kinded e = KindedAs e.kind e

no_text : (k : AnalyzeKind) (e : Entry) → e.kind ≡ k → KindedAs k e → Kinded e
no_text k e eq h = subst (λ j. KindedAs j e) (sym eq) h

module _ (c : Converters) where
  write_text-kind :
      (o : Option Text) (e : Entry) (dir : Products) → (write_text c o e dir).0.kind ≡ e.kind
  write_text-kind none e dir = refl
  write_text-kind (some text) e dir = elim (Bool-cases (is_blank_name (trim_space_bytes text))) [
    | inl blank ↦ rw blank refl
    | inr filled ↦ elim (Bool-cases (c.outputs.writes (e.name ++ codes ".txt"))) [
      | inl w ↦ rw filled (rw w refl)
      | inr w ↦ rw filled (rw w refl)
    ]
  ]

  prep_image-kind :
      (o : Option Text) (e : Entry) (dir : Products) → (prep_image c e o dir).0.kind ≡ e.kind
  prep_image-kind none e dir = refl
  prep_image-kind (some bytes) e dir =
      elim (Bool-cases (c.outputs.writes (e.name ++ codes ".jpg"))) [
        | inl w ↦ rw w refl
        | inr w ↦ rw w refl
      ]

  prep_kind-Kinded :
      (k : AnalyzeKind) (name : Text) (content : Option Text) (dir : Products)
      → Kinded (prep_kind c k (new_entry name k) content dir).0
  unfolding derived_names
  prep_kind-Kinded kind_text name content dir = refl
  prep_kind-Kinded kind_document name content dir =
      no_text kind_document _
        (write_text-kind (c.full_text name) (new_entry name kind_document) dir) tt
  prep_kind-Kinded kind_image name content dir = elim (Bool-cases (c.is_native_image name)) [
    | inl native ↦ rw native tt
    | inr other ↦ rw other (
        no_text kind_image _ (prep_image-kind (c.llm_image name) (new_entry name kind_image) dir)
          tt)
  ]
  prep_kind-Kinded kind_video name content dir = tt
  prep_kind-Kinded kind_other name content dir = elim (Bool-cases (c.is_small name)) [
    | inl small ↦ rw small (
        no_text kind_other _ (write_text-kind (c.full_text name) (new_entry name kind_other) dir)
          tt)
    | inr large ↦ rw large tt
  ]

  prep_entries-Kinded :
      (root : List (Text × Node)) (names : List Text) (dir : Products)
      → All Kinded (prep_entries c root names dir).0
  unfolding prep_entries prep_entry
  prep_entries-Kinded root [] dir = tt
  prep_entries-Kinded root (name ∷ names) dir =
      let content = opened c name (lookup name root) in
      (
        prep_kind-Kinded (classify_staged_file name content) name content dir,
        prep_entries-Kinded root names _,
      )

  each_behind :
      (a s : Text) (es : List Entry)
      → All (λ e. Named (e.name ∷ derived_names e) s) es
      → All (λ e. Named (e.name ∷ derived_names e) (a ++ s)) es
  each_behind a s [] h = tt
  each_behind a s (e ∷ es) (n, h) =
      (Named-behind a (e.name ∷ derived_names e) s n, each_behind a s es h)

  -- Whatever the converters give: the listing that the model gets first has, in backquotes, the
  -- name of every prepared file and the name of every converted form of it that the agent's index
  -- has.
  pub build_analyze_listing-Named :
      (size peek : Text → Text) (names : List Text) (w : Workspace)
      → All
          (λ e.
            Named
              (e.name ∷ derived_names e)
              (build_analyze_listing size peek (prep_analyze c names w).0))
          (prep_analyze c names w).0
  unfolding build_analyze_listing prep_analyze reset_analyze_dir reset_digest_dir
  build_analyze_listing-Named size peek names w =
      let kept = left_behind c.outputs.product_stays w.analyze_dir in
      let es = (prep_entries c w.root names kept).0 in
      each_behind (codes "Files staged for upload (converted forms listed under each source):\n")
        (listing_from size peek es) es
        (listing_from-Named size peek es (prep_entries-Kinded w.root names kept))
