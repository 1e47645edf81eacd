-- ===== src/Analyze/Marks/Digest.antt =====
-- The bounds of the digest that a run marks (analyze.go: toolMarkText, toolMarkImage).
use filestor.Base.{
  ℕ, ◌+◌, ◌≡◌, ◌≤◌, ◌<◌, refl, inl, inr, ◌∷◌, All, Option, none, some, leb, any, length,
  length-insert_le, All-insert, length-cut_back, Bool-cases, Text, text_eq, trim_space_bytes, arith,
}
use filestor.Names.File.{sanitize_workspace_name}
use filestor.Analyze.{
  AnalyzeKind, kind_text, kind_document, kind_image, kind_video, kind_other, Entry, Agent, Disk,
}
use filestor.Convert.{analyze_image_max_bytes}
use filestor.Analyze.Marks.{
  max_digest_texts, max_digest_images, max_text_bytes, is_nothing, load_image_file, write_digest,
  torn_digest, cut_chunk, tool_mark_text, write_mark, mark_product, mark_entry, mark_named,
  mark_accepted, tool_mark_image, entry_named, is_derived, is_text_form,
}

-- What a run has marked is within the limits: at most 16 texts and 4 images, and, on a tidy disk, no
-- more files than that, and none above 8 MiB.
pub record Marked (tidy : Type 0) (a : Agent) : Type 0 where
  pub texts : a.digest_texts ≤ max_digest_texts
  pub images : length a.digest_images ≤ max_digest_images
  pub files : tidy → length a.server.work.digest_dir ≤ a.digest_texts + length a.digest_images
  pub sizes : tidy → All (λ m. length m.1 ≤ analyze_image_max_bytes) a.server.work.digest_dir

length-cut_chunk : (s : Text) → length (cut_chunk s) ≤ max_text_bytes
length-cut_chunk s = ground (arith, length-cut_back max_text_bytes s)

module _ (P : Agent → Type 0) where
  -- What a call of mark_text does to the agent: nothing, a text more, or a write that fails.
  pub tool_mark_text-cases :
      (d : Disk) (text : Text) (a : Agent)
      → P a
      → ((name chunk : Text)
          → a.digest_texts < max_digest_texts
          → length chunk ≤ max_text_bytes
          → P (write_digest name chunk (record a { digest_texts = a.digest_texts + 1 })))
      → ((name chunk : Text) → P (torn_digest d.cuts name chunk a))
      → P (tool_mark_text d text a).0
  unfolding tool_mark_text
  tool_mark_text-cases d text a k more part =
      elim (Bool-cases (is_nothing (trim_space_bytes text))) [
        | inl e ↦ rw e k
        | inr e ↦ elim (Bool-cases (leb max_digest_texts a.digest_texts)) [
          | inl f ↦ rw (e, f) k
          | inr f ↦ elim (Bool-cases d.writes) [
            | inl g ↦
                rw (e, f, g) (more _ _ (ground arith) (length-cut_chunk (trim_space_bytes text)))
            | inr g ↦ rw (e, f, g) (part _ _)
          ]
        ]
      ]

  -- an image more
  abbrev OneMore : Agent → Type 0
  OneMore a =
      (name product bytes : Text)
      → length a.digest_images < max_digest_images
      → length bytes ≤ analyze_image_max_bytes
      → P (write_digest name bytes (record a { digest_images = product ∷ a.digest_images }))

  -- or a part of one
  abbrev Partly : Disk → Agent → Type 0
  Partly d a = (name bytes : Text) → P (torn_digest d.cuts name bytes a)

  write_mark-cases :
      (d : Disk) (product : Text) (a : Agent) (bytes : Option Text)
      → length a.digest_images < max_digest_images
      → ((b : Text) → bytes ≡ some b → length b ≤ analyze_image_max_bytes)
      → P a
      → OneMore a
      → Partly d a
      → P (write_mark d product a bytes).0
  write_mark-cases d product a none few cap k more part = k
  write_mark-cases d product a (some bytes) few cap k more part = elim (Bool-cases d.writes) [
    | inl g ↦ rw g (more _ product bytes few (cap bytes refl))
    | inr g ↦ rw g (part _ bytes)
  ]

  load_image_file-cap :
      (d : Disk) (name : Text) (bytes : Option Text) (b : Text)
      → load_image_file d name bytes ≡ some b
      → length b ≤ analyze_image_max_bytes
  load_image_file-cap d name none b e = cc
  load_image_file-cap d name (some bytes) b e = ground arith

  mark_product-cases :
      (d : Disk) (product : Text) (bytes : Option Text) (a : Agent)
      → P a
      → OneMore a
      → Partly d a
      → P (mark_product d product bytes a).0
  mark_product-cases d product bytes a k more part =
      elim (Bool-cases (any (text_eq product) a.digest_images)) [
        | inl e ↦ rw e k
        | inr e ↦ elim (Bool-cases (leb max_digest_images (length a.digest_images))) [
          | inl f ↦ rw (e, f) k
          | inr f ↦
              rw (e, f)
                (write_mark-cases d product a (load_image_file d product bytes) (ground arith)
                  (load_image_file-cap d product bytes) k more part)
        ]
      ]

  mark_entry-cases :
      (d : Disk) (a : Agent) (e : Entry) (kind : AnalyzeKind)
      → P a
      → OneMore a
      → Partly d a
      → P (mark_entry d a e kind).0
  mark_entry-cases d a e kind_text k more part = k
  mark_entry-cases d a e kind_image k more part = elim (Bool-cases (is_nothing e.image)) [
    | inl g ↦ rw g (mark_product-cases d e.name _ a k more part)
    | inr g ↦ rw g (mark_product-cases d e.image _ a k more part)
  ]
  mark_entry-cases d a e kind_document k more part = k
  mark_entry-cases d a e kind_video k more part = k
  mark_entry-cases d a e kind_other k more part = k

  mark_named-cases :
      (d : Disk) (a : Agent) (name : Text) (e : Option Entry)
      → P a
      → OneMore a
      → Partly d a
      → P (mark_named d a name e).0
  mark_named-cases d a name (some e) k more part = mark_entry-cases d a e e.kind k more part
  mark_named-cases d a name none k more part = elim (Bool-cases (is_derived a name)) [
    | inr g ↦ rw g k
    | inl g ↦ elim (Bool-cases (is_text_form name)) [
      | inl f ↦ rw (g, f) k
      | inr f ↦ rw (g, f) (mark_product-cases d name _ a k more part)
    ]
  ]

  mark_accepted-cases :
      (d : Disk) (a : Agent) (name : Option Text)
      → P a
      → OneMore a
      → Partly d a
      → P (mark_accepted d a name).0
  mark_accepted-cases d a none k more part = k
  mark_accepted-cases d a (some name) k more part =
      mark_named-cases d a name (entry_named a name) k more part

  -- What a call of mark_image does to the agent: nothing, an image more, or a write that fails.
  pub tool_mark_image-cases :
      (d : Disk) (name : Text) (a : Agent)
      → P a
      → OneMore a
      → Partly d a
      → P (tool_mark_image d name a).0
  unfolding tool_mark_image
  tool_mark_image-cases d name a k more part =
      mark_accepted-cases d a (sanitize_workspace_name name) k more part

pub Marked-text :
    (tidy : Type 0) (name chunk : Text) (a : Agent)
    → a.digest_texts < max_digest_texts
    → length chunk ≤ max_text_bytes
    → Marked tidy a
    → Marked tidy (write_digest name chunk (record a { digest_texts = a.digest_texts + 1 }))
Marked-text tidy name chunk a few short m = record {
  texts = omega (arith, few);
  images = m.images;
  files = λ h. omega (arith, m.files h, length-insert_le name chunk a.server.work.digest_dir);
  sizes = λ h.
      All-insert (λ e. length e.1 ≤ analyze_image_max_bytes) name chunk _ (omega (arith, short))
        (m.sizes h);
}

pub Marked-image :
    (tidy : Type 0) (name product bytes : Text) (a : Agent)
    → length a.digest_images < max_digest_images
    → length bytes ≤ analyze_image_max_bytes
    → Marked tidy a
    → Marked tidy (write_digest name bytes (record a { digest_images = product ∷ a.digest_images }))
Marked-image tidy name product bytes a few short m = record {
  texts = m.texts;
  images = omega (arith, few);
  files = λ h. omega (arith, m.files h, length-insert_le name bytes a.server.work.digest_dir);
  sizes =
      λ h. All-insert (λ e. length e.1 ≤ analyze_image_max_bytes) name bytes _ short (m.sizes h);
}

pub Marked-torn :
    (tidy : Type 0) (cut : Option ℕ) (name bytes : Text) (a : Agent)
    → (tidy → cut ≡ none)
    → Marked tidy a
    → Marked tidy (torn_digest cut name bytes a)
Marked-torn tidy none name bytes a clean m = record {
  texts = m.texts;
  images = m.images;
  files = m.files;
  sizes = m.sizes;
}
Marked-torn tidy (some k) name bytes a clean m = record {
  texts = m.texts;
  images = m.images;
  files = λ h. torn_apart (clean h);
  sizes = λ h. torn_apart (clean h);
}
  where
    torn_apart : {A : Type 0} → some k ≡ none → A
    torn_apart e = cc
