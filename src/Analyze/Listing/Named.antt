-- ===== src/Analyze/Listing/Named.antt =====
-- The listing names everything that the tools accept (analyze.go: buildAnalyzeListing, indexEntries).
use filestor.Base.{
  ◌≡◌, refl, sym, ap, ◌∙◌, List, [], ◌∷◌, ◌++◌, append_assoc, append-nil, All, Text, codes,
}
use filestor.Analyze.{
  AnalyzeKind, kind_text, kind_document, kind_image, kind_video, kind_other, Entry,
}
use filestor.Analyze.Prep.{if_named, derived_names}
use filestor.Analyze.Listing.{
  quoted, more_names, quote_names, line_of, text_line, images_line, image_line, form_lines,
  failure_note, entry_head, entry_lines, listing_from,
}

-- a text stands somewhere in another
pub record Occurs (t s : Text) : Type 0 where
  pub front : Text
  pub behind : Text
  pub split : s ≡ front ++ (t ++ behind)

module _ {t : Text} where
  Occurs-behind : (a : Text) {s : Text} → Occurs t s → Occurs t (a ++ s)
  Occurs-behind a o = record {
    front = a ++ o.front;
    behind = o.behind;
    split = ap (λ r. a ++ r) o.split ∙ sym (append_assoc a o.front (t ++ o.behind));
  }

  Occurs-before : {s : Text} (b : Text) → Occurs t s → Occurs t (s ++ b)
  Occurs-before b o = record {
    front = o.front;
    behind = o.behind ++ b;
    split =
        ap (λ r. r ++ b) o.split
        ∙ append_assoc o.front (t ++ o.behind) b
        ∙ ap (λ r. o.front ++ r) (append_assoc t o.behind b);
  }

Occurs-self : (t b : Text) → Occurs t (t ++ b)
Occurs-self t b = record { front = []; behind = b; split = refl }

Occurs-whole : (t : Text) → Occurs t t
Occurs-whole t = record { front = []; behind = []; split = sym (append-nil t) }

-- all of some names stand in a text, in backquotes
abbrev pub Named : List Text → Text → Type 0
Named ns s = All (λ n. Occurs (quoted n) s) ns

Named-map :
    (ns : List Text) (s r : Text)
    → ((n : Text) → Occurs (quoted n) s → Occurs (quoted n) r)
    → Named ns s
    → Named ns r
Named-map [] s r g h = tt
Named-map (n ∷ ns) s r g (o, h) = (g n o, Named-map ns s r g h)

pub Named-behind : (a : Text) (ns : List Text) (s : Text) → Named ns s → Named ns (a ++ s)
Named-behind a ns s h = Named-map ns s (a ++ s) (λ n o. Occurs-behind a o) h

Named-before : (b : Text) (ns : List Text) (s : Text) → Named ns s → Named ns (s ++ b)
Named-before b ns s h = Named-map ns s (s ++ b) (λ n o. Occurs-before b o) h

-- the names of two texts stand in both together
Named-both : (ns ms : List Text) (s r : Text) → Named ns s → Named ms r → Named (ns ++ ms) (s ++ r)
Named-both [] ms s r h k = Named-behind s ms r k
Named-both (n ∷ ns) ms s r (o, h) k = (Occurs-before r o, Named-both ns ms s r h k)

more_names-Named : (ns : List Text) → Named ns (more_names ns)
more_names-Named [] = tt
more_names-Named (n ∷ ns) = (
  Occurs-behind (b' ' ∷ []) (Occurs-self (quoted n) (more_names ns)),
  Named-behind (b' ' ∷ quoted n) ns (more_names ns) (more_names-Named ns),
)

quote_names-Named : (ns : List Text) → Named ns (quote_names ns)
quote_names-Named [] = tt
quote_names-Named (n ∷ ns) = (
  Occurs-self (quoted n) (more_names ns),
  Named-behind (quoted n) ns (more_names ns) (more_names-Named ns),
)

line_of-Named : (label rest : Text) (ns : List Text) → Named ns rest → Named ns (line_of label rest)
line_of-Named label rest ns h =
    Named-behind (codes "  ") ns _ (
      Named-behind label ns _
        (Named-behind (codes ": ") ns _ (Named-before (b'\n' ∷ []) ns rest h)))

text_line-Named : (e : Entry) (t : Text) → Named (if_named t) (text_line e t)
text_line-Named e [] = tt
text_line-Named e (c ∷ s) =
    line_of-Named (codes "text") _ ((c ∷ s) ∷ []) (Occurs-self (quoted (c ∷ s)) _, tt)

images_line-Named : (label : Text) (ns : List Text) → Named ns (images_line label ns)
images_line-Named label [] = tt
images_line-Named label (n ∷ ns) = line_of-Named label _ (n ∷ ns) (quote_names-Named (n ∷ ns))

image_line-Named : (t : Text) → Named (if_named t) (image_line t)
image_line-Named [] = tt
image_line-Named (c ∷ s) =
    line_of-Named (codes "image") _ ((c ∷ s) ∷ []) (Occurs-whole (quoted (c ∷ s)), tt)

form_lines-Named : (e : Entry) → Named (derived_names e) (form_lines e)
unfolding derived_names
form_lines-Named e = Named-behind (failure_note e) (derived_names e) _ (
    Named-behind (b'\n' ∷ []) (derived_names e) _ (
      Named-both (if_named e.text) _ (text_line e e.text) _ (text_line-Named e e.text) (
        Named-both e.pages _ (images_line (codes "pages") e.pages) _
          (images_line-Named (codes "pages") e.pages)
          (Named-both e.frames _ (images_line (codes "frames") e.frames) _
            (images_line-Named (codes "frames") e.frames) (image_line-Named e.image)))))

-- a text has no converted forms
abbrev pub KindedAs : AnalyzeKind → Entry → Type 0
KindedAs kind_text e = derived_names e ≡ []
KindedAs _ e = Unit

module _ (size peek : Text → Text) where
  entry_head-Named : (e : Entry) → Named (e.name ∷ []) (entry_head size peek e)
  entry_head-Named e = Named-behind (codes "- ") (e.name ∷ []) _ (Occurs-self (quoted e.name) _, tt)

  with_forms :
      (e : Entry)
      → Named (e.name ∷ derived_names e) (entry_head size peek e ++ (codes ")" ++ form_lines e))
  with_forms e =
      Named-both (e.name ∷ []) (derived_names e) (entry_head size peek e) _ (entry_head-Named e)
        (Named-behind (codes ")") (derived_names e) (form_lines e) (form_lines-Named e))

  entry_lines-Named :
      (k : AnalyzeKind) (e : Entry)
      → KindedAs k e
      → Named (e.name ∷ derived_names e) (entry_lines size peek e k)
  entry_lines-Named kind_text e no_forms =
      rw no_forms (Named-before _ (e.name ∷ []) (entry_head size peek e) (entry_head-Named e))
  entry_lines-Named kind_document e h = with_forms e
  entry_lines-Named kind_image e h = with_forms e
  entry_lines-Named kind_video e h = with_forms e
  entry_lines-Named kind_other e h = with_forms e

  pub listing_from-Named :
      (es : List Entry)
      → All (λ e. KindedAs e.kind e) es
      → All (λ e. Named (e.name ∷ derived_names e) (listing_from size peek es)) es
  unfolding listing_from
  listing_from-Named [] h = tt
  listing_from-Named (e ∷ es) (k, h) = (
    Named-before (listing_from size peek es) (e.name ∷ derived_names e)
        (entry_lines size peek e e.kind) (entry_lines-Named e.kind e k),
    each_behind es (entry_lines size peek e e.kind) (listing_from size peek es)
        (listing_from-Named es h),
  )
    where
      each_behind :
          (fs : List Entry) (a s : Text)
          → All (λ f. Named (f.name ∷ derived_names f) s) fs
          → All (λ f. Named (f.name ∷ derived_names f) (a ++ s)) fs
      each_behind [] a s h = tt
      each_behind (f ∷ fs) a s (n, h) =
          (Named-behind a (f.name ∷ derived_names f) s n, each_behind fs a s h)
