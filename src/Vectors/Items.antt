-- ===== src/Vectors/Items.antt =====
-- What is written to the index after the embedding of a digest (vectors.go: putVectors; embed.go:
-- embedDigest; push.go: runPush calls one with the vectors of the other).
use filestor.Base.{ℕ, ◌≡◌, refl, ap, subst, inr, List, [], ◌∷◌, ◌++◌, map, Option, some, Text}
use filestor.Bundle.{BundleMeta}
use filestor.Embed.{Vector, EmbedConfig, EmbedService, embed_digest}
use filestor.Embed.Aligned.{Embedded, Outcome, embed_digest-Outcome}
use filestor.Vectors.{VectorItem, item_of, add_item, vector_items}

-- one item for each file, in order, with its vector, under a key of the bundle
pub record Filed (bundle_id : Text) (meta : BundleMeta) (names : List Text) (vs : List Vector)
    : Type 0 where
  pub items : List VectorItem
  pub built : vector_items bundle_id meta names vs ≡ some items
  pub item_keys : map (λ i. i.key) items ≡ map (λ n. bundle_id ++ (b'/' ∷ n)) names
  pub item_names : map (λ i. i.name) items ≡ names
  pub item_vectors : map (λ i. i.vector) items ≡ vs

module _ (cfg : EmbedConfig) (svc : EmbedService) (read : Text → Option Text) (bundle_id : Text)
    (meta : BundleMeta) where
  Embedded-Filed :
      (d : ℕ) (names : List Text) (vs : List Vector)
      → Embedded cfg svc read d names vs
      → Filed bundle_id meta names vs
  unfolding vector_items
  Embedded-Filed d [] [] h = record {
    items = [];
    built = refl;
    item_keys = refl;
    item_names = refl;
    item_vectors = refl;
  }
  Embedded-Filed d [] (v ∷ vs) h = elim h [ ]
  Embedded-Filed d (n ∷ ns) [] h = elim h [ ]
  Embedded-Filed d (n ∷ ns) (v ∷ vs) (eq, len, h) =
      let f = Embedded-Filed d ns vs h in
      record {
        items = item_of bundle_id meta n v ∷ f.items;
        built = ap (add_item (item_of bundle_id meta n v)) f.built;
        item_keys = ap (◌∷◌ (bundle_id ++ (b'/' ∷ n))) f.item_keys;
        item_names = ap (◌∷◌ n) f.item_names;
        item_vectors = ap (◌∷◌ v) f.item_vectors;
      }

  -- The vectors that embedDigest gives can be written: putVectors builds, without an index out of
  -- range, one item for each file in order, with the file's vector and name, and the bundle's id,
  -- a slash and the name as its key.
  pub embed_digest-Filed :
      (names : List Text) (vs : List Vector)
      → embed_digest cfg svc read names ≡ inr vs
      → Filed bundle_id meta names vs
  embed_digest-Filed names vs eq =
      let (d, pos, h) = embed_digest-Outcome cfg svc read names in
      Embedded-Filed d names vs (subst (Outcome cfg svc read d names) eq h)
