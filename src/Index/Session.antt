-- ===== src/Index/Session.antt =====
-- A server's life with the index: its start, which lists and loads the month files (bundle.go: load;
-- server.go: NewServer), and then appends.
use filestor.Base.{
  ℕ, ◌<◌, ◌≡◌, inl, inr, Bool, false, List, [], ◌∷◌, Option, none, some, any, length, Text, text_eq,
  lookup,
}
use filestor.Bundle.{BundleMeta}
use filestor.Store.{Listed, out_of_fuel, failed, listed, list_keys}
use filestor.Store.Complete.{ListsKeys, list_keys_complete}
use filestor.Index.{BundleIndex, Bucket, index_key, load, append, new_bundle_index}
use filestor.Index.Sync.{Synced, append-Synced}
use filestor.Index.Loaded.{load-Synced}

-- The keys that ListKeys gives to load, or its error.
abbrev pub keys_of : Listed → Option (List Text)
keys_of out_of_fuel = none
keys_of failed = none
keys_of (listed keys) = some keys

-- what NewServer makes of the index: an error of load is logged, and the index stays empty
abbrev pub start : (Text → Option Text) → (Text → Option (List BundleMeta)) → Listed → BundleIndex
start fetch decode r = (load fetch decode (keys_of r) new_bundle_index).0

-- Appends one after the other, each with the keys that the store takes then.
unfoldable pub appends :
    (List BundleMeta → Text)
    → List (BundleMeta × (Text → Bool))
    → BundleIndex × Bucket
    → BundleIndex × Bucket
unfolding append
appends encode [] s = s
appends encode ((meta, put_ok) ∷ rest) (x, bucket) =
    appends encode rest (append encode put_ok x bucket meta).0

module _ (fetch : Text → Option Text) (decode : Text → Option (List BundleMeta))
    (encode : List BundleMeta → Text)
    (round_trip : (l : List BundleMeta) → decode (encode l) ≡ some l) where
  appends-Synced :
      (metas : List (BundleMeta × (Text → Bool))) (x : BundleIndex) (bucket : Bucket)
      → Synced decode x bucket
      → let r = appends encode metas (x, bucket) in Synced decode r.0 r.1
  unfolding appends
  appends-Synced [] x bucket k = k
  appends-Synced ((meta, put_ok) ∷ rest) x bucket k =
      appends-Synced rest _ _ (append-Synced encode decode put_ok round_trip x bucket meta k)

  -- Take a bucket and a store that lists its keys in order, page by page, without an error; no Get
  -- gives other bytes than the bucket's, and JSON decodes what it encoded. After NewServer's load,
  -- with a request for each key and one more, and any sequence of appends, each with whatever
  -- outcome, every month that did not fail to load is in memory what the bucket holds.
  pub session-Synced :
      (all : List Text) (request : Text → Option (List Text × Bool)) (bucket : Bucket)
      (metas : List (BundleMeta × (Text → Bool))) (fuel : ℕ)
      → ListsKeys all request
      → ((y m : ℕ)
          → any (text_eq (index_key y m)) all ≡ false
          → lookup (index_key y m) bucket ≡ none)
      → ((key bytes : Text) → fetch key ≡ some bytes → lookup key bucket ≡ some bytes)
      → ((marker : Text) → request marker ≡ none → ⊥)
      → length all < fuel
      → let r = appends encode metas (start fetch decode (list_keys request fuel), bucket) in
        Synced decode r.0 r.1
  session-Synced all request bucket metas fuel lists every sound answered lt =
      elim (list_keys_complete all request lists fuel lt) [
        | inr (m, fails, e) ↦ elim (answered m fails) [ ]
        | inl e ↦ rw e (
            appends-Synced metas (start fetch decode (listed all)) bucket
              (load-Synced fetch decode bucket sound all new_bundle_index every))
      ]
