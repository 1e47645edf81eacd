-- ===== src/Vectors/Pipeline/Complete.antt =====
-- An embedding that counts as done has written a vector for every mark (push.go: runPush).
use filestor.Base.{◌≡◌, refl, inl, inr, ◌⊎◌, List, Option, none, some, Text}
use filestor.Bundle.{BundleMeta}
use filestor.Embed.{Vector, EmbedError, embed_digest}
use filestor.Vectors.{
  VectorsClient, PutOutcome, written, panicked, bad_url, send_failed, put_refused,
  new_vectors_client,
}
use filestor.Vectors.Items.{Filed, embed_digest-Filed}
use filestor.Server.Push.{embedded}
use filestor.Vectors.Pipeline.{
  Pipeline, put_outcome, put_all, with_client, with_vectors, embed_and_put,
}

module _ (p : Pipeline) (id : Text) (meta : BundleMeta) (digest : List Text) where
  -- every mark has a vector, and the request with an item for each was answered with 200
  pub record AllWritten : Type 0 where
    pub vectors : List Vector
    pub client : VectorsClient
    pub embeds : embed_digest p.embed_config p.embed_service p.read digest ≡ inr vectors
    pub opens : new_vectors_client p.urls p.vectors_config ≡ some client
    pub files : Filed id meta digest vectors
    pub writes : put_all p id meta digest client vectors ≡ written

  put_outcome-written : (o : PutOutcome) → put_outcome o ≡ embedded → o ≡ written
  put_outcome-written written e = refl
  put_outcome-written panicked e = cc
  put_outcome-written bad_url e = cc
  put_outcome-written send_failed e = cc
  put_outcome-written (put_refused status message) e = cc

  of_client :
      (vs : List Vector) (o : Option VectorsClient)
      → embed_digest p.embed_config p.embed_service p.read digest ≡ inr vs
      → new_vectors_client p.urls p.vectors_config ≡ o
      → with_client p id meta digest o vs ≡ embedded
      → AllWritten
  of_client vs none eq opens e = cc
  of_client vs (some c) eq opens e = record {
    vectors = vs;
    client = c;
    embeds = eq;
    opens = opens;
    files = embed_digest-Filed p.embed_config p.embed_service p.read id meta digest vs eq;
    writes = put_outcome-written (put_all p id meta digest c vs) e;
  }

  of_vectors :
      (r : EmbedError ⊎ List Vector)
      → embed_digest p.embed_config p.embed_service p.read digest ≡ r
      → with_vectors p id meta digest r ≡ embedded
      → AllWritten
  of_vectors (inl err) eq e = cc
  of_vectors (inr vs) eq e = of_client vs (new_vectors_client p.urls p.vectors_config) eq refl e

  pub embed_and_put-AllWritten : embed_and_put p id meta digest ≡ embedded → AllWritten
  unfolding embed_and_put
  embed_and_put-AllWritten e =
      of_vectors (embed_digest p.embed_config p.embed_service p.read digest) refl e
