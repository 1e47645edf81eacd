-- ===== src/Vectors/Pipeline.antt =====
-- The embedding step of a push (push.go: runPush): embedDigest, then newVectorsClient and putVectors.
pub mod Complete
pub mod Pushed
use filestor.Base.{◌⊎◌, inl, inr, List, Option, none, some, Text}
use filestor.Bundle.{BundleMeta}
use filestor.Embed.{Vector, EmbedConfig, EmbedService, EmbedError, embed_digest}
use filestor.Vectors.Signing.{Stamp}
use filestor.Vectors.{
  Urls, VectorsConfig, VectorsClient, VectorsService, PutOutcome, written, panicked, bad_url,
  send_failed, put_refused, new_vectors_client, put_vectors,
}
use filestor.Server.Push.{PushEnv, Embedding, embedded, embed_failed, vectors_failed}

-- what the services are, and the configuration
pub record Pipeline : Type 0 where
  pub embed_config : EmbedConfig
  pub embed_service : EmbedService
  pub vectors_config : VectorsConfig
  pub vectors_service : VectorsService
  pub urls : Urls
  pub sha256 : Text → Text
  pub hmac : Text → Text → Text
  pub read : Text → Option Text
  pub now : Stamp

abbrev pub put_outcome : PutOutcome → Embedding
put_outcome written = embedded
put_outcome panicked = vectors_failed
put_outcome bad_url = vectors_failed
put_outcome send_failed = vectors_failed
put_outcome (put_refused status message) = vectors_failed

module _ (p : Pipeline) (id : Text) (meta : BundleMeta) (digest : List Text) where
  abbrev pub put_all : VectorsClient → List Vector → PutOutcome
  put_all c vs = put_vectors p.sha256 p.hmac p.urls p.vectors_service c p.now id meta digest vs

  abbrev pub with_client : Option VectorsClient → List Vector → Embedding
  with_client none vs = vectors_failed
  with_client (some c) vs = put_outcome (put_all c vs)

  abbrev pub with_vectors : EmbedError ⊎ List Vector → Embedding
  with_vectors (inl e) = embed_failed
  with_vectors (inr vs) = with_client (new_vectors_client p.urls p.vectors_config) vs

  unfoldable pub embed_and_put : Embedding
  unfolding embed_digest new_vectors_client put_vectors
  embed_and_put = with_vectors (embed_digest p.embed_config p.embed_service p.read digest)

  -- a push whose embedding is this one
  abbrev pub with_pipeline : PushEnv → PushEnv
  with_pipeline env = record env { embedding = embed_and_put }
