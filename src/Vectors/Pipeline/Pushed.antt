-- ===== src/Vectors/Pipeline/Pushed.antt =====
-- A push that succeeds has embedded its marks (push.go: runPush).
use filestor.Base.{List, Text, keys}
use filestor.Bundle.{BundleMeta}
use filestor.Hub.{JobProgress}
use filestor.Workspace.Listing.{sort_names}
use filestor.Server.{Server}
use filestor.Server.Push.{PushEnv}
use filestor.Vectors.Pipeline.{Pipeline}

module _ (p : Pipeline) (env : PushEnv) (prefix : Text) (names : List Text) (meta : BundleMeta)
    (job : JobProgress) (s : Server) where
  abbrev pub marks : List Text
  marks = sort_names (keys s.work.digest_dir)
