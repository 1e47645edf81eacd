-- ===== src/Server/Push.antt =====
-- Pushing the staged files to the bucket (push.go: runPush, pushOne, handleUploadPush). What the
-- store, the disk and the embedding services answer is `PushEnv`. `puts` records the keys of the Puts
-- that succeeded, in order; a Put that fails leaves the object as it was. The text of an error event
-- is the name of the step that failed. A file's contents are its bytes.
pub mod Order
pub mod Outcome
pub mod Phases
pub mod Handler
pub mod Started
use filestor.Base.{
  ℕ, zero, suc, ◌+◌, ◌≡◌, Bool, true, false, ◌&&◌, ◌||◌, not, List, [], ◌∷◌, ◌++◌, map, Option,
  none, some, ltb, ◌==◌, if◌then◌else◌, length, Text, codes, lookup, insert, remove, keys,
}
use filestor.Names.Title.{sanitize_push_title}
use filestor.Clock.{Time, format_time, parse_time}
use filestor.Bundle.{BundleMeta, bundle_prefix, bundle_meta_name, new_uuid_v4}
use filestor.Index.{BundleIndex, Bucket, AppendError, append, index_key}
use filestor.Workspace.{Workspace, Node}
use filestor.Workspace.Listing.{list_workspace_files, sort_names}
use filestor.Hub.{
  Kind, JobProgress, no_progress, Hub, broadcast, acquire, release, emit_progress, emit_done,
  emit_fail,
}
use filestor.Server.{
  Server, Status, status_accepted, status_bad_request, status_conflict, status_internal, emit_files,
  emit_state, clear_workspace_state_if_empty, Cleanup, is_nil,
}

-- What embedDigest, newVectorsClient and putVectors come to.
pub data Embedding : Type 0 where
  embedded embed_failed vectors_failed : Embedding

pub record PushEnv : Type 0 where
  pub put_ok : Text → Bool
  -- whether os.Open and Stat of a staged file or a digest mark succeed
  pub opens : Text → Bool
  -- the reads of a file during its Put: when, and how many bytes
  pub reads : Text → List (ℕ × ℕ)
  pub embedding_configured : Bool
  pub embedding : Embedding
  pub encode_meta : BundleMeta → Text
  pub encode_index : List BundleMeta → Text
  -- whether os.Remove of a staged file succeeds
  pub removes : Text → Bool
  pub cleanup : Cleanup

-- The state of the job's goroutine.
pub record Run : Type 0 where
  pub server : Server
  pub job : JobProgress
  pub puts : List Text

-- s.emitProgress(job, false)
abbrev pub emit_job : Run → Run
emit_job r = record r {
  server = record r.server { hub = emit_progress 0 r.job false r.server.hub };
}

-- the reads of the progressReader, each with a throttled event
unfoldable pub read_all : List (ℕ × ℕ) → Run → Run
read_all [] r = r
read_all ((now, n) ∷ rs) r =
    let job = record r.job { done_bytes = r.job.done_bytes + n } in
    read_all rs (record r {
      server = record r.server { hub = emit_progress now job true r.server.hub };
      job = job;
    })

-- store.Put of a key
unfoldable pub put : PushEnv → Text → Text → Run → Run × Bool
put env key content r =
    if env.put_ok key
    then (
      record r {
        server = record r.server { bucket = insert key content r.server.bucket };
        puts = r.puts ++ key ∷ [];
      },
      true,
    )
    else (r, false)

abbrev pub or_nothing : Option Text → Text
or_nothing none = []
or_nothing (some t) = t

-- pushOne: the file is read while it is put
unfoldable pub push_one : PushEnv → Text → Option Text → Text → Run → Run × Bool
unfolding read_all put
push_one env name none key r = (r, false)
push_one env name (some content) key r =
    if env.opens name then put env key content (read_all (env.reads name) r) else (r, false)

-- the closure `fail`
unfoldable pub fail : Text → Run → Run
fail what r =
    let job = record r.job { error = what } in
    record r {
      server = emit_files (record r.server { hub = emit_fail 0 job r.server.hub });
      job = job;
    }

-- The two loops over files: what a name is called in the events, where it is put, what it holds.
pub record Batch : Type 0 where
  pub label : Text → Text
  pub key : Text → Text
  pub content : Text → Option Text

unfoldable pub push_list : PushEnv → Batch → List Text → Run → Run × Bool
unfolding push_one fail
push_list env b [] r = (r, true)
push_list env b (n ∷ ns) r =
    let r1 = emit_job (record r { job = record r.job { file = b.label n } }) in
    let (r2, ok) = push_one env n (b.content n) (b.key n) r1 in
    let rest =
      push_list env b ns
        (emit_job (record r2 { job = record r2.job { done = r2.job.done + 1 } })) in
    if ok then rest else (fail (b.label n) r2, false)

abbrev pub digest_dir_name : Text
digest_dir_name = codes ".digest"

abbrev pub node_content : Option Node → Option Text
node_content none = none
node_content (some n) = some n.content

-- the staged files, and the digest marks
abbrev pub staged_batch : Text → Workspace → Batch
staged_batch prefix w = record {
  label = λ n. n;
  key = λ n. prefix ++ (b'/' ∷ n);
  content = λ n. node_content (lookup n w.root);
}

abbrev pub digest_batch : Text → Workspace → Batch
digest_batch prefix w = record {
  label = λ n. digest_dir_name ++ (b'/' ∷ n);
  key = λ n. prefix ++ (b'/' ∷ (digest_dir_name ++ (b'/' ∷ n)));
  content = λ n. lookup n w.digest_dir;
}

-- the bytes of the files that are there
unfoldable pub sizes : (Text → Option Text) → List Text → ℕ
sizes content [] = 0
sizes content (n ∷ ns) = length (or_nothing (content n)) + sizes content ns

-- The embedding of the digest marks; its progress events are not modelled.
unfoldable pub embed : PushEnv → List Text → Run → Run × Bool
unfolding fail
embed env digest r =
    if is_nil digest || not env.embedding_configured then (r, true) else elim env.embedding [
      | embedded ↦ (r, true)
      | embed_failed ↦ (fail (codes "embed") r, false)
      | vectors_failed ↦ (fail (codes "vectors") r, false)
    ]

abbrev pub meta_key : Text → Text
meta_key prefix = prefix ++ (b'/' ∷ bundle_meta_name)

-- the bundle's .meta.json
unfoldable pub publish : PushEnv → Text → BundleMeta → Run → Run × Bool
unfolding put fail
publish env prefix meta r =
    let (r', ok) = put env (meta_key prefix) (env.encode_meta meta) r in
    if ok then (r', true) else (fail bundle_meta_name r', false)

-- the key that a successful append puts
abbrev pub index_key_of : Option Time → List Text
index_key_of none = []
index_key_of (some t) = index_key t.year t.month ∷ []

abbrev pub recorded : BundleMeta → Run → (BundleIndex × Bucket) × Option AppendError → Run × Bool
recorded meta r ((x, bucket), none) = (
  record r {
    server = record r.server { index = x; bucket = bucket };
    puts = r.puts ++ index_key_of (parse_time meta.time);
  },
  true,
)
recorded meta r ((x, bucket), some e) = (
  fail (codes "index") (record r { server = record r.server { index = x; bucket = bucket } }),
  false,
)

-- s.index.append and its failure
unfoldable pub record_index : PushEnv → BundleMeta → Run → Run × Bool
unfolding fail
record_index env meta r =
    recorded meta r (append env.encode_index env.put_ok r.server.index r.server.bucket meta)

-- one phase after the other, up to the first that fails
abbrev pub and_then : (Run → Run × Bool) → (Run → Run × Bool) → Run → Run × Bool
and_then f g r = let (r', ok) = f r in if ok then g r' else (r', false)

-- everything that can fail the job
unfoldable pub deliver_bundle :
    PushEnv → Text → List Text → List Text → BundleMeta → Run → Run × Bool
deliver_bundle env prefix names digest meta r =
    let w = r.server.work in
    and_then (push_list env (staged_batch prefix w) names)
      (and_then (push_list env (digest_batch prefix w) digest)
        (and_then (embed env digest) (and_then (publish env prefix meta) (record_index env meta))))
      r

-- the staged copies go
unfoldable pub drop_staged : PushEnv → List Text → Workspace → Workspace
drop_staged env [] w = w
drop_staged env (n ∷ ns) w =
    drop_staged env ns (if env.removes n then record w { root = remove n w.root } else w)

unfoldable pub complete : PushEnv → List Text → Run → Run
unfolding drop_staged
complete env names r =
    let w = clear_workspace_state_if_empty env.cleanup (drop_staged env names r.server.work) in
    let job = record r.job { file = [] } in
    let s = emit_files (record r.server { work = w }) in
    record r { server = emit_state (record s { hub = emit_done 0 job s.hub }); job = job }

-- the deferred release
abbrev pub release_push : Run → Run
release_push r = record r { server = record r.server { hub = release Kind.push r.server.hub } }

-- the job as it starts: the totals count the digest marks too
abbrev pub starting : Text → List Text → List Text → JobProgress → Server → Run
starting prefix names digest job s =
    let w = s.work in
    let bytes =
      sizes (staged_batch prefix w).content names + sizes (digest_batch prefix w).content digest in
    record {
      server = s;
      job = record job { total = job.total + length digest; total_bytes = job.total_bytes + bytes };
      puts = [];
    }

abbrev pub finished : PushEnv → List Text → Run × Bool → Run × Bool
finished env names (r, ok) =
    if ok then (release_push (complete env names r), true) else (release_push r, false)

-- runPush; the flag is whether the job succeeded
unfoldable pub run_push :
    PushEnv → Text → List Text → BundleMeta → JobProgress → Server → Run × Bool
unfolding deliver_bundle complete sizes
run_push env prefix names meta job s =
    let digest = sort_names (keys s.work.digest_dir) in
    finished env names
      (deliver_bundle env prefix names digest meta (emit_job (starting prefix names digest job s)))
