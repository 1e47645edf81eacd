-- ===== src/Server/Push/Handler.antt =====
-- handleUploadPush (push.go): from the form to the start of the job. The reply's body is not modelled.
use filestor.Base.{
  ℕ, Bool, false, ◌&&◌, not, List, [], ◌∷◌, ◌++◌, Option, none, some, if◌then◌else◌, length, Text,
}
use filestor.Names.Title.{sanitize_push_title}
use filestor.Clock.{Time, format_time, parse_time}
use filestor.Bundle.{BundleMeta, bundle_prefix, new_uuid_v4}
use filestor.Workspace.Listing.{list_workspace_files}
use filestor.Hub.{Kind, JobProgress, no_progress, acquire, release, emit_progress}
use filestor.Server.{
  Server, Status, status_accepted, status_bad_request, status_conflict, status_internal,
  status_unavailable, is_nil,
}

-- The request, and what the handler finds: the object store, the model's configuration, 16 bytes of
-- rand.Read, and whether the directory can be read.
pub record PushRequest : Type 0 where
  pub store : Bool
  pub parses : Bool
  pub time : Text
  pub title : Text
  pub random : Option (List ℕ)
  pub lists : Bool
  pub chat_configured : Bool

-- The arguments of the job that the handler starts.
pub record PushJob : Type 0 where
  pub job : JobProgress
  pub prefix : Text
  pub names : List Text
  pub meta : BundleMeta

abbrev pub Reply : Type 0
Reply = Server × Status × Option PushJob

abbrev pub refuse : Status → Server → Reply
refuse status s = (s, status, none)

abbrev pub new_job : List Text → BundleMeta → JobProgress
new_job names meta = record no_progress {
  kind = some Kind.push;
  prefix = bundle_prefix meta.id ++ b'/' ∷ [];
  total = length names;
}

-- from `job :=` on
abbrev pub start_job : List Text → BundleMeta → Server → Reply
start_job names meta s = (
  record s { hub = emit_progress 0 (new_job names meta) false s.hub },
  status_accepted,
  some (record {
    job = new_job names meta;
    prefix = bundle_prefix meta.id;
    names = names;
    meta = meta;
  }),
)

-- from the listing on
abbrev pub push_staged : PushRequest → BundleMeta → Server → Reply
push_staged req meta s =
    let names = list_workspace_files s.work.root in
    let (h, ok) = acquire Kind.push s.hub in
    let held = record s { hub = h } in
    if not req.lists
    then refuse status_internal s
    else if is_nil names
    then refuse status_bad_request s
    else if not ok
    then refuse status_conflict held
    else if req.chat_configured && not s.work.state.analyzed
    then refuse status_bad_request (record s { hub = release Kind.push h })
    else start_job names meta held

abbrev pub push_named : PushRequest → Time → Text → Server → Option Text → Reply
push_named req when title s none = refuse status_internal s
push_named req when title s (some id) =
    push_staged req (record { id = id; title = title; time = format_time when }) s

abbrev pub push_titled : PushRequest → Time → Server → Option Text → Reply
push_titled req when s none = refuse status_bad_request s
push_titled req when s (some title) = push_named req when title s (new_uuid_v4 req.random)

module _ (wide : ℕ → Bool) where
  abbrev pub push_timed : PushRequest → Server → Option Time → Reply
  push_timed req s none = refuse status_bad_request s
  push_timed req s (some when) = push_titled req when s (sanitize_push_title wide req.title)

  -- handleUploadPush
  unfoldable pub handle_upload_push : PushRequest → Server → Reply
  unfolding acquire release
  handle_upload_push req s =
      if not req.store
      then refuse status_unavailable s
      else if not req.parses
      then refuse status_bad_request s
      else push_timed req s (parse_time req.time)
