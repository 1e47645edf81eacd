-- ===== src/Server/Push/Started.antt =====
-- What holds of a push when its job starts (push.go: handleUploadPush).
use filestor.Base.{
  ℕ, ◌≡◌, refl, sym, subst, some_injective, ◌∙◌, Bool, true, false, ◌&&◌, not, Option, none, some,
  if◌then◌else◌, Text, arith,
}
use filestor.Names.Title.{sanitize_push_title}
use filestor.Names.Title.Folded.{IsTitle}
use filestor.Names.Title.Accepted.{sanitize_push_title-IsTitle}
use filestor.Clock.{Time, format_time, parse_time}
use filestor.Clock.RoundTrip.{parse_time-format_time}
use filestor.Clock.Accepted.{parse_time_inv}
use filestor.Bundle.{BundleMeta, bundle_prefix, new_uuid_v4}
use filestor.Workspace.Listing.{list_workspace_files}
use filestor.Hub.{Kind, JobProgress, Hub, acquire, emit_progress, try_lock, broadcast, set_job}
use filestor.Server.{Server, Status, status_bad_request, status_internal, is_nil}
use filestor.Server.Push.Handler.{
  PushRequest, PushJob, Reply, refuse, new_job, start_job, push_staged, push_named, push_titled,
  push_timed, handle_upload_push,
}

-- What holds of a job when it starts.
pub record IsStarted (wide : ℕ → Bool) (req : PushRequest) (s : Server) (s' : Server) (j : PushJob)
    : Type 0 where
  pub was_free : s.hub.lock ≡ none
  pub holds_lock : s'.hub.lock ≡ some Kind.push
  pub work_same : s'.work ≡ s.work
  pub was_analyzed : req.chat_configured ≡ true → s.work.state.analyzed ≡ true
  pub names_all : j.names ≡ list_workspace_files s.work.root
  pub names_some : is_nil j.names ≡ false
  pub prefix_of_id : j.prefix ≡ bundle_prefix j.meta.id
  pub id_made : new_uuid_v4 req.random ≡ some j.meta.id
  pub title_ok : IsTitle wide j.meta.title
  pub time_kept : parse_time j.meta.time ≡ parse_time req.time

emit_progress-lock :
    (b : Bool) (now : ℕ) (p : JobProgress) (h : Hub) → (emit_progress now p b h).lock ≡ h.lock
unfolding emit_progress set_job broadcast
emit_progress-lock b now p h = ground arith

acquire_done :
    (h : Hub)
    → (acquire Kind.push h).1 ≡ true
    → (h.lock ≡ none) × ((acquire Kind.push h).0.lock ≡ some Kind.push)
unfolding acquire try_lock broadcast
acquire_done h e = ground arith

-- Whatever job a reply starts, it is started as it should be.
abbrev StartsWell : (ℕ → Bool) → PushRequest → Server → Reply → Type 0
StartsWell wide req s r = (j : PushJob) → r.2 ≡ some j → IsStarted wide req s r.0 j

module _ (wide : ℕ → Bool) (req : PushRequest) (s : Server) where
  refused : (st : Status) (s' : Server) → StartsWell wide req s (refuse st s')
  refused st s' j h = cc

  branch :
      (b : Bool) (x y : Reply)
      → (b ≡ true → StartsWell wide req s x)
      → (b ≡ false → StartsWell wide req s y)
      → StartsWell wide req s (if b then x else y)
  branch true x y f g = f refl
  branch false x y f g = g refl

  refuse_or :
      (b : Bool) (st : Status) (s' : Server) (y : Reply)
      → (b ≡ false → StartsWell wide req s y)
      → StartsWell wide req s (if b then refuse st s' else y)
  refuse_or b st s' y g = branch b (refuse st s') y (λ e. refused st s') g

  start_job-well :
      (meta : BundleMeta) (h : Hub)
      → s.hub.lock ≡ none
      → h.lock ≡ some Kind.push
      → (req.chat_configured ≡ true → s.work.state.analyzed ≡ true)
      → is_nil (list_workspace_files s.work.root) ≡ false
      → new_uuid_v4 req.random ≡ some meta.id
      → IsTitle wide meta.title
      → parse_time meta.time ≡ parse_time req.time
      → StartsWell wide req s
          (start_job (list_workspace_files s.work.root) meta (record s { hub = h }))
  start_job-well meta h free held gate files e t k j eq =
      let names = list_workspace_files s.work.root in
      subst (λ i. IsStarted wide req s (start_job names meta (record s { hub = h })).0 i)
        (some_injective eq)
        (record {
          was_free = free;
          holds_lock = emit_progress-lock false 0 (new_job names meta) h ∙ held;
          work_same = refl;
          was_analyzed = gate;
          names_all = refl;
          names_some = files;
          prefix_of_id = refl;
          id_made = e;
          title_ok = t;
          time_kept = k;
        })

  push_staged-well :
      (meta : BundleMeta)
      → new_uuid_v4 req.random ≡ some meta.id
      → IsTitle wide meta.title
      → parse_time meta.time ≡ parse_time req.time
      → StartsWell wide req s (push_staged req meta s)
  push_staged-well meta e t k = refuse_or (not req.lists) _ _ _ λ a.
      refuse_or (is_nil (list_workspace_files s.work.root)) _ _ _ λ b.
        refuse_or (not (acquire Kind.push s.hub).1) _ _ _ λ c.
          refuse_or (req.chat_configured && not s.work.state.analyzed) _ _ _ λ d.
            let (free, held) = acquire_done s.hub (ground (arith, c)) in
            start_job-well meta _ free held (ground (arith, d)) b e t k

  -- handleUploadPush starts a job only when nothing held the lock, which is then held for the
  -- push; when the batch was analyzed, if a model is configured; and for all the staged files, of
  -- which there is one at least. The job's prefix is that of the id made of the random bytes, its
  -- title is a title, and its time reads as the time of the form.
  pub handle_upload_push-StartsWell :
      (j : PushJob)
      → let r = handle_upload_push wide req s in r.2 ≡ some j → IsStarted wide req s r.0 j
  unfolding handle_upload_push
  handle_upload_push-StartsWell =
      refuse_or (not req.store) _ _ _
        λ _. refuse_or (not req.parses) _ _ _ λ _. timed (parse_time req.time) refl
    where
      named :
          (when : Time) (title : Text)
          → IsTitle wide title
          → parse_time (format_time when) ≡ parse_time req.time
          → (id : Option Text) → new_uuid_v4 req.random ≡ id
          → StartsWell wide req s (push_named req when title s id)
      named when title t k none e = refused status_internal s
      named when title t k (some id) e =
          push_staged-well (record { id = id; title = title; time = format_time when }) e t k

      titled :
          (when : Time)
          → parse_time (format_time when) ≡ parse_time req.time
          → (title : Option Text) → sanitize_push_title wide req.title ≡ title
          → StartsWell wide req s (push_titled req when s title)
      titled when k none t = refused status_bad_request s
      titled when k (some title) t =
          named when title (sanitize_push_title-IsTitle wide req.title t) k (new_uuid_v4 req.random)
            refl

      timed :
          (when : Option Time)
          → parse_time req.time ≡ when
          → StartsWell wide req s (push_timed wide req s when)
      timed none k = refused status_bad_request s
      timed (some when) k =
          titled when (parse_time-format_time when (parse_time_inv req.time k).0 ∙ sym k)
            (sanitize_push_title wide req.title) refl
