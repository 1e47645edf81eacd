-- ===== src/Analyze/Job.antt =====
-- handleUploadAnalyze and its job (analyze.go). The recovery from a panic and the run's time limit
-- are not modelled.
pub mod Outcome
pub mod Started
use filestor.Base.{
  ℕ, zero, suc, ◌+◌, Bool, true, false, ◌&&◌, not, List, [], ◌∷◌, Option, none, some, if◌then◌else◌,
  length, Text, codes,
}
use filestor.Workspace.{WorkspaceState, Workspace, save}
use filestor.Workspace.Listing.{list_workspace_files}
use filestor.Hub.{
  Kind, JobProgress, no_progress, acquire, release, emit_progress, emit_done, emit_fail,
}
use filestor.Server.{
  Server, Status, status_accepted, status_bad_request, status_conflict, status_internal,
  status_unavailable, is_nil, emit_state,
}
use filestor.Analyze.{Agent, Service}
use filestor.Analyze.Budget.{analyze_budget}
use filestor.Analyze.Prep.{Converters, prep_analyze, index_entries}
use filestor.Analyze.Tools.{progress}
use filestor.Analyze.Loop.{Talk, run}

abbrev pub analyze_job : JobProgress
analyze_job = record no_progress { kind = some Kind.analyze }

-- The request: the configuration, and whether the directory can be read.
pub record AnalyzeRequest : Type 0 where
  pub chat_configured : Bool
  pub lists : Bool

abbrev pub AnalyzeReply : Type 0
AnalyzeReply = Server × Status × Option (List Text)

-- under the lock, from the listing on
abbrev pub analyze_staged : AnalyzeRequest → Server → AnalyzeReply
analyze_staged req s =
    let names = list_workspace_files s.work.root in
    let freed = record s { hub = release Kind.analyze s.hub } in
    if not req.lists
    then (freed, status_internal, none)
    else if is_nil names
    then (freed, status_bad_request, none)
    else (
      record s {
        hub =
            emit_progress 0
              (record analyze_job {
                message = codes "starting";
                total = (analyze_budget (length names)).0;
              })
              false s.hub;
      },
      status_accepted,
      some names,
    )

-- handleUploadAnalyze: the names are those of the job that it starts
unfoldable pub handle_upload_analyze : AnalyzeRequest → Server → AnalyzeReply
unfolding acquire release emit_progress analyze_budget
handle_upload_analyze req s =
    let (h, ok) = acquire Kind.analyze s.hub in
    let held = record s { hub = h } in
    if not req.chat_configured
    then (s, status_unavailable, none)
    else if not ok
    then (held, status_conflict, none)
    else analyze_staged req held

-- the reports of prepAnalyze from the i-th file on
abbrev pub converting : ℕ → ℕ → List Text → Server → Server
converting total i [] s =
    progress (record no_progress { message = codes "converting"; done = total; total = total }) s
converting total i (name ∷ names) s = converting total (i + 1) names (
    progress
      (record no_progress { message = codes "converting"; file = name; done = i; total = total }) s)

-- the agent with its entries: prepAnalyze and indexEntries
unfoldable pub new_agent : Converters → List Text → Server → Agent
unfolding prep_analyze index_entries
new_agent c names s =
    let (list, w) = prep_analyze c names s.work in
    index_entries list (record {
      list = [];
      entries = [];
      derived = [];
      title = [];
      when = [];
      reads_closed = false;
      finished = false;
      digest_texts = 0;
      digest_images = [];
      server = record (converting (length names) 0 names s) { work = w };
    })

abbrev pub fail_with : Text → Server → Server
fail_with what s = record s { hub = emit_fail 0 (record analyze_job { error = what }) s.hub }

abbrev pub analyzed : Agent → Text → Workspace × Bool → Server × Bool
analyzed a title (w, false) =
    (fail_with (codes "internal error") (record a.server { work = w }), false)
analyzed a title (w, true) =
    let s = emit_state (record a.server { work = w }) in
    (
      record s { hub = emit_done 0 (record analyze_job { title = title; time = a.when }) s.hub },
      true,
    )

-- what follows run
abbrev pub finish_job : Bool → Talk × Option Text → Server × Bool
finish_job saves (t, none) = (fail_with (codes "analyze failed") t.agent.server, false)
finish_job saves (t, some title) =
    analyzed t.agent title
      (save saves (record t.agent.server.work.state { analyzed = true }) t.agent.server.work)

-- the deferred release
abbrev pub release_analyze : Server × Bool → Server × Bool
release_analyze (s, ok) = (record s { hub = release Kind.analyze s.hub }, ok)

-- The job's goroutine; `saves` is whether the last write of state.json succeeds. The flag is whether
-- the run succeeded.
unfoldable pub run_analyze :
    (ℕ → Bool) → Service → Converters → Bool → List Text → Server → Server × Bool
unfolding run new_agent save emit_state emit_done emit_fail release analyze_budget
run_analyze wide service c saves names s =
    let (rounds, calls) = analyze_budget (length names) in
    release_analyze (finish_job saves (run wide service rounds calls (new_agent c names s)))
