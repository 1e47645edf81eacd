-- ===== src/Server.antt =====
-- The server's state, and the requests that change the staged files and the draft options
-- (upload.go). A handler runs here with no other section of the hub's mutex between its own; Hub/
-- Exclusion treats their interleaving. A reply is its status; replies, logs and the removal of the
-- multipart form's temporary files are not modelled further.
pub mod Gate
pub mod Requests
pub mod Push
use filestor.Base.{
  ℕ, zero, suc, ◌+◌, ◌≡◌, Bool, true, false, ◌&&◌, ◌||◌, not, List, [], ◌∷◌, Option, none, some,
  ltb, ◌==◌, if◌then◌else◌, length, Text, trim_space,
}
use filestor.Names.File.{sanitize_workspace_name}
use filestor.Clock.{Time, parse_time}
use filestor.Workspace.{
  WorkspaceState, Workspace, FileError, invalid_name, not_exist, same_name, name_taken, disk_error,
  SaveOutcome, save_workspace_file, remove_workspace_file, save, clear, pin, mark_unanalyzed,
  Removal, Update,
}
use filestor.Workspace.Listing.{list_workspace_files}
use filestor.Hub.{
  Kind, stage, analyze, push, Hub, files_event, state_event, broadcast, acquire, release,
  busy_for_state,
}
use filestor.Index.{BundleIndex, Bucket}

pub record Server : Type 0 where
  pub hub : Hub
  pub work : Workspace
  pub index : BundleIndex
  pub bucket : Bucket

-- the status of a reply
abbrev pub Status : Type 0
Status = ℕ

abbrev pub status_ok : Status
status_ok = 200

abbrev pub status_accepted : Status
status_accepted = 202

abbrev pub status_bad_request : Status
status_bad_request = 400

abbrev pub status_not_found : Status
status_not_found = 404

abbrev pub status_conflict : Status
status_conflict = 409

abbrev pub status_too_large : Status
status_too_large = 413

abbrev pub status_internal : Status
status_internal = 500

abbrev pub status_unavailable : Status
status_unavailable = 503

-- emitFiles
unfoldable pub emit_files : Server → Server
emit_files s = record s { hub = broadcast (files_event (list_workspace_files s.work.root)) s.hub }

-- emitState
unfoldable pub emit_state : Server → Server
emit_state s = record s { hub = broadcast (state_event s.work.state) s.hub }

abbrev pub is_nil : List Text → Bool
is_nil [] = true
is_nil (n ∷ ns) = false

-- clearWorkspaceStateIfEmpty: whether the directory can be read, and what clear's removals come to
pub record Cleanup : Type 0 where
  pub lists : Bool
  pub removal : Removal

unfoldable pub clear_workspace_state_if_empty : Cleanup → Workspace → Workspace
clear_workspace_state_if_empty cleanup w =
    if cleanup.lists && is_nil (list_workspace_files w.root) then clear cleanup.removal w else w

-- One file of a multipart form, and what happens to it on the way to the disk.
pub record Part : Type 0 where
  pub filename : Text
  pub opens : Bool
  pub outcome : SaveOutcome
  pub content : Text
  pub pin_writes : Bool

-- What ParseMultipartForm gives.
pub data Form : Type 0 where
  too_large bad_multipart no_form : Form
  parts : List Part → Form

-- `s.state.markUnanalyzed(); s.emitFiles(); s.emitState()`
unfoldable pub staged_changed : Update → Server → Server
unfolding emit_files emit_state
staged_changed update s =
    emit_state (emit_files (record s { work = mark_unanalyzed update s.work }))

-- the closure `fail` of handleUploadAdd
unfoldable pub add_fail : Update → ℕ → Server → Server
unfolding staged_changed
add_fail update saved s = if ltb 0 saved then staged_changed update s else s

-- `now` is the formatted time.
module _ (now : Text) where
  abbrev pub add_saved : Part → Workspace × Option FileError → Workspace × Bool
  add_saved p (w, some e) = (w, false)
  add_saved p (w, none) = (pin p.pin_writes now w, true)

  abbrev pub add_named : Workspace → Part → Option Text → (Workspace × Bool) × Status
  add_named w p none = ((w, false), status_bad_request)
  add_named w p (some name) =
      if not p.opens
      then ((w, false), status_bad_request)
      else (add_saved p (save_workspace_file p.outcome w name p.content), status_internal)

  -- one file: whether it was saved, and the status of the failure if not
  unfoldable pub add_part : Workspace → Part → (Workspace × Bool) × Status
  add_part w p = add_named w p (sanitize_workspace_name p.filename)

-- The loop of handleUploadAdd and what follows it.
module _ (update : Update) (now : Text) where
  unfoldable pub add_parts : ℕ → List Part → Server → Server × Status
  unfolding staged_changed add_fail add_part
  add_parts saved [] s = (staged_changed update s, status_ok)
  add_parts saved (p ∷ ps) s =
      let ((w, done), status) = add_part now s.work p in
      let s' = record s { work = w } in
      let rest = add_parts (suc saved) ps s' in
      if done then rest else (add_fail update saved s', status)

  abbrev pub add_form : Form → Server → Server × Status
  add_form too_large s = (s, status_too_large)
  add_form bad_multipart s = (s, status_bad_request)
  add_form no_form s = (s, status_bad_request)
  add_form (parts []) s = (s, status_bad_request)
  add_form (parts (p ∷ ps)) s = add_parts 0 (p ∷ ps) s

-- A handler that holds the lock while it works: the deferred release runs on every return.
abbrev pub holding_lock : Kind → (Server → Server × Status) → Server → Server × Status
holding_lock kind body s =
    let (h, ok) = acquire kind s.hub in
    let (s', status) = body (record s { hub = h }) in
    if ok
    then (record s' { hub = release kind s'.hub }, status)
    else (record s { hub = h }, status_conflict)

-- handleUploadAdd
unfoldable pub handle_upload_add : Update → Text → Form → Server → Server × Status
unfolding add_parts
handle_upload_add update now form s = holding_lock stage (add_form update now form) s

abbrev pub delete_result :
    Update → Cleanup → Server → Workspace × Option FileError → Server × Status
delete_result update cleanup s (w, some not_exist) = (s, status_not_found)
delete_result update cleanup s (w, some e) = (s, status_internal)
delete_result update cleanup s (w, none) = (
  emit_state (
      emit_files
        (record s { work = clear_workspace_state_if_empty cleanup (mark_unanalyzed update w) })),
  status_ok,
)

abbrev pub delete_checked : Update → Cleanup → Bool → Text → Option Text → Server → Server × Status
delete_checked update cleanup removes name none s = (s, status_bad_request)
delete_checked update cleanup removes name (some checked) s =
    holding_lock stage
      (λ t. delete_result update cleanup t (remove_workspace_file removes t.work name)) s

-- handleUploadDelete
unfoldable pub handle_upload_delete : Update → Cleanup → Bool → Text → Server → Server × Status
unfolding emit_files emit_state clear_workspace_state_if_empty
handle_upload_delete update cleanup removes name s =
    delete_checked update cleanup removes name (sanitize_workspace_name name) s

-- The form of PUT /upload/state: what ParseForm gives, and the two values.
pub record StateForm : Type 0 where
  pub parses : Bool
  pub time : Text
  pub title : Text

abbrev pub is_parsed : Option Time → Bool
is_parsed none = false
is_parsed (some t) = true

-- The new draft, from the state that was read; none for a time that does not parse.
unfoldable pub state_of_form : WorkspaceState → StateForm → Option WorkspaceState
state_of_form st form =
    let v = trim_space form.time in
    let title = trim_space form.title in
    if length v == 0
    then some (record st { title = title })
    else if is_parsed (parse_time v)
    then some (record st { time = v; title = title })
    else none

abbrev pub saved_state : Server → Workspace × Bool → Server × Status
saved_state s (w, true) = (emit_state (record s { work = w }), status_ok)
saved_state s (w, false) = (record s { work = w }, status_internal)

abbrev pub state_checked : Bool → Bool → Server → Option WorkspaceState → Server × Status
state_checked writes lists s none = (s, status_bad_request)
state_checked writes lists s (some st) =
    if not lists
    then (s, status_internal)
    else if is_nil (list_workspace_files s.work.root)
    then (s, status_ok)
    else saved_state s (save writes st s.work)

-- handleUploadState up to the read of the draft
unfoldable pub state_read : StateForm → Server → Option WorkspaceState
state_read form s = state_of_form s.work.state form

-- handleUploadState from the listing on: nothing holds the lock between the two
unfoldable pub state_write : Bool → Bool → Option WorkspaceState → Server → Server × Status
unfolding emit_state
state_write writes lists st s = state_checked writes lists s st

-- handleUploadState
unfoldable pub handle_upload_state : Bool → Bool → StateForm → Server → Server × Status
unfolding state_read state_write
handle_upload_state writes lists form s =
    if busy_for_state s.hub
    then (s, status_conflict)
    else if not form.parses
    then (s, status_bad_request)
    else state_write writes lists (state_read form s) s
