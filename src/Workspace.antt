-- ===== src/Workspace.antt =====
-- The staging directory and the draft push options (upload.go). `Workspace` is the directory on disk
-- together with the workspaceStateStore in memory; every method of the store runs under its mutex,
-- so it is one step. Whether a disk operation succeeds is an argument of the functions that use it.
pub mod Listing
pub mod Restart
pub mod Files
pub mod Leftovers
use filestor.Base.{
  ℕ, ◌≡◌, Bool, true, false, ◌&&◌, ◌||◌, not, List, [], ◌∷◌, Option, none, some, ltb, ◌==◌,
  if◌then◌else◌, Text, codes, text_eq, has_prefix, lookup, insert, remove, take,
}
use filestor.Names.File.{sanitize_workspace_name}

-- workspaceState
pub record WorkspaceState : Type 0 where
  pub time : Text
  pub title : Text
  pub analyzed : Bool

abbrev pub zero_state : WorkspaceState
zero_state = record { time = []; title = []; analyzed = false }

-- An entry of the workspace directory: a regular file with its contents, or anything else.
pub record Node : Type 0 where
  pub is_regular : Bool
  pub content : Text

-- state.json: what json.Unmarshal makes of it
pub data StateFile : Type 0 where
  valid : WorkspaceState → StateFile
  corrupt : StateFile

pub record Workspace : Type 0 where
  pub root : List (Text × Node)
  pub state_file : Option StateFile
  pub analyze_dir : List (Text × Text)
  pub digest_dir : List (Text × Text)
  -- the store in memory
  pub state : WorkspaceState
  pub exists : Bool

pub data FileError : Type 0 where
  invalid_name not_exist same_name name_taken disk_error : FileError

-- How far saveWorkspaceFile gets: an error of os.MkdirAll or os.CreateTemp, of io.Copy after k bytes,
-- of Close, of os.Rename, or none. In the last two, `removes` is whether os.Remove deletes the old
-- file, an error that the code does not look at; a rename replaces a file that is still there.
pub data SaveOutcome : Type 0 where
  no_temp fails_at_close : SaveOutcome
  fails_at_copy : ℕ → SaveOutcome
  fails_at_rename saved : Bool → SaveOutcome

-- The workspace directory with the temporary file of the call, until it has its name there or is
-- removed; .filestor/tmp, where it is, is not in `Workspace`.
pub record Saving : Type 0 where
  pub entries : List (Text × Node)
  pub temp : Option Text

abbrev pub regular : Text → Node
regular content = record { is_regular = true; content = content }

-- os.CreateTemp: an empty file
abbrev pub create_temp : Saving → Saving
create_temp t = record t { temp = some [] }

-- io.Copy into it, of the first k bytes or of all
abbrev pub copy_some : ℕ → Text → Saving → Saving
copy_some k content t = record t { temp = some (take k content) }

abbrev pub copy_all : Text → Saving → Saving
copy_all content t = record t { temp = some content }

-- os.Remove(dest)
abbrev pub remove_dest : Bool → Text → Saving → Saving
remove_dest removes name t = if removes then record t { entries = remove name t.entries } else t

-- os.Rename(tmpName, dest): the temporary file has the other name now
abbrev pub rename_temp : Text → Option Text → Saving → Saving
rename_temp name none t = t
rename_temp name (some bytes) t = record t {
  entries = insert name (regular bytes) t.entries;
  temp = none;
}

-- the deferred os.Remove(tmpName), and what the directory and the error are then
abbrev pub remove_temp : Workspace → Option FileError → Saving → Workspace × Option FileError
remove_temp w e t = (record w { root = t.entries }, e)

abbrev pub save_at : SaveOutcome → Workspace → Text → Text → Workspace × Option FileError
save_at outcome w name content = steps outcome
  where
    opened : Saving
    opened = create_temp (record { entries = w.root; temp = none })

    copied : Saving
    copied = copy_all content opened

    moved : Saving → Saving
    moved t = rename_temp name t.temp t

    steps : SaveOutcome → Workspace × Option FileError
    steps no_temp = (w, some disk_error)
    steps (fails_at_copy k) = remove_temp w (some disk_error) (copy_some k content opened)
    steps fails_at_close = remove_temp w (some disk_error) copied
    steps (fails_at_rename removes) =
        remove_temp w (some disk_error) (remove_dest removes name copied)
    steps (saved removes) = remove_temp w none (moved (remove_dest removes name copied))

abbrev pub save_named : SaveOutcome → Workspace → Option Text → Text → Workspace × Option FileError
save_named outcome w none content = (w, some invalid_name)
save_named outcome w (some name) content = save_at outcome w name content

-- saveWorkspaceFile
unfoldable pub save_workspace_file :
    SaveOutcome → Workspace → Text → Text → Workspace × Option FileError
save_workspace_file outcome w name content =
    save_named outcome w (sanitize_workspace_name name) content

abbrev pub is_present : Option Node → Bool
is_present none = false
is_present (some n) = true

abbrev pub remove_named : Bool → Workspace → Option Text → Workspace × Option FileError
remove_named removes w none = (w, some invalid_name)
remove_named removes w (some name) =
    if not (is_present (lookup name w.root))
    then (w, some not_exist)
    else if not removes
    then (w, some disk_error)
    else (record w { root = remove name w.root }, none)

-- removeWorkspaceFile; `removes` is whether os.Remove can delete what is there
unfoldable pub remove_workspace_file : Bool → Workspace → Text → Workspace × Option FileError
remove_workspace_file removes w name = remove_named removes w (sanitize_workspace_name name)

-- os.Rename(src, dst) of an entry that is there
abbrev pub move_entry : Text → Text → Option Node → List (Text × Node) → List (Text × Node)
move_entry old new none root = root
move_entry old new (some n) root = insert new n (remove old root)

abbrev pub rename_named :
    Bool → Bool → Workspace → Option Text → Option Text → Workspace × Option FileError
rename_named same renames w none new = (w, some invalid_name)
rename_named same renames w (some old) none = (w, some invalid_name)
rename_named same renames w (some old) (some new) =
    if text_eq old new
    then (w, some same_name)
    else if not (is_present (lookup old w.root))
    then (w, some not_exist)
    else if is_present (lookup new w.root) && not same
    then (w, some name_taken)
    else if not renames
    then (w, some disk_error)
    else if is_present (lookup new w.root)
    then (w, none)
    else (record w { root = move_entry old new (lookup old w.root) w.root }, none)

-- renameWorkspaceFile; `same` is os.SameFile of the two entries, when both are there: two names of
-- one file, which os.Rename leaves alone.
unfoldable pub rename_workspace_file :
    Bool → Bool → Workspace → Text → Text → Workspace × Option FileError
rename_workspace_file same renames w old new =
    rename_named same renames w (sanitize_workspace_name old) (sanitize_workspace_name new)

-- What an os.RemoveAll of one of the program's own directories leaves there: the entries that it
-- cannot delete. The code does not ask, or logs an error and goes on.
unfoldable pub left_behind : (Text → Bool) → List (Text × Text) → List (Text × Text)
left_behind stays [] = []
left_behind stays ((name, bytes) ∷ dir) =
    let rest = left_behind stays dir in if stays name then (name, bytes) ∷ rest else rest

-- What an os.WriteFile that fails leaves: the directory as it was, or the start of the new contents.
abbrev pub torn : Option ℕ → Text → Text → List (Text × Text) → List (Text × Text)
torn none name bytes dir = dir
torn (some k) name bytes dir = insert name (take k bytes) dir

-- Methods of workspaceStateStore. `writes` is whether saveWorkspaceState succeeds: it writes a
-- temporary file and renames it, so that a failure leaves state.json as it was.
abbrev pub put_state : WorkspaceState → Workspace → Workspace
put_state st w = record w { state_file = some (valid st); state = st; exists = true }

-- save, with whether it succeeded
unfoldable pub save : Bool → WorkspaceState → Workspace → Workspace × Bool
save writes st w = if writes then (put_state st w, true) else (w, false)

-- What the removals of clear come to: whether os.Remove deletes state.json, and the digest marks that
-- stay. Neither error is looked at.
pub record Removal : Type 0 where
  pub state_goes : Bool
  pub stays : Text → Bool

-- clear
unfoldable pub clear : Removal → Workspace → Workspace
unfolding left_behind
clear r w = record w {
  state_file = if r.state_goes then none else w.state_file;
  digest_dir = left_behind r.stays w.digest_dir;
  state = zero_state;
  exists = false;
}

-- pin; `now` is the formatted time
unfoldable pub pin : Bool → Text → Workspace → Workspace
pin writes now w =
    if w.exists
    then w
    else if writes
    then put_state (record { time = now; title = []; analyzed = false }) w
    else w

-- What markUnanalyzed comes to on the disk: state.json is not written, or it is, and these marks stay.
pub data Update : Type 0 where
  not_written : Update
  written : (Text → Bool) → Update

abbrev pub unanalyzed : Update → Workspace → Workspace
unanalyzed not_written w = w
unanalyzed (written stays) w = record (put_state (record w.state { analyzed = false }) w) {
  digest_dir = left_behind stays w.digest_dir;
}

-- markUnanalyzed
unfoldable pub mark_unanalyzed : Update → Workspace → Workspace
unfolding left_behind
mark_unanalyzed update w = if not w.exists || not w.state.analyzed then w else unanalyzed update w

-- newWorkspaceStateStore: what the store holds when the server starts on a directory
abbrev pub without_draft : (Text → Bool) → Workspace → Workspace
without_draft stays w = record w {
  digest_dir = left_behind stays w.digest_dir;
  state = zero_state;
  exists = false;
}

abbrev pub start_from : (Text → Bool) → Option StateFile → Workspace → Workspace
start_from stays none w = without_draft stays w
start_from stays (some corrupt) w = without_draft stays w
start_from stays (some (valid st)) w = record w { state = st; exists = true }

unfoldable pub new_workspace_state_store : (Text → Bool) → Workspace → Workspace
unfolding left_behind
new_workspace_state_store stays w = start_from stays w.state_file w

-- resetAnalyzeDir: the products of the last run go, but those that stay
unfoldable pub reset_analyze_dir : (Text → Bool) → Workspace → Workspace
unfolding left_behind
reset_analyze_dir stays w = record w { analyze_dir = left_behind stays w.analyze_dir }

-- resetDigestDir
unfoldable pub reset_digest_dir : (Text → Bool) → Workspace → Workspace
unfolding left_behind
reset_digest_dir stays w = record w { digest_dir = left_behind stays w.digest_dir }
