-- ===== src/Server/Requests.antt =====
-- What the requests do to the analyzed flag, one by one and in any order.
use filestor.Base.{
  ◌≡◌, inl, inr, refl, ◌∙◌, Bool, true, false, List, [], ◌∷◌, Option, none, some, Bool-cases,
  Option-cases, All, Text, arith,
}
use filestor.Names.File.{sanitize_workspace_name}
use filestor.Workspace.{
  FileError, not_exist, WorkspaceState, Workspace, remove_workspace_file, save, mark_unanalyzed,
  Update, written, not_written,
}
use filestor.Hub.{Kind, busy_for_state}
use filestor.Server.{
  Server, Form, StateForm, Cleanup, emit_files, emit_state, handle_upload_add, delete_result,
  handle_upload_delete, state_of_form, state_read, state_checked, handle_upload_state,
}
use filestor.Server.Gate.{
  Fits, Guards, ReplacesAll, cleared, mark_unanalyzed-cleared, mark_unanalyzed-Fits,
  clear_if_empty-Guards, holding_lock-Guards, handle_upload_add-Guards,
}

remove-Fits :
    (removes : Bool) (w : Workspace) (name : Text)
    → Fits w
    → Fits (remove_workspace_file removes w name).0
unfolding remove_workspace_file
remove-Fits removes w name f = ground arith

delete_result-Guards :
    (stays : Text → Bool) (cleanup : Cleanup) (s : Server) (r : Workspace × Option FileError)
    → Fits s.work
    → Fits r.0
    → Guards s.work (delete_result (written stays) cleanup s r).0.work
unfolding emit_files emit_state
delete_result-Guards stays cleanup s (w, none) f g =
    let (k, c) =
      clear_if_empty-Guards cleanup (mark_unanalyzed (written stays) w)
        (mark_unanalyzed-Fits (written stays) w g) (mark_unanalyzed-cleared stays w g) in
    (k, λ a. cleared _ c a)
delete_result-Guards stays cleanup s (w, some not_exist) f g = (f, λ a. (a, refl))
delete_result-Guards stays cleanup s (w, some _) f g = (f, λ a. (a, refl))

handle_upload_delete-Guards :
    (stays : Text → Bool) (cleanup : Cleanup) (removes : Bool) (name : Text) (s : Server)
    → Fits s.work
    → Guards s.work (handle_upload_delete (written stays) cleanup removes name s).0.work
unfolding handle_upload_delete
handle_upload_delete-Guards stays cleanup removes name s f =
    elim (Option-cases (sanitize_workspace_name name)) [
      | inl e ↦ rw e (f, λ a. (a, refl))
      | inr (n, e) ↦ rw e (
          holding_lock-Guards Kind.stage
            (λ t.
              delete_result (written stays) cleanup t (remove_workspace_file removes t.work name))
            s f
            (λ t k. rw (← k) (
              delete_result-Guards stays cleanup t (remove_workspace_file removes t.work name)
                (rw k f) (remove-Fits removes t.work name (rw k f)))))
    ]

-- Writing a draft that is as analyzed as the one in memory.
state_checked-Guards :
    (writes lists : Bool) (s : Server) (st : Option WorkspaceState)
    → Fits s.work
    → ((d : WorkspaceState) → st ≡ some d → d.analyzed ≡ s.work.state.analyzed)
    → Guards s.work (state_checked writes lists s st).0.work
unfolding emit_state save
state_checked-Guards writes lists s none f g = (f, λ a. (a, refl))
state_checked-Guards writes lists s (some d) f g = ground (arith, g d refl)

state_read-analyzed :
    (form : StateForm) (s : Server) (d : WorkspaceState)
    → state_read form s ≡ some d
    → d.analyzed ≡ s.work.state.analyzed
unfolding state_read state_of_form
state_read-analyzed form s d e = ground arith

handle_upload_state-Guards :
    (writes lists : Bool) (form : StateForm) (s : Server)
    → Fits s.work
    → Guards s.work (handle_upload_state writes lists form s).0.work
unfolding handle_upload_state
handle_upload_state-Guards writes lists form s f = elim (Bool-cases (busy_for_state s.hub)) [
  | inl b ↦ rw b (f, λ a. (a, refl))
  | inr b ↦ rw b (elim (Bool-cases form.parses) [
    | inr e ↦ simp e (f, λ a. (a, refl))
    | inl e ↦
        simp e
          (state_checked-Guards writes lists s (state_read form s) f (state_read-analyzed form s))
  ])
]

-- The requests that change the staged files or the draft.
pub data Request : Type 0 where
  add_request : Update → Text → Form → Request
  delete_request : Update → Cleanup → Bool → Text → Request
  state_request : Bool → Bool → StateForm → Request

unfoldable pub serve : Request → Server → Server
serve (add_request update now form) s = (handle_upload_add update now form s).0
serve (delete_request update cleanup removes name) s =
    (handle_upload_delete update cleanup removes name s).0
serve (state_request writes lists form) s = (handle_upload_state writes lists form s).0

unfoldable pub serve_all : List Request → Server → Server
serve_all [] s = s
serve_all (r ∷ rs) s = serve_all rs (serve r s)

abbrev pub is_written : Update → Bool
is_written not_written = false
is_written (written stays) = true

-- markUnanalyzed can write state.json, and no os.Rename of an upload fails after os.Remove deleted
-- the old file.
abbrev pub DiskWorks : Request → Type 0
DiskWorks (add_request update now form) = (is_written update ≡ true) × ReplacesAll form
DiskWorks (delete_request update cleanup removes name) = is_written update ≡ true
DiskWorks (state_request writes lists form) = Unit {0}

serve-Guards :
    (r : Request) (s : Server) → DiskWorks r → Fits s.work → Guards s.work (serve r s).work
unfolding serve
serve-Guards (add_request not_written now form) s d f = cc
serve-Guards (add_request (written stays) now form) s d f =
    handle_upload_add-Guards stays now form s d.1 f
serve-Guards (delete_request not_written cleanup removes name) s d f = cc d
serve-Guards (delete_request (written stays) cleanup removes name) s d f =
    handle_upload_delete-Guards stays cleanup removes name s f
serve-Guards (state_request writes lists form) s d f =
    handle_upload_state-Guards writes lists form s f

-- Take any sequence of uploads, deletions and draft updates, served one after the other, where no
-- write of state.json by markUnanalyzed fails and no os.Rename of an upload fails after os.Remove
-- deleted the old file. If the batch counts as analyzed after them, it did before them, and the
-- staged files are the same, with the same contents.
pub serve_all-keeps_batch :
    (rs : List Request) (s : Server)
    → All DiskWorks rs
    → Fits s.work
    → (serve_all rs s).work.state.analyzed ≡ true
    → (s.work.state.analyzed ≡ true) × ((serve_all rs s).work.root ≡ s.work.root)
unfolding serve_all
serve_all-keeps_batch [] s d f a = (a, refl)
serve_all-keeps_batch (r ∷ rs) s d f a =
    let (f', g) = serve-Guards r s d.0 f in
    let (a', same) = serve_all-keeps_batch rs (serve r s) d.1 f' a in
    let (a'', same') = g a' in (a'', same ∙ same')
