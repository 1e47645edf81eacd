-- ===== src/Workspace/Restart.antt =====
-- The store in memory and state.json agree after every method, so that a restart finds the draft.
use filestor.Base.{◌≡◌, Bool, true, false, List, [], ◌∷◌, none, some, Text, ◌⊎◌}
use filestor.Workspace.{
  WorkspaceState, zero_state, valid, corrupt, Workspace, save, clear, pin, mark_unanalyzed, Removal,
  Update,
}

-- The store holds what state.json says; with no draft there is no valid file.
pub record Agrees (w : Workspace) : Type 0 where
  pub present : w.exists ≡ true → w.state_file ≡ some (valid w.state)
  pub absent :
      w.exists ≡ false
      → ((w.state_file ≡ none) ⊎ (w.state_file ≡ some corrupt)) × (w.state ≡ zero_state)

-- The methods that change the store.
pub data StoreCall : Type 0 where
  save_call : Bool → WorkspaceState → StoreCall
  clear_call : Removal → StoreCall
  pin_call : Bool → Text → StoreCall
  mark_unanalyzed_call : Update → StoreCall

pub call : StoreCall → Workspace → Workspace
call (save_call b st) w = (save b st w).0
call (clear_call r) w = clear r w
call (pin_call b now) w = pin b now w
call (mark_unanalyzed_call u) w = mark_unanalyzed u w

pub calls : List StoreCall → Workspace → Workspace
calls [] w = w
calls (c ∷ cs) w = calls cs (call c w)

-- Whether a call of clear deletes state.json; if it does not, the file keeps a draft that the store
-- has no more.
abbrev pub Clears : StoreCall → Type 0
Clears (clear_call r) = r.state_goes ≡ true
Clears _ = Unit {0}

abbrev pub SameDraft : Workspace → Workspace → Type 0
SameDraft w w' = (w'.state ≡ w.state) × (w'.exists ≡ w.exists) × (w'.state_file ≡ w.state_file)
