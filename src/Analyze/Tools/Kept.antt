-- ===== src/Analyze/Tools/Kept.antt =====
-- What a tool call leaves as it was (analyze.go: runTool).
use filestor.Base.{
  ℕ, ◌≡◌, refl, ap, inl, inr, Bool, true, false, not, ◌&&◌, List, Option, none, some, if◌then◌else◌,
  Bool-cases, Text, text_eq, lookup,
}
use filestor.Names.File.{sanitize_workspace_name}
use filestor.Workspace.{Workspace, FileError, is_present, rename_named, rename_workspace_file, save}
use filestor.Hub.{Kind, broadcast}
use filestor.Server.{emit_files, emit_state}
use filestor.Analyze.{Entry, Args, Agent, Disk}
use filestor.Analyze.Marks.{entry_named}
use filestor.Analyze.Tools.{tool_rename, renamed_file, rename_entry, time_of, or_blank}

-- What only the marks and the titles change: the lock, the analyzed flag, the digest, the title.
pub record Core : Type 0 where
  pub lock : Option Kind
  pub flag : Bool
  pub marks : List (Text × Text)
  pub texts : ℕ
  pub images : List Text
  pub title : Text
  pub draft : Text

abbrev pub core : Agent → Core
core a = record {
  lock = a.server.hub.lock;
  flag = a.server.work.state.analyzed;
  marks = a.server.work.digest_dir;
  texts = a.digest_texts;
  images = a.digest_images;
  title = a.title;
  draft = a.server.work.state.title;
}

abbrev pub Alike : Agent → Agent → Type 0
Alike a b = core b ≡ core a

-- A rename of a staged file changes the directory alone.
abbrev RootOnly : Workspace → Workspace × Option FileError → Type 0
RootOnly w r = r.0 ≡ record w { root = r.0.root }

RootOnly-if :
    (w : Workspace) (b : Bool) (x y : Workspace × Option FileError)
    → RootOnly w x
    → RootOnly w y
    → RootOnly w (if b then x else y)
RootOnly-if w true x y p q = p
RootOnly-if w false x y p q = q

rename_named-RootOnly :
    (same renames : Bool) (w : Workspace) (old new : Option Text)
    → RootOnly w (rename_named same renames w old new)
rename_named-RootOnly same renames w none new = refl
rename_named-RootOnly same renames w (some old) none = refl
rename_named-RootOnly same renames w (some old) (some new) =
    RootOnly-if w (text_eq old new) _ _ refl (
      RootOnly-if w (not (is_present (lookup old w.root))) _ _ refl (
        RootOnly-if w (is_present (lookup new w.root) && not same) _ _ refl (
          RootOnly-if w (not renames) _ _ refl
            (RootOnly-if w (is_present (lookup new w.root)) _ _ refl refl))))

-- the work of a server after a rename
abbrev SameWork : Workspace → Workspace → Type 0
SameWork w w' = (w'.state ≡ w.state) × (w'.digest_dir ≡ w.digest_dir)

rename_workspace_file-SameWork :
    (same renames : Bool) (w : Workspace) (old new : Text)
    → SameWork w (rename_workspace_file same renames w old new).0
unfolding rename_workspace_file
rename_workspace_file-SameWork same renames w old new =
    let e =
      rename_named-RootOnly same renames w (sanitize_workspace_name old)
        (sanitize_workspace_name new) in
    (ap (λ v. v.state) e, ap (λ v. v.digest_dir) e)

rename_entry-Alike :
    (d : Disk) (old new : Text) (i : Option ℕ) (e : Option Entry) (a b : Agent)
    → Alike a b
    → Alike a (rename_entry d old new i e b)
rename_entry-Alike d old new (some i) (some e) a b k = k
rename_entry-Alike d old new (some i) none a b k = k
rename_entry-Alike d old new none e a b k = k

renamed_file-Alike :
    (d : Disk) (args : Args) (a : Agent) (r : Workspace × Option FileError)
    → SameWork a.server.work r.0
    → Alike a (renamed_file d args a r).0
unfolding emit_files broadcast
renamed_file-Alike d args a (w, some e) k = refl
renamed_file-Alike d args a (w, none) (st, dir) =
    let old = or_blank (sanitize_workspace_name args.name) in
    let b = record a { server = emit_files (record a.server { work = w }) } in
    rename_entry-Alike d old (or_blank (sanitize_workspace_name args.new_name))
      (lookup old b.entries) (entry_named b old) a b (same_core st dir)
  where
    same_core :
        w.state ≡ a.server.work.state
        → w.digest_dir ≡ a.server.work.digest_dir
        → core (record a { server = emit_files (record a.server { work = w }) }) ≡ core a
    same_core st dir = rw (st, dir) refl

pub tool_rename-Alike : (d : Disk) (args : Args) (a : Agent) → Alike a (tool_rename d args a).0
unfolding tool_rename
tool_rename-Alike d args a =
    renamed_file-Alike d args a
      (rename_workspace_file d.same_file d.renames a.server.work args.name args.new_name)
      (rename_workspace_file-SameWork d.same_file d.renames a.server.work args.name args.new_name)

pub time_of-Alike : (d : Disk) (a : Agent) (when : Option Text) → Alike a (time_of d a when).0
unfolding save emit_state broadcast
time_of-Alike d a none = refl
time_of-Alike d a (some when) = elim (Bool-cases d.saves) [ inl e ↦ rw e refl | inr e ↦ rw e refl ]
