-- ===== src/Server/Gate.antt =====
-- The analyzed flag gates the push: while it stays set, the staged files are those of the run that
-- set it.
use filestor.Base.{
  ℕ, suc, ◌≡◌, ◌≢◌, inl, inr, refl, Bool, true, false, List, [], ◌∷◌, ltb, Bool-cases, All, Text,
  arith,
}
use filestor.Workspace.{
  Workspace, fails_at_rename, written, not_written, Update, save_workspace_file, clear, pin,
  mark_unanalyzed,
}
use filestor.Hub.{Kind, acquire}
use filestor.Server.{
  Server, Status, Part, Form, parts, too_large, bad_multipart, no_form, emit_files, emit_state,
  staged_changed, add_fail, add_part, add_parts, add_form, holding_lock, handle_upload_add,
  clear_workspace_state_if_empty, Cleanup,
}

-- An analyzed batch has a draft.
abbrev pub Fits : Workspace → Type 0
Fits w = w.state.analyzed ≡ true → w.exists ≡ true

-- If the batch is analyzed afterwards, it was before, and the directory is as it was.
abbrev pub Keeps : Workspace → Workspace → Type 0
Keeps w w' = w'.state.analyzed ≡ true → (w.state.analyzed ≡ true) × (w'.root ≡ w.root)

staged_changed-work :
    (u : Update) (s : Server) → (staged_changed u s).work ≡ mark_unanalyzed u s.work
unfolding staged_changed emit_files emit_state
staged_changed-work u s = refl

pub mark_unanalyzed-cleared :
    (stays : Text → Bool) (w : Workspace)
    → Fits w
    → (mark_unanalyzed (written stays) w).state.analyzed ≡ false
unfolding mark_unanalyzed
mark_unanalyzed-cleared stays w f = ground arith

add_part-Fits : (now : Text) (w : Workspace) (p : Part) → Fits w → Fits (add_part now w p).0.0
unfolding add_part save_workspace_file pin
add_part-Fits now w p f = ground arith

add_part_failed :
    (now : Text) (w : Workspace) (p : Part)
    → p.outcome ≢ fails_at_rename true
    → (add_part now w p).0.1 ≡ false
    → (add_part now w p).0.0 ≡ w
unfolding add_part save_workspace_file pin
add_part_failed now w p n h = ground arith

zero_ltb : (n : ℕ) → ltb 0 (suc n) ≡ true
zero_ltb n = ground arith

add_fail-work :
    (stays : Text → Bool) (n : ℕ) (s : Server)
    → (add_fail (written stays) (suc n) s).work ≡ mark_unanalyzed (written stays) s.work
unfolding add_fail
add_fail-work stays n s = rw (zero_ltb n) (staged_changed-work (written stays) s)

add_fail_none : (stays : Text → Bool) (s : Server) → add_fail (written stays) 0 s ≡ s
unfolding add_fail
add_fail_none stays s = refl

pub cleared {ℓ} : {A : Type ℓ} (b : Bool) → b ≡ false → b ≡ true → A
cleared b f t = cc

pub mark_unanalyzed-Fits : (u : Update) (w : Workspace) → Fits w → Fits (mark_unanalyzed u w)
unfolding mark_unanalyzed
mark_unanalyzed-Fits not_written w f = ground arith
mark_unanalyzed-Fits (written stays) w f = ground arith

-- The handlers keep `Fits`, and clear the flag if they change the directory.
abbrev pub Guards : Workspace → Workspace → Type 0
Guards w w' = Fits w' × Keeps w w'

-- With a file saved already, the flag is clear at the end.
add_parts-cleared :
    (stays : Text → Bool) (now : Text) (n : ℕ) (ps : List Part) (s : Server)
    → Fits s.work
    → let w = (add_parts (written stays) now (suc n) ps s).0.work in
      Fits w × (w.state.analyzed ≡ false)
unfolding add_parts
add_parts-cleared stays now n [] s f =
    rw (staged_changed-work (written stays) s)
      (mark_unanalyzed-Fits (written stays) s.work f, mark_unanalyzed-cleared stays s.work f)
add_parts-cleared stays now n (p ∷ ps) s f = elim (Bool-cases (add_part now s.work p).0.1) [
  | inl e ↦ rw e (
      add_parts-cleared stays now (suc n) ps (record s { work = (add_part now s.work p).0.0 })
        (add_part-Fits now s.work p f))
  | inr e ↦ rw e (
      rw (add_fail-work stays n (record s { work = (add_part now s.work p).0.0 })) (
        mark_unanalyzed-Fits (written stays) _ (add_part-Fits now s.work p f),
        mark_unanalyzed-cleared stays _ (add_part-Fits now s.work p f),
      ))
]

-- No replacement of a staged file fails between the removal of the old file and the rename.
abbrev pub Replaces : Part → Type 0
Replaces p = p.outcome ≢ fails_at_rename true

add_parts-Guards :
    (stays : Text → Bool) (now : Text) (p : Part) (ps : List Part) (s : Server)
    → Replaces p
    → Fits s.work
    → Guards s.work (add_parts (written stays) now 0 (p ∷ ps) s).0.work
unfolding add_parts
add_parts-Guards stays now p ps s r f = elim (Bool-cases (add_part now s.work p).0.1) [
  | inl e ↦ rw e (
      let t : Server = record s { work = (add_part now s.work p).0.0 } in
      let (k, c) = add_parts-cleared stays now 0 ps t (add_part-Fits now s.work p f) in
      (k, λ a. cleared _ c a))
  | inr e ↦
      rw e (add_part-Fits now s.work p f, rw (add_part_failed now s.work p r e) (λ a. (a, refl)))
]

abbrev pub ReplacesAll : Form → Type 0
ReplacesAll (parts ps) = All Replaces ps
ReplacesAll _ = Unit {0}

add_form-Guards :
    (stays : Text → Bool) (now : Text) (form : Form) (s : Server)
    → ReplacesAll form
    → Fits s.work
    → Guards s.work (add_form (written stays) now form s).0.work
add_form-Guards stays now too_large s r f = (f, λ a. (a, refl))
add_form-Guards stays now bad_multipart s r f = (f, λ a. (a, refl))
add_form-Guards stays now no_form s r f = (f, λ a. (a, refl))
add_form-Guards stays now (parts []) s r f = (f, λ a. (a, refl))
add_form-Guards stays now (parts (p ∷ ps)) s r f = add_parts-Guards stays now p ps s r.0 f

pub holding_lock-Guards :
    (kind : Kind) (body : Server → Server × Status) (s : Server)
    → Fits s.work
    → ((t : Server) → t.work ≡ s.work → Guards s.work (body t).0.work)
    → Guards s.work (holding_lock kind body s).0.work
holding_lock-Guards kind body s f g = elim (Bool-cases (acquire kind s.hub).1) [
  | inl e ↦ rw e (g (record s { hub = (acquire kind s.hub).0 }) refl)
  | inr e ↦ rw e (f, λ a. (a, refl))
]

pub handle_upload_add-Guards :
    (stays : Text → Bool) (now : Text) (form : Form) (s : Server)
    → ReplacesAll form
    → Fits s.work
    → Guards s.work (handle_upload_add (written stays) now form s).0.work
unfolding handle_upload_add
handle_upload_add-Guards stays now form s r f =
    holding_lock-Guards Kind.stage (add_form (written stays) now form) s f
      (λ t e. rw (← e) (add_form-Guards stays now form t r (rw e f)))

pub clear_if_empty-Guards :
    (cleanup : Cleanup) (w : Workspace)
    → Fits w
    → w.state.analyzed ≡ false
    → let w' = clear_workspace_state_if_empty cleanup w in Fits w' × (w'.state.analyzed ≡ false)
unfolding clear_workspace_state_if_empty clear
clear_if_empty-Guards cleanup w f c = ground arith
