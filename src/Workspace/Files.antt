-- ===== src/Workspace/Files.antt =====
-- Staged files, one operation at a time (upload.go: saveWorkspaceFile, removeWorkspaceFile,
-- renameWorkspaceFile).
use filestor.Base.{
  ◌≡◌, ◌≢◌, refl, sym, subst, inl, inr, Bool, true, false, Option, none, some, List, ◌⊎◌,
  if◌then◌else◌, Bool-cases, Option-cases, Text, text_eq, text_eq_iff, text_eq_self, lookup,
  lookup-insert, lookup-remove, arith,
}
use filestor.Names.File.{sanitize_workspace_name}
use filestor.Workspace.{
  Node, Workspace, FileError, SaveOutcome, save_at, save_workspace_file, rename_workspace_file,
  rename_named, move_entry, same_name, not_exist, name_taken, disk_error,
}

different : {a b : Text} → a ≢ b → text_eq a b ≡ false
different {a} {b} n = ground (arith, text_eq_iff a b, n)

-- An upload under an accepted name that succeeds puts its contents under that name; one that fails
-- leaves there what there was, or nothing, and never a part of the new contents. Whatever becomes
-- of it, no other entry of the directory changes, nor does the draft in memory.
pub save_workspace_file-effect :
    (outcome : SaveOutcome) (w : Workspace) (name content : Text) {file : Text}
    → sanitize_workspace_name name ≡ some file
    → let r = save_workspace_file outcome w name content in
      (r.1 ≡ none → lookup file r.0.root ≡ some (record { is_regular = true; content = content }))
      × ((e : FileError)
          → r.1 ≡ some e
          → (lookup file r.0.root ≡ lookup file w.root) ⊎ (lookup file r.0.root ≡ none))
      × ((k : Text) → k ≢ file → lookup k r.0.root ≡ lookup k w.root)
      × (r.0.state ≡ w.state)
unfolding save_workspace_file
save_workspace_file-effect outcome w name content {file} e = rw e (effect outcome)
  where
    effect :
        (o : SaveOutcome)
        → let r = save_at o w file content in
          (r.1 ≡ none
            → lookup file r.0.root ≡ some (record { is_regular = true; content = content }))
          × ((e : FileError)
              → r.1 ≡ some e
              → (lookup file r.0.root ≡ lookup file w.root) ⊎ (lookup file r.0.root ≡ none))
          × ((k : Text) → k ≢ file → lookup k r.0.root ≡ lookup k w.root)
          × (r.0.state ≡ w.state)
    effect SaveOutcome.no_temp = (λ h. cc, λ e h. inl refl, λ k n. refl, refl)
    effect (SaveOutcome.fails_at_copy n) = (λ h. cc, λ e h. inl refl, λ k n. refl, refl)
    effect SaveOutcome.fails_at_close = (λ h. cc, λ e h. inl refl, λ k n. refl, refl)
    effect (SaveOutcome.fails_at_rename true) = (
      λ h. cc,
      λ e h. inr (rw (lookup-remove, text_eq_self file) refl),
      λ k n. rw (lookup-remove, different (λ q. n (sym q))) refl,
      refl,
    )
    effect (SaveOutcome.fails_at_rename false) = (λ h. cc, λ e h. inl refl, λ k n. refl, refl)
    effect (SaveOutcome.saved true) = (
      λ _. rw (lookup-insert, text_eq_self file) refl,
      λ e h. cc,
      λ k n. rw (lookup-insert, lookup-remove, different (λ q. n (sym q))) refl,
      refl,
    )
    effect (SaveOutcome.saved false) = (
      λ _. rw (lookup-insert, text_eq_self file) refl,
      λ e h. cc,
      λ k n. rw (lookup-insert, different (λ q. n (sym q))) refl,
      refl,
    )

text_eq_sym : (a b : Text) → text_eq a b ≡ false → text_eq b a ≡ false
text_eq_sym a b h = ground (arith, text_eq_iff a b, text_eq_iff b a)

moved_lookup :
    (old new k : Text) (n : Node) (root : List (Text × Node))
    → lookup k (move_entry old new (some n) root)
      ≡ (if text_eq new k then some n else if text_eq old k then none else lookup k root)
moved_lookup old new k n root = rw (lookup-insert, lookup-remove) refl

-- What a rename of distinct names comes to.
rename_cases :
    (renames : Bool) (w : Workspace) (old new : Text)
    → let r = rename_named false renames w (some old) (some new) in
      ((e : FileError) × (r ≡ (w, some e)))
      ⊎ ((n : Node) × (text_eq old new ≡ false)
          × (lookup old w.root ≡ some n)
          × (lookup new w.root ≡ none)
          × (r ≡ (record w { root = move_entry old new (some n) w.root }, none)))
rename_cases renames w old new = elim (Bool-cases (text_eq old new)) [
  | inl e ↦ inl (same_name, rw e refl)
  | inr e ↦ elim (Option-cases (lookup old w.root)) [
    | inl a ↦ inl (not_exist, rw (e, a) refl)
    | inr (n, a) ↦ elim (Option-cases (lookup new w.root)) [
      | inr (m, b) ↦ inl (name_taken, rw (e, a, b) refl)
      | inl b ↦ elim (Bool-cases renames) [
        | inr c ↦ inl (disk_error, rw (e, a, b, c) refl)
        | inl c ↦ inr (n, e, a, b, rw (e, a, b, c) refl)
      ]
    ]
  ]
]

abbrev Moves : Workspace → Text → Text → Workspace × Option FileError → Type 0
Moves w from to r =
    ((e : FileError) → r.1 ≡ some e → r.0 ≡ w)
    × (r.1 ≡ none
        → (lookup to w.root ≡ none)
          × (lookup to r.0.root ≡ lookup from w.root)
          × (lookup from r.0.root ≡ none)
          × ((k : Text) → k ≢ from → k ≢ to → lookup k r.0.root ≡ lookup k w.root))

-- For accepted names of different files, a rename that fails changes nothing; one that succeeds
-- moves the entry: the new name, which had none, has it, the old name has none, and every other
-- name is as it was.
pub rename_workspace_file-effect :
    (renames : Bool) (w : Workspace) (old new : Text) {from to : Text}
    → sanitize_workspace_name old ≡ some from
    → sanitize_workspace_name new ≡ some to
    → let r = rename_workspace_file false renames w old new in
      ((e : FileError) → r.1 ≡ some e → r.0 ≡ w)
      × (r.1 ≡ none
          → (lookup to w.root ≡ none)
            × (lookup to r.0.root ≡ lookup from w.root)
            × (lookup from r.0.root ≡ none)
            × ((k : Text) → k ≢ from → k ≢ to → lookup k r.0.root ≡ lookup k w.root))
unfolding rename_workspace_file
rename_workspace_file-effect renames w old new {from} {to} p q =
    rw (p, q)
      (elim (rename_cases renames w from to) [
        | inl (e, k) ↦ subst (Moves w from to) (sym k) (λ _ _. refl, λ h. cc)
        | inr (n, d, a, b, k) ↦ subst (Moves w from to) (sym k) (
          λ e h. cc,
          λ _. (
            b,
            rw (moved_lookup, text_eq_self to, a) refl,
            rw (moved_lookup, text_eq_sym from to d, text_eq_self from) refl,
            λ j f t. rw (moved_lookup, different (λ q. t (sym q)), different (λ q. f (sym q))) refl,
          ),
        )
      ])
