-- ===== src/Analyze/Tools.antt =====
-- Tool calls (analyze.go: setTitle, resolveTextName, toolReadFile, renameDerived, runTool).
pub mod Kept
pub mod Steady
use filestor.Base.{
  ℕ, zero, suc, ◌+◌, Bool, true, false, ◌&&◌, ◌||◌, not, List, [], ◌∷◌, ◌++◌, Option, none, some,
  drop, if◌then◌else◌, length, Text, codes, has_prefix, lookup, insert, remove,
}
use filestor.Names.File.{sanitize_workspace_name}
use filestor.Names.Title.{sanitize_push_title}
use filestor.Workspace.{WorkspaceState, Workspace, Node, FileError, rename_workspace_file, save}
use filestor.Hub.{Kind, JobProgress, no_progress, emit_progress}
use filestor.Server.{Server, emit_files, emit_state}
use filestor.Analyze.{
  AnalyzeKind, kind_text, kind_document, kind_image, kind_video, kind_other, Entry, Args, Tool,
  ToolCall, read_file, load_media, rename_file, mark_text, mark_image, finish, set_title,
  set_datetime, other_tool, Page, Reply, invalid_arguments, reading_closed, bad_name, no_such_file,
  is_an_image, has_text_form, no_text_form, unknown_tool, page, not_renamed, renamed, title_empty,
  title_set, time_invalid, time_set, analysis_finished, disk_failed, Message, tool_reply, images,
  Disk, Agent, entry_at, set_entry,
}
use filestor.Analyze.Time.{parse_analyze_time}
use filestor.Analyze.Paging.{paged_text}
use filestor.Analyze.Marks.{
  entry_named, is_derived, is_text_form, is_nothing, node_bytes, tool_load_media, tool_mark_text,
  tool_mark_image,
}

-- the names of the tools, as a progress report shows them
abbrev pub tool_name : Tool → Text
tool_name read_file = codes "read_file"
tool_name load_media = codes "load_media"
tool_name rename_file = codes "rename_file"
tool_name mark_text = codes "mark_text"
tool_name mark_image = codes "mark_image"
tool_name finish = codes "finish"
tool_name set_title = codes "set_title"
tool_name set_datetime = codes "set_datetime"
tool_name (other_tool name) = name

-- a.progress, with the kind that onProgress sets
abbrev pub progress : JobProgress → Server → Server
progress p s = record s {
  hub = emit_progress 0 (record p { kind = some Kind.analyze }) false s.hub;
}

abbrev pub report : JobProgress → Agent → Agent
report p a = record a { server = progress p a.server }

-- a save of the state store and, if it succeeds, a change of the agent and onState
abbrev pub saved_by : Agent → (Agent → Agent) → Workspace × Bool → Agent × Bool
saved_by a change (w, true) =
    let b = change a in (record b { server = emit_state (record b.server { work = w }) }, true)
saved_by a change (w, false) = (record a { server = record a.server { work = w } }, false)

abbrev pub save_state : Disk → WorkspaceState → (Agent → Agent) → Agent → Agent × Bool
save_state d st change a = saved_by a change (save d.saves st a.server.work)

-- setTitle, with whether it succeeded
unfoldable pub store_title : Disk → Text → Agent → Agent × Bool
unfolding save emit_state
store_title d title a =
    save_state d (record a.server.work.state { title = title }) (λ b. record b { title = title }) a

-- resolveTextName and the file behind it: a reply that refuses the name, or the opened file
abbrev pub opened : Disk → Text → Option Text → Option Text
opened d name none = none
opened d name (some bytes) = if d.opens name then some bytes else none

abbrev pub read_entry : Disk → Agent → Entry → AnalyzeKind → Args → Reply
read_entry d a e kind_text args = page (
    paged_text (opened d e.name (node_bytes (lookup e.name a.server.work.root))) args.offset
      args.limit)
read_entry d a e _ args = if is_nothing e.text then no_text_form else has_text_form

abbrev pub read_named : Disk → Agent → Text → Option Entry → Args → Reply
read_named d a name (some e) args = read_entry d a e e.kind args
read_named d a name none args =
    if not (is_derived a name)
    then no_such_file
    else if is_text_form name
    then page
        (paged_text (opened d name (lookup name a.server.work.analyze_dir)) args.offset args.limit)
    else is_an_image

abbrev pub read_accepted : Disk → Agent → Option Text → Args → Reply
read_accepted d a none args = bad_name
read_accepted d a (some name) args = read_named d a name (entry_named a name) args

-- toolReadFile
unfoldable pub tool_read_file : Disk → Args → Agent → Reply
unfolding paged_text sanitize_workspace_name entry_at
tool_read_file d args a = read_accepted d a (sanitize_workspace_name args.name) args

-- What renameDerived changes: the products on disk, and the agent's names for them.
abbrev pub Forms : Type 0
Forms = List (Text × Text) × List (Text × ℕ)

abbrev pub move_product : Text → Text → Option Text → List (Text × Text) → List (Text × Text)
move_product product new none dir = dir
move_product product new (some bytes) dir = insert new bytes (remove product dir)

abbrev pub in_dir : Option Text → Bool
in_dir none = false
in_dir (some bytes) = true

-- the closure `rename` of renameDerived, on one product of the i-th entry
unfoldable pub rename_product : Disk → ℕ → Text → Text → Text → Forms → Text × Forms
unfolding has_prefix
rename_product d i old new product (dir, derived) =
    let new_name = new ++ drop (length old) product in
    let found = lookup product dir in
    if is_nothing product
    then ([], (dir, derived))
    else if not (has_prefix old product)
    then (product, (dir, derived))
    else if in_dir found && d.moves product
    then (
      new_name,
      (move_product product new_name found dir, insert new_name i (remove product derived)),
    )
    else (product, (dir, derived))

abbrev pub rename_products : Disk → ℕ → Text → Text → List Text → Forms → List Text × Forms
rename_products d i old new [] forms = ([], forms)
rename_products d i old new (p ∷ ps) forms =
    let (p', forms') = rename_product d i old new p forms in
    let (ps', forms'') = rename_products d i old new ps forms' in (p' ∷ ps', forms'')

-- renameDerived
unfoldable pub rename_derived : Disk → ℕ → Text → Text → Entry → Forms → Entry × Forms
unfolding rename_product
rename_derived d i old new e forms =
    let (text, f1) = rename_product d i old new e.text forms in
    let (pages, f2) = rename_products d i old new e.pages f1 in
    let (frames, f3) = rename_products d i old new e.frames f2 in
    let (image, f4) = rename_product d i old new e.image f3 in
    (record e { text = text; pages = pages; frames = frames; image = image }, f4)

abbrev pub with_forms : ℕ → Entry × Forms → Agent → Agent
with_forms i (e, (dir, derived)) a = record a {
  list = set_entry i e a.list;
  derived = derived;
  server = record a.server { work = record a.server.work { analyze_dir = dir } };
}

-- the entry that carries the old name takes the new one, and its products with it
abbrev pub rename_entry : Disk → Text → Text → Option ℕ → Option Entry → Agent → Agent
rename_entry d old new (some i) (some e) a =
    with_forms i
      (rename_derived d i old new (record e { name = new }) (a.server.work.analyze_dir, a.derived))
      (record a { entries = insert new i (remove old a.entries) })
rename_entry d old new _ _ a = a

abbrev pub or_blank : Option Text → Text
or_blank none = []
or_blank (some t) = t

abbrev pub renamed_file : Disk → Args → Agent → Workspace × Option FileError → Agent × Reply
renamed_file d args a (w, some e) = (a, not_renamed e)
renamed_file d args a (w, none) =
    let old = or_blank (sanitize_workspace_name args.name) in
    let new = or_blank (sanitize_workspace_name args.new_name) in
    let b = record a { server = emit_files (record a.server { work = w }) } in
    let c = rename_entry d old new (lookup old b.entries) (entry_named b old) b in
    (c, renamed new c.list)

-- the case "rename_file" of runTool
unfoldable pub tool_rename : Disk → Args → Agent → Agent × Reply
unfolding rename_workspace_file emit_files rename_derived set_entry entry_at
tool_rename d args a =
    renamed_file d args a
      (rename_workspace_file d.same_file d.renames a.server.work args.name args.new_name)

abbrev pub title_reply : Agent × Bool → Agent × Reply
title_reply (a, true) = (a, title_set)
title_reply (a, false) = (a, disk_failed)

abbrev pub title_of : Disk → Agent → Option Text → Agent × Reply
title_of d a none = (a, title_empty)
title_of d a (some title) = title_reply (store_title d title a)

abbrev pub time_reply : Agent × Bool → Agent × Reply
time_reply (a, true) = (a, time_set)
time_reply (a, false) = (a, disk_failed)

abbrev pub time_of : Disk → Agent → Option Text → Agent × Reply
time_of d a none = (a, time_invalid)
time_of d a (some when) =
    time_reply
      (save_state d (record a.server.work.state { time = when }) (λ b. record b { when = when }) a)

-- a reply, and the images that go with it
abbrev pub Answer : Type 0
Answer = Agent × Reply × List (Text × Text)

abbrev pub plain : Agent × Reply → Answer
plain (a, r) = (a, r, [])

abbrev pub with_images : Agent → Reply × List (Text × Text) → Answer
with_images a (r, imgs) = (a, r, imgs)

abbrev pub reads : Tool → Bool
reads read_file = true
reads load_media = true
reads rename_file = true
reads _ = false

-- the user messages that carry the images
abbrev pub image_messages : List (Text × Text) → List Message
image_messages [] = []
image_messages (i ∷ imgs) = images (i ∷ imgs) ∷ []

abbrev pub as_messages : Text → Answer → Agent × Message × List Message
as_messages id (a, r, imgs) = (a, tool_reply id r, image_messages imgs)

module _ (wide : ℕ → Bool) where
  -- the switch of runTool
  unfoldable pub call_tool : Disk → Tool → Args → Agent → Answer
  unfolding tool_read_file tool_load_media tool_rename tool_mark_text tool_mark_image store_title
      parse_analyze_time save emit_state sanitize_push_title
  call_tool d read_file args a = (a, tool_read_file d args a, [])
  call_tool d load_media args a = with_images a (tool_load_media d args.name a)
  call_tool d rename_file args a = plain (tool_rename d args a)
  call_tool d mark_text args a = plain (tool_mark_text d args.text a)
  call_tool d mark_image args a = plain (tool_mark_image d args.name a)
  call_tool d finish args a = (record a { finished = true }, analysis_finished, [])
  call_tool d set_title args a = plain (title_of d a (sanitize_push_title wide args.title))
  call_tool d set_datetime args a = plain (time_of d a (parse_analyze_time args.time))
  call_tool d (other_tool name) args a = (a, unknown_tool, [])

  abbrev pub answer_args : Disk → Tool → Agent → Option Args → Answer
  answer_args d tool a none = (a, invalid_arguments, [])
  answer_args d tool a (some args) =
      let b = report (record no_progress { message = tool_name tool; file = args.name }) a in
      if a.reads_closed && reads tool then (b, reading_closed, []) else call_tool d tool args b

  -- runTool
  unfoldable pub run_tool : Disk → ToolCall → Agent → Agent × Message × List Message
  unfolding call_tool
  run_tool d tc a = as_messages tc.id (answer_args d tc.tool a tc.args)
