-- ===== src/Analyze.antt =====
-- The analyze run (analyze.go): an agent that a language model steers by tool calls.
--
-- The model's answers and the outcomes of disk operations are `Service` and `Disk`. A staged file and
-- its derived forms are one shared analyzeEntry, here a position in the agent's list. A message's
-- text is a value of `Message` or `Reply`, with a constructor for each text that the code writes;
-- prompts, sizes, peeks and the rendering of the roster are not modelled further.
pub mod Budget
pub mod Time
pub mod Paging
pub mod Prep
pub mod Listing
pub mod Chat
pub mod Marks
pub mod Tools
pub mod Loop
pub mod Job
use filestor.Base.{
  ℕ, zero, suc, ◌+◌, ◌≡◌, Bool, true, false, ◌&&◌, ◌||◌, not, List, [], ◌∷◌, ◌++◌, Option, none,
  some, ltb, ◌==◌, if◌then◌else◌, length, Text, codes,
}
use filestor.Workspace.{FileError}
use filestor.Server.{Server}

-- analyzeKind
pub data AnalyzeKind : Type 0 where
  kind_text kind_document kind_image kind_video kind_other : AnalyzeKind

-- analyzeEntry, without Size and Peek
pub record Entry : Type 0 where
  pub name : Text
  pub kind : AnalyzeKind
  pub lines : ℕ
  pub truncated : Bool
  pub text : Text
  pub text_lines : ℕ
  pub pages : List Text
  pub frames : List Text
  pub image : Text
  pub failed : Bool

-- The arguments that unmarshalToolArgs decodes. A number below zero counts as zero, which the code
-- treats alike.
pub record Args : Type 0 where
  pub name : Text
  pub new_name : Text
  pub title : Text
  pub time : Text
  pub text : Text
  pub offset : ℕ
  pub limit : ℕ

-- the function names of tool calls
pub data Tool : Type 0 where
  read_file load_media rename_file mark_text mark_image finish set_title set_datetime : Tool
  other_tool : Text → Tool

-- chatToolCall; no arguments when they do not decode
pub record ToolCall : Type 0 where
  pub id : Text
  pub tool : Tool
  pub args : Option Args

-- What read_file answers.
pub data Page : Type 0 where
  unreadable empty_file past_the_end : Page
  -- from which line to which, of how many, capped or not, truncated or not, and the body
  page_of : ℕ → ℕ → ℕ → Bool → Bool → Text → Page

-- the texts of tool replies
pub data Reply : Type 0 where
  invalid_arguments reading_closed bad_name no_such_file : Reply
  is_a_text is_an_image has_text_form no_text_form no_image_form no_pages no_frames : Reply
  stands_for_several could_not_load unknown_tool : Reply
  page : Page → Reply
  loaded : List Text → Reply
  empty_chunk texts_full images_full already_marked disk_failed : Reply
  marked_text : ℕ → Reply
  marked_image : Text → ℕ → Reply
  not_renamed : FileError → Reply
  renamed : Text → List Entry → Reply
  title_empty title_set time_invalid time_set analysis_finished : Reply

-- chatMessage. The contents of images are the files' bytes.
pub data Message : Type 0 where
  system_prompt wrap_up image_omitted : Message
  listing : List Entry → Message
  nudge : Bool → Message
  images : List (Text × Text) → Message
  assistant : Text → List ToolCall → Message
  tool_reply : Text → Reply → Message

-- chatResponse: a request that fails, or whether it has an error, and the choices
pub data ChatResponse : Type 0 where
  request_failed : ChatResponse
  responded : Bool → List (Text × List ToolCall) → ChatResponse

-- Whether the disk operations of a tool call succeed; of a mark whose write fails, `cuts` bytes are
-- left, if the file was made.
pub record Disk : Type 0 where
  pub saves : Bool
  pub opens : Text → Bool
  pub writes : Bool
  pub cuts : Option ℕ
  pub same_file : Bool
  pub renames : Bool
  pub moves : Text → Bool

-- What surrounds a run: the model's answer to the messages so far, with the tools of the main loop or
-- of the wrap-up, and the disk at that point.
pub record Service : Type 0 where
  pub chat : List Message → Bool → ChatResponse
  pub disk : List Message → Disk

-- analyzeAgent: the maps from names hold positions in `list`; `server` has the state store, and the
-- hub behind onProgress, onState and onFiles.
pub record Agent : Type 0 where
  pub list : List Entry
  pub entries : List (Text × ℕ)
  pub derived : List (Text × ℕ)
  pub title : Text
  pub when : Text
  pub reads_closed : Bool
  pub finished : Bool
  pub digest_texts : ℕ
  pub digest_images : List Text
  pub server : Server

unfoldable pub entry_at : ℕ → List Entry → Option Entry
entry_at i [] = none
entry_at zero (e ∷ es) = some e
entry_at (suc i) (e ∷ es) = entry_at i es

unfoldable pub set_entry : ℕ → Entry → List Entry → List Entry
set_entry i e [] = []
set_entry zero e (f ∷ es) = e ∷ es
set_entry (suc i) e (f ∷ es) = f ∷ set_entry i e es
