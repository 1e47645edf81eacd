-- ===== src/Tests/Runs.antt =====
-- An analyze run of two files (analyze.go), with a model that follows a script.
use filestor.Base.{
  ℕ, zero, suc, ◌+◌, ◌≡◌, ◌≤◌, refl, Bool, true, false, List, [], ◌∷◌, ◌++◌, All, Option, none,
  some, take, ltb, length, Text, codes, text_eq, lookup, arith, min,
}
use filestor.Convert.{analyze_image_max_bytes}
use filestor.Workspace.{WorkspaceState, Node, valid}
use filestor.Hub.{Kind}
use filestor.Server.{Server}
use filestor.Analyze.{
  Args, Tool, ToolCall, mark_text, finish, set_title, Message, system_prompt, images, Service,
  ChatResponse, request_failed, responded, Disk, page_of,
}
use filestor.Analyze.Time.{parse_analyze_time}
use filestor.Analyze.Paging.{text_lines, paged_text, read_file_max_bytes}
use filestor.Analyze.Paging.Bounds.{IsPage, paged_text-IsPage}
use filestor.Analyze.Prep.{Converters}
use filestor.Analyze.Loop.{run, trim_image_messages}
use filestor.Analyze.Loop.Trim.{keep_newest, count_images, trim_image_messages-newest}
use filestor.Analyze.Loop.Protocol.{KeepsOrder}
use filestor.Analyze.Loop.Requests.{run-requests}
use filestor.Analyze.Job.{AnalyzeRequest, new_agent, run_analyze}
use filestor.Analyze.Job.Outcome.{
  Done, run_analyze-Done, run_analyze_failed-flag, run_analyze-Digest,
}

abbrev no_wide : ℕ → Bool
no_wide c = false

abbrev file : Text → Node
file t = record { is_regular = true; content = t }

abbrev draft : WorkspaceState
draft = record { time = codes "2024-02-29T09:05"; title = []; analyzed = false }

abbrev idle : Server
idle = record {
  hub = record { lock = none; job = none; last_prog = none; subs = []; closed = []; fresh = 0 };
  work = record {
    root = (codes "a", file (codes "x")) ∷ [];
    state_file = some (valid draft);
    analyze_dir = [];
    digest_dir = [];
    state = draft;
    exists = true;
  };
  index = record { months = []; by_id = []; broken = [] };
  bucket = [];
}

abbrev pub analyzing : Server
analyzing = record idle { hub = record idle.hub { lock = some Kind.analyze } }

abbrev works : Disk
works = record {
  saves = true;
  opens = λ n. true;
  writes = true;
  cuts = none;
  same_file = false;
  renames = true;
  moves = λ n. true;
}

abbrev no_args : Args
no_args = record {
  name = [];
  new_name = [];
  title = [];
  time = [];
  text = [];
  offset = 0;
  limit = 0;
}

abbrev call : Tool → Args → ToolCall
call tool args = record { id = codes "1"; tool = tool; args = some args }

-- a title, a mark and the end, in the first answer; a failure after that
abbrev script : List Message → Bool → ChatResponse
script (m ∷ n ∷ []) false = responded false (
    (
      [],
      call set_title (record no_args { title = codes "Q1 sales" })
          ∷ call mark_text (record no_args { text = codes " total 7 " })
          ∷ call finish no_args
          ∷ [],
    )
    ∷ [])
script ms wrapping = request_failed

abbrev scripted : Service
scripted = record { chat = script; disk = λ ms. works }

abbrev silent : Service
silent = record { chat = λ ms wrapping. request_failed; disk = λ ms. works }

abbrev no_converters : Converters
no_converters = record {
  full_text = λ n. none;
  page_images = λ n. none;
  llm_image = λ n. none;
  frame_images = λ n. none;
  is_native_image = λ n. false;
  is_small = λ n. true;
  opens = λ n. true;
  outputs = record {
    writes = λ n. true;
    cuts = λ n. none;
    product_stays = λ n. true;
    mark_stays = λ n. false;
  };
}

abbrev names : List Text
names = codes "a" ∷ []

abbrev ran : Service → Server × Bool
ran service = run_analyze no_wide service no_converters true names analyzing

run_analyze_test : (ran scripted).1 ≡ true
unfolding run_analyze
run_analyze_test = refl

run_analyze_marks : (ran scripted).0.work.digest_dir ≡ (codes "text-01.txt", codes "total 7") ∷ []
unfolding run_analyze filestor.Base.insert filestor.Clock.two_digits
run_analyze_marks = refl

run_analyze_silent : (ran silent).1 ≡ false
unfolding run_analyze
run_analyze_silent = refl

run_analyze-Done_example : Done no_wide (ran scripted).0.work
run_analyze-Done_example =
    run_analyze-Done no_wide scripted no_converters true names analyzing run_analyze_test

run_analyze_failed-flag_example : (ran silent).0.work.state.analyzed ≡ false
run_analyze_failed-flag_example =
    run_analyze_failed-flag no_wide silent no_converters true names analyzing run_analyze_silent

run_analyze-Digest_example :
    let dir = (ran scripted).0.work.digest_dir in
    (length dir ≤ 20) × All (λ m. length m.1 ≤ analyze_image_max_bytes) dir
run_analyze-Digest_example =
    run_analyze-Digest no_wide scripted no_converters true names analyzing (λ ms. refl) (λ n. refl)

abbrev request : AnalyzeRequest
request = record { chat_configured = true; lists = true }

run-requests_example :
    let r = run no_wide scripted 16 28 (new_agent no_converters names analyzing) in
    All KeepsOrder r.0.sent × (length r.0.sent ≤ 16 + 1)
run-requests_example = run-requests no_wide scripted 16 28 (new_agent no_converters names analyzing)

abbrev shown : Message
shown = images ((codes "p", codes "q") ∷ [])

abbrev five : List Message
five = shown ∷ shown ∷ system_prompt ∷ shown ∷ shown ∷ shown ∷ []

trim_image_messages-newest_example :
    (trim_image_messages five ≡ keep_newest five)
    × (count_images (trim_image_messages five) ≡ min 4 (count_images five))
trim_image_messages-newest_example = trim_image_messages-newest five

abbrev poem : Text
poem = b'a' ∷ b'\n' ∷ b'b' ∷ b'\n' ∷ b'c' ∷ []

paged_text_test : paged_text (some poem) 2 1 ≡ page_of 2 2 3 false false (codes "b")
unfolding paged_text filestor.Base.split filestor.Base.join
paged_text_test = refl

poem_lines : 2 ≤ length (text_lines (take read_file_max_bytes poem))
unfolding text_lines filestor.Base.split
poem_lines = omega arith

paged_text-IsPage_example :
    IsPage
      (text_lines (take read_file_max_bytes poem))
      (ltb read_file_max_bytes (length poem))
      2
      1
      (paged_text (some poem) 2 1)
paged_text-IsPage_example = paged_text-IsPage poem 2 1 poem_lines

a_day : parse_analyze_time (codes " 2024-02-29") ≡ some (codes "2024-02-29T00:00")
unfolding parse_analyze_time filestor.Base.trim_right filestor.Clock.parse_time
    filestor.Clock.read_day filestor.Clock.read_month filestor.Clock.year_number filestor.Clock.skip
    filestor.Clock.two_number filestor.Clock.days_in filestor.Clock.format_time
    filestor.Clock.format_month filestor.Clock.four_digits filestor.Clock.two_digits
a_day = refl
