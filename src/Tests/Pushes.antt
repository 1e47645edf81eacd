-- ===== src/Tests/Pushes.antt =====
-- A push of two files and a digest mark (push.go), and requests on a batch (upload.go).
use filestor.Base.{
  ℕ, ◌≡◌, refl, Bool, true, false, not, List, [], ◌∷◌, Option, none, some, any, All, Text, arith,
  codes, text_eq, lookup, has_prefix,
}
use filestor.Bundle.{BundleMeta}
use filestor.Clock.{parse_time}
use filestor.Index.{BundleIndex, get}
use filestor.Names.Title.{sanitize_push_title}
use filestor.Workspace.{
  WorkspaceState, Workspace, Node, valid, saved, written, new_workspace_state_store,
}
use filestor.Workspace.Listing.{list_workspace_files, sort_names}
use filestor.Hub.{Kind, JobProgress, no_progress, Hub, new_event_hub}
use filestor.Server.{Cleanup, Server, Form, Part, StateForm, parts, is_nil, state_read, state_write}
use filestor.Server.Requests.{
  Request, add_request, delete_request, state_request, serve_all, serve_all-keeps_batch,
}
use filestor.Server.Push.{PushEnv, embedded, run_push}
use filestor.Server.Push.Handler.{PushRequest, PushJob, new_job, handle_upload_push}
use filestor.Server.Push.Started.{IsStarted, handle_upload_push-StartsWell}
use filestor.Server.Push.Outcome.{run_push_failed-work, run_push_done, run_push-frees}

abbrev file : Text → Node
file t = record { is_regular = true; content = t }

abbrev draft : WorkspaceState
draft = record { time = codes "2024-02-29T09:05"; title = codes "report"; analyzed = true }

abbrev batch : Workspace
batch = record {
  root = (codes "b.txt", file (codes "bb")) ∷ (codes "a.txt", file (codes "a")) ∷ [];
  state_file = some (valid draft);
  analyze_dir = [];
  digest_dir = (codes "m.txt", codes "mark") ∷ [];
  state = draft;
  exists = true;
}

abbrev idle : Server
idle = record {
  hub = record { lock = none; job = none; last_prog = none; subs = []; closed = []; fresh = 0 };
  work = batch;
  index = record { months = []; by_id = []; broken = [] };
  bucket = [];
}

abbrev pub pushing : Server
pushing = record idle {
  hub = record {
    lock = some Kind.push;
    job = none;
    last_prog = none;
    subs = [];
    closed = [];
    fresh = 0;
  };
}

abbrev pub names : List Text
names = codes "a.txt" ∷ codes "b.txt" ∷ []

abbrev pub meta : BundleMeta
meta = record {
  id = codes "00010203-0405-4f07-bf09-0a0b0c0d0e0f";
  title = codes "report";
  time = codes "2024-02-29T09:05";
}

-- a store that takes every key that starts with this prefix
abbrev nothing_stays : Text → Bool
nothing_stays name = false

abbrev pub all_goes : Cleanup
all_goes = record { lists = true; removal = record { state_goes = true; stays = nothing_stays } }

abbrev pub takes : Text → PushEnv
takes prefix = record {
  put_ok = has_prefix prefix;
  opens = λ n. true;
  reads = λ n. (0, 1) ∷ [];
  embedding_configured = true;
  embedding = embedded;
  encode_meta = λ m. m.id;
  encode_index = λ l. [];
  removes = λ n. true;
  cleanup = all_goes;
}

abbrev pub prefix : Text
prefix = codes "content/00/01/x"

pub run_push_test : (run_push (takes []) prefix names meta no_progress pushing).1 ≡ true
unfolding run_push filestor.Server.Push.push_list lookup text_eq has_prefix sort_names
    filestor.Workspace.Listing.insert_sorted filestor.Server.Push.embed filestor.Server.Push.publish
    filestor.Server.Push.record_index filestor.Index.append parse_time filestor.Clock.read_day
    filestor.Clock.read_month filestor.Clock.year_number filestor.Clock.skip
    filestor.Clock.two_number filestor.Clock.one_or_two_number filestor.Base.insert
    filestor.Base.remove filestor.Base.to_lower filestor.Clock.days_in filestor.Clock.format_month
    filestor.Clock.four_digits filestor.Clock.is_leap filestor.Clock.two_digits
    filestor.Hub.broadcast filestor.Hub.deliver filestor.Hub.emit_done filestor.Hub.emit_fail
    filestor.Hub.emit_progress filestor.Hub.kind_eq filestor.Hub.release filestor.Hub.set_job
    filestor.Hub.unlock filestor.Index.index_key filestor.Server.Push.complete
    filestor.Server.Push.deliver_bundle filestor.Server.Push.drop_staged filestor.Server.Push.fail
    filestor.Server.Push.push_one filestor.Server.Push.put filestor.Server.Push.read_all
    filestor.Server.Push.sizes filestor.Server.clear_workspace_state_if_empty
    filestor.Server.emit_files filestor.Server.emit_state list_workspace_files
    filestor.Workspace.Listing.text_lt filestor.Workspace.Listing.visible filestor.Workspace.clear
    filestor.Workspace.left_behind
run_push_test = refl

run_push_keys :
    (run_push (takes (codes "content/")) prefix names meta no_progress pushing).0.puts
    ≡ codes "content/00/01/x/a.txt"
      ∷ codes "content/00/01/x/b.txt"
      ∷ codes "content/00/01/x/.digest/m.txt"
      ∷ codes "content/00/01/x/.meta.json"
      ∷ []
unfolding run_push filestor.Server.Push.push_list lookup text_eq has_prefix sort_names
    filestor.Workspace.Listing.insert_sorted filestor.Server.Push.embed filestor.Server.Push.publish
    filestor.Server.Push.record_index filestor.Index.append parse_time filestor.Clock.read_day
    filestor.Clock.read_month filestor.Clock.year_number filestor.Clock.skip
    filestor.Clock.two_number filestor.Clock.one_or_two_number filestor.Base.insert
    filestor.Base.remove filestor.Base.to_lower filestor.Clock.days_in filestor.Clock.format_month
    filestor.Clock.four_digits filestor.Clock.is_leap filestor.Clock.two_digits
    filestor.Hub.broadcast filestor.Hub.deliver filestor.Hub.emit_done filestor.Hub.emit_fail
    filestor.Hub.emit_progress filestor.Hub.kind_eq filestor.Hub.release filestor.Hub.set_job
    filestor.Hub.unlock filestor.Index.index_key filestor.Server.Push.complete
    filestor.Server.Push.deliver_bundle filestor.Server.Push.drop_staged filestor.Server.Push.fail
    filestor.Server.Push.push_one filestor.Server.Push.put filestor.Server.Push.read_all
    filestor.Server.Push.sizes filestor.Server.clear_workspace_state_if_empty
    filestor.Server.emit_files filestor.Server.emit_state list_workspace_files
    filestor.Workspace.Listing.text_lt filestor.Workspace.Listing.visible filestor.Workspace.clear
    filestor.Workspace.left_behind
run_push_keys = refl

run_push_refused :
    (run_push (takes (codes "content/")) prefix names meta no_progress pushing).1 ≡ false
unfolding run_push filestor.Server.Push.push_list lookup text_eq has_prefix sort_names
    filestor.Workspace.Listing.insert_sorted filestor.Server.Push.embed filestor.Server.Push.publish
    filestor.Server.Push.record_index filestor.Index.append parse_time filestor.Clock.read_day
    filestor.Clock.read_month filestor.Clock.year_number filestor.Clock.skip
    filestor.Clock.two_number filestor.Clock.one_or_two_number filestor.Base.insert
    filestor.Base.remove filestor.Base.to_lower filestor.Clock.days_in filestor.Clock.format_month
    filestor.Clock.four_digits filestor.Clock.is_leap filestor.Clock.two_digits
    filestor.Hub.broadcast filestor.Hub.deliver filestor.Hub.emit_done filestor.Hub.emit_fail
    filestor.Hub.emit_progress filestor.Hub.kind_eq filestor.Hub.release filestor.Hub.set_job
    filestor.Hub.unlock filestor.Index.index_key filestor.Server.Push.complete
    filestor.Server.Push.deliver_bundle filestor.Server.Push.drop_staged filestor.Server.Push.fail
    filestor.Server.Push.push_one filestor.Server.Push.put filestor.Server.Push.read_all
    filestor.Server.Push.sizes filestor.Server.clear_workspace_state_if_empty
    filestor.Server.emit_files filestor.Server.emit_state list_workspace_files
    filestor.Workspace.Listing.text_lt filestor.Workspace.Listing.visible filestor.Workspace.clear
    filestor.Workspace.left_behind
run_push_refused = refl

run_push_failed-work_example :
    (run_push (takes (codes "content/")) prefix names meta no_progress pushing).0.server.work
    ≡ batch
run_push_failed-work_example =
    run_push_failed-work (takes (codes "content/")) prefix names meta no_progress pushing
      run_push_refused

run_push-frees_example :
    (run_push (takes []) prefix names meta no_progress pushing).0.server.hub.lock ≡ none
run_push-frees_example = run_push-frees (takes []) prefix names meta no_progress pushing refl

run_push_done_example :
    let r = run_push (takes []) prefix names meta no_progress pushing in
    (get r.0.server.index meta.id ≡ some meta)
    × ((n : Text)
        → any (text_eq n) names ≡ true
        → true ≡ true
        → lookup n r.0.server.work.root ≡ none)
run_push_done_example = run_push_done (takes []) prefix names meta no_progress pushing run_push_test

abbrev no_wide : ℕ → Bool
no_wide c = false

abbrev request : PushRequest
request = record {
  store = true;
  parses = true;
  time = codes "2024-02-29T9:05";
  title = codes "report";
  random = some (0 ∷ 1 ∷ 2 ∷ 3 ∷ 4 ∷ 5 ∷ 15 ∷ 7 ∷ 63 ∷ 9 ∷ 10 ∷ 11 ∷ 12 ∷ 13 ∷ 14 ∷ 15 ∷ []);
  lists = true;
  chat_configured = true;
}

abbrev started : PushJob
started = record {
  job = new_job names meta;
  prefix = codes "content/00/01/00010203-0405-4f07-bf09-0a0b0c0d0e0f";
  names = names;
  meta = meta;
}

handle_upload_push_test : (handle_upload_push no_wide request idle).2 ≡ some started
unfolding handle_upload_push parse_time filestor.Clock.read_day filestor.Clock.read_month
    filestor.Clock.year_number filestor.Clock.skip filestor.Clock.two_number
    filestor.Clock.one_or_two_number filestor.Clock.days_in sanitize_push_title
    filestor.Bundle.new_uuid_v4 list_workspace_files sort_names filestor.Workspace.Listing.visible
    has_prefix filestor.Workspace.Listing.insert_sorted filestor.Workspace.Listing.text_lt
    filestor.Bundle.hex_digit filestor.Bundle.bundle_prefix filestor.Clock.format_time
    filestor.Base.is_space filestor.Base.to_lower filestor.Base.trim filestor.Base.trim_left
    filestor.Base.trim_right filestor.Base.trim_space filestor.Bundle.hex
    filestor.Clock.format_month filestor.Clock.four_digits filestor.Clock.is_leap
    filestor.Clock.two_digits filestor.Hub.acquire filestor.Hub.broadcast filestor.Hub.deliver
    filestor.Hub.emit_progress filestor.Hub.kind_eq filestor.Hub.release filestor.Hub.set_job
    filestor.Hub.try_lock filestor.Hub.unlock filestor.Names.Title.fold_runes
    filestor.Names.Title.is_kept
handle_upload_push_test = refl

handle_upload_push-StartsWell_example :
    IsStarted no_wide request idle (handle_upload_push no_wide request idle).0 started
handle_upload_push-StartsWell_example =
    handle_upload_push-StartsWell no_wide request idle started handle_upload_push_test

-- a refused delete, a new title, and an upload whose name is refused
abbrev requests : List Request
requests =
    delete_request (written nothing_stays) all_goes true (codes "../x/")
    ∷ state_request true true (record { parses = true; time = []; title = codes "new" })
    ∷ add_request (written nothing_stays) (codes "now") (
        parts (
          record {
            filename = codes ".hidden";
            opens = true;
            outcome = saved true;
            content = [];
            pin_writes = true;
          }
          ∷ []))
    ∷ []

serve_all_test : (serve_all requests idle).work.state.analyzed ≡ true
unfolding serve_all filestor.Server.Requests.serve filestor.Server.handle_upload_add
    filestor.Hub.acquire filestor.Server.handle_upload_state filestor.Hub.busy_for_state
    filestor.Server.handle_upload_delete filestor.Names.File.sanitize_workspace_name
    filestor.Hub.release filestor.Workspace.remove_workspace_file lookup
    filestor.Server.state_of_form list_workspace_files sort_names filestor.Workspace.Listing.visible
    filestor.Workspace.Listing.insert_sorted filestor.Workspace.Listing.text_lt
    filestor.Workspace.save filestor.Base.insert filestor.Base.remove has_prefix
    filestor.Base.is_space text_eq filestor.Base.trim filestor.Base.trim_left
    filestor.Base.trim_right filestor.Base.trim_space filestor.Clock.days_in filestor.Clock.is_leap
    filestor.Clock.one_or_two_number parse_time filestor.Clock.read_day filestor.Clock.read_month
    filestor.Clock.skip filestor.Clock.two_number filestor.Clock.year_number filestor.Hub.broadcast
    filestor.Hub.deliver filestor.Hub.kind_eq filestor.Hub.try_lock filestor.Hub.unlock
    filestor.Names.File.after_last filestor.Names.File.base filestor.Names.File.until
    filestor.Server.add_fail filestor.Server.add_part filestor.Server.add_parts
    filestor.Server.clear_workspace_state_if_empty filestor.Server.emit_files
    filestor.Server.emit_state filestor.Server.staged_changed state_read state_write
    filestor.Workspace.clear filestor.Workspace.left_behind filestor.Workspace.mark_unanalyzed
    filestor.Workspace.pin filestor.Workspace.save_workspace_file
serve_all_test = refl

serve_all-keeps_batch_example :
    (batch.state.analyzed ≡ true) × ((serve_all requests idle).work.root ≡ batch.root)
serve_all-keeps_batch_example =
    serve_all-keeps_batch requests idle (refl, (tt, ((refl, ((λ e. cc), tt)), tt))) (λ _. refl)
      serve_all_test

abbrev form : StateForm
form = record { parses = true; time = []; title = codes "new" }

state_read_test : state_read form idle ≡ some (record draft { title = codes "new" })
unfolding state_read filestor.Server.state_of_form filestor.Base.trim_space filestor.Base.trim_right
state_read_test = refl
