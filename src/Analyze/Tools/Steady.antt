-- ===== src/Analyze/Tools/Steady.antt =====
-- What tool calls keep: the lock, the analyzed flag, the bounds of the digest, a stored title
-- (analyze.go: runTool, setTitle).
use filestor.Base.{
  ℕ, ◌+◌, ◌≡◌, ◌≤◌, ◌<◌, ◌⊎◌, refl, sym, subst, All, ◌∙◌, ap, inl, inr, Bool, true, false, ◌&&◌, [],
  ◌∷◌, Option, none, some, length, Bool-cases, Text,
}
use filestor.Names.Title.{sanitize_push_title}
use filestor.Names.Title.Folded.{IsTitle}
use filestor.Names.Title.Accepted.{sanitize_push_title-IsTitle}
use filestor.Workspace.{save}
use filestor.Hub.{Kind, JobProgress, broadcast, emit_progress, set_job, no_progress}
use filestor.Server.{emit_state}
use filestor.Analyze.{
  Args, Tool, ToolCall, read_file, load_media, rename_file, mark_text, mark_image, finish,
  set_title, set_datetime, other_tool, Agent, Disk,
}
use filestor.Analyze.Time.{parse_analyze_time}
use filestor.Convert.{analyze_image_max_bytes}
use filestor.Analyze.Marks.{
  write_digest, torn_digest, max_digest_texts, max_digest_images, max_text_bytes,
}
use filestor.Analyze.Marks.Digest.{
  Marked, Marked-text, Marked-image, Marked-torn, tool_mark_text-cases, tool_mark_image-cases,
}
use filestor.Analyze.Tools.{
  report, store_title, title_reply, title_of, reads, call_tool, answer_args, run_tool, tool_name,
}
use filestor.Analyze.Tools.Kept.{Alike, tool_rename-Alike, time_of-Alike}

-- What a run keeps: who holds the lock, the analyzed flag, the bounds of the digest, and a title that is one
-- and is stored.
pub record Steady (wide : ℕ → Bool) (held : Option Kind) (flag : Bool) (tidy : Type 0) (a : Agent)
    : Type 0 where
  pub held_same : a.server.hub.lock ≡ held
  pub flag_same : a.server.work.state.analyzed ≡ flag
  pub marked : Marked tidy a
  pub titled : (a.title ≡ []) ⊎ (IsTitle wide a.title × (a.server.work.state.title ≡ a.title))

module _ (wide : ℕ → Bool) (held : Option Kind) (flag : Bool) (tidy : Type 0) where
  pub Steady-Alike :
      (a b : Agent) → Alike a b → Steady wide held flag tidy a → Steady wide held flag tidy b
  Steady-Alike a b k st = record {
    held_same = ap (λ c. c.lock) k ∙ st.held_same;
    flag_same = ap (λ c. c.flag) k ∙ st.flag_same;
    marked = record {
      texts = subst (λ n. n ≤ max_digest_texts) (ap (λ c. c.texts) (sym k)) st.marked.texts;
      images =
          subst (λ l. length l ≤ max_digest_images) (ap (λ c. c.images) (sym k)) st.marked.images;
      files =
          subst (λ c. tidy → length c.marks ≤ c.texts + length c.images) (sym k) st.marked.files;
      sizes =
          subst (λ c. tidy → All (λ m. length m.1 ≤ analyze_image_max_bytes) c.marks) (sym k)
            st.marked.sizes;
    };
    titled =
        subst (λ c. (c.title ≡ []) ⊎ (IsTitle wide c.title × (c.draft ≡ c.title))) (sym k)
          st.titled;
  }

  pub report-Steady :
      (p : JobProgress) (a : Agent)
      → Steady wide held flag tidy a
      → Steady wide held flag tidy (report p a)
  unfolding emit_progress set_job broadcast
  report-Steady p a st = Steady-Alike a (report p a) refl st

  pub store_title-Steady :
      (d : Disk) (title given : Text) (a : Agent)
      → sanitize_push_title wide given ≡ some title
      → Steady wide held flag tidy a
      → Steady wide held flag tidy (store_title d title a).0
  unfolding store_title save emit_state broadcast
  store_title-Steady d title given a e st = elim (Bool-cases d.saves) [
    | inl g ↦ rw g (record {
      held_same = st.held_same;
      flag_same = st.flag_same;
      marked = record {
        texts = st.marked.texts;
        images = st.marked.images;
        files = st.marked.files;
        sizes = st.marked.sizes;
      };
      titled = inr (sanitize_push_title-IsTitle wide given e, refl);
    })
    | inr g ↦ rw g st
  ]

  Steady-text :
      (name chunk : Text) (a : Agent)
      → a.digest_texts < max_digest_texts
      → length chunk ≤ max_text_bytes
      → Steady wide held flag tidy a
      → Steady wide held flag tidy
          (write_digest name chunk (record a { digest_texts = a.digest_texts + 1 }))
  Steady-text name chunk a few short st = record {
    held_same = st.held_same;
    flag_same = st.flag_same;
    marked = Marked-text tidy name chunk a few short st.marked;
    titled = st.titled;
  }

  Steady-image :
      (name product bytes : Text) (a : Agent)
      → length a.digest_images < max_digest_images
      → length bytes ≤ analyze_image_max_bytes
      → Steady wide held flag tidy a
      → Steady wide held flag tidy
          (write_digest name bytes (record a { digest_images = product ∷ a.digest_images }))
  Steady-image name product bytes a few short st = record {
    held_same = st.held_same;
    flag_same = st.flag_same;
    marked = Marked-image tidy name product bytes a few short st.marked;
    titled = st.titled;
  }

  Steady-torn :
      (d : Disk) (name bytes : Text) (a : Agent)
      → (tidy → d.cuts ≡ none)
      → Steady wide held flag tidy a
      → Steady wide held flag tidy (torn_digest d.cuts name bytes a)
  Steady-torn d name bytes a clean st = record {
    held_same = st.held_same;
    flag_same = st.flag_same;
    marked = Marked-torn tidy d.cuts name bytes a clean st.marked;
    titled = st.titled;
  }

  title_of-Steady :
      (d : Disk) (given : Text) (a : Agent) (title : Option Text)
      → sanitize_push_title wide given ≡ title
      → Steady wide held flag tidy a
      → Steady wide held flag tidy (title_of d a title).0
  title_of-Steady d given a none e st = st
  title_of-Steady d given a (some title) e st =
      kept (store_title d title a) (store_title-Steady d title given a e st)
    where
      kept :
          (r : Agent × Bool)
          → Steady wide held flag tidy r.0
          → Steady wide held flag tidy (title_reply r).0
      kept (b, true) k = k
      kept (b, false) k = k

  call_tool-Steady :
      (d : Disk) (tool : Tool) (args : Args) (a : Agent)
      → (tidy → d.cuts ≡ none)
      → Steady wide held flag tidy a
      → Steady wide held flag tidy (call_tool wide d tool args a).0
  unfolding call_tool
  call_tool-Steady d read_file args a clean st = st
  call_tool-Steady d load_media args a clean st = st
  call_tool-Steady d rename_file args a clean st = Steady-Alike a _ (tool_rename-Alike d args a) st
  call_tool-Steady d mark_text args a clean st =
      tool_mark_text-cases (Steady wide held flag tidy) d args.text a st
        (λ name chunk few short. Steady-text name chunk a few short st)
        (λ name chunk. Steady-torn d name chunk a clean st)
  call_tool-Steady d mark_image args a clean st =
      tool_mark_image-cases (Steady wide held flag tidy) d args.name a st
        (λ name product bytes few short. Steady-image name product bytes a few short st)
        (λ name bytes. Steady-torn d name bytes a clean st)
  call_tool-Steady d finish args a clean st = Steady-Alike a _ refl st
  call_tool-Steady d set_title args a clean st =
      title_of-Steady d args.title a (sanitize_push_title wide args.title) refl st
  call_tool-Steady d set_datetime args a clean st =
      Steady-Alike a _ (time_of-Alike d a (parse_analyze_time args.time)) st
  call_tool-Steady d (other_tool name) args a clean st = st

  answer_args-Steady :
      (d : Disk) (tool : Tool) (a : Agent) (args : Option Args)
      → (tidy → d.cuts ≡ none)
      → Steady wide held flag tidy a
      → Steady wide held flag tidy (answer_args wide d tool a args).0
  answer_args-Steady d tool a none clean st = st
  answer_args-Steady d tool a (some args) clean st =
      let p = record no_progress { message = tool_name tool; file = args.name } in
      elim (Bool-cases (a.reads_closed && reads tool)) [
        | inl e ↦ rw e (report-Steady p a st)
        | inr e ↦ rw e (call_tool-Steady d tool args (report p a) clean (report-Steady p a st))
      ]

  pub run_tool-Steady :
      (d : Disk) (tc : ToolCall) (a : Agent)
      → (tidy → d.cuts ≡ none)
      → Steady wide held flag tidy a
      → Steady wide held flag tidy (run_tool wide d tc a).0
  unfolding run_tool
  run_tool-Steady d tc a clean st = answer_args-Steady d tc.tool a tc.args clean st

  pub closed-Steady :
      (a : Agent)
      → Steady wide held flag tidy a
      → Steady wide held flag tidy (record a { reads_closed = true })
  closed-Steady a st = Steady-Alike a _ refl st
