-- ===== src/Analyze/Job/Outcome.antt =====
-- What an analyze job leaves behind (analyze.go: the goroutine of handleUploadAnalyze).
use filestor.Base.{
  ℕ, ◌+◌, ◌≡◌, ◌≤◌, refl, sym, subst, inl, inr, Bool, true, false, List, [], ◌∷◌, All, Option, none,
  some, length, Bool-cases, Text, arith,
}
use filestor.Names.Title.Folded.{IsTitle}
use filestor.Workspace.{Workspace, valid, save, left_behind, reset_analyze_dir, reset_digest_dir}
use filestor.Hub.{
  Hub, Kind, JobProgress, broadcast, set_job, emit_progress, emit_done, emit_fail, release, unlock,
  kind_eq,
}
use filestor.Server.{Server, emit_state}
use filestor.Analyze.{Agent, Entry, Service, Message}
use filestor.Analyze.Budget.{analyze_budget}
use filestor.Analyze.Prep.{Converters, prep_analyze, index_from, index_entries}
use filestor.Convert.{analyze_image_max_bytes}
use filestor.Analyze.Marks.{is_nothing, max_digest_texts, max_digest_images}
use filestor.Analyze.Tools.Kept.{core}
use filestor.Analyze.Tools.Steady.{
  Steady, Steady-Alike, report-Steady, store_title-Steady, run_tool-Steady, closed-Steady,
}
use filestor.Analyze.Loop.{Talk, run}
use filestor.Analyze.Loop.Invariant.{run-keeps}
use filestor.Analyze.Loop.Titled.{HasTitle, run-HasTitle}
use filestor.Analyze.Job.{converting, new_agent, finish_job, release_analyze, run_analyze}

index_from-core : (i : ℕ) (es : List Entry) (a : Agent) → core (index_from i es a) ≡ core a
index_from-core i [] a = refl
index_from-core i (e ∷ es) a = index_from-core (i + 1) es _

converting-lock :
    (total i : ℕ) (names : List Text) (s : Server)
    → (converting total i names s).hub.lock ≡ s.hub.lock
unfolding emit_progress set_job broadcast
converting-lock total i [] s = refl
converting-lock total i (n ∷ names) s = converting-lock total (i + 1) names _

left_behind_none :
    (stays : Text → Bool) (dir : List (Text × Text))
    → ((n : Text) → stays n ≡ false)
    → left_behind stays dir ≡ []
unfolding left_behind
left_behind_none stays [] none_stays = refl
left_behind_none stays ((n, bytes) ∷ dir) none_stays =
    rw (none_stays n) (left_behind_none stays dir none_stays)

new_agent-Steady :
    (wide : ℕ → Bool) (tidy : Type 0) (c : Converters) (names : List Text) (s : Server)
    → (tidy → (n : Text) → c.outputs.mark_stays n ≡ false)
    → Steady wide s.hub.lock s.work.state.analyzed tidy (new_agent c names s)
unfolding new_agent index_entries prep_analyze reset_analyze_dir reset_digest_dir
new_agent-Steady wide tidy c names s clean =
    let made = prep_analyze c names s.work in
    let empty : Agent = record {
      list = made.0;
      entries = [];
      derived = [];
      title = [];
      when = [];
      reads_closed = false;
      finished = false;
      digest_texts = 0;
      digest_images = [];
      server = record (converting (length names) 0 names s) { work = made.1 };
    } in
    Steady-Alike wide s.hub.lock s.work.state.analyzed tidy empty (index_from 0 made.0 empty)
      (index_from-core 0 made.0 empty)
      (record {
        held_same = converting-lock (length names) 0 names s;
        flag_same = refl;
        marked = record {
          texts = omega arith;
          images = omega arith;
          files = λ h.
              rw (left_behind_none c.outputs.mark_stays s.work.digest_dir (clean h)) (omega arith);
          sizes = λ h. rw (left_behind_none c.outputs.mark_stays s.work.digest_dir (clean h)) tt;
        };
        titled = inl refl;
      })

-- The end of a job whose agent was steady: it succeeded, or not.
pub record Done (wide : ℕ → Bool) (w : Workspace) : Type 0 where
  pub is_analyzed : w.state.analyzed ≡ true
  pub title_ok : IsTitle wide w.state.title
  pub stored : w.state_file ≡ some (valid w.state)

-- the digest that a push finds, on a tidy disk
record Digest (tidy : Type 0) (w : Workspace) : Type 0 where
  files : tidy → length w.digest_dir ≤ max_digest_texts + max_digest_images
  sizes : tidy → All (λ m. length m.1 ≤ analyze_image_max_bytes) w.digest_dir

abbrev Ended : (ℕ → Bool) → Option Kind → Bool → Type 0 → Server × Bool → Type 0
Ended wide held flag tidy (s, true) = (s.hub.lock ≡ held) × Done wide s.work × Digest tidy s.work
Ended wide held flag tidy (s, false) =
    (s.hub.lock ≡ held) × (s.work.state.analyzed ≡ flag) × Digest tidy s.work

emit_fail-lock : (now : ℕ) (p : JobProgress) (h : Hub) → (emit_fail now p h).lock ≡ h.lock
unfolding emit_fail set_job broadcast
emit_fail-lock now p h = refl

module _ (wide : ℕ → Bool) (held : Option Kind) (flag : Bool) (tidy : Type 0) where
  Steady-Digest : (a : Agent) → Steady wide held flag tidy a → Digest tidy a.server.work
  Steady-Digest a st = record {
    files = λ h. omega (arith, st.marked.files h, st.marked.texts, st.marked.images);
    sizes = st.marked.sizes;
  }

  Steady-title :
      (a : Agent)
      → Steady wide held flag tidy a
      → is_nothing a.title ≡ false
      → IsTitle wide a.server.work.state.title
  Steady-title a st h = elim st.titled [
    | inl e ↦ cc (rw e at h)
    | inr (ok, same) ↦ subst (IsTitle wide) (sym same) ok
  ]

  finish_job-Ended :
      (saves : Bool) (p : Talk × Option Text)
      → HasTitle p
      → Steady wide held flag tidy p.0.agent
      → Ended wide held flag tidy (finish_job saves p)
  unfolding save emit_state emit_done emit_fail set_job broadcast
  finish_job-Ended saves (t, none) h st = (st.held_same, st.flag_same, Steady-Digest t.agent st)
  finish_job-Ended saves (t, some title) (same, h) st = elim (Bool-cases saves) [
    | inl e ↦ rw e (
      st.held_same,
      record { is_analyzed = refl; title_ok = Steady-title t.agent st (rw same h); stored = refl },
      record { files = (Steady-Digest t.agent st).files; sizes = (Steady-Digest t.agent st).sizes },
    )
    | inr e ↦ rw e (
      st.held_same,
      st.flag_same,
      record { files = (Steady-Digest t.agent st).files; sizes = (Steady-Digest t.agent st).sizes },
    )
  ]

-- The workspace after a job: whether it succeeded, and what it was before.
abbrev Left : (ℕ → Bool) → Bool → Type 0 → Server × Bool → Type 0
Left wide flag tidy (s, true) = Done wide s.work × Digest tidy s.work
Left wide flag tidy (s, false) = (s.work.state.analyzed ≡ flag) × Digest tidy s.work

release_analyze-Left :
    (wide : ℕ → Bool) (held : Option Kind) (flag : Bool) (tidy : Type 0) (p : Server × Bool)
    → Ended wide held flag tidy p
    → Left wide flag tidy (release_analyze p)
release_analyze-Left wide held flag tidy (s, true) e = (e.1, e.2)
release_analyze-Left wide held flag tidy (s, false) e = (e.1, e.2)

release_analyze-frees :
    (wide : ℕ → Bool) (flag : Bool) (tidy : Type 0) (p : Server × Bool)
    → Ended wide (some Kind.analyze) flag tidy p
    → (release_analyze p).0.hub.lock ≡ none
unfolding release unlock kind_eq broadcast
release_analyze-frees wide flag tidy (s, true) e = rw e.0 refl
release_analyze-frees wide flag tidy (s, false) e = rw e.0 refl

module _ (wide : ℕ → Bool) (service : Service) (c : Converters) (saves : Bool) (names : List Text)
    (s : Server) where
  -- the job before it releases the lock
  abbrev job : Server × Bool
  job =
      let (rounds, calls) = analyze_budget (length names) in
      finish_job saves (run wide service rounds calls (new_agent c names s))

  -- The reset of the digest deletes every mark, and a write of a mark that fails leaves nothing.
  abbrev Tidy : Type 0
  Tidy =
      ((ms : List Message) → (service.disk ms).cuts ≡ none)
      × ((n : Text) → c.outputs.mark_stays n ≡ false)

  job-Ended : Ended wide s.hub.lock s.work.state.analyzed Tidy job
  job-Ended =
      let budget = analyze_budget (length names) in
      let held = s.hub.lock in
      let flag = s.work.state.analyzed in
      finish_job-Ended wide held flag Tidy saves
        (run wide service budget.0 budget.1 (new_agent c names s))
        (run-HasTitle wide service budget.0 budget.1 (new_agent c names s))
        (run-keeps wide service (Steady wide held flag Tidy) (report-Steady wide held flag Tidy)
          (closed-Steady wide held flag Tidy)
          (λ ms tc a st.
            run_tool-Steady wide held flag Tidy (service.disk ms) tc a (λ h. h.0 ms) st)
          (store_title-Steady wide held flag Tidy) budget.0 budget.1 (new_agent c names s)
          (new_agent-Steady wide Tidy c names s (λ h. h.1)))

  run_analyze-Left : Left wide s.work.state.analyzed Tidy (run_analyze wide service c saves names s)
  unfolding run_analyze
  run_analyze-Left = release_analyze-Left wide s.hub.lock s.work.state.analyzed Tidy job job-Ended

  -- Whatever becomes of an analyze job that holds the lock, the lock is free after it.
  pub run_analyze-frees :
      s.hub.lock ≡ some Kind.analyze → (run_analyze wide service c saves names s).0.hub.lock ≡ none
  unfolding run_analyze
  run_analyze-frees h =
      release_analyze-frees wide s.work.state.analyzed Tidy job
        (subst (λ k. Ended wide k s.work.state.analyzed Tidy job) h job-Ended)

  -- An analyze job that succeeds leaves the batch marked as analyzed, with a draft whose title is
  -- a title, and with state.json holding that draft.
  pub run_analyze-Done :
      (run_analyze wide service c saves names s).1 ≡ true
      → Done wide (run_analyze wide service c saves names s).0.work
  run_analyze-Done h = of_left (run_analyze wide service c saves names s) run_analyze-Left h
    where
      of_left :
          (r : Server × Bool)
          → Left wide s.work.state.analyzed Tidy r
          → r.1 ≡ true
          → Done wide r.0.work
      of_left (t, true) l e = l.0
      of_left (t, false) l e = cc

  -- An analyze job that fails leaves the analyzed flag as it was, set or not.
  pub run_analyze_failed-flag :
      (run_analyze wide service c saves names s).1 ≡ false
      → (run_analyze wide service c saves names s).0.work.state.analyzed ≡ s.work.state.analyzed
  run_analyze_failed-flag h = of_left (run_analyze wide service c saves names s) run_analyze-Left h
    where
      of_left :
          (r : Server × Bool)
          → Left wide s.work.state.analyzed Tidy r
          → r.1 ≡ false
          → r.0.work.state.analyzed ≡ s.work.state.analyzed
      of_left (t, true) l e = cc
      of_left (t, false) l e = l.0

  -- If resetDigestDir deletes every mark there is, and a write of a mark that fails leaves
  -- nothing: whatever the model answers and whatever becomes of an analyze job, it leaves at most
  -- 20 digest marks, none above 8 MiB.
  pub run_analyze-Digest :
      ((ms : List Message) → (service.disk ms).cuts ≡ none)
      → ((n : Text) → c.outputs.mark_stays n ≡ false)
      → let dir = (run_analyze wide service c saves names s).0.work.digest_dir in
        (length dir ≤ max_digest_texts + max_digest_images)
        × All (λ m. length m.1 ≤ analyze_image_max_bytes) dir
  run_analyze-Digest whole gone =
      of_left (run_analyze wide service c saves names s) run_analyze-Left
    where
      of_left :
          (r : Server × Bool)
          → Left wide s.work.state.analyzed Tidy r
          → (length r.0.work.digest_dir ≤ max_digest_texts + max_digest_images)
            × All (λ m. length m.1 ≤ analyze_image_max_bytes) r.0.work.digest_dir
      of_left (t, true) l = (l.1.files (whole, gone), l.1.sizes (whole, gone))
      of_left (t, false) l = (l.1.files (whole, gone), l.1.sizes (whole, gone))
