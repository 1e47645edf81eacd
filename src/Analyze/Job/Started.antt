-- ===== src/Analyze/Job/Started.antt =====
-- What holds of an analyze job when it starts (analyze.go: handleUploadAnalyze).
use filestor.Base.{
  ◌≡◌, ◌⊎◌, refl, sym, ap, ◌∙◌, Option-cases, inl, inr, Bool, true, false, not, List, none, some,
  if◌then◌else◌, Bool-cases, Text, arith,
}
use filestor.Workspace.Listing.{list_workspace_files}
use filestor.Hub.{
  Kind, Hub, acquire, release, emit_progress, try_lock, unlock, kind_eq, broadcast, set_job,
}
use filestor.Server.{Server, status_accepted, is_nil}
use filestor.Analyze.Job.{AnalyzeRequest, AnalyzeReply, analyze_staged, handle_upload_analyze}

-- What holds of a job when it starts.
pub record IsStarted (req : AnalyzeRequest) (s s' : Server) (names : List Text) : Type 0 where
  pub configured : req.chat_configured ≡ true
  pub was_free : s.hub.lock ≡ none
  pub holds_lock : s'.hub.lock ≡ some Kind.analyze
  pub work_same : s'.work ≡ s.work
  pub names_all : names ≡ list_workspace_files s.work.root
  pub names_some : is_nil names ≡ false

-- A reply that starts a job starts it well; one that refuses leaves the lock as it was.
abbrev pub StartsWell : AnalyzeRequest → Server → AnalyzeReply → Type 0
StartsWell req s (s', status, some names) = IsStarted req s s' names × (status ≡ status_accepted)
StartsWell req s (s', status, none) = (s'.hub.lock ≡ s.hub.lock) × (s'.work ≡ s.work)

release-lock : (h : Hub) → h.lock ≡ some Kind.analyze → (release Kind.analyze h).lock ≡ none
unfolding release unlock kind_eq broadcast
release-lock h e = rw e refl

analyze_staged-StartsWell :
    (req : AnalyzeRequest) (s held : Server)
    → req.chat_configured ≡ true
    → s.hub.lock ≡ none
    → held.hub.lock ≡ some Kind.analyze
    → held.work ≡ s.work
    → StartsWell req s (analyze_staged req held)
unfolding emit_progress set_job broadcast
analyze_staged-StartsWell req s held conf free lock same =
    let freed = release-lock held.hub lock ∙ sym free in
    elim (Bool-cases req.lists) [
      | inr e ↦ rw e (freed, same)
      | inl e ↦ elim (Bool-cases (is_nil (list_workspace_files held.work.root))) [
        | inl f ↦ rw (e, f) (freed, same)
        | inr f ↦
            rw (e, f)
              (
                record {
                  configured = conf;
                  was_free = free;
                  holds_lock = lock;
                  work_same = same;
                  names_all = ap (λ w. list_workspace_files w.root) same;
                  names_some = f;
                },
                refl,
              )
      ]
    ]

-- An acquire takes a free lock, or changes nothing.
acquire-cases :
    (h : Hub)
    → let r = acquire Kind.analyze h in
      ((r.1 ≡ true) × (h.lock ≡ none) × (r.0.lock ≡ some Kind.analyze))
      ⊎ ((r.1 ≡ false) × (r.0 ≡ h))
unfolding acquire try_lock broadcast
acquire-cases h = elim (Option-cases h.lock) [
  | inl e ↦ rw e (inl (refl, refl, refl))
  | inr (k, e) ↦ rw e (inr (refl, refl))
]

StartsWell-if :
    (req : AnalyzeRequest) (s : Server) (b : Bool) (x y : AnalyzeReply)
    → (b ≡ true → StartsWell req s x)
    → (b ≡ false → StartsWell req s y)
    → StartsWell req s (if b then x else y)
StartsWell-if req s true x y p q = p refl
StartsWell-if req s false x y p q = q refl

-- handleUploadAnalyze starts a job only when a model is configured and nothing held the lock,
-- which is then held for the job, and for all the staged files, of which there is one at least,
-- with the workspace as it was. A request that starts none leaves the lock and the workspace as
-- they were.
pub handle_upload_analyze-StartsWell :
    (req : AnalyzeRequest) (s : Server) → StartsWell req s (handle_upload_analyze req s)
unfolding handle_upload_analyze
handle_upload_analyze-StartsWell req s =
    let held = record s { hub = (acquire Kind.analyze s.hub).0 } in
    StartsWell-if req s (not req.chat_configured) _ _ (λ c. (refl, refl))
      (λ c. elim (acquire-cases s.hub) [
        | inl (ok, free, lock) ↦
            rw ok (analyze_staged-StartsWell req s held (ground arith) free lock refl)
        | inr (busy, same) ↦ rw busy (ap (λ h. h.lock) same, refl)
      ])
