-- ===== src/Server/Push/Outcome.antt =====
-- What a push's job leaves behind (push.go: runPush): the staged batch, the lock and the index.
use filestor.Base.{
  ℕ, any, ◌≡◌, refl, sym, ap, subst, ◌∙◌, inl, inr, Bool, true, false, List, [], ◌∷◌, none, some,
  if◌then◌else◌, Bool-cases, Text, text_eq, text_eq_iff, text_eq_self, keys, lookup, remove,
  lookup-remove, lookup-insert_self, to_lower, arith,
}
use filestor.Bundle.{BundleMeta}
use filestor.Index.{append, get}
use filestor.Workspace.{Workspace, clear}
use filestor.Workspace.Listing.{sort_names}
use filestor.Hub.{Hub, Kind, JobProgress, broadcast, emit_done, set_job, release, unlock, kind_eq}
use filestor.Server.{Server, emit_files, emit_state, clear_workspace_state_if_empty, Cleanup}
use filestor.Server.Push.{
  PushEnv, Run, emit_job, push_list, embed, publish, recorded, record_index, and_then,
  deliver_bundle, staged_batch, digest_batch, drop_staged, complete, release_push, starting,
  finished, run_push,
}
use filestor.Server.Push.Phases.{Sends, after_Quiet, emit_job-Quiet}
use filestor.Server.Push.Order.{deliver_bundle-Sends, planned}

emit_done-lock : (now : ℕ) (p : JobProgress) (h : Hub) → (emit_done now p h).lock ≡ h.lock
unfolding emit_done set_job broadcast
emit_done-lock now p h = ground arith

complete-lock :
    (env : PushEnv) (names : List Text) (r : Run)
    → (complete env names r).server.hub.lock ≡ r.server.hub.lock
unfolding complete emit_files emit_state broadcast
complete-lock env names r = emit_done-lock 0 _ _

release_push-frees :
    (r : Run) → r.server.hub.lock ≡ some Kind.push → (release_push r).server.hub.lock ≡ none
unfolding release unlock kind_eq broadcast
release_push-frees r h = simp h

module _ (env : PushEnv) (prefix : Text) (names : List Text) (meta : BundleMeta) (job : JobProgress)
    (s : Server) where
  delivered : Run × Bool
  delivered =
      let marks = sort_names (keys s.work.digest_dir) in
      deliver_bundle env prefix names marks meta (emit_job (starting prefix names marks job s))

  delivered-Sends :
      Sends
        (planned prefix s.work names (sort_names (keys s.work.digest_dir)) meta)
        (starting prefix names (sort_names (keys s.work.digest_dir)) job s)
        delivered
  unfolding delivered
  delivered-Sends =
      let marks = sort_names (keys s.work.digest_dir) in
      let start = starting prefix names marks job s in
      after_Quiet (emit_job-Quiet start)
        (deliver_bundle-Sends env prefix names marks meta (emit_job start))

  -- A push's job that fails leaves the workspace as it was: every staged file, every digest mark,
  -- the draft and its file.
  pub run_push_failed-work :
      let r = run_push env prefix names meta job s in r.1 ≡ false → r.0.server.work ≡ s.work
  unfolding run_push delivered
  run_push_failed-work = kept delivered delivered-Sends.work_same
    where
      kept :
          (p : Run × Bool)
          → p.0.server.work ≡ s.work
          → (finished env names p).1 ≡ false
          → (finished env names p).0.server.work ≡ s.work
      kept (r, true) e h = cc
      kept (r, false) e h = e

  -- Whatever becomes of a push's job that holds the lock, the lock is free after it.
  pub run_push-frees :
      s.hub.lock ≡ some Kind.push → (run_push env prefix names meta job s).0.server.hub.lock ≡ none
  unfolding run_push delivered
  run_push-frees h = freed delivered (delivered-Sends.lock_same ∙ h)
    where
      freed :
          (p : Run × Bool)
          → p.0.server.hub.lock ≡ some Kind.push
          → (finished env names p).0.server.hub.lock ≡ none
      freed (r, true) e = release_push-frees (complete env names r) (complete-lock env names r ∙ e)
      freed (r, false) e = release_push-frees r e

and_then-ok :
    (f g : Run → Run × Bool) (r : Run) → (and_then f g r).1 ≡ true → and_then f g r ≡ g (f r).0
and_then-ok f g r h = elim (Bool-cases (f r).1) [ inl e ↦ rw e refl | inr e ↦ stopped (f r) e h ]
  where
    stopped :
        (p : Run × Bool)
        → p.1 ≡ false
        → (if p.1 then g p.0 else (p.0, false)).1 ≡ true
        → (if p.1 then g p.0 else (p.0, false)) ≡ g p.0
    stopped (q, true) e h = refl
    stopped (q, false) e h = cc

recorded-get :
    (encode : List BundleMeta → Text) (put_ok : Text → Bool) (meta : BundleMeta) (r : Run)
    → let a = append encode put_ok r.server.index r.server.bucket meta in
      (recorded meta r a).1 ≡ true → get (recorded meta r a).0.server.index meta.id ≡ some meta
unfolding append get
recorded-get encode put_ok meta r h =
    ground (arith, lookup-insert_self (to_lower meta.id) meta r.server.index.by_id)

drop_staged-stays :
    (env : PushEnv) (names : List Text) (w : Workspace) (n : Text)
    → lookup n w.root ≡ none
    → lookup n (drop_staged env names w).root ≡ none
unfolding drop_staged
drop_staged-stays env [] w n h = h
drop_staged-stays env (m ∷ ms) w n h = drop_staged-stays env ms _ n (dropped (env.removes m))
  where
    dropped :
        (b : Bool) → lookup n (if b then record w { root = remove m w.root } else w).root ≡ none
    dropped true = rw lookup-remove (ground (arith, h))
    dropped false = h

drop_staged-gone :
    (env : PushEnv) (names : List Text) (w : Workspace) (n : Text)
    → any (text_eq n) names ≡ true
    → env.removes n ≡ true
    → lookup n (drop_staged env names w).root ≡ none
unfolding drop_staged
drop_staged-gone env [] w n h k = cc
drop_staged-gone env (m ∷ ms) w n h k = elim (Bool-cases (text_eq n m)) [
  | inl e ↦ drop_staged-stays env ms _ n (
      subst
        (λ j.
          lookup n (if env.removes j then record w { root = remove j w.root } else w).root ≡ none)
        ((text_eq_iff n m).0 e) (rw (k, lookup-remove, text_eq_self n) refl))
  | inr e ↦ drop_staged-gone env ms _ n (ground arith) k
]

-- The state of a job from which it goes on to the index.
deliver_bundle-get :
    (env : PushEnv) (prefix : Text) (names digest : List Text) (meta : BundleMeta) (r : Run)
    → let p = deliver_bundle env prefix names digest meta r in
      p.1 ≡ true → get p.0.server.index meta.id ≡ some meta
unfolding deliver_bundle record_index
deliver_bundle-get env prefix names digest meta r h =
    let w = r.server.work in
    let record_it = record_index env meta in
    let publish_it = publish env prefix meta in
    let embed_it = embed env digest in
    let push_marks = push_list env (digest_batch prefix w) digest in
    let push_files = push_list env (staged_batch prefix w) names in
    let from_meta = and_then publish_it record_it in
    let from_embed = and_then embed_it from_meta in
    let from_marks = and_then push_marks from_embed in
    let r1 = (push_files r).0 in
    let r2 = (push_marks r1).0 in
    let r3 = (embed_it r2).0 in
    let r4 = (publish_it r3).0 in
    let e1 = and_then-ok push_files from_marks r h in
    let h1 = sym (ap (λ p. p.1) e1) ∙ h in
    let e2 = and_then-ok push_marks from_embed r1 h1 in
    let h2 = sym (ap (λ p. p.1) e2) ∙ h1 in
    let e3 = and_then-ok embed_it from_meta r2 h2 in
    let h3 = sym (ap (λ p. p.1) e3) ∙ h2 in
    let e4 = and_then-ok publish_it record_it r3 h3 in
    let h4 = sym (ap (λ p. p.1) e4) ∙ h3 in
    ap (λ p. get p.0.server.index meta.id) (e1 ∙ e2 ∙ e3 ∙ e4)
    ∙ recorded-get env.encode_index env.put_ok meta r4 h4

clear_if_empty-root :
    (cleanup : Cleanup) (w : Workspace) → (clear_workspace_state_if_empty cleanup w).root ≡ w.root
unfolding clear_workspace_state_if_empty clear
clear_if_empty-root cleanup w = ground arith

complete-root :
    (env : PushEnv) (names : List Text) (r : Run)
    → (complete env names r).server.work.root ≡ (drop_staged env names r.server.work).root
unfolding complete emit_files emit_state
complete-root env names r = clear_if_empty-root env.cleanup (drop_staged env names r.server.work)

-- A push's job that succeeds has its bundle in the index in memory, under the bundle's id, and has
-- taken every file it pushed out of the workspace, but those that os.Remove could not delete.
pub run_push_done :
    (env : PushEnv) (prefix : Text) (names : List Text) (meta : BundleMeta) (job : JobProgress)
    (s : Server)
    → let r = run_push env prefix names meta job s in
      r.1 ≡ true
      → (get r.0.server.index meta.id ≡ some meta)
        × ((n : Text)
            → any (text_eq n) names ≡ true
            → env.removes n ≡ true
            → lookup n r.0.server.work.root ≡ none)
unfolding run_push complete emit_files emit_state
run_push_done env prefix names meta job s =
    let marks = sort_names (keys s.work.digest_dir) in
    let start = emit_job (starting prefix names marks job s) in
    done (deliver_bundle env prefix names marks meta start)
      (deliver_bundle-get env prefix names marks meta start)
  where
    done :
        (p : Run × Bool)
        → (p.1 ≡ true → get p.0.server.index meta.id ≡ some meta)
        → (finished env names p).1 ≡ true
        → (get (finished env names p).0.server.index meta.id ≡ some meta)
          × ((n : Text)
              → any (text_eq n) names ≡ true
              → env.removes n ≡ true
              → lookup n (finished env names p).0.server.work.root ≡ none)
    done (r, true) f h = (
      f refl,
      λ n a b.
          ap (lookup n) (complete-root env names r)
          ∙ drop_staged-gone env names r.server.work n a b,
    )
    done (r, false) f h = cc
