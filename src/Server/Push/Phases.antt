-- ===== src/Server/Push/Phases.antt =====
-- What the phases of a push's job do: their Puts, the workspace and the lock (push.go: runPush, pushOne).
use filestor.Base.{
  ℕ, ◌+◌, ◌≡◌, refl, sym, ap, ◌∙◌, inl, inr, Bool, true, false, List, [], ◌∷◌, ◌++◌, map, Option,
  none, some, Bool-cases, Text, append-nil, append_assoc, arith,
}
use filestor.Hub.{Hub, JobProgress, emit_progress, emit_fail, broadcast, set_job}
use filestor.Server.{emit_files}
use filestor.Server.Push.{
  PushEnv, Run, Batch, emit_job, read_all, put, push_one, fail, push_list, and_then,
}

-- What a phase of the job does: it leaves the workspace and the lock alone, and its Puts are the
-- first of those planned; all of them, if it succeeds.
pub record Sends (planned : List Text) (r : Run) (r' : Run × Bool) : Type 0 where
  pub work_same : r'.0.server.work ≡ r.server.work
  pub lock_same : r'.0.server.hub.lock ≡ r.server.hub.lock
  pub unsent : List Text
  pub split : r'.0.puts ++ unsent ≡ r.puts ++ planned
  pub all_sent : r'.1 ≡ true → unsent ≡ []

emit_progress-lock :
    (now : ℕ) (p : JobProgress) (b : Bool) (h : Hub) → (emit_progress now p b h).lock ≡ h.lock
unfolding emit_progress set_job broadcast
emit_progress-lock now p b h = ground arith

pub emit_fail-lock : (now : ℕ) (p : JobProgress) (h : Hub) → (emit_fail now p h).lock ≡ h.lock
unfolding emit_fail set_job broadcast
emit_fail-lock now p h = ground arith

-- The events between the Puts.
pub record Quiet (r r' : Run) : Type 0 where
  pub work_same : r'.server.work ≡ r.server.work
  pub lock_same : r'.server.hub.lock ≡ r.server.hub.lock
  pub puts_same : r'.puts ≡ r.puts

pub Quiet-trans : {a b c : Run} → Quiet a b → Quiet b c → Quiet a c
Quiet-trans p q = record {
  work_same = q.work_same ∙ p.work_same;
  lock_same = q.lock_same ∙ p.lock_same;
  puts_same = q.puts_same ∙ p.puts_same;
}

pub emit_job-Quiet : (r : Run) → Quiet r (emit_job r)
emit_job-Quiet r = record {
  work_same = refl;
  lock_same = emit_progress-lock 0 r.job false r.server.hub;
  puts_same = refl;
}

read_all-Quiet : (rs : List (ℕ × ℕ)) (r : Run) → Quiet r (read_all rs r)
unfolding read_all
read_all-Quiet [] r = record { work_same = refl; lock_same = refl; puts_same = refl }
read_all-Quiet ((now, n) ∷ rs) r =
    let job = record r.job { done_bytes = r.job.done_bytes + n } in
    let next = record r {
      server = record r.server { hub = emit_progress now job true r.server.hub };
      job = job;
    } in
    Quiet-trans
      (record {
        work_same = refl;
        lock_same = emit_progress-lock now job true r.server.hub;
        puts_same = refl;
      })
      (read_all-Quiet rs next)

pub fail-Quiet : (what : Text) (r : Run) → Quiet r (fail what r)
unfolding fail emit_files broadcast
fail-Quiet what r = record {
  work_same = refl;
  lock_same = emit_fail-lock 0 (record r.job { error = what }) r.server.hub;
  puts_same = refl;
}

module _ {ks : List Text} where
  pub after_Quiet : {a b : Run} {r : Run × Bool} → Quiet a b → Sends ks b r → Sends ks a r
  after_Quiet q s = record {
    work_same = s.work_same ∙ q.work_same;
    lock_same = s.lock_same ∙ q.lock_same;
    unsent = s.unsent;
    split = s.split ∙ ap (λ p. p ++ ks) q.puts_same;
    all_sent = s.all_sent;
  }

  -- a failure reported after a phase that failed
  pub before_Quiet :
      {a : Run} {r : Run × Bool} {c : Run} → Sends ks a r → Quiet r.0 c → Sends ks a (c, false)
  before_Quiet s q = record {
    work_same = q.work_same ∙ s.work_same;
    lock_same = q.lock_same ∙ s.lock_same;
    unsent = s.unsent;
    split = ap (λ p. p ++ s.unsent) q.puts_same ∙ s.split;
    all_sent = λ e. cc;
  }

  -- a phase that fails before it puts anything
  pub Quiet-failure : {a c : Run} → Quiet a c → Sends ks a (c, false)
  Quiet-failure q = record {
    work_same = q.work_same;
    lock_same = q.lock_same;
    unsent = ks;
    split = ap (λ p. p ++ ks) q.puts_same;
    all_sent = λ e. cc;
  }

pub Quiet-refl : (r : Run) → Quiet r r
Quiet-refl r = record { work_same = refl; lock_same = refl; puts_same = refl }

pub Quiet-success : {a c : Run} → Quiet a c → Sends [] a (c, true)
Quiet-success q = record {
  work_same = q.work_same;
  lock_same = q.lock_same;
  unsent = [];
  split = ap (λ p. p ++ []) q.puts_same;
  all_sent = λ e. refl;
}

-- Two phases, the second only if the first succeeds.
join_failed :
    {k1 : List Text} (k2 : List Text) {r : Run} {r' : Run × Bool}
    → Sends k1 r r'
    → Sends (k1 ++ k2) r (r'.0, false)
join_failed {k1} k2 {r} {r'} s = record {
  work_same = s.work_same;
  lock_same = s.lock_same;
  unsent = s.unsent ++ k2;
  split =
      sym (append_assoc r'.0.puts s.unsent k2)
      ∙ ap (λ p. p ++ k2) s.split
      ∙ append_assoc r.puts k1 k2;
  all_sent = λ e. cc;
}

join_done :
    {k1 k2 : List Text} {r : Run} {r' r'' : Run × Bool}
    → Sends k1 r r'
    → r'.1 ≡ true
    → Sends k2 r'.0 r''
    → Sends (k1 ++ k2) r r''
join_done {k1} {k2} {r} {r'} {r''} s ok t = record {
  work_same = t.work_same ∙ s.work_same;
  lock_same = t.lock_same ∙ s.lock_same;
  unsent = t.unsent;
  split =
      t.split
      ∙ ap (λ p. p ++ k2)
          (sym (append-nil r'.0.puts) ∙ ap (λ u. r'.0.puts ++ u) (sym (s.all_sent ok)) ∙ s.split)
      ∙ append_assoc r.puts k1 k2;
  all_sent = t.all_sent;
}

pub and_then-Sends :
    {k1 k2 : List Text} (f g : Run → Run × Bool) (r : Run)
    → Sends k1 r (f r)
    → Sends k2 (f r).0 (g (f r).0)
    → Sends (k1 ++ k2) r (and_then f g r)
and_then-Sends {k1} {k2} f g r s t = elim (Bool-cases (f r).1) [
  | inl ok ↦ rw ok (join_done s ok t)
  | inr no_good ↦ rw no_good (join_failed k2 s)
]

pub put-Sends :
    (env : PushEnv) (key content : Text) (r : Run) → Sends (key ∷ []) r (put env key content r)
unfolding put
put-Sends env key content r = elim (Bool-cases (env.put_ok key)) [
  | inl e ↦ rw e (record {
    work_same = refl;
    lock_same = refl;
    unsent = [];
    split = append-nil _;
    all_sent = λ x. refl;
  })
  | inr e ↦ rw e (Quiet-failure (Quiet-refl r))
]

push_one-Sends :
    (env : PushEnv) (name : Text) (content : Option Text) (key : Text) (r : Run)
    → Sends (key ∷ []) r (push_one env name content key r)
unfolding push_one
push_one-Sends env name none key r = Quiet-failure (Quiet-refl r)
push_one-Sends env name (some c) key r = elim (Bool-cases (env.opens name)) [
  | inl e ↦ rw e (
      after_Quiet (read_all-Quiet (env.reads name) r)
        (put-Sends env key c (read_all (env.reads name) r)))
  | inr e ↦ rw e (Quiet-failure (Quiet-refl r))
]

pub push_list-Sends :
    (env : PushEnv) (b : Batch) (ns : List Text) (r : Run)
    → Sends (map b.key ns) r (push_list env b ns r)
unfolding push_list
push_list-Sends env b [] r = Quiet-success (Quiet-refl r)
push_list-Sends env b (n ∷ ns) r =
    let r1 = emit_job (record r { job = record r.job { file = b.label n } }) in
    let quiet : Quiet r r1 =
      Quiet-trans (record { work_same = refl; lock_same = refl; puts_same = refl })
        (emit_job-Quiet (record r { job = record r.job { file = b.label n } })) in
    let p = push_one env n (b.content n) (b.key n) r1 in
    let one : Sends (b.key n ∷ []) r p =
      after_Quiet quiet (push_one-Sends env n (b.content n) (b.key n) r1) in
    let r3 = record p.0 { job = record p.0.job { done = p.0.job.done + 1 } } in
    let next : Quiet p.0 (emit_job r3) =
      Quiet-trans (record { work_same = refl; lock_same = refl; puts_same = refl })
        (emit_job-Quiet r3) in
    elim (Bool-cases p.1) [
      | inl ok ↦
          rw ok (join_done one ok (after_Quiet next (push_list-Sends env b ns (emit_job r3))))
      | inr no_good ↦
          rw no_good (join_failed (map b.key ns) (before_Quiet one (fail-Quiet (b.label n) p.0)))
    ]
