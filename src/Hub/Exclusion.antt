-- ===== src/Hub/Exclusion.antt =====
-- Any number of requests and jobs as threads over one hub: at most one holds the workspace lock.
use filestor.Base.{
  ℕ, zero, suc, ◌≤◌, ◌≡◌, ◌↔◌, refl, sym, ap, ◌∙◌, Bool, true, false, List, [], ◌∷◌, Option, none,
  some, length, arith, inl, inr, Option-cases,
}
use filestor.Hub.{
  Kind, stage, analyze, push, JobProgress, Event, Hub, new_event_hub, try_lock, unlock, broadcast,
  set_job, subscribe, unsubscribe, kind_eq,
}

-- A thread holds the lock for an operation, or not.
abbrev pub Threads : Type 0
Threads = List (Option Kind)

unfoldable pub thread : Threads → ℕ → Option (Option Kind)
thread [] i = none
thread (t ∷ ts) zero = some t
thread (t ∷ ts) (suc i) = thread ts i

unfoldable pub set_thread : Threads → ℕ → Option Kind → Threads
set_thread [] i v = []
set_thread (t ∷ ts) zero v = v ∷ ts
set_thread (t ∷ ts) (suc i) v = t ∷ set_thread ts i v

abbrev pub held : Option Kind → List Kind
held none = []
held (some k) = k ∷ []

-- the operations in progress
unfoldable pub holding : Threads → List Kind
holding [] = []
holding (none ∷ ts) = holding ts
holding (some k ∷ ts) = k ∷ holding ts

pub record System : Type 0 where
  pub hub : Hub
  pub threads : Threads

-- One locked section. A thread releases the kind that it acquired, once: every handler that acquires
-- releases in a `defer` or on each return, or hands over to a job that releases in a `defer`.
pub data Section : System → System → Type 0 where
  lock :
      {s : System} (i : ℕ) (k : Kind)
      → thread s.threads i ≡ some none
      → (try_lock k s.hub).1 ≡ true
      → Section s (record { hub = (try_lock k s.hub).0; threads = set_thread s.threads i (some k) })
  refused :
      {s : System} (k : Kind)
      → (try_lock k s.hub).1 ≡ false
      → Section s (record s { hub = (try_lock k s.hub).0 })
  free :
      {s : System} (i : ℕ) (k : Kind)
      → thread s.threads i ≡ some (some k)
      → Section s (record { hub = (unlock k s.hub).0; threads = set_thread s.threads i none })
  tell : {s : System} (ev : Event) → Section s (record s { hub = broadcast ev s.hub })
  report :
      {s : System} (now : ℕ) (p : JobProgress) (throttle : Bool)
      → Section s (record s { hub = (set_job now p throttle s.hub).0 })
  join : {s : System} → Section s (record s { hub = (subscribe s.hub).0 })
  leave : {s : System} (c : ℕ) → Section s (record s { hub = unsubscribe c s.hub })
  spawn : {s : System} → Section s (record s { threads = none ∷ s.threads })

pub data Reach : System → Type 0 where
  start : Reach (record { hub = new_event_hub; threads = [] })
  next : {s t : System} → Reach s → Section s t → Reach t

holding-set_some :
    (ts : Threads) (i : ℕ) (k : Kind)
    → thread ts i ≡ some none
    → holding ts ≡ []
    → holding (set_thread ts i (some k)) ≡ k ∷ []
unfolding thread set_thread holding
holding-set_some [] i k t h = cc
holding-set_some (none ∷ ts) zero k t h = ap (◌∷◌ k) h
holding-set_some (some j ∷ ts) zero k t h = cc
holding-set_some (none ∷ ts) (suc i) k t h = holding-set_some ts i k t h
holding-set_some (some j ∷ ts) (suc i) k t h = cc

holding-thread :
    (ts : Threads) (i : ℕ) (k : Kind) → thread ts i ≡ some (some k) → holding ts ≡ [] → ⊥
unfolding thread holding
holding-thread [] i k t h = cc
holding-thread (none ∷ ts) zero k t h = cc
holding-thread (some x ∷ ts) zero k t h = cc
holding-thread (none ∷ ts) (suc i) k t h = holding-thread ts i k t h
holding-thread (some x ∷ ts) (suc i) k t h = cc

holding-set_none :
    (ts : Threads) (i : ℕ) (k j : Kind)
    → thread ts i ≡ some (some k)
    → holding ts ≡ j ∷ []
    → (j ≡ k) × (holding (set_thread ts i none) ≡ [])
unfolding thread set_thread holding
holding-set_none [] i k j t h = cc
holding-set_none (none ∷ ts) zero k j t h = cc
holding-set_none (some x ∷ ts) zero k j t h = ground arith
holding-set_none (none ∷ ts) (suc i) k j t h = holding-set_none ts i k j t h
holding-set_none (some x ∷ ts) (suc i) k j t h = absurd (holding-thread ts i k t (ground arith))

-- The lock is what the threads hold.
abbrev Accounts : System → Type 0
Accounts s = holding s.threads ≡ held s.hub.lock

kind_eq_self : (k : Kind) → kind_eq k k ≡ true
unfolding kind_eq
kind_eq_self stage = refl
kind_eq_self analyze = refl
kind_eq_self push = refl

lock-Accounts :
    (h : Hub) (ts : Threads) (i : ℕ) (k : Kind)
    → thread ts i ≡ some none
    → (try_lock k h).1 ≡ true
    → holding ts ≡ held h.lock
    → holding (set_thread ts i (some k)) ≡ held (try_lock k h).0.lock
unfolding try_lock
lock-Accounts h ts i k t r a = elim (Option-cases h.lock) [
  | inl e ↦ rw e (holding-set_some ts i k t (a ∙ ap held e))
  | inr (j, e) ↦ cc (rw e at r)
]

refused-Accounts : (h : Hub) (k : Kind) → (try_lock k h).1 ≡ false → (try_lock k h).0.lock ≡ h.lock
unfolding try_lock
refused-Accounts h k r = ground arith

free-Accounts :
    (h : Hub) (ts : Threads) (i : ℕ) (k : Kind)
    → thread ts i ≡ some (some k)
    → holding ts ≡ held h.lock
    → holding (set_thread ts i none) ≡ held (unlock k h).0.lock
unfolding unlock
free-Accounts h ts i k t a = elim (Option-cases h.lock) [
  | inl e ↦ absurd (holding-thread ts i k t (a ∙ ap held e))
  | inr (j, e) ↦
      let (same, empty) = holding-set_none ts i k j t (a ∙ ap held e) in
      rw e (rw same (rw (kind_eq_self k) empty))
]

Section-Accounts : {s t : System} → Section s t → Accounts s → Accounts t
unfolding broadcast subscribe unsubscribe set_job holding
Section-Accounts (lock {s} i k t r) a = lock-Accounts s.hub s.threads i k t r a
Section-Accounts (refused {s} k r) a = a ∙ ap held (sym (refused-Accounts s.hub k r))
Section-Accounts (free {s} i k t) a = free-Accounts s.hub s.threads i k t a
Section-Accounts (tell ev) a = a
Section-Accounts (report now p b) a = ground arith
Section-Accounts join a = a
Section-Accounts (leave c) a = a
Section-Accounts spawn a = a

Reach-Accounts : {s : System} → Reach s → Accounts s
unfolding new_event_hub holding
Reach-Accounts start = refl
Reach-Accounts (next r st) = Section-Accounts st (Reach-Accounts r)

lock_free :
    (h : Hub) (k : Kind) (l : List Kind)
    → l ≡ held h.lock
    → (length l ≤ 1) × (((try_lock k h).1 ≡ true) ↔ (l ≡ []))
unfolding try_lock
lock_free h k l a = elim (Option-cases h.lock) [
  | inl e ↦ rw (a, e) (omega arith, (λ _. refl, λ _. refl))
  | inr (j, e) ↦ rw (a, e) (omega arith, (λ x. cc, λ x. cc))
]

-- However the locked sections of any number of requests and jobs interleave, at most one operation
-- holds the workspace lock, and an acquire succeeds exactly when none holds it.
pub Reach-exclusive :
    {s : System} (k : Kind)
    → Reach s
    → (length (holding s.threads) ≤ 1) × (((try_lock k s.hub).1 ≡ true) ↔ (holding s.threads ≡ []))
Reach-exclusive {s} k r = lock_free s.hub k (holding s.threads) (Reach-Accounts r)
