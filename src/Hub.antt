-- ===== src/Hub.antt =====
-- The workspace lock, the last job and the event subscribers (events.go). A locked section of the
-- hub's mutex is one function; acquire and release are a locked section and then a broadcast, with
-- other sections possibly between the two. A time is in milliseconds.
pub mod Stream
pub mod Channels
pub mod Delivery
pub mod Exclusion
pub mod Throttle
use filestor.Base.{
  ℕ, ◌+◌, ◌-◌, ◌≡◌, Bool, true, false, ◌&&◌, ◌||◌, not, List, [], ◌∷◌, ◌++◌, Option, none, some,
  ltb, ◌==◌, if◌then◌else◌, length, Text,
}
use filestor.Workspace.{WorkspaceState}

-- lockStage, lockAnalyze, lockPush
pub data Kind : Type 0 where
  stage analyze push : Kind

pub Kind-discrete : Discrete Kind
Kind-discrete = hlevel

unfoldable pub kind_eq : Kind → Kind → Bool
kind_eq stage stage = true
kind_eq analyze analyze = true
kind_eq push push = true
kind_eq _ _ = false

-- jobProgress
pub record JobProgress : Type 0 where
  pub kind : Option Kind
  pub message : Text
  pub file : Text
  pub done : ℕ
  pub total : ℕ
  pub done_bytes : ℕ
  pub total_bytes : ℕ
  pub title : Text
  pub time : Text
  pub prefix : Text
  pub error : Text

abbrev pub no_progress : JobProgress
no_progress = record {
  kind = none;
  message = [];
  file = [];
  done = 0;
  total = 0;
  done_bytes = 0;
  total_bytes = 0;
  title = [];
  time = [];
  prefix = [];
  error = [];
}

-- sseEvent: its name and its payload
pub data Event : Type 0 where
  lock_event : Option Kind → Event
  files_event : List Text → Event
  state_event : WorkspaceState → Event
  progress_event : JobProgress → Event
  done_event : JobProgress → Event
  error_event : JobProgress → Event

abbrev pub events_chan_size : ℕ
events_chan_size = 16

abbrev pub progress_min_interval : ℕ
progress_min_interval = 100

-- A subscriber's channel: its identity and the events that its handler has not yet received.
pub record Sub : Type 0 where
  pub chan : ℕ
  pub buffer : List Event

-- eventHub. `closed` lists the channels that broadcast has closed. `last_prog` is none at the zero
-- time. `fresh` names the next channel that subscribe makes.
pub record Hub : Type 0 where
  pub lock : Option Kind
  pub job : Option JobProgress
  pub last_prog : Option ℕ
  pub subs : List Sub
  pub closed : List ℕ
  pub fresh : ℕ

unfoldable pub new_event_hub : Hub
new_event_hub = record {
  lock = none;
  job = none;
  last_prog = none;
  subs = [];
  closed = [];
  fresh = 0;
}

-- acquire, up to the broadcast
abbrev pub acquire_free : Kind → Option Kind → Hub → Hub × Bool
acquire_free kind none h = (record h { lock = some kind; job = none; last_prog = none }, true)
acquire_free kind (some held) h = (h, false)

unfoldable pub try_lock : Kind → Hub → Hub × Bool
try_lock kind h = acquire_free kind h.lock h

-- release, up to the broadcast; the flag is whether it goes on to broadcast
abbrev pub release_held : Kind → Option Kind → Hub → Hub × Bool
release_held kind none h = (h, false)
release_held kind (some held) h =
    if kind_eq held kind then (record h { lock = none }, true) else (h, false)

unfoldable pub unlock : Kind → Hub → Hub × Bool
unfolding kind_eq
unlock kind h = release_held kind h.lock h

-- The loop of broadcast over the subscribers: those that stay, and the channels closed.
unfoldable pub deliver : Event → List Sub → List Sub × List ℕ
deliver ev [] = ([], [])
deliver ev (s ∷ ss) =
    let (stay, gone) = deliver ev ss in
    if ltb (length s.buffer) events_chan_size
    then (record s { buffer = s.buffer ++ ev ∷ [] } ∷ stay, gone)
    else (stay, s.chan ∷ gone)

-- broadcast
unfoldable pub broadcast : Event → Hub → Hub
unfolding deliver
broadcast ev h =
    let (stay, gone) = deliver ev h.subs in record h { subs = stay; closed = gone ++ h.closed }

-- acquire and release with nothing between their two sections
unfoldable pub acquire : Kind → Hub → Hub × Bool
unfolding try_lock broadcast
acquire kind h =
    let (h', ok) = try_lock kind h in
    if ok then (broadcast (lock_event (some kind)) h', true) else (h', false)

unfoldable pub release : Kind → Hub → Hub
unfolding unlock broadcast
release kind h = let (h', ok) = unlock kind h in if ok then broadcast (lock_event none) h' else h'

abbrev pub lock_kind : Hub → Option Kind
lock_kind h = h.lock

abbrev pub job_or_empty : Option JobProgress → JobProgress
job_or_empty none = no_progress
job_or_empty (some job) = job

-- lastJob
abbrev pub last_job : Hub → JobProgress
last_job h = job_or_empty h.job

abbrev pub is_busy : Option Kind → Bool
is_busy (some analyze) = true
is_busy (some push) = true
is_busy _ = false

-- busyForState
unfoldable pub busy_for_state : Hub → Bool
busy_for_state h = is_busy (lock_kind h)

-- subscribe
unfoldable pub subscribe : Hub → Hub × ℕ
subscribe h = (
  record h { subs = record { chan = h.fresh; buffer = [] } ∷ h.subs; fresh = h.fresh + 1 },
  h.fresh,
)

unfoldable pub drop_sub : ℕ → List Sub → List Sub
drop_sub c [] = []
drop_sub c (s ∷ ss) = let rest = drop_sub c ss in if s.chan == c then rest else s ∷ rest

-- unsubscribe
unfoldable pub unsubscribe : ℕ → Hub → Hub
unfolding drop_sub
unsubscribe c h = record h { subs = drop_sub c h.subs }

abbrev pub too_soon : ℕ → Option ℕ → Bool
too_soon now none = false
too_soon now (some last) = ltb (now - last) progress_min_interval

-- setJob; the flag is whether the event goes out. A clock that goes
-- back gives a negative interval, which is too soon; so is the truncated difference here.
unfoldable pub set_job : ℕ → JobProgress → Bool → Hub → Hub × Bool
set_job now p throttle h =
    let h' = record h { job = some p } in
    if not throttle
    then (h', true)
    else if too_soon now h.last_prog
    then (h', false)
    else (record h' { last_prog = some now }, true)

-- emitProgress
unfoldable pub emit_progress : ℕ → JobProgress → Bool → Hub → Hub
unfolding set_job broadcast
emit_progress now p throttle h =
    let (h', out) = set_job now p throttle h in if out then broadcast (progress_event p) h' else h'

-- emitDone
unfoldable pub emit_done : ℕ → JobProgress → Hub → Hub
unfolding set_job broadcast
emit_done now p h = broadcast (done_event p) (set_job now p false h).0

-- emitFail
unfoldable pub emit_fail : ℕ → JobProgress → Hub → Hub
unfolding set_job broadcast
emit_fail now p h = broadcast (error_event p) (set_job now p false h).0

-- eventsSnapshot
pub record EventsSnapshot : Type 0 where
  pub lock : Option Kind
  pub files : List Text
  pub state : WorkspaceState
  pub job : Option JobProgress

-- snapshot: the files and the state are read before the hub's section
unfoldable pub snapshot : List Text → WorkspaceState → Hub → EventsSnapshot
snapshot files state h = record { lock = h.lock; files = files; state = state; job = h.job }
