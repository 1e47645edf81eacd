-- ===== src/Tests/Channels.antt =====
-- The lock, the subscribers and the progress reports on concrete runs (events.go).
use filestor.Base.{ℕ, ◌≤◌, ◌≡◌, ◌↔◌, ◌⊎◌, refl, true, List, [], ◌∷◌, ◌++◌, none, some, All, length}
use filestor.Hub.{
  Kind, stage, push, Event, lock_event, state_event, Hub, JobProgress, no_progress, new_event_hub,
  try_lock, subscribe, snapshot, emit_progress,
}
use filestor.Hub.Channels.{
  Action, act, act-IsSound, publish, receive, join, leave, acts, waiting, published, received,
  is_closed, IsSound,
}
use filestor.Hub.Delivery.{KeepsOn, delivered_or_closed}
use filestor.Hub.Exclusion.{
  System, Section, lock, spawn, Reach, start, next, holding, Reach-exclusive,
}
use filestor.Hub.Throttle.{out_times}

abbrev alone : System
alone = record { hub = new_event_hub; threads = none ∷ [] }

abbrev locked : System
locked = record { hub = (try_lock push new_event_hub).0; threads = some push ∷ [] }

locked-Reach : Reach locked
unfolding new_event_hub try_lock filestor.Hub.Exclusion.thread filestor.Hub.Exclusion.set_thread
locked-Reach = next (next start spawn) (lock 0 push refl refl)

Reach-exclusive_example :
    (length (holding locked.threads) ≤ 1)
    × (((try_lock stage locked.hub).1 ≡ true) ↔ (holding locked.threads ≡ []))
Reach-exclusive_example = Reach-exclusive stage locked-Reach

abbrev joined : Hub
joined = (subscribe new_event_hub).0

abbrev actions : List Action
actions =
    publish (lock_event (some push)) ∷ receive 0 ∷ join ∷ publish (lock_event none) ∷ leave 1 ∷ []

joined-IsSound : IsSound joined
unfolding new_event_hub subscribe act
joined-IsSound = act-IsSound join new_event_hub (record { distinct = tt; below = tt })

keeps_on : All (KeepsOn 0) actions
keeps_on = (tt, (tt, (tt, (tt, ((λ e. cc), tt)))))

joined-waiting : waiting 0 joined.subs ≡ some []
unfolding waiting subscribe new_event_hub
joined-waiting = refl

delivered_or_closed_example :
    (is_closed 0 (acts actions joined) ≡ true)
    ⊎ ((b' : List Event) × (waiting 0 (acts actions joined).subs ≡ some b')
        × ([] ++ published actions ≡ received 0 actions joined ++ b'))
delivered_or_closed_example =
    delivered_or_closed 0 actions joined [] joined-IsSound keeps_on joined-waiting

abbrev step : ℕ → ℕ → ℕ × JobProgress
step now n = (now, record no_progress { done = n })

abbrev steps : List (ℕ × JobProgress)
steps = step 5 1 ∷ step 60 2 ∷ step 110 3 ∷ step 150 4 ∷ []

out_times_test : out_times steps new_event_hub ≡ 5 ∷ 110 ∷ []
unfolding out_times filestor.Hub.set_job new_event_hub emit_progress
out_times_test = refl

abbrev reporting : Hub
reporting = record {
  lock = some push;
  job = some no_progress;
  last_prog = none;
  subs = [];
  closed = [];
  fresh = 0;
}
