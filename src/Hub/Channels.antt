-- ===== src/Hub/Channels.antt =====
-- The actions on the subscribers' channels, and what each does to one channel.
use filestor.Base.{
  ℕ, ◌+◌, ◌<◌, ◌≡◌, refl, Bool, true, false, ◌||◌, List, [], ◌∷◌, ◌++◌, Option, none, some, ltb,
  ◌==◌, any, All, if◌then◌else◌, length, arith,
}
use filestor.Hub.{
  Event, Sub, Hub, events_chan_size, deliver, broadcast, subscribe, drop_sub, unsubscribe,
}

-- The events that wait in a channel; none if nobody is subscribed on it.
unfoldable pub waiting : ℕ → List Sub → Option (List Event)
waiting c [] = none
waiting c (s ∷ ss) = if s.chan == c then some s.buffer else waiting c ss

abbrev pub rest_of : List Event → List Event
rest_of [] = []
rest_of (ev ∷ evs) = evs

-- The handler of a subscriber receives the next event of its channel.
unfoldable pub receive_from : ℕ → List Sub → List Sub
receive_from c [] = []
receive_from c (s ∷ ss) =
    if s.chan == c then record s { buffer = rest_of s.buffer } ∷ ss else s ∷ receive_from c ss

pub data Action : Type 0 where
  publish : Event → Action
  receive : ℕ → Action
  join : Action
  leave : ℕ → Action

unfoldable pub act : Action → Hub → Hub
act (publish ev) h = broadcast ev h
act (receive c) h = record h { subs = receive_from c h.subs }
act join h = (subscribe h).0
act (leave c) h = unsubscribe c h

unfoldable pub acts : List Action → Hub → Hub
acts [] h = h
acts (a ∷ as') h = acts as' (act a h)

-- the events that the actions publish
unfoldable pub published : List Action → List Event
published [] = []
published (publish ev ∷ as') = ev ∷ published as'
published (_ ∷ as') = published as'

abbrev pub first_of_wait : Option (List Event) → List Event
first_of_wait (some (ev ∷ evs)) = ev ∷ []
first_of_wait _ = []

-- the events that the handler of channel c receives
abbrev pub received_by : ℕ → Action → Hub → List Event
received_by c (receive d) h = if d == c then first_of_wait (waiting c h.subs) else []
received_by c _ h = []

unfoldable pub received : ℕ → List Action → Hub → List Event
received c [] h = []
received c (a ∷ as') h = received_by c a h ++ received c as' (act a h)

abbrev pub is_closed : ℕ → Hub → Bool
is_closed c h = any (λ d. d == c) h.closed

-- No two subscribers share a channel, and the next channel is a new one.
abbrev pub Distinct : List Sub → Type 0
Distinct [] = Unit
Distinct (s ∷ ss) = (waiting s.chan ss ≡ none) × Distinct ss

pub record IsSound (h : Hub) : Type 0 where
  pub distinct : Distinct h.subs
  pub below : All (λ s. s.chan < h.fresh) h.subs

abbrev pub after_event : Event → Option (List Event) → Option (List Event)
after_event ev none = none
after_event ev (some b) = if ltb (length b) events_chan_size then some (b ++ ev ∷ []) else none

-- broadcast, seen from one channel
waiting-deliver-none :
    (ev : Event) (c : ℕ) (ss : List Sub) → waiting c ss ≡ none → waiting c (deliver ev ss).0 ≡ none
unfolding waiting deliver
waiting-deliver-none ev c [] h = refl
waiting-deliver-none ev c (s ∷ ss) h = ground (arith, waiting-deliver-none ev c ss)

pub waiting-deliver :
    (ev : Event) (c : ℕ) (ss : List Sub)
    → Distinct ss
    → waiting c (deliver ev ss).0 ≡ after_event ev (waiting c ss)
unfolding waiting deliver
waiting-deliver ev c [] d = refl
waiting-deliver ev c (s ∷ ss) d =
    ground (arith, waiting-deliver ev c ss d.1, waiting-deliver-none ev s.chan ss)

deliver-Distinct : (ev : Event) (ss : List Sub) → Distinct ss → Distinct (deliver ev ss).0
unfolding deliver
deliver-Distinct ev [] d = tt
deliver-Distinct ev (s ∷ ss) d =
    ground (arith, deliver-Distinct ev ss d.1, waiting-deliver-none ev s.chan ss d.0)

deliver-below :
    (ev : Event) (n : ℕ) (ss : List Sub)
    → All (λ s. s.chan < n) ss
    → All (λ s. s.chan < n) (deliver ev ss).0
unfolding deliver
deliver-below ev n [] d = tt
deliver-below ev n (s ∷ ss) d = ground (arith, deliver-below ev n ss d.1)

-- A channel that broadcast does not keep is closed.
pub deliver_closes :
    (ev : Event) (c : ℕ) (ss : List Sub) (b : List Event)
    → waiting c ss ≡ some b
    → ltb (length b) events_chan_size ≡ false
    → any (λ d. d == c) (deliver ev ss).1 ≡ true
unfolding waiting deliver
deliver_closes ev c [] b w h = cc
deliver_closes ev c (s ∷ ss) b w h = ground (arith, deliver_closes ev c ss b)

pub any-append : (p : ℕ → Bool) (xs ys : List ℕ) → any p (xs ++ ys) ≡ (any p xs || any p ys)
any-append p [] ys = refl
any-append p (x ∷ xs) ys = ground (arith, any-append p xs ys)

abbrev pub after_receive : Option (List Event) → Option (List Event)
after_receive none = none
after_receive (some b) = some (rest_of b)

-- Receiving, leaving and joining, seen from one channel.
pub waiting-receive_from :
    (c d : ℕ) (ss : List Sub)
    → waiting c (receive_from d ss)
      ≡ (if d == c then after_receive (waiting c ss) else waiting c ss)
unfolding waiting receive_from
waiting-receive_from c d [] = ground arith
waiting-receive_from c d (s ∷ ss) = ground (arith, waiting-receive_from c d ss)

pub waiting-drop_sub :
    (c d : ℕ) (ss : List Sub) → waiting c (drop_sub d ss) ≡ (if d == c then none else waiting c ss)
unfolding waiting drop_sub
waiting-drop_sub c d [] = ground arith
waiting-drop_sub c d (s ∷ ss) = ground (arith, waiting-drop_sub c d ss)

pub receive_from-Distinct : (d : ℕ) (ss : List Sub) → Distinct ss → Distinct (receive_from d ss)
unfolding receive_from
receive_from-Distinct d [] h = tt
receive_from-Distinct d (s ∷ ss) h =
    ground (arith, receive_from-Distinct d ss h.1, waiting-receive_from s.chan d ss)

drop_sub-Distinct : (d : ℕ) (ss : List Sub) → Distinct ss → Distinct (drop_sub d ss)
unfolding drop_sub
drop_sub-Distinct d [] h = tt
drop_sub-Distinct d (s ∷ ss) h =
    ground (arith, drop_sub-Distinct d ss h.1, waiting-drop_sub s.chan d ss)

receive_from-below :
    (d n : ℕ) (ss : List Sub) → All (λ s. s.chan < n) ss → All (λ s. s.chan < n) (receive_from d ss)
unfolding receive_from
receive_from-below d n [] h = tt
receive_from-below d n (s ∷ ss) h = ground (arith, receive_from-below d n ss h.1)

drop_sub-below :
    (d n : ℕ) (ss : List Sub) → All (λ s. s.chan < n) ss → All (λ s. s.chan < n) (drop_sub d ss)
unfolding drop_sub
drop_sub-below d n [] h = tt
drop_sub-below d n (s ∷ ss) h = ground (arith, drop_sub-below d n ss h.1)

-- the channels below the next one stay below it
below_suc : (n : ℕ) (ss : List Sub) → All (λ s. s.chan < n) ss → All (λ s. s.chan < n + 1) ss
below_suc n [] h = tt
below_suc n (s ∷ ss) h = (omega arith, below_suc n ss h.1)

pub waiting_fresh : (n : ℕ) (ss : List Sub) → All (λ s. s.chan < n) ss → waiting n ss ≡ none
unfolding waiting
waiting_fresh n [] h = refl
waiting_fresh n (s ∷ ss) h = ground (arith, waiting_fresh n ss h.1)

-- Every action keeps the channels apart.
pub act-IsSound : (a : Action) (h : Hub) → IsSound h → IsSound (act a h)
unfolding act broadcast subscribe unsubscribe
act-IsSound (publish ev) h v = record {
  distinct = deliver-Distinct ev h.subs v.distinct;
  below = deliver-below ev h.fresh h.subs v.below;
}
act-IsSound (receive d) h v = record {
  distinct = receive_from-Distinct d h.subs v.distinct;
  below = receive_from-below d h.fresh h.subs v.below;
}
act-IsSound join h v = record {
  distinct = (waiting_fresh h.fresh h.subs v.below, v.distinct);
  below = (omega arith, below_suc h.fresh h.subs v.below);
}
act-IsSound (leave d) h v = record {
  distinct = drop_sub-Distinct d h.subs v.distinct;
  below = drop_sub-below d h.fresh h.subs v.below;
}
