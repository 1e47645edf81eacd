-- ===== src/Hub/Delivery.antt =====
-- What a subscriber receives: every event in order, or its channel is closed.
use filestor.Base.{
  ℕ, ◌≡◌, ◌≢◌, ◌⊎◌, inl, inr, refl, sym, ap, ◌∙◌, true, List, [], ◌∷◌, ◌++◌, some, ltb, ◌==◌, All,
  length, Bool-cases, append-nil, append_assoc, arith, ==_iff,
}
use filestor.Hub.{Event, Hub, events_chan_size, deliver, broadcast, subscribe, unsubscribe}
use filestor.Hub.Channels.{
  waiting, Action, publish, receive, join, leave, act, acts, published, received, received_by,
  first_of_wait, rest_of, is_closed, IsSound, waiting-deliver, deliver_closes, any-append,
  waiting-receive_from, waiting-drop_sub, waiting_fresh, act-IsSound,
}

closed_stays_act :
    (c : ℕ) (a : Action) (h : Hub) → is_closed c h ≡ true → is_closed c (act a h) ≡ true
unfolding act broadcast subscribe unsubscribe
closed_stays_act c (publish ev) h e =
    rw (any-append (λ d. d == c) (deliver ev h.subs).1 h.closed, e) (ground arith)
closed_stays_act c (receive d) h e = e
closed_stays_act c join h e = e
closed_stays_act c (leave d) h e = e

closed_stays :
    (c : ℕ) (as' : List Action) (h : Hub) → is_closed c h ≡ true → is_closed c (acts as' h) ≡ true
unfolding acts
closed_stays c [] h e = e
closed_stays c (a ∷ as') h e = closed_stays c as' (act a h) (closed_stays_act c a h e)

-- The handler of channel c does not end.
abbrev pub KeepsOn : ℕ → Action → Type 0
KeepsOn c (leave d) = d ≢ c
KeepsOn c _ = Unit {0}

-- One action: the channel is closed, or what waited and was published is what was received and
-- waits.
abbrev Step : ℕ → Action → Hub → List Event → Type 0
Step c a h b =
    (is_closed c (act a h) ≡ true)
    ⊎ ((b' : List Event) × (waiting c (act a h).subs ≡ some b')
        × (b ++ published (a ∷ []) ≡ received_by c a h ++ b'))

split_wait : (b : List Event) → b ≡ first_of_wait (some b) ++ rest_of b
split_wait [] = refl
split_wait (ev ∷ evs) = refl

act-Step :
    (c : ℕ) (a : Action) (h : Hub) (b : List Event)
    → IsSound h
    → KeepsOn c a
    → waiting c h.subs ≡ some b
    → Step c a h b
unfolding act broadcast published subscribe unsubscribe waiting
act-Step c (publish ev) h b v k w = elim (Bool-cases (ltb (length b) events_chan_size)) [
  | inl room ↦ inr (b ++ ev ∷ [], waiting-deliver ev c h.subs v.distinct ∙ rw w (rw room), refl)
  | inr full ↦ inl (
      rw (
        any-append (λ d. d == c) (deliver ev h.subs).1 h.closed,
        deliver_closes ev c h.subs b w full,
      ))
]
act-Step c (receive d) h b v k w = elim (Bool-cases (d == c)) [
  | inl e ↦ inr (
    rest_of b,
    waiting-receive_from c d h.subs ∙ rw (e, w),
    rw (e, w) (append-nil b ∙ split_wait b),
  )
  | inr e ↦ inr (b, waiting-receive_from c d h.subs ∙ rw (e, w), rw e (append-nil b))
]
act-Step c join h b v k w = inr (
  b,
  elim (Bool-cases (h.fresh == c)) [
    | inl e ↦ cc (w, waiting_fresh h.fresh h.subs v.below, (==_iff h.fresh c).0 e)
    | inr e ↦ rw e w
  ],
  append-nil b,
)
act-Step c (leave d) h b v k w = inr (b, waiting-drop_sub c d h.subs ∙ ground arith, append-nil b)

published_cons :
    (a : Action) (as' : List Action) → published (a ∷ as') ≡ published (a ∷ []) ++ published as'
unfolding published
published_cons (publish ev) as' = refl
published_cons (receive d) as' = refl
published_cons join as' = refl
published_cons (leave d) as' = refl

-- Whatever is published, received, joined and left, in any order: as long as the handler of a
-- channel does not end, either the channel is closed, or what it held and what was published since
-- is, in order, what the handler received and what it still holds. So no event is lost without the
-- channel being closed.
pub delivered_or_closed :
    (c : ℕ) (as' : List Action) (h : Hub) (b : List Event)
    → IsSound h
    → All (KeepsOn c) as'
    → waiting c h.subs ≡ some b
    → (is_closed c (acts as' h) ≡ true)
      ⊎ ((b' : List Event) × (waiting c (acts as' h).subs ≡ some b')
          × (b ++ published as' ≡ received c as' h ++ b'))
unfolding acts published received
delivered_or_closed c [] h b v k w = inr (b, w, append-nil b)
delivered_or_closed c (a ∷ as') h b v k w = elim (act-Step c a h b v k.0 w) [
  | inl e ↦ inl (closed_stays c as' (act a h) e)
  | inr (b1, w1, e1) ↦ elim (delivered_or_closed c as' (act a h) b1 (act-IsSound a h v) k.1 w1) [
    | inl e ↦ inl e
    | inr (b2, w2, e2) ↦ inr (
      b2,
      w2,
      (ap (λ p. b ++ p) (published_cons a as')
          ∙ sym (append_assoc b (published (a ∷ [])) (published as'))
          ∙ ap (λ p. p ++ published as') e1
          ∙ append_assoc (received_by c a h) b1 (published as')
          ∙ ap (λ p. received_by c a h ++ p) e2
          ∙ sym (append_assoc (received_by c a h) (received c as' (act a h)) b2)),
    )
  ]
]
