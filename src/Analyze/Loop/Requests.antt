-- ===== src/Analyze/Loop/Requests.antt =====
-- The requests of a run: their number and their order (analyze.go: run, finalize).
use filestor.Base.{
  ℕ, zero, suc, ◌+◌, ◌≡◌, ◌≤◌, refl, sym, subst, inl, inr, Bool, true, false, ◌||◌, List, [], ◌∷◌,
  ◌++◌, All, Option, none, some, leb, length, length-append, Bool-cases, Text, arith,
}
use filestor.Names.Title.{sanitize_push_title}
use filestor.Analyze.{
  Agent, Service, ToolCall, Message, wrap_up, assistant, ChatResponse, request_failed, responded,
}
use filestor.Analyze.Marks.{is_nothing}
use filestor.Analyze.Tools.{store_title}
use filestor.Analyze.Loop.{
  Talk, Said, said_by, chat_message, answer_calls, trimmed, nudged, round_start, after_answer,
  run_rounds, result_of, title_from, finalized, wrapping_up, finalize, ended, first_messages, run,
  nudge_message, plain_title,
}
use filestor.Analyze.Loop.Protocol.{
  answers, KeepsOrder, answer_calls-order, KeepsOrder-append, KeepsOrder-trim,
}

-- A talk in order so far, with at most n requests.
record InOrder (n : ℕ) (t : Talk) : Type 0 where
  now : KeepsOrder t.messages
  before : All KeepsOrder t.sent
  count : length t.sent ≤ n

All-append :
    (P : List Message → Type 0) (xs ys : List (List Message))
    → All P xs
    → All P ys
    → All P (xs ++ ys)
All-append P [] ys a b = b
All-append P (x ∷ xs) ys a b = (a.0, All-append P xs ys a.1 b)

-- After a request: in order, or with an answer behind messages in order.
abbrev Answered : ℕ → Talk × Option Said → Type 0
Answered n (t, none) = InOrder n t
Answered n (t, some (content, calls)) =
    (base : List Message) × KeepsOrder base
    × (t.messages ≡ base ++ assistant content calls ∷ [])
    × All KeepsOrder t.sent
    × (length t.sent ≤ n)

said_by-Answered : (n : ℕ) (t : Talk) (r : ChatResponse) → InOrder n t → Answered n (said_by t r)
said_by-Answered n t request_failed o = o
said_by-Answered n t (responded true choices) o = o
said_by-Answered n t (responded false []) o = o
said_by-Answered n t (responded false ((content, calls) ∷ choices)) o =
    (t.messages, o.now, refl, o.before, o.count)

InOrder-le : (n m : ℕ) (t : Talk) → n ≤ m → InOrder n t → InOrder m t
InOrder-le n m t le o = record { now = o.now; before = o.before; count = omega (arith, o.count) }

module _ (wide : ℕ → Bool) (s : Service) where
  chat_message-Answered :
      (n : ℕ) (wrapping : Bool) (t : Talk)
      → InOrder n t
      → Answered (n + 1) (chat_message s wrapping t)
  unfolding chat_message
  chat_message-Answered n wrapping t o =
      said_by-Answered (n + 1) (record t { sent = t.sent ++ t.messages ∷ [] })
        (s.chat t.messages wrapping)
        (record {
          now = o.now;
          before = All-append KeepsOrder t.sent (t.messages ∷ []) o.before (o.now, tt);
          count = omega (arith, length-append t.sent (t.messages ∷ []), o.count);
        })

  order-nudged :
      (calls : List ToolCall) (t : Talk)
      → KeepsOrder t.messages
      → KeepsOrder (nudged wide s calls t).messages
  unfolding answers
  order-nudged [] t o = KeepsOrder-append t.messages (nudge_message t.agent ∷ []) o refl
  order-nudged (c ∷ calls) t o = o

  after_answer-InOrder :
      (max_calls calls n m : ℕ) (next : ℕ → Talk → Talk × Bool) (p : Talk × Option Said)
      → n ≤ m
      → ((c : ℕ) (t : Talk) → InOrder n t → InOrder m (next c t).0)
      → Answered n p
      → InOrder m (after_answer wide s max_calls calls next p).0
  after_answer-InOrder max_calls calls n m next (t, none) le go o = InOrder-le n m t le o
  after_answer-InOrder max_calls calls n m next (t, some (content, tcs)) le go
        (base, ok, e, before, count) =
      let (order, same) = answer_calls-order wide s content tcs base t ok e in
      let t' = trimmed wide s (answer_calls wide s tcs t) in
      let o : InOrder n t' = record {
        now = KeepsOrder-trim (answer_calls wide s tcs t).messages order;
        before = subst (All KeepsOrder) (sym same) before;
        count = rw same count;
      } in
      elim (Bool-cases (t'.agent.finished || leb max_calls (calls + length tcs))) [
        | inl d ↦ rw d (InOrder-le n m t' le o)
        | inr d ↦ rw d (
            go (calls + length tcs) (nudged wide s tcs t')
              (record { now = order-nudged tcs t' o.now; before = o.before; count = o.count }))
      ]

  run_rounds-InOrder :
      (max max_calls left round calls n : ℕ) (t : Talk)
      → InOrder n t
      → InOrder (n + left) (run_rounds wide s max max_calls left round calls t).0
  unfolding run_rounds
  run_rounds-InOrder max max_calls zero round calls n t o = InOrder-le n (n + 0) t (omega arith) o
  run_rounds-InOrder max max_calls (suc left) round calls n t o =
      after_answer-InOrder max_calls calls (n + 1) (n + suc left)
        (run_rounds wide s max max_calls left (round + 1))
        (chat_message s false (round_start wide s max round t)) (omega arith)
        (λ c t' o'.
          InOrder-le (n + 1 + left) (n + suc left) _ (omega arith)
            (run_rounds-InOrder max max_calls left (round + 1) c (n + 1) t' o'))
        (chat_message-Answered n false (round_start wide s max round t)
          (record { now = o.now; before = o.before; count = o.count }))

  title_from-sent : (t : Talk) (title : Option Text) → (title_from wide s t title).0.sent ≡ t.sent
  title_from-sent t none = refl
  title_from-sent t (some title) = kept (store_title (s.disk t.messages) title t.agent)
    where
      kept : (r : Agent × Bool) → (result_of wide s t r title).0.sent ≡ t.sent
      kept (a, true) = refl
      kept (a, false) = refl

  -- The requests sent: each in order, and at most n.
  abbrev Sent : ℕ → List (List Message) → Type 0
  Sent n sent = All KeepsOrder sent × (length sent ≤ n)

  finalized-Sent :
      (n : ℕ) (p : Talk × Option Said) → Answered n p → Sent n (finalized wide s p).0.sent
  finalized-Sent n (t, none) o = (o.before, o.count)
  finalized-Sent n (t, some (content, tcs)) (base, ok, e, before, count) =
      let (order, same) = answer_calls-order wide s content tcs base t ok e in
      let t' = answer_calls wide s tcs t in
      let kept : Sent n t'.sent = subst (Sent n) (sym same) (before, count) in
      elim (Bool-cases (is_nothing t'.agent.title)) [
        | inl d ↦ rw d (
            subst (Sent n)
              (sym (title_from-sent t' (sanitize_push_title wide (plain_title content)))) kept)
        | inr d ↦ rw d kept
      ]

  finalize-Sent : (n : ℕ) (t : Talk) → InOrder n t → Sent (n + 1) (finalize wide s t).0.sent
  unfolding finalize answers
  finalize-Sent n t o = finalized-Sent (n + 1) (chat_message s true (wrapping_up wide s t)) (
      chat_message-Answered n true (wrapping_up wide s t) (record {
        now = KeepsOrder-append t.messages (wrap_up ∷ []) o.now refl;
        before = o.before;
        count = o.count;
      }))

  ended-Sent : (n : ℕ) (p : Talk × Bool) → InOrder n p.0 → Sent (n + 1) (ended wide s p).0.sent
  ended-Sent n (t, false) o = (o.before, omega (arith, o.count))
  ended-Sent n (t, true) o = elim (Bool-cases (is_nothing t.agent.title)) [
    | inl d ↦ rw d (finalize-Sent n t o)
    | inr d ↦ rw d (o.before, omega (arith, o.count))
  ]

  -- A run sends at most one request to the model more than it has rounds, and in each request
  -- every message with tool calls is followed at once by one reply for each of them, in their
  -- order.
  pub run-requests :
      (max max_calls : ℕ) (a : Agent)
      → let r = run wide s max max_calls a in All KeepsOrder r.0.sent × (length r.0.sent ≤ max + 1)
  unfolding run answers
  run-requests max max_calls a =
      let t : Talk = record { agent = a; messages = first_messages wide s a.list; sent = [] } in
      let p = run_rounds wide s max max_calls max 0 0 t in
      ended-Sent max p (
        InOrder-le (0 + max) max p.0 (omega arith) (
          run_rounds-InOrder max max_calls max 0 0 0 t
            (record { now = refl; before = tt; count = omega arith })))
