-- ===== src/Analyze/Loop/Invariant.antt =====
-- What every step of a run keeps, the run keeps (analyze.go: run, finalize).
use filestor.Base.{
  ℕ, zero, suc, ◌+◌, ◌≡◌, refl, inl, inr, Bool, true, false, ◌||◌, List, [], ◌∷◌, ◌++◌, Option,
  none, some, leb, length, Bool-cases, Text,
}
use filestor.Names.Title.{sanitize_push_title}
use filestor.Hub.{JobProgress}
use filestor.Analyze.{
  Agent, Disk, Service, ToolCall, Message, ChatResponse, request_failed, responded,
}
use filestor.Analyze.Marks.{is_nothing}
use filestor.Analyze.Tools.{run_tool, report, store_title}
use filestor.Analyze.Loop.{
  Talk, Said, said_by, chat_message, run_calls, answer_calls, trimmed, nudged, round_start,
  after_answer, run_rounds, result_of, title_from, finalized, wrapping_up, finalize, ended,
  first_messages, run, plain_title, round_report, wrapping_report,
}

module _ (wide : ℕ → Bool) (s : Service) (P : Agent → Type 0)
    (on_report : (p : JobProgress) (a : Agent) → P a → P (report p a))
    (on_close : (a : Agent) → P a → P (record a { reads_closed = true }))
    (on_tool : (ms : List Message) (tc : ToolCall) (a : Agent)
      → P a
      → P (run_tool wide (s.disk ms) tc a).0)
    (on_title : (d : Disk) (title given : Text) (a : Agent)
      → sanitize_push_title wide given ≡ some title
      → P a
      → P (store_title d title a).0) where
  run_calls-keeps :
      (calls : List ToolCall) (extra : List Message) (t : Talk)
      → P t.agent
      → P (run_calls wide s calls extra t).1.agent
  unfolding run_calls
  run_calls-keeps [] extra t k = k
  run_calls-keeps (tc ∷ tcs) extra t k = run_calls-keeps tcs _ _ (on_tool t.messages tc t.agent k)

  said_by-keeps : (t : Talk) (r : ChatResponse) → P t.agent → P (said_by t r).0.agent
  said_by-keeps t request_failed k = k
  said_by-keeps t (responded true choices) k = k
  said_by-keeps t (responded false []) k = k
  said_by-keeps t (responded false (c ∷ choices)) k = k

  chat_message-keeps :
      (wrapping : Bool) (t : Talk) → P t.agent → P (chat_message s wrapping t).0.agent
  unfolding chat_message
  chat_message-keeps wrapping t k =
      said_by-keeps (record t { sent = t.sent ++ t.messages ∷ [] }) (s.chat t.messages wrapping) k

  after_answer-keeps :
      (max_calls calls : ℕ) (next : ℕ → Talk → Talk × Bool) (p : Talk × Option Said)
      → ((c : ℕ) (t : Talk) → P t.agent → P (next c t).0.agent)
      → P p.0.agent
      → P (after_answer wide s max_calls calls next p).0.agent
  after_answer-keeps max_calls calls next (t, none) go k = k
  after_answer-keeps max_calls calls next (t, some (content, tcs)) go k =
      let t' = trimmed wide s (answer_calls wide s tcs t) in
      let k' = run_calls-keeps tcs [] t k in
      elim (Bool-cases (t'.agent.finished || leb max_calls (calls + length tcs))) [
        | inl d ↦ rw d k'
        | inr d ↦ rw d (go (calls + length tcs) (nudged wide s tcs t') k')
      ]

  run_rounds-keeps :
      (max max_calls left round calls : ℕ) (t : Talk)
      → P t.agent
      → P (run_rounds wide s max max_calls left round calls t).0.agent
  unfolding run_rounds
  run_rounds-keeps max max_calls zero round calls t k = k
  run_rounds-keeps max max_calls (suc left) round calls t k =
      after_answer-keeps max_calls calls (run_rounds wide s max max_calls left (round + 1))
        (chat_message s false (round_start wide s max round t))
        (λ c t' k'. run_rounds-keeps max max_calls left (round + 1) c t' k')
        (chat_message-keeps false (round_start wide s max round t)
          (on_report (round_report max round) t.agent k))

  title_from-keeps :
      (t : Talk) (given : Text) (title : Option Text)
      → sanitize_push_title wide given ≡ title
      → P t.agent
      → P (title_from wide s t title).0.agent
  title_from-keeps t given none e k = k
  title_from-keeps t given (some title) e k =
      kept (store_title (s.disk t.messages) title t.agent)
        (on_title (s.disk t.messages) title given t.agent e k)
    where
      kept : (r : Agent × Bool) → P r.0 → P (result_of wide s t r title).0.agent
      kept (a, true) k = k
      kept (a, false) k = k

  finalized-keeps : (p : Talk × Option Said) → P p.0.agent → P (finalized wide s p).0.agent
  finalized-keeps (t, none) k = k
  finalized-keeps (t, some (content, tcs)) k =
      let t' = answer_calls wide s tcs t in
      let k' = run_calls-keeps tcs [] t k in
      elim (Bool-cases (is_nothing t'.agent.title)) [
        | inl d ↦ rw d (
            title_from-keeps t' (plain_title content)
              (sanitize_push_title wide (plain_title content)) refl k')
        | inr d ↦ rw d k'
      ]

  finalize-keeps : (t : Talk) → P t.agent → P (finalize wide s t).0.agent
  unfolding finalize
  finalize-keeps t k = finalized-keeps (chat_message s true (wrapping_up wide s t)) (
      chat_message-keeps true (wrapping_up wide s t)
        (on_report wrapping_report (record t.agent { reads_closed = true }) (on_close t.agent k)))

  ended-keeps : (p : Talk × Bool) → P p.0.agent → P (ended wide s p).0.agent
  ended-keeps (t, false) k = k
  ended-keeps (t, true) k = elim (Bool-cases (is_nothing t.agent.title)) [
    | inl d ↦ rw d (finalize-keeps t k)
    | inr d ↦ rw d k
  ]

  pub run-keeps : (max max_calls : ℕ) (a : Agent) → P a → P (run wide s max max_calls a).0.agent
  unfolding run
  run-keeps max max_calls a k =
      let t : Talk = record { agent = a; messages = first_messages wide s a.list; sent = [] } in
      ended-keeps (run_rounds wide s max max_calls max 0 0 t)
        (run_rounds-keeps max max_calls max 0 0 t k)
