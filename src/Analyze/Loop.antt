-- ===== src/Analyze/Loop.antt =====
-- The rounds of a run (analyze.go: run, finalize, chatMessage, trimImageMessages). `sent` records the
-- messages of each request to the model, in order.
pub mod Trim
pub mod Protocol
pub mod Requests
pub mod Invariant
pub mod Titled
use filestor.Base.{
  ℕ, zero, suc, ◌+◌, Bool, true, false, ◌&&◌, ◌||◌, not, List, [], ◌∷◌, ◌++◌, reverse, Option, none,
  some, ltb, leb, ◌==◌, any, if◌then◌else◌, length, Text, codes, trim_space, decimal,
}
use filestor.Names.Title.{sanitize_push_title}
use filestor.Hub.{JobProgress, no_progress}
use filestor.Analyze.{
  Entry, Agent, Disk, Service, ToolCall, Message, system_prompt, wrap_up, image_omitted, listing,
  nudge, images, assistant, tool_reply, ChatResponse, request_failed, responded,
}
use filestor.Analyze.Marks.{is_nothing}
use filestor.Analyze.Tools.{run_tool, report, store_title}

abbrev pub max_images : ℕ
max_images = 4

abbrev pub is_images : Message → Bool
is_images (images imgs) = true
is_images _ = false

-- the loop of trimImageMessages, from the last message to the first
abbrev pub trim_back : ℕ → List Message → List Message
trim_back seen [] = []
trim_back seen (m ∷ ms) =
    let seen' = if is_images m then seen + 1 else seen in
    (if is_images m && ltb max_images seen' then image_omitted else m) ∷ trim_back seen' ms

-- trimImageMessages
unfoldable pub trim_image_messages : List Message → List Message
trim_image_messages ms = reverse (trim_back 0 (reverse ms))

pub record Talk : Type 0 where
  pub agent : Agent
  pub messages : List Message
  pub sent : List (List Message)

-- What the model says: a text, and tool calls.
abbrev pub Said : Type 0
Said = Text × List ToolCall

abbrev pub said_by : Talk → ChatResponse → Talk × Option Said
said_by t request_failed = (t, none)
said_by t (responded true choices) = (t, none)
said_by t (responded false []) = (t, none)
said_by t (responded false ((content, calls) ∷ choices)) =
    (record t { messages = t.messages ++ assistant content calls ∷ [] }, some (content, calls))

-- chatMessage
unfoldable pub chat_message : Service → Bool → Talk → Talk × Option Said
chat_message s wrapping t =
    said_by (record t { sent = t.sent ++ t.messages ∷ [] }) (s.chat t.messages wrapping)

abbrev pub no_calls : List ToolCall → Bool
no_calls [] = true
no_calls (c ∷ cs) = false

abbrev pub add_if : Bool → Message → List Message → List Message
add_if b m ms = if b then ms ++ m ∷ [] else ms

-- nudgeMessage; whether the title is missing
abbrev pub nudge_message : Agent → Message
nudge_message a = nudge (is_nothing a.title)

abbrev pub round_text : ℕ → ℕ → Text
round_text round max = codes "round " ++ (decimal (round + 1) ++ (b'/' ∷ decimal max))

abbrev pub first_line : Text → Text
first_line [] = []
first_line (c ∷ s) = if c == 10 || c == 13 then [] else c ∷ first_line s

-- the title in a plain answer
abbrev pub plain_title : Text → Text
plain_title content =
    let text = trim_space content in
    if any (λ c. c == 10 || c == 13) text then trim_space (first_line text) else text

abbrev pub round_report : ℕ → ℕ → JobProgress
round_report max round = record no_progress {
  message = round_text round max;
  done = round;
  total = max;
}

abbrev pub wrapping_report : JobProgress
wrapping_report = record no_progress { message = codes "wrapping up" }

module _ (wide : ℕ → Bool) (s : Service) where
  -- the loop over the tool calls: the replies join the messages, the images wait in `extra`
  unfoldable pub run_calls : List ToolCall → List Message → Talk → List Message × Talk
  unfolding run_tool
  run_calls [] extra t = (extra, t)
  run_calls (tc ∷ tcs) extra t =
      let (a, reply, imgs) = run_tool wide (s.disk t.messages) tc t.agent in
      run_calls tcs (extra ++ imgs) (record t { agent = a; messages = t.messages ++ reply ∷ [] })

  -- the tool calls, and then the images behind the replies
  abbrev pub answer_calls : List ToolCall → Talk → Talk
  answer_calls tcs t =
      let (extra, t') = run_calls tcs [] t in record t' { messages = t'.messages ++ extra }

  abbrev pub trimmed : Talk → Talk
  trimmed t = record t { messages = trim_image_messages t.messages }

  abbrev pub nudged : List ToolCall → Talk → Talk
  nudged tcs t = record t { messages = add_if (no_calls tcs) (nudge_message t.agent) t.messages }

  abbrev pub round_start : ℕ → ℕ → Talk → Talk
  round_start max round t = record t { agent = report (round_report max round) t.agent }

  -- One round after the answer: the loop ends, or goes on with `next`.
  abbrev pub after_answer : ℕ → ℕ → (ℕ → Talk → Talk × Bool) → Talk × Option Said → Talk × Bool
  after_answer max_calls calls next (t, none) = (t, false)
  after_answer max_calls calls next (t, some (content, tcs)) =
      let t' = trimmed (answer_calls tcs t) in
      let calls' = calls + length tcs in
      if t'.agent.finished || leb max_calls calls' then (t', true) else next calls' (nudged tcs t')

  -- The loop over the rounds: how many are left, which is next, the tool calls so far. The flag is
  -- false after a request that failed.
  unfoldable pub run_rounds : ℕ → ℕ → ℕ → ℕ → ℕ → Talk → Talk × Bool
  unfolding chat_message run_calls trim_image_messages
  run_rounds max max_calls zero round calls t = (t, true)
  run_rounds max max_calls (suc left) round calls t =
      after_answer max_calls calls (run_rounds max max_calls left (round + 1))
        (chat_message s false (round_start max round t))

  abbrev pub result_of : Talk → Agent × Bool → Text → Talk × Option Text
  result_of t (a, true) title = (record t { agent = a }, some title)
  result_of t (a, false) title = (record t { agent = a }, none)

  abbrev pub title_from : Talk → Option Text → Talk × Option Text
  title_from t none = (t, none)
  title_from t (some title) = result_of t (store_title (s.disk t.messages) title t.agent) title

  abbrev pub finalized : Talk × Option Said → Talk × Option Text
  finalized (t, none) = (t, none)
  finalized (t, some (content, tcs)) =
      let t' = answer_calls tcs t in
      if is_nothing t'.agent.title
      then title_from t' (sanitize_push_title wide (plain_title content))
      else (t', some t'.agent.title)

  abbrev pub wrapping_up : Talk → Talk
  wrapping_up t = record t {
    agent = report wrapping_report (record t.agent { reads_closed = true });
    messages = t.messages ++ wrap_up ∷ [];
  }

  -- finalize
  unfoldable pub finalize : Talk → Talk × Option Text
  unfolding chat_message run_calls store_title sanitize_push_title trim_space
  finalize t = finalized (chat_message s true (wrapping_up t))

  abbrev pub ended : Talk × Bool → Talk × Option Text
  ended (t, false) = (t, none)
  ended (t, true) = if is_nothing t.agent.title then finalize t else (t, some t.agent.title)

  abbrev pub first_messages : List Entry → List Message
  first_messages list = system_prompt ∷ listing list ∷ []

  -- run, from the loop on: the title, or none for an error
  unfoldable pub run : ℕ → ℕ → Agent → Talk × Option Text
  unfolding run_rounds finalize
  run max max_calls a = ended (
      run_rounds max max_calls max 0 0
        (record { agent = a; messages = first_messages a.list; sent = [] }))
