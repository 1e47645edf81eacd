-- ===== src/Analyze/Loop/Protocol.antt =====
-- Every request of a run keeps the order that chat APIs ask for (analyze.go: run, finalize, runTool):
-- a message with tool calls is followed at once by one reply for each, in order.
use filestor.Base.{
  ℕ, ◌≡◌, refl, sym, ap, subst, ◌∙◌, inl, inr, Bool, true, false, ◌&&◌, List, [], ◌∷◌, ◌++◌, map,
  leb, Bool-cases, Text, text_eq, text_eq_self, append-nil, append_assoc, arith,
}
use filestor.Analyze.{Service, ToolCall, Message, images, assistant, tool_reply}
use filestor.Analyze.Tools.{image_messages, answer_args}
use filestor.Analyze.Loop.{Talk, run_calls, answer_calls, trim_image_messages, max_images}
use filestor.Analyze.Loop.Trim.{keep_newest, count_images, trim_image_messages-keep_newest}

-- The messages go on after calls that still wait for replies, with these ids.
unfoldable pub answers : List Text → List Message → Bool
answers (id ∷ ids) (tool_reply i r ∷ ms) = text_eq id i && answers ids ms
answers (id ∷ ids) _ = false
answers [] (assistant content calls ∷ ms) = answers (map (λ c. c.id) calls) ms
answers [] (tool_reply i r ∷ ms) = false
answers [] (m ∷ ms) = answers [] ms
answers [] [] = true

abbrev pub KeepsOrder : List Message → Type 0
KeepsOrder ms = answers [] ms ≡ true

pub answers-append :
    (ids : List Text) (ms more : List Message)
    → answers ids ms ≡ true
    → answers ids (ms ++ more) ≡ answers [] more
unfolding answers
answers-append [] [] more h = refl
answers-append [] (assistant content calls ∷ ms) more h =
    answers-append (map (λ c. c.id) calls) ms more h
answers-append [] (tool_reply i r ∷ ms) more h = cc
answers-append [] (_ ∷ ms) more h = answers-append [] ms more h
answers-append (id ∷ ids) [] more h = cc
answers-append (id ∷ ids) (tool_reply i r ∷ ms) more h = ground (arith, answers-append ids ms more)
answers-append (id ∷ ids) (_ ∷ ms) more h = cc

answers-keep_newest :
    (ids : List Text) (ms : List Message) → answers ids (keep_newest ms) ≡ answers ids ms
unfolding answers keep_newest
answers-keep_newest [] [] = refl
answers-keep_newest [] (assistant content calls ∷ ms) =
    answers-keep_newest (map (λ c. c.id) calls) ms
answers-keep_newest [] (tool_reply i r ∷ ms) = refl
answers-keep_newest [] (images imgs ∷ ms) = elim (Bool-cases (leb max_images (count_images ms))) [
  | inl e ↦ rw e (answers-keep_newest [] ms)
  | inr e ↦ rw e (answers-keep_newest [] ms)
]
answers-keep_newest [] (_ ∷ ms) = answers-keep_newest [] ms
answers-keep_newest (id ∷ ids) [] = refl
answers-keep_newest (id ∷ ids) (tool_reply i r ∷ ms) =
    ap (λ b. text_eq id i && b) (answers-keep_newest ids ms)
answers-keep_newest (id ∷ ids) (images imgs ∷ ms) =
    elim (Bool-cases (leb max_images (count_images ms))) [ inl e ↦ rw e refl | inr e ↦ rw e refl ]
answers-keep_newest (id ∷ ids) (_ ∷ ms) = refl

pub KeepsOrder-trim : (ms : List Message) → KeepsOrder ms → KeepsOrder (trim_image_messages ms)
KeepsOrder-trim ms h = rw (trim_image_messages-keep_newest, answers-keep_newest) h

-- One message, or some with images, behind a list that is complete.
pub KeepsOrder-append :
    (ms more : List Message) → KeepsOrder ms → KeepsOrder more → KeepsOrder (ms ++ more)
KeepsOrder-append ms more h k = answers-append [] ms more h ∙ k

-- What the tool calls of one turn add: their replies, and images that wait.
record Replies (calls : List ToolCall) (extra : List Message) (t : Talk) (r : List Message × Talk)
    : Type 0 where
  replies : List Message
  more : List Message
  appended : r.1.messages ≡ t.messages ++ replies
  waiting : r.0 ≡ extra ++ more
  complete : answers (map (λ c. c.id) calls) replies ≡ true
  in_order : answers [] more ≡ true
  sent_same : r.1.sent ≡ t.sent

image_messages-order : (imgs : List (Text × Text)) → answers [] (image_messages imgs) ≡ true
unfolding answers
image_messages-order [] = refl
image_messages-order (i ∷ imgs) = refl

module _ (wide : ℕ → Bool) (s : Service) where
  run_calls-Replies :
      (calls : List ToolCall) (extra : List Message) (t : Talk)
      → Replies calls extra t (run_calls wide s calls extra t)
  unfolding run_calls answers
  run_calls-Replies [] extra t = record {
    replies = [];
    more = [];
    appended = sym (append-nil t.messages);
    waiting = sym (append-nil extra);
    complete = refl;
    in_order = refl;
    sent_same = refl;
  }
  run_calls-Replies (tc ∷ tcs) extra t =
      let answer = answer_args wide (s.disk t.messages) tc.tool t.agent tc.args in
      let imgs = image_messages answer.2 in
      let reply = tool_reply tc.id answer.1 in
      let t' = record t { agent = answer.0; messages = t.messages ++ reply ∷ [] } in
      let r = run_calls-Replies tcs (extra ++ imgs) t' in
      record {
        replies = reply ∷ r.replies;
        more = imgs ++ r.more;
        appended = r.appended ∙ append_assoc t.messages (reply ∷ []) r.replies;
        waiting = r.waiting ∙ append_assoc extra imgs r.more;
        complete = rw (text_eq_self tc.id) r.complete;
        in_order = KeepsOrder-append imgs r.more (image_messages-order answer.2) r.in_order;
        sent_same = r.sent_same;
      }

  pub answer_calls-order :
      (content : Text) (calls : List ToolCall) (base : List Message) (t : Talk)
      → KeepsOrder base
      → t.messages ≡ base ++ assistant content calls ∷ []
      → let t' = answer_calls wide s calls t in KeepsOrder t'.messages × (t'.sent ≡ t.sent)
  unfolding answers
  answer_calls-order content calls base t ok e =
      let r = run_calls-Replies calls [] t in
      let turn = assistant content calls ∷ (r.replies ++ r.more) in
      let whole : (answer_calls wide s calls t).messages ≡ base ++ turn =
        ap (λ m. m ++ (run_calls wide s calls [] t).0) (r.appended ∙ ap (λ m. m ++ r.replies) e)
        ∙ ap (λ x. ((base ++ assistant content calls ∷ []) ++ r.replies) ++ x) r.waiting
        ∙ append_assoc (base ++ assistant content calls ∷ []) r.replies r.more
        ∙ append_assoc base (assistant content calls ∷ []) (r.replies ++ r.more) in
      (
        subst KeepsOrder (sym whole) (
            KeepsOrder-append base turn ok
              (answers-append _ r.replies r.more r.complete ∙ r.in_order)),
        r.sent_same,
      )
