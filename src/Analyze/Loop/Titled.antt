-- ===== src/Analyze/Loop/Titled.antt =====
-- The title that a run returns (analyze.go: run, finalize): the one that it has stored.
use filestor.Base.{
  ℕ, ◌≡◌, refl, inl, inr, Bool, true, false, [], ◌∷◌, Option, none, some, Bool-cases, Text,
}
use filestor.Names.Title.{sanitize_push_title, is_blank_text}
use filestor.Names.Title.Accepted.{sanitize_push_title-IsTitle}
use filestor.Workspace.{save}
use filestor.Server.{emit_state}
use filestor.Analyze.{Agent, Disk, Service}
use filestor.Analyze.Marks.{is_nothing}
use filestor.Analyze.Tools.{store_title}
use filestor.Analyze.Loop.{
  Talk, Said, chat_message, answer_calls, run_rounds, result_of, title_from, finalized, wrapping_up,
  finalize, ended, first_messages, run, plain_title,
}

-- A returned title is the agent's, and not empty.
abbrev pub HasTitle : Talk × Option Text → Type 0
HasTitle (t, none) = Unit
HasTitle (t, some title) = (t.agent.title ≡ title) × (is_nothing title ≡ false)

is_nothing-is_blank : (t : Text) → is_blank_text t ≡ false → is_nothing t ≡ false
is_nothing-is_blank [] h = cc
is_nothing-is_blank (c ∷ t) h = refl

module _ (wide : ℕ → Bool) (s : Service) where
  store_title-HasTitle :
      (d : Disk) (title : Text) (t : Talk)
      → is_nothing title ≡ false
      → HasTitle (result_of wide s t (store_title d title t.agent) title)
  unfolding store_title save emit_state
  store_title-HasTitle d title t h = elim (Bool-cases d.saves) [
    | inl e ↦ rw e (refl, h)
    | inr e ↦ rw e tt
  ]

  title_from-HasTitle :
      (t : Talk) (given : Text) (title : Option Text)
      → sanitize_push_title wide given ≡ title
      → HasTitle (title_from wide s t title)
  title_from-HasTitle t given none e = tt
  title_from-HasTitle t given (some title) e =
      store_title-HasTitle (s.disk t.messages) title t
        (is_nothing-is_blank title (sanitize_push_title-IsTitle wide given e).not_blank)

  finalized-HasTitle : (p : Talk × Option Said) → HasTitle (finalized wide s p)
  finalized-HasTitle (t, none) = tt
  finalized-HasTitle (t, some (content, tcs)) =
      let t' = answer_calls wide s tcs t in
      elim (Bool-cases (is_nothing t'.agent.title)) [
        | inl d ↦ rw d (
            title_from-HasTitle t' (plain_title content)
              (sanitize_push_title wide (plain_title content)) refl)
        | inr d ↦ rw d (refl, d)
      ]

  ended-HasTitle : (p : Talk × Bool) → HasTitle (ended wide s p)
  unfolding finalize
  ended-HasTitle (t, false) = tt
  ended-HasTitle (t, true) = elim (Bool-cases (is_nothing t.agent.title)) [
    | inl d ↦ rw d (finalized-HasTitle (chat_message s true (wrapping_up wide s t)))
    | inr d ↦ rw d (refl, d)
  ]

  pub run-HasTitle : (max max_calls : ℕ) (a : Agent) → HasTitle (run wide s max max_calls a)
  unfolding run
  run-HasTitle max max_calls a =
      let t : Talk = record { agent = a; messages = first_messages wide s a.list; sent = [] } in
      ended-HasTitle (run_rounds wide s max max_calls max 0 0 t)
