-- ===== src/Hub/Throttle.antt =====
-- Throttled progress: what goes out to the subscribers.
use filestor.Base.{
  ℕ, ◌+◌, ◌≤◌, ◌≡◌, true, false, List, [], ◌∷◌, Option, none, some, if◌then◌else◌, inl, inr,
  Bool-cases, arith,
}
use mathlib.Core.Path.{subst}
use filestor.Hub.{JobProgress, Hub, progress_min_interval, too_soon, set_job, emit_progress}

-- A push job reports its progress at these times, throttled.
unfoldable pub reports : List (ℕ × JobProgress) → Hub → Hub
reports [] h = h
reports ((now, p) ∷ rs) h = reports rs (emit_progress now p true h)

-- the times at which an event goes out
unfoldable pub out_times : List (ℕ × JobProgress) → Hub → List ℕ
out_times [] h = []
out_times ((now, p) ∷ rs) h =
    let rest = out_times rs (emit_progress now p true h) in
    if (set_job now p true h).1 then now ∷ rest else rest

abbrev pub After : Option ℕ → ℕ → Type 0
After none t = Unit {0}
After (some last) t = last + progress_min_interval ≤ t

-- Each time is at least the interval after the one before it.
abbrev pub Spaced : Option ℕ → List ℕ → Type 0
Spaced last [] = Unit
Spaced last (t ∷ ts) = After last t × Spaced (some t) ts

soon-After : (now : ℕ) (last : Option ℕ) → too_soon now last ≡ false → After last now
soon-After now none e = tt
soon-After now (some last) e = ground arith

emit_out :
    (now : ℕ) (p : JobProgress) (h : Hub)
    → (set_job now p true h).1 ≡ true
    → ((emit_progress now p true h).last_prog ≡ some now) × After h.last_prog now
unfolding emit_progress
emit_out now p h e = (ground arith, soon-After now h.last_prog (ground arith))

emit_kept :
    (now : ℕ) (p : JobProgress) (h : Hub)
    → (set_job now p true h).1 ≡ false
    → (emit_progress now p true h).last_prog ≡ h.last_prog
unfolding emit_progress
emit_kept now p h e = ground arith

-- The events that throttled progress reports publish are at least 100 ms apart, and as far from
-- the last one before them.
pub out_times-Spaced : (rs : List (ℕ × JobProgress)) (h : Hub) → Spaced h.last_prog (out_times rs h)
unfolding out_times
out_times-Spaced [] h = tt
out_times-Spaced ((now, p) ∷ rs) h = elim (Bool-cases (set_job now p true h).1) [
  | inl e ↦ rw e (
    (emit_out now p h e).1,
    subst (λ l. Spaced l (out_times rs (emit_progress now p true h))) (emit_out now p h e).0
        (out_times-Spaced rs (emit_progress now p true h)),
  )
  | inr e ↦ rw e (
      subst (λ l. Spaced l (out_times rs (emit_progress now p true h))) (emit_kept now p h e)
        (out_times-Spaced rs (emit_progress now p true h)))
]
