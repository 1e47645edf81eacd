-- ===== src/Workspace/Leftovers.antt =====
-- What failed writes leave under .filestor (analyze.go: writeDerived, toolMarkText, toolMarkImage).
use mathlib.Core.List.{Mem, mem-cons_self, mem-cons_of_mem}
use filestor.Base.{
  ℕ, ◌≤◌, List, [], ◌∷◌, Option, none, some, All, All-insert, Text, length, take, length-take,
  arith,
}
use filestor.Workspace.{torn}

pub All-Mem :
    (P : Text × Text → Type 0) (dir : List (Text × Text))
    → ((f : Text × Text) → Mem f dir → P f)
    → All P dir
All-Mem P [] p = tt
All-Mem P (x ∷ dir) p = (p x mem-cons_self, All-Mem P dir (λ f m. p f (mem-cons_of_mem x m)))

pub All-torn :
    (P : Text × Text → Type 0) (cut : Option ℕ) (name bytes : Text) (dir : List (Text × Text))
    → ((part : Text) → length part ≤ length bytes → P (name, part))
    → All P dir
    → All P (torn cut name bytes dir)
All-torn P none name bytes dir p ok = ok
All-torn P (some k) name bytes dir p ok =
    All-insert P name (take k bytes) dir (p (take k bytes) (ground (arith, length-take k bytes))) ok
