-- ===== src/Base/Dict.antt =====
-- Go maps and directories keyed by text, as association lists.
use mathlib.Core.List.{List, [], ◌∷◌, map}
use mathlib.Core.Logic.{◌≢◌}
use mathlib.Core.Option.{Option, none, some}
use mathlib.Core.Path.{◌≡◌, refl}
use native.Mathlib.Omega.{arith}
use filestor.Base.Strings.{Text, text_eq, text_eq_iff, text_eq_self}
use filestor.Base.Tests.{if◌then◌else◌, Bool-cases}
use filestor.Base.Lists.{length, All}
use mathlib.Core.Logic.{inl, inr}
use Prim.Native.Nat.{◌+◌, ◌≤◌}

module _ {ℓ} {V : Type ℓ} where
  unfoldable pub lookup : Text → List (Text × V) → Option V
  lookup key [] = none
  lookup key (entry ∷ rest) =
      let later = lookup key rest in if text_eq entry.0 key then some entry.1 else later

  -- m[key] = value: the first entry of the key changes, or a new one goes last
  unfoldable pub insert : Text → V → List (Text × V) → List (Text × V)
  insert key value [] = (key, value) ∷ []
  insert key value (entry ∷ rest) =
      let changed = insert key value rest in
      if text_eq entry.0 key then (key, value) ∷ rest else entry ∷ changed

  -- delete(m, key): every entry of the key goes
  unfoldable pub remove : Text → List (Text × V) → List (Text × V)
  remove key [] = []
  remove key (entry ∷ rest) =
      let others = remove key rest in if text_eq entry.0 key then others else entry ∷ others

  pub lookup-insert :
      (changed asked : Text) (value : V) (dict : List (Text × V))
      → lookup asked (insert changed value dict)
        ≡ (if text_eq changed asked then some value else lookup asked dict)
  unfolding lookup insert
  lookup-insert changed asked value [] = refl
  lookup-insert changed asked value (entry ∷ rest) =
      let first = text_eq_iff entry.0 in
      ground (
        arith,
        first changed,
        first asked,
        text_eq_iff changed asked,
        lookup-insert changed asked value rest,
      )

  pub lookup-remove :
      (dropped asked : Text) (dict : List (Text × V))
      → lookup asked (remove dropped dict)
        ≡ (if text_eq dropped asked then none else lookup asked dict)
  unfolding lookup remove
  lookup-remove dropped asked [] = ground arith
  lookup-remove dropped asked (entry ∷ rest) =
      let first = text_eq_iff entry.0 in
      ground (
        arith,
        first dropped,
        first asked,
        text_eq_iff dropped asked,
        lookup-remove dropped asked rest,
      )

  -- the keys, in order
  abbrev pub keys : List (Text × V) → List Text
  keys = map (λ e. e.0)

  pub lookup-insert_self :
      (k : Text) (v : V) (m : List (Text × V)) → lookup k (insert k v m) ≡ some v
  lookup-insert_self k v m = rw (lookup-insert, text_eq_self k)

  pub lookup-insert_ne :
      (k j : Text) (v : V) (m : List (Text × V)) → j ≢ k → lookup j (insert k v m) ≡ lookup j m
  lookup-insert_ne k j v m h = rw lookup-insert (ground (arith, text_eq_iff k j))

  pub length-insert_le :
      (k : Text) (v : V) (m : List (Text × V)) → length (insert k v m) ≤ length m + 1
  unfolding insert
  length-insert_le k v [] = omega arith
  length-insert_le k v (e ∷ m) = ground (arith, length-insert_le k v m)

  pub All-insert :
      (P : Text × V → Type 0) (k : Text) (v : V) (m : List (Text × V))
      → P (k, v)
      → All P m
      → All P (insert k v m)
  unfolding insert
  All-insert P k v [] p a = (p, a)
  All-insert P k v (e ∷ m) p a = elim (Bool-cases (text_eq e.0 k)) [
    | inl d ↦ rw d (p, a.1)
    | inr d ↦ rw d (a.0, All-insert P k v m p a.1)
  ]
