-- ===== src/Convert/Ensures.antt =====
-- Reasoning on conversions (convert.go): what a result satisfies, whatever the commands do, composed
-- the way the conversions are.
use filestor.Base.{
  ℕ, suc, ◌≤◌, ◌≡◌, ◌≢◌, inl, inr, Bool, true, false, List, [], ◌∷◌, Option, some, none, All, arith,
  ap, length, take, if◌then◌else◌, Text, Bool-cases, length-take, leb→le, cons_ne_nil,
}
use filestor.Convert.Images.{fits}
use filestor.Convert.{
  Files, Conversion, ◌>>=◌, then_on, give, fail, caught, or_else, some_of, add_result, gather,
  within_temp,
}

-- what a result satisfies, if there is one
abbrev pub Holds {ℓ κ} : {A : Type ℓ} → (A → Type κ) → Option A → Type κ
Holds P none = Unit
Holds P (some a) = P a

abbrev pub Ensures {ℓ κ} : {A : Type ℓ} → (A → Type κ) → Conversion A → Type κ
Ensures P m = (files : Files) → Holds P (m files).1

module _ {ℓ κ μ} {A : Type ℓ} {B : Type μ} (P : B → Type κ) where
  pub bind-Ensures :
      (m : Conversion A) (f : A → Conversion B) → ((a : A) → Ensures P (f a)) → Ensures P (m >>= f)
  unfolding ◌>>=◌
  bind-Ensures m f h files = on_result (m files)
    where
      on_result : (r : Files × Option A) → Holds P (then_on r f).1
      on_result (files', none) = tt
      on_result (files', some a) = h a files'

module _ {ℓ κ} {A : Type ℓ} (P : A → Type κ) where
  pub fail-Ensures : Ensures P fail
  fail-Ensures files = tt

  pub give-Ensures : (a : A) → P a → Ensures P (give a)
  give-Ensures a p files = p

  pub if-Ensures :
      (c : Bool) (m n : Conversion A) → Ensures P m → Ensures P n → Ensures P (if c then m else n)
  if-Ensures true m n hm hn = hm
  if-Ensures false m n hm hn = hn

  pub or_else-Ensures : (m n : Conversion A) → Ensures P m → Ensures P n → Ensures P (or_else m n)
  unfolding or_else
  or_else-Ensures m n hm hn files = on_result (m files) (hm files)
    where
      on_result : (r : Files × Option A) → Holds P r.1 → Holds P (caught r n).1
      on_result (files', none) h = hn files'
      on_result (files', some a) h = h

  pub within_temp-Ensures :
      (o : Option Text) (f : Text → Conversion A)
      → ((tmp : Text) → Ensures P (f tmp))
      → Ensures P (within_temp o f)
  unfolding within_temp
  within_temp-Ensures none f h files = tt
  within_temp-Ensures (some tmp) f h files = h tmp files

-- an image that can be sent: not empty, and within the limit
abbrev pub Fits : ℕ → Text → Type 0
Fits limit bytes = (bytes ≢ []) × (length bytes ≤ limit)

fits→Fits : (limit : ℕ) (bytes : Text) → fits limit bytes ≡ true → Fits limit bytes
fits→Fits limit [] eq = absurd (ground arith)
fits→Fits limit (c ∷ s) eq = (cons_ne_nil c s, leb→le (length (c ∷ s)) limit eq)

pub if_fits-Ensures :
    (limit : ℕ) (bytes : Text) (m : Conversion Text)
    → Ensures (Fits limit) m
    → Ensures (Fits limit) (if fits limit bytes then give bytes else m)
if_fits-Ensures limit bytes m h files = elim (Bool-cases (fits limit bytes)) [
  | inl e ↦ rw e (fits→Fits limit bytes e)
  | inr e ↦ rw e (h files)
]

-- no more images than the limit, each of which can be sent, and not none
abbrev pub FewImages : ℕ → ℕ → List Text → Type 0
FewImages count limit images = All (Fits limit) images × (length images ≤ count) × (images ≢ [])

module _ {ℓ κ μ} {A : Type ℓ} {B : Type μ} (P : B → Type κ) (f : A → Conversion B) where
  abbrev UpTo : ℕ → List B → Type κ
  UpTo n bs = All P bs × (length bs ≤ n)

  add_result-UpTo :
      (n : ℕ) (r : Option B) (bs : List B) → Holds P r → UpTo n bs → UpTo (suc n) (add_result r bs)
  add_result-UpTo n none bs h (ps, le) = (ps, omega (arith, le))
  add_result-UpTo n (some b) bs h (ps, le) = ((h, ps), omega (arith, le))

  gather-UpTo : (l : List A) → ((a : A) → Ensures P (f a)) → Ensures (UpTo (length l)) (gather f l)
  unfolding gather ◌>>=◌
  gather-UpTo [] h files = (tt, omega arith)
  gather-UpTo (a ∷ l) h files = on_result (gather-UpTo l h) (f a files) (h a files)
    where
      on_rest :
          (r : Option B) (s : Files × Option (List B))
          → Holds P r
          → Holds (UpTo (length l)) s.1
          → Holds (UpTo (length (a ∷ l))) (then_on s (λ bs. give (add_result r bs))).1
      on_rest r (files', none) p q = tt
      on_rest r (files', some bs) p q = add_result-UpTo (length l) r bs p q

      on_result :
          Ensures (UpTo (length l)) (gather f l)
          → (r : Files × Option B) → Holds P r.1
          → Holds
              (UpTo (length (a ∷ l)))
              (then_on (gather f l r.0) (λ bs. give (add_result r.1 bs))).1
      on_result ih (files', r) p = on_rest r (gather f l files') p (ih files')

pub take_le {ℓ} : {A : Type ℓ} (n : ℕ) (l : List A) → length (take n l) ≤ n
take_le n l = omega (arith, length-take n l)

module _ (count limit : ℕ) (f : Text → Conversion Text) where
  -- the images of the first paths, when there are some
  pub first_images-Ensures :
      (paths : List Text)
      → ((path : Text) → Ensures (Fits limit) (f path))
      → Ensures (FewImages count limit) (do images ← gather f (take count paths); some_of images)
  unfolding ◌>>=◌
  first_images-Ensures paths h files =
      on_result (gather f (take count paths) files)
        (gather-UpTo (Fits limit) f (take count paths) (λ path. h path) files)
    where
      on_result :
          (r : Files × Option (List Text))
          → Holds (UpTo (Fits limit) f (length (take count paths))) r.1
          → Holds (FewImages count limit) (then_on r some_of).1
      on_result (files', none) p = tt
      on_result (files', some []) p = tt
      on_result (files', some (b ∷ bs)) (ps, le) =
          (ps, omega (arith, le, take_le count paths), λ e. absurd (omega (arith, ap length e)))
