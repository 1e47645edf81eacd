-- ===== src/Analyze/Loop/Trim.antt =====
-- trimImageMessages keeps the newest images (analyze.go).
use filestor.Base.{
  ℕ, ◌+◌, min, ◌≡◌, refl, ap, ◌∙◌, ◌&&◌, List, [], ◌∷◌, ◌++◌, reverse, reverse-cons, reverse-append,
  ltb, leb, if◌then◌else◌, arith,
}
use filestor.Analyze.{Message, image_omitted}
use filestor.Analyze.Loop.{is_images, max_images, trim_back, trim_image_messages}

-- the messages with images
unfoldable pub count_images : List Message → ℕ
count_images [] = 0
count_images (m ∷ ms) = (if is_images m then 1 else 0) + count_images ms

-- The description without a loop from the end: a message with images goes when at least as many as
-- may stay come after it.
unfoldable pub keep_newest : List Message → List Message
unfolding count_images
keep_newest [] = []
keep_newest (m ∷ ms) =
    (if is_images m && leb max_images (count_images ms) then image_omitted else m) ∷ keep_newest ms

abbrev trimmed_after : ℕ → Message → Message
trimmed_after seen m = if is_images m && leb max_images seen then image_omitted else m

trim_back-append :
    (seen : ℕ) (xs ys : List Message)
    → trim_back seen (xs ++ ys) ≡ trim_back seen xs ++ trim_back (seen + count_images xs) ys
unfolding count_images
trim_back-append seen [] ys = ap (λ n. trim_back n ys) (omega arith)
trim_back-append seen (x ∷ xs) ys =
    ap
      (λ l.
        (if is_images x && ltb max_images (if is_images x then seen + 1 else seen)
          then image_omitted
          else x)
        ∷ l)
      (trim_back-append (if is_images x then seen + 1 else seen) xs ys
        ∙ ap (λ n. trim_back (if is_images x then seen + 1 else seen) xs ++ trim_back n ys)
            (counted x))
  where
    counted :
        (x : Message)
        → (if is_images x then seen + 1 else seen) + count_images xs
          ≡ seen + ((if is_images x then 1 else 0) + count_images xs)
    counted x = ground arith

count_images-append :
    (xs ys : List Message) → count_images (xs ++ ys) ≡ count_images xs + count_images ys
unfolding count_images
count_images-append [] ys = omega arith
count_images-append (x ∷ xs) ys = omega (arith, count_images-append xs ys)

count_images-reverse : (xs : List Message) → count_images (reverse xs) ≡ count_images xs
unfolding count_images
count_images-reverse [] = refl
count_images-reverse (x ∷ xs) =
    rw (reverse-cons, count_images-append) (omega (arith, count_images-reverse xs))

trim_image_messages-nil : trim_image_messages [] ≡ []
unfolding trim_image_messages
trim_image_messages-nil = refl

trim_image_messages-cons :
    (m : Message) (ms : List Message)
    → trim_image_messages (m ∷ ms) ≡ trimmed_after (count_images ms) m ∷ trim_image_messages ms
unfolding trim_image_messages
trim_image_messages-cons m ms =
    rw (reverse-cons, trim_back-append, reverse-append, count_images-reverse)
      (ap (λ x. x ∷ reverse (trim_back 0 (reverse ms))) (same_test (count_images ms)))
  where
    same_test :
        (n : ℕ)
        → (if is_images m && ltb max_images (if is_images m then 0 + n + 1 else 0 + n)
            then image_omitted
            else m)
          ≡ trimmed_after n m
    same_test n = ground arith

pub trim_image_messages-keep_newest : (ms : List Message) → trim_image_messages ms ≡ keep_newest ms
unfolding keep_newest
trim_image_messages-keep_newest [] = trim_image_messages-nil
trim_image_messages-keep_newest (m ∷ ms) =
    trim_image_messages-cons m ms
    ∙ ap (◌∷◌ (trimmed_after (count_images ms) m)) (trim_image_messages-keep_newest ms)

kept_one :
    (m : Message) (n k : ℕ)
    → k ≡ min 4 n
    → (if is_images (if is_images m && leb max_images n then image_omitted else m) then 1 else 0)
        + k
      ≡ min 4 ((if is_images m then 1 else 0) + n)
kept_one m n k e = ground arith

pub count_images-keep_newest :
    (ms : List Message) → count_images (keep_newest ms) ≡ min 4 (count_images ms)
unfolding count_images keep_newest
count_images-keep_newest [] = omega arith
count_images-keep_newest (m ∷ ms) =
    kept_one m (count_images ms) (count_images (keep_newest ms)) (count_images-keep_newest ms)

-- trimImageMessages, which counts from the last message to the first, replaces just the messages
-- with images that have four or more such messages after them, and so leaves four, or all if there
-- are fewer.
pub trim_image_messages-newest :
    (ms : List Message)
    → (trim_image_messages ms ≡ keep_newest ms)
      × (count_images (trim_image_messages ms) ≡ min 4 (count_images ms))
trim_image_messages-newest ms = (
  trim_image_messages-keep_newest ms,
  ap count_images (trim_image_messages-keep_newest ms) ∙ count_images-keep_newest ms,
)
